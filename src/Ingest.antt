-- ===== src/Ingest.antt =====
-- internal/ingest: the gate that OTLP requests pass, the span sampler, and the queue of batches.
pub mod Ids
pub mod Sampler
pub mod Severity
pub mod Pipeline

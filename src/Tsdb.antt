-- ===== src/Tsdb.antt =====
-- internal/tsdb: tumbling metric windows and the ring that serves dashboards.
pub mod Aggregator
pub mod Ring

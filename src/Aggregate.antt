-- ===== src/Aggregate.antt =====
-- internal/aggregate: the durable aggregation engine's identities, budget and counters.
pub mod Histogram
pub mod Delta
pub mod Engine
pub mod Writer
pub mod Key
pub mod Budget
pub mod Limiter
pub mod Tracker
pub mod Cumulative
pub mod Dict
pub mod Sketch

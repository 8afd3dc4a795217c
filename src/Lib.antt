-- ===== src/Lib.antt =====
-- otelcontext: a verification library of the in-memory core of OtelContext, a self-hosted
-- OpenTelemetry backend (Go). Telemetry enters through the OTLP handlers, is reduced to aggregate
-- series, and leaves through dashboards; what bounds its memory and keeps its numbers right is
-- modelled here, from the sources and at their level of detail.
--
-- Base: numbers, tests, lists, Go's maps as association lists (Base/Map, with laws for lookups,
--   counts and counters), Go's `int` where its sign matters (Base/Int), and `float64` as an
--   interface (Base/Float): its operations are a parameter, and the laws that a theorem needs are
--   hypotheses of that theorem. Base/Samples evaluates the models over whole numbers.
-- Aggregate: internal/aggregate.
--   Key, Key/Codec, Key/Classes: key.go. The series key, `Validate`, the mappings from OTLP values,
--   `MarshalBinary` and `DecodeSeriesKey`.
--   Budget: cardinality.go, the caps (`LimiterConfig`, `nameCap`, `seriesCap`, `signalCap`) and the
--   overflow key. Limiter: `Admit`, `Release` and what they call; its children follow the census
--   of active series (Charged, Census, Leaving), the caps (Caps), what `Admit` records
--   (Admitting), histories of calls (Runs) and the set of names (Names).
--   Tracker: temporality.go, the state of the `BaselineTracker`. Cumulative: `ObserveCumulative`
--   by the branches of its evaluation order, `DrainDirty` and `Rollback`; its children say which
--   record a point touches (Slots), what a point makes of it (Points), all branches together
--   (Ledger) and a failed commit with its retry (Retry).
--   Dict: dict.go. The in-memory registrar with its caps and overflow entries, and `Intern` over its
--   cache. History and Capacity follow the registrar, Interning the cache (Agreement relates the two).
--   Sketch: sketch.go, the window of bins. Its children follow the window (Windows) and the counts
--   of its bins (Sums, Counts), histories of observations (Runs, Order), merges (Merging) and the
--   test that wraps (Far).
--   Sketch/Codec: sketch_codec.go, byte for byte, with the varints of `encoding/binary`.
--   Histogram: histogram.go, `FoldExponentialHistogram` into a sketch. Buckets, Totals and Landing follow
--   its loops; Folding is about well-formed points, Exact about every accepted one. Histogram/Bounds:
--   `FoldHistogram` for explicit bounds, with `ObserveN` of sketch.go.
--   Delta: delta.go, the `Observe` methods and `Merge`, without the sketch. Groups goes through
--   the groups of integer fields, Merging puts them together.
--   Engine: engine.go. The windows over the limiter and the deltas: `Rollover`, `MarkFinalized`, and
--   `PlanAdmission` with its commit and rollback. Occupancy, HandOver and Planning follow which
--   series the limiter and the shards hold, History puts the steps together, Conservation counts
--   points, Closed is about the cap on closed windows, and LateCommit about a commit after its
--   window was handed over. What Admit and Release leave present is Limiter/Admitting/Presence.
--   Writer: writer.go. `admit`, `release` and `commit` over the engine and the tracker, where the
--   answer of the store is a parameter. Budget follows the triple bound, Settling what a commit
--   leaves.
-- Tsdb/Aggregator: internal/tsdb/aggregator.go. `Ingest` with its caps per tenant and over all,
--   `flush` and the flush channel as a list of batches, of which a worker takes the oldest.
--   Counting follows the points, Caps the series of all tenants over histories of calls,
--   Fairness the buckets of one tenant.
-- Tsdb/Ring: internal/tsdb/ringbuffer.go. Advance is the window advance of one ring, Series the map
--   of the rings with its cap.
-- Queue/Dlq: internal/queue/dlq.go, `enforceLimits`. What the operating system answers is a
--   parameter. Files is the listing of the directory, Limits the eviction.
-- Queue/Dlq/Replay: `processFiles`, the replay tick with its retries, backoff and cap. Keeping is
--   what a tick leaves in place, Draining when ticks empty the queue.
-- Cache/Ttl: internal/cache/ttl.go. `Set` with its eviction loop, `Get` as its two locked steps,
--   `Delete` and the sweep of expired entries. Charges is the byte account, Room the loop, Bounds
--   the limits over histories, Lookup what a reader finds.
-- Ingest/Ids: internal/ingest/otlp_ids.go, the sanitizers of trace and log requests (Traces, Kept,
--   Logs).
-- Ingest/Sampler: internal/ingest/sampler.go, `ShouldSample` with its token buckets; Decisions
--   relates the counters to the decisions.
-- Ingest/Severity: internal/ingest/otlp.go, the order of log severities.
-- Ingest/Pipeline: internal/ingest/pipeline.go. A call of `Submit` is cut into the steps that other
--   goroutines can see (admission, tenant slot, bytes, send, and the return of what a refused batch
--   holds), a worker into take, release and write (Processing); Schedule interleaves any number
--   of both. Flow, Bytes and Slots are the invariants of the schedules, Sums the sums over calls
--   and workers that they need, Closing the drain after the stop and `Shutdown`.
--
-- Conventions. A method that holds a mutex is one step from state to state; a history is a list of
-- such calls. The order of a map's entries stands for Go's open iteration order. Unsigned counters
-- that events raise by one do not wrap. A time is a number of nanoseconds, a window start a number of seconds.
-- The eviction loop of the cache takes fuel, the number of its entries, which Cache/Ttl/Room is
-- about. The varint writer takes the nine bytes that may follow the first one, which a `uint64`
-- fits. The pass of a replay tick is recursion on the listing. No other model takes fuel.
--
-- Not modelled: input and output (HTTP, gRPC, SQL, files), logging, the text of errors, tickers,
-- and these subsystems: the reducer, rollup, templates, store and queries of the aggregate
-- engine, its topology, the goroutines of its writer and the deltas that its exports share, the
-- sketch and the quantiles of a delta, the floating-point mapping of values to the bins of a
-- sketch and its quantiles, the reads of the ring buffer, the writes of the dead letter queue,
-- the OTLP handlers, GraphRAG, the service graph and topology, storage, the API, the MCP server,
-- the realtime hub, backup, migration, configuration and the user interface. They are glue around
-- libraries, or left for an extension of this library.
pub mod Base
pub mod Aggregate
pub mod Cache
pub mod Ingest
pub mod Queue
pub mod Tsdb

-- ===== src/Tsdb/Aggregator/Tests.antt =====
-- aggregator.go on two tenants, over whole numbers, with caps of one series each.
use otelcontext.Base.{ℕ, ◌+◌, ◌≤◌, ◌≡◌, false, List, [], ◌∷◌, arith, Text, text, if◌then◌else◌}
use otelcontext.Base.Samples.{whole_float}
use otelcontext.Tsdb.Aggregator.{RawMetric, Aggregator, ingest, flush}
use otelcontext.Tsdb.Aggregator.Counting.{
  counted, opens_overflow, ingest_counts, flush_conserves, Flushed,
}
use otelcontext.Tsdb.Aggregator.Caps.{Call, point, calls, start}
use otelcontext.Tsdb.Aggregator.Fairness.{buckets_of, buckets_fair}

abbrev plain : Text → Text
plain t = t

abbrev sample : Text → ℕ → RawMetric whole_float Text plain
sample name value = record {
  name = name;
  service_name = text "cart";
  value = value;
  timestamp = 75;
  attributes = [];
  tenant_id = text "acme";
}

abbrev history : List (Call whole_float Text plain)
history =
    point (sample (text "load") 4)
    ∷ point (sample (text "heap") 2)
    ∷ point (sample (text "load") 3)
    ∷ []

full : Aggregator whole_float Text plain
full =
    calls whole_float Text plain (start whole_float Text plain 30 5 1)
      (point (sample (text "load") 4) ∷ [])

-- The second series opens the overflow bucket and is counted twice.
ingest_counts_example :
    counted whole_float Text plain (ingest whole_float Text plain full (sample (text "heap") 2)).0
    ≡ counted whole_float Text plain full
      + (if opens_overflow whole_float Text plain full (sample (text "heap") 2) then 2 else 1)
ingest_counts_example = ingest_counts whole_float Text plain full (sample (text "heap") 2)

flush_conserves_example :
    Flushed whole_float Text plain full false (flush whole_float Text plain full false)
flush_conserves_example = flush_conserves whole_float Text plain full false

buckets_fair_example :
    buckets_of whole_float Text plain
      (text "acme")
      (calls whole_float Text plain (start whole_float Text plain 30 5 1) history)
    ≤ 1 + 2
buckets_fair_example =
    buckets_fair whole_float Text plain (text "acme") 30 5 1 history (omega arith)

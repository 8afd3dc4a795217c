-- ===== src/Ingest/Pipeline/Tests.antt =====
-- pipeline.go: a queue of two, a healthy batch of one log and an error batch, interleaved.
use otelcontext.Base.{
  ℕ, pos, ◌+◌, ◌≡◌, refl, inl, true, false, List, [], ◌∷◌, ◌++◌, arith, length, text, Text,
}
use otelcontext.Base.Samples.{whole_float}
use otelcontext.Ingest.Severity.{severity_rank}
use otelcontext.Ingest.Pipeline.{
  Pipeline, PipelineConfig, Batch, Log, signal_logs, no_rows, new_pipeline, set_per_tenant_cap,
  set_store_min_severity, set_dlq,
}
use otelcontext.Ingest.Pipeline.Processing.{
  Answers, committed, panicked, payload, gated, offer_to_dlq,
}
use otelcontext.Ingest.Pipeline.Schedule.{Event, arrive, submit, work, run, started}
use otelcontext.Ingest.Pipeline.Bytes.{Charged, started-Charged}
use otelcontext.Ingest.Pipeline.Slots.Balance.{Balanced, started-Balanced}
use otelcontext.Ingest.Pipeline.Flow.Conservation.{Conserved, started-Conserved, new_pipeline-Fresh}
use otelcontext.Ingest.Pipeline.Closing.{
  process, drain, shutdown, stopped, unprotected, drain_stops, offer_masks_loss,
}

abbrev as_is : Text → Text
as_is s = s

abbrev config : PipelineConfig ℕ
config = record { capacity = pos 2; soft_threshold = 0; max_bytes = pos 2000000 }

abbrev pipeline : Pipeline
pipeline = set_dlq (
    set_store_min_severity
      (set_per_tenant_cap (new_pipeline whole_float (severity_rank as_is) 1 config) (pos 1))
      (pos 30))

abbrev log : Log
log = record {
  body = text "disk full";
  attributes_json = text "{}";
  ai_insight = [];
  service_name = text "cart";
  severity = text "ERROR";
}

abbrev healthy_batch : Batch
healthy_batch = record {
  kind = signal_logs;
  tenant = text "acme";
  traces = [];
  spans = [];
  logs = log ∷ [];
  has_error = false;
  has_slow = false;
  size_bytes = 0;
}

abbrev error_batch : Batch
error_batch = record healthy_batch { has_error = true }

abbrev fine : Answers
fine = record { write = committed; callback_panics = false; sink_accepts = true }

abbrev panic : Answers
panic = record fine { write = panicked }

-- Two healthy batches and an error batch; the second healthy one meets the cap of its tenant.
abbrev events : List Event
events =
    arrive healthy_batch
    ∷ submit 0
    ∷ arrive error_batch
    ∷ submit 0
    ∷ submit 1
    ∷ submit 0
    ∷ submit 1
    ∷ submit 0
    ∷ work 0 fine
    ∷ submit 1
    ∷ work 0 fine
    ∷ arrive healthy_batch
    ∷ submit 2
    ∷ submit 2
    ∷ submit 1
    ∷ work 0 fine
    ∷ []

started-Charged_example : Charged pipeline.max_bytes (run (started pipeline 1) events)
unfolding new_pipeline set_per_tenant_cap set_store_min_severity set_dlq
started-Charged_example = started-Charged pipeline 1 events refl refl

started-Balanced_example :
    Balanced pipeline.per_tenant_cap (text "acme") (run (started pipeline 1) events)
unfolding new_pipeline set_per_tenant_cap set_store_min_severity set_dlq
started-Balanced_example =
    started-Balanced pipeline 1 events (text "acme") (omega arith) (omega arith) refl refl

started-Conserved_example : Conserved (run (started pipeline 1) events)
started-Conserved_example =
    started-Conserved pipeline 1 events
      (new_pipeline-Fresh whole_float (severity_rank as_is) 1 config (pos 1) (pos 30))

-- A pipeline that stops with one batch in the channel.
abbrev loaded : Pipeline
loaded = record pipeline {
  queue = record healthy_batch { size_bytes = 200 } ∷ [];
  in_flight_bytes = 200;
  enqueued_total = 1;
}

drain_stops_example :
    ((drain loaded (fine ∷ [])).processed_total ≡ loaded.processed_total + length loaded.queue)
    × (shutdown true true (drain loaded (fine ∷ [])) ≡ stopped)
unfolding new_pipeline set_per_tenant_cap set_store_min_severity set_dlq
drain_stops_example =
    drain_stops loaded (fine ∷ []) refl (inl (refl, refl), tt) (omega arith) refl refl (omega arith)

-- A worker holds the last batch.
abbrev holding : Pipeline
holding = record pipeline { in_flight_bytes = 200; enqueued_total = 1 }

abbrev held_batch : Batch
held_batch = record healthy_batch { size_bytes = 200 }

offer_masks_loss_example :
    (shutdown true true (process holding held_batch panic) ≡ unprotected 1)
    × (shutdown true true (offer_to_dlq (process holding held_batch panic) error_batch true).0
        ≡ stopped)
    × ((offer_to_dlq (process holding held_batch panic) error_batch true).0.persisted
        ≡ holding.persisted)
    × ((offer_to_dlq (process holding held_batch panic) error_batch true).0.dead_letters
        ≡ holding.dead_letters ++ (payload error_batch (gated holding error_batch.logs) ∷ []))
unfolding new_pipeline set_per_tenant_cap set_store_min_severity set_dlq no_rows
offer_masks_loss_example =
    offer_masks_loss holding held_batch error_batch panic refl refl refl refl refl refl refl

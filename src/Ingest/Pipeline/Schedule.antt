-- ===== src/Ingest/Pipeline/Schedule.antt =====
-- pipeline.go: calls of `Submit` and workers, interleaved step by step.
use otelcontext.Base.{ℕ, Option, none, some, List, [], ◌∷◌, ◌++◌, get_elem?, set, replicate, Bool}
use otelcontext.Ingest.Pipeline.{Pipeline, Batch, Call, submit_step, entering}
use otelcontext.Ingest.Pipeline.Processing.{Work, idle, Answers, work_step, offer_to_dlq}

pub record System : Type 0 where
  pub shared : Pipeline
  pub calls : List Call
  pub workers : List Work

-- A new call, a step of the call or of the worker at an index, a refused batch offered to the dead
-- letter queue.
pub data Event : Type 0 where
  arrive : Batch → Event
  submit : ℕ → Event
  work : ℕ → Answers → Event
  offer : Batch → Bool → Event

unfoldable pub submit_at : System → ℕ → Option Call → System
submit_at s i none = s
submit_at s i (some c) =
    let (p, c') = submit_step s.shared c.batch c.phase in
    record s { shared = p; calls = set s.calls i c' }

unfoldable pub work_at : System → ℕ → Answers → Option Work → System
work_at s i a none = s
work_at s i a (some w) =
    let (p, w') = work_step s.shared a w in record s { shared = p; workers = set s.workers i w' }

unfoldable pub step : System → Event → System
step s (arrive b) = record s { calls = s.calls ++ (record { batch = b; phase = entering } ∷ []) }
step s (submit i) = submit_at s i (get_elem? s.calls i)
step s (work i a) = work_at s i a (get_elem? s.workers i)
step s (offer b accepts) = record s { shared = (offer_to_dlq s.shared b accepts).0 }

unfoldable pub run : System → List Event → System
run s [] = s
run s (e ∷ es) = run (step s e) es

-- `Start`: idle workers.
abbrev pub started : Pipeline → ℕ → System
started p workers = record { shared = p; calls = []; workers = replicate workers idle }

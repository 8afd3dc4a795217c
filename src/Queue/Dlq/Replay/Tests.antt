-- ===== src/Queue/Dlq/Replay/Tests.antt =====
-- dlq.go: two envelopes and a foreign file, replayed one per tick.
use otelcontext.Base.{◌≤◌, ◌≡◌, refl, true, false, some, [], ◌∷◌, arith, text, text_discrete}
use otelcontext.Base.Map.{get}
use otelcontext.Queue.Dlq.{DirEntry, is_envelope, is_json}
use otelcontext.Queue.Dlq.Replay.{World, Replayer, ticks, process_files}
use otelcontext.Queue.Dlq.Replay.Keeping.{Settled, process_files_keeps, attempts_capped}
use otelcontext.Queue.Dlq.Replay.Draining.{Working, waiting, ticks_drain}

abbrev first_batch : DirEntry
first_batch = record { is_dir = false; info = some 400 }

abbrev replayer : Replayer
replayer = record {
  queue = record {
    entries =
        (text "batch_1.json", first_batch)
        ∷ (text "batch_2.json", record { is_dir = false; info = some 300 })
        ∷ (text "notes.txt", record { is_dir = false; info = some 9 })
        ∷ [];
    max_files = 10;
    max_disk_mb = 1;
    retries = (text "batch_1.json", 3) ∷ [];
    evicted = 0;
    evicted_bytes = 0;
  };
  interval = 60000000000;
  max_retries = 0;
  max_replay_per_tick = 1;
  failures = 0;
  successes = 0;
}

abbrev good : World
good = record {
  readable_dir = true;
  age = λ name. some 1800000000000;
  readable = λ name. true;
  accepts = λ name. true;
  removable = λ name. true;
  out_of_range = λ n. 0;
}

good-Working : Working good
good-Working = record {
  dir = refl;
  reads = λ name. refl;
  takes = λ name. refl;
  removes = λ name. refl;
  old = λ name. (1800000000000, refl, omega arith);
}

-- The database is down.
abbrev down : World
down = record good { accepts = λ name. false }

ticks_drain_example : waiting (ticks (good ∷ good ∷ []) replayer).queue.entries ≡ 0
unfolding waiting is_envelope is_json text_discrete get
ticks_drain_example =
    ticks_drain (good ∷ good ∷ []) replayer (good-Working, (good-Working, tt))
      (refl, (refl, (refl, tt))) (omega arith)

process_files_keeps_example :
    Settled down replayer (text "batch_1.json") first_batch (process_files down replayer).0
unfolding text_discrete get
process_files_keeps_example =
    process_files_keeps down replayer (text "batch_1.json") first_batch (refl, (refl, (refl, tt)))
      refl

two_attempts_at_most : (process_files good replayer).1 ≤ replayer.max_replay_per_tick
two_attempts_at_most = attempts_capped good replayer (omega arith)

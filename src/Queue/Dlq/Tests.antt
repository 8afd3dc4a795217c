-- ===== src/Queue/Dlq/Tests.antt =====
-- dlq.go: two old envelopes and a foreign file, for a limit of two files.
use otelcontext.Base.{
  ◌≡◌, refl, true, false, Bool, some, [], ◌∷◌, text, Text, length, text_discrete,
}
use otelcontext.Queue.Dlq.{Dlq, enforce_limits, bytes_per_mib, is_envelope}
use otelcontext.Queue.Dlq.Files.{envelopes}

abbrev removable : Text → Bool
removable name = true

abbrev two_files : Dlq
two_files = record {
  entries =
      (text "batch_1.json", record { is_dir = false; info = some 400 })
      ∷ (text "batch_2.json", record { is_dir = false; info = some 300 })
      ∷ (text "notes.txt", record { is_dir = false; info = some 9 })
      ∷ [];
  max_files = 2;
  max_disk_mb = 1;
  retries = [];
  evicted = 0;
  evicted_bytes = 0;
}

two_envelopes : length (envelopes two_files.entries) ≡ 2
unfolding envelopes is_envelope otelcontext.Queue.Dlq.is_json text_discrete
two_envelopes = refl

-- ===== src/Queue/Dlq/Limits.antt =====
-- dlq.go: `enforceLimits` makes room for the incoming envelope by removing the oldest files.
use otelcontext.Base.{
  ℕ, zero, ◌+◌, ◌-◌, ◌*◌, ◌/◌, ◌≤◌, ◌<◌, ◌≡◌, refl, sym, suc, ◌∙◌, ap, inl, inr, Bool, true, false,
  not, ◌&&◌, Option, none, List, [], ◌∷◌, arith, ltb, ◌==◌, Text, text_discrete, Bool-cases, length,
  drop,
}
use otelcontext.Base.Map.Laws.{Distinct, delete-Distinct}
use otelcontext.Queue.Dlq.{
  Dlq, DlqError, FileInfo, evict, evict_file, evict_listed, enforce_limits, over_files, over_disk,
  sum_exceeds, max_int64, bytes_per_mib, listed,
}
use otelcontext.Queue.Dlq.Files.{envelopes, total_size, Stated, collect_lem, envelopes-delete}

-- What the eviction of `n` files did to the directory: `n` and no more than the counter says.
abbrev pub Evicted : ℕ → Dlq → Dlq → Type 0
Evicted n d after =
    (envelopes after.entries ≡ drop n (envelopes d.entries)) × (after.evicted ≡ d.evicted + n)

abbrev pub Roomy : ℕ → ℕ → Dlq → Type 0
Roomy max_bytes incoming d =
    (over_files d (envelopes d.entries) ≡ false)
    × (over_disk max_bytes (total_size (envelopes d.entries)) incoming ≡ false)

-- How an eviction loop ends.
abbrev pub Ended : (Text → Bool) → ℕ → ℕ → Dlq → Dlq × Option DlqError → Type 0
Ended removable max_bytes incoming d r =
    (n : ℕ) × Evicted n d r.0 × (r.1 ≡ none) × Roomy max_bytes incoming r.0

stop :
    (removable : Text → Bool) (max_bytes incoming : ℕ) (d : Dlq) (files : List FileInfo)
    → envelopes d.entries ≡ files
    → over_files d files ≡ false
    → over_disk max_bytes (total_size files) incoming ≡ false
    → Ended removable max_bytes incoming d (d, none)
stop removable max_bytes incoming d files e o b = (
  0,
  (refl, omega arith),
  refl,
  (ap (over_files d) e ∙ o, ap (λ x. over_disk max_bytes (total_size x) incoming) e ∙ b),
)

-- One eviction more.
further :
    (removable : Text → Bool) (max_bytes incoming : ℕ) (d : Dlq) (f : FileInfo)
    (files : List FileInfo) (r : Dlq × Option DlqError)
    → envelopes d.entries ≡ f ∷ files
    → envelopes (evict_file d f).entries ≡ files
    → Ended removable max_bytes incoming (evict_file d f) r
    → Ended removable max_bytes incoming d r
unfolding evict_file
further removable max_bytes incoming d f files r e e' (n, ev, done, roomy) =
    (suc n, (ev.0 ∙ ap (drop n) e' ∙ sym (ap (drop (suc n)) e), omega (arith, ev.1)), done, roomy)

evict_lem :
    (removable : Text → Bool) (max_bytes incoming : ℕ) (d : Dlq) (files : List FileInfo) (total : ℕ)
    → ((name : Text) → removable name ≡ true)
    → over_disk max_bytes 0 incoming ≡ false
    → Distinct text_discrete d.entries
    → envelopes d.entries ≡ files
    → total ≡ total_size files
    → Ended removable max_bytes incoming d (evict removable max_bytes incoming d files total)
unfolding evict total_size over_files evict_file
evict_lem removable max_bytes incoming d [] total all fits dist e t =
    stop removable max_bytes incoming d [] e (ground arith) fits
evict_lem removable max_bytes incoming d (f ∷ files) total all fits dist e t =
    let d' = evict_file d f in
    let e' = envelopes-delete d.entries f files dist e in
    let rest =
      evict_lem removable max_bytes incoming d' files (total - f.size) all fits
        (delete-Distinct text_discrete f.name d.entries dist) e' (omega (arith, t)) in
    let more =
      further removable max_bytes incoming d f files
        (evict removable max_bytes incoming d' files (total - f.size)) e e' rest in
    elim (Bool-cases (not (over_files d (f ∷ files)) && not (over_disk max_bytes total incoming))) [
      | inl h ↦
          let o : over_files d (f ∷ files) ≡ false = ground (arith, h) in
          let b : over_disk max_bytes total incoming ≡ false = ground (arith, h) in
          rw (h, evict)
            (stop removable max_bytes incoming d (f ∷ files) e o
              (ap (λ x. over_disk max_bytes x incoming) (sym t) ∙ b))
      | inr h ↦ rw (h, evict, all f.name) more
    ]

total_size-drop : (n : ℕ) (files : List FileInfo) → total_size (drop n files) ≤ total_size files
unfolding total_size
total_size-drop zero files = omega arith
total_size-drop (suc n) [] = omega arith
total_size-drop (suc n) (f ∷ files) = ground (arith, total_size-drop n files)

-- The room that an envelope of `incoming` bytes needs.
abbrev pub HasRoom : Dlq → ℕ → Dlq → Type 0
HasRoom d incoming after =
    (length (envelopes after.entries) < d.max_files)
    × (total_size (envelopes after.entries) + incoming ≤ d.max_disk_mb * bytes_per_mib)

-- The limits of a loop that has ended, for limits that are set.
Ended-HasRoom :
    (removable : Text → Bool) (incoming : ℕ) (d : Dlq) (r : Dlq × Option DlqError)
    → 0 < d.max_files
    → 0 < d.max_disk_mb
    → total_size (envelopes d.entries) + incoming ≤ max_int64
    → r.0.max_files ≡ d.max_files
    → Ended removable (d.max_disk_mb * bytes_per_mib) incoming d r
    → (r.1 ≡ none) × HasRoom d incoming r.0 × ((n : ℕ) × Evicted n d r.0)
unfolding over_files over_disk sum_exceeds
Ended-HasRoom removable incoming d r pf pd fits same (n, ev, done, roomy) =
    let smaller = total_size-drop n (envelopes d.entries) in
    let e = ap total_size ev.0 in
    let files : length (envelopes r.0.entries) < d.max_files = ground (arith, roomy.0, same, pf) in
    let bytes : total_size (envelopes r.0.entries) + incoming ≤ d.max_disk_mb * bytes_per_mib =
      ground (arith, roomy.1, e, smaller, fits, pd) in
    (done, (files, bytes), (n, ev))

evict-max_files :
    (removable : Text → Bool) (max_bytes incoming : ℕ) (d : Dlq) (files : List FileInfo) (total : ℕ)
    → (evict removable max_bytes incoming d files total).0.max_files ≡ d.max_files
unfolding evict evict_file
evict-max_files removable max_bytes incoming d [] total = refl
evict-max_files removable max_bytes incoming d (f ∷ files) total =
    ground
      (arith, evict-max_files removable max_bytes incoming (evict_file d f) files (total - f.size))

-- With both limits set and in range, a readable directory of distinct names whose sizes the
-- system tells and whose files it removes, an envelope that fits the disk limit, and sizes
-- that sum within `int64`, `enforceLimits` succeeds: the envelopes that are left are a tail of
-- the oldest-first list, the eviction counter grows by the number of files before that tail,
-- and the incoming envelope then fits both limits.
pub enforce_makes_room :
    (removable : Text → Bool) (d : Dlq) (incoming : ℕ)
    → ((name : Text) → removable name ≡ true)
    → 0 < d.max_files
    → 0 < d.max_disk_mb
    → d.max_disk_mb ≤ max_int64 / bytes_per_mib
    → incoming ≤ d.max_disk_mb * bytes_per_mib
    → Distinct text_discrete d.entries
    → Stated d.entries
    → total_size (envelopes d.entries) + incoming ≤ max_int64
    → ((enforce_limits true removable d incoming).1 ≡ none)
      × HasRoom d incoming (enforce_limits true removable d incoming).0
      × ((n : ℕ) × Evicted n d (enforce_limits true removable d incoming).0)
unfolding enforce_limits evict_listed over_disk sum_exceeds
enforce_makes_room removable d incoming all pf pd range fit dist stated fits =
    let max_bytes = d.max_disk_mb * bytes_per_mib in
    let files = envelopes d.entries in
    let r = evict removable max_bytes incoming d files (total_size files) in
    let o : over_disk max_bytes 0 incoming ≡ false = ground (arith, fit) in
    let ended =
      evict_lem removable max_bytes incoming d files (total_size files) all o dist refl refl in
    let room =
      Ended-HasRoom removable incoming d r pf pd fits
        (evict-max_files removable max_bytes incoming d files (total_size files)) ended in
    let sum : 0 + total_size files ≡ total_size files = omega arith in
    let list = collect_lem d.entries 0 stated (omega (arith, fits)) ∙ ap (listed files) sum in
    let limits_on : (d.max_files == 0 && d.max_disk_mb == 0) ≡ false = ground (arith, pf) in
    let in_range : ltb (max_int64 / bytes_per_mib) d.max_disk_mb ≡ false = ground (arith, range) in
    let small : (ltb 0 max_bytes && ltb max_bytes incoming) ≡ false = ground (arith, fit) in
    let run : enforce_limits true removable d incoming ≡ r =
      rw (limits_on, enforce_limits, in_range, small, list) refl in
    rw run room

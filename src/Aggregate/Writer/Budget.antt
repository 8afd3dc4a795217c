-- ===== src/Aggregate/Writer/Budget.antt =====
-- writer.go: the pending budget under any order of admissions and releases.
use otelcontext.Base.{
  ℕ, ◌+◌, ◌≡◌, ◌≤◌, Option, none, some, List, [], ◌∷◌, ◌++◌, arith, length, refl,
}
use otelcontext.Aggregate.Writer.{Pending, Saturation, admit, saturated, release}

-- A submission by its bytes and its deltas.
abbrev Load : Type 0
Load = ℕ × ℕ

unfoldable pub total_bytes : List Load → ℕ
total_bytes [] = 0
total_bytes ((n, c) ∷ ls) = n + total_bytes ls

unfoldable pub total_deltas : List Load → ℕ
total_deltas [] = 0
total_deltas ((n, c) ∷ ls) = c + total_deltas ls

-- A submission waits from its admission on.
unfoldable pub entered : Pending × Option Saturation → Load → List Load → Pending × List Load
entered (p, none) s waiting = (p, s ∷ waiting)
entered (p, some refusal) s waiting = (p, waiting)

pub data Step : Pending × List Load → Pending × List Load → Type 0 where
  comes :
      {p : Pending} {waiting : List Load} (n c : ℕ)
      → Step (p, waiting) (entered (admit p n c) (n, c) waiting)
  goes :
      {p : Pending} (before : List Load) (n c : ℕ) (after : List Load)
      → Step (p, before ++ (n, c) ∷ after) (release p n c, before ++ after)

pub data Run : Pending × List Load → Pending × List Load → Type 0 where
  stop : {s : Pending × List Load} → Run s s
  go : {s t u : Pending × List Load} → Step s t → Run t u → Run s u

-- The bounds of a writer: waiters, bytes and deltas.
pub record Limits : Type 0 where
  pub waiters : ℕ
  pub bytes : ℕ
  pub deltas : ℕ

pub record Kept (l : Limits) (s : Pending × List Load) : Type 0 where
  pub max_waiters : s.0.max_waiters ≡ l.waiters
  pub max_bytes : s.0.max_bytes ≡ l.bytes
  pub max_deltas : s.0.max_deltas ≡ l.deltas
  pub waiters : s.0.waiting ≡ length s.1
  pub bytes : s.0.pending_bytes ≡ total_bytes s.1
  pub deltas : s.0.pending_deltas ≡ total_deltas s.1
  pub waiters_bound : s.0.waiting ≤ l.waiters
  pub bytes_bound : s.0.pending_bytes ≤ l.bytes
  pub deltas_bound : s.0.pending_deltas ≤ l.deltas

total_bytes-middle :
    (xs : List Load) (n c : ℕ) (ys : List Load)
    → total_bytes (xs ++ (n, c) ∷ ys) ≡ n + total_bytes (xs ++ ys)
unfolding total_bytes
total_bytes-middle [] n c ys = refl
total_bytes-middle ((m, b) ∷ xs) n c ys = let ih = total_bytes-middle xs n c ys in omega arith

total_deltas-middle :
    (xs : List Load) (n c : ℕ) (ys : List Load)
    → total_deltas (xs ++ (n, c) ∷ ys) ≡ c + total_deltas (xs ++ ys)
unfolding total_deltas
total_deltas-middle [] n c ys = refl
total_deltas-middle ((m, b) ∷ xs) n c ys = let ih = total_deltas-middle xs n c ys in omega arith

length-middle :
    (xs : List Load) (s : Load) (ys : List Load) → length (xs ++ s ∷ ys) ≡ length (xs ++ ys) + 1
length-middle [] s ys = omega arith
length-middle (x ∷ xs) s ys = let ih = length-middle xs s ys in omega arith

comes-Kept :
    (l : Limits) (p : Pending) (waiting : List Load) (n c : ℕ)
    → Kept l (p, waiting)
    → Kept l (entered (admit p n c) (n, c) waiting)
unfolding entered admit saturated total_bytes total_deltas
comes-Kept l p waiting n c k = record {
  max_waiters = ground arith;
  max_bytes = ground arith;
  max_deltas = ground arith;
  waiters = ground arith;
  bytes = ground arith;
  deltas = ground arith;
  waiters_bound = ground arith;
  bytes_bound = ground arith;
  deltas_bound = ground arith;
}

Step-Kept : (l : Limits) {s t : Pending × List Load} → Step s t → Kept l s → Kept l t
unfolding release
Step-Kept l (comes {p} {waiting} n c) k = comes-Kept l p waiting n c k
Step-Kept l (goes {p} before n c after) k =
    let b = total_bytes-middle before n c after in
    let d = total_deltas-middle before n c after in
    let z = length-middle before (n, c) after in
    record {
      max_waiters = k.max_waiters;
      max_bytes = k.max_bytes;
      max_deltas = k.max_deltas;
      waiters = omega arith;
      bytes = omega arith;
      deltas = omega arith;
      waiters_bound = omega arith;
      bytes_bound = omega arith;
      deltas_bound = omega arith;
    }

Run-Kept : (l : Limits) {s t : Pending × List Load} → Run s t → Kept l s → Kept l t
Run-Kept l stop k = k
Run-Kept l (go x r) k = Run-Kept l r (Step-Kept l x k)

-- `NewWriter`: nothing is pending.
abbrev pub nothing_pending : Limits → Pending
nothing_pending l = record {
  max_waiters = l.waiters;
  max_bytes = l.bytes;
  max_deltas = l.deltas;
  waiting = 0;
  pending_bytes = 0;
  pending_deltas = 0;
  rejections = 0;
}

-- After any order of admissions and releases of a new writer, the occupancy is that of the
-- submissions that wait, and within the three bounds.
pub pending_bounded :
    (l : Limits) (p : Pending) (waiting : List Load)
    → Run (nothing_pending l, []) (p, waiting)
    → Kept l (p, waiting)
unfolding total_bytes total_deltas
pending_bounded l p waiting r = Run-Kept l r (record {
  max_waiters = refl;
  max_bytes = refl;
  max_deltas = refl;
  waiters = refl;
  bytes = refl;
  deltas = refl;
  waiters_bound = omega arith;
  bytes_bound = omega arith;
  deltas_bound = omega arith;
})

-- ===== src/Aggregate/Engine/Closed.antt =====
-- engine.go: the cap on closed windows that `Rollover` keeps.
use otelcontext.Base.{
  ℕ, ◌+◌, ◌-◌, ◌≡◌, ◌≤◌, refl, sym, ◌∙◌, true, false, ◌||◌, List, [], ◌∷◌, zero, suc, arith, length,
  take, leb, ◌==◌, pos, Float64, ℕ_discrete, Bool-cases, inl, inr,
}
use otelcontext.Base.Map.{Map, size, get, put, delete, has}
use otelcontext.Base.Map.Laws.{Distinct, put-Distinct, get-delete}
use otelcontext.Base.Map.Weigh.{size-delete-le}
use otelcontext.Aggregate.Engine.{
  Engine, past_lateness, close_due, insert_start, sorted_starts, over_cap_closed, hand_over,
  force_out, rollover,
}
use otelcontext.Aggregate.Engine.HandOver.{is_start}

-- No window start is listed twice.
abbrev Once : List ℕ → Type 0
Once [] = Unit {0}
Once (n ∷ ns) = (is_start n ns ≡ false) × Once ns

is_start-insert : (n m : ℕ) (ns : List ℕ) → is_start n (insert_start m ns) ≡ n == m || is_start n ns
unfolding is_start insert_start
is_start-insert n m [] = refl
is_start-insert n m (k ∷ ns) = ground (arith, is_start-insert n m ns)

insert_start-Once :
    (m : ℕ) (ns : List ℕ) → is_start m ns ≡ false → Once ns → Once (insert_start m ns)
unfolding is_start insert_start
insert_start-Once m [] h o = (refl, tt)
insert_start-Once m (k ∷ ns) h o = elim (Bool-cases (leb m k)) [
  | inl q ↦ rw q (h, o)
  | inr q ↦ rw q (ground (arith, is_start-insert k m ns), insert_start-Once m ns (ground arith) o.1)
]

length-insert : (m : ℕ) (ns : List ℕ) → length (insert_start m ns) ≡ length ns + 1
unfolding insert_start
length-insert m [] = omega arith
length-insert m (k ∷ ns) = ground (arith, length-insert m ns)

-- The sorted starts of a map are its keys.
is_start-sorted : (n : ℕ) (m : Map ℕ (Unit {0})) → is_start n (sorted_starts m) ≡ has ℕ_discrete n m
unfolding sorted_starts get is_start
is_start-sorted n [] = refl
is_start-sorted n ((k, u) ∷ m) =
    ground (arith, is_start-insert n k (sorted_starts m), is_start-sorted n m)

sorted_starts-Once : (m : Map ℕ (Unit {0})) → Distinct ℕ_discrete m → Once (sorted_starts m)
unfolding sorted_starts
sorted_starts-Once [] d = tt
sorted_starts-Once ((k, u) ∷ m) d =
    insert_start-Once k (sorted_starts m) (ground (arith, is_start-sorted k m, d.0))
      (sorted_starts-Once m d.1)

length-sorted : (m : Map ℕ (Unit {0})) → length (sorted_starts m) ≡ size m
unfolding sorted_starts size
length-sorted [] = refl
length-sorted ((k, u) ∷ m) = ground (arith, length-insert k (sorted_starts m), length-sorted m)

is_start-take : (n k : ℕ) (ns : List ℕ) → is_start n (take k ns) ≡ true → is_start n ns ≡ true
unfolding is_start
is_start-take n zero ns h = absurd (cc)
is_start-take n (suc k) [] h = h
is_start-take n (suc k) (m ∷ ns) h = ground (arith, is_start-take n k ns, h)

take-Once : (k : ℕ) (ns : List ℕ) → Once ns → Once (take k ns)
take-Once zero ns o = tt
take-Once (suc k) [] o = tt
take-Once (suc k) (m ∷ ns) o = (ground (arith, is_start-take m k ns, o.0), take-Once k ns o.1)

length-take : (k : ℕ) (ns : List ℕ) → k ≤ length ns → length (take k ns) ≡ k
length-take zero ns h = refl
length-take (suc k) [] h = omega arith
length-take (suc k) (m ∷ ns) h = omega (arith, length-take k ns (omega arith))

size-delete_present :
    (n : ℕ) (m : Map ℕ (Unit {0}))
    → has ℕ_discrete n m ≡ true
    → size (delete ℕ_discrete n m) + 1 ≤ size m
unfolding get delete size
size-delete_present n [] h = absurd (cc)
size-delete_present n ((k, u) ∷ m) h =
    ground (arith, size-delete_present n m, size-delete-le ℕ_discrete n m, h)

close_due-Distinct :
    (now : ℕ) (mutable closed : Map ℕ (Unit {0}))
    → Distinct ℕ_discrete closed
    → Distinct ℕ_discrete (close_due now mutable closed)
unfolding close_due
close_due-Distinct now [] closed d = d
close_due-Distinct now ((k, u) ∷ m) closed d = elim (Bool-cases (past_lateness now k)) [
  | inl q ↦ rw q (
      close_due-Distinct now m (put ℕ_discrete k tt closed) (put-Distinct ℕ_discrete k tt closed d))
  | inr q ↦ rw q (close_due-Distinct now m closed d)
]

module _ (fl : Float64) where
  -- Each window that is forced out makes the closed set smaller.
  force_out-closed :
      (starts : List ℕ) (e : Engine fl)
      → Once starts
      → ((n : ℕ) → is_start n starts ≡ true → has ℕ_discrete n e.closed ≡ true)
      → size (force_out fl starts e).0.closed + length starts ≤ size e.closed
  unfolding force_out hand_over is_start
  force_out-closed [] e o h = omega arith
  force_out-closed (start ∷ starts) e o h =
      let ih =
        force_out-closed starts (hand_over fl e start) o.1
          (λ n i. ground (arith, get-delete ℕ_discrete n start e.closed, h n, o.0, i)) in
      let gone = size-delete_present start e.closed (h start (ground arith)) in omega arith

  force_out-windows_discarded :
      (starts : List ℕ) (e : Engine fl)
      → (force_out fl starts e).0.windows_discarded ≡ e.windows_discarded
  unfolding force_out hand_over
  force_out-windows_discarded [] e = refl
  force_out-windows_discarded (start ∷ starts) e =
      force_out-windows_discarded starts (hand_over fl e start)

  length-over_cap_closed :
      (limit : ℕ) (closed : Map ℕ (Unit {0}))
      → length (over_cap_closed (pos limit) closed) ≡ size closed - limit
  unfolding over_cap_closed
  length-over_cap_closed limit closed =
      let len = length-sorted closed in
      length-take (size closed - limit) (sorted_starts closed) (omega arith)

  forced_capped :
      (limit : ℕ) (e : Engine fl)
      → Distinct ℕ_discrete e.closed
      → size (force_out fl (over_cap_closed (pos limit) e.closed) e).0.closed ≤ limit
  unfolding over_cap_closed
  forced_capped limit e d =
      let over = size e.closed - limit in
      let sorted = sorted_starts e.closed in
      let taken = length-over_cap_closed limit e.closed in
      let less =
        force_out-closed (take over sorted) e
          (take-Once over sorted (sorted_starts-Once e.closed d))
          (λ n i. sym (is_start-sorted n e.closed) ∙ is_start-take n over sorted i) in
      omega arith

  -- With a cap that is not negative, and each closed window once in its map: after a rollover no
  -- more windows are closed in memory than the cap allows, and it has forced out exactly the
  -- excess, none while the cap is kept.
  pub rollover_capped :
      (now limit : ℕ) (e : Engine fl)
      → Distinct ℕ_discrete e.closed
      → e.max_closed_windows ≡ pos limit
      → (size (rollover fl now e).closed ≤ limit)
        × ((rollover fl now e).windows_discarded
            ≡ e.windows_discarded + (size (close_due now e.mutable e.closed) - limit))
  unfolding rollover
  rollover_capped now limit e d h =
      let closed = close_due now e.mutable e.closed in
      let closing = record e { closed = closed; max_closed_windows = pos limit } in
      rw h (
        forced_capped limit closing (close_due-Distinct now e.mutable e.closed d),
        omega (
          arith,
          force_out-windows_discarded (over_cap_closed (pos limit) closed) closing,
          length-over_cap_closed limit closed,
        ),
      )

-- ===== src/Aggregate/Delta/Groups.antt =====
-- delta.go: group by group, merging with one more point observed is observing it after the merge.
use otelcontext.Base.{
  ℕ, ◌+◌, ◌<◌, ◌≡◌, refl, ◌∙◌, ap, sym, ◌%◌, ◌^◌, inl, inr, Bool, true, false, not, ◌&&◌, ◌||◌,
  arith, ltb, ◌==◌, if◌then◌else◌, Bool-cases, Float64, bit,
}
use otelcontext.Aggregate.Delta.{
  Counts, count_point, merge_counts, Logs, observe_log_time, merge_logs, HistFlags, no_flags,
  any_flag, merge_reason, merge_hist_flags, Histograms, merge_histograms,
}

pub add_further : (a b c : ℕ) → a + (b + c) ≡ a + b + c
add_further a b c = omega arith

pub count_point-merge :
    (d o : Counts) (e r : Bool)
    → merge_counts d (count_point o e r) ≡ count_point (merge_counts d o) e r
unfolding merge_counts count_point
count_point-merge d o e r = λ i. record {
  count = add_further d.count o.count 1 i;
  error_count = add_further d.error_count o.error_count (bit e) i;
  request_count = add_further d.request_count o.request_count (bit r) i;
  error_request_count = add_further d.error_request_count o.error_request_count (bit (r && e)) i;
}

first_of :
    (d o t : ℕ)
    → 0 < t
    → (if not ((if o == 0 || ltb t o then t else o) == 0)
          && (d == 0 || ltb (if o == 0 || ltb t o then t else o) d)
        then (if o == 0 || ltb t o then t else o)
        else d)
      ≡ (if (if not (o == 0) && (d == 0 || ltb o d) then o else d) == 0
            || ltb t (if not (o == 0) && (d == 0 || ltb o d) then o else d)
          then t
          else (if not (o == 0) && (d == 0 || ltb o d) then o else d))
first_of d o t h = ground arith

last_of :
    (d o t : ℕ)
    → (if ltb d (if ltb o t then t else o) then (if ltb o t then t else o) else d)
      ≡ (if ltb (if ltb d o then o else d) t then t else (if ltb d o then o else d))
last_of d o t = ground arith

pub observe_log_time-merge :
    (d o : Logs) (t : ℕ)
    → 0 < t
    → merge_logs d (observe_log_time o t) ≡ observe_log_time (merge_logs d o) t
unfolding merge_logs observe_log_time
observe_log_time-merge d o t h = λ i. record {
  log_count = add_further d.log_count o.log_count 1 i;
  first_timestamp = first_of d.first_timestamp o.first_timestamp t h i;
  last_timestamp = last_of d.last_timestamp o.last_timestamp t i;
}

or_further : (a b c : Bool) → (a || (b || c)) ≡ ((a || b) || c)
or_further true b c = refl
or_further false b c = refl

reason_further : (a b c : ℕ) → merge_reason a (merge_reason b c) ≡ merge_reason (merge_reason a b) c
unfolding merge_reason
reason_further a b c = ground arith

pub merge_hist_flags_assoc :
    (a b c : HistFlags)
    → merge_hist_flags a (merge_hist_flags b c) ≡ merge_hist_flags (merge_hist_flags a b) c
unfolding merge_hist_flags
merge_hist_flags_assoc a b c = λ i. record {
  percentiles_unavailable =
      or_further a.percentiles_unavailable b.percentiles_unavailable c.percentiles_unavailable i;
  unbounded_tail = or_further a.unbounded_tail b.unbounded_tail c.unbounded_tail i;
  has_min = or_further a.has_min b.has_min c.has_min i;
  has_max = or_further a.has_max b.has_max c.has_max i;
  reason = reason_further a.reason b.reason c.reason i;
}

or_false : (b : Bool) → (b || false) ≡ b
or_false true = refl
or_false false = refl

reason_none : (a : ℕ) → merge_reason a 0 ≡ a
unfolding merge_reason
reason_none a = ground arith

pub merge_hist_flags-none : (a : HistFlags) → merge_hist_flags a no_flags ≡ a
unfolding merge_hist_flags no_flags
merge_hist_flags-none a = λ i. record {
  percentiles_unavailable = or_false a.percentiles_unavailable i;
  unbounded_tail = or_false a.unbounded_tail i;
  has_min = or_false a.has_min i;
  has_max = or_false a.has_max i;
  reason = reason_none a.reason i;
}

no_flag_lem : (f : HistFlags) → any_flag f ≡ false → f ≡ no_flags
unfolding any_flag no_flags
no_flag_lem f h =
    let p : f.percentiles_unavailable ≡ false = ground (arith, h) in
    let u : f.unbounded_tail ≡ false = ground (arith, h) in
    let mn : f.has_min ≡ false = ground (arith, h) in
    let mx : f.has_max ≡ false = ground (arith, h) in
    let r : f.reason ≡ 0 = ground (arith, h) in
    λ i. record {
      percentiles_unavailable = p i;
      unbounded_tail = u i;
      has_min = mn i;
      has_max = mx i;
      reason = r i;
    }

module _ (fl : Float64) (d o : Histograms fl) where
  -- A merge that skips the group skips a population of 0, which a wrapped sum can be too.
  pub merge_histograms-count :
      d.count < 2 ^ 64 → (merge_histograms fl d o).count ≡ (d.count + o.count) % 2 ^ 64
  unfolding merge_histograms
  merge_histograms-count h = ground (arith, h)

  pub merge_histograms-flags : (merge_histograms fl d o).flags ≡ merge_hist_flags d.flags o.flags
  unfolding merge_histograms
  merge_histograms-flags = elim (Bool-cases (ltb 0 o.count || any_flag o.flags)) [
    | inl e ↦ rw e refl
    | inr e ↦
        let none : any_flag o.flags ≡ false = ground (arith, e) in
        rw e (
          sym (
            ap (merge_hist_flags d.flags) (no_flag_lem o.flags none)
            ∙ merge_hist_flags-none d.flags))
  ]

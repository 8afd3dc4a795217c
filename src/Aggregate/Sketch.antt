-- ===== src/Aggregate/Sketch.antt =====
-- internal/aggregate/sketch.go: the fixed-size quantile sketch. A bucket index is an `int32`; it
-- stands here for the number 2^31 above it, so that comparisons and shifts are those of ℕ, and a
-- difference of two indexes is taken with the wrap-around of `int32` (`diff`). The dense bins are a
-- function from positions, and an access outside the 512 bins is a panic, `none`. Counts of bins
-- are `uint32` and saturate; the totals are `uint64`, which the model leaves unbounded. The sum is
-- left out: no other field depends on it.
pub mod Sums
pub mod Windows
pub mod Counts
pub mod Runs
pub mod Order
pub mod Merging
pub mod Far
pub mod Codec
mod Tests
use otelcontext.Base.{
  ℕ, zero, suc, ◌+◌, ◌-◌, ◌%◌, ◌*◌, ◌/◌, ◌^◌, Bool, true, false, not, ◌&&◌, ◌||◌, Option, none,
  some, List, [], ◌∷◌, ltb, leb, ◌==◌, if◌then◌else◌, min,
}

abbrev pub sketch_max_bins : ℕ
sketch_max_bins = 512

abbrev pub max_uint32 : ℕ
max_uint32 = 4294967295

abbrev pub two_31 : ℕ
two_31 = 2147483648

abbrev pub two_32 : ℕ
two_32 = 4294967296

-- `a - b` on `int32`, for biased operands, with a biased result.
unfoldable pub diff : ℕ → ℕ → ℕ
diff a b = (a + two_32 - b + two_31) % two_32

-- A biased `int32` as a position, which is out of range when it is negative.
unfoldable pub position : ℕ → Option ℕ
position d = if leb two_31 d && ltb (d - two_31) sketch_max_bins then some (d - two_31) else none

pub record Sketch : Type 0 where
  pub count : ℕ
  pub zero_count : ℕ
  pub bin_total : ℕ
  pub saturations : ℕ
  pub min_idx : ℕ
  pub max_idx : ℕ
  pub scale : ℕ
  pub collapsed : Bool
  pub has_bins : Bool
  pub bins : ℕ → ℕ

-- `NewSketch`
unfoldable pub new_sketch : ℕ → Sketch
new_sketch scale = record {
  count = 0;
  zero_count = 0;
  bin_total = 0;
  saturations = 0;
  min_idx = two_31;
  max_idx = two_31;
  scale = scale;
  collapsed = false;
  has_bins = false;
  bins = λ p. 0;
}

-- `bins[pos] = v`
unfoldable pub set_bin : (ℕ → ℕ) → ℕ → ℕ → ℕ → ℕ
set_bin bins pos v p = if p == pos then v else bins p

-- The saturating add to a bin, with the number of observations that it stores.
unfoldable pub add_at : Sketch → ℕ → ℕ → Sketch × ℕ
add_at s pos n =
    let cur = s.bins pos in
    if leb (cur + n) max_uint32 then (record s { bins = set_bin s.bins pos (cur + n) }, n) else (
      record s { bins = set_bin s.bins pos max_uint32; saturations = s.saturations + 1 },
      max_uint32 - cur,
    )

-- The number of bins in the window, for indexes whose difference does not wrap.
unfoldable pub used : Sketch → ℕ
used s = s.max_idx - s.min_idx + 1

-- The bins moved up by `shift`, zeros below.
unfoldable pub moved_up : (ℕ → ℕ) → ℕ → ℕ → ℕ → ℕ
moved_up bins shift n p =
    if ltb p shift then 0 else if ltb p (shift + n) then bins (p - shift) else bins p

-- `extendTo`, under the conditions that its comment puts on the caller.
unfoldable pub extend_to : Sketch → ℕ → Sketch
extend_to s new_min = record s {
  min_idx = new_min;
  bins = moved_up s.bins (s.min_idx - new_min) (used s);
}

-- The sum of the first `n` bins.
unfoldable pub sum_below : (ℕ → ℕ) → ℕ → ℕ
sum_below f zero = 0
sum_below f (suc n) = sum_below f n + f n

-- The bins moved down by `shift`, zeros above.
unfoldable pub moved_down : (ℕ → ℕ) → ℕ → ℕ → ℕ → ℕ
moved_down bins shift n p =
    if ltb p (n - shift) then bins (p + shift) else if ltb p n then 0 else bins p

unfoldable pub cleared : (ℕ → ℕ) → ℕ → ℕ → ℕ
cleared bins n p = if ltb p n then 0 else bins p

-- The window of `collapseTo` without the counts that are merged.
unfoldable pub raise_floor : Sketch → ℕ → Sketch
raise_floor s new_min =
    let shift = new_min - s.min_idx in
    if leb (used s) shift
    then record s { min_idx = new_min; max_idx = new_min; bins = cleared s.bins (used s) }
    else record s { min_idx = new_min; bins = moved_down s.bins shift (used s) }

unfoldable pub put_merged : Sketch → ℕ → Sketch
put_merged s merged =
    let r = add_at s 0 merged in
    if merged == 0
    then s
    else record r.0 { collapsed = true; bin_total = s.bin_total - (merged - r.1) }

unfoldable pub collapse_to : Sketch → ℕ → Sketch
collapse_to s new_min =
    put_merged (raise_floor s new_min) (sum_below s.bins (min (new_min - s.min_idx) (used s)))

-- The end of `add`: the bin at the distance of the index from the floor.
unfoldable pub put_at : Sketch → ℕ → ℕ → Option Sketch
put_at s index n = elim (position (diff index s.min_idx)) [
  | none ↦ none
  | some pos ↦ let r = add_at s pos n in some (record r.0 { bin_total = r.0.bin_total + r.1 })
]

unfoldable pub first_bin : Sketch → ℕ → ℕ → Sketch
first_bin s index n =
    let t = record s { has_bins = true; min_idx = index; max_idx = index } in
    let r = add_at t 0 n in record r.0 { bin_total = r.0.bin_total + r.1 }

-- An index above the window: `index-s.minIdx >= SketchMaxBins` compares a wrapped difference.
unfoldable pub add_above : Sketch → ℕ → ℕ → Option Sketch
add_above s index n =
    let room =
      if leb (two_31 + sketch_max_bins) (diff index s.min_idx)
      then collapse_to s (index + 1 - sketch_max_bins)
      else s in
    put_at (record room { max_idx = index }) index n

-- `s.maxIdx - SketchMaxBins + 1`, which wraps below the least index.
unfoldable pub lowest : Sketch → ℕ
lowest s = (s.max_idx + two_32 + 1 - sketch_max_bins) % two_32

unfoldable pub add_below : Sketch → ℕ → ℕ → Option Sketch
add_below s index n =
    if ltb index (lowest s)
    then put_at (record (extend_to s (lowest s)) { collapsed = true }) (lowest s) n
    else put_at (extend_to s index) index n

unfoldable pub add : Sketch → ℕ → ℕ → Option Sketch
add s index n =
    if n == 0
    then some s
    else if not s.has_bins
    then some (first_bin s index n)
    else if ltb s.max_idx index
    then add_above s index n
    else if ltb index s.min_idx
    then add_below s index n
    else put_at s index n

-- `ObserveZero` and `ObserveBucket`, without the sum.
unfoldable pub observe_zero : Sketch → ℕ → Sketch
observe_zero s n =
    if n == 0 then s else record s { count = s.count + n; zero_count = s.zero_count + n }

unfoldable pub observe_bucket : Sketch → ℕ → ℕ → Option Sketch
observe_bucket s index n = if n == 0 then some s else add (record s { count = s.count + n }) index n

-- The arithmetic right shift of a biased index.
unfoldable pub shifted : ℕ → ℕ → ℕ
shifted k index = (index + two_31 * (2 ^ k - 1)) / 2 ^ k

-- The loop of `downscale` over `n` bins from position `p` on, into the folded bins.
unfoldable pub fold_bins : ℕ → Sketch → ℕ → ℕ → Sketch → Sketch
fold_bins zero s k p t = t
fold_bins (suc n) s k p t =
    let pos = shifted k (s.min_idx + p) - shifted k s.min_idx in
    let sum = t.bins pos + s.bins p in
    let wide = record t {
      bins = set_bin t.bins pos max_uint32;
      bin_total = t.bin_total - (sum - max_uint32);
      saturations = t.saturations + 1;
    } in
    fold_bins n s k (suc p) (
      if s.bins p == 0
      then t
      else if ltb max_uint32 sum
      then wide
      else record t { bins = set_bin t.bins pos sum })

unfoldable pub downscale : Sketch → ℕ → Sketch
downscale s target =
    let k = s.scale - target in
    let folded = fold_bins (used s) s k 0 (record s { bins = λ p. 0 }) in
    if leb s.scale target
    then s
    else if not s.has_bins
    then record s { scale = target }
    else record folded {
      scale = target;
      min_idx = shifted k s.min_idx;
      max_idx = shifted k s.max_idx;
    }

-- The loop of `Merge` over `n` bins from position `p` on.
unfoldable pub merge_bins : ℕ → Sketch → ℕ → Sketch → Option Sketch
merge_bins zero src p s = some s
merge_bins (suc n) src p s =
    let skipped = merge_bins n src (suc p) s in
    if src.bins p == 0 then skipped else elim (add s (src.min_idx + p) (src.bins p)) [
      | none ↦ none
      | some t ↦ merge_bins n src (suc p) t
    ]

-- `Merge` of sketches whose scales are aligned.
unfoldable pub merge_aligned : Sketch → Sketch → Option Sketch
merge_aligned s src =
    let t = record s {
      count = s.count + src.count;
      zero_count = s.zero_count + src.zero_count;
      saturations = s.saturations + src.saturations;
      collapsed = s.collapsed || src.collapsed;
    } in
    if not src.has_bins then some t else merge_bins (used src) src 0 t

unfoldable pub merge : Sketch → Sketch → Option Sketch
merge s other =
    if other.count == 0
    then some s
    else if ltb s.scale other.scale
    then merge_aligned s (downscale other s.scale)
    else if ltb other.scale s.scale
    then merge_aligned (downscale s other.scale) other
    else merge_aligned s other

-- ===== src/Aggregate/Sketch/Codec/Blocks.antt =====
-- sketch_codec.go: the bin block of a sketch is read back as its window.
use otelcontext.Base.{
  ℕ, suc, ◌+◌, ◌-◌, ◌%◌, ◌^◌, ◌≤◌, ◌<◌, ◌≡◌, ◌≢◌, ◌⊎◌, refl, sym, ap, ap₂, ◌∙◌, subst, inl, inr,
  Bool, true, false, none, some, List, [], ◌++◌, arith, if◌then◌else◌, fun_ext, ℤ,
}
use mathlib.Core.List.{append-nil}
use otelcontext.Aggregate.Sketch.{
  Sketch, new_sketch, sketch_max_bins, max_uint32, sum_below, used, two_31, two_32,
}
use otelcontext.Aggregate.Sketch.Codec.{
  Result, ok, ◌>>=◌, uvarint, append_uvarint, append_bins, bins_block, decode_rounds, decode_bins,
  populated_from, populated_bins, first_from, first_populated, sketch_max_serialized_bins,
  sketch_max_scale, varint, zigzag, unzigzag, biased, set_window,
}
use otelcontext.Aggregate.Sketch.Codec.Varint.{
  uvarint-append_uvarint, varint-zigzag, biased-unzigzag,
}
use otelcontext.Aggregate.Sketch.Codec.Bins.{
  filled, sum_from, last_from, decode_rounds-block, filled_lem, last_from_lem,
  sum_from-eq-sum_below,
}

-- A window whose ends are populated, with the bins above it empty.
pub record Window (s : Sketch) : Type 0 where
  pub has : s.has_bins ≡ true
  pub low : s.min_idx ≤ s.max_idx
  pub high : s.max_idx < two_32
  pub inside : used s ≤ sketch_max_bins
  pub first : s.bins 0 ≢ 0
  pub last : s.bins (s.max_idx - s.min_idx) ≢ 0
  pub beyond : (p : ℕ) → used s ≤ p → s.bins p ≡ 0
  pub fits : (p : ℕ) → s.bins p ≤ max_uint32
  pub total : s.bin_total ≡ sum_below s.bins (used s)

-- A sketch without bins.
pub record NoWindow (s : Sketch) : Type 0 where
  pub has : s.has_bins ≡ false
  pub low : s.min_idx ≡ two_31
  pub high : s.max_idx ≡ two_31
  pub bins : s.bins ≡ (λ p. 0)
  pub total : s.bin_total ≡ 0

-- What the format can hold.
pub record Serializable (s : Sketch) : Type 0 where
  pub scale : s.scale ≤ sketch_max_scale
  pub count : s.count < 2 ^ 64
  pub totals : s.zero_count + s.bin_total ≤ s.count
  pub populated : populated_bins s ≤ sketch_max_serialized_bins

abbrev pub Shape : Sketch → Type 0
Shape s = Window s ⊎ NoWindow s

-- The sketch before its bins are read.
abbrev pub header : Sketch → Sketch
header s = record (new_sketch s.scale) {
  count = s.count;
  zero_count = s.zero_count;
  collapsed = s.collapsed;
}

-- The bins of a sketch, as its block says.
abbrev pub Block : Sketch → List ℕ → Type 0
Block s bs =
    (varint bs >>= λ r. decode_bins (populated_bins s) r.0 (header s) r.1)
    ≡ ok (record s { saturations = 0 }, [])

decode_bins_some :
    (m k : ℕ) (index : ℤ) (s : Sketch) (bs : List ℕ)
    → k ≡ suc m
    → decode_bins k index s bs
      ≡ (biased index >>= λ first. decode_rounds k true 0 s bs >>= set_window first)
unfolding decode_bins
decode_bins_some m k index s bs e =
    subst
      (λ n.
        decode_bins n index s bs
        ≡ (biased index >>= λ first. decode_rounds n true 0 s bs >>= set_window first))
      (sym e) refl

used_lem : (s : Sketch) → used s ≡ suc (s.max_idx - s.min_idx)
unfolding used
used_lem s = omega arith

populated_first :
    (n : ℕ) (bins : ℕ → ℕ)
    → bins 0 ≢ 0
    → (populated_from (suc n) 0 bins ≡ suc (populated_from n 1 bins))
      × (first_from (suc n) 0 bins ≡ some 0)
unfolding populated_from first_from
populated_first n bins h = ground (arith, h)

Block-NoWindow : (s : Sketch) → NoWindow s → Block s (bins_block s (first_populated s))
unfolding bins_block first_populated populated_bins varint decode_bins unzigzag new_sketch
Block-NoWindow s h =
    let read = uvarint-append_uvarint 0 [] (omega arith) in
    let bare : uvarint (append_uvarint 0) ≡ ok (0, []) =
      ap uvarint (sym (append-nil (append_uvarint 0))) ∙ read in
    rw (h.has, bare)
      (λ i. ok (
        record s {
          saturations = 0;
          has_bins = false;
          min_idx = sym h.low i;
          max_idx = sym h.high i;
          bins = sym h.bins i;
          bin_total = sym h.total i;
        },
        [],
      ))

-- The parts of a window that the rounds rebuild.
rebuilt_bins :
    (s : Sketch) (n : ℕ) → Window s → used s ≡ suc n → filled (suc n) 0 s.bins (λ p. 0) ≡ s.bins
rebuilt_bins s n h u =
    fun_ext (λ q. filled_lem (suc n) 0 s.bins (λ p. 0) q ∙ ground (arith, u, h.beyond q))

rebuilt_max :
    (s : Sketch)
    → Window s
    → (s.min_idx + last_from (suc (s.max_idx - s.min_idx)) 0 0 s.bins) % two_32 ≡ s.max_idx
rebuilt_max s h =
    let n = s.max_idx - s.min_idx in
    let e : 0 + n ≡ n = omega arith in
    let nonempty : s.bins (0 + n) ≢ 0 = λ z. h.last (ap s.bins (sym e) ∙ z) in
    let last = last_from_lem n 0 0 s.bins nonempty in
    let low = h.low in let high = h.high in omega (arith, last, low, high)

rebuilt_total :
    (s : Sketch) (n : ℕ) → Window s → used s ≡ suc n → 0 + sum_from (suc n) 0 s.bins ≡ s.bin_total
unfolding sum_below
rebuilt_total s n h u =
    let total = sum_from-eq-sum_below (suc n) 0 s.bins in
    let e : 0 + suc n ≡ used s = omega (arith, u) in
    omega (arith, total, ap (sum_below s.bins) e, h.total)

Window-bins_block :
    (s : Sketch) (n : ℕ)
    → Window s
    → used s ≡ suc n
    → bins_block s (first_populated s)
      ≡ append_uvarint (zigzag s.min_idx) ++ (append_bins (suc n) 0 0 s.bins ++ [])
unfolding bins_block first_populated
Window-bins_block s n h u =
    let first : first_populated s ≡ some 0 =
      ap (λ (b : Bool). if b then first_from (used s) 0 s.bins else none) h.has
      ∙ ap (λ (k : ℕ). first_from k 0 s.bins) u
      ∙ (populated_first n s.bins h.first).1 in
    let bare : s.min_idx + 0 ≡ s.min_idx = omega arith in
    let all : used s - 0 ≡ suc n = omega (arith, u) in
    ap (bins_block s) first
    ∙ ap₂ (λ (m k : ℕ). append_uvarint (zigzag m) ++ append_bins k 0 0 s.bins) bare all
    ∙ ap (◌++◌ (append_uvarint (zigzag s.min_idx)))
        (sym (append-nil (append_bins (suc n) 0 0 s.bins)))

Block-Window : (s : Sketch) → Window s → Block s (bins_block s (first_populated s))
unfolding populated_bins new_sketch
Block-Window s h =
    let n = s.max_idx - s.min_idx in
    let u : used s ≡ suc n = used_lem s in
    let bins = append_bins (suc n) 0 0 s.bins ++ [] in
    let m = populated_from n 1 s.bins in
    let short : s.min_idx < two_32 = omega (arith, h.low, h.high) in
    let count : populated_bins s ≡ populated_from (suc n) 0 s.bins =
      ap (λ (b : Bool). if b then populated_from (used s) 0 s.bins else 0) h.has
      ∙ ap (λ (k : ℕ). populated_from k 0 s.bins) u in
    let some_bins = count ∙ (populated_first n s.bins h.first).0 in
    let rounds =
      decode_rounds-block n 0 s.bins (header s) [] (omega (arith, h.inside, u)) h.fits h.first
        refl in
    let wide = rebuilt_max s h in
    let total = rebuilt_total s n h u in
    let same_bins = rebuilt_bins s n h u in
    ap (λ (bs : List ℕ). varint bs >>= λ r. decode_bins (populated_bins s) r.0 (header s) r.1)
      (Window-bins_block s n h u)
    ∙ ap (λ (v : Result (ℤ × List ℕ)). v >>= λ r. decode_bins (populated_bins s) r.0 (header s) r.1)
        (varint-zigzag s.min_idx bins short)
    ∙ decode_bins_some m (populated_bins s) (unzigzag (zigzag s.min_idx)) (header s) bins some_bins
    ∙ ap
        (λ (v : Result ℕ). v >>= λ first.
          decode_rounds (populated_bins s) true 0 (header s) bins >>= set_window first)
        (biased-unzigzag s.min_idx short)
    ∙ ap (λ (k : ℕ). decode_rounds k true 0 (header s) bins >>= set_window s.min_idx) count
    ∙ ap (λ (v : Result (Sketch × ℕ × List ℕ)). v >>= set_window s.min_idx) rounds
    ∙ λ i. ok (
      record s {
        saturations = 0;
        has_bins = sym h.has i;
        max_idx = wide i;
        bins = same_bins i;
        bin_total = total i;
      },
      [],
    )

pub Block-Shape : (s : Sketch) → Shape s → Block s (bins_block s (first_populated s))
Block-Shape s (inl h) = Block-Window s h
Block-Shape s (inr h) = Block-NoWindow s h

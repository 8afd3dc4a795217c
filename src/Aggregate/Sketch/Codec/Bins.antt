-- ===== src/Aggregate/Sketch/Codec/Bins.antt =====
-- sketch_codec.go: the rounds of the decoder rebuild the bins that the encoder wrote.
use otelcontext.Base.{
  ℕ, zero, suc, ◌+◌, ◌-◌, ◌≤◌, ◌<◌, ◌≡◌, ◌≢◌, ◌⊎◌, refl, sym, ap, ◌∙◌, inl, inr, Bool, true, false,
  ◌&&◌, List, ◌++◌, arith, ltb, leb, ◌==◌, if◌then◌else◌, Bool-cases,
}
use mathlib.Core.List.{append_assoc}
use otelcontext.Aggregate.Sketch.{Sketch, set_bin, sketch_max_bins, max_uint32, sum_below}
use otelcontext.Aggregate.Sketch.Codec.{
  ok, append_uvarint, append_bins, decode_rounds, decode_count, put_bin, populated_from,
}
use otelcontext.Aggregate.Sketch.Codec.Varint.{uvarint-append_uvarint}

-- The populated bins among `n` from `p` on, written over a base.
unfoldable pub filled : ℕ → ℕ → (ℕ → ℕ) → (ℕ → ℕ) → ℕ → ℕ
filled zero p bins base = base
filled (suc n) p bins base =
    filled n (suc p) bins (if bins p == 0 then base else set_bin base p (bins p))

unfoldable pub sum_from : ℕ → ℕ → (ℕ → ℕ) → ℕ
sum_from zero p bins = 0
sum_from (suc n) p bins = bins p + sum_from n (suc p) bins

-- The last populated position, or the one before.
unfoldable pub last_from : ℕ → ℕ → ℕ → (ℕ → ℕ) → ℕ
last_from zero p prev bins = prev
last_from (suc n) p prev bins = last_from n (suc p) (if bins p == 0 then prev else p) bins

abbrev pub with_bins : Sketch → (ℕ → ℕ) → ℕ → Sketch
with_bins s bins total = record s { bins = bins; bin_total = total }

-- One round reads one bin.
decode_round :
    (n : ℕ) (first : Bool) (offset delta count : ℕ) (s : Sketch) (rest : List ℕ)
    → (first ≡ true) × (delta ≡ 0) ⊎ (first ≡ false) × (0 < delta)
    → offset + delta < sketch_max_bins
    → 0 < count
    → count ≤ max_uint32
    → decode_rounds (suc n) first offset s (append_uvarint delta ++ (append_uvarint count ++ rest))
      ≡ decode_rounds n false (offset + delta) (put_bin s (offset + delta) count) rest
unfolding decode_rounds decode_count
decode_round n first offset delta count s rest start inside some_count fits =
    let read = uvarint-append_uvarint delta (append_uvarint count ++ rest) (omega arith) in
    let read_count = uvarint-append_uvarint count rest (omega arith) in
    rw (read, read_count) (ground arith)

decode_rounds_done :
    (first : Bool) (offset : ℕ) (s : Sketch) (bs : List ℕ)
    → decode_rounds 0 first offset s bs ≡ ok (s, offset, bs)
unfolding decode_rounds
decode_rounds_done first offset s bs = refl

assoc_three : (a b c d : List ℕ) → (a ++ (b ++ c)) ++ d ≡ a ++ (b ++ (c ++ d))
assoc_three a b c d = append_assoc a (b ++ c) d ∙ ap (◌++◌ a) (append_assoc b c d)

pub decode_rounds-append_bins :
    (n p prev : ℕ) (bins : ℕ → ℕ) (s : Sketch) (rest : List ℕ)
    → prev < p
    → p + n ≤ sketch_max_bins
    → ((q : ℕ) → bins q ≤ max_uint32)
    → decode_rounds (populated_from n p bins) false prev s (append_bins n p prev bins ++ rest)
      ≡ ok (
        with_bins s (filled n p bins s.bins) (s.bin_total + sum_from n p bins),
        last_from n p prev bins,
        rest,
      )
unfolding populated_from append_bins filled sum_from last_from put_bin
decode_rounds-append_bins zero p prev bins s rest later inside fits =
    let same : s.bin_total ≡ s.bin_total + 0 = omega arith in
    decode_rounds_done false prev s rest
    ∙ ap (λ (t : ℕ). ok (with_bins s s.bins t, prev, rest)) same
decode_rounds-append_bins (suc n) p prev bins s rest later inside fits =
    let m = populated_from n (suc p) bins in
    elim (Bool-cases (bins p == 0)) [
      | inl e ↦
          let no_more : 0 + m ≡ m = omega arith in
          let total : s.bin_total + sum_from n (suc p) bins
              ≡ s.bin_total + (bins p + sum_from n (suc p) bins) =
            ground arith in
          let ih =
            decode_rounds-append_bins n (suc p) prev bins s rest (omega arith) (omega arith) fits in
          rw (e, no_more)
            (ih
              ∙ ap
                  (λ (t : ℕ). ok (
                    with_bins s (filled n (suc p) bins s.bins) t,
                    last_from n (suc p) prev bins,
                    rest,
                  ))
                  total)
      | inr e ↦
          let one_more : 1 + m ≡ suc m = omega arith in
          let here : prev + (p - prev) ≡ p = omega arith in
          let s' = put_bin s p (bins p) in
          let after = append_bins n (suc p) p bins ++ rest in
          let read =
            decode_round m false prev (p - prev) (bins p) s after (inr (refl, omega arith))
              (omega arith) (ground arith) (fits p) in
          let ih =
            decode_rounds-append_bins n (suc p) p bins s' rest (omega arith) (omega arith) fits in
          let total : s.bin_total + bins p + sum_from n (suc p) bins
              ≡ s.bin_total + (bins p + sum_from n (suc p) bins) =
            omega arith in
          rw
            (
              e,
              one_more,
              assoc_three (append_uvarint (p - prev)) (append_uvarint (bins p))
                  (append_bins n (suc p) p bins) rest,
            )
            (read
              ∙ ap (λ (o : ℕ). decode_rounds m false o (put_bin s o (bins p)) after) here
              ∙ ih
              ∙ ap
                  (λ (t : ℕ). ok (
                    with_bins s (filled n (suc p) bins (set_bin s.bins p (bins p))) t,
                    last_from n (suc p) p bins,
                    rest,
                  ))
                  total)
    ]

-- A block that starts at a populated position is read from its first round on.
pub decode_rounds-block :
    (n p : ℕ) (bins : ℕ → ℕ) (s : Sketch) (rest : List ℕ)
    → p + suc n ≤ sketch_max_bins
    → ((q : ℕ) → bins q ≤ max_uint32)
    → bins p ≢ 0
    → p ≡ 0
    → decode_rounds (populated_from (suc n) p bins) true 0 s (append_bins (suc n) p p bins ++ rest)
      ≡ ok (
        with_bins s (filled (suc n) p bins s.bins) (s.bin_total + sum_from (suc n) p bins),
        last_from (suc n) p p bins,
        rest,
      )
unfolding populated_from append_bins filled sum_from last_from put_bin
decode_rounds-block n p bins s rest inside fits some_first start =
    let m = populated_from n (suc p) bins in
    let e : (bins p == 0) ≡ false = ground (arith, some_first) in
    let one_more : 1 + m ≡ suc m = omega arith in
    let here : 0 + (p - p) ≡ p = omega arith in
    let s' = put_bin s p (bins p) in
    let after = append_bins n (suc p) p bins ++ rest in
    let read =
      decode_round m true 0 (p - p) (bins p) s after (inl (refl, omega arith)) (omega arith)
        (omega (arith, some_first)) (fits p) in
    let ih = decode_rounds-append_bins n (suc p) p bins s' rest (omega arith) (omega arith) fits in
    let total : s.bin_total + bins p + sum_from n (suc p) bins
        ≡ s.bin_total + (bins p + sum_from n (suc p) bins) =
      omega arith in
    rw
      (
        e,
        one_more,
        assoc_three (append_uvarint (p - p)) (append_uvarint (bins p))
            (append_bins n (suc p) p bins) rest,
      )
      (read
        ∙ ap (λ (o : ℕ). decode_rounds m false o (put_bin s o (bins p)) after) here
        ∙ ih
        ∙ ap
            (λ (t : ℕ). ok (
              with_bins s (filled n (suc p) bins (set_bin s.bins p (bins p))) t,
              last_from n (suc p) p bins,
              rest,
            ))
            total)

-- What is written over bins that are empty from `p` on.
pub filled_lem :
    (n p : ℕ) (bins base : ℕ → ℕ) (q : ℕ)
    → filled n p bins base q
      ≡ (if leb p q && ltb q (p + n) then (if bins q == 0 then base q else bins q) else base q)
unfolding filled set_bin
filled_lem zero p bins base q = ground arith
filled_lem (suc n) p bins base q = elim (Bool-cases (bins p == 0)) [
  | inl e ↦ rw e (filled_lem n (suc p) bins base q ∙ at_edge e)
  | inr e ↦ rw e (filled_lem n (suc p) bins (set_bin base p (bins p)) q ∙ set_edge e)
]
  where
    at_edge :
        (bins p == 0) ≡ true
        → (if leb (suc p) q && ltb q (suc p + n)
            then (if bins q == 0 then base q else bins q)
            else base q)
          ≡ (if leb p q && ltb q (p + suc n)
              then (if bins q == 0 then base q else bins q)
              else base q)
    at_edge e = elim (Bool-cases (p == q)) [
      | inl h ↦ let same : bins p ≡ bins q = ap bins (ground arith) in ground (arith, same)
      | inr h ↦ ground arith
    ]

    set_edge :
        (bins p == 0) ≡ false
        → (if leb (suc p) q && ltb q (suc p + n)
            then (if bins q == 0 then set_bin base p (bins p) q else bins q)
            else set_bin base p (bins p) q)
          ≡ (if leb p q && ltb q (p + suc n)
              then (if bins q == 0 then base q else bins q)
              else base q)
    set_edge e = elim (Bool-cases (q == p)) [
      | inl h ↦ let same : bins p ≡ bins q = ap bins (ground arith) in ground (arith, same)
      | inr h ↦ ground arith
    ]

pub last_from_lem :
    (n p prev : ℕ) (bins : ℕ → ℕ) → bins (p + n) ≢ 0 → last_from (suc n) p prev bins ≡ p + n
unfolding last_from
last_from_lem zero p prev bins h =
    let e : p + 0 ≡ p = omega arith in
    let nonempty : bins p ≢ 0 = λ z. h (ap bins e ∙ z) in ground (arith, nonempty)
last_from_lem (suc n) p prev bins h =
    let e : suc p + n ≡ p + suc n = omega arith in
    last_from_lem n (suc p) (if bins p == 0 then prev else p) bins (λ z. h (ap bins (sym e) ∙ z))
    ∙ e

pub sum_from-eq-sum_below :
    (n p : ℕ) (bins : ℕ → ℕ) → sum_below bins p + sum_from n p bins ≡ sum_below bins (p + n)
unfolding sum_from sum_below
sum_from-eq-sum_below zero p bins =
    let e : p + 0 ≡ p = omega arith in omega (arith, ap (sum_below bins) e)
sum_from-eq-sum_below (suc n) p bins =
    let e : p + suc n ≡ suc p + n = omega arith in
    let ih = sum_from-eq-sum_below n (suc p) bins in omega (arith, ih, ap (sum_below bins) e)

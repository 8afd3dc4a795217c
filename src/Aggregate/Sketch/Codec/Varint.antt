-- ===== src/Aggregate/Sketch/Codec/Varint.antt =====
-- sketch_codec.go: what the readers make of the bytes that the encoder appends.
use otelcontext.Base.{
  ℕ, zero, suc, ◌+◌, ◌*◌, ◌/◌, ◌%◌, ◌^◌, ◌≤◌, ◌<◌, ◌≡◌, refl, ap, ◌∙◌, inl, inr, false, List, ◌∷◌,
  ◌++◌, arith, ltb, ◌==◌, Bool-cases,
}
use otelcontext.Aggregate.Sketch.{two_32}
use otelcontext.Aggregate.Sketch.Codec.{
  ok, uvarint_bytes, append_uvarint, uvarint_from, uvarint, zigzag, unzigzag, varint, word_bytes,
  word_from, biased,
}
use native.Mathlib.Nat.{div-add-mod}
use native.Mathlib.Numerals.{towards_suc}

-- The last byte, and a byte that says that more follow.
last_byte :
    (v i x : ℕ) (rest : List ℕ)
    → v < 128
    → i < 9
    → uvarint_from (v ∷ rest) i x ≡ ok (x + v * 2 ^ (7 * i), rest)
unfolding uvarint_from
last_byte v i x rest h l = ground arith

tenth_byte :
    (v x : ℕ) (rest : List ℕ) → v ≤ 1 → uvarint_from (v ∷ rest) 9 x ≡ ok (x + v * 2 ^ (7 * 9), rest)
unfolding uvarint_from
tenth_byte v x rest h = ground arith

inner_byte :
    (g i x : ℕ) (rest : List ℕ)
    → g < 128
    → i < 10
    → uvarint_from ((g + 128) ∷ rest) i x ≡ uvarint_from rest (i + 1) (x + g * 2 ^ (7 * i))
unfolding uvarint_from
inner_byte g i x rest h l =
    let low : (g + 128) % 128 ≡ g = omega arith in
    let more : ltb (g + 128) 128 ≡ false = ground arith in
    let inside : (i == 10) ≡ false = ground arith in rw (inside, more, low) refl

seven_more : (i : ℕ) → 2 ^ (7 * (i + 1)) ≡ 128 * 2 ^ (7 * i)
seven_more i =
    let e : 7 * (i + 1) ≡ 7 * i + 7 = omega arith in
    ap (λ (t : ℕ). 2 ^ t) e ∙ simp towards_suc (omega arith)

-- The lowest seven bits and the rest, from bit `7 * i` on.
split_group : (v i : ℕ) → v * 2 ^ (7 * i) ≡ v % 128 * 2 ^ (7 * i) + v / 128 * 2 ^ (7 * (i + 1))
split_group v i = omega (
  arith,
  ap (λ (t : ℕ). t * 2 ^ (7 * i)) (div-add-mod v 128),
  ap (λ (t : ℕ). v / 128 * t) (seven_more i),
)

uvarint_from-uvarint_bytes :
    (k v i x : ℕ) (rest : List ℕ)
    → i + k ≡ 9
    → x + v * 2 ^ (7 * i) < 2 ^ 64
    → uvarint_from (uvarint_bytes k v ++ rest) i x ≡ ok (x + v * 2 ^ (7 * i), rest)
unfolding uvarint_bytes
uvarint_from-uvarint_bytes zero v i x rest e h =
    let nine : i ≡ 9 = omega arith in
    let bound : x + v * 2 ^ (7 * 9) < 2 ^ 64 = rw nine at h in
    rw nine (tenth_byte v x rest (omega arith))
uvarint_from-uvarint_bytes (suc k) v i x rest e h = elim (Bool-cases (ltb v 128)) [
  | inl small ↦ rw small (last_byte v i x rest (ground arith) (omega arith))
  | inr big ↦
      let split = split_group v i in
      let ih =
        uvarint_from-uvarint_bytes k (v / 128) (i + 1) (x + v % 128 * 2 ^ (7 * i)) rest
          (omega arith) (omega (arith, split, h)) in
      let total : x + v % 128 * 2 ^ (7 * i) + v / 128 * 2 ^ (7 * (i + 1)) ≡ x + v * 2 ^ (7 * i) =
        omega (arith, split) in
      rw big (
        inner_byte (v % 128) i x (uvarint_bytes k (v / 128) ++ rest) (omega arith) (omega arith)
        ∙ ih
        ∙ ap (λ (t : ℕ). ok (t, rest)) total)
]

-- A `uint64` comes back, and what follows it is left.
pub uvarint-append_uvarint :
    (v : ℕ) (rest : List ℕ) → v < 2 ^ 64 → uvarint (append_uvarint v ++ rest) ≡ ok (v, rest)
unfolding uvarint append_uvarint
uvarint-append_uvarint v rest h =
    let same : 0 + v * 2 ^ (7 * 0) ≡ v = omega arith in
    uvarint_from-uvarint_bytes 9 v 0 0 rest refl (omega (arith, same, h))
    ∙ ap (λ (t : ℕ). ok (t, rest)) same

pub word_from-word_bytes :
    (k w : ℕ) (rest : List ℕ) → w < 256 ^ k → word_from k (word_bytes k w ++ rest) ≡ ok (w, rest)
unfolding word_from word_bytes
word_from-word_bytes zero w rest h =
    let none_left : 0 ≡ w = omega arith in ap (λ (t : ℕ). ok (t, rest)) none_left
word_from-word_bytes (suc k) w rest h =
    let whole : w % 256 + 256 * (w / 256) ≡ w = omega arith in
    rw (word_from-word_bytes k (w / 256) rest (omega arith)) (ap (λ (t : ℕ). ok (t, rest)) whole)

-- The zigzag form of a biased index, read and biased again.
zigzag-range : (index : ℕ) → index < two_32 → zigzag index < 2 ^ 64
unfolding zigzag
zigzag-range index h = ground arith

pub biased-unzigzag : (index : ℕ) → index < two_32 → biased (unzigzag (zigzag index)) ≡ ok index
unfolding biased unzigzag zigzag
biased-unzigzag index h = ground arith

pub varint-zigzag :
    (index : ℕ) (rest : List ℕ)
    → index < two_32
    → varint (append_uvarint (zigzag index) ++ rest) ≡ ok (unzigzag (zigzag index), rest)
unfolding varint
varint-zigzag index rest h = rw (uvarint-append_uvarint (zigzag index) rest (zigzag-range index h))

-- ===== src/Aggregate/Sketch/Codec/Tests.antt =====
-- sketch_codec.go: a sketch of three bins, a padded varint, and an index beyond `int32`.
use otelcontext.Base.{ℕ, ◌+◌, ◌-◌, ◌≡◌, refl, inl, true, List, [], ◌∷◌, arith}
use otelcontext.Aggregate.Sketch.{Sketch, two_31, used, set_bin, sum_below, new_sketch}
use otelcontext.Aggregate.Sketch.Codec.{
  ok, encode, decode, capped, populated_bins, populated_from, finite, decode_fields, uvarint,
  uvarint_from, word_from, varint, unzigzag, decode_bins, decode_rounds, decode_count, put_bin,
  biased, Result, err,
}
use otelcontext.Aggregate.Sketch.Codec.Blocks.{Serializable, Shape}
use otelcontext.Aggregate.Sketch.Codec.RoundTrip.{decode-encode, decode_padded}

abbrev sketch : Sketch
sketch = record {
  count = 9;
  zero_count = 1;
  bin_total = 8;
  saturations = 2;
  min_idx = two_31 - 3;
  max_idx = two_31 + 1;
  scale = 4;
  collapsed = true;
  has_bins = true;
  bins = set_bin (set_bin (λ p. 0) 0 5) 4 3;
}

sketch-Serializable : Serializable (capped sketch)
unfolding capped populated_bins populated_from used set_bin
sketch-Serializable = omega arith

sketch-Shape : Shape (capped sketch)
unfolding capped populated_bins populated_from used set_bin sum_below
sketch-Shape = inl (record {
  has = refl;
  low = omega arith;
  high = omega arith;
  inside = omega arith;
  first = omega arith;
  last = omega arith;
  beyond = λ p h. ground arith;
  fits = λ p. ground arith;
  total = refl;
})

decode-encode_example :
    (decode (encode sketch 4607182418800017408)
      ≡ ok (record (capped sketch) { saturations = 0 }, 4607182418800017408))
    × (encode (record (capped sketch) { saturations = 0 }) 4607182418800017408
        ≡ encode sketch 4607182418800017408)
unfolding finite
decode-encode_example =
    decode-encode sketch 4607182418800017408 sketch-Serializable sketch-Shape (omega arith) refl

padded_decodes : decode (1 ∷ 4 ∷ 0 ∷ (3 + 128) ∷ 0 ∷ 7 ∷ []) ≡ decode (1 ∷ 4 ∷ 0 ∷ 3 ∷ 7 ∷ [])
padded_decodes = decode_padded 1 4 0 3 (7 ∷ []) (omega arith)

-- Bins at the greatest index and one above it.
abbrev beyond_int32 : List ℕ
beyond_int32 =
    1 ∷ 4 ∷ 0 ∷ 0 ∷ 2 ∷ 0 ∷ 0 ∷ 0 ∷ 0 ∷ 0 ∷ 0 ∷ 0 ∷ 0 ∷ 2 ∷ 254 ∷ 255 ∷ 255 ∷ 255 ∷ 15 ∷ 0 ∷ 1 ∷ 1
    ∷ 1 ∷ []

abbrev max_of : Result (Sketch × ℕ) → ℕ
max_of (ok (s, sum)) = s.max_idx
max_of (err e) = 7

-- The window ends at the least index, below its start.
wrapped_window : max_of (decode beyond_int32) ≡ 0
unfolding decode decode_fields uvarint uvarint_from word_from finite varint unzigzag decode_bins
    decode_rounds decode_count put_bin biased new_sketch
wrapped_window = refl

-- ===== src/Aggregate/Key/Codec.antt =====
-- key.go: the binary form and the decoder are inverse to one another.
use otelcontext.Base.{
  ℕ, zero, suc, ◌+◌, ◌*◌, ◌/◌, ◌%◌, ◌^◌, ◌<◌, ◌≡◌, refl, ap, ◌∙◌, none, List, [], ◌∷◌, arith,
  length, All,
}
use otelcontext.Aggregate.Key.{
  SeriesKey, ok, validate, marshal_binary, decode_series_key, decode_fields, byte, check_key,
  uint32_at,
}

-- What Go's field types can hold.
pub record InRange (k : SeriesKey) : Type 0 where
  pub tenant_id : k.tenant_id < 2 ^ 32
  pub service_id : k.service_id < 2 ^ 32
  pub name_id : k.name_id < 2 ^ 32
  pub dims_id : k.dims_id < 2 ^ 32

decode_fields-marshal_binary : (k : SeriesKey) → InRange k → decode_fields (marshal_binary k) ≡ k
unfolding marshal_binary decode_fields
decode_fields-marshal_binary k r = ground arith

-- Bytes of the right length and version are read field by field and validated.
decode_of_shape :
    (b : List ℕ)
    → length b ≡ 22
    → byte b 0 ≡ 1
    → decode_series_key b ≡ check_key (decode_fields b) (validate (decode_fields b))
unfolding decode_series_key
decode_of_shape b l v = ground arith

marshal-shape : (k : SeriesKey) → (length (marshal_binary k) ≡ 22) × (byte (marshal_binary k) 0 ≡ 1)
unfolding marshal_binary
marshal-shape k = (refl, refl)

-- A valid key comes back from its binary form unchanged.
pub decode-marshal :
    (k : SeriesKey) → InRange k → validate k ≡ none → decode_series_key (marshal_binary k) ≡ ok k
unfolding check_key
decode-marshal k r v =
    decode_of_shape (marshal_binary k) (marshal-shape k).0 (marshal-shape k).1
    ∙ rw (decode_fields-marshal_binary k r, v)

tabulate : ℕ → (ℕ → ℕ) → List ℕ
tabulate zero f = []
tabulate (suc n) f = f 0 ∷ tabulate n (λ i. f (suc i))

tabulate-byte : (b : List ℕ) → tabulate (length b) (byte b) ≡ b
unfolding tabulate
tabulate-byte [] = refl
tabulate-byte (x ∷ xs) = ap (◌∷◌ x) (tabulate-byte xs)

byte-lt : (b : List ℕ) (i : ℕ) → All (λ x. x < 256) b → byte b i < 256
byte-lt [] i h = omega arith
byte-lt (x ∷ xs) zero h = h.0
byte-lt (x ∷ xs) (suc i) h = byte-lt xs i h.1

-- The four bytes of a little-endian word, from the word.
word_bytes :
    (a b c d : ℕ)
    → a < 256
    → b < 256
    → c < 256
    → d < 256
    → ((a + 256 * b + 65536 * c + 16777216 * d) % 256 ≡ a)
      × ((a + 256 * b + 65536 * c + 16777216 * d) / 256 % 256 ≡ b)
      × ((a + 256 * b + 65536 * c + 16777216 * d) / 65536 % 256 ≡ c)
      × ((a + 256 * b + 65536 * c + 16777216 * d) / 16777216 % 256 ≡ d)
word_bytes a b c d ha hb hc hd = omega arith

word_at :
    (b : List ℕ) (i : ℕ)
    → All (λ x. x < 256) b
    → (uint32_at b i % 256 ≡ byte b i)
      × (uint32_at b i / 256 % 256 ≡ byte b (i + 1))
      × (uint32_at b i / 65536 % 256 ≡ byte b (i + 2))
      × (uint32_at b i / 16777216 % 256 ≡ byte b (i + 3))
word_at b i h =
    word_bytes (byte b i) (byte b (i + 1)) (byte b (i + 2)) (byte b (i + 3)) (byte-lt b i h)
      (byte-lt b (i + 1) h) (byte-lt b (i + 2) h) (byte-lt b (i + 3) h)

bytes_of_fields :
    (b : List ℕ)
    → All (λ x. x < 256) b
    → byte b 0 ≡ 1
    → marshal_binary (decode_fields b) ≡ tabulate 22 (byte b)
unfolding marshal_binary decode_fields tabulate
bytes_of_fields b h v = ground (arith, word_at b 1 h, word_at b 5 h, word_at b 9 h, word_at b 13 h)

decode-ok_inv :
    (b : List ℕ) (k : SeriesKey)
    → decode_series_key b ≡ ok k
    → (length b ≡ 22) × (byte b 0 ≡ 1) × (decode_fields b ≡ k) × (validate k ≡ none)
unfolding decode_series_key check_key
decode-ok_inv b k e = ground arith

-- Whatever the decoder accepts is valid, and its binary form is the very input.
pub marshal-decode :
    (b : List ℕ) (k : SeriesKey)
    → All (λ x. x < 256) b
    → decode_series_key b ≡ ok k
    → (marshal_binary k ≡ b) × (validate k ≡ none)
marshal-decode b k h e =
    let (l, v, f, g) = decode-ok_inv b k e in
    (rw (← f) (bytes_of_fields b h v ∙ rw l at (tabulate-byte b)), g)

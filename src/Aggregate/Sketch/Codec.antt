-- ===== src/Aggregate/Sketch/Codec.antt =====
-- internal/aggregate/sketch_codec.go: the serialized form of a sketch.
-- A byte slice is a list of numbers below 256, and a cursor is what it has not reached. The sum, a
-- `float64` that the other fields do not depend on, is the word of its bits. The varints are those
-- of Go's `encoding/binary`; a `uint64` takes ten bytes at most, the bound of their loops.
pub mod Varint
pub mod Bins
pub mod Blocks
pub mod RoundTrip
mod Tests
use otelcontext.Base.{
  ℕ, zero, suc, ◌+◌, ◌-◌, ◌*◌, ◌/◌, ◌%◌, ◌^◌, Bool, true, false, not, ◌&&◌, ◌||◌, Option, none,
  some, List, [], ◌∷◌, ◌++◌, ltb, leb, ◌==◌, if◌then◌else◌, length, ℤ, pos, negsuc, min,
}
use otelcontext.Aggregate.Sketch.{
  Sketch, new_sketch, two_31, two_32, max_uint32, sketch_max_bins, used, set_bin, collapse_to,
}

abbrev pub sketch_encoding_version : ℕ
sketch_encoding_version = 1

abbrev pub sketch_max_serialized_bins : ℕ
sketch_max_serialized_bins = 256

abbrev pub sketch_max_scale : ℕ
sketch_max_scale = 20

pub data SketchError : Type 0 where
  bad_version bad_scale truncated corrupt : SketchError

pub data Result {ℓ} (A : Type ℓ) : Type ℓ where
  ok : A → Result A
  err : SketchError → Result A

infixl 5 ◌>>=◌
abbrev pub ◌>>=◌ {ℓ κ} : {A : Type ℓ} {B : Type κ} → Result A → (A → Result B) → Result B
ok a >>= f = f a
err e >>= f = err e

-- `binary.AppendUvarint`: seven bits to a byte, the lowest first.
unfoldable pub uvarint_bytes : ℕ → ℕ → List ℕ
uvarint_bytes zero v = v ∷ []
uvarint_bytes (suc k) v = if ltb v 128 then v ∷ [] else (v % 128 + 128) ∷ uvarint_bytes k (v / 128)

unfoldable pub append_uvarint : ℕ → List ℕ
append_uvarint v = uvarint_bytes 9 v

-- `binary.Uvarint` from its byte `i` on, and `sketchReader.uvarint`: nothing read is a truncated
-- field, more than 64 bits a corrupt one. A byte after the tenth is never used.
unfoldable pub uvarint_from : List ℕ → ℕ → ℕ → Result (ℕ × List ℕ)
uvarint_from [] i x = err truncated
uvarint_from (b ∷ bs) i x =
    let more = uvarint_from bs (i + 1) (x + b % 128 * 2 ^ (7 * i)) in
    if i == 10
    then err corrupt
    else if ltb b 128
    then if i == 9 && ltb 1 b then err corrupt else ok (x + b * 2 ^ (7 * i), bs)
    else more

unfoldable pub uvarint : List ℕ → Result (ℕ × List ℕ)
uvarint bs = uvarint_from bs 0 0

-- The zigzag form of a biased `int32`, and `sketchReader.varint`.
unfoldable pub zigzag : ℕ → ℕ
zigzag index = if leb two_31 index then 2 * (index - two_31) else 2 * (two_31 - index) - 1

unfoldable pub unzigzag : ℕ → ℤ
unzigzag u = if u % 2 == 0 then pos (u / 2) else negsuc (u / 2)

unfoldable pub varint : List ℕ → Result (ℤ × List ℕ)
varint bs = do (u, rest) ← uvarint bs; ok (unzigzag u, rest)

-- `binary.LittleEndian`: eight bytes of a word.
unfoldable pub word_bytes : ℕ → ℕ → List ℕ
word_bytes zero w = []
word_bytes (suc k) w = w % 256 ∷ word_bytes k (w / 256)

unfoldable pub word_from : ℕ → List ℕ → Result (ℕ × List ℕ)
word_from zero bs = ok (0, bs)
word_from (suc k) [] = err truncated
word_from (suc k) (b ∷ bs) = do (w, rest) ← word_from k bs; ok (b + 256 * w, rest)

-- `!math.IsNaN(sum) && !math.IsInf(sum, 0)`, on the bits of `sum`.
unfoldable pub finite : ℕ → Bool
finite bits = not (bits / 2 ^ 52 % 2048 == 2047)

-- The populated bins among `n` from position `p` on.
unfoldable pub populated_from : ℕ → ℕ → (ℕ → ℕ) → ℕ
populated_from zero p bins = 0
populated_from (suc n) p bins = (if bins p == 0 then 0 else 1) + populated_from n (suc p) bins

unfoldable pub populated_bins : Sketch → ℕ
populated_bins s = if s.has_bins then populated_from (used s) 0 s.bins else 0

unfoldable pub first_from : ℕ → ℕ → (ℕ → ℕ) → Option ℕ
first_from zero p bins = none
first_from (suc n) p bins =
    let later = first_from n (suc p) bins in if bins p == 0 then later else some p

-- `firstPopulated`, as a position.
unfoldable pub first_populated : Sketch → Option ℕ
first_populated s = if s.has_bins then first_from (used s) 0 s.bins else none

-- The loop of `collapseToBinCap` downwards over `n` positions, with the populated bins seen.
unfoldable pub floor_for : ℕ → ℕ → ℕ → (ℕ → ℕ) → ℕ
floor_for zero seen limit bins = 0
floor_for (suc n) seen limit bins =
    let next = floor_for n (if bins n == 0 then seen else seen + 1) limit bins in
    if not (bins n == 0) && seen + 1 == limit then n else next

unfoldable pub collapse_to_bin_cap : Sketch → ℕ → Sketch
collapse_to_bin_cap s limit =
    if leb (populated_bins s) limit
    then s
    else collapse_to s (s.min_idx + floor_for (used s) 0 limit s.bins)

unfoldable pub capped : Sketch → Sketch
capped s =
    if ltb sketch_max_serialized_bins (populated_bins s)
    then collapse_to_bin_cap s sketch_max_serialized_bins
    else s

-- The loop of `AppendTo` over `n` positions from `p` on.
unfoldable pub append_bins : ℕ → ℕ → ℕ → (ℕ → ℕ) → List ℕ
append_bins zero p prev bins = []
append_bins (suc n) p prev bins =
    let skipped = append_bins n (suc p) prev bins in
    let rest = append_bins n (suc p) p bins in
    if bins p == 0 then skipped else append_uvarint (p - prev) ++ (append_uvarint (bins p) ++ rest)

unfoldable pub bins_block : Sketch → Option ℕ → List ℕ
bins_block s none = append_uvarint 0
bins_block s (some first) =
    append_uvarint (zigzag (s.min_idx + first)) ++ append_bins (used s - first) first first s.bins

unfoldable pub append_sketch : Sketch → ℕ → List ℕ
append_sketch src sum =
    sketch_encoding_version
    ∷ src.scale
    ∷ (if src.collapsed then 1 else 0)
    ∷ (append_uvarint src.zero_count
        ++ (append_uvarint src.count
            ++ (word_bytes 8 sum
                ++ (append_uvarint (populated_bins src) ++ bins_block src (first_populated src)))))

-- `Encode`: a sketch with its sum.
unfoldable pub encode : Sketch → ℕ → List ℕ
encode s sum = append_sketch (capped s) sum

-- The tests of a round on its delta, the count that it reads, and the tests on that.
unfoldable pub decode_count : Bool → ℕ → ℕ → List ℕ → Result (ℕ × List ℕ)
decode_count first offset delta bs =
    let checked = do
      (count, rest) ← uvarint bs
      if count == 0 || ltb max_uint32 count then err corrupt else ok (count, rest)
    in if first && not (delta == 0)
      then err corrupt
      else if not first && delta == 0
      then err corrupt
      else if leb sketch_max_bins delta
      then err corrupt
      else if leb sketch_max_bins (offset + delta)
      then err corrupt
      else checked

unfoldable pub put_bin : Sketch → ℕ → ℕ → Sketch
put_bin s place count = record s {
  bins = set_bin s.bins place count;
  bin_total = s.bin_total + count;
}

-- The rounds of `decodeBins`: `first` says that it is the first one, `offset` is the distance of
-- the index from the first one.
unfoldable pub decode_rounds : ℕ → Bool → ℕ → Sketch → List ℕ → Result (Sketch × ℕ × List ℕ)
decode_rounds zero first offset s bs = ok (s, offset, bs)
decode_rounds (suc n) first offset s bs = do
  (delta, after_delta) ← uvarint bs
  (count, after_count) ← decode_count first offset delta after_delta
  decode_rounds n false (offset + delta) (put_bin s (offset + delta) count) after_count

-- An `int64` in the range of `int32`, biased.
unfoldable pub biased : ℤ → Result ℕ
biased (pos n) = if leb two_31 n then err corrupt else ok (two_31 + n)
biased (negsuc n) = if leb two_31 n then err corrupt else ok (two_31 - 1 - n)

-- The end of `decodeBins`: `int32(index)` wraps.
abbrev pub set_window : ℕ → Sketch × ℕ × List ℕ → Result (Sketch × List ℕ)
set_window first (s, offset, rest) =
    ok (record s { has_bins = true; min_idx = first; max_idx = (first + offset) % two_32 }, rest)

unfoldable pub decode_bins : ℕ → ℤ → Sketch → List ℕ → Result (Sketch × List ℕ)
decode_bins zero (pos zero) s bs = ok (s, bs)
decode_bins zero index s bs = err corrupt
decode_bins (suc n) index s bs = do
  first ← biased index
  r ← decode_rounds (suc n) true 0 s bs
  set_window first r

-- The tests at the end of `DecodeSketchInto`.
abbrev pub final_tests : ℕ → Sketch × List ℕ → Result (Sketch × ℕ)
final_tests sum (s, b ∷ rest) = err corrupt
final_tests sum (s, []) =
    if ltb s.count s.zero_count || ltb (s.count - s.zero_count) s.bin_total
    then err corrupt
    else ok (s, sum)

unfoldable pub decode_fields : ℕ → Bool → List ℕ → Result (Sketch × ℕ)
decode_fields scale collapsed bs = do
  (zero_count, after_zero) ← uvarint bs
  (count, after_count) ← uvarint after_zero
  (sum, after_sum) ← word_from 8 after_count
  finite_sum ← if finite sum then ok sum else err corrupt
  (num_bins, after_bins) ← uvarint after_sum
  capped_bins ← if ltb sketch_max_serialized_bins num_bins then err corrupt else ok num_bins
  (first_index, block) ← varint after_bins
  decoded ←
      decode_bins capped_bins first_index
        (record (new_sketch scale) {
          count = count;
          zero_count = zero_count;
          collapsed = collapsed;
        })
        block
  final_tests finite_sum decoded

-- `DecodeSketch`
unfoldable pub decode : List ℕ → Result (Sketch × ℕ)
decode (version ∷ scale ∷ flags ∷ bs) =
    if not (version == sketch_encoding_version)
    then err bad_version
    else if ltb sketch_max_scale scale
    then err bad_scale
    else if not (flags / 2 == 0)
    then err corrupt
    else decode_fields scale (flags % 2 == 1) bs
decode bs = err truncated

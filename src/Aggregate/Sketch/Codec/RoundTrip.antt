-- ===== src/Aggregate/Sketch/Codec/RoundTrip.antt =====
-- sketch_codec.go: a sketch comes back from its serialized form; the form is not the only one that
-- the decoder accepts.
use otelcontext.Base.{
  ℕ, ◌+◌, ◌-◌, ◌/◌, ◌%◌, ◌^◌, ◌<◌, ◌≡◌, refl, sym, ap, ◌∙◌, Bool, true, false, not, ◌||◌, List, ◌∷◌,
  ◌++◌, arith, ltb, ◌==◌, if◌then◌else◌,
}
use otelcontext.Aggregate.Sketch.{Sketch, used}
use otelcontext.Aggregate.Sketch.Codec.{
  Result, ok, err, corrupt, ◌>>=◌, uvarint, append_uvarint, append_sketch, bins_block, decode_bins,
  decode_fields, decode, encode, capped, populated_bins, first_populated,
  sketch_max_serialized_bins, sketch_max_scale, finite, word_bytes, varint, final_tests,
  uvarint_from,
}
use otelcontext.Aggregate.Sketch.Codec.Varint.{uvarint-append_uvarint, word_from-word_bytes}
use otelcontext.Aggregate.Sketch.Codec.Blocks.{Serializable, Shape, Block, Block-Shape, header}

bind_assoc :
    {A B C : Type 0} (m : Result A) (f : A → Result B) (g : B → Result C)
    → ((m >>= f) >>= g) ≡ (m >>= λ a. f a >>= g)
bind_assoc (ok a) f g = refl
bind_assoc (err e) f g = refl

decode_fields-Block :
    (s : Sketch) (sum : ℕ) (block : List ℕ)
    → Serializable s
    → sum < 2 ^ 64
    → finite sum ≡ true
    → Block s block
    → decode_fields s.scale s.collapsed (
        append_uvarint s.zero_count
        ++ (append_uvarint s.count
            ++ (word_bytes 8 sum ++ (append_uvarint (populated_bins s) ++ block))))
      ≡ ok (record s { saturations = 0 }, sum)
unfolding decode_fields
decode_fields-Block s sum block h range fine b =
    let zero =
      uvarint-append_uvarint s.zero_count
        (append_uvarint s.count
          ++ (word_bytes 8 sum ++ (append_uvarint (populated_bins s) ++ block)))
        (omega (arith, h.count, h.totals)) in
    let count =
      uvarint-append_uvarint s.count
        (word_bytes 8 sum ++ (append_uvarint (populated_bins s) ++ block)) h.count in
    let word = word_from-word_bytes 8 sum (append_uvarint (populated_bins s) ++ block) range in
    let bins = uvarint-append_uvarint (populated_bins s) block (omega (arith, h.populated)) in
    let within : ltb sketch_max_serialized_bins (populated_bins s) ≡ false =
      ground (arith, h.populated) in
    let enough : (ltb s.count s.zero_count || ltb (s.count - s.zero_count) s.bin_total) ≡ false =
      ground (arith, h.totals) in
    rw (zero, count, word, fine, bins, within)
      (sym (
          bind_assoc (varint block) (λ r. decode_bins (populated_bins s) r.0 (header s) r.1)
            (final_tests sum))
        ∙ ap (λ (v : Result (Sketch × List ℕ)). v >>= final_tests sum) b
        ∙ rw enough refl)

decode-append_sketch :
    (s : Sketch) (sum : ℕ)
    → Serializable s
    → Shape s
    → sum < 2 ^ 64
    → finite sum ≡ true
    → decode (append_sketch s sum) ≡ ok (record s { saturations = 0 }, sum)
unfolding decode append_sketch
decode-append_sketch s sum h shape range fine =
    let known : ltb sketch_max_scale s.scale ≡ false = ground (arith, h.scale) in
    let read =
      decode_fields-Block s sum (bins_block s (first_populated s)) h range fine
        (Block-Shape s shape) in
    rw known (
      flagged s.collapsed (λ c. decode_fields s.scale c (
        append_uvarint s.zero_count
        ++ (append_uvarint s.count
            ++ (word_bytes 8 sum
                ++ (append_uvarint (populated_bins s) ++ bins_block s (first_populated s))))))
      ∙ read)
  where
    flagged :
        (c : Bool) (f : Bool → Result (Sketch × ℕ))
        → (if not ((if c then 1 else 0) / 2 == 0)
            then err corrupt
            else f ((if c then 1 else 0) % 2 == 1))
          ≡ f c
    flagged true f = refl
    flagged false f = refl

-- A sketch that fits the format once it is collapsed to the bin cap, with a window whose ends are
-- populated or none, and a finite sum: its serialized form decodes to that collapsed sketch, with
-- its saturations forgotten, and the decoded sketch has the same serialized form.
pub decode-encode :
    (s : Sketch) (sum : ℕ)
    → Serializable (capped s)
    → Shape (capped s)
    → sum < 2 ^ 64
    → finite sum ≡ true
    → (decode (encode s sum) ≡ ok (record (capped s) { saturations = 0 }, sum))
      × (encode (record (capped s) { saturations = 0 }) sum ≡ encode s sum)
unfolding encode capped append_sketch bins_block first_populated populated_bins used
decode-encode s sum h shape range fine =
    let within : ltb sketch_max_serialized_bins (populated_bins (capped s)) ≡ false =
      ground (arith, h.populated) in
    (decode-append_sketch (capped s) sum h shape range fine, rw (within, capped) refl)

-- The bug: the decoder accepts a varint with more bytes than it needs, so two byte strings decode
-- alike and at most one of them is what the decoded sketch encodes to.
pub decode_padded :
    (version scale flags zero_count : ℕ) (bs : List ℕ)
    → zero_count < 128
    → decode (version ∷ scale ∷ flags ∷ (zero_count + 128) ∷ 0 ∷ bs)
      ≡ decode (version ∷ scale ∷ flags ∷ zero_count ∷ bs)
unfolding decode decode_fields uvarint uvarint_from
decode_padded version scale flags z bs h = ground arith

-- ===== src/Queue/Dlq/Files.antt =====
-- dlq.go: the listing of the directory, and the directory after an eviction.
use otelcontext.Base.{
  ℕ, ◌+◌, ◌-◌, ◌≤◌, ◌≡◌, refl, ap, inl, inr, true, false, Option, none, some, List, [], ◌∷◌, arith,
  ltb, if◌then◌else◌, Text, text_discrete, Bool-cases, is_some,
}
use otelcontext.Base.Map.{Map, get, delete}
use otelcontext.Base.Map.Laws.{Distinct, delete_missing}
use otelcontext.Queue.Dlq.{DirEntry, FileInfo, listed, collect, is_envelope, max_int64}

abbrev size_of : Option ℕ → ℕ
size_of none = 0
size_of (some n) = n

-- The envelopes of a directory, in order.
unfoldable pub envelopes : Map Text DirEntry → List FileInfo
envelopes [] = []
envelopes ((name, e) ∷ m) =
    let rest = envelopes m in
    if is_envelope name e then record { name = name; size = size_of e.info } ∷ rest else rest

unfoldable pub total_size : List FileInfo → ℕ
total_size [] = 0
total_size (f ∷ files) = f.size + total_size files

-- The operating system tells the size of every envelope.
unfoldable pub Stated : Map Text DirEntry → Type 0
Stated [] = Unit {0}
Stated ((name, e) ∷ m) = ((size : ℕ) × (e.info ≡ some size)) × Stated m

collect-envelope :
    (name : Text) (e : DirEntry) (m : Map Text DirEntry) (total size : ℕ)
    → is_envelope name e ≡ true
    → e.info ≡ some size
    → (total + size + total_size (envelopes m) ≤ max_int64
        → collect m (total + size) ≡ listed (envelopes m) (total + size + total_size (envelopes m)))
    → total + total_size (envelopes ((name, e) ∷ m)) ≤ max_int64
    → collect ((name, e) ∷ m) total
      ≡ listed (envelopes ((name, e) ∷ m)) (total + total_size (envelopes ((name, e) ∷ m)))
unfolding collect envelopes total_size
collect-envelope name e m total size v i rest h =
    let fits : total + size + total_size (envelopes m) ≤ max_int64 = ground (arith, h, v, i) in
    let below : ltb (max_int64 - total) size ≡ false = ground (arith, fits) in
    let tail = rest fits in
    let sum : total + size + total_size (envelopes m) ≡ total + (size + total_size (envelopes m)) =
      omega arith in
    rw (v, collect, i, below, tail, sum) refl

pub collect_lem :
    (m : Map Text DirEntry) (total : ℕ)
    → Stated m
    → total + total_size (envelopes m) ≤ max_int64
    → collect m total ≡ listed (envelopes m) (total + total_size (envelopes m))
unfolding collect Stated envelopes total_size
collect_lem [] total s h = ap (listed []) (omega arith)
collect_lem ((name, e) ∷ m) total s h = elim (Bool-cases (is_envelope name e)) [
  | inl v ↦ collect-envelope name e m total (s.0.0) v (s.0.1) (collect_lem m (total + s.0.0) s.1) h
  | inr v ↦
      let skip : total + total_size (envelopes m) ≤ max_int64 = ground (arith, h, v) in
      let rest = collect_lem m total s.1 skip in rw (v, collect) rest
]

envelope_there :
    (m : Map Text DirEntry) (f : FileInfo) (files : List FileInfo)
    → envelopes m ≡ f ∷ files
    → is_some (get text_discrete f.name m) ≡ true
unfolding envelopes get
envelope_there [] f files h = absurd (cc)
envelope_there ((name, e) ∷ m) f files h = grind (arith, envelope_there m f files)

-- Evicting the oldest envelope leaves the others.
pub envelopes-delete :
    (m : Map Text DirEntry) (f : FileInfo) (files : List FileInfo)
    → Distinct text_discrete m
    → envelopes m ≡ f ∷ files
    → envelopes (delete text_discrete f.name m) ≡ files
unfolding envelopes delete get
envelopes-delete [] f files d h = absurd (cc)
envelopes-delete ((name, e) ∷ m) f files d h = grind (
  arith,
  envelopes-delete m f files d.1,
  envelope_there m f files,
  delete_missing text_discrete name m d.0,
  d.0,
)

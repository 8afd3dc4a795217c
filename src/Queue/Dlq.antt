-- ===== src/Queue/Dlq.antt =====
-- internal/queue/dlq.go: the disk limits of the dead letter queue and its oldest-first eviction.
-- The directory is a map from names in the order that `os.ReadDir` documents. What the operating
-- system answers is a parameter: whether the directory can be read, and which files it removes.
-- The limits are not negative. Byte counts are `int64`, and their sum wraps as it does there.
pub mod Files
pub mod Limits
pub mod Replay
mod Tests
use otelcontext.Base.{
  ℕ, ◌+◌, ◌-◌, ◌*◌, ◌/◌, ◌^◌, Bool, true, false, not, ◌&&◌, Option, none, some, List, [], ◌∷◌, ltb,
  leb, ◌==◌, if◌then◌else◌, Text, text, text_discrete, length, drop, dec_bool,
}
use otelcontext.Base.Map.{Map, delete}

abbrev pub max_int64 : ℕ
max_int64 = 9223372036854775807

abbrev pub bytes_per_mib : ℕ
bytes_per_mib = 1024 * 1024

-- `filepath.Ext(name) == ".json"`
unfoldable pub is_json : Text → Bool
is_json name = dec_bool (text_discrete (drop (length name - 5) name) (text ".json"))

pub record DirEntry : Type 0 where
  pub is_dir : Bool
  pub info : Option ℕ

pub record FileInfo : Type 0 where
  pub name : Text
  pub size : ℕ

pub data DlqError : Type 0 where
  limit_out_of_range : DlqError
  envelope_too_large : ℕ → DlqError
  read_failed : DlqError
  stat_failed : Text → DlqError
  sizes_out_of_range : DlqError
  remove_failed : Text → DlqError

pub record Dlq : Type 0 where
  pub entries : Map Text DirEntry
  pub max_files : ℕ
  pub max_disk_mb : ℕ
  pub retries : Map Text ℕ
  pub evicted : ℕ
  pub evicted_bytes : ℕ

-- An entry that the queue looks at.
unfoldable pub is_envelope : Text → DirEntry → Bool
is_envelope name e = not e.is_dir && is_json name

-- The outcome of the pass over the directory: an error, or the files with their total size.
pub data Listing : Type 0 where
  failed : DlqError → Listing
  listed : List FileInfo → ℕ → Listing

abbrev pub prepend : FileInfo → Listing → Listing
prepend f (failed e) = failed e
prepend f (listed fs total) = listed (f ∷ fs) total

pub collect : Map Text DirEntry → ℕ → Listing
collect [] total = listed [] total
collect ((name, e) ∷ m) total =
    let skipped = collect m total in
    if not (is_envelope name e) then skipped else elim e.info [
      | none ↦ failed (stat_failed name)
      | some size ↦
          let rest = collect m (total + size) in
          if ltb (max_int64 - total) size
          then failed sizes_out_of_range
          else prepend (record { name = name; size = size }) rest
    ]

-- `totalBytes+incomingBytes > maxBytes` on `int64`: a sum that wraps is negative.
pub sum_exceeds : ℕ → ℕ → ℕ → Bool
sum_exceeds total incoming max_bytes =
    leb (total + incoming) max_int64 && ltb max_bytes (total + incoming)

pub over_files : Dlq → List FileInfo → Bool
over_files d files = ltb 0 d.max_files && leb d.max_files (length files)

pub over_disk : ℕ → ℕ → ℕ → Bool
over_disk max_bytes total incoming = ltb 0 max_bytes && sum_exceeds total incoming max_bytes

pub evict_file : Dlq → FileInfo → Dlq
evict_file d f = record d {
  entries = delete text_discrete f.name d.entries;
  retries = delete text_discrete f.name d.retries;
  evicted = d.evicted + 1;
  evicted_bytes = d.evicted_bytes + f.size;
}

-- The eviction loop over the files that are left, oldest first.
pub evict : (Text → Bool) → ℕ → ℕ → Dlq → List FileInfo → ℕ → Dlq × Option DlqError
evict removable max_bytes incoming d [] total = (d, none)
evict removable max_bytes incoming d (f ∷ files) total =
    let rest = evict removable max_bytes incoming (evict_file d f) files (total - f.size) in
    if not (over_files d (f ∷ files)) && not (over_disk max_bytes total incoming)
    then (d, none)
    else if not (removable f.name)
    then (d, some (remove_failed f.name))
    else rest

pub evict_listed : (Text → Bool) → ℕ → ℕ → Dlq → Listing → Dlq × Option DlqError
evict_listed removable max_bytes incoming d (failed e) = (d, some e)
evict_listed removable max_bytes incoming d (listed files total) =
    evict removable max_bytes incoming d files total

pub enforce_limits : Bool → (Text → Bool) → Dlq → ℕ → Dlq × Option DlqError
enforce_limits readable removable d incoming =
    let max_bytes = d.max_disk_mb * bytes_per_mib in
    if d.max_files == 0 && d.max_disk_mb == 0
    then (d, none)
    else if ltb (max_int64 / bytes_per_mib) d.max_disk_mb
    then (d, some limit_out_of_range)
    else if ltb 0 max_bytes && ltb max_bytes incoming
    then (d, some (envelope_too_large incoming))
    else if not readable
    then (d, some read_failed)
    else evict_listed removable max_bytes incoming d (collect d.entries 0)

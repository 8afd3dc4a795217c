-- ===== src/Queue/Dlq/Replay.antt =====
-- internal/queue/dlq.go: the replay pass over the directory (`processFiles`), one tick of the
-- worker. What the world answers is a parameter of each tick (`World`): the age of a file, whether
-- it can be read and removed, and whether the database accepts it. A tick reads the directory once;
-- touching a file whose replay failed shows in the ages of the next tick. The configured interval,
-- a `time.Duration`, is in nanoseconds; it and the caps are not negative.
pub mod Keeping
pub mod Draining
mod Tests
use otelcontext.Base.{
  ℕ, ℤ, pos_part, ◌+◌, ◌-◌, ◌*◌, ◌%◌, ◌^◌, Bool, true, false, not, ◌&&◌, Option, none, some, List,
  [], ◌∷◌, ltb, leb, if◌then◌else◌, min, Text, text_discrete,
}
use otelcontext.Base.Map.{Map, delete, at, incr}
use otelcontext.Queue.Dlq.{Dlq, DirEntry, is_envelope}

abbrev pub two_63 : ℕ
two_63 = 9223372036854775808

abbrev pub two_64 : ℕ
two_64 = 18446744073709551616

-- `30 * time.Minute`
abbrev pub max_backoff : ℕ
max_backoff = 1800000000000

pub record World : Type 0 where
  pub readable_dir : Bool
  pub age : Text → Option ℕ
  pub readable : Text → Bool
  pub accepts : Text → Bool
  pub removable : Text → Bool
  -- `time.Duration` of a float64 beyond its range, which the language leaves to the implementation.
  pub out_of_range : ℕ → ℕ

pub record Replayer : Type 0 where
  pub queue : Dlq
  pub interval : ℕ
  pub max_retries : ℕ
  pub max_replay_per_tick : ℕ
  pub failures : ℕ
  pub successes : ℕ

-- `SetMaxReplayPerTick`
unfoldable pub set_max_replay_per_tick : Replayer → ℤ → Replayer
set_max_replay_per_tick r n = record r { max_replay_per_tick = pos_part n }

-- `time.Duration(math.Pow(2, float64(retries-1)))`, as an unsigned word.
unfoldable pub doubled : World → ℕ → ℕ
doubled w n = if ltb n 63 then 2 ^ n else w.out_of_range n

-- `time.Since(info.ModTime()) < backoff`, where the product wraps as `int64` does: a negative
-- backoff is below every age.
unfoldable pub within_backoff : World → ℕ → ℕ → ℕ → Bool
within_backoff w retries interval age =
    let backoff = doubled w (retries - 1) * interval % two_64 in
    if leb two_63 backoff then false else ltb age (min backoff max_backoff)

unfoldable pub retries_of : Replayer → Text → ℕ
retries_of r name = at text_discrete name r.queue.retries

unfoldable pub waits : World → Replayer → Text → Bool
waits w r name = ltb 0 (retries_of r name) && elim (w.age name) [
  | none ↦ false
  | some age ↦ within_backoff w (retries_of r name) r.interval age
]

unfoldable pub gives_up : Replayer → Text → Bool
gives_up r name = ltb 0 r.max_retries && leb r.max_retries (retries_of r name)

unfoldable pub remove_file : World → Text → Map Text DirEntry → Map Text DirEntry
remove_file w name m = if w.removable name then delete text_discrete name m else m

-- The drop of a file whose retries are used up; an error of the removal is ignored.
unfoldable pub drop_file : World → Replayer → Text → Replayer
drop_file w r name = record r {
  queue = record r.queue {
    entries = remove_file w name r.queue.entries;
    retries = delete text_discrete name r.queue.retries;
  };
}

unfoldable pub replay_failed : Replayer → Text → Replayer
replay_failed r name = record r {
  queue = record r.queue { retries = incr text_discrete name r.queue.retries };
  failures = r.failures + 1;
}

unfoldable pub replay_done : Replayer → Text → Replayer
replay_done r name = record r {
  queue = record r.queue {
    entries = delete text_discrete name r.queue.entries;
    retries = delete text_discrete name r.queue.retries;
  };
  successes = r.successes + 1;
}

unfoldable pub attempt : World → Replayer → Text → Replayer
attempt w r name =
    if not (w.accepts name)
    then replay_failed r name
    else if w.removable name
    then replay_done r name
    else r

-- One envelope, with the number of calls of `replayFn`.
unfoldable pub visit : World → Replayer → Text → Replayer × ℕ
visit w r name =
    if gives_up r name
    then (drop_file w r name, 0)
    else if waits w r name
    then (r, 0)
    else if not (w.readable name)
    then (r, 0)
    else (attempt w r name, 1)

unfoldable pub cap_reached : Replayer → ℕ → Bool
cap_reached r attempts = ltb 0 r.max_replay_per_tick && leb r.max_replay_per_tick attempts

-- One entry of the directory.
unfoldable pub step : World → Replayer → Text → DirEntry → Replayer × ℕ
step w r name e = if is_envelope name e then visit w r name else (r, 0)

-- The loop over the entries that were read, with the attempts so far.
unfoldable pub process : World → Map Text DirEntry → Replayer → ℕ → Replayer × ℕ
process w [] r attempts = (r, attempts)
process w ((name, e) ∷ es) r attempts =
    let v = step w r name e in
    let rest = process w es v.0 (attempts + v.1) in
    if is_envelope name e && cap_reached r attempts then (r, attempts) else rest

unfoldable pub process_files : World → Replayer → Replayer × ℕ
process_files w r = if w.readable_dir then process w r.queue.entries r 0 else (r, 0)

unfoldable pub ticks : List World → Replayer → Replayer
ticks [] r = r
ticks (w ∷ ws) r = ticks ws (process_files w r).0

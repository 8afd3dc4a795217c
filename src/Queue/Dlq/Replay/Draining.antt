-- ===== src/Queue/Dlq/Replay/Draining.antt =====
-- dlq.go: ticks against a database that is back empty the queue.
use otelcontext.Base.{
  ℕ, ◌+◌, ◌-◌, ◌≤◌, ◌<◌, ◌≡◌, refl, sym, if_pos, if_neg, ◌∙◌, ap, subst, inl, inr, Bool, true,
  false, ◌&&◌, none, some, [], ◌∷◌, arith, ltb, if◌then◌else◌, Bool-cases, Text, text_discrete,
  List, length, All,
}
use otelcontext.Base.Map.{Map, get, delete}
use otelcontext.Base.Map.Laws.{Distinct, delete-Distinct}
use otelcontext.Queue.Dlq.{DirEntry, is_envelope}
use otelcontext.Queue.Dlq.Replay.{
  World, Replayer, waits, within_backoff, max_backoff, remove_file, drop_file, replay_done, attempt,
  visit, step, cap_reached, process, process_files, ticks,
}

-- The number of envelopes in a directory.
unfoldable pub waiting : Map Text DirEntry → ℕ
waiting [] = 0
waiting ((name, e) ∷ m) = (if is_envelope name e then 1 else 0) + waiting m

-- The database accepts every envelope, the files can be read and removed, and all of them are older
-- than the longest backoff.
pub record Working (w : World) : Type 0 where
  pub dir : w.readable_dir ≡ true
  pub reads : (name : Text) → w.readable name ≡ true
  pub takes : (name : Text) → w.accepts name ≡ true
  pub removes : (name : Text) → w.removable name ≡ true
  pub old : (name : Text) → (age : ℕ) × (w.age name ≡ some age) × (max_backoff ≤ age)

delete-waiting : (k : Text) (m : Map Text DirEntry) → waiting (delete text_discrete k m) ≤ waiting m
unfolding waiting delete
delete-waiting k [] = omega arith
delete-waiting k ((name, e) ∷ m) = ground (arith, delete-waiting k m)

delete-waiting_less :
    (k : Text) (e : DirEntry) (m : Map Text DirEntry)
    → get text_discrete k m ≡ some e
    → is_envelope k e ≡ true
    → waiting (delete text_discrete k m) < waiting m
unfolding waiting delete get
delete-waiting_less k e [] h v = ground arith
delete-waiting_less k e ((name, f) ∷ m) h v = elim (text_discrete name k) [
  | yes same ↦
      let found : get text_discrete k ((name, f) ∷ m) ≡ some f =
        if_pos (text_discrete name k) same (some f) (get text_discrete k m) in
      let alike : some f ≡ some e = sym found ∙ h in
      grind (arith, delete-waiting k m, same, alike, v)
  | no apart ↦ grind (arith, delete-waiting_less k e m, h, v, apart)
]

waits-Working : (w : World) (r : Replayer) (name : Text) → Working w → waits w r name ≡ false
unfolding waits within_backoff
waits-Working w r name h = let (age, e, old) = h.old name in ground (arith, e, old)

-- Every visit of such a tick removes the file.
visit-Working :
    (w : World) (r : Replayer) (name : Text)
    → Working w
    → (visit w r name).0.queue.entries ≡ delete text_discrete name r.queue.entries
unfolding visit drop_file attempt replay_done remove_file
visit-Working w r name h =
    ground (arith, waits-Working w r name h, h.reads name, h.takes name, h.removes name)

step-waiting :
    (w : World) (r : Replayer) (name : Text) (e : DirEntry)
    → Working w
    → waiting (step w r name e).0.queue.entries ≤ waiting r.queue.entries
unfolding step
step-waiting w r name e h =
    let gone = ap waiting (visit-Working w r name h) in
    ground (arith, gone, delete-waiting name r.queue.entries)

process-waiting :
    (w : World) (es : Map Text DirEntry) (r : Replayer) (n : ℕ)
    → Working w
    → waiting (process w es r n).0.queue.entries ≤ waiting r.queue.entries
unfolding process
process-waiting w [] r n h = omega arith
process-waiting w ((name, e) ∷ es) r n h =
    let v = step w r name e in
    let rest = process-waiting w es v.0 (n + v.1) h in
    ground (arith, rest, step-waiting w r name e h)

step-waiting_less :
    (w : World) (r : Replayer) (name : Text) (e : DirEntry)
    → Working w
    → get text_discrete name r.queue.entries ≡ some e
    → is_envelope name e ≡ true
    → waiting (step w r name e).0.queue.entries < waiting r.queue.entries
unfolding step
step-waiting_less w r name e h found v =
    let gone = ap waiting (visit-Working w r name h) in
    ground (arith, gone, delete-waiting_less name e r.queue.entries found v)

-- Before the first attempt no cap is reached.
no_stop : (r : Replayer) (b : Bool) → b && cap_reached r 0 ≡ false
unfolding cap_reached
no_stop r b = ground arith

-- A key of the rest of a map with distinct keys is found behind the first entry.
passed :
    (name : Text) (e : DirEntry) (es : Map Text DirEntry) (k : Text) (f : DirEntry)
    → get text_discrete name es ≡ none
    → get text_discrete k es ≡ some f
    → get text_discrete k ((name, e) ∷ es) ≡ some f
unfolding get
passed name e es k f fresh found = elim (text_discrete name k) [
  | yes same ↦
      let clash : none ≡ some f = sym fresh ∙ ap (λ j. get text_discrete j es) same ∙ found in cc
  | no apart ↦ if_neg (text_discrete name k) apart (some e) (get text_discrete k es) ∙ found
]

first_found :
    (name : Text) (e : DirEntry) (es : Map Text DirEntry)
    → get text_discrete name ((name, e) ∷ es) ≡ some e
unfolding get
first_found name e es = if_pos (text_discrete name name) refl (some e) (get text_discrete name es)

-- The first envelope of the directory is visited, whatever the cap.
process-waiting_less :
    (w : World) (es : Map Text DirEntry) (r : Replayer)
    → Working w
    → ((k : Text) (e : DirEntry)
        → get text_discrete k es ≡ some e
        → get text_discrete k r.queue.entries ≡ some e)
    → Distinct text_discrete es
    → 0 < waiting es
    → waiting (process w es r 0).0.queue.entries < waiting r.queue.entries
unfolding process waiting step
process-waiting_less w [] r h inside d some_left = omega (arith, some_left)
process-waiting_less w ((name, e) ∷ es) r h inside d some_left =
    elim (Bool-cases (is_envelope name e)) [
      | inl v ↦
          let s = step w r name e in
          let found = inside name e (first_found name e es) in
          let less = step-waiting_less w r name e h found v in
          rw (no_stop r (is_envelope name e), process)
            (omega (arith, process-waiting w es s.0 (0 + s.1) h, less))
      | inr v ↦
          let deeper : (k : Text) (f : DirEntry)
              → get text_discrete k es ≡ some f
              → get text_discrete k r.queue.entries ≡ some f =
            λ k f g. inside k f (passed name e es k f d.0 g) in
          let still : 0 < waiting es = ground (arith, some_left, v) in
          rw (no_stop r (is_envelope name e), process, step, v)
            (process-waiting_less w es r h deeper d.1 still)
    ]

-- A tick removes an envelope, if there is one.
tick-waiting :
    (w : World) (r : Replayer)
    → Working w
    → Distinct text_discrete r.queue.entries
    → waiting (process_files w r).0.queue.entries ≤ waiting r.queue.entries - 1
unfolding process_files
tick-waiting w r h d =
    let any = process-waiting w r.queue.entries r 0 h in
    elim (Bool-cases (ltb 0 (waiting r.queue.entries))) [
      | inl l ↦
          let less =
            process-waiting_less w r.queue.entries r h (λ k e g. g) d (ground (arith, l)) in
          ground (arith, h.dir, less)
      | inr l ↦ ground (arith, h.dir, any, l)
    ]

step-Distinct :
    (w : World) (r : Replayer) (name : Text) (e : DirEntry)
    → Working w
    → Distinct text_discrete r.queue.entries
    → Distinct text_discrete (step w r name e).0.queue.entries
unfolding step
step-Distinct w r name e h d =
    let gone =
      subst (Distinct text_discrete) (sym (visit-Working w r name h))
        (delete-Distinct text_discrete name r.queue.entries d) in
    elim (is_envelope name e)
      as (λ b. Distinct text_discrete (if b then visit w r name else (r, 0)).0.queue.entries) [
        | true ↦ gone
        | false ↦ d
      ]

process-Distinct :
    (w : World) (es : Map Text DirEntry) (r : Replayer) (n : ℕ)
    → Working w
    → Distinct text_discrete r.queue.entries
    → Distinct text_discrete (process w es r n).0.queue.entries
unfolding process
process-Distinct w [] r n h d = d
process-Distinct w ((name, e) ∷ es) r n h d =
    let v = step w r name e in
    let rest = process-Distinct w es v.0 (n + v.1) h (step-Distinct w r name e h d) in
    elim (is_envelope name e && cap_reached r n)
      as (λ b.
        Distinct text_discrete (if b then (r, n) else process w es v.0 (n + v.1)).0.queue.entries) [
          | true ↦ d
          | false ↦ rest
        ]

tick-Distinct :
    (w : World) (r : Replayer)
    → Working w
    → Distinct text_discrete r.queue.entries
    → Distinct text_discrete (process_files w r).0.queue.entries
unfolding process_files
tick-Distinct w r h d =
    elim w.readable_dir
      as (λ b.
        Distinct text_discrete
          (if b then process w r.queue.entries r 0 else (r, 0)).0.queue.entries) [
            | true ↦ process-Distinct w r.queue.entries r 0 h d
            | false ↦ d
          ]

-- From a directory of distinct names, as many ticks as it holds envelopes leave none waiting, when
-- in each of them the directory and the files can be read, every file is older than the longest
-- backoff, the database accepts every envelope and every file can be removed. The cap on attempts
-- per tick, the retry counters and the limit on retries are arbitrary.
pub ticks_drain :
    (ws : List World) (r : Replayer)
    → All Working ws
    → Distinct text_discrete r.queue.entries
    → waiting r.queue.entries ≤ length ws
    → waiting (ticks ws r).queue.entries ≡ 0
unfolding ticks
ticks_drain [] r h d enough = omega arith
ticks_drain (w ∷ ws) r h d enough =
    ticks_drain ws (process_files w r).0 h.1 (tick-Distinct w r h.0 d)
      (omega (arith, tick-waiting w r h.0 d))

-- ===== src/Queue/Dlq/Replay/Keeping.antt =====
-- dlq.go: a replay pass loses no envelope that the database has not taken, and its calls of the
-- database are bounded.
use otelcontext.Base.{
  ℕ, ◌+◌, ◌≤◌, ◌<◌, ◌≡◌, ◌≢◌, ◌⊎◌, if_neg, refl, sym, ◌∙◌, ap, ap₂, subst, inl, inr, true, false,
  ◌&&◌, none, some, [], ◌∷◌, arith, ltb, leb, if◌then◌else◌, Bool-cases, Text, text_discrete,
}
use otelcontext.Base.Map.{Map, count_of, get, delete, at, incr}
use otelcontext.Base.Map.Laws.{Distinct, get-put, get-delete}
use otelcontext.Queue.Dlq.{DirEntry, is_envelope}
use otelcontext.Queue.Dlq.Replay.{
  World, Replayer, retries_of, gives_up, remove_file, drop_file, replay_failed, replay_done,
  attempt, visit, step, cap_reached, process, process_files,
}

-- The limits are constant over an entry, and one attempt at most is made for it.
pub step-limits :
    (w : World) (r : Replayer) (name : Text) (e : DirEntry)
    → ((step w r name e).0.max_retries ≡ r.max_retries)
      × ((step w r name e).0.max_replay_per_tick ≡ r.max_replay_per_tick)
      × ((step w r name e).1 ≤ (if is_envelope name e then 1 else 0))
unfolding step visit drop_file attempt replay_failed replay_done
step-limits w r name e = ground arith

process-attempts :
    (w : World) (es : Map Text DirEntry) (r : Replayer) (n : ℕ)
    → 0 < r.max_replay_per_tick
    → n ≤ r.max_replay_per_tick
    → (process w es r n).1 ≤ r.max_replay_per_tick
unfolding process cap_reached
process-attempts w [] r n h l = l
process-attempts w ((name, e) ∷ es) r n h l =
    let v = step w r name e in
    let (_, cap, one) = step-limits w r name e in
    let started : 0 < v.0.max_replay_per_tick = omega (arith, cap, h) in
    let rest : n + v.1 ≤ v.0.max_replay_per_tick
        → (process w es v.0 (n + v.1)).1 ≤ v.0.max_replay_per_tick =
      λ k. process-attempts w es v.0 (n + v.1) started k in
    ground (arith, rest, cap, one, l)

delete_other :
    {V : Type 0} (j k : Text) (m : Map Text V)
    → k ≢ j
    → get text_discrete j (delete text_discrete k m) ≡ get text_discrete j m
delete_other j k m apart =
    get-delete text_discrete j k m ∙ if_neg (text_discrete k j) apart none (get text_discrete j m)

incr_other :
    (j k : Text) (m : Map Text ℕ)
    → k ≢ j
    → at text_discrete j (incr text_discrete k m) ≡ at text_discrete j m
unfolding incr
incr_other j k m apart = ap count_of (
    get-put text_discrete j k (at text_discrete k m + 1) m
    ∙ if_neg (text_discrete k j) apart (some (at text_discrete k m + 1)) (get text_discrete j m))

-- What an entry leaves of the file of another name.
step_other :
    (w : World) (r : Replayer) (name : Text) (e : DirEntry) (j : Text)
    → name ≢ j
    → (get text_discrete j (step w r name e).0.queue.entries ≡ get text_discrete j r.queue.entries)
      × (retries_of (step w r name e).0 j ≡ retries_of r j)
unfolding step visit drop_file attempt replay_failed replay_done remove_file retries_of
step_other w r name e j apart =
    let gone = delete_other j name r.queue.entries apart in
    let forgotten = ap count_of (delete_other j name r.queue.retries apart) in
    ground (arith, gone, forgotten, incr_other j name r.queue.retries apart)

-- What becomes of a file.
abbrev pub Settled : World → Replayer → Text → DirEntry → Replayer → Type 0
Settled w r name e after =
    (get text_discrete name after.queue.entries ≡ some e)
    ⊎ (w.accepts name ≡ true)
    ⊎ (gives_up r name ≡ true)

step_self :
    (w : World) (r : Replayer) (name : Text) (e e' : DirEntry)
    → get text_discrete name r.queue.entries ≡ some e
    → Settled w r name e (step w r name e').0
unfolding step visit drop_file attempt replay_failed replay_done
step_self w r name e e' h = ground arith

process_other :
    (w : World) (es : Map Text DirEntry) (r : Replayer) (n : ℕ) (j : Text)
    → get text_discrete j es ≡ none
    → get text_discrete j (process w es r n).0.queue.entries ≡ get text_discrete j r.queue.entries
unfolding process get
process_other w [] r n j h = refl
process_other w ((name, e) ∷ es) r n j h =
    let v = step w r name e in
    elim (Bool-cases (is_envelope name e && cap_reached r n)) [
      | inl stop ↦ rw (stop, process) refl
      | inr go ↦
          let apart : name ≢ j = ground (arith, h) in
          let missing : get text_discrete j es ≡ none = ground (arith, h) in
          let rest = process_other w es v.0 (n + v.1) j missing in
          rw (go, process) (rest ∙ (step_other w r name e j apart).0)
    ]

-- The rest of a pass that leaves a file alone.
carry-Settled :
    (w : World) (r r' : Replayer) (j : Text) (f : DirEntry) (a a' : Replayer)
    → get text_discrete j a'.queue.entries ≡ get text_discrete j a.queue.entries
    → gives_up r' j ≡ gives_up r j
    → Settled w r' j f a
    → Settled w r j f a'
carry-Settled w r r' j f a a' same g (inl kept) = inl (same ∙ kept)
carry-Settled w r r' j f a a' same g (inr (inl taken)) = inr (inl taken)
carry-Settled w r r' j f a a' same g (inr (inr up)) = inr (inr (sym g ∙ up))

process-Settled :
    (w : World) (es : Map Text DirEntry) (r : Replayer) (n : ℕ) (j : Text) (f : DirEntry)
    → Distinct text_discrete es
    → get text_discrete j r.queue.entries ≡ some f
    → Settled w r j f (process w es r n).0
unfolding process gives_up
process-Settled w [] r n j f d h = inl h
process-Settled w ((name, e) ∷ es) r n j f d h =
    let v = step w r name e in
    elim (Bool-cases (is_envelope name e && cap_reached r n)) [
      | inl stop ↦ rw (stop, process) (inl h)
      | inr go ↦ elim (text_discrete name j) [
        | yes same ↦
            let missing : get text_discrete j es ≡ none =
              subst (λ k. get text_discrete k es ≡ none) same d.0 in
            let rest = process_other w es v.0 (n + v.1) j missing in
            let here : Settled w r j f v.0 =
              subst (λ k. Settled w r j f (step w r k e).0) (sym same) (step_self w r j f e h) in
            rw (go, process)
              (carry-Settled w r r j f v.0 (process w es v.0 (n + v.1)).0 rest refl here)
        | no apart ↦
            let (kept, tries) = step_other w r name e j apart in
            let ih = process-Settled w es v.0 (n + v.1) j f d.1 (kept ∙ h) in
            let after = (process w es v.0 (n + v.1)).0 in
            let (most, _, _) = step-limits w r name e in
            let up : gives_up v.0 j ≡ gives_up r j = ap₂ (λ m k. ltb 0 m && leb m k) most tries in
            rw (go, process) (carry-Settled w r v.0 j f after after refl up ih)
      ]
    ]

-- With a cap above 0, a tick calls the database at most as often as the cap says.
pub attempts_capped :
    (w : World) (r : Replayer)
    → 0 < r.max_replay_per_tick
    → (process_files w r).1 ≤ r.max_replay_per_tick
unfolding process_files
attempts_capped w r h = ground (arith, process-attempts w r.queue.entries r 0 h (omega arith))

-- A file of the directory, whose names are distinct, is there unchanged after a tick, unless the
-- database accepted it or its retries were used up before the tick.
pub process_files_keeps :
    (w : World) (r : Replayer) (name : Text) (f : DirEntry)
    → Distinct text_discrete r.queue.entries
    → get text_discrete name r.queue.entries ≡ some f
    → Settled w r name f (process_files w r).0
unfolding process_files
process_files_keeps w r name f d h =
    elim w.readable_dir
      as (λ b. Settled w r name f (if b then process w r.queue.entries r 0 else (r, 0)).0) [
        | true ↦ process-Settled w r.queue.entries r 0 name f d h
        | false ↦ inl h
      ]

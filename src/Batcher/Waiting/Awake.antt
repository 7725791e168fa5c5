-- ===== src/Batcher/Waiting/Awake.antt =====
-- `next_batch` never sleeps while a batch is due.
use sementic_search_engine.Prelude.{
  ℕ, ◌+◌, ◌≤◌, ◌≡◌, ◌≢◌, refl, ap, ◌∙◌, ◌⊎◌, inl, inr, true, Bool-cases, Option, some, [], ◌∷◌,
  arith, dec_lt,
}
use sementic_search_engine.Batcher.{Policy, Batch, State, Groups}
use sementic_search_engine.Batcher.Invariant.{IsValid}
use sementic_search_engine.Batcher.Ready.{take_ready-Takes}
use sementic_search_engine.Batcher.Timing.{
  Idle, Returns, Takes-Idle, Idle-none-IsDue, timeout-some, timeout_not_late,
}
use sementic_search_engine.Batcher.Waiting.{
  Phase, looking, asleep, returned, Loop, Step, finds, is_woken, times_out, Reach, Runs, wakes,
  returns,
}
use sementic_search_engine.Batcher.Waiting.Sound.{
  cleared, finds_one, finds_none, next_round-Looked, Began, Reach-Inv,
}

module _ {ℓ} {T K : Type ℓ} (p : Policy T K) where
  List-cases : (gs : Groups T K) → (gs ≡ []) ⊎ (gs ≢ [])
  List-cases [] = inl refl
  List-cases (g ∷ gs) = inr (λ e. cc e)

  empty-Idle : (now : ℕ) (s : State T K) → s.groups ≡ [] → IsValid p s.groups → Idle p now s
  empty-Idle now s e v = Takes-Idle p now s _ (take_ready-Takes p now s v) (rw e tt)

  not_both : (now : ℕ) (s : State T K) → Idle p now s → ¬ Returns p now s
  not_both now s quiet (batch, s', e) = cc (quiet, e)

  -- A sleep without a wakeup has run out when a batch is due.
  over :
      (s : State T K) (clock : ℕ) (end : Option ℕ)
      → IsValid p s.groups
      → Began p s clock end
      → Returns p clock s
      → (t : ℕ) × (end ≡ some t) × (t ≤ clock)
  over s clock end v b due = elim (List-cases s.groups) [
    | inl e ↦ absurd (not_both clock s (empty-Idle clock s e v) due)
    | inr some_wait ↦
        let (d, e, long) = timeout-some p b.at_time s v some_wait b.quiet in
        (
          b.at_time + d,
          b.ends ∙ rw e refl,
          elim (dec_lt clock (b.at_time + d)) [
            | yes lt ↦ absurd (
                not_both clock s (timeout_not_late p b.at_time clock d s v some_wait b.quiet e lt)
                  due)
            | no ge ↦ omega (arith, ge)
          ],
        )
  ]

  -- However calls of `add` and the clock interleave with a task that waits for a batch: while it sleeps
  -- and a batch is due, its event is set or its timeout is over.
  pub Reach-woken :
      {l : Loop T K}
      → Reach p l
      → (end : Option ℕ) → l.phase ≡ asleep end
      → Returns p l.clock l.batcher
      → (l.batcher.changed ≡ true) ⊎ ((t : ℕ) × (end ≡ some t) × (t ≤ l.clock))
  Reach-woken {l} r end e due = elim (Bool-cases l.batcher.changed) [
    | inl c ↦ inl c
    | inr c ↦
        let i = Reach-Inv p r in inr (over l.batcher l.clock end i.valid (i.sound end e c) due)
  ]

  wake :
      (l : Loop T K) (end : Option ℕ)
      → l.phase ≡ asleep end
      → (l.batcher.changed ≡ true) ⊎ ((t : ℕ) × (end ≡ some t) × (t ≤ l.clock))
      → Step p l (record l { phase = looking })
  wake l end e (inl c) = is_woken end l e c
  wake l end e (inr (t, f, le)) = times_out t l (e ∙ ap asleep f) le

  Phase-cases :
      (x : Phase T K)
      → (x ≡ looking)
        ⊎ (((batch : Batch T K) × (x ≡ returned batch)) ⊎ ((end : Option ℕ) × (x ≡ asleep end)))
  Phase-cases looking = inl refl
  Phase-cases (returned batch) = inr (inl (batch, refl))
  Phase-cases (asleep end) = inr (inr (end, refl))

  -- A task that looks returns, if a batch is due.
  look :
      (l : Loop T K)
      → IsValid p l.batcher.groups
      → l.phase ≡ looking
      → Returns p l.clock l.batcher
      → (batch : Batch T K) × (s : State T K) × Runs p l
          (record l { batcher = s; phase = returned batch })
  look l v e due = elim (next_round-Looked p l.clock l.batcher v) [
    | finds_one batch s h taken ↦ (batch, s, returns batch s (finds batch s l e h))
    | finds_none h quiet ↦ absurd (
        not_both l.clock l.batcher
          (Takes-Idle p l.clock l.batcher _ (take_ready-Takes p l.clock l.batcher v)
            (Idle-none-IsDue p l.clock (cleared p l.batcher) v quiet))
          due)
  ]

  -- However calls of `add` and the clock interleave with a task that waits for a batch, whenever a batch
  -- is due, the task returns one by its own steps: it never waits for another item or for more time.
  pub Reach-gets_batch :
      {l : Loop T K}
      → Reach p l
      → ((batch : Batch T K) → l.phase ≢ returned batch)
      → Returns p l.clock l.batcher
      → (batch : Batch T K) × (s : State T K) × Runs p l
          (record l { batcher = s; phase = returned batch })
  Reach-gets_batch {l} r waits due = elim (Phase-cases l.phase) [
    | inl e ↦ look l (Reach-Inv p r).valid e due
    | inr (inl (batch, e)) ↦ absurd (waits batch e)
    | inr (inr (end, e)) ↦
        let awake : Loop T K = record l { phase = looking } in
        let (batch, s, run) = look awake (Reach-Inv p r).valid refl due in
        (batch, s, wakes end e (wake l end e (Reach-woken r end e due)) run)
  ]

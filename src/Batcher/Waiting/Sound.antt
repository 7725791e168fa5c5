-- ===== src/Batcher/Waiting/Sound.antt =====
-- What holds whenever `next_batch` sleeps.
use sementic_search_engine.Prelude.{
  ℕ, ◌≤◌, ◌≡◌, refl, false, Option, some, arith, Result, ok, raise,
}
use sementic_search_engine.Batcher.{Policy, Batch, State, add, take_ready, timeout, next_round}
use sementic_search_engine.Batcher.Invariant.{IsValid}
use sementic_search_engine.Batcher.Add.{add-IsValid}
use sementic_search_engine.Batcher.Ready.{Takes, idle, pops, take_ready-Takes, take_ready-IsValid}
use sementic_search_engine.Batcher.Timing.{Idle}
use sementic_search_engine.Batcher.Waiting.{
  asleep, returned, Loop, until, Step, ticks, adds, finds, sleeps, is_woken, times_out, calls_again,
  Reach, start, later,
}

module _ {ℓ} {T K : Type ℓ} (p : Policy T K) where
  -- The state in which a round looks for a batch.
  abbrev pub cleared : State T K → State T K
  cleared s = record s { changed = false }

  -- What a round of `next_batch` does.
  pub data Looked (now : ℕ) (s : State T K) : Type ℓ where
    finds_one :
        (batch : Batch T K) (s' : State T K)
        → next_round p now s ≡ some (ok batch, s')
        → take_ready p now (cleared s) ≡ some (some batch, s')
        → Looked now s
    finds_none :
        next_round p now s ≡ some (raise (timeout p now (cleared s)), cleared s)
        → Idle p now (cleared s)
        → Looked now s

  same_state :
      {r : Option (Result (Option ℕ) (Batch T K) × State T K)} {b c : Batch T K} {s s' : State T K}
      → r ≡ some (ok b, s)
      → r ≡ some (ok c, s')
      → s ≡ s'
  same_state h e = cc (h, e)

  same_sleep :
      {r : Option (Result (Option ℕ) (Batch T K) × State T K)} {d f : Option ℕ} {s s' : State T K}
      → r ≡ some (raise d, s)
      → r ≡ some (raise f, s')
      → (s ≡ s') × (d ≡ f)
  same_sleep h e = (cc (h, e), cc (h, e))

  Takes-Looked :
      (now : ℕ) (s : State T K) (r : Option (Option (Batch T K) × State T K))
      → Takes p now (cleared s) r
      → take_ready p now (cleared s) ≡ r
      → Looked now s
  unfolding next_round
  Takes-Looked now s r (idle none_due) e = finds_none (rw (e, next_round) refl) e
  Takes-Looked now s r (pops k g batch s' found chosen popped) e =
      finds_one batch s' (rw (e, next_round) refl) e

  pub next_round-Looked : (now : ℕ) (s : State T K) → IsValid p s.groups → Looked now s
  next_round-Looked now s v = Takes-Looked now s _ (take_ready-Takes p now (cleared s) v) refl

  -- A sleep without a wakeup began when nothing was due, and nothing was added since.
  pub record Began (s : State T K) (clock : ℕ) (end : Option ℕ) : Type ℓ where
    pub at_time : ℕ
    pub before : at_time ≤ clock
    pub quiet : Idle p at_time s
    pub ends : end ≡ until at_time (timeout p at_time s)

  pub record Inv (l : Loop T K) : Type ℓ where
    pub valid : IsValid p l.batcher.groups
    pub sound :
        (end : Option ℕ)
        → l.phase ≡ asleep end
        → l.batcher.changed ≡ false
        → Began l.batcher l.clock end

  finds-Inv :
      (batch : Batch T K) (s : State T K) (l : Loop T K)
      → Looked l.clock l.batcher
      → IsValid p l.batcher.groups
      → next_round p l.clock l.batcher ≡ some (ok batch, s)
      → Inv (record l { batcher = s; phase = returned batch })
  finds-Inv batch s l (finds_none e quiet) v h = cc (e, h)
  finds-Inv batch s l (finds_one b s' e taken) v h = record {
    valid = rw (same_state h e) (take_ready-IsValid p l.clock (cleared l.batcher) s' b v taken);
    sound = λ end asleep_now c. cc asleep_now;
  }

  sleeps-Inv :
      (d : Option ℕ) (s : State T K) (l : Loop T K)
      → Looked l.clock l.batcher
      → IsValid p l.batcher.groups
      → next_round p l.clock l.batcher ≡ some (raise d, s)
      → Inv (record l { batcher = s; phase = asleep (until l.clock d) })
  sleeps-Inv d s l (finds_one b s' e taken) v h = cc (e, h)
  sleeps-Inv d s l (finds_none e quiet) v h =
      let (same, time) = same_sleep h e in
      record {
        valid = rw same v;
        sound = λ end e' c. record {
          at_time = l.clock;
          before = omega arith;
          quiet = rw same quiet;
          ends = cc (e', same, time);
        };
      }

  Step-Inv : {l m : Loop T K} → Step p l m → Inv l → Inv m
  unfolding add
  Step-Inv (ticks t l le) i = record {
    valid = i.valid;
    sound = λ end e c.
        let b = i.sound end e c in
        record {
          at_time = b.at_time;
          before = omega (arith, b.before, le);
          quiet = b.quiet;
          ends = b.ends;
        };
  }
  Step-Inv (adds x l) i = record {
    valid = add-IsValid p l.clock x l.batcher i.valid;
    sound = λ end e c. cc c;
  }
  Step-Inv (finds batch s l e h) i =
      finds-Inv batch s l (next_round-Looked l.clock l.batcher i.valid) i.valid h
  Step-Inv (sleeps d s l e h) i =
      sleeps-Inv d s l (next_round-Looked l.clock l.batcher i.valid) i.valid h
  Step-Inv (is_woken end l e c) i = record { valid = i.valid; sound = λ end' e' c'. cc e' }
  Step-Inv (times_out end l e le) i = record { valid = i.valid; sound = λ end' e' c'. cc e' }
  Step-Inv (calls_again batch l e) i = record { valid = i.valid; sound = λ end' e' c'. cc e' }

  pub Reach-Inv : {l : Loop T K} → Reach p l → Inv l
  Reach-Inv (start now) = record { valid = tt; sound = λ end e c. cc e }
  Reach-Inv (later r step) = Step-Inv step (Reach-Inv r)

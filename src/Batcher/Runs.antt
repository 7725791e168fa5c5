-- ===== src/Batcher/Runs.antt =====
-- Any sequence of calls, against the specification: one first-in first-out queue for each key.
use mathlib.Core.Option
use sementic_search_engine.Prelude.{
  ℕ, ◌≡◌, refl, Option, none, some, List, [], ◌∷◌, ◌++◌, append_assoc, append-nil, ite, arith, All,
  ap, sym, ◌∙◌,
}
use sementic_search_engine.Batcher.{Policy, Batch, State, add, take_ready}
use sementic_search_engine.Batcher.Invariant.{IsValid, queue}
use sementic_search_engine.Batcher.Add.{add-IsValid, queue-add}
use sementic_search_engine.Batcher.Ready.{Takes, idle, pops, take_ready-Takes}
use sementic_search_engine.Batcher.Drain.{
  released, released-nil, released-cons, IsBatch, IsPop-IsBatch, IsPop-queue,
}

-- A call, with what the clock reads.
pub data Call {ℓ} (T : Type ℓ) : Type ℓ where
  adds : ℕ → T → Call T
  takes : ℕ → Call T

ite-append {ℓ κ} :
    {P : Type κ} {T : Type ℓ} (d : Dec P) (x : List T) (q a : List T) {y : List T}
    → y ≡ q ++ a
    → ite d (x ++ y) y ≡ ite d (x ++ q) q ++ a
ite-append d x q a e = rw e (ground (arith, append_assoc x q a))

module _ {ℓ} {T K : Type ℓ} (p : Policy T K) where
  open p use {key_of, key_discrete}

  -- The rest of the calls, after one `take_ready`.
  resume :
      (State T K → Option (List (Batch T K) × State T K))
      → Option (Option (Batch T K) × State T K)
      → Option (List (Batch T K) × State T K)
  resume rest none = none
  resume rest (some (none, s)) = rest s
  resume rest (some (some b, s)) = Option.map (λ r. (b ∷ r.0, r.1)) (rest s)

  -- The batches that a sequence of calls returns, and the state after it; `none` is a KeyError.
  unfoldable pub run : List (Call T) → State T K → Option (List (Batch T K) × State T K)
  unfolding resume
  run [] s = some ([], s)
  run (adds now x ∷ cs) s = run cs (add p now x s)
  run (takes now ∷ cs) s = resume (run cs) (take_ready p now s)

  -- The items that the calls add under a key, in order.
  pub added : K → List (Call T) → List T
  added k [] = []
  added k (adds now x ∷ cs) = ite (key_discrete (key_of x) k) (x ∷ added k cs) (added k cs)
  added k (takes now ∷ cs) = added k cs

  pub record IsRun (s : State T K) (cs : List (Call T)) (r : Option (List (Batch T K) × State T K))
      : Type ℓ where
    pub batches : List (Batch T K)
    pub final : State T K
    pub result : r ≡ some (batches, final)
    pub valid : IsValid p final.groups
    pub good : All (IsBatch p) batches
    pub in_order :
        (k : K) → released p k batches ++ queue p k final.groups ≡ queue p k s.groups ++ added k cs

  queue-adds :
      (now : ℕ) (x : T) (cs : List (Call T)) (s : State T K) (k : K)
      → queue p k (add p now x s).groups ++ added k cs
        ≡ queue p k s.groups ++ added k (adds now x ∷ cs)
  unfolding added
  queue-adds now x cs s k =
      ground (arith, queue-add p now x s k, append_assoc (queue p k s.groups) (x ∷ []) (added k cs))

  resume-IsRun :
      (now : ℕ) (s : State T K) (cs : List (Call T))
      (rest : State T K → Option (List (Batch T K) × State T K))
      → ((s' : State T K) → IsValid p s'.groups → IsRun s' cs (rest s'))
      → IsValid p s.groups
      → (r : Option (Option (Batch T K) × State T K)) → Takes p now s r
      → IsRun s (takes now ∷ cs) (resume rest r)
  unfolding resume added
  resume-IsRun now s cs rest ih v r (idle none_due) =
      let i : IsRun s cs (rest s) = ih s v in
      record {
        batches = i.batches;
        final = i.final;
        result = i.result;
        valid = i.valid;
        good = i.good;
        in_order = i.in_order;
      }
  resume-IsRun now s cs rest ih v r (pops k g b s' found chosen ok) =
      let i : IsRun s' cs (rest s') = ih s' ok.valid in
      record {
        batches = b ∷ i.batches;
        final = i.final;
        result = rw i.result;
        valid = i.valid;
        good = (IsPop-IsBatch p k g s.groups s'.groups b ok, i.good);
        in_order = λ j.
            released-cons p b i.batches j (queue p j i.final.groups)
            ∙ ite-append (key_discrete b.key j) b.items (queue p j s'.groups) (added j cs)
                (i.in_order j)
            ∙ ap (λ q. q ++ added j cs)
                (IsPop-queue p k g s.groups s'.groups b found ok j (queue p j s'.groups) refl);
      }

  -- From a well-formed batcher, whatever the calls of `add` and `take_ready`, no call raises, the state stays well formed, each batch can serve one model
  -- call, and the items that come out under a key, followed by those that still wait, are those that
  -- waited at the start, followed by those added, in order.
  pub run-IsRun : (cs : List (Call T)) (s : State T K) → IsValid p s.groups → IsRun s cs (run cs s)
  unfolding run
  run-IsRun [] s v = record {
    batches = [];
    final = s;
    result = refl;
    valid = v;
    good = tt;
    in_order = λ k. unfold added in rw released-nil (sym (append-nil (queue p k s.groups)));
  }
  run-IsRun (adds now x ∷ cs) s v =
      let r : IsRun (add p now x s) cs (run cs (add p now x s)) =
        run-IsRun cs (add p now x s) (add-IsValid p now x s v) in
      record {
        batches = r.batches;
        final = r.final;
        result = r.result;
        valid = r.valid;
        good = r.good;
        in_order = λ k. r.in_order k ∙ queue-adds now x cs s k;
      }
  run-IsRun (takes now ∷ cs) s v =
      resume-IsRun now s cs (run cs) (run-IsRun cs) v _ (take_ready-Takes p now s v)

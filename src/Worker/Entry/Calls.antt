-- ===== src/Worker/Entry/Calls.antt =====
-- The batches of a worker that `main` of mq/worker.py builds, as `encode_jobs` of mq/handler.py takes
-- them.
use sementic_search_engine.Prelude.{
  ℕ, ◌+◌, ◌≤◌, ◌≡◌, refl, sym, ap, ◌∙◌, ◌⊎◌, inl, inr, Bool-cases, Option, some, List, [], ◌∷◌,
  ◌++◌, All, All-append_right, length, length-append, arith, Text, Result, ok, raise, Result-cases,
  subst,
}
use sementic_search_engine.Config.{Settings}
use sementic_search_engine.Schemas.{Lane}
use sementic_search_engine.Schemas.Reply.{EmbeddingResult}
use sementic_search_engine.Batcher.{Batch, State, take_ready, drain}
use sementic_search_engine.Batcher.Fill.{total}
use sementic_search_engine.Batcher.Invariant.{IsValid}
use sementic_search_engine.Batcher.Ready.{Takes, idle, pops, take_ready-Takes}
use sementic_search_engine.Batcher.Drain.{IsBatch, IsPop-IsBatch, drain-Drained}
use sementic_search_engine.Handler.{
  Exception, Engine, Libraries, all_texts, is_expired, encode_jobs,
}
use sementic_search_engine.Handler.Raising.{Alike, encode_jobs-raises}
use sementic_search_engine.Worker.{Delivery, Outside, sift, jobs_of}
use sementic_search_engine.Worker.Lanes.{lane_specs}
use sementic_search_engine.Worker.Lifecycle.{Key}
use sementic_search_engine.Worker.Lifecycle
use sementic_search_engine.Worker.Lifecycle.Steps.{Reach}
use sementic_search_engine.Worker.Lifecycle.Valid.{Reach-AllValid}
use sementic_search_engine.Worker.Entry.Started.{lane_policy}

-- A lane's loop takes this batch, or a shutdown finds it among those it drains.
pub data Releases (s : Settings) (l : Lane) (before : State Delivery Key) (b : Batch Delivery Key)
    : Type 0 where
  takes :
      (now : ℕ) (after : State Delivery Key)
      → take_ready (lane_policy s l) now before ≡ some (some b, after)
      → Releases s l before b
  drains :
      (bs cs : List (Batch Delivery Key)) (after : State Delivery Key)
      → drain (lane_policy s l) before ≡ some (bs ++ b ∷ cs, after)
      → Releases s l before b

-- What comes of a call of `encode_jobs`: answers, or an exception that the engine raised on these texts.
pub data FromEngine {V : Type 0} (engine : Engine V) (k : Key) (texts : List Text)
    : Result Exception (List (EmbeddingResult V)) → Type 0 where
  answers : (results : List (EmbeddingResult V)) → FromEngine engine k texts (ok results)
  encode_raises :
      (exc : Exception)
      → engine.encode texts k.0 k.1 ≡ raise exc
      → FromEngine engine k texts (raise exc)
  dimensions_raises :
      (exc : Exception) → engine.dimensions ≡ raise exc → FromEngine engine k texts (raise exc)

-- The jobs of these deliveries have the input type and the choice of `normalize` of the key, and no
-- more texts than a batch of the lane may have, or are one; and `encode_jobs` raises on them only what
-- the engine raises on their texts.
pub record IsOneCall {V : Type 0} (s : Settings) (l : Lane) (engine : Engine V) (worker_id : Text)
    (k : Key) (ds : List Delivery) : Type 0 where
  pub alike : Alike k.0 k.1 (jobs_of ds)
  pub few : (length (all_texts (jobs_of ds)) ≤ (lane_specs s l).max_texts) ⊎ (length ds ≤ 1)
  pub encoded :
      FromEngine engine k
        (all_texts (jobs_of ds))
        (encode_jobs engine (some worker_id) (jobs_of ds))

length-all_texts :
    (ds : List Delivery) → length (all_texts (jobs_of ds)) ≡ total (λ d. length d.job.input) ds
length-all_texts [] = refl
length-all_texts (d ∷ ds) =
    length-append d.job.input (all_texts (jobs_of ds))
    ∙ ap (λ n. length d.job.input + n) (length-all_texts ds)

abbrev Keyed : Key → List Delivery → Type 0
Keyed k = All (λ d. ◌≡◌ {A = Key} (d.job.input_type, d.job.normalize) k)

jobs_of-Alike : (k : Key) (ds : List Delivery) → Keyed k ds → Alike k.0 k.1 (jobs_of ds)
jobs_of-Alike k [] a = tt
jobs_of-Alike k (d ∷ ds) a = ((ap (λ q. q.0) a.0, ap (λ q. q.1) a.0), jobs_of-Alike k ds a.1)

module _ (V : Type 0) (out : Outside) (s : Settings) (l : Lane) where
  -- The deliveries of a batch that have not expired.
  abbrev pub live : List Delivery → List Delivery
  live ds = (sift {V = V} out (lane_specs s l) ds).1

  live-Keyed : (k : Key) (ds : List Delivery) → Keyed k ds → Keyed k (live ds)
  unfolding sift
  live-Keyed k [] a = tt
  live-Keyed k (d ∷ ds) a = elim (Bool-cases (is_expired d.job (out.now d.message.tag))) [
    | inl e ↦ rw (e, live) (live-Keyed k ds a.1)
    | inr e ↦ rw (e, live) (a.0, live-Keyed k ds a.1)
  ]

  live-length : (ds : List Delivery) → length (live ds) ≤ length ds
  unfolding sift
  live-length [] = omega arith
  live-length (d ∷ ds) = elim (Bool-cases (is_expired d.job (out.now d.message.tag))) [
    | inl e ↦ rw (e, length, live) (omega (arith, live-length ds))
    | inr e ↦ rw (e, length, live) (omega (arith, live-length ds))
  ]

  live-total :
      (ds : List Delivery)
      → total (λ d. length d.job.input) (live ds) ≤ total (λ d. length d.job.input) ds
  unfolding sift
  live-total [] = omega arith
  live-total (d ∷ ds) = elim (Bool-cases (is_expired d.job (out.now d.message.tag))) [
    | inl e ↦ rw (e, total, live) (omega (arith, live-total ds))
    | inr e ↦ rw (e, total, live) (omega (arith, live-total ds))
  ]

same_batch :
    (b c : Batch Delivery Key) (s t : State Delivery Key)
    → ◌≡◌ {A = Option (Option (Batch Delivery Key) × State Delivery Key)}
        (some (some c, t))
        (some (some b, s))
    → c ≡ b
same_batch b c s t h = cc h

ready-IsBatch :
    (s : Settings) (l : Lane) (now : ℕ) (before after : State Delivery Key) (b : Batch Delivery Key)
    (r : Option (Option (Batch Delivery Key) × State Delivery Key))
    → Takes (lane_policy s l) now before r
    → r ≡ some (some b, after)
    → IsBatch (lane_policy s l) b
ready-IsBatch s l now before after b r (idle none_due) h = cc h
ready-IsBatch s l now before after b r (pops k g c t found chosen popped) h =
    subst (IsBatch (lane_policy s l)) (same_batch b c after t h)
      (IsPop-IsBatch (lane_policy s l) k g before.groups t.groups c popped)

same_batches :
    (bs cs : List (Batch Delivery Key)) (s t : State Delivery Key)
    → ◌≡◌ {A = Option (List (Batch Delivery Key) × State Delivery Key)}
        (some (cs, t))
        (some (bs, s))
    → cs ≡ bs
same_batches bs cs s t h = cc h

Releases-IsBatch :
    (s : Settings) (l : Lane) (before : State Delivery Key) (b : Batch Delivery Key)
    → IsValid (lane_policy s l) before.groups
    → Releases s l before b
    → IsBatch (lane_policy s l) b
Releases-IsBatch s l before b v (takes now after e) =
    ready-IsBatch s l now before after b _ (take_ready-Takes (lane_policy s l) now before v) e
Releases-IsBatch s l before b v (drains bs cs after e) =
    let d = drain-Drained (lane_policy s l) before v in
    (All-append_right (IsBatch (lane_policy s l)) bs (b ∷ cs) (
      subst (All (IsBatch (lane_policy s l)))
        (same_batches (bs ++ b ∷ cs) d.batches after d.final (sym d.result ∙ e)) d.good)).0

module _ {V : Type 0} (engine : Engine V) (worker_id : Text) where
  encode_jobs-FromEngine :
      (k : Key) (ds : List Delivery)
      → Keyed k ds
      → FromEngine engine k
          (all_texts (jobs_of ds))
          (encode_jobs engine (some worker_id) (jobs_of ds))
  encode_jobs-FromEngine k ds a =
      elim (Result-cases (encode_jobs engine (some worker_id) (jobs_of ds))) [
        | inl (results, e) ↦
            subst (FromEngine engine k (all_texts (jobs_of ds))) (sym e) (answers results)
        | inr (exc, e) ↦
            subst (FromEngine engine k (all_texts (jobs_of ds))) (sym e)
              (elim (encode_jobs-raises engine (some worker_id) k.0 k.1 (jobs_of ds) exc
                (jobs_of-Alike k ds a) e) [
                  | inl h ↦ encode_raises exc h
                  | inr h ↦ dimensions_raises exc h
                ])
      ]

  IsBatch-IsOneCall :
      (out : Outside) (s : Settings) (l : Lane) (b : Batch Delivery Key)
      → IsBatch (lane_policy s l) b
      → IsOneCall s l engine worker_id b.key (live V out s l b.items)
  unfolding lane_policy
  IsBatch-IsOneCall out s l b i =
      let keyed = live-Keyed V out s l b.key b.items i.keyed in
      record {
        alike = jobs_of-Alike b.key _ keyed;
        few = elim i.fits [
          | inl h ↦ inl (
              omega (
                arith,
                h,
                i.counted,
                live-total V out s l b.items,
                length-all_texts (live V out s l b.items),
              ))
          | inr h ↦ inr (omega (arith, h, live-length V out s l b.items))
        ];
        encoded = encode_jobs-FromEngine b.key _ keyed;
      }

  -- For a worker with the limits that `main` gives it, in every reachable state: of each batch that a
  -- lane's loop takes or the shutdown drains, the jobs that have not expired make one call of the
  -- model. They have one input type and one choice of `normalize`, and no more texts than the lane's
  -- limit unless they are a single job; and `encode_jobs` never raises its own ValueError on them, but
  -- only what the engine raises.
  pub Reach-IsOneCall :
      (lib : Libraries) (s : Settings) (lanes : List Lane) (st : Lifecycle.State V)
      → Reach lib s engine worker_id (lane_policy s) lanes st
      → (l : Lane) (b : Batch Delivery Key) → Releases s l (st.batchers l) b
      → (out : Outside) → IsOneCall s l engine worker_id b.key (live V out s l b.items)
  Reach-IsOneCall lib s lanes st r l b released out = IsBatch-IsOneCall out s l b (
      Releases-IsBatch s l (st.batchers l) b
        (Reach-AllValid (lane_policy s) lib s engine worker_id lanes st r l) released)

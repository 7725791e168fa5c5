-- ===== src/Worker/Answers.antt =====
-- An index job is acked only once its reply is confirmed.
use sementic_search_engine.Prelude.{
  or_true, ==-same, ℕ, ◌≡◌, refl, inl, inr, Bool-cases, Bool, true, false, not, ◌&&◌, ◌||◌, Option,
  none, some, List, [], ◌∷◌, ◌++◌, ◌==◌, is_empty, All, arith, Text, Result, ok, raise,
}
use sementic_search_engine.Schemas.{Lane}
use sementic_search_engine.Schemas.Reply.{EmbeddingResult}
use sementic_search_engine.Handler.{Exception, Engine, is_expired}
use sementic_search_engine.Worker.Lanes.{LaneSpec}
use sementic_search_engine.Worker.{
  Message, Delivery, Action, counts, publishes, acks, nacks, Outside, reply_to, reply, settle,
  expired_result, failed_result, expire_in, expire, give_up_or_requeue, finish, sift, finish_all,
  process_live, process,
}

-- Whether a message asks for a reply.
abbrev pub wants_reply : Option Text → Bool
wants_reply none = false
wants_reply (some key) = not (is_empty key)

has_tag : ℕ → List ℕ → Bool
has_tag t [] = false
has_tag t (u ∷ seen) = t == u || has_tag t seen

-- Whether each ack of a tag that `wants` a reply comes after a confirmed reply with this tag, where
-- `seen` are the tags of the replies before.
unfoldable pub is_answered : {V : Type 0} → (ℕ → Bool) → List ℕ → List (Action V) → Bool
unfolding has_tag
is_answered wants seen [] = true
is_answered wants seen (counts l s ∷ as') = is_answered wants seen as'
is_answered wants seen (publishes t k p m c r ∷ as') = is_answered wants (t ∷ seen) as'
is_answered wants seen (acks t ∷ as') =
    (not (wants t) || has_tag t seen) && is_answered wants seen as'
is_answered wants seen (nacks t q ∷ as') = is_answered wants seen as'

-- The tags seen in `seen` are seen in `more`.
Within : List ℕ → List ℕ → Type 0
Within seen more = (t : ℕ) → has_tag t seen ≡ true → has_tag t more ≡ true

Within-cons : (u : ℕ) (seen more : List ℕ) → Within seen more → Within (u ∷ seen) (u ∷ more)
unfolding Within has_tag
Within-cons u seen more w t h = elim (Bool-cases (t == u)) [
  | inl e ↦ rw e refl
  | inr e ↦ rw e (w t (rw e at h))
]

Within-tail : (u : ℕ) (seen : List ℕ) → Within seen (u ∷ seen)
unfolding Within has_tag
Within-tail u seen t h = elim (Bool-cases (t == u)) [ inl e ↦ rw e refl | inr e ↦ rw e h ]

acked_more :
    (w a b r q : Bool)
    → (a ≡ true → b ≡ true)
    → (r ≡ true → q ≡ true)
    → ((not w || a) && r) ≡ true
    → ((not w || b) && q) ≡ true
acked_more true true b true q f g h = rw (f refl, g refl) refl
acked_more false a b true q f g h = rw (g refl) refl
acked_more true true b false q f g h = cc h
acked_more true false b r q f g h = cc h
acked_more false a b false q f g h = cc h

is_answered_more :
    {V : Type 0} (wants : ℕ → Bool) (seen more : List ℕ) (as' : List (Action V))
    → Within seen more
    → is_answered wants seen as' ≡ true
    → is_answered wants more as' ≡ true
unfolding is_answered Within
is_answered_more wants seen more [] w h = refl
is_answered_more wants seen more (counts l s ∷ as') w h = is_answered_more wants seen more as' w h
is_answered_more wants seen more (publishes t k p m c r ∷ as') w h =
    is_answered_more wants (t ∷ seen) (t ∷ more) as' (Within-cons t seen more w) h
is_answered_more wants seen more (acks t ∷ as') w h =
    acked_more (wants t) (has_tag t seen) (has_tag t more) _ _ (w t)
      (is_answered_more wants seen more as' w) h
is_answered_more wants seen more (nacks t q ∷ as') w h = is_answered_more wants seen more as' w h

is_answered-append :
    {V : Type 0} (wants : ℕ → Bool) (seen : List ℕ) (as' bs : List (Action V))
    → is_answered wants seen as' ≡ true
    → is_answered wants seen bs ≡ true
    → is_answered wants seen (as' ++ bs) ≡ true
unfolding is_answered
is_answered-append wants seen [] bs h k = k
is_answered-append wants seen (counts l s ∷ as') bs h k = is_answered-append wants seen as' bs h k
is_answered-append wants seen (publishes t _ _ _ _ _ ∷ as') bs h k =
    is_answered-append wants (t ∷ seen) as' bs h
      (is_answered_more wants seen (t ∷ seen) bs (Within-tail t seen) k)
is_answered-append wants seen (acks t ∷ as') bs h k =
    acked_more (wants t) (has_tag t seen) (has_tag t seen) _ _ (λ e. e)
      (λ e. is_answered-append wants seen as' bs e k) h
is_answered-append wants seen (nacks t q ∷ as') bs h k = is_answered-append wants seen as' bs h k

module _ (V : Type 0) (out : Outside) (spec : LaneSpec) (wants : ℕ → Bool) where
  -- `wants` is right for the message.
  abbrev IsMarked : Message → Type 0
  IsMarked m = wants m.tag ≡ wants_reply m.reply_to

  settle_to :
      (m : Message) (r : EmbeddingResult V) (retry : Bool) (to : Option Text)
      → m.reply_to ≡ to
      → wants m.tag ≡ wants_reply to
      → is_answered wants [] (settle out spec m r retry) ≡ true
  unfolding settle reply reply_to is_answered has_tag
  settle_to m r retry none e w = rw (e, reply) (rw w refl)
  settle_to m r retry (some key) e w = elim (Bool-cases (is_empty key)) [
    | inl empty ↦ rw (e, empty) (rw (w, empty) refl)
    | inr full ↦ elim (Bool-cases (out.confirms m.tag)) [
      | inl c ↦ rw (e, full, c) (rw (==-same m.tag, or_true (not (wants m.tag))) refl)
      | inr c ↦ rw (e, full, c) refl
    ]
  ]

  settle-is_answered :
      (m : Message) (r : EmbeddingResult V) (retry : Bool)
      → IsMarked m
      → is_answered wants [] (settle out spec m r retry) ≡ true
  settle-is_answered m r retry w = settle_to m r retry m.reply_to refl w

  give_up-is_answered :
      (m : Message) → is_answered {V = V} wants [] (give_up_or_requeue out spec m) ≡ true
  unfolding give_up_or_requeue is_answered
  give_up-is_answered m = ground arith

  finish-is_answered :
      (d : Delivery) (o : Result Exception (EmbeddingResult V))
      → IsMarked d.message
      → is_answered wants [] (finish out spec d o) ≡ true
  unfolding finish is_answered
  finish-is_answered d (ok r) w = settle-is_answered d.message r spec.retry_on_failure w
  finish-is_answered d (raise exc) w = elim (Bool-cases spec.retry_on_failure) [
    | inl e ↦ rw e (give_up-is_answered d.message)
    | inr e ↦ rw e (settle-is_answered d.message (failed_result out spec d) false w)
  ]

  abbrev AllMarked : List Delivery → Type 0
  AllMarked = All (λ d. IsMarked d.message)

  finish_all-is_answered :
      (ds : List Delivery) (os : List (Result Exception (EmbeddingResult V)))
      → AllMarked ds
      → is_answered wants [] (finish_all out spec ds os) ≡ true
  unfolding finish_all is_answered
  finish_all-is_answered [] [] w = refl
  finish_all-is_answered [] (o ∷ os) w = refl
  finish_all-is_answered (d ∷ ds) [] w = refl
  finish_all-is_answered (d ∷ ds) (o ∷ os) w =
      is_answered-append wants [] (finish out spec d o) (finish_all out spec ds os)
        (finish-is_answered d o w.0) (finish_all-is_answered ds os w.1)

  process_live-is_answered :
      (engine : Engine V) (ds : List Delivery)
      → AllMarked ds
      → is_answered wants [] (process_live out spec engine ds) ≡ true
  unfolding process_live is_answered
  process_live-is_answered engine [] w = refl
  process_live-is_answered engine (d ∷ ds) w = finish_all-is_answered (d ∷ ds) _ w

  expire_in-is_answered :
      (l : Lane) (d : Delivery)
      → l ≡ Lane.index
      → IsMarked d.message
      → is_answered {V = V} wants [] (expire_in out spec l d) ≡ true
  unfolding expire_in
  expire_in-is_answered Lane.index d e w =
      settle-is_answered d.message (expired_result out spec d) false w
  expire_in-is_answered Lane.query d e w = cc e

  module _ (index : spec.name ≡ Lane.index) where
    expire-is_answered :
        (d : Delivery)
        → IsMarked d.message
        → is_answered {V = V} wants [] (expire out spec d) ≡ true
    unfolding expire is_answered
    expire-is_answered d w = expire_in-is_answered spec.name d index w

    sift-is_answered :
        (ds : List Delivery)
        → AllMarked ds
        → (is_answered {V = V} wants [] (sift out spec ds).0 ≡ true)
          × AllMarked (sift {V = V} out spec ds).1
    unfolding sift is_answered
    sift-is_answered [] w = (refl, tt)
    sift-is_answered (d ∷ ds) w =
        let (done, live) = sift-is_answered ds w.1 in
        elim (Bool-cases (is_expired d.job (out.now d.message.tag))) [
          | inl e ↦ rw e (
            is_answered-append wants [] (expire out spec d) (sift out spec ds).0
                (expire-is_answered d w.0) done,
            live,
          )
          | inr e ↦ rw e (done, (w.0, live))
        ]

    -- In the index lane, where `wants` tells of each delivery whether its message asks for a reply,
    -- processing a batch acks a message that asks for one only after the broker has confirmed it.
    pub process-is_answered :
        (engine : Engine V) (items : List Delivery)
        → All (λ d. wants d.message.tag ≡ wants_reply d.message.reply_to) items
        → is_answered wants [] (process out spec engine items) ≡ true
    unfolding process
    process-is_answered engine items w =
        let (done, live) = sift-is_answered items w in
        is_answered-append wants [] (sift out spec items).0 _ done
          (process_live-is_answered engine (sift {V = V} out spec items).1 live)

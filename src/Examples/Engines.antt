-- ===== src/Examples/Engines.antt =====
-- The engine on a model whose vectors are lengths, its loading by two threads, and the HTTP routes.
use sementic_search_engine.Prelude.{
  ℕ, ◌≤◌, ◌≡◌, refl, sym, ap, ◌∙◌, true, false, none, some, List, [], ◌∷◌, map, length, Text, codes,
  ok, ok-injective, length-map, ◌↔◌, ◌⊎◌, arith,
}
use sementic_search_engine.Config.{defaults}
use sementic_search_engine.Schemas.{passage}
use sementic_search_engine.Handler.{EncodeResult}
use sementic_search_engine.Main.{Transformer, IsDocumented, Loaded, encode, load, is_ready}
use sementic_search_engine.Main.Encoding.{encode-lengths}
use sementic_search_engine.Handler.Splitting.{IsPointwise}
use sementic_search_engine.Main.{engine}
use sementic_search_engine.Main.Pointwise.{IsTextwise, vector_of, is_cut, engine-IsPointwise}
use sementic_search_engine.Main.Startup.{start_up, warmup}
use sementic_search_engine.Main.Loading.{
  State, init, move, missed, holding, building, placed, returned, Reach, start, next, first_miss,
  acquires, second_miss, places, releases,
}
use sementic_search_engine.Main.Loading.Once.{Reach-built_once}
use sementic_search_engine.Api
use sementic_search_engine.Api.{
  EmbeddingRequest, begin_request, end_request, require_api_key, admitted,
}
use sementic_search_engine.Api.Keys.{IsKey, require_api_key_iff}
use sementic_search_engine.Api.Slots
use sementic_search_engine.Api.Slots.{Serves, begun, finished, IsCounted, Serves-IsCounted}

-- Every model is the number 384.
abbrev transformer : Transformer ℕ ℕ
transformer = record {
  new = λ name device. ok 384;
  dimension = λ m. m;
  embed = λ m texts size normalize. ok (map length texts);
  token_lengths = λ m texts. ok (map length texts);
}

transformer-IsDocumented : IsDocumented transformer
transformer-IsDocumented = record {
  length-embed = λ m texts size normalize vs h.
      sym (ap length (ok-injective (map length texts) vs h)) ∙ length-map length texts;
  length-token_lengths = λ m texts ls h.
      sym (ap length (ok-injective (map length texts) ls h)) ∙ length-map length texts;
}

abbrev loaded : Loaded ℕ
loaded = record { model = 384; max_seq_length = 512 }

abbrev two_texts : List Text
two_texts = codes "ab" ∷ codes "c" ∷ []

abbrev encoded_two : EncodeResult ℕ
encoded_two = record { embeddings = 2 ∷ 1 ∷ []; truncated = false ∷ false ∷ []; took_ms = 7 }

encodes_two : encode transformer defaults (some loaded) 7 two_texts passage true ≡ ok encoded_two
unfolding encode
encodes_two = refl

encode-lengths_example :
    (length encoded_two.embeddings ≡ length two_texts)
    × (length encoded_two.truncated ≡ length two_texts)
encode-lengths_example =
    encode-lengths transformer defaults transformer-IsDocumented (some loaded) 7 two_texts passage
      true encoded_two encodes_two

-- Thread 1 misses the model, takes the lock, and loads.
abbrev missing : State ℕ
unfolding init
missing = record (init {M = ℕ}) { pc = move 1 missed (init {M = ℕ}).pc }

abbrev locked : State ℕ
unfolding init
locked = record missing { lock = some 1; pc = move 1 holding missing.pc }

abbrev loads : State ℕ
unfolding init
loads = record locked { pc = move 1 building locked.pc }

abbrev in_place : State ℕ
unfolding init
in_place = record loads { model = some loaded; pc = move 1 placed loads.pc; built = 1 }

abbrev done : State ℕ
unfolding init
done = record in_place { lock = none; pc = move 1 returned in_place.pc }

at_building : loads.pc 1 ≡ building
unfolding move loads
at_building = refl

loads-Reach : Reach transformer defaults loads
unfolding init move is_ready
loads-Reach =
    next locked loads
      (next missing locked (next init missing start (first_miss 1 init refl refl))
        (acquires 1 missing refl refl))
      (second_miss 1 locked refl refl)

at_placed : in_place.pc 1 ≡ placed
unfolding move in_place
at_placed = refl

done-Reach : Reach transformer defaults done
unfolding init load
done-Reach =
    next in_place done
      (next loads in_place loads-Reach (places 1 loads (some loaded) at_building refl))
      (releases 1 in_place at_placed)

Reach-built_once_example : done.built ≤ 1
Reach-built_once_example = Reach-built_once transformer defaults done done-Reach

-- A request has its encode running.
abbrev served : Api.State
unfolding begin_request
served = (begin_request transformer defaults (some loaded) true Api.init).1

-- A request for the vectors of two texts.
abbrev asked : EmbeddingRequest
asked = record { input = two_texts; input_type = passage; normalize = true }

served-Serves : Serves transformer defaults (some loaded) 1 1 0 [] served
unfolding Api.init is_ready begin_request
served-Serves = begun 0 0 [] Api.init Slots.Serves.start (omega arith) refl

-- Its encode ends after 9 milliseconds.
abbrev after : Api.State
unfolding end_request
after = (end_request transformer defaults (some loaded) asked 9 served).1

after-Serves : Serves transformer defaults (some loaded) 1 0 1 (9 ∷ []) after
unfolding encode end_request after
after-Serves = finished 0 0 [] served asked 9 served-Serves

Serves-IsCounted_example : IsCounted transformer defaults (some loaded) 1 0 1 (9 ∷ []) after
Serves-IsCounted_example =
    Serves-IsCounted transformer defaults (some loaded) 1 0 1 (9 ∷ []) after after-Serves

require_api_key_iff_example :
    (require_api_key (some (codes "k")) (some (codes "k")) ≡ admitted)
    ↔ ((some (codes "k") ≡ none) ⊎ IsKey (some (codes "k")) (some (codes "k")))
require_api_key_iff_example = require_api_key_iff (some (codes "k")) (some (codes "k"))

transformer-IsTextwise : IsTextwise transformer (λ m n text. length text) (λ m text. length text)
transformer-IsTextwise = record {
  embed = λ m texts size n vs h. sym (ok-injective (map length texts) vs h);
  token_lengths = λ m texts ls h. sym (ok-injective (map length texts) ls h);
}

engine-IsPointwise_example :
    IsPointwise
      (engine transformer defaults (some loaded) 7)
      (vector_of transformer defaults (λ m n text. length text) (λ m text. length text) loaded)
      (is_cut transformer defaults (λ m n text. length text) (λ m text. length text) loaded)
engine-IsPointwise_example =
    engine-IsPointwise transformer defaults (λ m n text. length text) (λ m text. length text) loaded
      7 transformer-IsTextwise

starts : start_up transformer defaults 5 none ≡ ok (some loaded)
unfolding start_up warmup load encode
starts = refl

-- ===== src/Worker/Lifecycle/Tasks.antt =====
-- A property of what each task has still to do, as one of the tasks changes.
use sementic_search_engine.Prelude.{
  ◌≡◌, subst, List, [], ◌∷◌, ◌++◌, All, All-append, All-append_left, All-append_right,
}
use sementic_search_engine.Worker.{Action}
use sementic_search_engine.Worker.Lifecycle.{Owner, Task}

module _ {V : Type 0} (Q : List (Action V) → Type 0) where
  abbrev pub AllTasks : List (Task V) → Type 0
  AllTasks = All (λ t. Q t.1)

  module _ (before after ts : List (Task V)) (o : Owner) (as' : List (Action V))
      (split : ts ≡ before ++ (o, as') ∷ after) (h : AllTasks ts) where
    from_task : AllTasks ((o, as') ∷ after)
    from_task = All-append_right (λ t. Q t.1) before ((o, as') ∷ after) (subst AllTasks split h)

    to_task : AllTasks before
    to_task = All-append_left (λ t. Q t.1) before ((o, as') ∷ after) (subst AllTasks split h)

  pub changed :
      (before after ts : List (Task V)) (o o' : Owner) (as' left : List (Action V))
      → ts ≡ before ++ (o, as') ∷ after
      → AllTasks ts
      → (Q as' → Q left)
      → AllTasks (before ++ (o', left) ∷ after)
  changed before after ts o o' as' left e h f =
      All-append (λ t. Q t.1) before ((o', left) ∷ after) (to_task before after ts o as' e h)
        (f (from_task before after ts o as' e h).0, (from_task before after ts o as' e h).1)

  pub ended :
      (before after ts : List (Task V)) (o : Owner)
      → ts ≡ before ++ (o, []) ∷ after
      → AllTasks ts
      → AllTasks (before ++ after)
  ended before after ts o e h =
      All-append (λ t. Q t.1) before after (to_task before after ts o [] e h)
        (from_task before after ts o [] e h).1

  pub at_task :
      (before after ts : List (Task V)) (o : Owner) (as' : List (Action V))
      → ts ≡ before ++ (o, as') ∷ after
      → AllTasks ts
      → Q as'
  at_task before after ts o as' e h = (from_task before after ts o as' e h).0

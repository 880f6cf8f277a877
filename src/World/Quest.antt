-- ===== src/World/Quest.antt =====
-- world.py: the walk over a quest's steps in `_quest_problems`. The end of `todo` is the list's head.
-- A start that is missing is passed over as a name that is no step is, such as the empty one.
pub mod Way
pub mod Passes
pub mod Walks
use alzendor.Prelude.{
  ℕ, zero, suc, ◌+◌, String, Bool, true, false, Option, none, some, List, [], ◌∷◌, length, str_eq,
  if◌then◌else◌,
}
use alzendor.Text.{is_one_of}

-- A step's name and its `then`, where an empty one is as good as none.
pub record Step : Type 0 where
  pub id : String
  pub next : Option String

-- steps[step_id].get("then"); `none` if it is not a step.
abbrev pub next_of : List Step → String → Option (Option String)
next_of [] name = none
next_of (s ∷ ss) name = let rest = next_of ss name in if str_eq name s.id then some s.next else rest

-- What the walk has found so far.
pub record Walk : Type 0 where
  pub reached : List String
  pub ends : Bool

-- A step that was not reached before; one that is no step is passed over.
abbrev pub take_step : Walk → String → List String → Option (Option String) → Walk × List String
take_step w name todo none = (w, todo)
take_step w name todo (some none) = (record { reached = name ∷ w.reached; ends = true }, todo)
take_step w name todo (some (some next)) =
    (record { reached = name ∷ w.reached; ends = w.ends }, next ∷ todo)

-- The loop's body, with the name that was taken from `todo`.
unfoldable pub walk_step : List Step → Walk → String → List String → Walk × List String
walk_step steps w name todo =
    if is_one_of name w.reached then (w, todo) else take_step w name todo (next_of steps name)

unfoldable pub walk : ℕ → List Step → Walk → List String → Option Walk
unfolding walk_step
walk zero steps w [] = some w
walk zero steps w (name ∷ todo) = none
walk (suc n) steps w [] = some w
walk (suc n) steps w (name ∷ todo) =
    let (w', todo') = walk_step steps w name todo in walk n steps w' todo'

-- The whole loop, on as much fuel as there are steps, and one.
unfoldable pub walk_quest : List Step → String → Option Walk
unfolding walk
walk_quest steps start =
    walk (suc (length steps)) steps (record { reached = []; ends = false }) (start ∷ [])

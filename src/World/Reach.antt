-- ===== src/World/Reach.antt =====
-- world.py: `_reach`, the rooms that can be reached. A dict of sets is a list by its keys. `todo` is
-- taken from and added to at its head, where the code does so at its end: of the starts, the model
-- takes the first one first, and the code the last.
pub mod Ways
pub mod Passes
pub mod Finds
use alzendor.Prelude.{
  ℕ, zero, suc, ◌+◌, String, Bool, true, false, Option, none, some, List, [], ◌∷◌, ◌++◌, length,
  str_eq, ◌>>=◌, if◌then◌else◌,
}
use alzendor.Text.{is_one_of}

abbrev pub Graph : Type 0
Graph = List (String × List String)

-- edges[rid]; `none` is a KeyError.
abbrev pub dests : Graph → String → Option (List String)
dests [] rid = none
dests ((key, ds) ∷ g) rid = let rest = dests g rid in if str_eq rid key then some ds else rest

abbrev pub is_known : Option (List String) → Bool
is_known none = false
is_known (some ds) = true

-- [s for s in starts if s in edges]
abbrev pub known : Graph → List String → List String
known g [] = []
known g (s ∷ ss) = let rest = known g ss in if is_known (dests g s) then s ∷ rest else rest

-- edges[rid] - seen
abbrev pub unseen : List String → List String → List String
unseen seen [] = []
unseen seen (d ∷ ds) = let rest = unseen seen ds in if is_one_of d seen then rest else d ∷ rest

-- The loop's body, with the room that was taken from `todo`.
unfoldable pub visit_room :
    Graph → List String → String → List String → Option (List String × List String)
visit_room g seen rid todo =
    if is_one_of rid seen
    then some (seen, todo)
    else (do ds ← dests g rid; some (rid ∷ seen, unseen (rid ∷ seen) ds ++ todo))

unfoldable pub visit : ℕ → Graph → List String → List String → Option (List String)
unfolding visit_room
visit zero g seen [] = some seen
visit zero g seen (rid ∷ todo) = none
visit (suc n) g seen [] = some seen
visit (suc n) g seen (rid ∷ todo) = do
  (seen', todo') ← visit_room g seen rid todo
  visit n g seen' todo'

-- How many rooms are ever put in `todo` from the sets, of rooms not in a list.
abbrev pub weight : List String → Graph → ℕ
weight seen [] = 0
weight seen ((key, ds) ∷ g) = (if is_one_of key seen then 0 else length ds) + weight seen g

-- `_reach`, on as much fuel as there are starts and destinations.
unfoldable pub reach : Graph → List String → Option (List String)
unfolding visit
reach g starts = visit (length (known g starts) + weight [] g) g [] (known g starts)

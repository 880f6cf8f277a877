-- ===== src/World/Tests.antt =====
-- world.py: small worlds, and what `_graph_problems` says of them.
use alzendor.Prelude.{◌≡◌, refl, String, true, false, none, some, List, [], ◌∷◌, ◌↔◌, Succeeds}
use alzendor.Text.{is_one_of}
use alzendor.World.Quest.{Step, walk_quest}
use alzendor.World.Quest.Way.{IsOnWay, HasEnd}
use alzendor.World.Quest.Walks.{walk_quest_lem}
use alzendor.World.Reach.{reach}
use alzendor.World.Effects.{Json, Fields, effects}
use alzendor.World.Reach.Ways.{IsReached}
use alzendor.World.Reach.Finds.{reach_lem}
use alzendor.World.Graph.Closed.{edges_of-IsClosed}
use alzendor.World.Graph.{
  Room, Route, Seed, Problem, graph_problems, problems_from, edges_of, effects_of, back,
}

abbrev room : String → List String → Room
room id exits = record { id = id; is_waypoint = false; is_unreachable = false; exits = exits }

abbrev ferry : Route
ferry = record { from = some "quay"; to = some "isle"; strand = none }

-- A quest that takes a player to the cellar.
abbrev quests : Json
quests = Json.obj (
    Fields.field "steps" (Json.obj (Fields.field "teleport" (Json.text "cellar") Fields.end))
      Fields.end)

-- From the isle no way leads back, and no one gets into the attic.
abbrev bay : Seed
bay = record {
  rooms =
      room "quay" ("square" ∷ [])
      ∷ room "square" ("quay" ∷ [])
      ∷ room "isle" []
      ∷ room "cellar" ("square" ∷ [])
      ∷ room "attic" ("square" ∷ [])
      ∷ [];
  routes = ferry ∷ [];
  start_room = some "square";
  starts = none ∷ [];
  quests = quests;
  travel_events = Json.leaf;
}

bay_problems :
    graph_problems bay ≡ some (Problem.cut_off "attic" ∷ Problem.trap "isle" "square" ∷ [])
unfolding graph_problems problems_from edges_of effects_of back reach effects
bay_problems = refl

-- The same with a boat from the isle, and a ladder to the attic.
abbrev harbour : Seed
harbour = record bay {
  rooms =
      room "quay" ("square" ∷ "attic" ∷ [])
      ∷ room "square" ("quay" ∷ [])
      ∷ room "isle" ("quay" ∷ [])
      ∷ room "cellar" ("square" ∷ [])
      ∷ room "attic" ("square" ∷ [])
      ∷ [];
}

no_problems : graph_problems harbour ≡ some []
unfolding graph_problems problems_from edges_of effects_of back reach effects
no_problems = refl

reach_lem_example :
    Succeeds
      (λ out.
        (x : String)
        → (is_one_of x out ≡ true) ↔ IsReached (edges_of bay) ("isle" ∷ "attic" ∷ []) x)
      (reach (edges_of bay) ("isle" ∷ "attic" ∷ []))
reach_lem_example = reach_lem (edges_of bay) ("isle" ∷ "attic" ∷ []) (edges_of-IsClosed bay)

abbrev step : String → String → Step
step id next = record { id = id; next = some next }

-- A quest that goes around, and one that ends and has a step that is cut off.
abbrev circle : List Step
circle = step "ask" "fetch" ∷ step "fetch" "ask" ∷ record { id = "thanks"; next = none } ∷ []

abbrev errand : List Step
errand =
    step "ask" "fetch"
    ∷ step "fetch" "thanks"
    ∷ record { id = "thanks"; next = none }
    ∷ step "lost" "thanks"
    ∷ []

circle_walk :
    walk_quest circle "ask" ≡ some (record { reached = "fetch" ∷ "ask" ∷ []; ends = false })
unfolding walk_quest
circle_walk = refl

errand_walk :
    walk_quest errand "ask"
    ≡ some (record { reached = "thanks" ∷ "fetch" ∷ "ask" ∷ []; ends = true })
unfolding walk_quest
errand_walk = refl

walk_quest_lem_example :
    Succeeds
      (λ w.
        ((x : String) → (is_one_of x w.reached ≡ true) ↔ IsOnWay errand "ask" x)
        × ((w.ends ≡ true) ↔ HasEnd errand "ask"))
      (walk_quest errand "ask")
walk_quest_lem_example = walk_quest_lem errand "ask"

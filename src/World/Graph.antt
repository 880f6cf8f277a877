-- ===== src/World/Graph.antt =====
-- world.py: `world_graph` and `_graph_problems`.
pub mod Closed
pub mod Back
pub mod Found
pub mod Sound
use Prim.Native.String.{compare}
use text.Mathlib.Text.{is_lt}
use alzendor.Prelude.{
  String, Bool, true, false, not, ◌&&◌, ◌||◌, Option, none, some, List, [], ◌∷◌, ◌++◌, map, str_eq,
  ◌>>=◌, if◌then◌else◌,
}
use alzendor.Text.{is_one_of}
use alzendor.World.Reach.{Graph, dests, is_known, known, reach}
use alzendor.World.Effects.{Json, Items, Moved, effects}

-- What the checks read of a room, and of a route.
pub record Room : Type 0 where
  pub id : String
  pub is_waypoint : Bool
  pub is_unreachable : Bool
  pub exits : List String

pub record Route : Type 0 where
  pub from : Option String
  pub to : Option String
  pub strand : Option String

-- What they read of a seed; `starts` is the start of each background.
pub record Seed : Type 0 where
  pub rooms : List Room
  pub routes : List Route
  pub start_room : Option String
  pub starts : List (Option String)
  pub quests : Json
  pub travel_events : Json

abbrev pub given : List (Option String) → List String
given [] = []
given (none ∷ os) = given os
given (some t ∷ os) = t ∷ given os

-- {rid: set() for rid in rooms if not rooms[rid].get("waypoint")}
abbrev pub bare : List Room → Graph
bare [] = []
bare (r ∷ rs) = let rest = bare rs in if r.is_waypoint then rest else (r.id, []) ∷ rest

-- The same with the exits of each room that lead to one of the graph.
abbrev pub with_exits : Graph → List Room → Graph
with_exits g [] = []
with_exits g (r ∷ rs) =
    let rest = with_exits g rs in if r.is_waypoint then rest else (r.id, known g r.exits) ∷ rest

-- edges[rid].update(more), for a room of the graph
abbrev pub add : String → List String → Graph → Graph
add rid more [] = []
add rid more ((key, ds) ∷ g) =
    let rest = add rid more g in if str_eq rid key then (key, ds ++ more) ∷ g else (key, ds) ∷ rest

abbrev add_route : Graph → Route → Option String → Graph
add_route g route none = g
add_route g route (some start) = add start (known g (given (route.to ∷ route.strand ∷ []))) g

abbrev pub with_routes : Graph → List Route → Graph
with_routes g [] = g
with_routes g (route ∷ routes) = with_routes (add_route g route route.from) routes

-- The rooms of the effects that maroon, or of those that teleport.
abbrev pub rooms_of : Bool → List Moved → List (Option String)
rooms_of maroons [] = []
rooms_of maroons (m ∷ ms) =
    let rest = rooms_of maroons ms in
    if maroons
    then (if m.maroons then m.room ∷ rest else rest)
    else (if m.maroons then rest else m.room ∷ rest)

-- `world_graph`: the edges, and the rooms that quests teleport to and that events maroon in.
unfoldable pub edges_of : Seed → Graph
edges_of s = with_routes (with_exits (bare s.rooms) s.rooms) s.routes

unfoldable pub effects_of : Bool → Seed → List String
effects_of maroons s = known (edges_of s) (
    given (
      rooms_of maroons
        (effects (Json.arr (Items.cons s.quests (Items.cons s.travel_events Items.nil))))))

-- sorted(names)
abbrev pub insert : String → List String → List String
insert name [] = name ∷ []
insert name (n ∷ ns) =
    let rest = insert name ns in if is_lt (compare n name) then n ∷ rest else name ∷ n ∷ ns

abbrev pub sorted : List String → List String
sorted [] = []
sorted (n ∷ ns) = insert n (sorted ns)

-- `back`: every edge the other way. The last argument is the rooms whose edges are left.
abbrev pub add_each : String → List String → Graph → Graph
add_each rid [] b = b
add_each rid (d ∷ ds) b = add_each rid ds (add d (rid ∷ []) b)

abbrev pub or_none : Option (List String) → List String
or_none none = []
or_none (some ds) = ds

abbrev pub empty_sets : Graph → Graph
empty_sets [] = []
empty_sets ((key, ds) ∷ g) = (key, []) ∷ empty_sets g

abbrev pub turned : Graph → Graph → Graph → Graph
turned g b [] = b
turned g b ((key, ds) ∷ rest) = turned g (add_each key (or_none (dests g key)) b) rest

unfoldable pub back : Graph → Graph
back g = turned g (empty_sets g) g

pub data Problem : Type 0 where
  cut_off : String → Problem
  trap : String → String → Problem

abbrev pub marked : List Room → String → Bool
marked [] rid = false
marked (r ∷ rs) rid = let rest = marked rs rid in if str_eq rid r.id then r.is_unreachable else rest

abbrev pub keys : Graph → List String
keys [] = []
keys ((key, ds) ∷ g) = key ∷ keys g

abbrev pub cut_offs : List Room → List String → List String → List Problem
cut_offs rooms reached [] = []
cut_offs rooms reached (rid ∷ rids) =
    let rest = cut_offs rooms reached rids in
    if not (is_one_of rid reached) && not (marked rooms rid)
    then Problem.cut_off rid ∷ rest
    else rest

abbrev pub traps : String → List String → List String → List Problem
traps start home [] = []
traps start home (rid ∷ rids) =
    let rest = traps start home rids in
    if not (is_one_of rid home) then Problem.trap rid start ∷ rest else rest

-- Where characters may be all at once, and where they are at home.
abbrev pub starts_of : Seed → String → List String
starts_of s start = (start ∷ given s.starts) ++ sorted (effects_of false s ++ effects_of true s)

abbrev pub homes_of : Seed → String → List String
homes_of s start = start ∷ sorted (effects_of true s)

abbrev has_room : List Room → String → Bool
has_room [] rid = false
has_room (r ∷ rs) rid = let rest = has_room rs rid in str_eq rid r.id || rest

unfoldable pub problems_from : Seed → String → Option (List Problem)
problems_from s start = do
  reached ← reach (edges_of s) (starts_of s start)
  home ← reach (back (edges_of s)) (homes_of s start)
  some (cut_offs s.rooms reached (sorted (keys (edges_of s))) ++ traps start home (sorted reached))

abbrev pub when_known : Seed → Option String → Option (List Problem)
when_known s none = some []
when_known s (some start) = if has_room s.rooms start then problems_from s start else some []

-- `_graph_problems`; `none` is a KeyError, or a search that is out of fuel.
unfoldable pub graph_problems : Seed → Option (List Problem)
graph_problems s = when_known s s.start_room

-- ===== src/World/Graph/Sound.antt =====
-- What `_graph_problems` of world.py finds, and what a seed has in which it finds nothing.
use alzendor.Prelude.{◌≡◌, ◌⊎◌, String, true, List, ◌>>=◌}
use alzendor.Text.{is_one_of}
use alzendor.World.Reach.{Graph, dests, is_known}
use alzendor.World.Reach.Ways.{leads, IsReached}
use alzendor.World.Graph.{Seed, edges_of, marked, starts_of, homes_of}

-- A room from which there is a way to one of some rooms.
pub data HasWay (g : Graph) (homes : List String) : String → Type 0 where
  arrived : (r : String) → is_one_of r homes ≡ true → HasWay g homes r
  onward : (r d : String) → leads g r d ≡ true → HasWay g homes d → HasWay g homes r

-- Every room that characters can walk in can be reached, or is marked as cut off on purpose, and
-- from every room that can be reached there is a way home.
pub record IsWhole (s : Seed) (start : String) : Type 0 where
  pub open_to :
      (x : String)
      → is_known (dests (edges_of s) x) ≡ true
      → IsReached (edges_of s) (starts_of s start) x ⊎ (marked s.rooms x ≡ true)
  pub way_home :
      (x : String)
      → IsReached (edges_of s) (starts_of s start) x
      → HasWay (edges_of s) (homes_of s start) x

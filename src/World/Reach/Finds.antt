-- ===== src/World/Reach/Finds.antt =====
-- `_reach` of world.py finds just the rooms that there is a way to.
use alzendor.Prelude.{
  ℕ, zero, suc, ◌+◌, ◌≤◌, ◌≡◌, ◌↔◌, String, true, ◌||◌, List, [], ◌∷◌, length, arith, Succeeds,
  Succeeds-some, Succeeds-bind,
}
use alzendor.Text.{is_one_of}
use alzendor.World.Reach.{Graph, known, visit_room, visit, weight, reach}
use alzendor.World.Reach.Ways.{leads, IsClosed, IsReached, known-keys, known-has}
use alzendor.World.Reach.Passes.{IsBetween, Passes, visit_room-Passes}

module _ (g : Graph) (starts : List String) (c : IsClosed g) where
  -- What the loop ends with.
  record Ends (seen todo out : List String) : Type 0 where
    has : (x : String) → (is_one_of x seen || is_one_of x todo) ≡ true → is_one_of x out ≡ true
    whole : (r d : String) → is_one_of r out ≡ true → leads g r d ≡ true → is_one_of d out ≡ true
    found : (x : String) → is_one_of x out ≡ true → IsReached g starts x

  Ends-done : (seen : List String) → IsBetween g starts seen [] → Ends seen [] seen
  Ends-done seen b = record {
    has = λ x h. ground arith;
    whole = λ r d h l. let in_seen = b.half r d h l in ground arith;
    found = λ x h. b.sound x (ground arith);
  }

  Ends-passed :
      (n : ℕ) (seen todo : List String) (r : List String × List String) (out : List String)
      → Passes g starts n seen todo r
      → Ends r.0 r.1 out
      → Ends seen todo out
  Ends-passed n seen todo r out p e = record {
    has = λ x h. e.has x (p.kept x h);
    whole = e.whole;
    found = e.found;
  }

  visit-Ends :
      (n : ℕ) (seen todo : List String)
      → IsBetween g starts seen todo
      → length todo + weight seen g ≤ n
      → Succeeds (Ends seen todo) (visit n g seen todo)
  unfolding visit
  visit-Ends zero seen [] b f = Succeeds-some seen (Ends-done seen b)
  visit-Ends zero seen (t ∷ todo) b f = absurd (omega (arith, f))
  visit-Ends (suc n) seen [] b f = Succeeds-some seen (Ends-done seen b)
  visit-Ends (suc n) seen (t ∷ todo) b f =
      Succeeds-bind (visit_room g seen t todo) (λ r. visit n g r.0 r.1)
        (visit_room-Passes g starts c n t seen todo b f)
        (λ r p.
          let rest = visit-Ends n r.0 r.1 p.between p.fuel in
          record {
            value = rest.value;
            succeeds = rest.succeeds;
            holds = Ends-passed n seen (t ∷ todo) r rest.value p rest.holds;
          })

  begins-IsBetween : IsBetween g starts [] (known g starts)
  begins-IsBetween = record {
    keys = λ r h. (known-keys g starts r h).1;
    half = λ r d h l. cc;
    sound = λ x h. IsReached.begins x (known-keys g starts x h).0 (known-keys g starts x h).1;
  }

  reached_in :
      (out : List String)
      → Ends [] (known g starts) out
      → (x : String) → IsReached g starts x
      → is_one_of x out ≡ true
  reached_in out e x (IsReached.begins x' h k) = e.has x (known-has g starts x h k)
  reached_in out e x (IsReached.goes r x' h l) = e.whole r x (reached_in out e r h) l

  -- In a graph whose every step leads to a room of it, the search of `_reach` ends, with no
  -- KeyError, and what it has seen is just the rooms that there is a way to from one of the starts.
  pub reach_lem :
      Succeeds
        (λ out. (x : String) → (is_one_of x out ≡ true) ↔ IsReached g starts x)
        (reach g starts)
  unfolding reach
  reach_lem =
      let end =
        visit-Ends (length (known g starts) + weight [] g) [] (known g starts) begins-IsBetween
          (omega arith) in
      record {
        value = end.value;
        succeeds = end.succeeds;
        holds = λ x. (end.holds.found x, reached_in end.value end.holds x);
      }

-- ===== src/World/Quest/Walks.antt =====
-- What the walk over a quest's steps of world.py finds.
use text.Mathlib.TextPositions.{eq_refl}
use alzendor.Prelude.{
  ℕ, zero, suc, ◌+◌, ◌≤◌, ◌≡◌, ◌↔◌, refl, sym, subst, String, true, false, List, [], ◌∷◌, length,
  str_eq, eq_iff, Bool-cases, inl, inr, arith, Succeeds, Succeeds-some,
}
use alzendor.Text.{is_one_of}
use alzendor.World.Quest.{Step, next_of, Walk, walk_step, walk, walk_quest}
use alzendor.World.Quest.Way.{is_step, IsOnWay, HasEnd, left, left_start}
use alzendor.World.Quest.Passes.{IsBetween, walk_step-Passes}

module _ (steps : List Step) (start : String) where
  walk-Succeeds :
      (n : ℕ) (w : Walk) (todo : List String)
      → IsBetween steps start w todo
      → length todo + left w.reached steps ≤ n
      → Succeeds (λ out. IsBetween steps start out []) (walk n steps w todo)
  unfolding walk
  walk-Succeeds zero w [] b f = Succeeds-some w b
  walk-Succeeds zero w (name ∷ todo) b f = absurd (omega (arith, f))
  walk-Succeeds (suc n) w [] b f = Succeeds-some w b
  walk-Succeeds (suc n) w (name ∷ todo) b f =
      let p = walk_step-Passes steps start n w name todo b f in
      walk-Succeeds n (walk_step steps w name todo).0 (walk_step steps w name todo).1 p.between
        p.fuel

  -- Once nothing waits, all of the way was reached.
  way_reached :
      (w : Walk)
      → IsBetween steps start w []
      → (x : String) → IsOnWay steps start x
      → is_one_of x w.reached ≡ true
  way_reached w b x (IsOnWay.first k) = let h = b.started k in ground arith
  way_reached w b x (IsOnWay.after y x' o e k) =
      let h = b.half y x (way_reached w b y o) e k in ground arith

  end_seen : (w : Walk) → IsBetween steps start w [] → HasEnd steps start → w.ends ≡ true
  end_seen w b (HasEnd.last x o e) = b.ending x (way_reached w b x o) e

  begins-IsBetween : IsBetween steps start (record { reached = []; ends = false }) (start ∷ [])
  begins-IsBetween = record {
    ways = λ x m. cc;
    waits = λ x m k. elim (Bool-cases (str_eq x start)) [
      | inl f ↦
          let same : start ≡ x = sym ((eq_iff x start).0 f) in
          subst (λ y. is_step (next_of steps y) ≡ true → IsOnWay steps start y) same
            (λ k'. IsOnWay.first k') k
      | inr f ↦ let empty : false ≡ true = (rw f at m) in cc
    ];
    half = λ x next m e k. cc;
    started = λ k. rw (eq_refl start) refl;
    ended = λ t. cc;
    ending = λ x m e. cc;
  }

  -- However a quest's steps name one another, in a circle or not, the walk over them stops; it has then
  -- reached just the steps that follow from the start, one after another, and it says that the quest can
  -- end just when one of them is the last.
  pub walk_quest_lem :
      Succeeds
        (λ w.
          ((x : String) → (is_one_of x w.reached ≡ true) ↔ IsOnWay steps start x)
          × ((w.ends ≡ true) ↔ HasEnd steps start))
        (walk_quest steps start)
  unfolding walk_quest
  walk_quest_lem =
      let end =
        walk-Succeeds (suc (length steps)) (record { reached = []; ends = false }) (start ∷ [])
          begins-IsBetween (omega (arith, left_start steps)) in
      record {
        value = end.value;
        succeeds = end.succeeds;
        holds = (
          λ x. (end.holds.ways x, way_reached end.value end.holds x),
          (end.holds.ended, end_seen end.value end.holds),
        );
      }

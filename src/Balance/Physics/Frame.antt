-- ===== src/Balance/Physics/Frame.antt =====
-- The dot's own motion leaves its kit and cooldowns alone.
use alzendor.Prelude.{ℕ, ◌≡◌, refl, ◌∙◌, Bool, true, false}
use alzendor.Real.{Real}
use alzendor.Balance.Dot.{Dot, is_staggered}
use alzendor.Balance.Same.{kept}
use alzendor.Balance.Knock.Frame.{kept-stagger}
use alzendor.Balance.Physics.{
  accelerate, wobble_when, wobble, move, rim_when, rim, physics_when, physics,
}

module _ {F : Type 0} ⦃r : Real F⦄ where
  kept-wobble_when :
      (some_wobble due : Bool) (wob clock : F) (d : Dot F)
      → kept (wobble_when some_wobble due wob clock d) ≡ kept d
  unfolding wobble_when
  kept-wobble_when true true wob clock d = refl
  kept-wobble_when true false wob clock d = refl
  kept-wobble_when false due wob clock d = refl

  kept-rim_when :
      (there bounces steadies : Bool) (d : Dot F) (nx ny : F)
      → kept (rim_when there bounces steadies d nx ny).0 ≡ kept d
  unfolding rim_when
  kept-rim_when false bounces steadies d nx ny = refl
  kept-rim_when true true steadies d nx ny = refl
  kept-rim_when true false true d nx ny = refl
  kept-rim_when true false false d nx ny = kept-stagger d (r.atan2 ny nx)

  kept-wobble : (d : Dot F) → kept (wobble d) ≡ kept d
  unfolding wobble
  kept-wobble d = kept-wobble_when _ _ _ _ d

  kept-rim : (d : Dot F) → kept (rim d).0 ≡ kept d
  unfolding rim
  kept-rim d = kept-rim_when _ _ _ d _ _

  kept-physics_when :
      (staggers : Bool) (d : Dot F) (keys : ℕ) → kept (physics_when staggers d keys).0 ≡ kept d
  unfolding physics_when
  kept-physics_when true d keys = refl
  kept-physics_when false d keys =
      kept-rim (move (wobble (accelerate d keys))) ∙ kept-wobble (accelerate d keys)

  pub kept-physics : (d : Dot F) (keys : ℕ) → kept (physics d keys).0 ≡ kept d
  unfolding physics
  kept-physics d keys = kept-physics_when (is_staggered d) d keys

-- ===== src/Balance/Physics/Quiet.antt =====
-- The dot's own motion makes no strikes, and no blow lands in it.
use alzendor.Prelude.{ℕ, ◌≡◌, refl, Bool, true, false, arith}
use alzendor.Real.{Real}
use alzendor.Balance.Dot.{Dot, is_staggered}
use alzendor.Balance.Events.{landing, count, count-append, first_strikes, first_strikes-append}
use alzendor.Balance.Physics.{
  accelerate, wobble, move, rim_when, rim, settle, physics_when, physics,
}

module _ {F : Type 0} ⦃r : Real F⦄ where
  first_strikes-rim_when :
      (slot : ℕ) (there bounces steadies : Bool) (d : Dot F) (nx ny : F)
      → first_strikes slot (rim_when there bounces steadies d nx ny).1 ≡ 0
  unfolding rim_when
  first_strikes-rim_when slot false bounces steadies d nx ny = refl
  first_strikes-rim_when slot true true steadies d nx ny = refl
  first_strikes-rim_when slot true false true d nx ny = refl
  first_strikes-rim_when slot true false false d nx ny = refl

  first_strikes-rim : (slot : ℕ) (d : Dot F) → first_strikes slot (rim d).1 ≡ 0
  unfolding rim
  first_strikes-rim slot d = first_strikes-rim_when slot _ _ _ d _ _

  first_strikes-settle : (slot : ℕ) (d : Dot F) → first_strikes slot (settle d).1 ≡ 0
  unfolding settle
  first_strikes-settle slot d = ground arith

  first_strikes-physics_when :
      (slot : ℕ) (staggers : Bool) (d : Dot F) (keys : ℕ)
      → first_strikes slot (physics_when staggers d keys).1 ≡ 0
  unfolding physics_when
  first_strikes-physics_when slot true d keys = refl
  first_strikes-physics_when slot false d keys =
      let e = move (wobble (accelerate d keys)) in
      omega (
        arith,
        first_strikes-append slot (rim e).1 (settle (rim e).0).1,
        first_strikes-rim slot e,
        first_strikes-settle slot (rim e).0,
      )

  pub first_strikes-physics :
      (slot : ℕ) (d : Dot F) (keys : ℕ) → first_strikes slot (physics d keys).1 ≡ 0
  unfolding physics
  first_strikes-physics slot d keys = first_strikes-physics_when slot (is_staggered d) d keys

  landing-rim_when :
      (there bounces steadies : Bool) (d : Dot F) (nx ny : F)
      → count landing (rim_when there bounces steadies d nx ny).1 ≡ 0
  unfolding rim_when
  landing-rim_when false bounces steadies d nx ny = refl
  landing-rim_when true true steadies d nx ny = refl
  landing-rim_when true false true d nx ny = refl
  landing-rim_when true false false d nx ny = refl

  landing-rim : (d : Dot F) → count landing (rim d).1 ≡ 0
  unfolding rim
  landing-rim d = landing-rim_when _ _ _ d _ _

  landing-settle : (d : Dot F) → count landing (settle d).1 ≡ 0
  unfolding settle
  landing-settle d = ground arith

  landing-physics_when :
      (staggers : Bool) (d : Dot F) (keys : ℕ) → count landing (physics_when staggers d keys).1 ≡ 0
  unfolding physics_when
  landing-physics_when true d keys = refl
  landing-physics_when false d keys =
      let e = move (wobble (accelerate d keys)) in
      omega (
        arith,
        count-append landing (rim e).1 (settle (rim e).0).1,
        landing-rim e,
        landing-settle (rim e).0,
      )

  pub landing-physics : (d : Dot F) (keys : ℕ) → count landing (physics d keys).1 ≡ 0
  unfolding physics
  landing-physics d keys = landing-physics_when (is_staggered d) d keys

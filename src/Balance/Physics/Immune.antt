-- ===== src/Balance/Physics/Immune.antt =====
-- The rim does not stagger a dot that is immune to it.
use alzendor.Prelude.{ℕ, ◌≡◌, refl, ◌∙◌, ap, Bool, true, false, arith}
use alzendor.Prelude.Int.{is_positive}
use alzendor.Real.{Real}
use alzendor.Balance.Dot.{Dot, is_staggered}
use alzendor.Balance.Same.{Stance, stance}
use alzendor.Balance.Events.{staggers, staggers-append}
use alzendor.Balance.Knock.{catches}
use alzendor.Balance.Physics.{
  accelerate, wobble_when, wobble, move, rim_when, bounces, rim, settle, physics_when, physics,
}

module _ {F : Type 0} ⦃r : Real F⦄ where
  stance-wobble_when :
      (some_wobble due : Bool) (wob clock : F) (d : Dot F)
      → stance (wobble_when some_wobble due wob clock d) ≡ stance d
  unfolding wobble_when
  stance-wobble_when true true wob clock d = refl
  stance-wobble_when true false wob clock d = refl
  stance-wobble_when false due wob clock d = refl

  stance-wobble : (d : Dot F) → stance (wobble d) ≡ stance d
  unfolding wobble
  stance-wobble d = stance-wobble_when _ _ _ _ d

  stance-rim_when :
      (there steadies : Bool) (d : Dot F) (nx ny : F)
      → (stance (rim_when there true steadies d nx ny).0 ≡ stance d)
        × (staggers (rim_when there true steadies d nx ny).1 ≡ 0)
  unfolding rim_when
  stance-rim_when false steadies d nx ny = (refl, refl)
  stance-rim_when true steadies d nx ny = (refl, refl)

  bounces-immune : (d : Dot F) → is_positive d.immune ≡ true → bounces d ≡ true
  bounces-immune d h = ground arith

  stance-rim :
      (d : Dot F)
      → is_positive d.immune ≡ true
      → (stance (rim d).0 ≡ stance d) × (staggers (rim d).1 ≡ 0)
  unfolding rim
  stance-rim d h = rw (bounces-immune d h) (stance-rim_when _ (catches d) d _ _)

  staggers-settle : (d : Dot F) → staggers (settle d).1 ≡ 0
  unfolding settle
  staggers-settle d = ground arith

  stance-settle : (d : Dot F) → stance (settle d).0 ≡ stance d
  unfolding settle
  stance-settle d = refl

  pub stance-physics :
      (d : Dot F) (keys : ℕ)
      → is_staggered d ≡ false
      → is_positive d.immune ≡ true
      → (stance (physics d keys).0 ≡ stance d) × (staggers (physics d keys).1 ≡ 0)
  unfolding physics accelerate move
  stance-physics d keys up h =
      rw (up, physics_when)
        (unfold physics_when in
          let e = move (wobble (accelerate d keys)) in
          let still : stance e ≡ stance d = stance-wobble (accelerate d keys) in
          let at_rim = stance-rim e (ap (λ (s : Stance). is_positive s.immune) still ∙ h) in
          (
            stance-settle (rim e).0 ∙ at_rim.0 ∙ still,
            omega (
              arith,
              staggers-append (rim e).1 (settle (rim e).0).1,
              at_rim.1,
              staggers-settle (rim e).0,
            ),
          ))

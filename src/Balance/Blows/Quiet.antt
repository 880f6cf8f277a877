-- ===== src/Balance/Blows/Quiet.antt =====
-- Blows make no strikes, and report one result each.
use alzendor.Prelude.{ℕ, ◌≡◌, refl, Bool, true, false, List, [], ◌∷◌, arith, length}
use alzendor.Real.{Real}
use alzendor.Balance.Dot.{Blow, Dot, Result}
use alzendor.Balance.Events.{landing, count, count-append, first_strikes, first_strikes-append}
use alzendor.Balance.Knock.{catches}
use alzendor.Balance.Blows.{
  blow_events, struck, would_stagger, unmet_when, unmet, meet, dodges, blocks, apply_blow, land,
}

module _ {F : Type 0} ⦃r : Real F⦄ where
  first_strikes-unmet_when :
      (slot : ℕ) (staggers steadies : Bool) (d : Dot F) (b : Blow F) (result : Result)
      → first_strikes slot (blow_events (unmet_when staggers steadies d b result)) ≡ 0
  unfolding unmet_when
  first_strikes-unmet_when slot false steadies d b result = refl
  first_strikes-unmet_when slot true true d b result = refl
  first_strikes-unmet_when slot true false d b result = refl

  first_strikes-meet :
      (slot : ℕ) (parts dodges blocks : Bool) (d : Dot F) (b : Blow F)
      → first_strikes slot (blow_events (meet parts dodges blocks d b)) ≡ 0
  unfolding meet unmet
  first_strikes-meet slot true dodges blocks d b = refl
  first_strikes-meet slot false true blocks d b = refl
  first_strikes-meet slot false false true d b = refl
  first_strikes-meet slot false false false d b =
      first_strikes-unmet_when slot (would_stagger d b) (catches d) (struck d b) b _

  pub first_strikes-land :
      (slot : ℕ) (d : Dot F) (bs : List (Blow F)) → first_strikes slot (land d bs).1 ≡ 0
  unfolding land apply_blow
  first_strikes-land slot d [] = refl
  first_strikes-land slot d (b ∷ bs) =
      let l = meet b.parting (dodges d b) (blocks d b) d b in
      omega (
        arith,
        first_strikes-append slot (blow_events l) (land l.dot bs).1,
        first_strikes-meet slot b.parting (dodges d b) (blocks d b) d b,
        first_strikes-land slot l.dot bs,
      )

  landing-unmet_when :
      (staggers steadies : Bool) (d : Dot F) (b : Blow F) (result : Result)
      → count landing (blow_events (unmet_when staggers steadies d b result)) ≡ 1
  unfolding unmet_when
  landing-unmet_when false steadies d b result = refl
  landing-unmet_when true true d b result = refl
  landing-unmet_when true false d b result = refl

  landing-meet :
      (parts dodges blocks : Bool) (d : Dot F) (b : Blow F)
      → count landing (blow_events (meet parts dodges blocks d b)) ≡ 1
  unfolding meet unmet
  landing-meet true dodges blocks d b = refl
  landing-meet false true blocks d b = refl
  landing-meet false false true d b = refl
  landing-meet false false false d b =
      landing-unmet_when (would_stagger d b) (catches d) (struck d b) b _

  -- One result for each blow.
  pub landing-land : (d : Dot F) (bs : List (Blow F)) → count landing (land d bs).1 ≡ length bs
  unfolding land apply_blow
  landing-land d [] = refl
  landing-land d (b ∷ bs) =
      let l = meet b.parting (dodges d b) (blocks d b) d b in
      omega (
        arith,
        count-append landing (blow_events l) (land l.dot bs).1,
        landing-meet b.parting (dodges d b) (blocks d b) d b,
        landing-land l.dot bs,
      )

-- ===== src/Balance/Blows/Frame.antt =====
-- Blows leave the dot's kit and cooldowns alone.
use alzendor.Prelude.{◌≡◌, refl, ◌∙◌, Bool, true, false, List, [], ◌∷◌, Option, none, some, arith}
use alzendor.Real.{Real}
use alzendor.Balance.Dot.{Curse, Blow, Dot, Result}
use alzendor.Balance.Same.{kept}
use alzendor.Balance.Knock.{stagger, steady, catches}
use alzendor.Balance.Knock.Frame.{kept-add_debuff, kept-stagger}
use alzendor.Balance.Blows.{
  cursed, struck, would_stagger, unmet_when, unmet, meet, dodges, blocks, apply_blow, land,
}

module _ {F : Type 0} ⦃r : Real F⦄ where
  pub kept-cursed : (d : Dot F) (c : Option (Curse F)) → kept (cursed d c) ≡ kept d
  kept-cursed d none = refl
  kept-cursed d (some c) = kept-add_debuff d c.kind c.strength c.ms

  kept-struck : (d : Dot F) (b : Blow F) → kept (struck d b) ≡ kept d
  kept-struck d b = ground arith

  kept-unmet_when :
      (staggers steadies : Bool) (d : Dot F) (b : Blow F) (result : Result)
      → kept (unmet_when staggers steadies d b result).dot ≡ kept d
  unfolding unmet_when
  kept-unmet_when false steadies d b result = kept-cursed d b.debuff
  kept-unmet_when true true d b result = kept-cursed (steady d) b.debuff
  kept-unmet_when true false d b result =
      kept-cursed (stagger d b.angle) b.debuff ∙ kept-stagger d b.angle

  kept-meet :
      (parts dodges blocks : Bool) (d : Dot F) (b : Blow F)
      → kept (meet parts dodges blocks d b).dot ≡ kept d
  unfolding meet unmet
  kept-meet true dodges blocks d b = refl
  kept-meet false true blocks d b = refl
  kept-meet false false true d b = refl
  kept-meet false false false d b =
      kept-unmet_when (would_stagger d b) (catches d) (struck d b) b _ ∙ kept-struck d b

  pub kept-land : (d : Dot F) (bs : List (Blow F)) → kept (land d bs).0 ≡ kept d
  unfolding land apply_blow
  kept-land d [] = refl
  kept-land d (b ∷ bs) =
      kept-land (apply_blow d b).dot bs ∙ kept-meet b.parting (dodges d b) (blocks d b) d b

-- ===== src/Balance/Knock/Frame.antt =====
-- A debuff, a kick and a stagger leave the dot's kit and cooldowns alone.
use alzendor.Prelude.{String, ◌≡◌, refl, Option, none, some}
use alzendor.Real.{Real}
use alzendor.Balance.Dot.{bump, side, taps, Pattern, Dot}
use alzendor.Balance.Same.{kept, stance}
use alzendor.Balance.Knock.{add_debuff, apply_kick, stagger}

module _ {F : Type 0} ⦃r : Real F⦄ where
  pub kept-add_debuff :
      (d : Dot F) (kind : String) (strength ms : F) → kept (add_debuff d kind strength ms) ≡ kept d
  unfolding add_debuff
  kept-add_debuff d kind strength ms = refl

  pub kept-stagger : (d : Dot F) (angle : F) → kept (stagger d angle) ≡ kept d
  unfolding stagger
  kept-stagger d angle = refl

  pub kept-apply_kick :
      (d : Dot F) (kick : F) (way : Pattern) (angle : Option F)
      → kept (apply_kick d kick way angle).0 ≡ kept d
  unfolding apply_kick
  kept-apply_kick d kick side angle = refl
  kept-apply_kick d kick bump none = refl
  kept-apply_kick d kick bump (some angle) = refl
  kept-apply_kick d kick taps none = refl
  kept-apply_kick d kick taps (some angle) = refl

  pub stance-add_debuff :
      (d : Dot F) (kind : String) (strength ms : F)
      → stance (add_debuff d kind strength ms) ≡ stance d
  unfolding add_debuff
  stance-add_debuff d kind strength ms = refl

  pub stance-apply_kick :
      (d : Dot F) (kick : F) (way : Pattern) (angle : Option F)
      → stance (apply_kick d kick way angle).0 ≡ stance d
  unfolding apply_kick
  stance-apply_kick d kick side angle = refl
  stance-apply_kick d kick bump none = refl
  stance-apply_kick d kick bump (some angle) = refl
  stance-apply_kick d kick taps none = refl
  stance-apply_kick d kick taps (some angle) = refl

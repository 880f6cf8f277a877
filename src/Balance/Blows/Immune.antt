-- ===== src/Balance/Blows/Immune.antt =====
-- Blows do not stagger a dot that is immune to it.
use alzendor.Prelude.{
  ◌≡◌, refl, ◌∙◌, ap, Bool, true, false, List, [], ◌∷◌, Option, none, some, arith,
}
use alzendor.Prelude.Int.{is_zero}
use alzendor.Real.{Real}
use alzendor.Balance.Dot.{Curse, Blow, Dot}
use alzendor.Balance.Same.{Stance, stance}
use alzendor.Balance.Events.{staggers, staggers-append}
use alzendor.Balance.Knock.Frame.{stance-add_debuff}
use alzendor.Balance.Blows.{
  Landed, blow_events, cursed, struck, would_stagger, unmet_when, unmet, meet, dodges, blocks,
  apply_blow, land,
}

module _ {F : Type 0} ⦃r : Real F⦄ where
  -- A blow that left the stance alone and reported no stagger.
  record Harmless (d : Dot F) (l : Landed F) : Type 0 where
    same : stance l.dot ≡ stance d
    none_reported : staggers (blow_events l) ≡ 0

  stance-cursed : (d : Dot F) (c : Option (Curse F)) → stance (cursed d c) ≡ stance d
  stance-cursed d none = refl
  stance-cursed d (some c) = stance-add_debuff d c.kind c.strength c.ms

  stance-struck : (d : Dot F) (b : Blow F) → stance (struck d b) ≡ stance d
  stance-struck d b = ground arith

  would_stagger-immune :
      (d : Dot F) (b : Blow F) → is_zero d.immune ≡ false → would_stagger d b ≡ false
  would_stagger-immune d b h = ground arith

  Harmless-meet :
      (parts dodges blocks : Bool) (d : Dot F) (b : Blow F)
      → is_zero d.immune ≡ false
      → Harmless d (meet parts dodges blocks d b)
  unfolding meet unmet
  Harmless-meet true dodges blocks d b h = record { same = refl; none_reported = refl }
  Harmless-meet false true blocks d b h = record { same = refl; none_reported = refl }
  Harmless-meet false false true d b h = record { same = refl; none_reported = refl }
  Harmless-meet false false false d b h =
      rw (would_stagger-immune d b h, unmet_when)
        (unfold unmet_when in
          record {
            same = stance-cursed (struck d b) b.debuff ∙ stance-struck d b;
            none_reported = refl;
          })

  pub stance-land :
      (d : Dot F) (bs : List (Blow F))
      → is_zero d.immune ≡ false
      → (stance (land d bs).0 ≡ stance d) × (staggers (land d bs).1 ≡ 0)
  unfolding land apply_blow
  stance-land d [] h = (refl, refl)
  stance-land d (b ∷ bs) h =
      let l = meet b.parting (dodges d b) (blocks d b) d b in
      let one = Harmless-meet b.parting (dodges d b) (blocks d b) d b h in
      let rest = stance-land l.dot bs (ap (λ (s : Stance). is_zero s.immune) one.same ∙ h) in
      (
        rest.0 ∙ one.same,
        omega (arith, staggers-append (blow_events l) (land l.dot bs).1, one.none_reported, rest.1),
      )

-- ===== src/Balance/Strikes/View.antt =====
-- A view of the dot that kicks, debuffs, acts and bookkeeping leave alone is the same after the
-- acts, a buffered strike and the volleys.
use alzendor.Prelude.{
  ℕ, ◌≡◌, refl, ◌∙◌, Bool, true, false, Bool-cases, inl, inr, List, [], ◌∷◌, Option, none, some,
  String, Ensures, Ensures-some, Ensures-none, Ensures-bind,
}
use alzendor.Prelude.Int.{ℤ}
use alzendor.Real.{Real}
use alzendor.Balance.Dot.{
  Pattern, Curse, Gear, Pending, Volley, Dot, Act, dodge, block, unblock, Reason, Event,
}
use alzendor.Balance.Knock.{add_debuff, tier, apply_kick, strike_check}
use alzendor.Balance.Blows.{cursed}
use alzendor.Balance.Strikes.{
  act, act_all, braced, dodged, dodge_check, breath_after, cool_after, kicked, strike_with, strike,
  strike_found, hold_back, gives_up, checked, fire_pending, fire, Hit, hit_now, volley_when,
  one_volley, run_volleys, volleys,
}

-- What the view does not see.
pub record Blind {F : Type 0} ⦃r : Real F⦄ {X : Type 0} (view : Dot F → X) : Type 0 where
  pub kick :
      (d : Dot F) (kick : F) (way : Pattern) (angle : Option F)
      → view (apply_kick d kick way angle).0 ≡ view d
  pub debuff :
      (d : Dot F) (kind : String) (strength ms : F) → view (add_debuff d kind strength ms) ≡ view d
  pub pending : (d : Dot F) (p : Option Pending) → view (record d { pending = p }) ≡ view d
  pub volleys : (d : Dot F) (vs : List (Volley F)) → view (record d { volleys = vs }) ≡ view d
  pub timing :
      (d : Dot F) (breath : ℤ) (cool : ℕ → ℤ)
      → view (record d { breath = breath; cool = cool }) ≡ view d
  pub dodge :
      (d : Dot F) (invuln cd : ℤ)
      → view (record d { invuln = invuln; dodge_cd = cd; wobble_after = true }) ≡ view d
  pub block : (d : Dot F) → view (record d { blocking = true; block_n = d.n }) ≡ view d
  pub unblock : (d : Dot F) → view (record d { blocking = false }) ≡ view d

module _ {F : Type 0} ⦃r : Real F⦄ {X : Type 0} (view : Dot F → X) (blind : Blind view) where
  pub view-cursed : (d : Dot F) (c : Option (Curse F)) → view (cursed d c) ≡ view d
  view-cursed d none = refl
  view-cursed d (some c) = blind.debuff d c.kind c.strength c.ms

  view-dodged : (d : Dot F) (why : Option Reason) → view (dodged d why).0 ≡ view d
  view-dodged d none = blind.dodge d _ _
  view-dodged d (some why) = refl

  view-braced : (held up : Bool) (d : Dot F) → view (braced held up d).0 ≡ view d
  unfolding braced
  view-braced false up d = refl
  view-braced true true d = refl
  view-braced true false d = blind.block d

  view-act : (d : Dot F) (a : Act) → view (act d a).0 ≡ view d
  unfolding act
  view-act d (Act.strike slot target) = blind.pending d _
  view-act d dodge = view-dodged d (dodge_check d)
  view-act d block = view-braced d.shield d.blocking d
  view-act d unblock = blind.unblock d

  pub view-act_all : (d : Dot F) (as' : List Act) → view (act_all d as').0 ≡ view d
  unfolding act_all
  view-act_all d [] = refl
  view-act_all d (a ∷ as') = view-act_all (act d a).0 as' ∙ view-act d a

  view-hit_now : (d : Dot F) (v : Volley F) (gear : Gear F) → view (hit_now d v gear).dot ≡ view d
  unfolding hit_now
  view-hit_now d v gear = blind.kick d gear.kick gear.pattern_of _

  view-volley_when :
      (waits : Bool) (gear : Option (Gear F)) (d : Dot F) (v : Volley F)
      → Ensures (λ (h : Hit F). view h.dot ≡ view d) (volley_when waits gear d v)
  unfolding volley_when
  view-volley_when true gear d v = Ensures-some _ refl
  view-volley_when false none d v = Ensures-none
  view-volley_when false (some gear) d v = Ensures-some _ (view-hit_now d v gear)

  view-run_volleys :
      (d : Dot F) (vs : List (Volley F))
      → Ensures (λ (h : Hit F). view h.dot ≡ view d) (run_volleys d vs)
  unfolding run_volleys one_volley
  view-run_volleys d [] = Ensures-some _ refl
  view-run_volleys d (v ∷ vs) =
      Ensures-bind (one_volley d v) _ (view-volley_when _ (d.slots v.slot) d v) λ h kh.
        Ensures-bind (run_volleys h.dot vs) _ (view-run_volleys h.dot vs)
          λ rest kr. Ensures-some _ (kr ∙ kh)

  pub view-volleys :
      (d : Dot F) → Ensures (λ (x : Dot F × List Event). view x.0 ≡ view d) (volleys d)
  unfolding volleys
  view-volleys d =
      Ensures-bind (run_volleys d d.volleys) _ (view-run_volleys d d.volleys)
        λ h kh. Ensures-some _ (blind.volleys h.dot h.kept ∙ kh)

  view-strike_with :
      (d : Dot F) (slot : ℕ) (target : Option String) (gear : Gear F)
      → view (strike_with d slot target gear).0 ≡ view d
  unfolding strike_with
  view-strike_with d slot target gear =
      blind.volleys (cursed (kicked d slot gear).0 gear.debuff) _
      ∙ view-cursed (kicked d slot gear).0 gear.debuff
      ∙ blind.kick _ gear.kick gear.pattern_of none
      ∙ blind.timing d (breath_after d (tier d)) (cool_after d slot gear)

  view-strike_found :
      (gear : Option (Gear F)) (d : Dot F) (slot : ℕ) (target : Option String)
      → Ensures (λ (x : Dot F × List Event). view x.0 ≡ view d) (strike_found gear d slot target)
  unfolding strike_found
  view-strike_found none d slot target = Ensures-none
  view-strike_found (some gear) d slot target = Ensures-some _ (view-strike_with d slot target gear)

  view-hold_back : (d : Dot F) (p : Pending) (why : Reason) → view (hold_back d p why).0 ≡ view d
  unfolding hold_back
  view-hold_back d p why = elim (Bool-cases (gives_up why p.left)) [
    | inl drops ↦ rw drops (blind.pending d none)
    | inr keeps ↦ rw keeps (blind.pending d _)
  ]

  view-checked :
      (d : Dot F) (p : Pending) (why : Option Reason)
      → Ensures (λ (x : Dot F × List Event). view x.0 ≡ view d) (checked d p why)
  unfolding checked strike
  view-checked d p (some why) = Ensures-some _ (view-hold_back d p why)
  view-checked d p none = record {
    at = λ x e.
        (view-strike_found (d.slots p.slot) (record d { pending = none }) p.slot p.target).at x e
        ∙ blind.pending d none;
  }

  view-fire_pending :
      (d : Dot F) (p : Option Pending)
      → Ensures (λ (x : Dot F × List Event). view x.0 ≡ view d) (fire_pending d p)
  unfolding fire_pending
  view-fire_pending d none = Ensures-some _ refl
  view-fire_pending d (some p) = view-checked d p (strike_check d p.slot)

  pub view-fire : (d : Dot F) → Ensures (λ (x : Dot F × List Event). view x.0 ≡ view d) (fire d)
  unfolding fire
  view-fire d = view-fire_pending d d.pending

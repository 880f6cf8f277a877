-- ===== src/Balance/Strikes/Armed.antt =====
-- Volleys and strikes of a dot whose volleys are armed: every hit to come finds its gear, so
-- nothing raises a KeyError.
use alzendor.Prelude.{
  ℕ, ◌-◌, ◌≤◌, ◌≡◌, refl, ◌∙◌, ap, inl, inr, Bool-cases, List, [], ◌∷◌, ◌++◌, Option, some, arith,
  ltb, Succeeds, Succeeds-some, Succeeds-bind,
}
use alzendor.Real.{Real}
use alzendor.Balance.Dot.{Gear, Volley, Dot, Event}
use alzendor.Balance.Same.{Kept}
use alzendor.Balance.Events.{first_strikes, first_strikes-append}
use alzendor.Balance.Strikes.{Hit, hit_now, volley_when, one_volley, run_volleys, volleys}
use alzendor.Balance.Strikes.Frame.{kept-hit_now}

-- A volley's hit to come: not its first, and of gear that its slot holds.
pub record Armed {F : Type 0} (slots : ℕ → Option (Gear F)) (v : Volley F) : Type 0 where
  pub gear : Gear F
  pub found : slots v.slot ≡ some gear
  pub later : 2 ≤ v.hit
  pub within : v.hit ≤ gear.hits

abbrev pub AllArmed : {F : Type 0} → (ℕ → Option (Gear F)) → List (Volley F) → Type 0
AllArmed slots [] = Unit
AllArmed slots (v ∷ vs) = Armed slots v × AllArmed slots vs

module _ {F : Type 0} where
  pub AllArmed-append :
      (slots : ℕ → Option (Gear F)) (xs ys : List (Volley F))
      → AllArmed slots xs
      → AllArmed slots ys
      → AllArmed slots (xs ++ ys)
  AllArmed-append slots [] ys p q = q
  AllArmed-append slots (x ∷ xs) ys p q = (p.0, AllArmed-append slots xs ys p.1 q)

module _ {F : Type 0} ⦃r : Real F⦄ where
  -- What a pass over the volleys comes to: they stay armed, and no hit is a first one.
  record Passed (slots : ℕ → Option (Gear F)) (h : Hit F) : Type 0 where
    armed : AllArmed slots h.kept
    no_first : (slot : ℕ) → first_strikes slot h.events ≡ 0

  Passed-hit_now :
      (slots : ℕ → Option (Gear F)) (d : Dot F) (v : Volley F) (gear : Gear F)
      → slots v.slot ≡ some gear
      → 2 ≤ v.hit
      → Passed slots (hit_now d v gear)
  unfolding hit_now
  Passed-hit_now slots d v gear found later = elim (Bool-cases (ltb v.hit gear.hits)) [
    | inl more ↦ record {
      armed =
          rw more
            (record { gear = gear; found = found; later = omega arith; within = ground arith }, tt);
      no_first = λ slot. ground arith;
    }
    | inr last ↦ record { armed = rw last tt; no_first = λ slot. ground arith }
  ]

  Passed-one_volley :
      (slots : ℕ → Option (Gear F)) (d : Dot F) (v : Volley F)
      → d.slots ≡ slots
      → Armed slots v
      → Succeeds (λ (h : Hit F). (h.dot.slots ≡ slots) × Passed slots h) (one_volley d v)
  unfolding one_volley volley_when
  Passed-one_volley slots d v same a = elim (Bool-cases (ltb 0 (v.wait - 1))) [
    | inl waits ↦ rw waits (
        Succeeds-some _ (
          same,
          record {
            armed =
                (record { gear = a.gear; found = a.found; later = a.later; within = a.within }, tt);
            no_first = λ slot. refl;
          },
        ))
    | inr due ↦
        rw (due, volley_when)
          (let there : d.slots v.slot ≡ some a.gear = rw same a.found in
            rw (there, volley_when)
              (Succeeds-some _ (
                ap (λ (k : Kept F). k.arms.kit.slots) (kept-hit_now d v a.gear) ∙ same,
                Passed-hit_now slots d v a.gear a.found a.later,
              )))
  ]

  Passed-run_volleys :
      (slots : ℕ → Option (Gear F)) (d : Dot F) (vs : List (Volley F))
      → d.slots ≡ slots
      → AllArmed slots vs
      → Succeeds (Passed slots) (run_volleys d vs)
  unfolding run_volleys
  Passed-run_volleys slots d [] same a =
      Succeeds-some _ (record { armed = tt; no_first = λ slot. refl })
  Passed-run_volleys slots d (v ∷ vs) same a =
      Succeeds-bind (one_volley d v) _ (Passed-one_volley slots d v same a.0) λ h (same', p).
        Succeeds-bind (run_volleys h.dot vs) _ (Passed-run_volleys slots h.dot vs same' a.1)
          λ rest q. Succeeds-some _ (record {
            armed = AllArmed-append slots h.kept rest.kept p.armed q.armed;
            no_first = λ slot. omega (
              arith,
              first_strikes-append slot h.events rest.events,
              p.no_first slot,
              q.no_first slot,
            );
          })

  -- What `_volleys` comes to.
  pub record VolleysDone (d : Dot F) (x : Dot F × List Event) : Type 0 where
    pub armed : AllArmed d.slots x.0.volleys
    pub no_first : (slot : ℕ) → first_strikes slot x.1 ≡ 0

  pub VolleysDone-volleys :
      (d : Dot F) → AllArmed d.slots d.volleys → Succeeds (VolleysDone d) (volleys d)
  unfolding volleys
  VolleysDone-volleys d a =
      Succeeds-bind (run_volleys d d.volleys) _ (Passed-run_volleys d.slots d d.volleys refl a)
        λ h p. Succeeds-some _ (record { armed = p.armed; no_first = p.no_first })

-- ===== src/Balance/Strikes/Calm.antt =====
-- Acts, strikes and volleys report neither a stagger nor a blow.
use alzendor.Prelude.{
  ℕ, ◌≡◌, refl, Bool, true, false, Bool-cases, inl, inr, List, [], ◌∷◌, Option, none, some, String,
  arith, Ensures, Ensures-some, Ensures-none, Ensures-bind,
}
use alzendor.Real.{Real}
use alzendor.Balance.Dot.{Gear, Pending, Volley, Dot, Act, dodge, block, unblock, Reason, Event}
use alzendor.Balance.Events.{Rare, count, count-append}
use alzendor.Balance.Knock.{strike_check}
use alzendor.Balance.Strikes.{
  act, act_all, braced, dodged, dodge_check, strike_with, strike, strike_found, hold_back, gives_up,
  checked, fire_pending, fire, Hit, hit_now, volley_when, one_volley, run_volleys, volleys,
}

module _ {F : Type 0} ⦃r : Real F⦄ (c : Rare) where
  count-dodged : (d : Dot F) (why : Option Reason) → count c (dodged d why).1 ≡ 0
  count-dodged d none = refl
  count-dodged d (some why) = refl

  count-braced : (held up : Bool) (d : Dot F) → count c (braced held up d).1 ≡ 0
  unfolding braced
  count-braced false up d = refl
  count-braced true true d = refl
  count-braced true false d = refl

  count-act : (d : Dot F) (a : Act) → count c (act d a).1 ≡ 0
  unfolding act
  count-act d (Act.strike slot target) = refl
  count-act d dodge = count-dodged d (dodge_check d)
  count-act d block = count-braced d.shield d.blocking d
  count-act d unblock = refl

  pub count-act_all : (d : Dot F) (as' : List Act) → count c (act_all d as').1 ≡ 0
  unfolding act_all
  count-act_all d [] = refl
  count-act_all d (a ∷ as') = omega (
    arith,
    count-append c (act d a).1 (act_all (act d a).0 as').1,
    count-act d a,
    count-act_all (act d a).0 as',
  )

  count-volley_when :
      (waits : Bool) (gear : Option (Gear F)) (d : Dot F) (v : Volley F)
      → Ensures (λ (h : Hit F). count c h.events ≡ 0) (volley_when waits gear d v)
  unfolding volley_when hit_now
  count-volley_when true gear d v = Ensures-some _ refl
  count-volley_when false none d v = Ensures-none
  count-volley_when false (some gear) d v = Ensures-some _ refl

  count-run_volleys :
      (d : Dot F) (vs : List (Volley F))
      → Ensures (λ (h : Hit F). count c h.events ≡ 0) (run_volleys d vs)
  unfolding run_volleys one_volley
  count-run_volleys d [] = Ensures-some _ refl
  count-run_volleys d (v ∷ vs) =
      Ensures-bind (one_volley d v) _ (count-volley_when _ (d.slots v.slot) d v) λ h kh.
        Ensures-bind (run_volleys h.dot vs) _ (count-run_volleys h.dot vs)
          λ rest kr. Ensures-some _ (omega (arith, count-append c h.events rest.events))

  pub count-volleys :
      (d : Dot F) → Ensures (λ (x : Dot F × List Event). count c x.1 ≡ 0) (volleys d)
  unfolding volleys
  count-volleys d =
      Ensures-bind (run_volleys d d.volleys) _ (count-run_volleys d d.volleys)
        λ h kh. Ensures-some _ kh

  count-strike_found :
      (gear : Option (Gear F)) (d : Dot F) (slot : ℕ) (target : Option String)
      → Ensures (λ (x : Dot F × List Event). count c x.1 ≡ 0) (strike_found gear d slot target)
  unfolding strike_found strike_with
  count-strike_found none d slot target = Ensures-none
  count-strike_found (some gear) d slot target = Ensures-some _ refl

  count-hold_back : (d : Dot F) (p : Pending) (why : Reason) → count c (hold_back d p why).1 ≡ 0
  unfolding hold_back
  count-hold_back d p why = elim (Bool-cases (gives_up why p.left)) [
    | inl drops ↦ rw drops
    | inr keeps ↦ rw keeps
  ]

  count-checked :
      (d : Dot F) (p : Pending) (why : Option Reason)
      → Ensures (λ (x : Dot F × List Event). count c x.1 ≡ 0) (checked d p why)
  unfolding checked strike
  count-checked d p (some why) = Ensures-some _ (count-hold_back d p why)
  count-checked d p none =
      count-strike_found (d.slots p.slot) (record d { pending = none }) p.slot p.target

  count-fire_pending :
      (d : Dot F) (p : Option Pending)
      → Ensures (λ (x : Dot F × List Event). count c x.1 ≡ 0) (fire_pending d p)
  unfolding fire_pending
  count-fire_pending d none = Ensures-some _ refl
  count-fire_pending d (some p) = count-checked d p (strike_check d p.slot)

  pub count-fire : (d : Dot F) → Ensures (λ (x : Dot F × List Event). count c x.1 ≡ 0) (fire d)
  unfolding fire
  count-fire d = count-fire_pending d d.pending

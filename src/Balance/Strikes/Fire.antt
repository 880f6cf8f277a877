-- ===== src/Balance/Strikes/Fire.antt =====
-- What a buffered strike comes to, and that acts alone make no strike.
use alzendor.Prelude.{
  ℕ, ◌≤◌, ◌<◌, ◌≡◌, refl, sym, subst, ◌∙◌, ap, inl, inr, Bool-cases, List, [], ◌∷◌, Option, none,
  some, String, arith, ltb, Succeeds, Succeeds-some,
}
use alzendor.Prelude.Int.{ℤ, pos_part}
use alzendor.Real.{Real}
use alzendor.Balance.Rules.{steps}
use alzendor.Balance.Dot.{Gear, Pending, Dot, Act, dodge, block, unblock, Reason, Event}
use alzendor.Balance.Same.{Kept, quiet}
use alzendor.Balance.Events.{first_strikes, first_strikes-append}
use alzendor.Balance.Knock.{strike_check}
use alzendor.Balance.Knock.Check.{Ready, Ready-strike_check}
use alzendor.Balance.Strikes.{
  act, act_all, dodged, dodge_check, cool_after, more_hits, strike_with, strike, strike_found,
  hold_back, gives_up, checked, fire_pending, fire,
}
use alzendor.Balance.Strikes.Frame.{quiet-strike_with, volleys-strike_with, cool_after-le}
use alzendor.Balance.Strikes.Armed.{AllArmed, AllArmed-append}

module _ {F : Type 0} ⦃r : Real F⦄ where
  first_strikes-dodged :
      (slot : ℕ) (d : Dot F) (why : Option Reason) → first_strikes slot (dodged d why).1 ≡ 0
  first_strikes-dodged slot d none = refl
  first_strikes-dodged slot d (some why) = refl

  first_strikes-act : (slot : ℕ) (d : Dot F) (a : Act) → first_strikes slot (act d a).1 ≡ 0
  unfolding act
  first_strikes-act slot d (Act.strike k target) = refl
  first_strikes-act slot d dodge = first_strikes-dodged slot d (dodge_check d)
  first_strikes-act slot d block = ground arith
  first_strikes-act slot d unblock = refl

  pub first_strikes-act_all :
      (slot : ℕ) (d : Dot F) (as' : List Act) → first_strikes slot (act_all d as').1 ≡ 0
  unfolding act_all
  first_strikes-act_all slot d [] = refl
  first_strikes-act_all slot d (a ∷ as') = omega (
    arith,
    first_strikes-append slot (act d a).1 (act_all (act d a).0 as').1,
    first_strikes-act slot d a,
    first_strikes-act_all slot (act d a).0 as',
  )

  -- Of a buffered strike: what it leaves alone, that it lets no cooldown down, that the volleys
  -- stay armed, and that what strikes was ready and waits for its cooldown now.
  pub record Fired (d : Dot F) (x : Dot F × List Event) : Type 0 where
    pub same : quiet x.0 ≡ quiet (record d { cool = x.0.cool })
    pub cool : (k : ℕ) → pos_part (d.cool k) ≤ pos_part (x.0.cool k)
    pub armed : AllArmed d.slots x.0.volleys
    pub ready : (k : ℕ) → 0 < first_strikes k x.1 → Ready d k
    pub waits :
        (k : ℕ) (gear : Gear F)
        → 0 < first_strikes k x.1
        → d.slots k ≡ some gear
        → pos_part (steps gear.cooldown) ≤ pos_part (x.0.cool k)

  Fired-hold_back :
      (d : Dot F) (p : Pending) (why : Reason)
      → AllArmed d.slots d.volleys
      → Fired d (hold_back d p why)
  unfolding hold_back
  Fired-hold_back d p why a = elim (Bool-cases (gives_up why p.left)) [
    | inl drops ↦ rw drops (record {
      same = refl;
      cool = λ k. omega arith;
      armed = a;
      ready = λ k h. absurd (omega arith);
      waits = λ k g h e. absurd (omega arith);
    })
    | inr keeps ↦ rw keeps (record {
      same = refl;
      cool = λ k. omega arith;
      armed = a;
      ready = λ k h. absurd (omega arith);
      waits = λ k g h e. absurd (omega arith);
    })
  ]

  AllArmed-more_hits :
      (d : Dot F) (slot : ℕ) (target : Option String) (gear : Gear F)
      → d.slots slot ≡ some gear
      → AllArmed d.slots (more_hits d slot target gear)
  AllArmed-more_hits d slot target gear found = elim (Bool-cases (ltb 1 gear.hits)) [
    | inl more ↦
        rw more
          (record { gear = gear; found = found; later = omega arith; within = ground arith }, tt)
    | inr one ↦ rw one tt
  ]

  struck_slot :
      (d : Dot F) (slot : ℕ) (target : Option String) (gear : Gear F) (k : ℕ)
      → 0 < first_strikes k (strike_with d slot target gear).1
      → slot ≡ k
  unfolding strike_with
  struck_slot d slot target gear k h = ground arith

  -- The struck slot waits its own cooldown at least.
  le-cool_after :
      (d : Dot F) (slot : ℕ) (gear : Gear F) (k : ℕ)
      → slot ≡ k
      → pos_part (steps gear.cooldown) ≤ pos_part (cool_after d slot gear k)
  le-cool_after d slot gear k at_slot = ground arith

  Fired-strike_with :
      (d : Dot F) (slot : ℕ) (target : Option String) (ready : Ready d slot)
      → AllArmed d.slots d.volleys
      → Fired d (strike_with d slot target ready.gear)
  Fired-strike_with d slot target ready a =
      let x = strike_with d slot target ready.gear in
      let same = quiet-strike_with d slot target ready.gear in
      let cools : x.0.cool ≡ cool_after d slot ready.gear = ap (λ (k : Kept F). k.arms.cool) same in
      record {
        same = same ∙ ap (λ (c : ℕ → ℤ). quiet (record d { cool = c })) (sym cools);
        cool = λ k. rw cools (cool_after-le d slot ready.gear k ready.cooled);
        armed = rw volleys-strike_with (
            AllArmed-append d.slots d.volleys _ a
              (AllArmed-more_hits d slot target ready.gear ready.armed));
        ready = λ k h. subst (Ready d) (struck_slot d slot target ready.gear k h) ready;
        waits = λ k gear h found.
            let at_slot = struck_slot d slot target ready.gear k h in
            let same_gear : some gear ≡ some ready.gear = cc (ready.armed, ap d.slots at_slot) in
            let g : gear ≡ ready.gear = cc in
            rw (cools, g) (le-cool_after d slot ready.gear k at_slot);
      }

  -- The strike goes by the dot whose buffer was cleared, and its buffer decides nothing.
  Fired-unbuffered :
      (d : Dot F) (x : Dot F × List Event) → Fired (record d { pending = none }) x → Fired d x
  Fired-unbuffered d x f = record {
    same = f.same;
    cool = f.cool;
    armed = f.armed;
    ready = λ k h.
        let q = f.ready k h in
        record {
          steady = q.steady;
          open_guard = q.open_guard;
          central = q.central;
          cooled = q.cooled;
          gear = q.gear;
          armed = q.armed;
        };
    waits = f.waits;
  }

  Fired-checked :
      (d : Dot F) (p : Pending) (why : Option Reason)
      → strike_check d p.slot ≡ why
      → AllArmed d.slots d.volleys
      → Succeeds (Fired d) (checked d p why)
  unfolding checked strike strike_found
  Fired-checked d p (some why) e a = Succeeds-some _ (Fired-hold_back d p why a)
  Fired-checked d p none e a =
      let q = Ready-strike_check d p.slot e in
      let d' = record d { pending = none } in
      let ready : Ready d' p.slot = record {
        steady = q.steady;
        open_guard = q.open_guard;
        central = q.central;
        cooled = q.cooled;
        gear = q.gear;
        armed = q.armed;
      } in
      rw (q.armed, strike_found)
        (Succeeds-some _ (Fired-unbuffered d _ (Fired-strike_with d' p.slot p.target ready a)))

  Fired-fire_pending :
      (d : Dot F) (p : Option Pending)
      → AllArmed d.slots d.volleys
      → Succeeds (Fired d) (fire_pending d p)
  unfolding fire_pending
  Fired-fire_pending d (some p) a = Fired-checked d p (strike_check d p.slot) refl a
  Fired-fire_pending d none a = Succeeds-some _ (record {
    same = refl;
    cool = λ k. omega arith;
    armed = a;
    ready = λ k h. absurd (omega arith);
    waits = λ k g h e. absurd (omega arith);
  })

  -- A buffered strike of a dot whose volleys are armed raises nothing.
  pub Fired-fire : (d : Dot F) → AllArmed d.slots d.volleys → Succeeds (Fired d) (fire d)
  unfolding fire
  Fired-fire d a = Fired-fire_pending d d.pending a

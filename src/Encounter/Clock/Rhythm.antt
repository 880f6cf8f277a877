-- ===== src/Encounter/Clock/Rhythm.antt =====
-- The blows that one attack lands, over any number of steps.
use alzendor.Prelude.{
  ℕ, zero, suc, ◌+◌, ◌*◌, ◌≤◌, ◌<◌, ◌≡◌, ap, ◌∙◌, String, Bool-cases, inl, inr, ◌++◌, Option, none,
  some, arith, leb, length, length-append,
}
use alzendor.Real.{Real}
use alzendor.Encounter.Data.{Attack}
use alzendor.Encounter.Clock.{
  Party, Struck, aimed, incoming, announce, land_at, attack_step, attack_steps,
}
use alzendor.Encounter.Clock.Schedule.{OnTime, OnTime-attack_step}

module _ {F : Type 0} ⦃r : Real F⦄ where
  -- Each blow of the attack, up to step n, put off its landing by a period.
  record InRhythm (n : ℕ) (a : Attack F) (s : Struck F) : Type 0 where
    same_period : s.attack.period ≡ a.period
    soon : a.land ≤ n + a.period → s.attack.land ≤ n + a.period
    blows : s.attack.land ≡ a.land + length s.landed * a.period

  aimed_at_someone :
      (party : Party) (t : Option String) (pid nid : String) (a : Attack F)
      → party.first ≡ some pid
      → length (incoming nid a (aimed party t)) ≡ 1
  aimed_at_someone party none pid nid a h = ground arith
  aimed_at_someone party (some other) pid nid a h = ground arith

  InRhythm-land_at :
      (party : Party) (n : ℕ) (pid nid : String) (a b : Attack F) (rolled : ℕ)
      → party.first ≡ some pid
      → b.land ≡ a.land
      → b.period ≡ a.period
      → InRhythm n a (land_at party n nid b rolled)
  unfolding land_at
  InRhythm-land_at party n pid nid a b rolled h land period = elim (Bool-cases (leb b.land n)) [
    | inl lands ↦
        let due : b.land ≤ n = ground arith in
        rw lands (record {
          same_period = period;
          soon = λ before. omega (arith, land, period, due);
          blows =
              let one : length (incoming nid b (aimed party b.target)) ≡ 1 =
                aimed_at_someone party b.target pid nid b h in
              rw one (omega (arith, land, period));
        })
    | inr waits ↦ rw waits (record {
      same_period = period;
      soon = λ before. omega (arith, land, before);
      blows = omega (arith, land);
    })
  ]

  InRhythm-attack_step :
      (rolls : ℕ → F) (party : Party) (rolled n : ℕ) (pid nid : String) (a : Attack F)
      → party.first ≡ some pid
      → InRhythm n a (attack_step rolls party rolled n nid a)
  unfolding attack_step
  InRhythm-attack_step rolls party rolled n pid nid a h =
      let (b, taken) = announce rolls party rolled n a in
      InRhythm-land_at party n pid nid a b taken h (ground arith) (ground arith)

  -- While someone is in the fight and nothing else moves it, an attack that is still to land, within
  -- a period, lands in k steps exactly the blows that put its landing after the k steps, and no
  -- more than a period after them: each blow puts it off by a period.
  pub attack_rhythm :
      (k n rolled : ℕ) (rolls : ℕ → F) (party : Party) (pid nid : String) (a : Attack F)
      → party.first ≡ some pid
      → OnTime n a
      → a.land ≤ n + a.period
      → let s = attack_steps rolls party k rolled n nid a in
        (s.attack.land ≡ a.land + length s.landed * a.period)
        × (n + k < s.attack.land)
        × (s.attack.land ≤ n + k + a.period)
  unfolding attack_steps
  attack_rhythm zero n rolled rolls party pid nid a h on soon =
      (omega arith, omega (arith, on.to_land), omega arith)
  attack_rhythm (suc k) n rolled rolls party pid nid a h on soon =
      let s = attack_step rolls party rolled (suc n) nid a in
      let one = InRhythm-attack_step rolls party rolled (suc n) pid nid a h in
      let period : s.attack.period ≡ a.period = one.same_period in
      let (blows, later, within) =
        attack_rhythm k (suc n) s.rolled rolls party pid nid s.attack h
          (OnTime-attack_step rolls party rolled n nid a on)
          (omega (arith, one.soon (omega (arith, soon)), period)) in
      let rest = attack_steps rolls party k s.rolled (suc n) nid s.attack in
      let blows' : rest.attack.land ≡ s.attack.land + length rest.landed * a.period =
        blows ∙ ap (λ p. s.attack.land + length rest.landed * p) period in
      let both : length (s.landed ++ rest.landed) * a.period
          ≡ length s.landed * a.period + length rest.landed * a.period =
        ap (λ m. m * a.period) (length-append s.landed rest.landed) ∙ omega arith in
      (omega (arith, blows', one.blows, both), omega (arith, later), omega (arith, within, period))

-- ===== src/Encounter/Clock/Schedule.antt =====
-- Every attack's next landing is ahead of the clock.
use native.Mathlib.Nat.{div-add-mod, mod-lt}
use alzendor.Prelude.{
  ℕ, suc, ◌+◌, ◌-◌, ◌*◌, ◌%◌, ◌<◌, ◌≤◌, ◌≡◌, refl, subst, String, true, false, ◌&&◌, Bool-cases,
  inl, inr, List, [], ◌∷◌, none, arith, leb, ltb, str_eq,
}
use alzendor.Prelude.Int.{ℤ}
use alzendor.Real.{Real}
use alzendor.Encounter.Data.{Attack, Npc}
use alzendor.Encounter.Clock.{
  Party, attack_step, attacks_step, npcs_step, ceil_div, skip_attack, skip_npcs, map_attacks,
  on_attacks, map_npcs, reel_attack, boss_reels, delay_attack, on_npc, Clock, Turn, ahead, skip,
  reels, delayed, turn, turns,
}

-- At step n, an attack that comes round, and is still to land.
pub record OnTime {F : Type 0} (n : ℕ) (a : Attack F) : Type 0 where
  pub comes_round : 0 < a.period
  pub to_land : n < a.land

abbrev pub AttacksOnTime : {F : Type 0} → ℕ → List (Attack F) → Type 0
AttacksOnTime n [] = Unit
AttacksOnTime n (a ∷ rest) = OnTime n a × AttacksOnTime n rest

abbrev pub AllOnTime : {F : Type 0} → ℕ → List (Npc F) → Type 0
AllOnTime n [] = Unit
AllOnTime n (npc ∷ rest) = AttacksOnTime n npc.attacks × AllOnTime n rest

abbrev pub IsOnTime : {F : Type 0} → Clock F → Type 0
IsOnTime c = AllOnTime c.step c.npcs

ceil_div_bounds : (a b : ℕ) → 0 < b → (a ≤ b * ceil_div a b) × (b * ceil_div a b < a + b)
ceil_div_bounds a b h =
    let whole = div-add-mod (a + (b - 1)) b in
    let part : (a + (b - 1)) % b < b = mod-lt (a + (b - 1)) h in (omega arith, omega arith)

module _ {F : Type 0} where
  -- An attack that is due by the step that the clock skips to, and that comes round: it lands next
  -- after that step, within a period, a whole number of periods later than it would have, and is
  -- to be announced anew. One that is not due is left as it is.
  pub skip_attack_lem :
      (target : ℕ) (a : Attack F)
      → 0 < a.period
      → (a.land ≤ target
          → (target < (skip_attack target a).land)
            × ((skip_attack target a).land ≤ target + a.period)
            × ((k : ℕ) × ((skip_attack target a).land ≡ a.land + a.period * k))
            × ((skip_attack target a).angle ≡ none))
        × (target < a.land → skip_attack target a ≡ a)
  unfolding skip_attack
  skip_attack_lem target a h =
      let (least, most) = ceil_div_bounds (target + 1 - a.land) a.period h in
      (
        λ due.
            let skips : (leb a.land target && ltb 0 a.period) ≡ true = ground arith in
            rw skips (
              omega (arith, least),
              omega (arith, most),
              (ceil_div (target + 1 - a.land) a.period, refl),
              refl,
            ),
        λ later.
            let stays : (leb a.land target && ltb 0 a.period) ≡ false = ground arith in rw stays,
      )

  period-skip_attack : (target : ℕ) (a : Attack F) → (skip_attack target a).period ≡ a.period
  unfolding skip_attack
  period-skip_attack target a = ground arith

  OnTime-skip_attack :
      (n more : ℕ) (a : Attack F) → OnTime n a → OnTime (n + more) (skip_attack (n + more) a)
  OnTime-skip_attack n more a h =
      let (next, stays) = skip_attack_lem (n + more) a h.comes_round in
      let same_period = period-skip_attack (n + more) a in
      elim (Bool-cases (leb a.land (n + more))) [
        | inl due ↦ record {
          comes_round = omega (arith, same_period);
          to_land = (next (ground arith)).0;
        }
        | inr later ↦ record {
          comes_round = omega (arith, same_period);
          to_land = rw (stays (ground arith)) (ground arith);
        }
      ]

  OnTime-reel_attack : (n : ℕ) (t : ℤ) (a : Attack F) → OnTime n a → OnTime n (reel_attack n t a)
  unfolding reel_attack
  OnTime-reel_attack n t a h = record { comes_round = ground arith; to_land = ground arith }

  OnTime-delay_attack : (n more : ℕ) (a : Attack F) → OnTime n a → OnTime n (delay_attack more a)
  OnTime-delay_attack n more a h = record {
    comes_round = h.comes_round;
    to_land = omega (arith, h.to_land);
  }

  AttacksOnTime-map :
      (n m : ℕ) (f : Attack F → Attack F)
      → ((a : Attack F) → OnTime n a → OnTime m (f a))
      → (xs : List (Attack F)) → AttacksOnTime n xs
      → AttacksOnTime m (map_attacks f xs)
  AttacksOnTime-map n m f p [] h = tt
  AttacksOnTime-map n m f p (a ∷ rest) h = (p a h.0, AttacksOnTime-map n m f p rest h.1)

  AllOnTime-map :
      (n m : ℕ) (f : Npc F → Npc F)
      → ((npc : Npc F) → AttacksOnTime n npc.attacks → AttacksOnTime m (f npc).attacks)
      → (xs : List (Npc F)) → AllOnTime n xs
      → AllOnTime m (map_npcs f xs)
  AllOnTime-map n m f p [] h = tt
  AllOnTime-map n m f p (npc ∷ rest) h = (p npc h.0, AllOnTime-map n m f p rest h.1)

module _ {F : Type 0} where
  pub AllOnTime-skip_npcs :
      (n target : ℕ) (npcs : List (Npc F))
      → n ≤ target
      → AllOnTime n npcs
      → AllOnTime target (skip_npcs target npcs)
  AllOnTime-skip_npcs n target npcs h on =
      let e : n + (target - n) ≡ target = omega (arith, h) in
      subst (λ m. AllOnTime m (skip_npcs m npcs)) e
        (AllOnTime-map n (n + (target - n)) (on_attacks (skip_attack (n + (target - n))))
          (λ npc.
            AttacksOnTime-map n (n + (target - n)) (skip_attack (n + (target - n)))
              (OnTime-skip_attack n (target - n)) npc.attacks)
          npcs on)

module _ {F : Type 0} ⦃r : Real F⦄ where
  AttacksOnTime-on_npc :
      (n : ℕ) (nid : String) (f : Npc F → Npc F) (npc : Npc F)
      → (AttacksOnTime n npc.attacks → AttacksOnTime n (f npc).attacks)
      → AttacksOnTime n npc.attacks
      → AttacksOnTime n (on_npc nid f npc).attacks
  AttacksOnTime-on_npc n nid f npc p h = elim (Bool-cases (str_eq npc.nid nid)) [
    | inl this ↦ rw this (p h)
    | inr other ↦ rw other h
  ]

  pub OnTime-attack_step :
      (rolls : ℕ → F) (party : Party) (rolled n : ℕ) (nid : String) (a : Attack F)
      → OnTime n a
      → OnTime (suc n) (attack_step rolls party rolled (suc n) nid a).attack
  unfolding attack_step
  OnTime-attack_step rolls party rolled n nid a h = record {
    comes_round = ground arith;
    to_land = ground arith;
  }

  AttacksOnTime-attacks_step :
      (rolls : ℕ → F) (party : Party) (rolled n : ℕ) (nid : String) (xs : List (Attack F))
      → AttacksOnTime n xs
      → AttacksOnTime (suc n) (attacks_step rolls party rolled (suc n) nid xs).after
  unfolding attacks_step
  AttacksOnTime-attacks_step rolls party rolled n nid [] h = tt
  AttacksOnTime-attacks_step rolls party rolled n nid (a ∷ rest) h = (
    OnTime-attack_step rolls party rolled n nid a h.0,
    AttacksOnTime-attacks_step rolls party (attack_step rolls party rolled (suc n) nid a).rolled n
        nid rest h.1,
  )

  pub AllOnTime-npcs_step :
      (rolls : ℕ → F) (party : Party) (rolled n : ℕ) (xs : List (Npc F))
      → AllOnTime n xs
      → AllOnTime (suc n) (npcs_step rolls party rolled (suc n) xs).after
  unfolding npcs_step
  AllOnTime-npcs_step rolls party rolled n [] h = tt
  AllOnTime-npcs_step rolls party rolled n (npc ∷ rest) h = (
    AttacksOnTime-attacks_step rolls party rolled n npc.nid npc.attacks h.0,
    AllOnTime-npcs_step rolls party
        (attacks_step rolls party rolled (suc n) npc.nid npc.attacks).rolled n rest h.1,
  )

  IsOnTime-turn :
      (rolls : ℕ → F) (c : Clock F) (t : Turn F) → IsOnTime c → IsOnTime (turn rolls c t)
  unfolding turn
  IsOnTime-turn rolls c (ahead party) h = AllOnTime-npcs_step rolls party c.rolled c.step c.npcs h
  IsOnTime-turn rolls c (skip more) h =
      AllOnTime-map c.step (c.step + more) (on_attacks (skip_attack (c.step + more)))
        (λ npc.
          AttacksOnTime-map c.step (c.step + more) (skip_attack (c.step + more))
            (OnTime-skip_attack c.step more) npc.attacks)
        c.npcs h
  IsOnTime-turn rolls c (reels nid boss) h =
      AllOnTime-map c.step c.step (on_npc nid (boss_reels c.step boss))
        (λ npc. AttacksOnTime-on_npc c.step nid (boss_reels c.step boss) npc (
          AttacksOnTime-map c.step c.step (reel_attack c.step boss.staggered)
            (OnTime-reel_attack c.step boss.staggered) npc.attacks))
        c.npcs h
  IsOnTime-turn rolls c (delayed nid n) h =
      AllOnTime-map c.step c.step (on_npc nid (on_attacks (delay_attack n)))
        (λ npc. AttacksOnTime-on_npc c.step nid (on_attacks (delay_attack n)) npc (
          AttacksOnTime-map c.step c.step (delay_attack n) (OnTime-delay_attack c.step n)
            npc.attacks))
        c.npcs h

  -- Where every attack comes round and its next landing is ahead of the clock, that is so after
  -- any steps, skips ahead, bosses that start to reel and delays by strikes, in any order: no
  -- attack is ever overdue, so none lands twice to catch up.
  pub turns-IsOnTime :
      (rolls : ℕ → F) (c : Clock F) (ts : List (Turn F)) → IsOnTime c → IsOnTime (turns rolls c ts)
  unfolding turns
  turns-IsOnTime rolls c [] h = h
  turns-IsOnTime rolls c (t ∷ ts) h =
      turns-IsOnTime rolls (turn rolls c t) ts (IsOnTime-turn rolls c t h)

-- ===== src/Encounter/Clock.antt =====
-- The attack clock: the first part of `Owner._run_step`, `_skip_to`, `_boss_reels`, and the delay
-- of a strike that staggers an NPC (in `_call`), of encounter.py.
pub mod Schedule
pub mod Rhythm
use text.Mathlib.Text.{◌==◌ as str_eq}
use alzendor.Prelude.{
  ℕ, zero, suc, ◌+◌, ◌-◌, ◌*◌, ◌/◌, String, Bool, true, false, ◌&&◌, Option, none, some, List, [],
  ◌∷◌, ◌++◌, leb, ltb, if◌then◌else◌,
}
use alzendor.Prelude.Int.{ℤ, pos, pos_part, neg_part, leb_ℤ, at_least_one}
use alzendor.Real.{Real, ◌*F◌, int}
use alzendor.Balance.Rules.{Rules, steps, tau}
use alzendor.Balance.Dot.{Blow}
use alzendor.Balance.Boss.{Boss}
use alzendor.Encounter.Data.{AttackInfo, Attack, Npc, Incoming}

-- Waiting to be announced again: `a.angle = a.target = None`.
abbrev pub unannounced : {F : Type 0} → Attack F → ℕ → Attack F
unannounced a land = record a { land = land; angle = none; target = none }

-- Whether an attack is to be announced at step n: `n >= a.land - a.warn`.
abbrev pub is_waiting : {A : Type 0} → Option A → Bool
is_waiting none = true
is_waiting (some x) = false

abbrev pub warns : {F : Type 0} → ℕ → Attack F → Bool
warns n a = is_waiting a.angle && leb (a.land + neg_part a.warn) (n + pos_part a.warn)

-- What the players are to the attacks: who joined first, and who is here.
pub record Party : Type 0 where
  pub first : Option String
  pub here : String → Bool

-- Who an attack lands on.
abbrev pub aimed : Party → Option String → Option String
aimed party none = party.first
aimed party (some pid) = if party.here pid then some pid else party.first

-- One attack in one step: itself after it, the draws taken, and the blow that landed.
pub record Struck (F : Type 0) : Type 0 where
  pub attack : Attack F
  pub rolled : ℕ
  pub landed : List (Incoming F)

-- All attacks of an NPC, or all NPCs, in one step.
pub record Clocked (F A : Type 0) : Type 0 where
  pub after : A
  pub rolled : ℕ
  pub landed : List (Incoming F)

-- a / b, rounded up.
abbrev ceil_div : ℕ → ℕ → ℕ
ceil_div a b = (a + (b - 1)) / b

module _ {F : Type 0} ⦃r : Real F⦄ where
  abbrev direction : Option F → F
  direction none = int 0
  direction (some angle) = angle

  abbrev blow_of : Attack F → Blow F
  blow_of a = record {
    kick = a.info.kick;
    angle = direction a.angle;
    defend = a.info.defend;
    stagger = a.info.stagger;
    debuff = a.info.debuff;
    parting = false;
  }

  abbrev pub incoming : String → Attack F → Option String → List (Incoming F)
  incoming nid a none = []
  incoming nid a (some pid) = record { target = pid; nid = nid; n = a.n; blow = blow_of a } ∷ []

  -- `random.random()`'s draws are numbered: `rolls` are all of them, `rolled` is how many are
  -- taken.
  abbrev pub announce : (ℕ → F) → Party → ℕ → ℕ → Attack F → Attack F × ℕ
  announce rolls party rolled n a =
      if warns n a
      then (record a { target = party.first; angle = some (rolls rolled *F tau) }, suc rolled)
      else (a, rolled)

  -- What an attack does at step n once it is announced, if it is to be.
  unfoldable pub land_at : Party → ℕ → String → Attack F → ℕ → Struck F
  land_at party n nid a rolled =
      if leb a.land n
      then record {
        attack = unannounced a (a.land + a.period);
        rolled = rolled;
        landed = incoming nid a (aimed party a.target);
      }
      else record { attack = a; rolled = rolled; landed = [] }

  unfoldable pub attack_step : (ℕ → F) → Party → ℕ → ℕ → String → Attack F → Struck F
  unfolding land_at
  attack_step rolls party rolled n nid a =
      let (b, taken) = announce rolls party rolled n a in land_at party n nid b taken

  -- One attack alone, for k steps from step n on.
  unfoldable pub attack_steps : (ℕ → F) → Party → ℕ → ℕ → ℕ → String → Attack F → Struck F
  unfolding attack_step
  attack_steps rolls party zero rolled n nid a = record { attack = a; rolled = rolled; landed = [] }
  attack_steps rolls party (suc k) rolled n nid a =
      let s = attack_step rolls party rolled (suc n) nid a in
      let t = attack_steps rolls party k s.rolled (suc n) nid s.attack in
      record { attack = t.attack; rolled = t.rolled; landed = s.landed ++ t.landed }

  unfoldable pub attacks_step :
      (ℕ → F) → Party → ℕ → ℕ → String → List (Attack F) → Clocked F (List (Attack F))
  unfolding attack_step
  attacks_step rolls party rolled n nid [] = record { after = []; rolled = rolled; landed = [] }
  attacks_step rolls party rolled n nid (a ∷ rest) =
      let s = attack_step rolls party rolled n nid a in
      let t = attacks_step rolls party s.rolled n nid rest in
      record { after = s.attack ∷ t.after; rolled = t.rolled; landed = s.landed ++ t.landed }

  unfoldable pub npcs_step : (ℕ → F) → Party → ℕ → ℕ → List (Npc F) → Clocked F (List (Npc F))
  unfolding attacks_step
  npcs_step rolls party rolled n [] = record { after = []; rolled = rolled; landed = [] }
  npcs_step rolls party rolled n (npc ∷ rest) =
      let s = attacks_step rolls party rolled n npc.nid npc.attacks in
      let t = npcs_step rolls party s.rolled n rest in
      record {
        after = record npc { attacks = s.after } ∷ t.after;
        rolled = t.rolled;
        landed = s.landed ++ t.landed;
      }

module _ {F : Type 0} where
  -- The first landing after `target`.
  unfoldable pub skip_attack : ℕ → Attack F → Attack F
  skip_attack target a =
      if leb a.land target && ltb 0 a.period
      then unannounced a (a.land + a.period * ceil_div (target + 1 - a.land) a.period)
      else a

  abbrev pub map_attacks : (Attack F → Attack F) → List (Attack F) → List (Attack F)
  map_attacks f [] = []
  map_attacks f (a ∷ rest) = f a ∷ map_attacks f rest

  abbrev pub on_attacks : (Attack F → Attack F) → Npc F → Npc F
  on_attacks f npc = record npc { attacks = map_attacks f npc.attacks }

  abbrev pub map_npcs : (Npc F → Npc F) → List (Npc F) → List (Npc F)
  map_npcs f [] = []
  map_npcs f (npc ∷ rest) = f npc ∷ map_npcs f rest

  -- `_skip_to`, of the attacks.
  abbrev pub skip_npcs : ℕ → List (Npc F) → List (Npc F)
  skip_npcs target npcs = map_npcs (on_attacks (skip_attack target)) npcs

  -- What is due while a boss reels waits for the end: `a.land < end` with end = step + staggered.
  -- An end after a landing is not negative.
  unfoldable pub reel_attack : ℕ → ℤ → Attack F → Attack F
  reel_attack step staggered a =
      if ltb (a.land + neg_part staggered) (step + pos_part staggered)
      then unannounced a (step + pos_part staggered - neg_part staggered)
      else a

  -- `_boss_reels`
  abbrev pub boss_reels : ℕ → Boss F → Npc F → Npc F
  boss_reels step boss npc = on_attacks (reel_attack step boss.staggered) npc

  -- `a.land += b.steps(result["stagger_ms"])`, of a time that is not negative
  abbrev pub delay_attack : ℕ → Attack F → Attack F
  delay_attack n a = record a { land = a.land + n }

module _ {F : Type 0} ⦃r : Real F⦄ where
  abbrev pub or_else : Option F → F → F
  or_else none default = default
  or_else (some x) default = x

  -- A new attack of an NPC, number n: `min(warn, period)`, and its first landing.
  unfoldable pub new_attack : Rules F → ℕ → ℕ → AttackInfo F → Attack F
  new_attack rules join n info =
      let period = at_least_one (steps (or_else info.period (int 6000))) in
      let warn = steps (or_else info.warn rules.warn_ms) in
      record {
        n = n;
        info = info;
        period = period;
        warn = if leb_ℤ warn (pos period) then warn else pos period;
        land = join + period;
        angle = none;
        target = none;
      }

  abbrev pub new_attacks : Rules F → ℕ → ℕ → List (AttackInfo F) → List (Attack F)
  new_attacks rules join n [] = []
  new_attacks rules join n (info ∷ rest) =
      new_attack rules join n info ∷ new_attacks rules join (suc n) rest

  -- `_add_npc`; `poise` is none where it is missing or 0.
  unfoldable pub new_npc : Rules F → String → ℕ → List (AttackInfo F) → Option F → Npc F
  unfolding new_attack
  new_npc rules nid join infos poise = record {
    nid = nid;
    join = join;
    attacks = new_attacks rules join 1 infos;
    boss = elim poise [
      | none ↦ none
      | some p ↦ some (record { poise = p; rules = rules; meter = int 0; staggered = pos 0 })
    ];
  }

-- The encounter's clock, and what moves it: a step, a skip ahead by some steps, a boss that starts
-- to reel, and a strike that staggers an NPC.
pub record Clock (F : Type 0) : Type 0 where
  pub step : ℕ
  pub npcs : List (Npc F)
  pub rolled : ℕ

pub data Turn (F : Type 0) : Type 0 where
  ahead : Party → Turn F
  skip : ℕ → Turn F
  reels : String → Boss F → Turn F
  delayed : String → ℕ → Turn F

module _ {F : Type 0} ⦃r : Real F⦄ where
  abbrev pub on_npc : String → (Npc F → Npc F) → Npc F → Npc F
  on_npc nid f npc = if str_eq npc.nid nid then f npc else npc

  unfoldable pub turn : (ℕ → F) → Clock F → Turn F → Clock F
  unfolding npcs_step
  turn rolls c (ahead party) =
      let t = npcs_step rolls party c.rolled (suc c.step) c.npcs in
      record { step = suc c.step; npcs = t.after; rolled = t.rolled }
  turn rolls c (skip more) = record c {
    step = c.step + more;
    npcs = skip_npcs (c.step + more) c.npcs;
  }
  turn rolls c (reels nid boss) = record c {
    npcs = map_npcs (on_npc nid (boss_reels c.step boss)) c.npcs;
  }
  turn rolls c (delayed nid n) = record c {
    npcs = map_npcs (on_npc nid (on_attacks (delay_attack n))) c.npcs;
  }

  unfoldable pub turns : (ℕ → F) → Clock F → List (Turn F) → Clock F
  unfolding turn
  turns rolls c [] = c
  turns rolls c (t ∷ ts) = turns rolls (turn rolls c t) ts

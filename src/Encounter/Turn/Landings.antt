-- ===== src/Encounter/Turn/Landings.antt =====
-- In a step of the encounter the attacks that land are reported, each on its player.
use mathlib.Core.List.{append-nil}
use alzendor.Prelude.{
  not, ◌&&◌, ap, ◌∙◌, ℕ, suc, ◌≡◌, refl, String, true, Bool-cases, inl, inr, List, [], ◌∷◌, ◌++◌,
  Option, none, some, leb, Succeeds, Succeeds-some, Succeeds-bind,
}
use alzendor.Prelude.Int.{is_zero}
use alzendor.Real.{Real}
use alzendor.Balance.Boss.{Boss}
use alzendor.Balance.Boss as Meter
use alzendor.Encounter.Data.{Npc, Attack, Incoming, Call, Player}
use alzendor.Encounter.Clock.{
  aimed, incoming, announce, land_at, attack_step, attacks_step, npcs_step,
}
use alzendor.Encounter.Report.Total.{each, each-append, blow_of}
use alzendor.Encounter.Rewind.Recorded.{IsKept}
use alzendor.Encounter.Turn.{
  has_player, party, on_player, waits_to_join, player_turn, players_turn, boss_turn, bosses_turn,
  Fight, run_step,
}
use alzendor.Encounter.Turn.Kept.{Turned-player_turn}
use alzendor.Encounter.Turn.Here.{
  Distinct, AllHere, blows_on, all_on, landed_on, blows_on-all, AllHere-append, has_player-aimed,
}

abbrev pub AllKept : {F : Type 0} → List (Player F) → Type 0
AllKept [] = Unit
AllKept (p ∷ ps) = IsKept p × AllKept ps

module _ {F : Type 0} ⦃r : Real F⦄ where
  AllHere-incoming :
      (ps : List (Player F)) (nid : String) (a : Attack F) (t : Option String)
      → ((pid : String) → t ≡ some pid → has_player ps pid ≡ true)
      → AllHere ps (incoming nid a t)
  AllHere-incoming ps nid a none h = tt
  AllHere-incoming ps nid a (some pid) h = (h pid refl, tt)

  AllHere-land_at :
      (ps : List (Player F)) (n : ℕ) (nid : String) (a : Attack F) (rolled : ℕ)
      → AllHere ps (land_at (party ps) n nid a rolled).landed
  unfolding land_at
  AllHere-land_at ps n nid a rolled = elim (Bool-cases (leb a.land n)) [
    | inl lands ↦
        rw lands
          (AllHere-incoming ps nid a (aimed (party ps) a.target) (has_player-aimed ps a.target))
    | inr waits ↦ rw waits tt
  ]

  AllHere-attacks_step :
      (rolls : ℕ → F) (ps : List (Player F)) (n : ℕ) (nid : String) (xs : List (Attack F))
      (rolled : ℕ)
      → AllHere ps (attacks_step rolls (party ps) rolled n nid xs).landed
  unfolding attacks_step attack_step
  AllHere-attacks_step rolls ps n nid [] rolled = tt
  AllHere-attacks_step rolls ps n nid (a ∷ rest) rolled =
      AllHere-append ps (attack_step rolls (party ps) rolled n nid a).landed _
        (let (b, taken) = announce rolls (party ps) rolled n a in AllHere-land_at ps n nid b taken)
        (AllHere-attacks_step rolls ps n nid rest
          (attack_step rolls (party ps) rolled n nid a).rolled)

  AllHere-npcs_step :
      (rolls : ℕ → F) (ps : List (Player F)) (n : ℕ) (npcs : List (Npc F)) (rolled : ℕ)
      → AllHere ps (npcs_step rolls (party ps) rolled n npcs).landed
  unfolding npcs_step
  AllHere-npcs_step rolls ps n [] rolled = tt
  AllHere-npcs_step rolls ps n (npc ∷ rest) rolled =
      AllHere-append ps (attacks_step rolls (party ps) rolled n npc.nid npc.attacks).landed _
        (AllHere-attacks_step rolls ps n npc.nid npc.attacks rolled)
        (AllHere-npcs_step rolls ps n rest
          (attacks_step rolls (party ps) rolled n npc.nid npc.attacks).rolled)

  -- The players after their parts of a step.
  pub record AllTurned (ps : List (Player F)) (landed : List (Incoming F))
      (x : List (Player F) × List Call) : Type 0 where
    pub kept : AllKept x.0
    pub blows : each blow_of x.1 ≡ all_on ps landed

  pub AllTurned-players_turn :
      (npcs : List (Npc F)) (n : ℕ) (landed : List (Incoming F)) (ps : List (Player F))
      → AllKept ps
      → Succeeds (AllTurned ps landed) (players_turn npcs n landed ps)
  unfolding players_turn
  AllTurned-players_turn npcs n landed [] h = Succeeds-some _ (record { kept = tt; blows = refl })
  AllTurned-players_turn npcs n landed (p ∷ ps) h =
      let mine = on_player p.pid landed in
      Succeeds-bind (player_turn (waits_to_join n p) npcs n mine p) _
        (Turned-player_turn (waits_to_join n p) npcs n mine p h.0)
        λ (p', calls) k.
          Succeeds-bind (players_turn npcs n landed ps) _
            (AllTurned-players_turn npcs n landed ps h.1)
            λ (ps', rest) t. Succeeds-some _ (record {
              kept = (k.kept, t.kept);
              blows = each-append blow_of calls rest ∙ rw (k.blows, t.blows) refl;
            })

  boss_turn_lem : (nid : String) (b : Option (Boss F)) → each blow_of (boss_turn nid b).1 ≡ []
  boss_turn_lem nid none = refl
  boss_turn_lem nid (some b) =
      elim (Bool-cases (not (is_zero b.staggered) && is_zero (Meter.step b).staggered)) [
        | inl e ↦ rw e refl
        | inr e ↦ rw e refl
      ]

  bosses_turn_lem : (npcs : List (Npc F)) → each blow_of (bosses_turn npcs).1 ≡ []
  bosses_turn_lem [] = refl
  bosses_turn_lem (npc ∷ rest) =
      each-append blow_of (boss_turn npc.nid npc.boss).1 (bosses_turn rest).1
      ∙ rw (boss_turn_lem npc.nid npc.boss) (bosses_turn_lem rest)

  -- A step of an encounter whose players have different pids and are as the owner keeps them: it
  -- raises nothing, leaves every player as the owner keeps it, and among its calls, the blows on
  -- any one player are of just the attacks that landed on it in the step, one blow for each, by
  -- its NPC and number and in their order, however they were aimed and whoever has joined.
  pub run_step_reports :
      (rolls : ℕ → F) (f : Fight F)
      → Distinct f.players
      → AllKept f.players
      → (x : Fight F × List Call) × (run_step rolls f ≡ some x)
        × AllKept x.0.players
        × ((pid : String)
            → blows_on pid (each blow_of x.1)
              ≡ landed_on pid
                  (npcs_step rolls (party f.players) f.rolled (suc f.step) f.npcs).landed)
  unfolding run_step
  run_step_reports rolls f d h =
      let n = suc f.step in
      let c = npcs_step rolls (party f.players) f.rolled n f.npcs in
      let here = AllHere-npcs_step rolls f.players n f.npcs f.rolled in
      let s =
        Succeeds-bind {P = AllTurned f.players c.landed}
          {Q = λ (x : Fight F × List Call).
            AllKept x.0.players
            × ((pid : String) → blows_on pid (each blow_of x.1) ≡ landed_on pid c.landed)}
          (players_turn c.after n c.landed f.players) _
          (AllTurned-players_turn c.after n c.landed f.players h)
          λ (players, calls) k. Succeeds-some _ (
            k.kept,
            λ pid.
                let only : each blow_of (calls ++ (bosses_turn c.after).1)
                    ≡ all_on f.players c.landed =
                  each-append blow_of calls (bosses_turn c.after).1
                  ∙ rw (bosses_turn_lem c.after) (append-nil (each blow_of calls) ∙ k.blows) in
                ap (blows_on pid) only ∙ blows_on-all pid f.players c.landed d here,
          ) in
      (s.value, s.succeeds, s.holds.0, s.holds.1)

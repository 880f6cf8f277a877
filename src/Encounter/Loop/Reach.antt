-- ===== src/Encounter/Loop/Reach.antt =====
-- A tick reaches the time, with every attack ahead of it.
use alzendor.Prelude.{
  ℕ, zero, suc, ◌≤◌, ◌≡◌, refl, false, Bool-cases, inl, inr, List, [], ◌∷◌, some, arith, ltb, subst,
  Succeeds, Succeeds-some, Succeeds-bind,
}
use alzendor.Real.{Real}
use alzendor.Encounter.Data.{Npc, Call}
use alzendor.Encounter.Clock.{npcs_step}
use alzendor.Encounter.Clock.Schedule.{AllOnTime, AllOnTime-npcs_step, AllOnTime-skip_npcs}
use alzendor.Encounter.Turn.{party, players_turn, bosses_turn, Fight, run_step}
use alzendor.Encounter.Turn.Landings.{AllKept, AllTurned, AllTurned-players_turn}
use alzendor.Encounter.Loop.{max_catch_up, Caught, steps_to, skipped, catch_up}

module _ {F : Type 0} ⦃r : Real F⦄ where
  -- A fight whose players are as the owner keeps them, and whose attacks are ahead of its clock.
  pub record Ready (f : Fight F) : Type 0 where
    pub kept : AllKept f.players
    pub on_time : AllOnTime f.step f.npcs

  AllOnTime-bosses_turn :
      (n : ℕ) (npcs : List (Npc F)) → AllOnTime n npcs → AllOnTime n (bosses_turn npcs).0
  AllOnTime-bosses_turn n [] h = tt
  AllOnTime-bosses_turn n (npc ∷ rest) h = (h.0, AllOnTime-bosses_turn n rest h.1)

  record Next (f : Fight F) (x : Fight F × List Call) : Type 0 where
    ready : Ready x.0
    step : x.0.step ≡ suc f.step

  Next-run_step : (rolls : ℕ → F) (f : Fight F) → Ready f → Succeeds (Next f) (run_step rolls f)
  unfolding run_step
  Next-run_step rolls f h =
      let n = suc f.step in
      let c = npcs_step rolls (party f.players) f.rolled n f.npcs in
      let on_time : AllOnTime n c.after =
        AllOnTime-npcs_step rolls (party f.players) f.rolled f.step f.npcs h.on_time in
      Succeeds-bind {P = AllTurned f.players c.landed} (players_turn c.after n c.landed f.players) _
        (AllTurned-players_turn c.after n c.landed f.players h.kept)
        λ (players, calls) k. Succeeds-some _ (record {
          ready = record { kept = k.kept; on_time = AllOnTime-bosses_turn n c.after on_time };
          step = refl;
        })

  -- After at most k steps: there, or all steps spent on the way.
  record Steps (k : ℕ) (f : Fight F) (target : ℕ) (c : Caught F) : Type 0 where
    ready : Ready c.fight
    within : c.fight.step ≤ target
    reached : c.spent ≡ false → c.fight.step ≡ target

  Steps-steps_to :
      (rolls : ℕ → F) (k : ℕ) (f : Fight F) (target : ℕ)
      → Ready f
      → f.step ≤ target
      → Succeeds (Steps k f target) (steps_to rolls k f target)
  unfolding steps_to
  Steps-steps_to rolls zero f target h before =
      Succeeds-some _ (record { ready = h; within = before; reached = λ e. absurd (ground arith) })
  Steps-steps_to rolls (suc k) f target h before = elim (Bool-cases (ltb f.step target)) [
    | inl behind ↦ rw behind (
        Succeeds-bind (run_step rolls f) _ (Next-run_step rolls f h) λ (f', calls) next.
          Succeeds-bind (steps_to rolls k f' target) _
            (Steps-steps_to rolls k f' target next.ready
              (let step = next.step in ground (arith, step, behind)))
            λ c s.
              Succeeds-some _ (record { ready = s.ready; within = s.within; reached = s.reached }))
    | inr there ↦
        let same : f.step ≡ target = ground (arith, before, there) in
        rw there (Succeeds-some _ (record { ready = h; within = before; reached = λ e. same }))
  ]

  Reached-skipped :
      (target : ℕ) (c : Caught F)
      → Ready c.fight
      → c.fight.step ≤ target
      → (c.spent ≡ false → c.fight.step ≡ target)
      → ((skipped target c).fight.step ≡ target)
        × AllKept (skipped target c).fight.players
        × AllOnTime target (skipped target c).fight.npcs
  Reached-skipped target c h within reached = elim (Bool-cases c.spent) [
    | inl spent ↦
        rw spent
          (refl, h.kept, AllOnTime-skip_npcs c.fight.step target c.fight.npcs within h.on_time)
    | inr on ↦
        let there = reached on in
        rw on (there, h.kept, subst (λ n. AllOnTime n c.fight.npcs) there h.on_time)
  ]

  -- A tick of a fight whose players are as the owner keeps them, whose attacks are ahead of its
  -- clock, and whose clock is not ahead of the time: it raises nothing, comes to the time exactly,
  -- however far behind it was, and leaves the players as the owner keeps them and every attack ahead
  -- of the clock.
  pub catch_up_reaches :
      (rolls : ℕ → F) (f : Fight F) (target : ℕ)
      → AllKept f.players
      → AllOnTime f.step f.npcs
      → f.step ≤ target
      → (x : Caught F) × (catch_up rolls f target ≡ some x)
        × (x.fight.step ≡ target)
        × AllKept x.fight.players
        × AllOnTime target x.fight.npcs
  unfolding catch_up
  catch_up_reaches rolls f target kept on_time before =
      let s =
        Succeeds-bind {P = Steps max_catch_up f target}
          {Q = λ (x : Caught F).
            (x.fight.step ≡ target) × AllKept x.fight.players × AllOnTime target x.fight.npcs}
          (steps_to rolls max_catch_up f target) _
          (Steps-steps_to rolls max_catch_up f target (record { kept = kept; on_time = on_time })
            before)
          λ c k. Succeeds-some _ (Reached-skipped target c k.ready k.within k.reached) in
      (s.value, s.succeeds, s.holds.0, s.holds.1, s.holds.2)

-- ===== src/Balance/Step/Safe.antt =====
-- A step of a dot whose volleys are armed: it raises nothing, draws exactly four numbers, and
-- strikes only with what is ready.
use alzendor.Prelude.{
  ℕ, suc, ◌+◌, ◌≤◌, ◌<◌, ◌≡◌, sym, subst, ◌∙◌, ap, List, ◌++◌, Option, some, arith, Succeeds,
  Succeeds-some, Succeeds-bind, Succeeds-Ensures,
}
use alzendor.Prelude.Int.{count_down, pos_part, pos_part-count_down, pos_part_of_idle}
use alzendor.Real.{Real}
use alzendor.Balance.Rng
use alzendor.Balance.Rules.{steps}
use alzendor.Balance.Dot.{Gear, Dot, Event}
use alzendor.Balance.Same.{Kit, Arms, Kept, kit, arms, kept, quiet}
use alzendor.Balance.Events.{first_strikes, first_strikes-append}
use alzendor.Balance.Timers.Frame.{arms-well-draw-timers, first_strikes-timers}
use alzendor.Balance.Strikes.{act_all, fire, volleys}
use alzendor.Balance.Strikes.Frame.{arms-act_all, quiet-volleys}
use alzendor.Balance.Strikes.Armed.{AllArmed, VolleysDone, VolleysDone-volleys}
use alzendor.Balance.Strikes.Fire.{first_strikes-act_all, Fired, Fired-fire}
use alzendor.Balance.Blows.{land}
use alzendor.Balance.Blows.Frame.{kept-land}
use alzendor.Balance.Blows.Quiet.{first_strikes-land}
use alzendor.Balance.Physics.{physics}
use alzendor.Balance.Physics.Frame.{kept-physics}
use alzendor.Balance.Physics.Quiet.{first_strikes-physics}
use alzendor.Balance.Step.{Input, prepare, step}

-- Every volley's hit to come finds its gear.
abbrev pub IsArmed : {F : Type 0} → Dot F → Type 0
IsArmed d = AllArmed d.slots d.volleys

-- The kit one step on: the clock, and four draws of the stream.
abbrev pub next_kit : {F : Type 0} → Dot F → Kit F
next_kit d = record (kit d) { n = suc d.n; rng = Rng.advance 4 d.rng }

module _ {F : Type 0} ⦃r : Real F⦄ where
  -- The dot that the step's acts find.
  abbrev prepared : Dot F → Dot F
  prepared d = (prepare d).0

  arms-prepare :
      (d : Dot F)
      → arms (prepared d)
        ≡ record { kit = next_kit d; cool = λ k. count_down (d.cool k); volleys = d.volleys }
  unfolding prepare
  arms-prepare d = arms-well-draw-timers (record d { n = suc d.n })

  first_strikes-prepare : (slot : ℕ) (d : Dot F) → first_strikes slot (prepare d).1 ≡ 0
  unfolding prepare
  first_strikes-prepare slot d = first_strikes-timers slot (record d { n = suc d.n })

  pub record Stepped (d : Dot F) (x : Dot F × List Event) : Type 0 where
    pub kit_next : kit x.0 ≡ next_kit d
    pub cool : (k : ℕ) → pos_part (d.cool k) ≤ pos_part (x.0.cool k) + 1
    pub armed : IsArmed x.0
    pub ready : (k : ℕ) → 0 < first_strikes k x.1 → pos_part (d.cool k) ≤ 1
    pub waits :
        (k : ℕ) (gear : Gear F)
        → 0 < first_strikes k x.1
        → d.slots k ≡ some gear
        → pos_part (steps gear.cooldown) ≤ pos_part (x.0.cool k)

  -- The parts of a step from the acts on, and what is known of each.
  module _ (d : Dot F) (i : Input F) (d2 : Dot F) (x3 x4 : Dot F × List Event) (e1 e2 : List Event)
      (before : arms d2
        ≡ record { kit = next_kit d; cool = λ k. count_down (d.cool k); volleys = d.volleys })
      (fired : Fired d2 x3) (done : VolleysDone x3.0 x4) (same : quiet x4.0 ≡ quiet x3.0)
      (none1 : (k : ℕ) → first_strikes k e1 ≡ 0) (none2 : (k : ℕ) → first_strikes k e2 ≡ 0) where
    abbrev landed : Dot F × List Event
    landed = land x4.0 i.blows

    abbrev moved : Dot F × List Event
    moved = physics landed.0 i.keys

    abbrev reported : List Event
    reported = e1 ++ e2 ++ x3.1 ++ x4.1 ++ landed.1 ++ moved.1

    kept-moved : kept moved.0 ≡ kept x4.0
    kept-moved = kept-physics landed.0 i.keys ∙ kept-land x4.0 i.blows

    kit-moved : kit moved.0 ≡ next_kit d
    kit-moved =
        ap (λ (k : Kept F). k.arms.kit) kept-moved
        ∙ ap (λ (k : Kept F). k.arms.kit) same
        ∙ ap (λ (k : Kept F). k.arms.kit) fired.same
        ∙ ap (λ (k : Arms F). k.kit) before

    cool-moved : moved.0.cool ≡ x3.0.cool
    cool-moved = ap (λ (k : Kept F). k.arms.cool) kept-moved ∙ ap (λ (k : Kept F). k.arms.cool) same

    cool-before : (k : ℕ) → d2.cool k ≡ count_down (d.cool k)
    cool-before k = ap (λ (s : Arms F). s.cool k) before

    first_strikes-reported : (k : ℕ) → first_strikes k reported ≡ first_strikes k x3.1
    first_strikes-reported k = omega (
      arith,
      first_strikes-append k (e1 ++ e2 ++ x3.1 ++ x4.1 ++ landed.1) moved.1,
      first_strikes-append k (e1 ++ e2 ++ x3.1 ++ x4.1) landed.1,
      first_strikes-append k (e1 ++ e2 ++ x3.1) x4.1,
      first_strikes-append k (e1 ++ e2) x3.1,
      first_strikes-append k e1 e2,
      none1 k,
      none2 k,
      done.no_first k,
      first_strikes-land k x4.0 i.blows,
      first_strikes-physics k landed.0 i.keys,
    )

    slots-d2 : d2.slots ≡ d.slots
    slots-d2 = ap (λ (k : Arms F). k.kit.slots) before

    IsArmed-moved : IsArmed moved.0
    IsArmed-moved =
        subst (λ (s : Arms F). AllArmed s.kit.slots s.volleys)
          (sym (ap (λ (k : Kept F). k.arms) kept-moved))
          (rw (ap (λ (k : Kept F). k.arms.kit.slots) same) done.armed)

    Stepped-moved : Stepped d (moved.0, reported)
    Stepped-moved = record {
      kit_next = kit-moved;
      cool = λ k. rw cool-moved (
          omega (arith, fired.cool k, ap pos_part (cool-before k), pos_part-count_down (d.cool k)));
      armed = IsArmed-moved;
      ready = λ k h.
          let ready_then = fired.ready k (omega (arith, first_strikes-reported k)) in
          omega (
            arith,
            pos_part_of_idle (d2.cool k) ready_then.cooled,
            ap pos_part (cool-before k),
            pos_part-count_down (d.cool k),
          );
      waits = λ k gear h found. rw cool-moved (
          fired.waits k gear (omega (arith, first_strikes-reported k))
            (ap (λ (s : ℕ → Option (Gear F)). s k) slots-d2 ∙ found));
    }

  pub Stepped-step : (d : Dot F) (i : Input F) → IsArmed d → Succeeds (Stepped d) (step d i)
  unfolding step
  Stepped-step d i a =
      let d1 = prepared d in
      let d2 = (act_all d1 i.acts).0 in
      let before : arms d2
          ≡ record { kit = next_kit d; cool = λ k. count_down (d.cool k); volleys = d.volleys } =
        arms-act_all d1 i.acts ∙ arms-prepare d in
      let armed2 : IsArmed d2 =
        subst (λ (s : Arms F). AllArmed s.kit.slots s.volleys) (sym before) a in
      Succeeds-bind (fire d2) _ (Fired-fire d2 armed2) λ x3 f.
        Succeeds-bind (volleys x3.0) _
          (Succeeds-Ensures
            (VolleysDone-volleys x3.0 (rw (ap (λ (k : Kept F). k.arms.kit.slots) f.same) f.armed))
            (quiet-volleys x3.0))
          λ x4 (done, same). Succeeds-some _ (
            Stepped-moved d i d2 x3 x4 (prepare d).1 (act_all d1 i.acts).1 before f done same
              (λ k. first_strikes-prepare k d) (λ k. first_strikes-act_all k d1 i.acts))

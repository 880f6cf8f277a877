-- ===== src/Balance/Step/Immune.antt =====
-- A dot that is immune to stagger is not staggered.
use alzendor.Prelude.{
  ℕ, suc, ◌+◌, ◌≡◌, refl, ◌∙◌, ap, false, List, [], ◌∷◌, ◌++◌, some, arith, length, Ensures,
  Ensures-some, Ensures-bind, Ensures-both,
}
use alzendor.Prelude.Int.{
  pos, count_down, count_down-suc, is_positive, is_positive-suc, is_zero, is_zero-suc,
}
use alzendor.Real.{Real}
use alzendor.Balance.Dot.{Blow, Dot, Event, is_staggered}
use alzendor.Balance.Same.{Stance, stance}
use alzendor.Balance.Events.{stagger, staggers, staggers-append}
use alzendor.Balance.Knock.Frame.{stance-add_debuff, stance-apply_kick}
use alzendor.Balance.Timers.Frame.{stance-well-draw-timers}
use alzendor.Balance.Strikes.{act_all, fire, volleys}
use alzendor.Balance.Strikes.View.{Blind, view-act_all, view-fire, view-volleys}
use alzendor.Balance.Strikes.Calm.{count-act_all, count-fire, count-volleys}
use alzendor.Balance.Blows.{land}
use alzendor.Balance.Blows.Immune.{stance-land}
use alzendor.Balance.Physics.{physics}
use alzendor.Balance.Physics.Immune.{stance-physics}
use alzendor.Balance.Step.{Input, prepare, step, run}
use alzendor.Balance.Step.Safe.{IsArmed}
use alzendor.Balance.Step.Runs.{Ran-run}

module _ {F : Type 0} ⦃r : Real F⦄ where
  Blind-stance : Blind (stance {F = F})
  Blind-stance = record {
    kick = stance-apply_kick;
    debuff = stance-add_debuff;
    pending = λ d p. refl;
    volleys = λ d vs. refl;
    timing = λ d b c. refl;
    dodge = λ d a b. refl;
    block = λ d. refl;
    unblock = λ d. refl;
  }

  -- On its feet, and immune for n steps more.
  record Immune (n : ℕ) (d : Dot F) : Type 0 where
    up : is_staggered d ≡ false
    lasts : d.immune ≡ pos n

  -- The stance after a part of a step that left it alone.
  Immune-same : (n : ℕ) (d e : Dot F) → stance e ≡ stance d → Immune n d → Immune n e
  Immune-same n d e same h = record {
    up = ap (λ (s : Stance). is_positive s.stagger) same ∙ h.up;
    lasts = ap (λ (s : Stance). s.immune) same ∙ h.lasts;
  }

  Immune-prepare :
      (n : ℕ) (d : Dot F) → Immune (suc n) d → Immune n (prepare d).0 × (staggers (prepare d).1 ≡ 0)
  unfolding prepare
  Immune-prepare n d h =
      let (still, none_reported) = stance-well-draw-timers (record d { n = suc d.n }) h.up in
      let stagger : (prepare d).0.stagger ≡ count_down d.stagger =
        ap (λ (s : Stance). s.stagger) still in
      let immune : (prepare d).0.immune ≡ count_down d.immune =
        ap (λ (s : Stance). s.immune) still in
      (
        record {
          up = ap is_positive stagger ∙ ground (arith, h.up);
          lasts = immune ∙ ap count_down h.lasts ∙ count_down-suc n;
        },
        none_reported,
      )

  -- A step that left the dot immune, and reported no stagger.
  abbrev Calm : ℕ → Dot F × List Event → Type 0
  Calm n x = Immune n x.0 × (staggers x.1 ≡ 0)

  Calm-land : (n : ℕ) (d : Dot F) (bs : List (Blow F)) → Immune (suc n) d → Calm (suc n) (land d bs)
  Calm-land n d bs h =
      let (same, none_reported) = stance-land d bs (ap is_zero h.lasts ∙ is_zero-suc n) in
      (Immune-same (suc n) d (land d bs).0 same h, none_reported)

  Calm-physics : (n : ℕ) (d : Dot F) (keys : ℕ) → Immune (suc n) d → Calm (suc n) (physics d keys)
  Calm-physics n d keys h =
      let (same, none_reported) =
        stance-physics d keys h.up (ap is_positive h.lasts ∙ is_positive-suc n) in
      (Immune-same (suc n) d (physics d keys).0 same h, none_reported)

  Calm-step :
      (n : ℕ) (d : Dot F) (i : Input F) → Immune (suc (suc n)) d → Ensures (Calm (suc n)) (step d i)
  unfolding step
  Calm-step n d i h =
      let (h1, none1) = Immune-prepare (suc n) d h in
      let d1 = (prepare d).0 in
      let (d2, e2) = act_all d1 i.acts in
      let h2 = Immune-same (suc n) d1 d2 (view-act_all stance Blind-stance d1 i.acts) h1 in
      Ensures-bind (fire d2) _
        (Ensures-both (view-fire stance Blind-stance d2) (count-fire stagger d2))
        λ (d3, e3) (same3, none3).
          let h3 = Immune-same (suc n) d2 d3 same3 h2 in
          Ensures-bind (volleys d3) _
            (Ensures-both (view-volleys stance Blind-stance d3) (count-volleys stagger d3))
            λ (d4, e4) (same4, none4).
              let h4 = Immune-same (suc n) d3 d4 same4 h3 in
              let (h5, none5) = Calm-land n d4 i.blows h4 in
              let (d5, e5) = land d4 i.blows in
              let (h6, none6) = Calm-physics n d5 i.keys h5 in
              let e6 = (physics d5 i.keys).1 in
              Ensures-some _ (
                h6,
                omega (
                  arith,
                  staggers-append ((prepare d).1 ++ e2 ++ e3 ++ e4 ++ e5) e6,
                  staggers-append ((prepare d).1 ++ e2 ++ e3 ++ e4) e5,
                  staggers-append ((prepare d).1 ++ e2 ++ e3) e4,
                  staggers-append ((prepare d).1 ++ e2) e3,
                  staggers-append (prepare d).1 e2,
                  none1,
                  count-act_all stagger d1 i.acts,
                  none3,
                  none4,
                  none5,
                  none6,
                ),
              )

  Calm-run :
      (n : ℕ) (d : Dot F) (is : List (Input F))
      → Immune (suc (n + length is)) d
      → Ensures (Calm (suc n)) (run d is)
  unfolding run
  Calm-run n d [] h = let e : suc (n + 0) ≡ suc n = omega arith in Ensures-some _ (rw e at h, refl)
  Calm-run n d (i ∷ is) h =
      let e : suc (n + length (i ∷ is)) ≡ suc (suc (n + length is)) = omega arith in
      Ensures-bind (step d i) _ (Calm-step (n + length is) d i (rw e at h)) λ (d1, e1) (h1, none1).
        Ensures-bind (run d1 is) _ (Calm-run n d1 is h1) λ (d2, e2) (h2, none2).
          Ensures-some _ (h2, omega (arith, staggers-append e1 e2, none1, none2))

  -- A run shorter than the immunity of a dot that is up and whose volleys are armed, over any
  -- inputs: it raises no KeyError, nothing in it staggers the dot, and at its end the dot is up,
  -- with the rest of its immunity.
  pub immune_run :
      (d : Dot F) (is : List (Input F)) (n : ℕ)
      → IsArmed d
      → is_staggered d ≡ false
      → d.immune ≡ pos (suc (n + length is))
      → (x : Dot F × List Event) × (run d is ≡ some x)
        × (staggers x.1 ≡ 0)
        × (is_staggered x.0 ≡ false)
        × (x.0.immune ≡ pos (suc n))
  immune_run d is n armed up lasts =
      let s = Ran-run d is armed in
      let (h, none_reported) =
        (Calm-run n d is (record { up = up; lasts = lasts })).at s.value s.succeeds in
      (s.value, s.succeeds, none_reported, h.up, h.lasts)

-- ===== src/Balance/Strikes/Frame.antt =====
-- Acts and volleys leave the dot's kit and cooldowns alone; a strike leaves its kit alone, and
-- lets no cooldown down.
use alzendor.Prelude.{
  ℕ, ◌≤◌, ◌≡◌, refl, ◌∙◌, ap, Bool, true, false, Bool-cases, inl, inr, List, [], ◌∷◌, ◌++◌, Option,
  none, some, String, arith, ◌==◌, Ensures, Ensures-some, Ensures-none, Ensures-bind,
}
use alzendor.Prelude.Int.{is_positive, is_positive_iff_pos_part, pos_part}
use alzendor.Real.{Real}
use alzendor.Balance.Dot.{Gear, Volley, Dot, Act, dodge, block, unblock, Event}
use alzendor.Balance.Same.{Kept, kept, arms, hush, quiet}
use alzendor.Balance.Knock.{tier}
use alzendor.Balance.Knock.Frame.{kept-apply_kick}
use alzendor.Balance.Blows.{cursed}
use alzendor.Balance.Blows.Frame.{kept-cursed}
use alzendor.Balance.Strikes.{
  act, act_all, breath_after, cool_after, kicked, more_hits, strike_with, Hit, hit_now, volley_when,
  one_volley, run_volleys, volleys,
}

module _ {F : Type 0} ⦃r : Real F⦄ where
  arms-act : (d : Dot F) (a : Act) → arms (act d a).0 ≡ arms d
  unfolding act
  arms-act d (Act.strike slot target) = refl
  arms-act d dodge = ground arith
  arms-act d block = ground arith
  arms-act d unblock = refl

  pub arms-act_all : (d : Dot F) (as' : List Act) → arms (act_all d as').0 ≡ arms d
  unfolding act_all
  arms-act_all d [] = refl
  arms-act_all d (a ∷ as') = arms-act_all (act d a).0 as' ∙ arms-act d a

  pub kept-hit_now :
      (d : Dot F) (v : Volley F) (gear : Gear F) → kept (hit_now d v gear).dot ≡ kept d
  unfolding hit_now
  kept-hit_now d v gear = kept-apply_kick d gear.kick gear.pattern_of _

  kept-volley_when :
      (waits : Bool) (gear : Option (Gear F)) (d : Dot F) (v : Volley F)
      → Ensures (λ (h : Hit F). kept h.dot ≡ kept d) (volley_when waits gear d v)
  unfolding volley_when
  kept-volley_when true gear d v = Ensures-some _ refl
  kept-volley_when false none d v = Ensures-none
  kept-volley_when false (some gear) d v = Ensures-some _ (kept-hit_now d v gear)

  kept-run_volleys :
      (d : Dot F) (vs : List (Volley F))
      → Ensures (λ (h : Hit F). kept h.dot ≡ kept d) (run_volleys d vs)
  unfolding run_volleys one_volley
  kept-run_volleys d [] = Ensures-some _ refl
  kept-run_volleys d (v ∷ vs) =
      Ensures-bind (one_volley d v) _ (kept-volley_when _ (d.slots v.slot) d v) λ h kh.
        Ensures-bind (run_volleys h.dot vs) _ (kept-run_volleys h.dot vs)
          λ rest kr. Ensures-some _ (kr ∙ kh)

  -- `_volleys` rewrites the list of volleys and nothing else of these.
  pub quiet-volleys :
      (d : Dot F) → Ensures (λ (x : Dot F × List Event). quiet x.0 ≡ quiet d) (volleys d)
  unfolding volleys
  quiet-volleys d =
      Ensures-bind (run_volleys d d.volleys) _ (kept-run_volleys d d.volleys)
        λ h kh. Ensures-some _ (ap hush kh)

  kept-struck :
      (d : Dot F) (slot : ℕ) (gear : Gear F)
      → kept (cursed (kicked d slot gear).0 gear.debuff)
        ≡ kept (record d { cool = cool_after d slot gear })
  kept-struck d slot gear =
      kept-cursed (kicked d slot gear).0 gear.debuff
      ∙ kept-apply_kick
          (record d { breath = breath_after d (tier d); cool = cool_after d slot gear }) gear.kick
          gear.pattern_of none

  pub quiet-strike_with :
      (d : Dot F) (slot : ℕ) (target : Option String) (gear : Gear F)
      → quiet (strike_with d slot target gear).0
        ≡ quiet (record d { cool = cool_after d slot gear })
  unfolding strike_with
  quiet-strike_with d slot target gear = ap hush (kept-struck d slot gear)

  pub volleys-strike_with :
      (d : Dot F) (slot : ℕ) (target : Option String) (gear : Gear F)
      → (strike_with d slot target gear).0.volleys ≡ d.volleys ++ more_hits d slot target gear
  unfolding strike_with
  volleys-strike_with d slot target gear =
      ap (λ (k : Kept F). k.arms.volleys ++ more_hits d slot target gear) (kept-struck d slot gear)

  -- A cooldown after a strike is no less than before it.
  pub cool_after-le :
      (d : Dot F) (slot : ℕ) (gear : Gear F) (k : ℕ)
      → is_positive (d.cool slot) ≡ false
      → pos_part (d.cool k) ≤ pos_part (cool_after d slot gear k)
  cool_after-le d slot gear k ready = elim (Bool-cases (k == slot)) [
    | inl same ↦
        let e : k ≡ slot = ground arith in
        rw e (ground (arith, is_positive_iff_pos_part (d.cool slot)))
    | inr other ↦ rw other (ground arith)
  ]

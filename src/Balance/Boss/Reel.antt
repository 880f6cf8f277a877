-- ===== src/Balance/Boss/Reel.antt =====
-- How long a boss reels, and that nothing fills its meter meanwhile.
use alzendor.Prelude.{ℕ, zero, suc, ◌-◌, ◌<◌, ◌≡◌, refl, true, List, [], ◌∷◌, arith}
use alzendor.Prelude.Int.{pos}
use alzendor.Real.{Real, int}
use alzendor.Balance.Rules.{steps}
use alzendor.Balance.Boss.{
  Boss, add, step, damage_mult, Beat, struck, blocked, tick, ticks, beat, beats,
}

module _ {F : Type 0} ⦃r : Real F⦄ where
  -- Reeling for n steps more, with an empty meter.
  record Reels (full : Boss F) (n : ℕ) (b : Boss F) : Type 0 where
    left : b.staggered ≡ pos n
    empty : b.meter ≡ int 0
    rules : b.rules ≡ full.rules

  -- What is left of n steps after a beat.
  abbrev left_after : ℕ → Beat F → ℕ
  left_after n tick = n - 1
  left_after n blocked = n
  left_after n (struck kick) = n

  Reels-beat :
      (full : Boss F) (n : ℕ) (b : Boss F) (e : Beat F)
      → Reels full (suc n) b
      → Reels full (left_after (suc n) e) (beat b e)
  unfolding beat add step
  Reels-beat full n b (struck kick) h = record {
    left = ground arith;
    empty = ground arith;
    rules = ground arith;
  }
  Reels-beat full n b blocked h = record {
    left = ground arith;
    empty = ground arith;
    rules = ground arith;
  }
  Reels-beat full n b tick h = record {
    left = ground arith;
    empty = ground arith;
    rules = ground arith;
  }

  Reels-beats :
      (full : Boss F) (n : ℕ) (b : Boss F) (es : List (Beat F))
      → Reels full n b
      → ticks es < n
      → Reels full (n - ticks es) (beats b es)
  unfolding beats
  Reels-beats full n b [] h short = let e : n - 0 ≡ n = omega arith in rw e h
  Reels-beats full zero b (e ∷ es) h short = absurd (omega arith)
  Reels-beats full (suc n) b (struck kick ∷ es) h short =
      Reels-beats full (suc n) (beat b (struck kick)) es (Reels-beat full n b (struck kick) h) short
  Reels-beats full (suc n) b (blocked ∷ es) h short =
      Reels-beats full (suc n) (beat b blocked) es (Reels-beat full n b blocked h) short
  Reels-beats full (suc n) b (tick ∷ es) h short =
      let e : suc n - ticks (tick ∷ es) ≡ n - ticks es = omega arith in
      let one : suc n - 1 ≡ n = omega arith in
      rw e
        (Reels-beats full n (beat b tick) es (rw one at (Reels-beat full n b tick h)) (omega arith))

  Reels-add :
      (b full : Boss F) (amount : F) (n : ℕ)
      → add b amount ≡ (full, true)
      → steps b.rules.boss_stagger_ms ≡ pos n
      → Reels full n full
  unfolding add
  Reels-add b full amount n filled lasts = record {
    left = ground arith;
    empty = ground arith;
    rules = refl;
  }

  damage_mult-reeling :
      (full b : Boss F) (n : ℕ)
      → Reels full n b
      → 0 < n
      → damage_mult b ≡ full.rules.boss_stagger_dmg
  damage_mult-reeling full b (suc n) h some_left = ground (arith, h.left, h.rules)
  damage_mult-reeling full b zero h some_left = absurd (omega arith)

  -- After what fills a boss's meter, and while fewer ticks have passed than its stagger lasts,
  -- whatever strikes and perfect blocks came between them: it reels for the rest, its meter is
  -- empty, and it takes the rules' extra damage. The tick that makes up the number ends it.
  pub boss_reels :
      (b full : Boss F) (amount : F) (n : ℕ) (es : List (Beat F))
      → add b amount ≡ (full, true)
      → steps b.rules.boss_stagger_ms ≡ pos n
      → ticks es < n
      → ((beats full es).staggered ≡ pos (n - ticks es))
        × ((beats full es).meter ≡ int 0)
        × (damage_mult (beats full es) ≡ full.rules.boss_stagger_dmg)
        × (suc (ticks es) ≡ n → damage_mult (step (beats full es)) ≡ int 1)
  unfolding step
  boss_reels b full amount n es filled lasts short =
      let h = Reels-beats full n full es (Reels-add b full amount n filled lasts) short in
      (
        h.left,
        h.empty,
        damage_mult-reeling full (beats full es) (n - ticks es) h (omega arith),
        λ last. ground (arith, h.left),
      )

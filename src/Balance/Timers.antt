-- ===== src/Balance/Timers.antt =====
-- What a step does before anything acts: `_timers`, the four draws, and `_well` of balance.py.
pub mod Frame
use alzendor.Prelude.{◌-◌, Bool, false, ◌&&◌, Option, none, some, List, [], ◌∷◌, ltb, if◌then◌else◌}
use alzendor.Prelude.Int.{ℤ, neg_ℤ, is_positive, is_zero, count_down}
use alzendor.Real.{Real, ◌+F◌, ◌-F◌, ◌*F◌, ◌/F◌, ◌<F◌, int, dec, min_F}
use alzendor.Balance.Rules.{steps, dt}
use alzendor.Balance.Dot.{Debuff, Dot, Event, recover, uniform, fade}
use alzendor.Balance.Knock.{add_debuff}

-- Counting down t ends it now.
abbrev pub ends : ℤ → Bool
ends t = is_positive t && is_zero (count_down t)

module _ {F : Type 0} where
  -- One step less, or gone.
  abbrev pub ticked : Option (Debuff F) → Option (Debuff F)
  ticked none = none
  ticked (some e) = if ltb 0 (e.left - 1) then some (record e { left = e.left - 1 }) else none

module _ {F : Type 0} ⦃r : Real F⦄ where
  -- The wobble that follows a dodge starts as its `invuln` ends.
  abbrev pub wobbles : Dot F → Bool
  wobbles d = ends d.invuln && d.wobble_after

  unfoldable pub timers : Dot F → Dot F × List Event
  timers d =
      let with_wobble =
        if wobbles d
        then (add_debuff d "wobble" (int 1) d.rules.wobble_ms).debuffs
        else d.debuffs in
      (
        record d {
          cool = λ slot. count_down (d.cool slot);
          dodge_cd = count_down d.dodge_cd;
          breath = count_down d.breath;
          invuln = count_down d.invuln;
          wobble_after = if wobbles d then false else d.wobble_after;
          stagger = count_down d.stagger;
          immune = if ends d.stagger then steps d.rules.stagger_immune_ms else count_down d.immune;
          debuffs = λ kind. ticked (with_wobble kind);
        },
        if ends d.stagger then recover ∷ [] else [],
      )

  -- dot.draws = (rng.next(), rng.next(), rng.next(), rng.next())
  unfoldable pub draw : Dot F → Dot F
  draw d =
      let (s1, u1) = uniform d.rng in
      let (s2, u2) = uniform s1 in
      let (s3, u3) = uniform s2 in
      let (s4, u4) = uniform s3 in record d { rng = s4; draws = (u1, u2, u3, u4) }

  unfoldable pub well : Dot F → Dot F
  well d =
      let reel = min_F (int 1) (fade d "reeling") in
      let u1 = d.draws.0 in
      let u2 = d.draws.1 in
      let spin = if u1 <F dt *F (dec 8 100 +F dec 6 10 *F reel) then neg_ℤ d.spin else d.spin in
      let p = dt *F (dec 25 100 +F reel) in
      let lo = d.rules.well_lo in
      let target = if u2 <F p then lo +F (d.rules.well_hi -F lo) *F (u2 /F p) else d.well_target in
      record d {
        spin = spin;
        well_target = target;
        well_r = d.well_r +F (target -F d.well_r) *F (int 1 -F r.exp (r.neg (dec 8 10) *F dt));
        well_a = d.well_a +F r.of_int spin *F d.rules.well_speed *F (int 1 +F int 3 *F reel) *F dt;
      }

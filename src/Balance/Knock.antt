-- ===== src/Balance/Knock.antt =====
-- What moves or marks a dot: `add_debuff`, `tier`, `strike_check`, `apply_kick`, `stagger` and
-- `steady_hands` of balance.py.
pub mod Frame
pub mod Check
use text.Mathlib.Text.{◌==◌ as str_eq}
use alzendor.Prelude.{
  ℕ, zero, String, Bool, true, false, not, ◌&&◌, ◌||◌, Option, none, some, List, [], ◌∷◌,
  if◌then◌else◌,
}
use alzendor.Prelude.Int.{ℤ, pos, negsuc, is_positive, at_least_one}
use alzendor.Real.{Real, ◌+F◌, ◌-F◌, ◌*F◌, ◌/F◌, ◌≤F◌, ◌<F◌, int, dec, max_F}
use alzendor.Balance.Rules.{steps, tau}
use alzendor.Balance.Dot.{
  Pattern, bump, side, taps, Gear, Debuff, Dot, Reason, staggered, not_steady, cooldown, empty,
  Event, steadied, dist, core, is_staggered,
}

-- A dict with one key written.
abbrev pub put {ℓ} : {A : Type ℓ} → (String → A) → String → A → String → A
put f k v = λ j. if str_eq j k then v else f j

module _ {F : Type 0} ⦃r : Real F⦄ where
  -- `max(strength, old[0]) if old else strength`
  abbrev larger : F → Option (Debuff F) → F
  larger strength none = strength
  larger strength (some old) = max_F strength old.strength

  unfoldable pub add_debuff : Dot F → String → F → F → Dot F
  add_debuff d kind strength ms =
      let total = at_least_one (steps (ms *F d.rules.debuff_scale)) in
      record d {
        debuffs = put d.debuffs kind (
            some (record {
              strength = larger strength (d.debuffs kind);
              left = total;
              total = total;
            }));
      }

  -- 0 edge, 1 clean, 2 perfect.
  unfoldable pub tier : Dot F → ℕ
  tier d = if dist d ≤F d.rules.perfect_r then 2 else if dist d ≤F d.rules.clean_r then 1 else 0

  -- Why a strike with this slot can't happen now, or none if it can. `dist > core` is false
  -- where one of them is not a number, so it is not written as the negation of `≤`.
  unfoldable pub strike_check : Dot F → ℕ → Option Reason
  strike_check d slot =
      if is_staggered d
      then some staggered
      else if d.blocking || (core d <F dist d)
      then some not_steady
      else if is_positive (d.cool slot)
      then some cooldown
      else elim (d.slots slot) [ none ↦ some empty | some g ↦ none ]

  -- Whether a kick knocks the dot.
  abbrev knocks : Dot F → F → Bool
  knocks d kick = if int 0 <F kick then true else d.knocked

  -- The dot with `kick` added to its velocity in direction `angle`.
  abbrev pub pushed : Dot F → F → F → Dot F
  pushed d kick angle = record d {
    vx = d.vx +F kick *F r.cos angle;
    vy = d.vy +F kick *F r.sin angle;
  }

  abbrev sideways : Dot F → F → Dot F × F
  sideways d kick =
      let u = d.draws.3 in
      let sign : ℤ = if u <F dec 1 2 then negsuc 0 else pos 1 in
      let lean = r.fmod (u *F int 2) (int 1) *F int 2 -F int 1 in
      let dx = r.of_int sign *F kick in
      let dy = kick *F dec 2 10 *F lean in
      (record d { vx = d.vx +F dx; vy = d.vy +F dy; knocked = knocks d kick }, r.atan2 dy dx)

  abbrev along : Dot F → F → F → Dot F × F
  along d kick angle = (pushed (record d { knocked = knocks d kick }) kick angle, angle)

  -- The knocked dot, and the direction it was knocked in.
  unfoldable pub apply_kick : Dot F → F → Pattern → Option F → Dot F × F
  apply_kick d kick side angle = sideways d kick
  apply_kick d kick bump none = along d kick (d.draws.3 *F tau)
  apply_kick d kick bump (some angle) = along d kick angle
  apply_kick d kick taps none = along d kick (d.draws.3 *F tau)
  apply_kick d kick taps (some angle) = along d kick angle

  -- The dot on the rim where it hit, and the point that it eases back to.
  unfoldable pub stagger : Dot F → F → Dot F
  stagger d angle =
      let back = angle +F (d.draws.3 *F int 2 -F int 1) *F dec 8 10 in
      record d {
        x = r.cos angle;
        y = r.sin angle;
        vx = int 0;
        vy = int 0;
        stagger = steps d.rules.stagger_ms;
        knocked = true;
        sx = dec 35 100 *F r.cos back;
        sy = dec 35 100 *F r.sin back;
      }

-- Whether `steady_hands` catches a stagger; the caller marks the dot by `steady` and reports it.
abbrev pub catches : {F : Type 0} → Dot F → Bool
catches d = d.perks "steady_hands" && not d.steadied

abbrev pub steady : {F : Type 0} → Dot F → Dot F
steady d = record d { steadied = true }

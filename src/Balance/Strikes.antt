-- ===== src/Balance/Strikes.antt =====
-- Acts, buffered strikes and volleys: `_act`, `_strike`, `cancel_volleys`, `_volleys` of balance.py,
-- and the part of `step` that tries a buffered strike. `none` is a KeyError: `dot.slots[slot]` of
-- a slot that holds no gear.
pub mod Frame
pub mod Armed
pub mod Fire
pub mod View
pub mod Calm
use text.Mathlib.Text.{◌==◌ as str_eq}
use alzendor.Prelude.{
  ℕ, ◌+◌, ◌-◌, String, Bool, true, false, not, ◌&&◌, Option, none, some, List, [], ◌∷◌, ◌++◌, ltb,
  ◌==◌, if◌then◌else◌, ◌>>=◌,
}
use alzendor.Prelude.Int.{ℤ, is_positive, ltb_ℤ, max_ℤ, pred_ℤ, at_least_one}
use alzendor.Real.{Real, int}
use alzendor.Balance.Rules.{steps}
use alzendor.Balance.Dot.{
  taps, bump, side, Pattern, Gear, Pending, Volley, Dot, Act, dodge, block, unblock, Reason,
  staggered, cooldown, empty, blocking, no_shield, Refused, Event, refused, is_staggered,
}
use alzendor.Balance.Knock.{tier, strike_check, apply_kick}
use alzendor.Balance.Blows.{cursed}

-- A buffered strike that can't happen: dropped for good, or kept for a step more.
abbrev pub gives_up : Reason → ℤ → Bool
gives_up empty left = true
gives_up why left = not (is_positive left)

module _ {F : Type 0} ⦃r : Real F⦄ where
  -- Why a dodge is refused.
  abbrev pub dodge_check : Dot F → Option Reason
  dodge_check d =
      if is_staggered d
      then some staggered
      else if d.blocking
      then some blocking
      else if is_positive d.dodge_cd
      then some cooldown
      else none

  abbrev dodged : Dot F → Option Reason → Dot F × List Event
  dodged d (some why) = (d, refused Refused.dodge why ∷ [])
  dodged d none = (
    record d {
      invuln = steps d.rules.dodge_ms;
      dodge_cd = steps d.rules.dodge_cd_ms;
      wobble_after = true;
    },
    Event.dodge ∷ [],
  )

  -- By whether the dot has a shield, and whether it is up.
  unfoldable pub braced : Bool → Bool → Dot F → Dot F × List Event
  braced false up d = (d, refused Refused.block no_shield ∷ [])
  braced true true d = (d, [])
  braced true false d = (record d { blocking = true; block_n = d.n }, [])

  unfoldable pub act : Dot F → Act → Dot F × List Event
  unfolding braced
  act d (Act.strike slot target) = (
    record d {
      pending = some (record { slot = slot; target = target; left = steps d.rules.buffer_ms });
    },
    [],
  )
  act d dodge = dodged d (dodge_check d)
  act d block = braced d.shield d.blocking d
  act d unblock = (record d { blocking = false }, [])

  unfoldable pub act_all : Dot F → List Act → Dot F × List Event
  unfolding act
  act_all d [] = (d, [])
  act_all d (a ∷ as') = let (d1, e1) = act d a in let (d2, e2) = act_all d1 as' in (d2, e1 ++ e2)

  -- Long Breath, after a perfect strike.
  abbrev breath_after : Dot F → ℕ → ℤ
  breath_after d t = if t == 2 && d.perks "long_breath" then steps {F = F} (int 3000) else d.breath

  -- The slots' cooldowns after a strike: every slot waits at least the shared cooldown, and the
  -- struck one its own if that is longer.
  abbrev pub cool_after : Dot F → ℕ → Gear F → ℕ → ℤ
  cool_after d slot gear other =
      let shared = steps d.rules.global_cd_ms in
      if other == slot then max_ℤ (steps gear.cooldown) shared else elim (d.slots other) [
        | none ↦ d.cool other
        | some g ↦ if ltb_ℤ (d.cool other) shared then shared else d.cool other
      ]

  -- The dot after its own kick, and the direction of it.
  abbrev pub kicked : Dot F → ℕ → Gear F → Dot F × F
  kicked d slot gear =
      apply_kick (record d { breath = breath_after d (tier d); cool = cool_after d slot gear })
        gear.kick gear.pattern_of none

  -- The hits that follow the first.
  abbrev pub rest_of : Dot F → ℕ → Option String → Gear F → Volley F
  rest_of d slot target gear = record {
    slot = slot;
    target = target;
    tier = tier d;
    hit = 2;
    wait = at_least_one (steps gear.gap);
    angle = (kicked d slot gear).1;
  }

  abbrev pub more_hits : Dot F → ℕ → Option String → Gear F → List (Volley F)
  more_hits d slot target gear = if ltb 1 gear.hits then rest_of d slot target gear ∷ [] else []

  unfoldable pub strike_with : Dot F → ℕ → Option String → Gear F → Dot F × List Event
  strike_with d slot target gear =
      let d1 = cursed (kicked d slot gear).0 gear.debuff in
      (
        record d1 { volleys = d1.volleys ++ more_hits d slot target gear },
        Event.strike slot target (tier d) 1 gear.hits ∷ [],
      )

  -- `_strike`, by what the slot holds.
  unfoldable pub strike_found :
      Option (Gear F) → Dot F → ℕ → Option String → Option (Dot F × List Event)
  unfolding strike_with
  strike_found none d slot target = none
  strike_found (some gear) d slot target = some (strike_with d slot target gear)

  unfoldable pub strike : Dot F → ℕ → Option String → Option (Dot F × List Event)
  unfolding strike_found
  strike d slot target = strike_found (d.slots slot) d slot target

  unfoldable pub hold_back : Dot F → Pending → Reason → Dot F × List Event
  hold_back d p why =
      if gives_up why p.left
      then (record d { pending = none }, refused (Refused.strike p.slot) why ∷ [])
      else (record d { pending = some (record p { left = pred_ℤ p.left }) }, [])

  unfoldable pub checked : Dot F → Pending → Option Reason → Option (Dot F × List Event)
  unfolding strike hold_back
  checked d p none = strike (record d { pending = none }) p.slot p.target
  checked d p (some why) = some (hold_back d p why)

  unfoldable pub fire_pending : Dot F → Option Pending → Option (Dot F × List Event)
  unfolding checked
  fire_pending d none = some (d, [])
  fire_pending d (some p) = checked d p (strike_check d p.slot)

  -- `if dot.pending:` of `step`
  unfoldable pub fire : Dot F → Option (Dot F × List Event)
  unfolding fire_pending
  fire d = fire_pending d d.pending

-- `target` is given and differs, or is not given: what `cancel_volleys` keeps.
abbrev stays : {F : Type 0} → Option String → Volley F → Bool
stays none v = false
stays (some target) v = elim v.target [ none ↦ true | some t ↦ not (str_eq t target) ]

abbrev keep_volleys : {F : Type 0} → Option String → List (Volley F) → List (Volley F)
keep_volleys target [] = []
keep_volleys target (v ∷ vs) =
    let rest = keep_volleys target vs in if stays target v then v ∷ rest else rest

unfoldable pub cancel_volleys : {F : Type 0} → Dot F → Option String → Dot F
cancel_volleys d target = record d { volleys = keep_volleys target d.volleys }

-- What one volley leaves: the dot, whether and how it goes on, and its hit.
pub record Hit (F : Type 0) : Type 0 where
  pub dot : Dot F
  pub kept : List (Volley F)
  pub events : List Event

module _ {F : Type 0} ⦃r : Real F⦄ where
  -- Only taps go on in the direction of the first hit.
  abbrev pub same_way : Pattern → F → Option F
  same_way taps angle = some angle
  same_way bump angle = none
  same_way side angle = none

  unfoldable pub hit_now : Dot F → Volley F → Gear F → Hit F
  hit_now d v gear = record {
    dot = (apply_kick d gear.kick gear.pattern_of (same_way gear.pattern_of v.angle)).0;
    kept =
        if ltb v.hit gear.hits
        then record v { hit = v.hit + 1; wait = at_least_one (steps gear.gap) } ∷ []
        else [];
    events = Event.strike v.slot v.target v.tier v.hit gear.hits ∷ [];
  }

  -- By whether it waits on, and what its slot holds.
  unfoldable pub volley_when : Bool → Option (Gear F) → Dot F → Volley F → Option (Hit F)
  unfolding hit_now
  volley_when true gear d v =
      some (record { dot = d; kept = record v { wait = v.wait - 1 } ∷ []; events = [] })
  volley_when false none d v = none
  volley_when false (some gear) d v = some (hit_now d v gear)

  unfoldable pub one_volley : Dot F → Volley F → Option (Hit F)
  unfolding volley_when
  one_volley d v = volley_when (ltb 0 (v.wait - 1)) (d.slots v.slot) d v

  unfoldable pub run_volleys : Dot F → List (Volley F) → Option (Hit F)
  unfolding one_volley
  run_volleys d [] = some (record { dot = d; kept = []; events = [] })
  run_volleys d (v ∷ vs) = do
    h ← one_volley d v
    rest ← run_volleys h.dot vs
    some (record { dot = rest.dot; kept = h.kept ++ rest.kept; events = h.events ++ rest.events })

  -- `_volleys`
  unfoldable pub volleys : Dot F → Option (Dot F × List Event)
  unfolding run_volleys
  volleys d = do h ← run_volleys d d.volleys; some (record h.dot { volleys = h.kept }, h.events)

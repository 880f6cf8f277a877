-- ===== src/Balance/Blows.antt =====
-- An NPC's attack landing on a dot: `apply_blow` of balance.py, and the loop over a step's blows.
pub mod Frame
pub mod Quiet
pub mod Immune
use alzendor.Prelude.{
  Bool, true, false, not, ◌&&◌, ◌||◌, Option, none, some, List, [], ◌∷◌, ◌++◌, if◌then◌else◌,
}
use alzendor.Prelude.Int.{is_positive, is_zero, sub_ℕ, leb_ℤ}
use alzendor.Real.{Real, ◌*F◌, ◌≤F◌, ◌<F◌, int}
use alzendor.Balance.Rules.{steps}
use alzendor.Balance.Dot.{
  Curse, Defend, both, only_block, only_dodge, neither, Blow, Dot, Result, parting, dodged, blocked,
  perfect_block, while_staggered, hit, Event, steadied, blow_stagger, blow, is_staggered,
}
use alzendor.Balance.Knock.{add_debuff, pushed, stagger, catches, steady}

-- blow.defend not in ("block", "none")
abbrev pub can_dodge : Defend → Bool
can_dodge both = true
can_dodge only_dodge = true
can_dodge only_block = false
can_dodge neither = false

-- blow.defend not in ("dodge", "none")
abbrev pub can_block : Defend → Bool
can_block both = true
can_block only_block = true
can_block only_dodge = false
can_block neither = false

-- What a blow did: `result`, `stagger`, and what the call added to `events`.
pub record Landed (F : Type 0) : Type 0 where
  pub dot : Dot F
  pub result : Result
  pub stagger : Bool
  pub caught : List Event

module _ {F : Type 0} ⦃r : Real F⦄ where
  abbrev pub cursed : Dot F → Option (Curse F) → Dot F
  cursed d none = d
  cursed d (some c) = add_debuff d c.kind c.strength c.ms

  -- The knock of a blow that nothing met; a staggered dot stands still.
  abbrev pub struck : Dot F → Blow F → Dot F
  struck d b =
      if is_staggered d
      then d
      else pushed (record d { knocked = if int 0 <F b.kick then true else d.knocked }) b.kick
          b.angle

  -- Whether it would stagger the dot, were its hands not steady.
  abbrev pub would_stagger : Dot F → Blow F → Bool
  would_stagger d b =
      (b.stagger || (d.rules.stagger_kick ≤F b.kick)) && not (is_staggered d) && is_zero d.immune

  -- A blow that nothing met, after its knock: whether it would stagger, and whether the dot's
  -- steady hands would catch that.
  unfoldable pub unmet_when : Bool → Bool → Dot F → Blow F → Result → Landed F
  unmet_when false steadies d b result = record {
    dot = cursed d b.debuff;
    result = result;
    stagger = false;
    caught = [];
  }
  unmet_when true true d b result = record {
    dot = cursed (steady d) b.debuff;
    result = result;
    stagger = false;
    caught = steadied ∷ [];
  }
  unmet_when true false d b result = record {
    dot = cursed (stagger d b.angle) b.debuff;
    result = result;
    stagger = true;
    caught = [];
  }

  unfoldable pub unmet : Dot F → Blow F → Landed F
  unfolding unmet_when
  unmet d b =
      unmet_when (would_stagger d b) (catches d) (struck d b) b
        (if is_staggered d then while_staggered else hit)

  -- d.n - d.block_n <= steps(defend_perfect_ms)
  abbrev pub in_time : Dot F → Bool
  in_time d = leb_ℤ (sub_ℕ d.n d.block_n) (steps d.rules.defend_perfect_ms)

  -- By whether it is a parting blow, whether it is dodged and whether it is blocked.
  unfoldable pub meet : Bool → Bool → Bool → Dot F → Blow F → Landed F
  unfolding unmet
  meet true dodges blocks d b = record { dot = d; result = parting; stagger = false; caught = [] }
  meet false true blocks d b = record { dot = d; result = dodged; stagger = false; caught = [] }
  meet false false true d b = record {
    dot = pushed d (b.kick *F d.rules.block_kick) b.angle;
    result = if in_time d then perfect_block else blocked;
    stagger = false;
    caught = [];
  }
  meet false false false d b = unmet d b

  abbrev pub dodges : Dot F → Blow F → Bool
  dodges d b = is_positive d.invuln && can_dodge b.defend

  abbrev pub blocks : Dot F → Blow F → Bool
  blocks d b = d.blocking && not (is_staggered d) && can_block b.defend

  unfoldable pub apply_blow : Dot F → Blow F → Landed F
  unfolding meet
  apply_blow d b = meet b.parting (dodges d b) (blocks d b) d b

  abbrev pub blow_events : Landed F → List Event
  blow_events l =
      blow l.result l.stagger ∷ (l.caught ++ (if l.stagger then blow_stagger ∷ [] else []))

  unfoldable pub land : Dot F → List (Blow F) → Dot F × List Event
  unfolding apply_blow
  land d [] = (d, [])
  land d (b ∷ bs) =
      let l = apply_blow d b in let (d', events) = land l.dot bs in (d', blow_events l ++ events)

-- ===== src/Encounter/Turn.antt =====
-- `Owner._run_step` of encounter.py: blows announced and landing, every active dot, the bosses.
pub mod Kept
pub mod Here
pub mod Landings
use Prim.Native.Nat.{lt, eq, gt}
use Prim.Native.String.{compare}
use text.Mathlib.Text.{◌==◌ as str_eq}
use alzendor.Prelude.{
  ℕ, suc, ◌+◌, ◌-◌, String, Bool, true, false, not, ◌&&◌, ◌||◌, Option, none, some, List, [], ◌∷◌,
  ◌++◌, length, ltb, leb, ◌==◌, if◌then◌else◌, ◌>>=◌,
}
use alzendor.Prelude.Int.{ℤ, pos, pos_part, leb_ℤ, is_zero}
use alzendor.Real.{Real, ◌<F◌, int}
use alzendor.Balance.Rules.{steps}
use alzendor.Balance.Dot.{Blow, Dot, Event, Result, dist, core, is_staggered}
use alzendor.Balance.Snapshot.{snapshot}
use alzendor.Balance.Step.{Input, step}
use alzendor.Balance.Boss as Meter
use alzendor.Balance.Boss.{Boss}
use alzendor.Encounter.Data.{Npc, Incoming, Denied, flee_not_steady, Call, Entry, Player}
use alzendor.Encounter.Clock.{Party, Clocked, npcs_step}
use alzendor.Encounter.Report.{Reporter, Report, reportable}

-- a < b, by code points
abbrev text_before : String → String → Bool
text_before a b = elim (compare a b) [ lt ↦ true | eq ↦ false | gt ↦ false ]

module _ {F : Type 0} where
  -- By the key (join_ms, pid).
  abbrev pub joined_before : Player F → Player F → Bool
  joined_before p q = ltb p.join_ms q.join_ms || (p.join_ms == q.join_ms && text_before p.pid q.pid)

  abbrev pub first_of : Player F → List (Player F) → Player F
  first_of p [] = p
  first_of p (q ∷ qs) = first_of (if joined_before q p then q else p) qs

  -- `_first_player`, by its pid.
  abbrev pub first_player : List (Player F) → Option String
  first_player [] = none
  first_player (p ∷ ps) = some (first_of p ps).pid

  abbrev pub has_player : List (Player F) → String → Bool
  has_player [] pid = false
  has_player (p ∷ ps) pid = let rest = has_player ps pid in str_eq p.pid pid || rest

  abbrev pub party : List (Player F) → Party
  party ps = record { first = first_player ps; here = has_player ps }

  abbrev has_boss : Option (Boss F) → Bool
  has_boss none = false
  has_boss (some b) = true

  -- `nid in self.npcs and self.npcs[nid].boss`
  abbrev pub is_boss : List (Npc F) → String → Bool
  is_boss [] nid = false
  is_boss (npc ∷ rest) nid =
      let others = is_boss rest nid in if str_eq npc.nid nid then has_boss npc.boss else others

  -- What lands on a player, in order.
  abbrev pub on_player : String → List (Incoming F) → List (Incoming F)
  on_player pid [] = []
  on_player pid (m ∷ ms) =
      let rest = on_player pid ms in if str_eq pid m.target then m ∷ rest else rest

  abbrev pub blows_of : List (Incoming F) → List (Blow F)
  blows_of [] = []
  blows_of (m ∷ ms) = m.blow ∷ blows_of ms

  -- A player not on their feet yet: it just lands.
  abbrev pub just_lands : String → List (Incoming F) → List Call
  just_lands pid [] = []
  just_lands pid (m ∷ ms) = Call.blow m.nid m.n pid Result.hit ∷ just_lands pid ms

  abbrev pub drop_first : List (Entry F) → List (Entry F)
  drop_first [] = []
  drop_first (e ∷ es) = es

  -- A deque of at most `most` entries.
  abbrev pub remember : ℕ → List (Entry F) → Entry F → List (Entry F)
  remember most history e =
      let all = history ++ (e ∷ []) in if ltb most (length all) then drop_first all else all

-- REWIND_STEPS
abbrev pub rewind_steps : (F : Type 0) ⦃r : Real F⦄ → ℕ
rewind_steps F = pos_part (steps {F = F} (int 200))

module _ {F : Type 0} ⦃r : Real F⦄ where
  abbrev pub flees : Player F → Option String → List Call
  flees p none = []
  flees p (some direction) =
      if is_staggered p.dot || (core p.dot <F dist p.dot)
      then Call.refused p.pid flee_not_steady ∷ []
      else Call.flee p.pid direction ∷ []

  abbrev pub turn_input : Player F → List (Incoming F) → Input F
  turn_input p mine = record { keys = p.keys; acts = p.acts; blows = blows_of mine }

  abbrev pub entry_of : ℕ → Player F → List (Incoming F) → List Call → Entry F
  entry_of n p mine calls = record {
    at = n;
    snap = snapshot p.dot;
    keys = p.keys;
    acts = p.acts;
    blows = blows_of mine;
    reported = calls;
  }

  abbrev pub turn_reporter : List (Npc F) → Player F → Reporter
  turn_reporter npcs p = record { pid = p.pid; berserk = p.berserk; is_boss = is_boss npcs }

  -- A player's part in step n, by whether its dot's first step comes after this one.
  unfoldable pub player_turn :
      Bool → List (Npc F) → ℕ → List (Incoming F) → Player F → Option (Player F × List Call)
  player_turn true npcs n mine p = some (p, just_lands p.pid mine)
  player_turn false npcs n mine p = do
    (d, events) ← step p.dot (turn_input p mine)
    report ← reportable (turn_reporter npcs p) p.sealed events mine
    some (
      record p {
        dot = d;
        acts = [];
        flee = none;
        sealed = report.sealed;
        history = remember (rewind_steps F) p.history (entry_of n p mine report.calls);
      },
      flees p p.flee ++ report.calls,
    )

  abbrev pub waits_to_join : ℕ → Player F → Bool
  waits_to_join n p = leb_ℤ (pos n) p.join

  unfoldable pub players_turn :
      List (Npc F) → ℕ → List (Incoming F) → List (Player F) → Option (List (Player F) × List Call)
  unfolding player_turn
  players_turn npcs n landed [] = some ([], [])
  players_turn npcs n landed (p ∷ ps) = do
    (p', calls) ← player_turn (waits_to_join n p) npcs n (on_player p.pid landed) p
    (ps', rest) ← players_turn npcs n landed ps
    some (p' ∷ ps', calls ++ rest)

  -- A boss a step on, and whether it steadies.
  abbrev pub boss_turn : String → Option (Boss F) → Option (Boss F) × List Call
  boss_turn nid none = (none, [])
  boss_turn nid (some b) = (
    some (Meter.step b),
    if not (is_zero b.staggered) && is_zero (Meter.step b).staggered
        then Call.note nid ∷ []
        else [],
  )

  abbrev pub bosses_turn : List (Npc F) → List (Npc F) × List Call
  bosses_turn [] = ([], [])
  bosses_turn (npc ∷ rest) =
      let (boss, calls) = boss_turn npc.nid npc.boss in
      let (others, more) = bosses_turn rest in (record npc { boss = boss } ∷ others, calls ++ more)

-- What the owner keeps between steps, of what a step reads.
pub record Fight (F : Type 0) : Type 0 where
  pub step : ℕ
  pub players : List (Player F)
  pub npcs : List (Npc F)
  pub rolled : ℕ

module _ {F : Type 0} ⦃r : Real F⦄ where
  -- `self.step += 1` and `_run_step` of it; `rolls` are the draws of `random.Random()`.
  unfoldable pub run_step : (ℕ → F) → Fight F → Option (Fight F × List Call)
  unfolding npcs_step players_turn
  run_step rolls f = do
    let n = suc f.step
    let c = npcs_step rolls (party f.players) f.rolled n f.npcs
    (players, calls) ← players_turn c.after n c.landed f.players
    let (npcs, notes) = bosses_turn c.after
    some (record { step = n; players = players; npcs = npcs; rolled = c.rolled }, calls ++ notes)

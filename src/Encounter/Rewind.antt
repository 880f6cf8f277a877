-- ===== src/Encounter/Rewind.antt =====
-- `Owner._rewind` of encounter.py: an input that a client applied at a step that the owner has
-- already run.
pub mod Recorded
pub mod Clock
pub mod Unclean
use alzendor.Prelude.{
  ℕ, ◌≡◌, String, Bool, true, false, not, ◌&&◌, Option, none, some, List, [], ◌∷◌, ◌++◌, ltb,
  if◌then◌else◌, ◌>>=◌,
}
use alzendor.Real.{Real}
use alzendor.Balance.Dot.{Dot, Act, Event}
use alzendor.Balance.Snapshot.{snapshot, restore}
use alzendor.Balance.Step.{Input, step}
use alzendor.Encounter.Data.{Entry, Player, Call}
use alzendor.Encounter.Report.{Reporter, Report, reportable}

-- What was done at the step: other keys held, or an act.
pub record Done : Type 0 where
  pub keys : Option ℕ
  pub act : Option Act

abbrev pub is_empty : {A : Type 0} → List A → Bool
is_empty [] = true
is_empty (x ∷ xs) = false

abbrev pub is_act : Option Act → Bool
is_act none = false
is_act (some a) = true

-- The history is in the order of its steps: what comes before step `at`, and from it on. None is
-- from it on exactly where there is no history, or the step is after the last of it.
abbrev pub before : {F : Type 0} → ℕ → List (Entry F) → List (Entry F)
before at [] = []
before at (e ∷ es) = let rest = before at es in if ltb e.at at then e ∷ rest else []

abbrev pub since : {F : Type 0} → ℕ → List (Entry F) → List (Entry F)
since at [] = []
since at (e ∷ es) = let rest = since at es in if ltb e.at at then rest else e ∷ es

-- Nothing in between has gone to Lua.
abbrev pub is_clean : {F : Type 0} → List (Entry F) → Bool
is_clean [] = true
is_clean (e ∷ es) = let rest = is_clean es in is_empty e.blows && is_empty e.reported && rest

abbrev keys_now : Option ℕ → ℕ → ℕ
keys_now none keys = keys
keys_now (some held) keys = held

abbrev acts_now : Option Act → List Act → List Act
acts_now none acts = acts
acts_now (some a) acts = acts ++ (a ∷ [])

-- A replay: the dot it comes to, the player's seal, the new entries and what is now reported.
pub record Replayed (F : Type 0) : Type 0 where
  pub dot : Dot F
  pub sealed : Bool
  pub entries : List (Entry F)
  pub reported : List Call

-- The player after a rewind, whether it was applied, and what is reported late.
pub record Rewound (F : Type 0) : Type 0 where
  pub player : Player F
  pub applied : Bool
  pub late : List Call

module _ {F : Type 0} ⦃r : Real F⦄ where
  -- An entry with what was done, and the snapshot of the dot before it.
  abbrev pub redone : Dot F → Option ℕ → Option Act → Entry F → Entry F
  redone scratch keys act e = record e {
    snap = snapshot scratch;
    keys = keys_now keys e.keys;
    acts = acts_now act e.acts;
  }

  abbrev pub input_of : Entry F → Input F
  input_of e = record { keys = e.keys; acts = e.acts; blows = e.blows }

  -- What a replayed step reports: only a clean replay reports anew.
  unfoldable pub report_again :
      Reporter → Bool → Bool → List Event → Entry F → Option (Entry F × Report)
  report_again who true sealed events e = do
    report ← reportable {F = F} who sealed events []
    some (record e { reported = report.calls }, report)
  report_again who false sealed events e = some (e, record { calls = []; sealed = sealed })

  -- Only the first entry has the act.
  unfoldable pub replay :
      Reporter → Bool → Option ℕ → Option Act → Dot F → Bool → List (Entry F) → Option (Replayed F)
  unfolding report_again
  replay who clean keys act scratch sealed [] =
      some (record { dot = scratch; sealed = sealed; entries = []; reported = [] })
  replay who clean keys act scratch sealed (e ∷ es) = do
    (d, events) ← step scratch (input_of (redone scratch keys act e))
    (e', report) ← report_again who clean sealed events (redone scratch keys act e)
    rest ← replay who clean keys none d report.sealed es
    some (record rest { entries = e' ∷ rest.entries; reported = report.calls ++ rest.reported })

  -- Only where the dot is, and how it moves: REWOUND.
  abbrev pub rewound : Dot F → Dot F → Dot F
  rewound d scratch = record d {
    x = scratch.x;
    y = scratch.y;
    vx = scratch.vx;
    vy = scratch.vy;
    stagger = scratch.stagger;
    sx = scratch.sx;
    sy = scratch.sy;
    immune = scratch.immune;
    wobble_clock = scratch.wobble_clock;
  }

  -- The player's dot after a replay.
  abbrev pub replaced : Bool → Dot F → Dot F → Dot F
  replaced clean d scratch = if clean then restore d (snapshot scratch) else rewound d scratch

  abbrev pub reporter : (String → Bool) → Player F → Reporter
  reporter is_boss p = record { pid = p.pid; berserk = p.berserk; is_boss = is_boss }

  -- A player whose steps from some step on are replayed.
  unfoldable pub rewind_from :
      (String → Bool)
      → Player F
      → Done
      → Bool
      → List (Entry F)
      → Entry F
      → List (Entry F)
      → Option (Rewound F)
  unfolding replay
  rewind_from is_boss p done clean kept e es = do
    again ←
        replay (reporter is_boss p) clean done.keys done.act (restore p.scratch e.snap) p.sealed
          (e ∷ es)
    some (record {
      player = record p {
        dot = replaced clean p.dot again.dot;
        scratch = again.dot;
        sealed = again.sealed;
        history = kept ++ again.entries;
      };
      applied = true;
      late = again.reported;
    })

  abbrev pub not_applied : Player F → Rewound F
  not_applied p = record { player = p; applied = false; late = [] }

  unfoldable pub rewind_when :
      (String → Bool) → Player F → Done → List (Entry F) → List (Entry F) → Option (Rewound F)
  unfolding rewind_from
  rewind_when is_boss p done kept [] = some (not_applied p)
  rewind_when is_boss p done kept (e ∷ es) =
      let applied = rewind_from is_boss p done (is_clean (e ∷ es)) kept e es in
      if is_act done.act && not (is_clean (e ∷ es)) then some (not_applied p) else applied

  unfoldable pub rewind : (String → Bool) → Player F → ℕ → Done → Option (Rewound F)
  unfolding rewind_when
  rewind is_boss p at done = rewind_when is_boss p done (before at p.history) (since at p.history)

-- ===== src/Encounter/Tests.antt =====
-- An encounter on thousandths, and each theorem on encounter.py at one of its states.
use alzendor.Prelude.{
  ℕ, String, ◌+◌, ◌*◌, ◌≤◌, ◌<◌, ◌≡◌, refl, Bool, true, false, List, [], ◌∷◌, Option, none, some,
  arith, length, Succeeds-at,
}
use alzendor.Prelude.Int.{ℤ, pos}
use alzendor.Real.Coarse.{thousandths}
use alzendor.Balance.Rng
use alzendor.Balance.Rules.{default_rules, steps}
use alzendor.Balance.Dot.{Blow, both, Dot, Event, new_dot}
use alzendor.Balance.Boss.{Boss}
use alzendor.Balance.Snapshot.{snapshot, restore}
use alzendor.Balance.Knock.{stagger}
use alzendor.Balance.Step.{Input, step}
use alzendor.Encounter.Data.{AttackInfo, Attack, Npc, Incoming, Call, Player}
use alzendor.Encounter.Clock.{
  Party, attack_steps, skip_attack, new_attack, new_npc, attack_step, attacks_step, land_at,
  npcs_step, Clock, Turn, ahead, skip, reels, delayed, turns,
}
use alzendor.Encounter.Clock.Schedule.{AllOnTime, IsOnTime, turns-IsOnTime, skip_attack_lem}
use alzendor.Encounter.Clock.Rhythm.{attack_rhythm}
use alzendor.Encounter.Report.{Reporter, Report, reportable}
use alzendor.Encounter.Report.Total.{is_seal, calls_of, seals_left, each, blow_of, how_of, results}
use alzendor.Encounter.Report.Step.{step_reported}
use alzendor.Encounter.Rewind.{Done, is_act, Rewound, rewind}
use alzendor.Encounter.Rewind.Recorded.{IsKept}
use alzendor.Encounter.Rewind.Clock.{rewind_clock}
use alzendor.Encounter.Rewind.Unclean.{unmoved, rewind_unclean}
use alzendor.Encounter.Turn.{party, has_player, player_turn, Fight, run_step}
use alzendor.Encounter.Input.{
  Texts, Message, Around, Answered, Desk, Post, sync, of_player, strike, release, aimed_at,
  target_of, input, take_inbox,
}
use alzendor.Encounter.Input.Safe.{input_safe}
use alzendor.Encounter.Input.Inbox.{take_inbox_safe}
use alzendor.Encounter.Loop.{Caught, catch_up}
use alzendor.Encounter.Loop.Reach.{catch_up_reaches}
use alzendor.Encounter.Turn.Kept.{Turned-player_turn}
use alzendor.Encounter.Turn.Here.{Distinct, blows_on, landed_on}
use alzendor.Encounter.Turn.Landings.{AllKept, run_step_reports}

abbrev claw : AttackInfo ℤ
claw = record {
  period = some (pos 100000);
  warn = none;
  kick = pos 500;
  defend = both;
  stagger = false;
  debuff = none;
}

-- Its claw comes down every 6 steps, first on step 6.
abbrev rat : Npc ℤ
rat = new_npc default_rules "rat" 0 (claw ∷ []) none

abbrev first_claw : Attack ℤ
first_claw = new_attack default_rules 0 1 claw

abbrev ogre : Boss ℤ
ogre = record { poise = pos 100000; rules = default_rules; meter = pos 0; staggered = pos 20 }

abbrev rolls : ℕ → ℤ
rolls k = pos 250

abbrev ann_here : Party
ann_here = record { first = some "ann"; here = λ pid. true }

abbrev start : Clock ℤ
start = record { step = 0; npcs = rat ∷ []; rolled = 0 }

abbrev all_turns : List (Turn ℤ)
all_turns = ahead ann_here ∷ skip 20 ∷ reels "rat" ogre ∷ ahead ann_here ∷ delayed "rat" 3 ∷ []

turns-IsOnTime_example : IsOnTime (turns rolls start all_turns)
unfolding new_npc new_attack steps
turns-IsOnTime_example =
    turns-IsOnTime rolls start all_turns
      ((record { comes_round = omega arith; to_land = omega arith }, tt), tt)

skip_attack_lem_example :
    (first_claw.land ≤ 20
      → (20 < (skip_attack 20 first_claw).land)
        × ((skip_attack 20 first_claw).land ≤ 20 + 6)
        × ((k : ℕ) × ((skip_attack 20 first_claw).land ≡ first_claw.land + 6 * k))
        × ((skip_attack 20 first_claw).angle ≡ none))
    × (20 < first_claw.land → skip_attack 20 first_claw ≡ first_claw)
unfolding new_attack steps
skip_attack_lem_example = skip_attack_lem 20 first_claw (omega arith)

attack_rhythm_example :
    let s = attack_steps rolls ann_here 40 0 0 "rat" first_claw in
    (s.attack.land ≡ 6 + length s.landed * 6)
    × (0 + 40 < s.attack.land)
    × (s.attack.land ≤ 0 + 40 + 6)
unfolding new_attack steps
attack_rhythm_example =
    attack_rhythm 40 0 0 rolls ann_here "ann" "rat" first_claw refl
      (record { comes_round = omega arith; to_land = omega arith }) (omega arith)

abbrev fighter : Dot ℤ
fighter = new_dot default_rules 7 (λ slot. none) true (λ perk. false)

abbrev ann_reports : Reporter
ann_reports = record { pid = "ann"; berserk = true; is_boss = λ nid. false }

abbrev clawed : Blow ℤ
clawed = record {
  kick = pos 2000;
  angle = pos 0;
  defend = both;
  stagger = false;
  debuff = none;
  parting = false;
}

abbrev hit : Input ℤ
hit = record { keys = 0; acts = []; blows = clawed ∷ [] }

abbrev claw_lands : List (Incoming ℤ)
claw_lands = record { target = "ann"; nid = "rat"; n = 1; blow = clawed } ∷ []

step_reported_example :
    (x : Dot ℤ × List Event) × (step fighter hit ≡ some x)
    × ((report : Report) × (reportable ann_reports false x.1 claw_lands ≡ some report)
        × (each blow_of report.calls ≡ ("rat", 1, "ann") ∷ [])
        × (each how_of report.calls ≡ results x.1)
        × (calls_of is_seal report.calls + seals_left ann_reports report.sealed ≡ 1))
unfolding new_dot
step_reported_example = step_reported ann_reports false fighter hit claw_lands tt refl

abbrev ann : Player ℤ
ann = record {
  pid = "ann";
  join_ms = 0;
  name = "Ann";
  berserk = false;
  join = pos 0;
  dot = fighter;
  gear = λ slot. none;
  keys = 0;
  seq = pos 0;
  acts = [];
  flee = none;
  sealed = false;
  history = [];
  scratch = fighter;
}

abbrev fight : Fight ℤ
fight = record { step = 5; players = ann ∷ []; npcs = rat ∷ []; rolled = 0 }

ann-IsKept : IsKept ann
unfolding new_dot
ann-IsKept = record { armed = tt; same_slots = refl; recorded = tt }

run_step_reports_example :
    (x : Fight ℤ × List Call) × (run_step rolls fight ≡ some x)
    × AllKept x.0.players
    × ((pid : String)
        → blows_on pid (each blow_of x.1)
          ≡ landed_on pid (npcs_step rolls (party fight.players) 0 6 fight.npcs).landed)
run_step_reports_example = run_step_reports rolls fight (refl, tt) (ann-IsKept, tt)

-- That step's claw lands on her.
one_landing : length (npcs_step rolls (party fight.players) 0 6 fight.npcs).landed ≡ 1
unfolding npcs_step attacks_step attack_step land_at new_npc new_attack steps
one_landing = refl

abbrev is_some : {A : Type 0} → Option A → Bool
is_some none = false
is_some (some x) = true

abbrev turned : Option (Player ℤ × List Call) → Player ℤ
turned none = ann
turned (some x) = x.0

abbrev calls_then : Option (Player ℤ × List Call) → List Call
calls_then none = []
calls_then (some x) = x.1

some-turned :
    (m : Option (Player ℤ × List Call)) → is_some m ≡ true → m ≡ some (turned m, calls_then m)
some-turned none h = absurd (ground arith)
some-turned (some x) h = refl

-- Ann after the step in which the claw hit her.
abbrev ann_turn : Option (Player ℤ × List Call)
ann_turn = player_turn false [] 6 claw_lands ann

abbrev ann_hit : Player ℤ
ann_hit = turned ann_turn

ann_hit-IsKept : IsKept ann_hit
unfolding player_turn step reportable new_dot Rng.next Rng.mix Rng.imul steps stagger
ann_hit-IsKept =
    (Succeeds-at (Turned-player_turn false [] 6 claw_lands ann ann-IsKept)
      (some-turned ann_turn refl)).kept

-- She held a key at that step, her client says.
abbrev leaned : Done
leaned = record { keys = some 1; act = none }

rewind_clock_example :
    (x : Rewound ℤ) × (rewind (λ nid. false) ann_hit 6 leaned ≡ some x)
    × (x.player.dot.n ≡ ann_hit.dot.n)
    × (x.player.dot.rng ≡ ann_hit.dot.rng)
    × IsKept x.player
rewind_clock_example = rewind_clock (λ nid. false) ann_hit 6 leaned ann_hit-IsKept

abbrev rewound : Option (Rewound ℤ) → Rewound ℤ
rewound none = record { player = ann; applied = true; late = [] }
rewound (some x) = x

some-rewound : (m : Option (Rewound ℤ)) → is_some m ≡ true → m ≡ some (rewound m)
some-rewound none h = absurd (ground arith)
some-rewound (some x) h = refl

abbrev ann_leaned : Rewound ℤ
ann_leaned = rewound (rewind (λ nid. false) ann_hit 6 leaned)

rewind_unclean_example :
    (unmoved ann_leaned.player.dot ≡ unmoved ann_hit.dot)
    × (ann_leaned.player.sealed ≡ ann_hit.sealed)
    × (ann_leaned.late ≡ [])
    × (is_act leaned.act ≡ true → (ann_leaned.applied ≡ false) × (ann_leaned.player ≡ ann_hit))
unfolding player_turn rewind step reportable new_dot Rng.next Rng.mix Rng.imul steps stagger restore
    snapshot
rewind_unclean_example =
    rewind_unclean (λ nid. false) ann_hit 6 leaned ann_leaned refl
      (some-rewound (rewind (λ nid. false) ann_hit 6 leaned) refl)

abbrev plain : Texts
plain = record { strip = λ text. text; lower = λ text. text }

abbrev rat_words : String → String × String
rat_words nid = ("rat", "rodent vermin")

-- Ann leans, and strikes with what she has not got, at the step that the claw hit her.
abbrev asks : Message
asks = record {
  pid = "ann";
  seq = some (pos 4);
  step = some (pos 6);
  keys = some (pos 17);
  act = strike (some (pos 2)) (some "rodent");
}

abbrev around_ann : Around ℤ
around_ann = record { texts = plain; words = rat_words; npcs = rat ∷ []; players = ann_hit ∷ [] }

input_safe_example :
    (x : Answered ℤ) × (input around_ann ann_hit asks ≡ some x)
    × IsKept x.player
    × (x.player.dot.n ≡ ann_hit.dot.n)
    × (x.player.dot.rng ≡ ann_hit.dot.rng)
    × (length x.player.acts ≤ length ann_hit.acts + 1)
input_safe_example = input_safe around_ann ann_hit asks ann_hit-IsKept

abbrev desk : Desk ℤ
desk = record { players = ann_hit ∷ []; ended = false; need_sync = false; late = [] }

abbrev posts : List Post
posts = of_player asks ∷ sync ∷ of_player (record asks { act = release }) ∷ []

take_inbox_safe_example :
    (x : Desk ℤ) × (take_inbox plain rat_words (rat ∷ []) desk posts ≡ some x)
    × AllKept x.players
    × Distinct x.players
    × ((pid : String) → has_player x.players pid ≡ has_player desk.players pid)
take_inbox_safe_example =
    take_inbox_safe plain rat_words (rat ∷ []) desk posts (refl, tt) (ann_hit-IsKept, tt)

-- The word names the rat.
target_of_word :
    target_of plain rat_words (rat ∷ []) (ann ∷ []) none (some "rodent") ≡ aimed_at "npc:rat"
unfolding target_of new_npc
target_of_word = refl

-- A minute behind.
abbrev behind : Fight ℤ
behind = record fight { step = 0 }

catch_up_reaches_example :
    (x : Caught ℤ) × (catch_up rolls behind 3600 ≡ some x)
    × (x.fight.step ≡ 3600)
    × AllKept x.fight.players
    × AllOnTime 3600 x.fight.npcs
unfolding new_npc new_attack steps
catch_up_reaches_example =
    catch_up_reaches rolls behind 3600 (ann-IsKept, tt)
      ((record { comes_round = omega arith; to_land = omega arith }, tt), tt) (omega arith)

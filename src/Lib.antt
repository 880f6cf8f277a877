-- ===== src/Lib.antt =====
-- Alzendor is a multiplayer text game. Its server, in Python (alzendor/), keeps the world in Redis,
-- where alzendor/alzendor.lua changes it; alzendor/world.py loads it from a seed, which it checks
-- first. Each connection is a session (alzendor/session.py), whose player alzendor/auth.py logs in.
-- The session reads the world through a feed (alzendor/feed.py), and hands what the player types to
-- alzendor/commands.py, whose handlers call Lua's functions. A fight is an encounter, which one server
-- owns and runs (alzendor/encounter.py): sixty steps a second, it simulates a dot for each player
-- (alzendor/balance.py), lands the NPCs' attacks on the dots, and reports what came of it as calls for
-- Lua to carry out; its state goes to the clients through their sessions. This library models these
-- parts.
--
-- Which file models what:
--   Prelude           names shared by the modules, tests into Bool, fallible steps (Outcome), ℤ (Int)
--   Real              the operations on floats that the code uses; Real/Coarse has thousandths, to run
--   Balance           alzendor/balance.py
--     Rng, Rules, Dot     Rng, imul, fnv1a, seed_for; steps, Rules; Gear, Blow, Dot, make_dot
--     Knock, Blows        add_debuff, tier, strike_check, apply_kick, stagger, steady_hands; apply_blow
--     Timers              _timers, the four draws, _well
--     Strikes             _act, _strike, cancel_volleys, _volleys, the buffered strike of step
--     Physics, Step       _physics; step, and runs of it
--     Snapshot, Boss      snapshot, restore; Boss
--     Same, Events        what the proofs look at of a dot and of its events
--   Encounter         alzendor/encounter.py
--     Data                Attack, Npc, Player, and the calls
--     Clock               the attacks in _run_step, _skip_to, _boss_reels, _add_npc, and the delay of
--                         attacks in _call
--     Report, Rewind      _reportable; _rewind
--     Turn                _run_step, whole
--     Input               _take_inbox, _input, _target
--     Loop                the steps of a tick of _loop, with _skip_to
--   Feed              alzendor/feed.py: open, read and the reads of a session
--   Text              Python's methods of str, by characters; Text/Words has split and join
--   Commands          alzendor/commands.py
--     Data, Table         Context, Command, Usage; COMMANDS, ALIASES, VERBS
--     Parse               clean, parse, target_id, _require, _split, _thing, _channel
--     Handlers            every handler, by its section: Rooms, Fights, Talks
--     Dispatch            Context.call, waiting_on, dispatch
--   Auth              alzendor/auth.py
--     Store               the counters and accounts in Redis, _count, _bump, _verify, the patterns
--     Login, Register     login; register: each one await at a time
--     Tokens              issue_token, resume, revoke
--   Session           alzendor/session.py
--     Data, Rate          the fields of Session; _take_allowance, and the rate of inputs in _input
--     Handle              _handle, _input
--     Delay               Delay, the fake latency
--     Forward             _forward, _send_states, _follow, and the events in _pump
--     Enter               _authenticate, _create_character
--   World             alzendor/world.py: the checks of the world as a whole
--     Reach               _reach
--     Effects, Graph      world_graph; _graph_problems
--     Quest               the walk over the steps in _quest_problems
-- Below each part the files are named for what they prove; Tests has runs and witnesses.
--
-- How the code is written down:
--   - State is passed on: a method that changes its object is a function to the new record, with the
--     events or calls that it appends beside it. A KeyError or IndexError is `none`.
--   - A float is of any type with the operations in Real. Nothing is assumed of them, so what is
--     proved holds for IEEE doubles with their rounding, infinities and NaN. What depends on their
--     arithmetic (where the dot goes) is computed by the model and not reasoned about.
--   - Python's int is ℕ where the code cannot make it negative, and ℤ of Prelude/Int where it comes
--     of `steps` of a float. The 32-bit stream of Rng has its masks written out as % 2 ^ 32.
--   - A dict or set that the code looks up by key is a function of the key; one that it walks is a
--     list in the order of its keys. JSON arrives as the values that it stands for.
--   - What goes by Unicode's tables is an argument of what uses it: str.strip and str.lower in
--     Encounter, and in Commands and Auth the case of a text and which characters are spaces, digits
--     or print.
--   - Where other connections may run during an await (auth.py), a method is a function from one await
--     to the next, and a list of moves says which connection goes on and when.
--   - A handler of a command is a constructor, and `handle` runs it, since HELP reads the registry that
--     holds HELP. The exception Usage is `hint` of Tried, and any other is `crash`.
--   - The clock of a session is in whole milliseconds, its allowance in thousandths of a message, and a
--     Delay's times in microseconds, where the code has floats. What Auth, Lua and the feed answer to a
--     session comes with its messages.
--   - `random.Random()` is its draws, by number. Redis is what it answers: XREAD is a parameter, and
--     the feed's theorem states what is asked of it.
--   - A seed is what the checks read of it. A set is a list, in which a member may stand twice; the order
--     of a set is of no account, and problems are told apart by constructors, not by their wording.
--     `reach` has as much fuel as there are starts and edges, and `walk_quest` as there are steps and
--     one; their theorems say that it is enough.
--   - The other loops run over lists, so nothing runs out of fuel. `reads` takes how many reads there
--     are, and its theorem says how many are enough.
--
-- Not modelled: reading JSON and dicts into records (from_seed, from_dict), what is only sent (state,
-- replay's transcript), asyncio, sockets, leases and Redis itself; an encounter's membership (_sync,
-- _add_player) and the answers of Lua in _call; a session's set-up and clean-up
-- (run, address, _quit); the checks of one room, route, quest or class of a seed; the other files of
-- alzendor/ and the tools; alzendor.lua and the web client, which are not Python.
pub mod Prelude
pub mod Real
pub mod Auth
pub mod Balance
pub mod Commands
pub mod Encounter
pub mod Feed
pub mod Session
pub mod Text
pub mod World

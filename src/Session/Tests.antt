-- ===== src/Session/Tests.antt =====
-- session.py: runs of a session's limits, of its messages and of what it forwards.
use Prim.Native.Char.{code}
use alzendor.Prelude.{
  ℕ, ◌+◌, ◌*◌, ◌-◌, ◌≤◌, ◌≡◌, ◌≢◌, ◌⊎◌, refl, String, true, false, none, List, [], ◌∷◌, leb, ◌==◌,
  arith, str_eq, if◌then◌else◌,
}
use alzendor.Text.{Unicode}
use alzendor.Commands.Data.{Context, Around, called}
use alzendor.Commands.Dispatch.{dispatch}
use alzendor.Commands.Table.{commands}
use alzendor.Commands.Parse.{parse, thing}
use alzendor.Commands.Parse.Tidy.{HasBlank}
use alzendor.Session.Data.{Json, Message, Session}
use alzendor.Session.Rate.{take_allowance, passes, passed}
use alzendor.Session.Rate.Bounds.{IsSpaced, passes_bounded, inputs-IsSpaced}
use alzendor.Session.Handle.{Reply, Sent, handle, handles}
use alzendor.Session.Handle.Limit.{costs, AllSafe, handles_limit}
use alzendor.Session.Delay.{Put, put_all, deliveries}
use alzendor.Session.Delay.Order.{IsOrdered, deliveries-IsOrdered}
use alzendor.Session.Forward
use alzendor.Session.Forward.{Outbox, HostCall, Event, pump}
use alzendor.Session.Forward.Newest.{newest, last_state, last_or, idle, newest_sent}
use alzendor.Session.Forward.Follows.{hosted, current, pump-hosted}
use alzendor.Session.Enter.{Answer, Arrival, authenticate}
use alzendor.Session.Enter.Asked.{asked_bounded}

abbrev fresh : Session
fresh = record {
  allowance = 10000;
  last_command = 1000;
  last_ping = 0;
  last_active = 1000;
  inputs = [];
  encounter = "";
  owner = "";
}

-- Two messages at once, when there is room for one.
abbrev spent : Session
spent = record fresh { allowance = 1500 }

one_of_two : passes spent (1000 ∷ 1100 ∷ []) ≡ 1
unfolding passes
one_of_two = refl

passes_bounded_example :
    1000 * passes spent (1000 ∷ 1100 ∷ []) ≤ spent.allowance + 4 * (1200 - spent.last_command)
passes_bounded_example = passes_bounded spent 1200 (1000 ∷ 1100 ∷ []) (omega arith)

inputs-IsSpaced_example : IsSpaced [] (passed (λ t. leb 20 t) [] (10 ∷ 20 ∷ 30 ∷ []))
inputs-IsSpaced_example = inputs-IsSpaced (λ t. leb 20 t) 40 (10 ∷ 20 ∷ 30 ∷ []) (omega arith)

abbrev attempt : ℕ → String → String → Answer → Arrival
attempt now kind name answer = record {
  now = now;
  message = λ k.
      if str_eq k "type"
      then Json.text kind
      else if str_eq k "name"
      then Json.text name
      else Json.null;
  answer = answer;
}

abbrev attempts : List Arrival
attempts =
    attempt 1000 "login" "nan" (Answer.error "Invalid name or password.")
    ∷ attempt 1100 "cmd" "nan" (Answer.error "")
    ∷ attempt 1500 "login" "nan" (Answer.player "nan")
    ∷ []

second_try :
    (authenticate spent attempts).sent ≡ "Invalid name or password." ∷ "Slow down a little." ∷ []
unfolding authenticate
second_try = refl

asked_bounded_example :
    1000 * (authenticate spent attempts).asked ≤ spent.allowance + 4 * (1500 - spent.last_command)
asked_bounded_example = asked_bounded spent 1500 attempts (omega arith)

abbrev puts : List (Put ℕ)
puts = record { now = 10; draw = 50; item = 1 } ∷ record { now = 20; draw = 0; item = 2 } ∷ []

held_up :
    deliveries (λ x. true) 0 (put_all (record { wait = 100; last = 0; queue = [] }) puts).queue
    ≡ (160, 1) ∷ (160, 2) ∷ []
unfolding deliveries put_all
held_up = refl

deliveries-IsOrdered_example :
    IsOrdered
      (λ x. true)
      100
      0
      puts
      (deliveries (λ x. true) 0 (put_all (record { wait = 100; last = 0; queue = [] }) puts).queue)
deliveries-IsOrdered_example = deliveries-IsOrdered (λ x. true) 100 puts

abbrev comes_goes : List Forward.Move
comes_goes =
    Forward.Move.comes "{\"type\":\"state\",1}"
    ∷ Forward.Move.goes
    ∷ Forward.Move.comes "{\"type\":\"state\",2}"
    ∷ Forward.Move.comes "{\"type\":\"state\",3}"
    ∷ Forward.Move.goes
    ∷ Forward.Move.goes
    ∷ Forward.Move.goes
    ∷ Forward.Move.goes
    ∷ []

newest_only :
    (Forward.run (λ t. none) "nan" (idle (λ t. none) "nan") comes_goes).sent
    ≡ "{\"type\":\"state\",1}" ∷ "{\"type\":\"state\",3}" ∷ []
unfolding Forward.run
newest_only = refl

newest_sent_example :
    let o = Forward.run (λ t. none) "nan" (idle (λ t. none) "nan") comes_goes in
    (newest o ≡ last_state (λ t. none) "nan" none comes_goes)
    × ((o.sender ≢ Forward.Sender.done)
        ⊎ (last_or none o.sent ≡ last_state (λ t. none) "nan" none comes_goes))
newest_sent_example = newest_sent (λ t. none) "nan" comes_goes

abbrev fight : String → String → Event
fight op id = record { kind = "encounter"; channel = "PLAYER:nan"; op = op; id = id; owner = "s1" }

abbrev fights : List Event
fights = fight "start" "e1" ∷ fight "end" "e0" ∷ fight "start" "e2" ∷ []

pump-hosted_example :
    hosted (current fresh) (pump "nan" fresh fights).1 ≡ current (pump "nan" fresh fights).0
pump-hosted_example = pump-hosted "nan" fresh fights

-- ASCII, all of it in lower case.
abbrev ascii : Unicode
ascii = record {
  is_printable = λ c. leb 32 (code c);
  is_space = λ c. code c == 32;
  is_digit = λ c. false;
  lower = λ s. s;
  upper = λ s. s;
  capitalize = λ s. s;
}

ascii-HasBlank : HasBlank ascii
ascii-HasBlank = record { blank_space = λ c h. ground arith; blank_printable = λ c h. ground arith }

abbrev nan : Context
nan = record { pid = "nan"; is_admin = false; target = ""; can_tell = true }

abbrev square : Around
square = record {
  encounter = "";
  offer = "";
  room = "square";
  is_here = λ r n. true;
  npc_name = λ n. "";
  answer = λ f args. 1;
}

abbrev typed : String → Message
typed text = λ k.
    if str_eq k "type"
    then Json.text "cmd"
    else if str_eq k "text"
    then Json.text text
    else Json.null

abbrev ping_now : Message
ping_now = λ k. if str_eq k "type" then Json.text "ping" else Json.null

greets :
    (handle ascii nan square fresh 2000 (typed "hi nan")).1
    ≡ Reply.effects (called "greet" ("nan" ∷ []) ∷ [])
unfolding handle dispatch take_allowance parse commands thing
greets = refl

-- A ping, a command and another at once, when there is room for one.
abbrev flood : List Sent
flood =
    record { now = 2000; message = ping_now; around = square }
    ∷ record { now = 2000; message = typed "hi nan"; around = square }
    ∷ record { now = 2001; message = typed "hi nan"; around = square }
    ∷ []

abbrev tired : Session
tired = record fresh { allowance = 500; last_command = 1800 }

flooded :
    handles ascii nan tired flood
    ≡ Reply.pong Json.null
      ∷ Reply.effects (called "greet" ("nan" ∷ []) ∷ [])
      ∷ Reply.error "Slow down a little."
      ∷ []
unfolding handles handle dispatch take_allowance parse commands thing
flooded = refl

handles_limit_example :
    (costs (handles ascii nan tired flood) ≤ 500 + 4 * (2001 - 1800))
    × AllSafe false (handles ascii nan tired flood)
handles_limit_example = handles_limit ascii nan tired 2001 flood ascii-HasBlank (omega arith)

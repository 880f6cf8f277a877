-- ===== src/Session/Forward.antt =====
-- session.py: `_forward` and `_send_states`, which send an encounter's state, and `_follow` and
-- `_pump`, which keep track of the encounter.
pub mod Newest
pub mod Follows
use Prim.Native.String.{◌++◌ as ◌joined◌}
use text.Mathlib.Text.{◌==◌ as str_eq, starts_with}
use alzendor.Prelude.{
  ℕ, String, Bool, true, false, not, ◌&&◌, ◌||◌, Option, none, some, List, [], ◌∷◌, ◌++◌,
  if◌then◌else◌,
}
use alzendor.Text.{is_empty}
use alzendor.Session.Data.{Session}

-- The task that sends states: there is none or it is done, it is about to look for one, or one is
-- on its way.
pub data Sender : Type 0 where
  done looks : Sender
  sends : String → Sender

-- What a session has to send, and has sent: states, and other messages, each in its own task.
pub record Outbox : Type 0 where
  pub next_state : Option String
  pub sender : Sender
  pub sent : List String
  pub others : List String

abbrev pub awake : Sender → Sender
awake Sender.done = Sender.looks
awake Sender.looks = Sender.looks
awake (Sender.sends text) = Sender.sends text

abbrev pub is_player : String → Option String → Bool
is_player pid none = false
is_player pid (some p) = str_eq p pid

abbrev pub is_refusal : String → Bool
is_refusal text = starts_with text "{\"type\":\"refused\""

abbrev pub is_state : String → Bool
is_state text = starts_with text "{\"type\":\"state\""

-- `_forward`, with no fake latency; `pid_in` reads the player of a refusal.
unfoldable pub forward : (String → Option String) → String → Outbox → String → Outbox
forward pid_in pid o text =
    if is_refusal text && not (is_player pid (pid_in text))
    then o
    else if is_state text
    then record o { next_state = some text; sender = awake o.sender }
    else record o { others = o.others ++ (text ∷ []) }

-- `_send_states`, to its next await or its end.
abbrev pub looked : Outbox → Option String → Outbox
looked o none = record o { sender = Sender.done }
looked o (some text) = record o { next_state = none; sender = Sender.sends text }

abbrev stepped : Outbox → Sender → Outbox
stepped o Sender.done = o
stepped o Sender.looks = looked o o.next_state
stepped o (Sender.sends text) = record o { sent = o.sent ++ (text ∷ []); sender = Sender.looks }

unfoldable pub send_step : Outbox → Outbox
send_step o = stepped o o.sender

-- A message comes from the owner, or the task of the states goes on.
pub data Move : Type 0 where
  comes : String → Move
  goes : Move

unfoldable pub run : (String → Option String) → String → Outbox → List Move → Outbox
unfolding forward send_step
run pid_in pid o [] = o
run pid_in pid o (Move.comes text ∷ ms) = run pid_in pid (forward pid_in pid o text) ms
run pid_in pid o (Move.goes ∷ ms) = run pid_in pid (send_step o) ms

-- What the host is asked: `unfollow` and `follow` of an encounter and its owner.
pub data HostCall : Type 0 where
  unfollow follow : String → String → HostCall

abbrev pub asks : Bool → HostCall → List HostCall
asks true c = c ∷ []
asks false c = []

-- `_follow`
unfoldable pub follows : Session → String → String → Session × List HostCall
follows s eid owner = if str_eq eid s.encounter then (s, []) else (
  record s { encounter = eid; owner = owner },
  asks (not (is_empty s.encounter)) (HostCall.unfollow s.encounter s.owner)
      ++ asks (not (is_empty eid)) (HostCall.follow eid owner),
)

-- An event of the feed, with the fields that `_pump` reads; those that an event lacks are empty.
pub record Event : Type 0 where
  pub kind : String
  pub channel : String
  pub op : String
  pub id : String
  pub owner : String

-- What `_pump` does about an event, before it sends it.
unfoldable pub pump_event : String → Session → Event → Session × List HostCall
unfolding follows
pump_event pid s e =
    if str_eq e.kind "encounter" && str_eq e.channel ("PLAYER:" joined pid)
    then (if str_eq e.op "start"
        then follows s e.id e.owner
        else if str_eq e.op "end" && str_eq e.id s.encounter
        then follows s "" ""
        else (s, []))
    else (s, [])

-- `_pump`, over events: the session, and what the host was asked.
unfoldable pub pump : String → Session → List Event → Session × List HostCall
unfolding pump_event
pump pid s [] = (s, [])
pump pid s (e ∷ es) =
    let (s', calls) = pump_event pid s e in let (s'', more) = pump pid s' es in (s'', calls ++ more)

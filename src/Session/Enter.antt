-- ===== src/Session/Enter.antt =====
-- session.py: `_authenticate` and `_create_character`, a message at a time. What `Auth` and Lua
-- answer to a message comes with it.
pub mod Asked
use text.Mathlib.Text.{◌==◌ as str_eq}
use alzendor.Prelude.{
  ℕ, suc, String, Bool, true, false, not, ◌&&◌, ◌||◌, Option, none, some, List, [], ◌∷◌, ltb, ◌==◌,
  if◌then◌else◌,
}
use alzendor.Prelude.Int.{ℤ, pos, negsuc, pos_part}
use alzendor.Text.{is_empty, first_chars}
use alzendor.Session.Data.{Json, Message, Session}
use alzendor.Session.Rate.{take_allowance}

-- What `register`, `login` or `resume` of Auth comes to: the player, or the message of an AuthError;
-- `resume` has no error.
pub data Answer : Type 0 where
  player error : String → Answer

-- A message, when it came, and what Auth would answer to it.
pub record Arrival : Type 0 where
  pub now : ℕ
  pub message : Message
  pub answer : Answer

-- Who has authenticated, and the sequence number to resume from.
pub record Entered : Type 0 where
  pub pid : String
  pub since : ℕ

-- How the loop ended: with no one if the client went away; the messages sent, and how often Auth
-- was asked.
pub record Authenticated : Type 0 where
  pub entered : Option Entered
  pub session : Session
  pub sent : List String
  pub asked : ℕ

abbrev pub is_kind : String → Json → Bool
is_kind word (Json.text t) = str_eq t word
is_kind word v = false

-- since, if it is a positive integer
abbrev pub since_of : Json → ℕ
since_of (Json.int k) = pos_part k
since_of v = 0

abbrev pub says : String → Authenticated → Authenticated
says text r = record r { sent = text ∷ r.sent }

abbrev pub asks : Authenticated → Authenticated
asks r = record r { asked = suc r.asked }

abbrev pub enters : Session → String → ℕ → Authenticated
enters s pid since = record {
  entered = some (record { pid = pid; since = since });
  session = s;
  sent = [];
  asked = 1;
}

-- What an answer of Auth does; `rest` is the loop's going on.
abbrev pub told : Session → ℕ → String → Authenticated → Answer → Authenticated
told s since expired rest (Answer.player pid) = enters s pid since
told s since expired rest (Answer.error why) =
    asks (says (if is_empty expired then why else expired) rest)

abbrev pub kind_step : Session → Arrival → Authenticated → Authenticated
kind_step s a rest =
    if is_kind "register" (a.message "type") || is_kind "login" (a.message "type")
    then told s 0 "" rest a.answer
    else if is_kind "resume" (a.message "type")
    then told s (since_of (a.message "since")) "Your session has expired. Please log in again." rest
        a.answer
    else says "Log in or register first." rest

-- `_authenticate`
unfoldable pub authenticate : Session → List Arrival → Authenticated
unfolding take_allowance
authenticate s [] = record { entered = none; session = s; sent = []; asked = 0 }
authenticate s (a ∷ as') =
    let (s', ok) = take_allowance s a.now in
    let rest = authenticate s' as' in
    if not ok then says "Slow down a little." rest else kind_step s' a rest

-- A message while a character is made, the problem that Lua finds with its choices, and whether the
-- account has a character by then.
pub record Choice : Type 0 where
  pub now : ℕ
  pub message : Message
  pub problem : String
  pub created : Bool

-- Whether a character was made, and the messages sent.
pub record Made : Type 0 where
  pub made : Bool
  pub sent : List String

abbrev answers : String → Made → Made
answers text m = record m { sent = text ∷ m.sent }

abbrev choice_step : Choice → Made → Made
choice_step c rest =
    if not (is_kind "create" (c.message "type"))
    then answers "Create your character first." rest
    else if is_empty c.problem || c.created
    then record { made = true; sent = [] }
    else answers c.problem rest

-- `_create_character`, after its offer.
unfoldable pub create_character : Session → List Choice → Made
unfolding take_allowance
create_character s [] = record { made = false; sent = [] }
create_character s (c ∷ cs) =
    let (s', ok) = take_allowance s c.now in
    let rest = create_character s' cs in
    if not ok then answers "Slow down a little." rest else choice_step c rest

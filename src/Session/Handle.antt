-- ===== src/Session/Handle.antt =====
-- session.py: `_handle` and `_input`, of one message of a player in the world.
pub mod Safe
pub mod Limit
use Prim.Native.String.{[] as empty_text}
use text.Mathlib.Text.{◌==◌ as str_eq}
use alzendor.Prelude.{
  ℕ, ◌-◌, String, Bool, true, false, not, ◌&&◌, ◌||◌, Option, none, some, List, [], ◌∷◌, ◌++◌, leb,
  if◌then◌else◌,
}
use alzendor.Prelude.Int.{ℤ}
use alzendor.Text.{Unicode, is_empty, first_chars}
use alzendor.Commands.Data.{Context, Around, Effect}
use alzendor.Commands.Parse.{target_id}
use alzendor.Commands.Dispatch.{dispatch}
use alzendor.Session.Data.{Json, Message, Session}
use alzendor.Session.Rate.{take_allowance, take_input}

-- What a message comes to.
pub data Reply : Type 0 where
  nothing : Reply
  pong : Json → Reply
  error : String → Reply
  input : (encounter owner : String) → List (String × Json) → Reply
  effects : List Effect → Reply

abbrev pub is_text : String → Json → Bool
is_text word (Json.text t) = str_eq t word
is_text word v = false

-- The value of a text, if it is one.
abbrev pub text_in : Json → Option String
text_in (Json.text t) = some t
text_in v = none

-- t, if it is a number
abbrev echo : Json → Json
echo (Json.int k) = Json.int k
echo (Json.real x) = Json.real x
echo v = Json.null

abbrev int_field : String → Json → List (String × Json)
int_field key (Json.int k) = (key, Json.int k) ∷ []
int_field key v = []

abbrev text_field : String → Json → List (String × Json)
text_field key (Json.text t) = (key, Json.text (first_chars 100 t)) ∷ []
text_field key v = []

-- What of an input is passed on.
abbrev pub passed_on : String → Message → List (String × Json)
passed_on pid m =
    ("pid", Json.text pid)
    ∷ (int_field "seq" (m "seq")
        ++ (int_field "step" (m "step")
            ++ (int_field "keys" (m "keys")
                ++ (text_field "act" (m "act")
                    ++ (int_field "slot" (m "slot")
                        ++ (text_field "target" (m "target") ++ text_field "dir" (m "dir")))))))

-- `_input`
unfoldable pub input_of : String → Session → ℕ → Message → Session × Reply
unfolding take_input
input_of pid s now m =
    let (inputs, room) = take_input (not (is_empty s.encounter)) s.inputs now in
    if not room then (record s { inputs = inputs }, Reply.nothing) else (
      record s { inputs = inputs; last_active = now },
      Reply.input s.encounter s.owner (passed_on pid m),
    )

abbrev pub ping : Session → ℕ → Message → Session × Reply
ping s now m =
    if leb 200 (now - s.last_ping)
    then (record s { last_ping = now }, Reply.pong (echo (m "t")))
    else (s, Reply.nothing)

-- What `dispatch` came to; `none` is an exception.
abbrev pub answered : Option (List Effect) → Reply
answered none = Reply.error "Something went wrong with that command."
answered (some es) = Reply.effects es

unfoldable pub command :
    Unicode → Context → Around → Session → ℕ → Message → String → Session × Reply
command u ctx w s now m text =
    let (s', ok) = take_allowance (record s { last_active = now }) now in
    if not ok then (s', Reply.error "Slow down a little.") else (
      s',
      answered (dispatch (record ctx { target = target_id (text_in (m "target")) }) w u text),
    )

abbrev pub command_text :
    Unicode → Context → Around → Session → ℕ → Message → Option String → Session × Reply
command_text u ctx w s now m none = (s, Reply.error "Expected {\"type\": \"cmd\", \"text\": ...}.")
command_text u ctx w s now m (some text) = command u ctx w s now m text

-- The text of a command.
abbrev pub cmd_text : Message → Option String
cmd_text m = if is_text "cmd" (m "type") then text_in (m "text") else none

-- `_handle`
unfoldable pub handle : Unicode → Context → Around → Session → ℕ → Message → Session × Reply
unfolding command input_of
handle u ctx w s now m =
    if is_text "ping" (m "type")
    then ping s now m
    else if is_text "input" (m "type")
    then input_of ctx.pid s now m
    else command_text u ctx w s now m (cmd_text m)

-- A message, when it comes, and what the world around the player is then.
pub record Sent : Type 0 where
  pub now : ℕ
  pub message : Message
  pub around : Around

-- The messages of a player one after another, as `run` hands them on, and what each comes to.
unfoldable pub handles : Unicode → Context → Session → List Sent → List Reply
unfolding handle
handles u ctx s [] = []
handles u ctx s (m ∷ ms) =
    let (s', reply) = handle u ctx m.around s m.now m.message in reply ∷ handles u ctx s' ms

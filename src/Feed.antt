-- ===== src/Feed.antt =====
-- alzendor/feed.py: a player's view of the world. Redis is outside: a stream's entries are a log of
-- what the world added, with its sequence numbers, and XREAD is a parameter.
pub mod View
pub mod Batch
pub mod Reads
pub mod Resume
pub mod Tests
use text.Mathlib.Text.{◌==◌ as str_eq}
use alzendor.Prelude.{
  ℕ, zero, suc, ◌+◌, String, Bool, true, false, not, Option, none, some, List, [], ◌∷◌, ◌++◌, ltb,
  if◌then◌else◌,
}

-- An event as it stands in a stream. Control events have an `op`; others are for the player.
pub data Event : Type 0 where
  said : String → Event
  kick : (session : String) (reason : Option String) → Event
  change_subs : (add remove : List String) → Event
  other_control : Event

pub record Logged : Type 0 where
  pub seq : ℕ
  pub channel : String
  pub event : Event

-- The channels that a feed reads, with the sequence number that each was joined at.
abbrev pub Subs : Type 0
Subs = String → Option ℕ

pub record Feed : Type 0 where
  pub session_id : String
  pub cursor : ℕ
  pub subs : Subs
  pub ended : Option String

-- An event that reaches the player, with its `seq`.
pub record Delivered : Type 0 where
  pub seq : ℕ
  pub event : String

abbrev pub has_ended : Option String → Bool
has_ended none = false
has_ended (some reason) = true

abbrev pub set_sub : String → Option ℕ → Subs → Subs
set_sub channel joined subs other = if str_eq channel other then joined else subs other

abbrev pub leave : List String → Subs → Subs
leave [] subs = subs
leave (channel ∷ rest) subs = leave rest (set_sub channel none subs)

abbrev pub join : ℕ → List String → Subs → Subs
join seq [] subs = subs
join seq (channel ∷ rest) subs = join seq rest (set_sub channel (some seq) subs)

-- `event.get("reason") or "Disconnected."`; an empty reason is none.
abbrev why : Option String → String
why none = "Disconnected."
why (some reason) = reason

-- The feed after an event, what of it reaches the player, and whether the rest of the batch is
-- dropped.
pub record Taken : Type 0 where
  pub feed : Feed
  pub out : List Delivered
  pub breaks : Bool

abbrev pub kicked : Bool → Feed → Option String → Taken
kicked true f reason = record {
  feed = record f { ended = some (why reason) };
  out = [];
  breaks = true;
}
kicked false f reason = record { feed = f; out = []; breaks = false }

abbrev pub take_event : Feed → Logged → Event → Taken
take_event f e (said text) = record {
  feed = f;
  out = record { seq = e.seq; event = text } ∷ [];
  breaks = false;
}
take_event f e (kick session reason) = kicked (str_eq session f.session_id) f reason
take_event f e (change_subs add remove) = record {
  feed = record f { subs = join e.seq add (leave remove f.subs) };
  out = [];
  breaks = true;
}
take_event f e other_control = record { feed = f; out = []; breaks = false }

unfoldable pub take : Feed → Logged → Taken
take f e = take_event (record f { cursor = e.seq }) e e.event

-- The loop of `read` over a batch.
unfoldable pub deliver : Feed → List Logged → Feed × List Delivered
unfolding take
deliver f [] = (f, [])
deliver f (e ∷ es) =
    let t = take f e in
    let (g, more) = deliver t.feed es in if t.breaks then (t.feed, t.out) else (g, t.out ++ more)

-- `sorted`: by the sequence number, which no two events share.
abbrev pub insert : Logged → List Logged → List Logged
insert e [] = e ∷ []
insert e (d ∷ ds) = let rest = insert e ds in if ltb d.seq e.seq then d ∷ rest else e ∷ d ∷ ds

abbrev pub in_order : List Logged → List Logged
in_order [] = []
in_order (e ∷ es) = insert e (in_order es)

-- Where each stream is read from: `max(self.cursor, joined)`.
abbrev latest : ℕ → ℕ → ℕ
latest a b = if ltb a b then b else a

abbrev from_cursor : ℕ → Option ℕ → Option ℕ
from_cursor cursor none = none
from_cursor cursor (some joined) = some (latest cursor joined)

abbrev pub streams : Feed → Subs
streams f channel = from_cursor f.cursor (f.subs channel)

-- `read`, of what XREAD answers of the streams.
abbrev pub read : (Subs → List Logged) → Feed → Feed × List Delivered
read xread f = deliver f (in_order (xread (streams f)))

-- Reads one after another, until the feed has ended.
unfoldable pub reads : (Subs → List Logged) → ℕ → Feed → Feed × List Delivered
unfolding deliver
reads xread zero f = (f, [])
reads xread (suc k) f =
    let (g, out) = read xread f in
    let (h, more) = reads xread k g in if has_ended f.ended then (f, []) else (h, out ++ more)

-- `open`: undoing the changes to the player's channels, the last first.
abbrev pub undo_adds : String → List String → Subs → Subs
undo_adds own [] subs = subs
undo_adds own (channel ∷ rest) subs =
    undo_adds own rest (if str_eq channel own then subs else set_sub channel none subs)

abbrev pub undo_event : String → Event → Subs → Subs
undo_event own (said text) s = s
undo_event own (kick session reason) s = s
undo_event own (change_subs add remove) s = join 0 remove (undo_adds own add s)
undo_event own other_control s = s

-- `since` from its first entry: the fold undoes what comes after it first.
unfoldable pub undo : String → List Event → Subs → Subs
undo own [] s = s
undo own (e ∷ es) s = undo_event own e (undo own es s)

unfoldable pub open_feed : String → String → ℕ → Subs → List Event → Feed
unfolding undo
open_feed own session_id cursor current since = record {
  session_id = session_id;
  cursor = cursor;
  subs = set_sub own (some 0) (undo own since current);
  ended = none;
}

-- ===== src/Auth/Register.antt =====
-- `register` of auth.py, one await at a time, so that several connections' attempts may come
-- between one another's steps.
pub mod Keeps
pub mod Once
use text.Mathlib.Text.{◌==◌ as str_eq}
use alzendor.Prelude.{
  ℕ, zero, suc, String, Bool, true, false, not, ◌&&◌, ◌||◌, Option, none, some, List, [], ◌∷◌, leb,
  if◌then◌else◌,
}
use alzendor.Text.{Unicode, chars, strip, is_one_of}
use alzendor.Auth.Store.{
  Hasher, Key, Account, Store, put_account, count, bump, password_min, password_max, account_window,
  is_name, reserved_names, is_stored, stored_hash,
}

-- What is typed, and the client's address.
pub record Signup : Type 0 where
  pub name : String
  pub password : String
  pub address : String

-- The name stripped, and in lower case.
pub record Checked : Type 0 where
  pub pid : String
  pub name : String
  pub password : String
  pub address : String

-- Where a connection is: before the call of Redis or of the hasher that the constructor names.
pub data Stage : Type 0 where
  idle : Stage
  counts bumps looks hashes : Checked → Stage
  claims : Checked → String → Stage
  names : Checked → Stage

-- What an attempt comes to: the player, or an AuthError.
pub data Verdict : Type 0 where
  registered bad_name bad_length name_as_password too_many taken : Verdict

abbrev pub Settled : Type 0
Settled = Option (String × Verdict)

pub record Stepped : Type 0 where
  pub store : Store
  pub stage : Stage
  pub settled : Settled

abbrev pub quietly : Store → Stage → Stepped
quietly s t = record { store = s; stage = t; settled = none }

abbrev pub settles : Store → String → Verdict → Stepped
settles s pid v = record { store = s; stage = Stage.idle; settled = some (pid, v) }

-- HSETNX and HSET leave an account's other fields.
abbrev pub with_digest : String → Option Account → Account
with_digest digest none = record { digest = some digest; name = ""; registered = 0 }
with_digest digest (some a) = record a { digest = some digest }

abbrev pub with_name : String → ℕ → Option Account → Account
with_name name now none = record { digest = none; name = name; registered = now }
with_name name now (some a) = record a { name = name; registered = now }

abbrev pub exists : Option Account → Bool
exists none = false
exists (some a) = true

-- The checks of what was typed, before anything is asked of Redis.
abbrev pub begins : Unicode → Store → Signup → Stepped
begins u s r =
    let name = strip u.is_space r.name in
    let pid = u.lower name in
    if not (is_name name) || is_one_of pid reserved_names
    then settles s pid Verdict.bad_name
    else if not (leb password_min (chars r.password) && leb (chars r.password) password_max)
    then settles s pid Verdict.bad_length
    else if str_eq (u.lower r.password) pid
    then settles s pid Verdict.name_as_password
    else quietly s (
        Stage.counts
          (record { pid = pid; name = name; password = r.password; address = r.address }))

-- `register`, to its next await.
unfoldable pub advance : Hasher → ℕ → Store → ℕ → Stage → Stepped
advance h per_hour s now Stage.idle = quietly s Stage.idle
advance h per_hour s now (Stage.counts r) =
    if leb per_hour (count s now (Key.register_from r.address))
    then settles s r.pid Verdict.too_many
    else quietly s (Stage.bumps r)
advance h per_hour s now (Stage.bumps r) =
    quietly (bump s now (Key.register_from r.address) account_window) (Stage.looks r)
advance h per_hour s now (Stage.looks r) =
    if exists (s.accounts r.pid) then settles s r.pid Verdict.taken else quietly s (Stage.hashes r)
advance h per_hour s now (Stage.hashes r) = quietly s (Stage.claims r (h.hash r.password))
advance h per_hour s now (Stage.claims r digest) =
    if is_stored (stored_hash s r.pid)
    then settles s r.pid Verdict.taken
    else quietly (put_account r.pid (with_digest digest (s.accounts r.pid)) s) (Stage.names r)
advance h per_hour s now (Stage.names r) =
    settles (put_account r.pid (with_name r.name now (s.accounts r.pid)) s) r.pid Verdict.registered

-- A connection that is idle starts an attempt, or one takes its next step at a time.
pub data Move : Type 0 where
  start : ℕ → Signup → Move
  go : ℕ → ℕ → Move

pub record Moved : Type 0 where
  pub store : Store
  pub stages : List Stage
  pub settled : Settled

abbrev pub started : Unicode → Store → Signup → Stage → Stepped
started u s r Stage.idle = begins u s r
started u s r t = quietly s t

abbrev pub step_of : Hasher → ℕ → Unicode → Store → Move → Stage → Stepped
step_of h per_hour u s (Move.start i r) t = started u s r t
step_of h per_hour u s (Move.go i now) t = advance h per_hour s now t

abbrev pub connection : Move → ℕ
connection (Move.start i r) = i
connection (Move.go i now) = i

abbrev at_first : Stepped → List Stage → Moved
at_first m ts = record { store = m.store; stages = m.stage ∷ ts; settled = m.settled }

unfoldable pub move_at : Hasher → ℕ → Unicode → Store → Move → ℕ → List Stage → Moved
unfolding advance
move_at h per_hour u s mv i [] = record { store = s; stages = []; settled = none }
move_at h per_hour u s mv zero (t ∷ ts) = at_first (step_of h per_hour u s mv t) ts
move_at h per_hour u s mv (suc i) (t ∷ ts) =
    let m = move_at h per_hour u s mv i ts in record m { stages = t ∷ m.stages }

-- The store after a sequence of moves, and what they settled.
pub record Ran : Type 0 where
  pub store : Store
  pub verdicts : List (String × Verdict)

abbrev pub add_settled : Settled → Ran → Ran
add_settled none r = r
add_settled (some v) r = record r { verdicts = v ∷ r.verdicts }

unfoldable pub registers : Hasher → ℕ → Unicode → Store → List Stage → List Move → Ran
unfolding move_at
registers h per_hour u s ts [] = record { store = s; verdicts = [] }
registers h per_hour u s ts (mv ∷ ms) =
    let m = move_at h per_hour u s mv (connection mv) ts in
    add_settled m.settled (registers h per_hour u m.store m.stages ms)

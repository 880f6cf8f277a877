-- ===== src/Auth/Login.antt =====
-- `login` of auth.py, one await at a time, so that attempts of several connections may come between
-- one another's steps.
pub mod Pending
pub mod Limit
use text.Mathlib.Text.{◌==◌ as str_eq}
use alzendor.Prelude.{
  ℕ, zero, suc, String, Bool, true, false, ◌||◌, Option, none, some, List, [], ◌∷◌, leb,
  if◌then◌else◌,
}
use alzendor.Text.{Unicode, strip}
use alzendor.Auth.Store.{
  Hasher, Key, Store, Account, put_counter, put_account, count, bump, per_address, per_account,
  login_window, is_name, verifies, stored_hash,
}

-- An attempt: the name stripped and in lower case, the password, and the client's address.
pub record Attempt : Type 0 where
  pub pid : String
  pub password : String
  pub address : String

-- The attempt that is typed.
abbrev pub attempt_of : Unicode → String → String → String → Attempt
attempt_of u name password address = record {
  pid = u.lower (strip u.is_space name);
  password = password;
  address = address;
}

-- Where a connection is: before the call of Redis or of the hasher that the constructor names.
pub data Stage : Type 0 where
  idle : Stage
  counts_address counts_account looks_up : Attempt → Stage
  verifying : Attempt → Option String → Stage
  bumps_address bumps_account : Attempt → Stage
  clears : Attempt → Option String → Stage
  rehashes : Attempt → Stage

-- What an attempt comes to: the player, or an AuthError.
pub data Verdict : Type 0 where
  welcome too_many invalid : Verdict

-- What a step settles: the account and its verdict. A welcome is settled when the failures are
-- cleared; a new hash may still have to be stored.
abbrev pub Settled : Type 0
Settled = Option (String × Verdict)

-- The store, the connection and what was settled, after a step.
pub record Stepped : Type 0 where
  pub store : Store
  pub stage : Stage
  pub settled : Settled

abbrev quietly : Store → Stage → Stepped
quietly s t = record { store = s; stage = t; settled = none }

abbrev settles : Store → Stage → String → Verdict → Stepped
settles s t pid v = record { store = s; stage = t; settled = some (pid, v) }

-- HGET, if the name can be an account's.
abbrev pub found : Store → String → Option String
found s pid = if is_name pid then stored_hash s pid else none

abbrev rehash_wanted : Hasher → Option String → Bool
rehash_wanted h none = false
rehash_wanted h (some digest) = h.needs_rehash digest

-- HSET of the hash leaves the account's other fields.
abbrev with_digest : String → Option Account → Account
with_digest digest none = record { digest = some digest; name = ""; registered = 0 }
with_digest digest (some a) = record a { digest = some digest }

-- `login`, to its next await.
unfoldable pub advance : Hasher → Store → ℕ → Stage → Stepped
advance h s now Stage.idle = quietly s Stage.idle
advance h s now (Stage.counts_address a) =
    if leb per_address (count s now (Key.login_from a.address))
    then settles s Stage.idle a.pid Verdict.too_many
    else quietly s (Stage.counts_account a)
advance h s now (Stage.counts_account a) =
    if leb per_account (count s now (Key.login_to a.pid))
    then settles s Stage.idle a.pid Verdict.too_many
    else quietly s (Stage.looks_up a)
advance h s now (Stage.looks_up a) = quietly s (Stage.verifying a (found s a.pid))
advance h s now (Stage.verifying a stored) =
    if verifies h stored a.password
    then quietly s (Stage.clears a stored)
    else quietly s (Stage.bumps_address a)
advance h s now (Stage.bumps_address a) =
    quietly (bump s now (Key.login_from a.address) login_window) (Stage.bumps_account a)
advance h s now (Stage.bumps_account a) =
    settles (bump s now (Key.login_to a.pid) login_window) Stage.idle a.pid Verdict.invalid
advance h s now (Stage.clears a stored) =
    settles (put_counter (Key.login_to a.pid) none s)
      (if rehash_wanted h stored then Stage.rehashes a else Stage.idle) a.pid Verdict.welcome
advance h s now (Stage.rehashes a) =
    quietly (put_account a.pid (with_digest (h.hash a.password) (s.accounts a.pid)) s) Stage.idle

-- The store, the connections and what was settled, after a move.
pub record Moved : Type 0 where
  pub store : Store
  pub stages : List Stage
  pub settled : Settled

-- A connection that is idle starts an attempt, or one takes its next step at a time.
pub data Move : Type 0 where
  start : ℕ → Attempt → Move
  go : ℕ → ℕ → Move

abbrev started : Attempt → Stage → Stage
started a Stage.idle = Stage.counts_address a
started a t = t

abbrev pub start_at : ℕ → Attempt → List Stage → List Stage
start_at i a [] = []
start_at zero a (t ∷ ts) = started a t ∷ ts
start_at (suc i) a (t ∷ ts) = t ∷ start_at i a ts

unfoldable pub go_at : Hasher → Store → ℕ → ℕ → List Stage → Moved
unfolding advance
go_at h s now i [] = record { store = s; stages = []; settled = none }
go_at h s now zero (t ∷ ts) =
    let m = advance h s now t in
    record { store = m.store; stages = m.stage ∷ ts; settled = m.settled }
go_at h s now (suc i) (t ∷ ts) = let m = go_at h s now i ts in record m { stages = t ∷ m.stages }

abbrev pub add_settled : Settled → List (String × Verdict) → List (String × Verdict)
add_settled none more = more
add_settled (some x) more = x ∷ more

-- What is settled by a sequence of moves, in order.
unfoldable pub verdicts : Hasher → Store → List Stage → List Move → List (String × Verdict)
unfolding go_at
verdicts h s ts [] = []
verdicts h s ts (Move.start i a ∷ ms) = verdicts h s (start_at i a ts) ms
verdicts h s ts (Move.go i now ∷ ms) =
    let m = go_at h s now i ts in add_settled m.settled (verdicts h m.store m.stages ms)

-- ===== src/Auth/Tokens.antt =====
-- `issue_token`, `resume` and `revoke` of auth.py.
pub mod Alone
use text.Mathlib.Text.{◌==◌ as str_eq}
use alzendor.Prelude.{
  ℕ, ◌+◌, String, Bool, true, false, Option, none, some, List, [], ◌∷◌, leb, if◌then◌else◌,
}

-- What is stored under a token's key, and the second that it expires at: it is there until that
-- second is past.
pub record Session : Type 0 where
  pub pid : String
  pub expires : ℕ

abbrev pub Tokens : Type 0
Tokens = String → Option Session

abbrev pub put : String → Option Session → Tokens → Tokens
put key v s = λ k. if str_eq key k then v else s k

abbrev pub live : ℕ → Option Session → Option Session
live now none = none
live now (some v) = if leb now v.expires then some v else none

abbrev pub pid_of : Option Session → Option String
pid_of none = none
pid_of (some v) = some v.pid

-- GETEX of a value sets its expiry anew.
abbrev pub renewed : ℕ → Option Session → Option Session
renewed until none = none
renewed until (some v) = some (record v { expires = until })

-- What a session asks of the tokens.
pub data Request : Type 0 where
  issue : (token pid : String) → Request
  resume revoke : (token : String) → Request

-- `token_key` is `_token_key`: a prefix and the SHA-256 of the token, by a library.
module _ (token_key : String → String) (ttl : ℕ) where
  -- SET with an expiry, of a token that `secrets` makes.
  abbrev pub issue_token : Tokens → ℕ → String → String → Tokens
  issue_token s now token pid =
      put (token_key token) (some (record { pid = pid; expires = now + ttl })) s

  abbrev pub resume_token : Tokens → ℕ → String → Tokens × Option String
  resume_token s now token =
      let v = live now (s (token_key token)) in
      (put (token_key token) (renewed (now + ttl) v) s, pid_of v)

  abbrev pub revoke_token : Tokens → String → Tokens
  revoke_token s token = put (token_key token) none s

  -- The tokens after a request, and the player that it is answered with.
  unfoldable pub asks : Tokens → ℕ → Request → Tokens × Option String
  asks s now (Request.issue token pid) = (issue_token s now token pid, none)
  asks s now (Request.resume token) = resume_token s now token
  asks s now (Request.revoke token) = (revoke_token s token, none)

  unfoldable pub run : Tokens → List (ℕ × Request) → Tokens
  unfolding asks
  run s [] = s
  run s ((now, r) ∷ rs) = run (asks s now r).0 rs

-- ===== src/Auth/Tests.antt =====
-- auth.py: runs of logins, registrations and tokens.
use Prim.Native.Char.{code}
use alzendor.Prelude.{
  ℕ, ◌+◌, ◌≤◌, ◌≡◌, refl, String, true, false, none, some, List, [], ◌∷◌, length, ◌==◌, arith,
  str_eq, if◌then◌else◌,
}
use alzendor.Text.{Unicode}
use alzendor.Auth.Store.{Hasher, Store, stored_hash}
use alzendor.Auth.Login.{Attempt, attempt_of, verdicts}
use alzendor.Auth.Login.Limit.{guesses, login_limit}
use alzendor.Auth.Register.{Signup, registers}
use alzendor.Auth.Register.Once.{registrations, register_once, register_keeps}
use alzendor.Auth.Tokens.{Tokens, Session, asks, run}
use alzendor.Auth.Tokens.Alone.{alone, answers, AllAre, run-eq-alone, token_lives}
use alzendor.Auth.Login
use alzendor.Auth.Register
use alzendor.Auth.Tokens

-- A hash that is the password itself.
abbrev plain : Hasher
plain = record { hash = λ p. p; verify = str_eq; needs_rehash = λ d. false; dummy_hash = "dummy" }

abbrev ascii : Unicode
ascii = record {
  is_printable = λ c. true;
  is_space = λ c. code c == 32;
  is_digit = λ c. false;
  lower = λ s. s;
  upper = λ s. s;
  capitalize = λ s. s;
}

abbrev empty : Store
empty = record { counters = λ k. none; accounts = λ p. none }

-- nan has an account.
abbrev with_nan : Store
with_nan = record {
  counters = λ k. none;
  accounts = λ p.
      if str_eq "nan" p
      then some (record { digest = some "a good secret"; name = "Nan"; registered = 5 })
      else none;
}

abbrev guess : String → Attempt
guess password = attempt_of ascii " nan " password "1.2.3.4"

-- One connection guesses wrong, then right.
abbrev two_guesses : List Login.Move
two_guesses =
    Login.Move.start 0 (guess "letmein!")
    ∷ Login.Move.go 0 100
    ∷ Login.Move.go 0 100
    ∷ Login.Move.go 0 101
    ∷ Login.Move.go 0 101
    ∷ Login.Move.go 0 102
    ∷ Login.Move.go 0 102
    ∷ Login.Move.start 0 (guess "a good secret")
    ∷ Login.Move.go 0 103
    ∷ Login.Move.go 0 103
    ∷ Login.Move.go 0 103
    ∷ Login.Move.go 0 104
    ∷ Login.Move.go 0 104
    ∷ []

wrong_then_right :
    verdicts plain with_nan (Login.Stage.idle ∷ []) two_guesses
    ≡ ("nan", Login.Verdict.invalid) ∷ ("nan", Login.Verdict.welcome) ∷ []
unfolding verdicts
wrong_then_right = refl

login_limit_example :
    guesses "nan" 0 (verdicts plain with_nan (Login.Stage.idle ∷ []) two_guesses)
    ≤ 9 + length (Login.Stage.idle ∷ [])
login_limit_example =
    login_limit plain 100 "nan" with_nan (Login.Stage.idle ∷ []) two_guesses refl (omega arith)

abbrev signup : String → Signup
signup password = record { name = " bob "; password = password; address = "1.2.3.4" }

abbrev two_idle : List Register.Stage
two_idle = Register.Stage.idle ∷ Register.Stage.idle ∷ []

-- Two connections ask for one name, step by step in turn.
abbrev race : List Register.Move
race =
    Register.Move.start 0 (signup "first secret")
    ∷ Register.Move.start 1 (signup "other secret")
    ∷ Register.Move.go 0 7
    ∷ Register.Move.go 1 7
    ∷ Register.Move.go 0 7
    ∷ Register.Move.go 1 7
    ∷ Register.Move.go 0 7
    ∷ Register.Move.go 1 7
    ∷ Register.Move.go 0 8
    ∷ Register.Move.go 1 8
    ∷ Register.Move.go 0 8
    ∷ Register.Move.go 1 8
    ∷ Register.Move.go 0 9
    ∷ []

one_wins :
    (registers plain 20 ascii empty two_idle race).verdicts
    ≡ ("bob", Register.Verdict.taken) ∷ ("bob", Register.Verdict.registered) ∷ []
unfolding registers
one_wins = refl

register_once_example :
    registrations "bob" (registers plain 20 ascii empty two_idle race).verdicts ≤ 1
register_once_example = register_once plain 20 ascii "bob" empty two_idle race refl

register_keeps_example :
    (stored_hash (registers plain 20 ascii with_nan two_idle race).store "nan"
      ≡ some "a good secret")
    × (registrations "nan" (registers plain 20 ascii with_nan two_idle race).verdicts ≡ 0)
register_keeps_example =
    register_keeps plain 20 ascii "nan" "a good secret" with_nan two_idle race refl refl

abbrev no_tokens : Tokens
no_tokens = λ k. none

abbrev requests : List (ℕ × Tokens.Request)
requests =
    (3, Tokens.Request.issue "t1" "nan")
    ∷ (4, Tokens.Request.issue "t2" "bob")
    ∷ (9, Tokens.Request.resume "t1")
    ∷ (10, Tokens.Request.revoke "t2")
    ∷ []

run-eq-alone_example :
    run (λ t. t) 60 no_tokens requests "t1" ≡ alone 60 "t1" requests (no_tokens "t1")
run-eq-alone_example = run-eq-alone (λ t. t) 60 "t1" no_tokens requests (λ t e. e)

-- The last use comes just when the session's time is up, and another player logs out in between.
abbrev stays : List (ℕ × Tokens.Request)
stays =
    (40, Tokens.Request.resume "t1")
    ∷ (50, Tokens.Request.revoke "t2")
    ∷ (100, Tokens.Request.resume "t1")
    ∷ []

stays-answers :
    answers
      (λ t. t)
      60
      "t1"
      (asks (λ t. t) 60 no_tokens 3 (Tokens.Request.issue "t1" "nan")).0
      stays
    ≡ some "nan" ∷ some "nan" ∷ []
unfolding asks
stays-answers = refl

token_lives_example :
    AllAre
      (λ t. t)
      60
      "t1"
      (some "nan")
      (answers
        (λ t. t)
        60
        "t1"
        (asks (λ t. t) 60 no_tokens 3 (Tokens.Request.issue "t1" "nan")).0
        stays)
token_lives_example =
    token_lives (λ t. t) 60 "t1" no_tokens 3 "nan" stays (λ t e. e)
      (refl, omega arith, (refl, omega arith, tt))

-- ===== src/Auth/Tokens/Alone.antt =====
-- A token of auth.py depends on what is asked of it and on nothing else.
use text.Mathlib.Text.{◌==◌ as str_eq}
use text.Mathlib.TextPositions.{eq_refl}
use alzendor.Prelude.{
  ℕ, ◌+◌, ◌≤◌, ◌≡◌, refl, sym, subst, ap, ◌∙◌, String, Bool, true, false, Option, none, some, List,
  [], ◌∷◌, Bool-cases, inl, inr, arith, eq_iff, if◌then◌else◌,
}
use alzendor.Auth.Tokens.{Session, Tokens, put, live, renewed, Request, asks, run}

abbrev pub token_of : Request → String
token_of (Request.issue token pid) = token
token_of (Request.resume token) = token
token_of (Request.revoke token) = token

abbrev pub is_use : String → Request → Bool
is_use token (Request.issue other pid) = false
is_use token (Request.resume other) = str_eq other token
is_use token (Request.revoke other) = false

-- What a token stands for after a request of it.
abbrev pub after : ℕ → ℕ → Request → Option Session → Option Session
after ttl now (Request.issue token pid) v = some (record { pid = pid; expires = now + ttl })
after ttl now (Request.resume token) v = renewed (now + ttl) (live now v)
after ttl now (Request.revoke token) v = none

-- And after all the requests of it, those of other tokens left out.
unfoldable pub alone : ℕ → String → List (ℕ × Request) → Option Session → Option Session
alone ttl token [] v = v
alone ttl token ((now, r) ∷ rs) v =
    alone ttl token rs (if str_eq (token_of r) token then after ttl now r v else v)

module _ (token_key : String → String) (ttl : ℕ) (token : String) where
  put_own : (v : Option Session) (s : Tokens) → put (token_key token) v s (token_key token) ≡ v
  put_own v s = rw (eq_refl (token_key token)) refl

  put_other :
      (other : String) (v : Option Session) (s : Tokens)
      → ((t : String) → token_key t ≡ token_key token → t ≡ token)
      → str_eq other token ≡ false
      → put (token_key other) v s (token_key token) ≡ s (token_key token)
  put_other other v s apart e = elim (Bool-cases (str_eq (token_key other) (token_key token))) [
    | inl same ↦
        let equal : other ≡ token = apart other ((eq_iff _ _).0 same) in
        let yes' : str_eq other token ≡ true = (eq_iff other token).1 equal in cc
    | inr differs ↦ rw differs refl
  ]

  put_one :
      (other : String) (f : Option Session → Option Session) (s : Tokens)
      → ((t : String) → token_key t ≡ token_key token → t ≡ token)
      → put (token_key other) (f (s (token_key other))) s (token_key token)
        ≡ (if str_eq other token then f (s (token_key token)) else s (token_key token))
  put_one other f s apart = elim (Bool-cases (str_eq other token)) [
    | inl e ↦
        let same : other ≡ token = (eq_iff other token).0 e in
        rw e (
          subst
            (λ o.
              put (token_key o) (f (s (token_key o))) s (token_key token) ≡ f (s (token_key token)))
            (sym same) (put_own (f (s (token_key token))) s))
    | inr e ↦ rw e (put_other other _ s apart e)
  ]

  asks_lem :
      (s : Tokens) (now : ℕ) (r : Request)
      → ((t : String) → token_key t ≡ token_key token → t ≡ token)
      → (asks token_key ttl s now r).0 (token_key token) ≡ (
          if str_eq (token_of r) token
          then after ttl now r (s (token_key token))
          else s (token_key token))
  unfolding asks
  asks_lem s now (Request.issue other pid) apart =
      put_one other (after ttl now (Request.issue other pid)) s apart
  asks_lem s now (Request.resume other) apart =
      put_one other (after ttl now (Request.resume other)) s apart
  asks_lem s now (Request.revoke other) apart =
      put_one other (after ttl now (Request.revoke other)) s apart

  -- What a token stands for after any requests, of it and of others, is what the requests of it
  -- alone make of it, if no other token has its key.
  pub run-eq-alone :
      (s : Tokens) (rs : List (ℕ × Request))
      → ((t : String) → token_key t ≡ token_key token → t ≡ token)
      → run token_key ttl s rs (token_key token) ≡ alone ttl token rs (s (token_key token))
  unfolding run alone
  run-eq-alone s [] apart = refl
  run-eq-alone s ((now, r) ∷ rs) apart =
      rw (← asks_lem s now r apart) (run-eq-alone (asks token_key ttl s now r).0 rs apart)

  -- What the token is answered with when it is used at these times.
  abbrev pub uses : Tokens → List ℕ → List (Option String)
  uses s [] = []
  uses s (now ∷ times) =
      let (s', pid) = asks token_key ttl s now (Request.resume token) in pid ∷ uses s' times

  abbrev pub AllAre : Option String → List (Option String) → Type 0
  AllAre pid [] = Unit
  AllAre pid (x ∷ xs) = (x ≡ pid) × AllAre pid xs

  -- What the token is answered with, one after another, among requests of it and of others.
  abbrev pub answers : Tokens → List (ℕ × Request) → List (Option String)
  answers s [] = []
  answers s ((now, r) ∷ rs) =
      let (s', pid) = asks token_key ttl s now r in
      let rest = answers s' rs in if is_use token r then pid ∷ rest else rest

  -- Whatever is asked of other tokens, this one is only used, each time when no more than the time
  -- to live has passed since the last.
  abbrev pub Lively : ℕ → List (ℕ × Request) → Type 0
  Lively last [] = Unit
  Lively last ((now, r) ∷ rs) =
      if str_eq (token_of r) token
      then (is_use token r ≡ true) × (now ≤ last + ttl) × Lively now rs
      else Lively last rs

  use_own : (r : Request) → str_eq (token_of r) token ≡ false → is_use token r ≡ false
  use_own (Request.issue other pid) e = refl
  use_own (Request.resume other) e = e
  use_own (Request.revoke other) e = refl

  live_now :
      (last now : ℕ) (pid : String)
      → now ≤ last + ttl
      → live now (some (record { pid = pid; expires = last + ttl }))
        ≡ some (record { pid = pid; expires = last + ttl })
  live_now last now pid l = ground arith

  -- A use in time renews the session,
  used_after :
      (last now : ℕ) (pid : String) (r : Request)
      → is_use token r ≡ true
      → now ≤ last + ttl
      → after ttl now r (some (record { pid = pid; expires = last + ttl }))
        ≡ some (record { pid = pid; expires = now + ttl })
  used_after last now pid (Request.issue other p) u l = cc
  used_after last now pid (Request.resume other) u l = rw (live_now last now pid l) refl
  used_after last now pid (Request.revoke other) u l = cc

  -- and gives the player.
  used :
      (s : Tokens) (last now : ℕ) (pid : String) (r : Request)
      → s (token_key token) ≡ some (record { pid = pid; expires = last + ttl })
      → is_use token r ≡ true
      → now ≤ last + ttl
      → (asks token_key ttl s now r).1 ≡ some pid
  unfolding asks
  used s last now pid (Request.issue other p) e u l = cc
  used s last now pid (Request.resume other) e u l =
      let same : other ≡ token = (eq_iff other token).0 u in
      rw same (rw e (rw (live_now last now pid l) refl))
  used s last now pid (Request.revoke other) e u l = cc

  answers-AllAre :
      (s : Tokens) (last : ℕ) (pid : String) (rs : List (ℕ × Request))
      → ((t : String) → token_key t ≡ token_key token → t ≡ token)
      → s (token_key token) ≡ some (record { pid = pid; expires = last + ttl })
      → Lively last rs
      → AllAre (some pid) (answers s rs)
  answers-AllAre s last pid [] apart e l = tt
  answers-AllAre s last pid ((now, r) ∷ rs) apart e l =
      elim (Bool-cases (str_eq (token_of r) token)) [
        | inl own ↦
            let l' : (is_use token r ≡ true) × (now ≤ last + ttl) × Lively now rs = (rw own at l) in
            rw l'.0 (
              used s last now pid r e l'.0 l'.1,
              answers-AllAre (asks token_key ttl s now r).0 now pid rs apart
                  (asks_lem s now r apart
                    ∙ rw own (ap (after ttl now r) e ∙ used_after last now pid r l'.0 l'.1))
                  l'.2,
            )
        | inr other ↦
            let l' : Lively last rs = (rw other at l) in
            rw (use_own r other) (
              answers-AllAre (asks token_key ttl s now r).0 last pid rs apart
                (asks_lem s now r apart ∙ rw other e) l')
      ]

  -- A token that was issued gives its player at every use, whatever is asked of other tokens in
  -- between, if no other token has its key, it is not issued again or revoked, and no use comes
  -- later than the time to live after the issue or the use before it.
  pub token_lives :
      (s : Tokens) (t : ℕ) (pid : String) (rs : List (ℕ × Request))
      → ((t' : String) → token_key t' ≡ token_key token → t' ≡ token)
      → Lively t rs
      → AllAre (some pid) (answers (asks token_key ttl s t (Request.issue token pid)).0 rs)
  unfolding asks
  token_lives s t pid rs apart l = answers-AllAre _ t pid rs apart (put_own _ s) l

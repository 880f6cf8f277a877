-- ===== src/Auth/Login/Pending.antt =====
-- One step of `login` of auth.py, and the failures that its account's counter has.
use text.Mathlib.Text.{◌==◌ as str_eq}
use text.Mathlib.TextPositions.{eq_refl}
use alzendor.Prelude.{
  ℕ, zero, suc, ◌+◌, ◌≤◌, ◌<◌, ◌≡◌, ◌⊎◌, refl, sym, subst, String, Bool, true, false, Option, none,
  some, List, [], ◌∷◌, leb, length, Bool-cases, inl, inr, arith, eq_iff, if◌then◌else◌,
}
use alzendor.Auth.Store.{
  Hasher, Key, Counter, Store, live, value_of, bumped, count, bump, put_counter, per_address,
  per_account, login_window, verifies,
}
use alzendor.Auth.Login.{Attempt, Stage, Verdict, Settled, advance, start_at}

-- Whether a connection may still check or count a password for the account.
abbrev pub waits : String → Stage → ℕ
waits pid Stage.idle = 0
waits pid (Stage.counts_address a) = 0
waits pid (Stage.counts_account a) = 0
waits pid (Stage.looks_up a) = if str_eq a.pid pid then 1 else 0
waits pid (Stage.verifying a stored) = if str_eq a.pid pid then 1 else 0
waits pid (Stage.bumps_address a) = if str_eq a.pid pid then 1 else 0
waits pid (Stage.bumps_account a) = if str_eq a.pid pid then 1 else 0
waits pid (Stage.clears a stored) = if str_eq a.pid pid then 1 else 0
waits pid (Stage.rehashes a) = 0

abbrev pub pending : String → List Stage → ℕ
pending pid [] = 0
pending pid (t ∷ ts) = waits pid t + pending pid ts

-- The failures before a verdict and with it; none after a welcome to the account.
abbrev pub tally : String → ℕ → Settled → Option ℕ
tally pid n none = some n
tally pid n (some (p, Verdict.too_many)) = some n
tally pid n (some (p, Verdict.invalid)) = if str_eq p pid then some (suc n) else some n
tally pid n (some (p, Verdict.welcome)) = if str_eq p pid then none else some n

-- The account's counter, if it counts n failures and outlives the window from t on.
abbrev pub Counts : ℕ → ℕ → Option Counter → Type 0
Counts t n none = n ≡ 0
Counts t n (some c) = ((c.value ≡ n) × (t + 900 ≤ c.expires)) ⊎ ((n ≡ 0) × (c.expires < t))

pub Counts-live : (t : ℕ) (c : Option Counter) → live t c ≡ none → Counts t 0 c
Counts-live t none e = refl
Counts-live t (some c) e = inr (refl, ground arith)

-- After a step: the failures so far, the counter, and what is still pending.
abbrev pub Bounded : ℕ → String → ℕ → ℕ → Option ℕ → Store → ℕ → Type 0
Bounded t pid x top none s left = Unit
Bounded t pid x top (some n) s left =
    Counts t n (s.counters (Key.login_to pid)) × (n + (x + left) ≤ top)

value-Counts :
    (t n now : ℕ) (c : Option Counter)
    → t ≤ now
    → now < t + 900
    → Counts t n c
    → value_of (live now c) ≡ n
value-Counts t n now none a b c = ground arith
value-Counts t n now (some x) a b c = ground arith

bumped-Counts :
    (t n now : ℕ) (c : Option Counter)
    → t ≤ now
    → now < t + 900
    → Counts t n c
    → Counts t (suc n) (some (bumped now login_window (live now c)))
bumped-Counts t n now none a b c = ground arith
bumped-Counts t n now (some x) a b c = ground arith

module _ (h : Hasher) (t : ℕ) (pid : String) (now : ℕ) (from : t ≤ now) (to : now < t + 900) where
  -- Whether the account's failures are read too many: then fewer than ten have been.
  admits :
      (n x k : ℕ) (s : Store) (p : String)
      → Counts t n (s.counters (Key.login_to pid))
      → x ≤ k
      → n + (x + 0) ≤ 10 + k
      → leb per_account (count s now (Key.login_to p)) ≡ false
      → n + (x + (if str_eq p pid then 1 else 0)) ≤ 10 + k
  admits n x k s p c l b e = elim (Bool-cases (str_eq p pid)) [
    | inl f ↦
        let same : p ≡ pid = (eq_iff p pid).0 f in
        let few : leb per_account (count s now (Key.login_to pid)) ≡ false =
          subst (λ q. leb per_account (count s now (Key.login_to q)) ≡ false) same e in
        let v : count s now (Key.login_to pid) ≡ n = value-Counts t n now _ from to c in
        rw f (ground (arith, v, few))
    | inr f ↦ rw f b
  ]

  Counts-one :
      (n x k : ℕ) (s : Store) (p : String)
      → Counts t n (s.counters (Key.login_to pid))
      → n + (x + (if str_eq p pid then 1 else 0)) ≤ 10 + k
      → Bounded t pid x
          (10 + k)
          (if str_eq p pid then some (suc n) else some n)
          (bump s now (Key.login_to p) login_window)
          0
  Counts-one n x k s p c b = elim (Bool-cases (str_eq p pid)) [
    | inl f ↦
        let same : p ≡ pid = (eq_iff p pid).0 f in
        let b' : n + (x + 1) ≤ 10 + k = (rw f at b) in
        subst
          (λ q.
            Bounded t pid x (10 + k) (if str_eq q pid then some (suc n) else some n)
              (bump s now (Key.login_to q) login_window) 0)
          (sym same)
          (rw (eq_refl pid) ((rw (eq_refl pid) (bumped-Counts t n now _ from to c)), omega arith))
    | inr f ↦ rw f ((rw f c), let b' : n + (x + 0) ≤ 10 + k = (rw f at b) in b')
  ]

  clears_one :
      (n x k : ℕ) (s : Store) (p : String) (g : Stage)
      → Counts t n (s.counters (Key.login_to pid))
      → n + (x + (if str_eq p pid then 1 else 0)) ≤ 10 + k
      → waits pid g ≡ 0
      → Bounded t pid x
          (10 + k)
          (if str_eq p pid then none else some n)
          (put_counter (Key.login_to p) none s)
          (waits pid g)
  clears_one n x k s p g c b z = elim (Bool-cases (str_eq p pid)) [
    | inl f ↦ rw f tt
    | inr f ↦ rw f ((rw f c), let b' : n + (x + 0) ≤ 10 + k = (rw f at b) in omega (arith, b', z))
  ]

  rehash_waits :
      (b : Bool) (a : Attempt) → waits pid (if b then Stage.rehashes a else Stage.idle) ≡ 0
  rehash_waits true a = refl
  rehash_waits false a = refl

  -- One step of a connection, with x others pending, out of k.
  pub advance-Bounded :
      (n x k : ℕ) (s : Store) (g : Stage)
      → Counts t n (s.counters (Key.login_to pid))
      → x ≤ k
      → n + (x + waits pid g) ≤ 10 + k
      → Bounded t pid x
          (10 + k)
          (tally pid n (advance h s now g).settled)
          (advance h s now g).store
          (waits pid (advance h s now g).stage)
  unfolding advance
  advance-Bounded n x k s Stage.idle c l b = (c, b)
  advance-Bounded n x k s (Stage.counts_address a) c l b =
      elim (Bool-cases (leb per_address (count s now (Key.login_from a.address)))) [
        | inl e ↦ rw e (c, b)
        | inr e ↦ rw e (c, b)
      ]
  advance-Bounded n x k s (Stage.counts_account a) c l b =
      elim (Bool-cases (leb per_account (count s now (Key.login_to a.pid)))) [
        | inl e ↦ rw e (c, b)
        | inr e ↦ rw e (c, admits n x k s a.pid c l b e)
      ]
  advance-Bounded n x k s (Stage.looks_up a) c l b = (c, b)
  advance-Bounded n x k s (Stage.verifying a stored) c l b =
      elim (Bool-cases (verifies h stored a.password)) [ inl e ↦ rw e (c, b) | inr e ↦ rw e (c, b) ]
  advance-Bounded n x k s (Stage.bumps_address a) c l b = (c, b)
  advance-Bounded n x k s (Stage.bumps_account a) c l b = Counts-one n x k s a.pid c b
  advance-Bounded n x k s (Stage.clears a stored) c l b =
      clears_one n x k s a.pid _ c b (rehash_waits _ a)
  advance-Bounded n x k s (Stage.rehashes a) c l b = (c, b)

pub waits-le : (pid : String) (g : Stage) → waits pid g ≤ 1
waits-le pid Stage.idle = omega arith
waits-le pid (Stage.counts_address a) = omega arith
waits-le pid (Stage.counts_account a) = omega arith
waits-le pid (Stage.rehashes a) = omega arith
waits-le pid g = ground arith

pub pending-le : (pid : String) (gs : List Stage) → pending pid gs ≤ length gs
pending-le pid [] = omega arith
pending-le pid (g ∷ gs) = omega (arith, waits-le pid g, pending-le pid gs)

pub start_at-pending :
    (pid : String) (i : ℕ) (a : Attempt) (gs : List Stage)
    → pending pid (start_at i a gs) ≡ pending pid gs
start_at-pending pid i a [] = refl
start_at-pending pid zero a (Stage.idle ∷ gs) = refl
start_at-pending pid zero a (g ∷ gs) = refl
start_at-pending pid (suc i) a (g ∷ gs) = omega (arith, start_at-pending pid i a gs)

pub length-start_at : (i : ℕ) (a : Attempt) (gs : List Stage) → length (start_at i a gs) ≡ length gs
length-start_at i a [] = refl
length-start_at zero a (g ∷ gs) = refl
length-start_at (suc i) a (g ∷ gs) = omega (arith, length-start_at i a gs)

-- The same bound, with some of the others counted among those that moved.
pub Bounded-more :
    (t : ℕ) (pid : String) (x y w w' top top' : ℕ) (o : Option ℕ) (s : Store)
    → Bounded t pid x top o s w
    → x + w ≡ y + w'
    → top ≡ top'
    → Bounded t pid y top' o s w'
Bounded-more t pid x y w w' top top' none s b e f = tt
Bounded-more t pid x y w w' top top' (some n) s b e f = (b.0, omega arith)

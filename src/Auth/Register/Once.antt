-- ===== src/Auth/Register/Once.antt =====
-- An account is made once, and its password stays, however the steps of `register` of auth.py come
-- between one another.
use alzendor.Prelude.{
  ℕ, zero, suc, ◌+◌, ◌≤◌, ◌≡◌, ◌⊎◌, refl, subst, String, Option, none, some, List, [], ◌∷◌,
  Option-cases, inl, inr, arith,
}
use alzendor.Text.{Unicode}
use alzendor.Auth.Store.{Hasher, Store, stored_hash}
use alzendor.Auth.Register.{
  Signup, Stage, Verdict, Settled, Moved, Move, Ran, started, step_of, connection, move_at,
  add_settled, registers,
}
use alzendor.Auth.Register.Keeps.{
  claimed, claims_of, made, Kept, Kept_same, Keeps, Keeps-quietly, begins-Keeps, advance-Keeps,
}

-- The registrations of the name.
abbrev pub registrations : String → List (String × Verdict) → ℕ
registrations pid [] = 0
registrations pid (v ∷ vs) = made pid (some v) + registrations pid vs

Kept-add :
    (pid : String) (o o' : Option String) (n m x n' m' : ℕ)
    → Kept pid o o' n m
    → n' ≡ n + x
    → m' ≡ m + x
    → Kept pid o o' n' m'
Kept-add pid none none n m x n' m' k e f = omega arith
Kept-add pid none (some d) n m x n' m' k e f = omega arith
Kept-add pid (some d) none n m x n' m' k e f = k
Kept-add pid (some d) (some d') n m x n' m' k e f = (k.0, omega arith)

Kept-some :
    (pid d : String) (o : Option String) (n m : ℕ)
    → Kept pid (some d) o n m
    → (o ≡ some d) × (m ≡ n)
Kept-some pid d none n m k = absurd k
Kept-some pid d (some e) n m k = (rw k.0 refl, k.1)

-- A free name stays free, with no claim, or is claimed once.
Kept-none :
    (pid : String) (o : Option String) (n m : ℕ)
    → n ≡ 0
    → Kept pid none o n m
    → ((o ≡ none) × (m ≡ 0)) ⊎ ((d : String) × (o ≡ some d) × (m ≡ 1))
Kept-none pid none n m z k = inl (refl, omega arith)
Kept-none pid (some d) n m z k = inr (d, refl, omega arith)

module _ (h : Hasher) (per_hour : ℕ) (u : Unicode) (pid : String) where
  started-Keeps :
      (s : Store) (r : Signup) (t : Stage) → Keeps pid s (claimed pid t) (started u s r t)
  started-Keeps s r Stage.idle = begins-Keeps h per_hour u pid s r
  started-Keeps s r t = Keeps-quietly pid s t

  step_of-Keeps :
      (s : Store) (mv : Move) (t : Stage)
      → Keeps pid s (claimed pid t) (step_of h per_hour u s mv t)
  step_of-Keeps s (Move.start i r) t = started-Keeps s r t
  step_of-Keeps s (Move.go i now) t = advance-Keeps h per_hour u pid s now t

  move_at-Kept :
      (s : Store) (mv : Move) (i : ℕ) (ts : List Stage)
      → let m = move_at h per_hour u s mv i ts in
        Kept pid
          (stored_hash s pid)
          (stored_hash m.store pid)
          (claims_of pid ts)
          (made pid m.settled + claims_of pid m.stages)
  unfolding move_at
  move_at-Kept s mv i [] = Kept_same pid _ 0 0 refl
  move_at-Kept s mv zero (t ∷ ts) =
      Kept-add pid _ _ _ _ (claims_of pid ts) _ _ (step_of-Keeps s mv t).kept refl (omega arith)
  move_at-Kept s mv (suc i) (t ∷ ts) =
      Kept-add pid _ _ _ _ (claimed pid t) _ _ (move_at-Kept s mv i ts) (omega arith) (omega arith)

  -- After a name is taken.
  abbrev HeldBy : ℕ → String → Ran → Type 0
  HeldBy claims d r = (stored_hash r.store pid ≡ some d) × (registrations pid r.verdicts ≤ claims)

  HeldBy-settled :
      (n m : ℕ) (d : String) (o : Settled) (r : Ran)
      → HeldBy m d r
      → made pid o + m ≡ n
      → HeldBy n d (add_settled o r)
  HeldBy-settled n m d none r k e = (k.0, omega arith)
  HeldBy-settled n m d (some v) r k e = (k.0, omega arith)

  HeldBy-registers :
      (d : String) (s : Store) (ts : List Stage) (ms : List Move)
      → stored_hash s pid ≡ some d
      → HeldBy (claims_of pid ts) d (registers h per_hour u s ts ms)
  unfolding registers
  HeldBy-registers d s ts [] e = (e, omega arith)
  HeldBy-registers d s ts (mv ∷ ms) e =
      let m : Moved = move_at h per_hour u s mv (connection mv) ts in
      let k : Kept pid (some d) (stored_hash m.store pid) (claims_of pid ts)
          (made pid m.settled + claims_of pid m.stages) =
        subst
          (λ o.
            Kept pid o (stored_hash m.store pid) (claims_of pid ts)
              (made pid m.settled + claims_of pid m.stages))
          e (move_at-Kept s mv (connection mv) ts) in
      let (held, same) = Kept-some pid d _ _ _ k in
      HeldBy-settled _ (claims_of pid m.stages) d m.settled _
        (HeldBy-registers d m.store m.stages ms held) same

  once_settled :
      (m : ℕ) (o : Settled) (r : Ran)
      → made pid o + m ≤ 1
      → registrations pid r.verdicts ≤ m
      → registrations pid (add_settled o r).verdicts ≤ 1
  once_settled m none r l k = omega arith
  once_settled m (some v) r l k = omega arith

  once_settled_free :
      (o : Settled) (r : Ran)
      → made pid o ≡ 0
      → registrations pid r.verdicts ≤ 1
      → registrations pid (add_settled o r).verdicts ≤ 1
  once_settled_free none r l k = k
  once_settled_free (some v) r l k = omega arith

  free_once :
      (s : Store) (ts : List Stage) (ms : List Move)
      → stored_hash s pid ≡ none
      → claims_of pid ts ≡ 0
      → registrations pid (registers h per_hour u s ts ms).verdicts ≤ 1
  unfolding registers
  free_once s ts [] e z = omega arith
  free_once s ts (mv ∷ ms) e z =
      let m : Moved = move_at h per_hour u s mv (connection mv) ts in
      let rest : Ran = registers h per_hour u m.store m.stages ms in
      let k : Kept pid none (stored_hash m.store pid) (claims_of pid ts)
          (made pid m.settled + claims_of pid m.stages) =
        subst
          (λ o.
            Kept pid o (stored_hash m.store pid) (claims_of pid ts)
              (made pid m.settled + claims_of pid m.stages))
          e (move_at-Kept s mv (connection mv) ts) in
      elim (Kept-none pid _ _ _ z k) [
        | inl (free, none_made) ↦
            once_settled_free m.settled rest (omega arith)
              (free_once m.store m.stages ms free (omega arith))
        | inr (d, held, one) ↦
            once_settled (claims_of pid m.stages) m.settled rest (omega arith)
              (HeldBy-registers d m.store m.stages ms held).1
      ]

  -- However the steps of any number of connections come between one another, a name is registered
  -- at most once, when none of them had claimed it at the start.
  pub register_once :
      (s : Store) (ts : List Stage) (ms : List Move)
      → claims_of pid ts ≡ 0
      → registrations pid (registers h per_hour u s ts ms).verdicts ≤ 1
  register_once s ts ms z = elim (Option-cases (stored_hash s pid)) [
    | inl e ↦ free_once s ts ms e z
    | inr (d, e) ↦ omega (arith, (HeldBy-registers d s ts ms e).1)
  ]

  -- An account that has a password's hash keeps it through any registrations, however their steps
  -- come between one another, and its name is not registered again, when no connection had claimed
  -- it at the start.
  pub register_keeps :
      (d : String) (s : Store) (ts : List Stage) (ms : List Move)
      → claims_of pid ts ≡ 0
      → stored_hash s pid ≡ some d
      → (stored_hash (registers h per_hour u s ts ms).store pid ≡ some d)
        × (registrations pid (registers h per_hour u s ts ms).verdicts ≡ 0)
  register_keeps d s ts ms z e =
      let held = HeldBy-registers d s ts ms e in (held.0, omega (arith, held.1))

-- ===== src/Auth/Login/Limit.antt =====
-- How many wrong passwords for one account `login` of auth.py checks, however its calls come
-- between one another.
use alzendor.Prelude.{
  ℕ, zero, suc, ◌+◌, ◌≤◌, ◌<◌, ◌≡◌, refl, subst, String, none, some, List, [], ◌∷◌, length,
  Option-cases, inl, inr, arith,
}
use alzendor.Auth.Store.{Hasher, Key, Store, live}
use alzendor.Auth.Login.{
  Stage, Verdict, Settled, Moved, Move, start_at, go_at, add_settled, verdicts,
}
use alzendor.Auth.Login.Pending.{
  waits, pending, tally, Counts, Bounded, advance-Bounded, waits-le, pending-le, start_at-pending,
  length-start_at, Bounded-more, Counts-live,
}

-- The wrong passwords for the account, up to the first right one.
unfoldable pub guesses : String → ℕ → List (String × Verdict) → ℕ
guesses pid n [] = n
guesses pid n (v ∷ vs) = elim (tally pid n (some v)) [ none ↦ n | some m ↦ guesses pid m vs ]

module _ (h : Hasher) (t : ℕ) (pid : String) where
  length-go_at :
      (s : Store) (now i : ℕ) (gs : List Stage) → length (go_at h s now i gs).stages ≡ length gs
  unfolding go_at
  length-go_at s now i [] = refl
  length-go_at s now zero (g ∷ gs) = refl
  length-go_at s now (suc i) (g ∷ gs) = omega (arith, length-go_at s now i gs)

  go_at-Bounded :
      (now : ℕ)
      → t ≤ now
      → now < t + 900
      → (n x k i : ℕ) (s : Store) (gs : List Stage) → Counts t n (s.counters (Key.login_to pid))
      → x ≤ k
      → n + (x + pending pid gs) ≤ 9 + (k + length gs)
      → Bounded t pid x
          (9 + (k + length gs))
          (tally pid n (go_at h s now i gs).settled)
          (go_at h s now i gs).store
          (pending pid (go_at h s now i gs).stages)
  unfolding go_at
  go_at-Bounded now from to n x k i s [] c l b = (c, b)
  go_at-Bounded now from to n x k zero s (g ∷ gs) c l b =
      Bounded-more t pid (x + pending pid gs) x _ _ (10 + (k + length gs)) _ _ _
        (advance-Bounded h t pid now from to n (x + pending pid gs) (k + length gs) s g c
          (omega (arith, pending-le pid gs)) (omega arith))
        (omega arith) (omega arith)
  go_at-Bounded now from to n x k (suc i) s (g ∷ gs) c l b =
      Bounded-more t pid (x + waits pid g) x _ _ (9 + (suc k + length gs)) _ _ _
        (go_at-Bounded now from to n (x + waits pid g) (suc k) i s gs c
          (omega (arith, waits-le pid g)) (omega arith))
        (omega arith) (omega arith)

  -- Every step is made in the window from t on.
  abbrev pub InWindow : List Move → Type 0
  InWindow [] = Unit
  InWindow (Move.start i a ∷ ms) = InWindow ms
  InWindow (Move.go i now ∷ ms) = (t ≤ now) × (now < t + 900) × InWindow ms

  guesses_nil : (n top : ℕ) → n ≤ 9 + top → guesses pid n [] ≤ 9 + top
  unfolding guesses
  guesses_nil n top l = l

  guesses-settled :
      (n top : ℕ) (o : Settled) (vs : List (String × Verdict))
      → n ≤ top
      → ((m : ℕ) → tally pid n o ≡ some m → guesses pid m vs ≤ top)
      → guesses pid n (add_settled o vs) ≤ top
  unfolding guesses
  guesses-settled n top none vs l f = f n refl
  guesses-settled n top (some v) vs l f = elim (Option-cases (tally pid n (some v))) [
    | inl e ↦ rw (e, guesses) l
    | inr (m, e) ↦ rw (e, guesses) (f m e)
  ]

  guesses-verdicts :
      (n : ℕ) (s : Store) (gs : List Stage) (ms : List Move)
      → Counts t n (s.counters (Key.login_to pid))
      → n + pending pid gs ≤ 9 + length gs
      → InWindow ms
      → guesses pid n (verdicts h s gs ms) ≤ 9 + length gs
  unfolding verdicts
  guesses-verdicts n s gs [] c b w = guesses_nil n (length gs) (omega arith)
  guesses-verdicts n s gs (Move.start i a ∷ ms) c b w = omega (
    arith,
    length-start_at i a gs,
    guesses-verdicts n s (start_at i a gs) ms c
        (omega (arith, length-start_at i a gs, start_at-pending pid i a gs)) w,
  )
  guesses-verdicts n s gs (Move.go i now ∷ ms) c b w =
      let m : Moved = go_at h s now i gs in
      let after = go_at-Bounded now w.0 w.1 n 0 0 i s gs c (omega arith) (omega arith) in
      guesses-settled n (9 + length gs) m.settled _ (omega arith) (λ n' e.
        let next : Bounded t pid 0 (9 + (0 + length gs)) (some n') m.store (pending pid m.stages) =
          subst (λ o. Bounded t pid 0 (9 + (0 + length gs)) o m.store (pending pid m.stages)) e
            after in
        omega (
          arith,
          length-go_at s now i gs,
          guesses-verdicts n' m.store m.stages ms next.0
              (omega (arith, length-go_at s now i gs, next.1)) w.2,
        ))

  -- In the 15 minutes from a time when the account has no live count of failures, at most nine
  -- wrong passwords more than there are connections are checked and refused before a right one
  -- (ten, with one connection): whatever attempts the connections start, for this account and
  -- others, from whatever addresses, wherever they stood, and however their steps come between one
  -- another.
  pub login_limit :
      (s : Store) (gs : List Stage) (ms : List Move)
      → live t (s.counters (Key.login_to pid)) ≡ none
      → InWindow ms
      → guesses pid 0 (verdicts h s gs ms) ≤ 9 + length gs
  login_limit s gs ms e w =
      guesses-verdicts 0 s gs ms (Counts-live t _ e) (omega (arith, pending-le pid gs)) w

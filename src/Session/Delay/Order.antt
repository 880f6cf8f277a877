-- ===== src/Session/Delay/Order.antt =====
-- The fake latency of session.py keeps the order of the messages and never cuts their wait.
use mathlib.Core.List.{append_assoc, append-nil}
use alzendor.Prelude.{
  ℕ, ◌+◌, ◌≤◌, ◌≡◌, refl, sym, subst, ◌∙◌, Bool, List, [], ◌∷◌, ◌++◌, Bool-cases, inl, inr, arith,
  if◌then◌else◌,
}
use alzendor.Session.Delay.{Put, Delay, later, put, put_all, deliveries}

module _ {A : Type 0} (goes_on : A → Bool) where
  -- When each message is due.
  abbrev stamps : ℕ → ℕ → List (Put A) → List (ℕ × A)
  stamps wait last [] = []
  stamps wait last (p ∷ ps) =
      let due = later last (p.now + (wait + p.draw)) in (due, p.item) ∷ stamps wait due ps

  put_all-queue :
      (d : Delay A) (ps : List (Put A)) → (put_all d ps).queue ≡ d.queue ++ stamps d.wait d.last ps
  unfolding put_all
  put_all-queue d [] = sym (append-nil d.queue)
  put_all-queue d (p ∷ ps) =
      put_all-queue (put d p) ps
      ∙ append_assoc d.queue ((later d.last (p.now + (d.wait + p.draw)), p.item) ∷ []) _

  -- The deliveries are of the messages that were put, in their order, none before an earlier one's
  -- time nor before its own wait is over; they end early only after one that found the connection
  -- closed.
  abbrev pub IsOrdered : ℕ → ℕ → List (Put A) → List (ℕ × A) → Type 0
  IsOrdered wait from [] [] = Unit
  IsOrdered wait from [] (d ∷ ds) = ⊥
  IsOrdered wait from (p ∷ ps) [] = ⊥
  IsOrdered wait from (p ∷ ps) ((at, item) ∷ ds) =
      (item ≡ p.item)
      × (from ≤ at)
      × (p.now + (wait + p.draw) ≤ at)
      × (if goes_on item then IsOrdered wait at ps ds else (ds ≡ []))

  stamps-IsOrdered :
      (wait last free : ℕ) (ps : List (Put A))
      → IsOrdered wait free ps (deliveries goes_on free (stamps wait last ps))
  unfolding deliveries
  stamps-IsOrdered wait last free [] = tt
  stamps-IsOrdered wait last free (p ∷ ps) = (
    refl,
    ground arith,
    ground arith,
    elim (Bool-cases (goes_on p.item)) [
      | inl e ↦ rw e (
          stamps-IsOrdered wait (later last (p.now + (wait + p.draw)))
            (later free (later last (p.now + (wait + p.draw)))) ps)
      | inr e ↦ rw e refl
    ],
  )

  -- Whatever the times and the draws, the messages put into a new delay are handed on in their
  -- order, each no sooner than the wait and its draw after it was put and none before an earlier one; all of
  -- them are, unless one finds the connection closed, and then none after it.
  pub deliveries-IsOrdered :
      (wait : ℕ) (ps : List (Put A))
      → IsOrdered wait 0 ps
          (deliveries goes_on 0 (put_all (record { wait = wait; last = 0; queue = [] }) ps).queue)
  deliveries-IsOrdered wait ps =
      subst (λ q. IsOrdered wait 0 ps (deliveries goes_on 0 q))
        (sym (put_all-queue (record { wait = wait; last = 0; queue = [] }) ps))
        (stamps-IsOrdered wait 0 0 ps)

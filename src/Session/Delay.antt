-- ===== src/Session/Delay.antt =====
-- session.py: `Delay`, the fake latency. Times are in microseconds; `draw` is what random.uniform
-- gives, and `goes_on` whether handing an item on finds the connection open.
pub mod Order
use alzendor.Prelude.{ℕ, ◌+◌, Bool, true, false, List, [], ◌∷◌, ◌++◌, ltb, if◌then◌else◌}

-- A message that is put, with the time and the draw.
pub record Put (A : Type 0) : Type 0 where
  pub now : ℕ
  pub draw : ℕ
  pub item : A

-- The queue holds when each message is due.
pub record Delay (A : Type 0) : Type 0 where
  pub wait : ℕ
  pub last : ℕ
  pub queue : List (ℕ × A)

-- max(a, b)
abbrev pub later : ℕ → ℕ → ℕ
later a b = if ltb a b then b else a

module _ {A : Type 0} where
  unfoldable pub put : Delay A → Put A → Delay A
  put d p =
      let due = later d.last (p.now + (d.wait + p.draw)) in
      record d { last = due; queue = d.queue ++ ((due, p.item) ∷ []) }

  unfoldable pub put_all : Delay A → List (Put A) → Delay A
  unfolding put
  put_all d [] = d
  put_all d (p ∷ ps) = put_all (put d p) ps

  -- `_run`, from a time when it is free: what it hands on, and when. A closed connection ends it;
  -- any other failure is logged.
  unfoldable pub deliveries : (A → Bool) → ℕ → List (ℕ × A) → List (ℕ × A)
  deliveries goes_on free [] = []
  deliveries goes_on free ((due, item) ∷ more) =
      let rest = deliveries goes_on (later free due) more in
      (later free due, item) ∷ (if goes_on item then rest else [])

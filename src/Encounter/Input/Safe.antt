-- ===== src/Encounter/Input/Safe.antt =====
-- An input leaves the dot's clock and stream where they were, and its act is taken once.
use alzendor.Prelude.{
  ℕ, ◌+◌, ◌≤◌, ◌≡◌, refl, ◌∙◌, ap, String, Bool, true, false, Bool-cases, inl, inr, List, [], ◌∷◌,
  ◌++◌, Option, none, some, arith, length, length-append, ◌==◌, Succeeds, Succeeds-some,
  Succeeds-bind,
}
use alzendor.Prelude.Int.{ℤ, pos_part, ltb_ℤ}
use alzendor.Real.{Real}
use alzendor.Balance.Dot.{Act}
use alzendor.Encounter.Data.{Player}
use alzendor.Encounter.Rewind.{Done, Rewound}
use alzendor.Encounter.Rewind.Recorded.{IsKept}
use alzendor.Encounter.Rewind.Clock.{Steady-rewind}
use alzendor.Encounter.Turn.{is_boss}
use alzendor.Encounter.Input.{
  Message, Around, Answered, Wish, done, no_target, run_away, let_go, idle, newer, wait_unless,
  low_bits, rewind_to, hold, take_keys, wish, grant, input,
}

module _ {F : Type 0} ⦃r : Real F⦄ where
  -- A player after a part of an input: as the owner keeps it, with its clock and stream where they
  -- were, and at most n acts more that wait.
  pub record Held (p : Player F) (n : ℕ) (q : Player F) : Type 0 where
    pub kept : IsKept q
    pub clock : q.dot.n ≡ p.dot.n
    pub rng : q.dot.rng ≡ p.dot.rng
    pub pid : q.pid ≡ p.pid
    pub acts : length q.acts ≤ length p.acts + n

  Held-rewind_to :
      (bosses : String → Bool) (p : Player F) (at : Option ℤ) (what : Done)
      → IsKept p
      → Succeeds (λ (x : Rewound F). Held p 0 x.player) (rewind_to bosses p at what)
  unfolding rewind_to
  Held-rewind_to bosses p none what h =
      Succeeds-some _
        (record { kept = h; clock = refl; rng = refl; pid = refl; acts = omega arith })
  Held-rewind_to bosses p (some at) what h =
      let s = Steady-rewind bosses p (pos_part at) what h in
      let same = ap (λ (xs : List Act). length xs) s.holds.acts in
      record {
        value = s.value;
        succeeds = s.succeeds;
        holds = record {
          kept = s.holds.kept;
          clock = s.holds.n;
          rng = s.holds.rng;
          pid = s.holds.pid;
          acts = omega (arith, same);
        };
      }

  -- The same player but for its keys, its acts, its sequence number or its flight.
  IsKept-same :
      (p q : Player F)
      → IsKept p
      → q.dot ≡ p.dot
      → q.scratch ≡ p.scratch
      → q.history ≡ p.history
      → IsKept q
  IsKept-same p q h d s es = record {
    armed = rw d h.armed;
    same_slots = rw (d, s) h.same_slots;
    recorded = rw (d, es) h.recorded;
  }

  Held-then : (p q q' : Player F) (n m : ℕ) → Held p n q → Held q m q' → Held p (n + m) q'
  Held-then p q q' n m h k = record {
    kept = k.kept;
    clock = k.clock ∙ h.clock;
    rng = k.rng ∙ h.rng;
    pid = k.pid ∙ h.pid;
    acts = omega (arith, h.acts, k.acts);
  }

  Held-newer : (p : Player F) (seq : Option ℤ) → IsKept p → Held p 0 (newer p seq)
  Held-newer p none h = record {
    kept = h;
    clock = refl;
    rng = refl;
    pid = refl;
    acts = omega arith;
  }
  Held-newer p (some seq) h = elim (Bool-cases (ltb_ℤ p.seq seq)) [
    | inl later ↦ rw later (record {
      kept = IsKept-same p (record p { seq = seq }) h refl refl refl;
      clock = refl;
      rng = refl;
      pid = refl;
      acts = omega arith;
    })
    | inr old ↦
        rw old (record { kept = h; clock = refl; rng = refl; pid = refl; acts = omega arith })
  ]

  Held-keys : (p : Player F) (keys : ℕ) → IsKept p → Held p 0 (record p { keys = keys })
  Held-keys p keys h = record {
    kept = IsKept-same p (record p { keys = keys }) h refl refl refl;
    clock = refl;
    rng = refl;
    pid = refl;
    acts = omega arith;
  }

  Held-act : (p : Player F) (a : Act) → IsKept p → Held p 1 (record p { acts = p.acts ++ (a ∷ []) })
  Held-act p a h = record {
    kept = IsKept-same p (record p { acts = p.acts ++ (a ∷ []) }) h refl refl refl;
    clock = refl;
    rng = refl;
    pid = refl;
    acts = omega (arith, length-append p.acts (a ∷ []));
  }

  Held-hold :
      (same : Bool) (bosses : String → Bool) (p : Player F) (at : Option ℤ) (keys : ℕ)
      → IsKept p
      → Succeeds (λ (x : Answered F). Held p 0 x.player) (hold same bosses p at keys)
  unfolding hold
  Held-hold true bosses p at keys h = Succeeds-some _ (Held-keys p keys h)
  Held-hold false bosses p at keys h =
      let what : Done = record { keys = some keys; act = none } in
      Succeeds-bind (rewind_to bosses p at what) _ (Held-rewind_to bosses p at what h) λ x k.
        Succeeds-some _ (
          Held-then p x.player (record x.player { keys = keys }) 0 0 k
            (Held-keys x.player keys k.kept))

  Held-take_keys :
      (bosses : String → Bool) (p : Player F) (at keys : Option ℤ)
      → IsKept p
      → Succeeds (λ (x : Answered F). Held p 0 x.player) (take_keys bosses p at keys)
  unfolding take_keys
  Held-take_keys bosses p at none h =
      Succeeds-some _
        (record { kept = h; clock = refl; rng = refl; pid = refl; acts = omega arith })
  Held-take_keys bosses p at (some k) h =
      Held-hold (low_bits k == p.keys) bosses p at (low_bits k) h

  Held-wait_unless :
      (applied : Bool) (p : Player F) (a : Act) → IsKept p → Held p 1 (wait_unless applied p a)
  Held-wait_unless true p a h = record {
    kept = h;
    clock = refl;
    rng = refl;
    pid = refl;
    acts = omega arith;
  }
  Held-wait_unless false p a h = Held-act p a h

  Held-grant :
      (bosses : String → Bool) (p : Player F) (at : Option ℤ) (w : Wish)
      → IsKept p
      → Succeeds (λ (x : Answered F). Held p 1 x.player) (grant bosses p at w)
  unfolding grant
  Held-grant bosses p at (done a) h =
      let what : Done = record { keys = none; act = some a } in
      Succeeds-bind (rewind_to bosses p at what) _ (Held-rewind_to bosses p at what h) λ x k.
        Succeeds-some _ (
          Held-then p x.player (wait_unless x.applied x.player a) 0 1 k
            (Held-wait_unless x.applied x.player a k.kept))
  Held-grant bosses p at (no_target slot) h =
      Succeeds-some _
        (record { kept = h; clock = refl; rng = refl; pid = refl; acts = omega arith })
  Held-grant bosses p at (run_away direction) h = Succeeds-some _ (record {
    kept = IsKept-same p (record p { flee = some direction }) h refl refl refl;
    clock = refl;
    rng = refl;
    pid = refl;
    acts = omega arith;
  })
  Held-grant bosses p at let_go h = Succeeds-some _ (
      Held-then p (record p { keys = 0 })
        (record p { keys = 0; acts = p.acts ++ (Act.unblock ∷ []) }) 0 1 (Held-keys p 0 h)
        (Held-act (record p { keys = 0 }) Act.unblock (Held-keys p 0 h).kept))
  Held-grant bosses p at idle h =
      Succeeds-some _
        (record { kept = h; clock = refl; rng = refl; pid = refl; acts = omega arith })

  pub Held-input :
      (around : Around F) (p : Player F) (m : Message)
      → IsKept p
      → Succeeds (λ (x : Answered F). Held p 1 x.player) (input around p m)
  unfolding input
  Held-input around p m h =
      let q = newer p m.seq in
      let k = Held-newer p m.seq h in
      let bosses = is_boss around.npcs in
      Succeeds-bind {P = λ (x : Answered F). Held q 0 x.player} (take_keys bosses q m.step m.keys) _
        (Held-take_keys bosses q m.step m.keys k.kept)
        λ a ka.
          Succeeds-bind (grant bosses a.player m.step (wish around a.player m.act)) _
            (Held-grant bosses a.player m.step (wish around a.player m.act) ka.kept)
            λ b kb.
              Succeeds-some _
                (Held-then p q b.player 0 1 k (Held-then q a.player b.player 0 1 ka kb))

  -- Whatever a client sends for a player whom the owner keeps, and for whatever step: nothing is
  -- raised, the player is again as the owner keeps it, its dot's clock and random stream are where
  -- they were, and at most one act more waits for its next step.
  pub input_safe :
      (around : Around F) (p : Player F) (m : Message)
      → IsKept p
      → (x : Answered F) × (input around p m ≡ some x)
        × IsKept x.player
        × (x.player.dot.n ≡ p.dot.n)
        × (x.player.dot.rng ≡ p.dot.rng)
        × (length x.player.acts ≤ length p.acts + 1)
  input_safe around p m h =
      let s = Held-input around p m h in
      (s.value, s.succeeds, s.holds.kept, s.holds.clock, s.holds.rng, s.holds.acts)

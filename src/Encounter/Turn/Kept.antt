-- ===== src/Encounter/Turn/Kept.antt =====
-- A step of the encounter raises nothing, keeps every player's history, and reports every blow.
use alzendor.Prelude.{
  ◌||◌, ℕ, zero, suc, ◌+◌, ◌*◌, ◌≡◌, refl, sym, subst, ap, ◌∙◌, String, Bool, true, false,
  Bool-cases, inl, inr, List, [], ◌∷◌, ◌++◌, Option, none, some, arith, length, length-append, ltb,
  Succeeds, Succeeds-some, Succeeds-bind, Succeeds-Ensures,
}
use alzendor.Real.{Real, ◌<F◌}
use alzendor.Balance.Rng
use alzendor.Balance.Dot.{Gear, Dot, Event, is_staggered, core, dist}
use alzendor.Balance.Same.{Kit}
use alzendor.Balance.Snapshot.{snapshot}
use alzendor.Balance.Strikes.Armed.{AllArmed}
use alzendor.Balance.Step.{step}
use alzendor.Balance.Step.Safe.{Stepped, Stepped-step}
use alzendor.Balance.Step.Landing.{landing-step}
use alzendor.Encounter.Data.{Npc, Incoming, Call, Entry, Player}
use alzendor.Encounter.Report.{Report, reportable}
use alzendor.Encounter.Report.Total.{each, each-append, blow_of, attacks_on, Reported-reportable}
use alzendor.Encounter.Rewind.Recorded.{Recorded, IsKept}
use alzendor.Encounter.Turn.{
  blows_of, just_lands, drop_first, remember, flees, turn_input, entry_of, turn_reporter,
  player_turn,
}

advance_last : (k s : ℕ) → Rng.advance (suc k) s ≡ (Rng.next (Rng.advance k s)).0
unfolding Rng.advance
advance_last zero s = refl
advance_last (suc k) s = advance_last k (Rng.next s).0

advance_add : (k m s : ℕ) → Rng.advance (k + m) s ≡ Rng.advance m (Rng.advance k s)
unfolding Rng.advance
advance_add zero m s = let e : 0 + m ≡ m = omega arith in rw e refl
advance_add (suc k) m s =
    let e : suc k + m ≡ suc (k + m) = omega arith in rw e (advance_add k m (Rng.next s).0)

module _ {F : Type 0} where
  Recorded-snoc :
      (slots : ℕ → Option (Gear F)) (history : List (Entry F)) (e : Entry F) (n s : ℕ)
      → e.snap.n ≡ n
      → e.snap.rng ≡ s
      → AllArmed slots e.snap.volleys
      → Recorded slots history n s
      → Recorded slots (history ++ (e ∷ [])) (suc n) (Rng.advance 4 s)
  Recorded-snoc slots [] e n s same_n same_s armed h =
      (omega arith, ap (Rng.advance 4) same_s, armed, tt)
  Recorded-snoc slots (x ∷ xs) e n s same_n same_s armed (at, drawn, armed_x, h) =
      let longer : length (x ∷ xs ++ e ∷ []) ≡ length (x ∷ xs) + 1 =
        omega (arith, length-append xs (e ∷ [])) in
      let four : 4 * length (x ∷ xs ++ e ∷ []) ≡ 4 * length (x ∷ xs) + 4 = omega (arith, longer) in
      (
        omega (arith, longer, at),
        ap (λ k. Rng.advance k x.snap.rng) four
            ∙ advance_add (4 * length (x ∷ xs)) 4 x.snap.rng
            ∙ ap (Rng.advance 4) drawn,
        armed_x,
        Recorded-snoc slots xs e n s same_n same_s armed h,
      )

  Recorded-drop_first :
      (slots : ℕ → Option (Gear F)) (es : List (Entry F)) (n s : ℕ)
      → Recorded slots es n s
      → Recorded slots (drop_first es) n s
  Recorded-drop_first slots [] n s h = tt
  Recorded-drop_first slots (e ∷ es) n s (at, drawn, armed, h) = h

  Recorded-remember :
      (slots : ℕ → Option (Gear F)) (most : ℕ) (history : List (Entry F)) (e : Entry F) (n s : ℕ)
      → Recorded slots (history ++ (e ∷ [])) n s
      → Recorded slots (remember most history e) n s
  Recorded-remember slots most history e n s h =
      elim (Bool-cases (ltb most (length (history ++ e ∷ [])))) [
        | inl full ↦ rw full (Recorded-drop_first slots (history ++ e ∷ []) n s h)
        | inr room ↦ rw room h
      ]

  length-blows_of : (mine : List (Incoming F)) → length (blows_of mine) ≡ length mine
  length-blows_of [] = refl
  length-blows_of (m ∷ mine) = ap suc (length-blows_of mine)

  just_lands_lem :
      (pid : String) (mine : List (Incoming F))
      → each blow_of (just_lands pid mine) ≡ attacks_on pid mine
  just_lands_lem pid [] = refl
  just_lands_lem pid (m ∷ mine) = ap (λ xs. (m.nid, m.n, pid) ∷ xs) (just_lands_lem pid mine)

module _ {F : Type 0} ⦃r : Real F⦄ where
  flees_lem : (p : Player F) (way : Option String) → each blow_of (flees p way) ≡ []
  flees_lem p none = refl
  flees_lem p (some direction) =
      elim (Bool-cases (is_staggered p.dot || (core p.dot <F dist p.dot))) [
        | inl stays ↦ rw stays refl
        | inr goes ↦ rw goes refl
      ]

  -- A player after its part of a step.
  pub record Turned (pid : String) (mine : List (Incoming F)) (x : Player F × List Call)
      : Type 0 where
    pub kept : IsKept x.0
    pub blows : each blow_of x.1 ≡ attacks_on pid mine

  IsKept-turn :
      (n : ℕ) (p : Player F) (mine : List (Incoming F)) (x : Dot F × List Event) (report : Report)
      (most : ℕ)
      → IsKept p
      → Stepped p.dot x
      → IsKept (record p {
        dot = x.0;
        acts = [];
        flee = none;
        sealed = report.sealed;
        history = remember most p.history (entry_of n p mine report.calls);
      })
  unfolding snapshot
  IsKept-turn n p mine x report most h s =
      let e = entry_of n p mine report.calls in
      let slots : x.0.slots ≡ p.dot.slots = ap (λ (q : Kit F). q.slots) s.kit_next in
      let later =
        Recorded-snoc p.dot.slots p.history e p.dot.n p.dot.rng refl refl h.armed h.recorded in
      record {
        armed = s.armed;
        same_slots = h.same_slots ∙ sym slots;
        recorded =
            subst (λ (q : Kit F). Recorded q.slots (remember most p.history e) q.n q.rng)
              (sym s.kit_next) (Recorded-remember p.dot.slots most p.history e _ _ later);
      }

  -- A player as the owner keeps it, with what lands on it in a step, whether its dot has joined or
  -- not: its part of the step raises nothing, the player is again as the owner keeps it, and
  -- the blows reported are of just the attacks that landed, one after another.
  pub Turned-player_turn :
      (waits : Bool) (npcs : List (Npc F)) (n : ℕ) (mine : List (Incoming F)) (p : Player F)
      → IsKept p
      → Succeeds (Turned p.pid mine) (player_turn waits npcs n mine p)
  unfolding player_turn
  Turned-player_turn true npcs n mine p h =
      Succeeds-some _ (record { kept = h; blows = just_lands_lem p.pid mine })
  Turned-player_turn false npcs n mine p h =
      let i = turn_input p mine in
      Succeeds-bind (step p.dot i) _
        (Succeeds-Ensures (Stepped-step p.dot i h.armed) (landing-step p.dot i))
        λ x (s, landed).
          Succeeds-bind (reportable (turn_reporter npcs p) p.sealed x.1 mine) _
            (Reported-reportable (turn_reporter npcs p) p.sealed x.1 mine
              (landed ∙ length-blows_of mine))
            λ report k. Succeeds-some _ (record {
              kept = IsKept-turn n p mine x report _ h s;
              blows =
                  each-append blow_of (flees p p.flee) report.calls
                  ∙ rw (flees_lem p p.flee) k.blows;
            })

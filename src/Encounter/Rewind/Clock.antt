-- ===== src/Encounter/Rewind/Clock.antt =====
-- A rewind leaves the dot's clock and random stream where they were.
use alzendor.Prelude.{
  ℕ, suc, ◌≡◌, refl, sym, subst, ap, ◌∙◌, String, Bool, true, false, not, ◌&&◌, Bool-cases, inl,
  inr, List, [], ◌∷◌, ◌++◌, Option, none, some, length, Succeeds, Succeeds-some, Succeeds-bind,
  Succeeds-Ensures,
}
use alzendor.Real.{Real}
use alzendor.Balance.Dot.{Dot, Act, Event}
use alzendor.Balance.Same.{Kit, kit}
use alzendor.Balance.Events.{landing, count}
use alzendor.Balance.Strikes.Armed.{AllArmed}
use alzendor.Balance.Snapshot.{snapshot, restore}
use alzendor.Balance.Step.{step}
use alzendor.Balance.Step.Safe.{IsArmed, Stepped-step}
use alzendor.Balance.Step.Landing.{landing-step}
use alzendor.Encounter.Data.{Entry, Player, Call}
use alzendor.Encounter.Report.{Reporter, Report, reportable}
use alzendor.Encounter.Report.Total.{Reported-reportable}
use alzendor.Encounter.Rewind.{
  Done, before, since, is_clean, Replayed, redone, input_of, report_again, replay, replaced,
  reporter, Rewound, rewind_from, rewind_when, is_act, rewind,
}
use alzendor.Encounter.Rewind.Recorded.{
  Recorded, IsKept, NoBlows, NoBlows-is_clean, kit_on, kit_on-zero, kit_on-suc, Recorded-cons,
  Recorded-since, Recorded-replace, before-since,
}

module _ {F : Type 0} ⦃r : Real F⦄ where
  record Redone (d : Dot F) (es : List (Entry F)) (x : Replayed F) : Type 0 where
    kit_then : kit x.dot ≡ kit_on (length es) (kit d)
    armed : IsArmed x.dot
    as_many : length x.entries ≡ length es
    recorded :
        Recorded d.slots x.entries (kit_on (length es) (kit d)).n (kit_on (length es) (kit d)).rng

  -- The report of a replayed step keeps the entry's snapshot.
  record SameSnap (e : Entry F) (x : Entry F × Report) : Type 0 where
    snap : x.0.snap ≡ e.snap

  SameSnap-report_again :
      (who : Reporter) (clean sealed : Bool) (events : List Event) (e : Entry F)
      → (clean ≡ true → count landing events ≡ 0)
      → Succeeds (SameSnap e) (report_again who clean sealed events e)
  unfolding report_again
  SameSnap-report_again who true sealed events e h =
      Succeeds-bind (reportable who sealed events []) _
        (Reported-reportable {F = F} who sealed events [] (h refl))
        λ report k. Succeeds-some _ (record { snap = refl })
  SameSnap-report_again who false sealed events e h = Succeeds-some _ (record { snap = refl })

  Redone-replay :
      (who : Reporter) (clean : Bool) (keys : Option ℕ) (act : Option Act) (d : Dot F)
      (sealed : Bool) (es : List (Entry F))
      → IsArmed d
      → (clean ≡ true → NoBlows es)
      → Succeeds (Redone d es) (replay who clean keys act d sealed es)
  unfolding replay
  Redone-replay who clean keys act d sealed [] armed quiet =
      Succeeds-some _
        (record { kit_then = kit_on-zero d; armed = armed; as_many = refl; recorded = tt })
  Redone-replay who clean keys act d sealed (e ∷ es) armed quiet =
      let e' = redone d keys act e in
      Succeeds-bind (step d (input_of e')) _
        (Succeeds-Ensures (Stepped-step d (input_of e') armed) (landing-step d (input_of e')))
        λ (d1, events) (stepped, landed).
          Succeeds-bind (report_again who clean sealed events e') _
            (SameSnap-report_again who clean sealed events e' (λ c. landed ∙ ap length (quiet c).0))
            λ (e2, report) same.
              Succeeds-bind (replay who clean keys none d1 report.sealed es) _
                (Redone-replay who clean keys none d1 report.sealed es stepped.armed
                  (λ c. (quiet c).1))
                λ rest k.
                  let on = ap (kit_on (length es)) stepped.kit_next ∙ kit_on-suc (length es) d in
                  Succeeds-some _ (record {
                    kit_then = k.kit_then ∙ on;
                    armed = k.armed;
                    as_many = ap suc k.as_many;
                    recorded =
                        Recorded-cons d (length es) e2 rest.entries same.snap armed k.as_many
                          (subst (λ q. Recorded q.slots rest.entries q.n q.rng) on k.recorded);
                  })

  -- A dot that a replay may put in its place: the same gear, clock and stream, with armed volleys.
  record Stands (d e : Dot F) : Type 0 where
    slots : e.slots ≡ d.slots
    n : e.n ≡ d.n
    rng : e.rng ≡ d.rng
    armed : AllArmed d.slots e.volleys

  Stands-replaced :
      (clean : Bool) (d scratch : Dot F)
      → IsArmed d
      → Stands d scratch
      → Stands d (replaced clean d scratch)
  unfolding restore snapshot
  Stands-replaced true d scratch armed h = record {
    slots = refl;
    n = h.n;
    rng = h.rng;
    armed = h.armed;
  }
  Stands-replaced false d scratch armed h = record {
    slots = refl;
    n = refl;
    rng = refl;
    armed = armed;
  }

  -- The player after a rewind: its clock and stream are where they were.
  pub record Steady (p : Player F) (x : Rewound F) : Type 0 where
    pub n : x.player.dot.n ≡ p.dot.n
    pub rng : x.player.dot.rng ≡ p.dot.rng
    pub acts : x.player.acts ≡ p.acts
    pub pid : x.player.pid ≡ p.pid
    pub kept : IsKept x.player

  Stands-Redone :
      (p : Player F) (e : Entry F) (es : List (Entry F)) (x : Replayed F)
      → IsKept p
      → Recorded p.dot.slots (e ∷ es) p.dot.n p.dot.rng
      → Redone (restore p.scratch e.snap) (e ∷ es) x
      → Stands p.dot x.dot
  unfolding restore
  Stands-Redone p e es x h (n, rng, armed, rest) k =
      let slots : x.dot.slots ≡ p.dot.slots =
        ap (λ (q : Kit F). q.slots) k.kit_then ∙ h.same_slots in
      record {
        slots = slots;
        n = ap (λ (q : Kit F). q.n) k.kit_then ∙ n;
        rng = ap (λ (q : Kit F). q.rng) k.kit_then ∙ rng;
        armed = subst (λ s. AllArmed s x.dot.volleys) slots k.armed;
      }

  -- The history with its end replayed.
  Recorded-replayed :
      (p : Player F) (kept : List (Entry F)) (e : Entry F) (es : List (Entry F)) (x : Replayed F)
      → IsKept p
      → Recorded p.dot.slots (kept ++ e ∷ es) p.dot.n p.dot.rng
      → Redone (restore p.scratch e.snap) (e ∷ es) x
      → Recorded p.dot.slots (kept ++ x.entries) p.dot.n p.dot.rng
  unfolding restore
  Recorded-replayed p kept e es x h recorded k =
      let (n, rng, armed, rest) =
        Recorded-since p.dot.slots kept (e ∷ es) p.dot.n p.dot.rng recorded in
      Recorded-replace p.dot.slots kept (e ∷ es) x.entries p.dot.n p.dot.rng k.as_many
        (rw (sym n, sym rng, sym h.same_slots) k.recorded) recorded

  Steady-put :
      (p : Player F) (d scratch : Dot F) (sealed : Bool) (history : List (Entry F))
      (late : List Call)
      → Stands p.dot d
      → scratch.slots ≡ p.dot.slots
      → Recorded p.dot.slots history p.dot.n p.dot.rng
      → Steady p (record {
        player = record p { dot = d; scratch = scratch; sealed = sealed; history = history };
        applied = true;
        late = late;
      })
  Steady-put p d scratch sealed history late s slots h = record {
    n = s.n;
    rng = s.rng;
    acts = refl;
    pid = refl;
    kept = record {
      armed = subst (λ slots. AllArmed slots d.volleys) (sym s.slots) s.armed;
      same_slots = slots ∙ sym s.slots;
      recorded = rw (s.slots, s.n, s.rng) h;
    };
  }

  Steady-rewind_from :
      (is_boss : String → Bool) (p : Player F) (done : Done) (kept : List (Entry F)) (e : Entry F)
      (es : List (Entry F))
      → IsKept p
      → Recorded p.dot.slots (kept ++ e ∷ es) p.dot.n p.dot.rng
      → Succeeds (Steady p) (rewind_from is_boss p done (is_clean (e ∷ es)) kept e es)
  unfolding rewind_from restore
  Steady-rewind_from is_boss p done kept e es h recorded =
      let clean = is_clean (e ∷ es) in
      let late = Recorded-since p.dot.slots kept (e ∷ es) p.dot.n p.dot.rng recorded in
      let scratch = restore p.scratch e.snap in
      let armed : IsArmed scratch =
        subst (λ s. AllArmed s e.snap.volleys) (sym h.same_slots) late.2 in
      Succeeds-bind (replay (reporter is_boss p) clean done.keys done.act scratch p.sealed (e ∷ es))
        _
        (Redone-replay (reporter is_boss p) clean done.keys done.act scratch p.sealed (e ∷ es) armed
          (NoBlows-is_clean (e ∷ es)))
        λ again k.
          let there = Stands-Redone p e es again h late k in
          let s = Stands-replaced clean p.dot again.dot h.armed there in
          let whole = Recorded-replayed p kept e es again h recorded k in
          Succeeds-some _ (
            Steady-put p (replaced clean p.dot again.dot) again.dot again.sealed
              (kept ++ again.entries) again.reported s there.slots whole)

  Steady-rewind_when :
      (is_boss : String → Bool) (p : Player F) (done : Done) (kept late : List (Entry F))
      → IsKept p
      → Recorded p.dot.slots (kept ++ late) p.dot.n p.dot.rng
      → Succeeds (Steady p) (rewind_when is_boss p done kept late)
  unfolding rewind_when
  Steady-rewind_when is_boss p done kept [] h recorded =
      Succeeds-some _ (record { n = refl; rng = refl; acts = refl; pid = refl; kept = h })
  Steady-rewind_when is_boss p done kept (e ∷ es) h recorded =
      elim (Bool-cases (is_act done.act && not (is_clean (e ∷ es)))) [
        | inl waits ↦
            rw waits
              (Succeeds-some _ (record { n = refl; rng = refl; acts = refl; pid = refl; kept = h }))
        | inr applies ↦ rw applies (Steady-rewind_from is_boss p done kept e es h recorded)
      ]

  pub Steady-rewind :
      (is_boss : String → Bool) (p : Player F) (at : ℕ) (done : Done)
      → IsKept p
      → Succeeds (Steady p) (rewind is_boss p at done)
  unfolding rewind
  Steady-rewind is_boss p at done h =
      let whole =
        subst (λ es. Recorded p.dot.slots es p.dot.n p.dot.rng) (sym (before-since at p.history))
          h.recorded in
      Steady-rewind_when is_boss p done (before at p.history) (since at p.history) h whole

  -- For a player as the owner keeps it, and an input for any step: the rewind raises nothing. The
  -- dot's clock and its random stream are where they were, whatever was replayed, and the player
  -- is again as the owner keeps it, so the next rewind finds it so.
  pub rewind_clock :
      (is_boss : String → Bool) (p : Player F) (at : ℕ) (done : Done)
      → IsKept p
      → (x : Rewound F) × (rewind is_boss p at done ≡ some x)
        × (x.player.dot.n ≡ p.dot.n)
        × (x.player.dot.rng ≡ p.dot.rng)
        × IsKept x.player
  rewind_clock is_boss p at done h =
      let s = Steady-rewind is_boss p at done h in
      (s.value, s.succeeds, s.holds.n, s.holds.rng, s.holds.kept)

-- ===== src/Encounter/Rewind/Unclean.antt =====
-- A rewind past something that has gone to Lua.
use alzendor.Prelude.{
  ℕ, Bool-cases, inl, inr, arith, ◌≡◌, refl, sym, subst, String, Bool, true, false, not, ◌&&◌, List,
  [], ◌∷◌, Option, none, some, Ensures, Ensures-some, Ensures-bind, Ensures-then,
}
use alzendor.Prelude.Int.{ℤ}
use alzendor.Real.{Real}
use alzendor.Balance.Dot.{Debuff, Pending, Dot, Act}
use alzendor.Balance.Same.{Kept, kept}
use alzendor.Balance.Snapshot.{restore}
use alzendor.Balance.Step.{step}
use alzendor.Encounter.Data.{Entry, Player}
use alzendor.Encounter.Report.{Reporter}
use alzendor.Encounter.Rewind.{
  Done, since, before, is_act, is_clean, Replayed, redone, input_of, report_again, replay, reporter,
  Rewound, rewind_from, rewind_when, rewind,
}

-- All of the dot but what REWOUND names, which is where it is, how it moves, and its stagger with the
-- immunity after it: `kept` has what it fights with, its clock and its stream.
pub record Unmoved (F : Type 0) : Type 0 where
  pub kept : Kept F
  pub well_a : F
  pub well_r : F
  pub well_target : F
  pub spin : ℤ
  pub debuffs : String → Option (Debuff F)
  pub pending : Option Pending
  pub draws : F × F × F × F
  pub breath : ℤ
  pub steadied : Bool
  pub knocked : Bool
  pub inside : Bool

abbrev pub unmoved : {F : Type 0} → Dot F → Unmoved F
unmoved d = record {
  kept = kept d;
  well_a = d.well_a;
  well_r = d.well_r;
  well_target = d.well_target;
  spin = d.spin;
  debuffs = d.debuffs;
  pending = d.pending;
  draws = d.draws;
  breath = d.breath;
  steadied = d.steadied;
  knocked = d.knocked;
  inside = d.inside;
}

module _ {F : Type 0} ⦃r : Real F⦄ where
  -- Nothing is reported late, and no slot is sealed.
  record Silent (sealed : Bool) (x : Replayed F) : Type 0 where
    reported : x.reported ≡ []
    same_seal : x.sealed ≡ sealed

  Silent-replay :
      (who : Reporter) (keys : Option ℕ) (act : Option Act) (d : Dot F) (sealed : Bool)
      (es : List (Entry F))
      → Ensures (Silent sealed) (replay who false keys act d sealed es)
  unfolding replay report_again
  Silent-replay who keys act d sealed [] =
      Ensures-some _ (record { reported = refl; same_seal = refl })
  Silent-replay who keys act d sealed (e ∷ es) =
      let i = input_of (redone d keys act e) in
      Ensures-then (step d i) _ λ (d1, events).
        Ensures-bind (replay who false keys none d1 sealed es) _
          (Silent-replay who keys none d1 sealed es)
          λ rest k. Ensures-some _ (record { reported = k.reported; same_seal = k.same_seal })

  record Harmless (p : Player F) (done : Done) (x : Rewound F) : Type 0 where
    same : unmoved x.player.dot ≡ unmoved p.dot
    same_seal : x.player.sealed ≡ p.sealed
    none_late : x.late ≡ []
    no_act : is_act done.act ≡ true → (x.applied ≡ false) × (x.player ≡ p)

  Harmless-rewind_from :
      (is_boss : String → Bool) (p : Player F) (done : Done) (earlier : List (Entry F))
      (e : Entry F) (es : List (Entry F))
      → is_act done.act ≡ false
      → Ensures (Harmless p done) (rewind_from is_boss p done false earlier e es)
  unfolding rewind_from
  Harmless-rewind_from is_boss p done earlier e es steers =
      let scratch = restore p.scratch e.snap in
      let who = reporter is_boss p in
      Ensures-bind (replay who false done.keys done.act scratch p.sealed (e ∷ es)) _
        (Silent-replay who done.keys done.act scratch p.sealed (e ∷ es))
        λ again k. Ensures-some _ (record {
          same = refl;
          same_seal = k.same_seal;
          none_late = k.reported;
          no_act = λ a. absurd (ground arith);
        })

  Harmless-rewind_when :
      (is_boss : String → Bool) (p : Player F) (done : Done) (earlier late : List (Entry F))
      → is_clean late ≡ false
      → Ensures (Harmless p done) (rewind_when is_boss p done earlier late)
  unfolding rewind_when
  Harmless-rewind_when is_boss p done earlier [] h = absurd (ground arith)
  Harmless-rewind_when is_boss p done earlier (e ∷ es) h = elim (Bool-cases (is_act done.act)) [
    | inl asked ↦
        let waits : (is_act done.act && not (is_clean (e ∷ es))) ≡ true = ground arith in
        rw waits (
          Ensures-some _ (record {
            same = refl;
            same_seal = refl;
            none_late = refl;
            no_act = λ a. (refl, refl);
          }))
    | inr steers ↦
        let goes : (is_act done.act && not (is_clean (e ∷ es))) ≡ false = ground arith in
        rw goes (
          subst (λ clean. Ensures (Harmless p done) (rewind_from is_boss p done clean earlier e es))
            (sym h) (Harmless-rewind_from is_boss p done earlier e es steers))
  ]

  -- A rewind over steps of which one had a blow land or something reported, where it raises
  -- nothing: of the dot it changes at most its place and speed, its stagger with where that throws
  -- it and the immunity after it, and the clock of its wobble (REWOUND). All the rest of the dot is
  -- as it was: its cooldowns, volleys, buffered strike, guard, dodge, debuffs, well, draws, clock
  -- and stream among it. Nothing is reported late and no slot is sealed. An act is not applied, and
  -- leaves the whole player as it was.
  pub rewind_unclean :
      (is_boss : String → Bool) (p : Player F) (at : ℕ) (done : Done) (x : Rewound F)
      → is_clean (since at p.history) ≡ false
      → rewind is_boss p at done ≡ some x
      → (unmoved x.player.dot ≡ unmoved p.dot)
        × (x.player.sealed ≡ p.sealed)
        × (x.late ≡ [])
        × (is_act done.act ≡ true → (x.applied ≡ false) × (x.player ≡ p))
  unfolding rewind
  rewind_unclean is_boss p at done x unclean ran =
      let h =
        (Harmless-rewind_when is_boss p done (before at p.history) (since at p.history) unclean).at
          x ran in
      (h.same, h.same_seal, h.none_late, h.no_act)

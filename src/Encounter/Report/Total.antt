-- ===== src/Encounter/Report/Total.antt =====
-- Reporting a step's events with the attacks that landed in it.
use mathlib.Core.List.{append_assoc}
use alzendor.Prelude.{
  ℕ, String, sym, ap, ◌∙◌, ◌+◌, ◌≡◌, refl, Bool, true, false, ◌&&◌, Bool-cases, inl, inr, List, [],
  ◌∷◌, ◌++◌, arith, length, if◌then◌else◌, Succeeds, Succeeds-some, Succeeds-bind,
}
use alzendor.Balance.Dot.{Event, Result}
use alzendor.Balance.Events.{landing, count}
use alzendor.Encounter.Data.{Incoming, Call, Denied, Passive}
use alzendor.Encounter.Report.{
  Reporter, Report, is_perfect_block, blow_calls, seals, with_calls, reportable,
}

-- Calls for the seal, among a step's calls.
abbrev pub is_seal : Call → Bool
is_seal (Call.passive pid Passive.seal) = true
is_seal _ = false

abbrev pub calls_of : (Call → Bool) → List Call → ℕ
calls_of test [] = 0
calls_of test (c ∷ cs) = (if test c then 1 else 0) + calls_of test cs

pub calls_of-append :
    (test : Call → Bool) (xs ys : List Call)
    → calls_of test (xs ++ ys) ≡ calls_of test xs + calls_of test ys
calls_of-append test [] ys = omega arith
calls_of-append test (c ∷ xs) ys = omega (arith, calls_of-append test xs ys)

-- What is read of each call, one after another.
abbrev pub each : {A : Type 0} → (Call → List A) → List Call → List A
each f [] = []
each f (c ∷ cs) = f c ++ each f cs

pub each-append :
    {A : Type 0} (f : Call → List A) (xs ys : List Call)
    → each f (xs ++ ys) ≡ each f xs ++ each f ys
each-append f [] ys = refl
each-append f (c ∷ xs) ys =
    ap (λ zs. f c ++ zs) (each-append f xs ys) ∙ sym (append_assoc (f c) (each f xs) (each f ys))

-- The attack that a blow is of: its NPC, its number there, and the player that it is on.
abbrev pub Aimed : Type 0
Aimed = String × ℕ × String

abbrev pub blow_of : Call → List Aimed
blow_of (Call.blow nid n pid how) = (nid, n, pid) ∷ []
blow_of _ = []

-- And what came of it.
abbrev pub how_of : Call → List Result
how_of (Call.blow nid n pid how) = how ∷ []
how_of _ = []

-- The results of blows among a step's events.
abbrev pub result_of : Event → List Result
result_of (Event.blow result staggers) = result ∷ []
result_of _ = []

abbrev pub results : List Event → List Result
results [] = []
results (e ∷ es) = result_of e ++ results es

-- Attacks that land on a player.
abbrev pub attacks_on : {F : Type 0} → String → List (Incoming F) → List Aimed
attacks_on pid [] = []
attacks_on pid (m ∷ ms) = (m.nid, m.n, pid) ∷ attacks_on pid ms

-- How many seals the player has still to come.
abbrev pub seals_left : Reporter → Bool → ℕ
seals_left who sealed = if seals who sealed then 1 else 0

-- The blows reported are of these attacks and with these results, one after another, and a seal
-- comes at most once: what is reported and what is left make up what there was.
pub record Reported (who : Reporter) (sealed : Bool) (attacks : List Aimed) (hows : List Result)
    (report : Report) : Type 0 where
  pub blows : each blow_of report.calls ≡ attacks
  pub with_results : each how_of report.calls ≡ hows
  pub one_seal :
      calls_of is_seal report.calls + seals_left who report.sealed ≡ seals_left who sealed

Reported-with_calls :
    (who : Reporter) (sealed : Bool) (attacks : List Aimed) (hows : List Result) (calls : List Call)
    (rest : Report)
    → calls_of is_seal calls ≡ 0
    → Reported who sealed attacks hows rest
    → Reported who sealed
        (each blow_of calls ++ attacks)
        (each how_of calls ++ hows)
        (with_calls calls rest)
Reported-with_calls who sealed attacks hows calls rest none_seals h = record {
  blows = each-append blow_of calls rest.calls ∙ ap (λ xs. each blow_of calls ++ xs) h.blows;
  with_results =
      each-append how_of calls rest.calls ∙ ap (λ xs. each how_of calls ++ xs) h.with_results;
  one_seal = omega (arith, calls_of-append is_seal calls rest.calls, h.one_seal, none_seals);
}

Reported-blow :
    {F : Type 0} (who : Reporter) (sealed : Bool) (m : Incoming F) (result : Result)
    (attacks : List Aimed) (hows : List Result) (rest : Report)
    → Reported who sealed attacks hows rest
    → Reported who sealed
        ((m.nid, m.n, who.pid) ∷ attacks)
        (result ∷ hows)
        (with_calls (blow_calls who m result) rest)
Reported-blow who sealed m result attacks hows rest h =
    elim (Bool-cases (is_perfect_block result && who.is_boss m.nid)) [
      | inl both ↦
          let calls = Call.blow m.nid m.n who.pid result ∷ Call.poise m.nid ∷ [] in
          rw both (Reported-with_calls who sealed attacks hows calls rest refl h)
      | inr not_both ↦
          let calls = Call.blow m.nid m.n who.pid result ∷ [] in
          rw not_both (Reported-with_calls who sealed attacks hows calls rest refl h)
    ]

-- A stagger, that may seal the slot.
Reported-stagger :
    (who : Reporter) (sealed : Bool) (attacks : List Aimed) (hows : List Result) (rest : Report)
    → Reported who (if seals who sealed then true else sealed) attacks hows rest
    → Reported who sealed attacks hows
        (with_calls (if seals who sealed then Call.passive who.pid Passive.seal ∷ [] else []) rest)
Reported-stagger who sealed attacks hows rest h = elim (Bool-cases (seals who sealed)) [
  | inl now ↦ rw now (record {
    blows = h.blows;
    with_results = h.with_results;
    one_seal = ground (arith, h.one_seal, now);
  })
  | inr never ↦ rw never (record {
    blows = h.blows;
    with_results = h.with_results;
    one_seal = ground (arith, h.one_seal, never);
  })
]

module _ {F : Type 0} where
  -- Where the results of blows in a step are as many as the attacks that landed, they are all
  -- reported, each with its attack and in their order, and no IndexError is raised; the slot is
  -- sealed at most once.
  pub Reported-reportable :
      (who : Reporter) (sealed : Bool) (es : List Event) (mine : List (Incoming F))
      → count landing es ≡ length mine
      → Succeeds
          (Reported who sealed (attacks_on who.pid mine) (results es))
          (reportable who sealed es mine)
  unfolding reportable
  Reported-reportable who sealed [] [] h =
      Succeeds-some _ (record { blows = refl; with_results = refl; one_seal = omega arith })
  Reported-reportable who sealed [] (m ∷ mine) h = absurd (omega (arith, h))
  Reported-reportable who sealed (Event.strike slot target tier hit hits ∷ es) mine h =
      Succeeds-bind (reportable who sealed es mine) _
        (Reported-reportable who sealed es mine (omega (arith, h)))
        λ rest k. Succeeds-some _ (
          Reported-with_calls who sealed _ _ (Call.strike who.pid slot target tier hit hits ∷ [])
            rest refl k)
  Reported-reportable who sealed (Event.blow result staggers ∷ es) [] h = absurd (omega (arith, h))
  Reported-reportable who sealed (Event.blow result staggers ∷ es) (m ∷ mine) h =
      Succeeds-bind (reportable who sealed es mine) _
        (Reported-reportable who sealed es mine (omega (arith, h)))
        λ rest k. Succeeds-some _ (Reported-blow who sealed m result _ _ rest k)
  Reported-reportable who sealed (Event.refused what why ∷ es) mine h =
      Succeeds-bind (reportable who sealed es mine) _
        (Reported-reportable who sealed es mine (omega (arith, h)))
        λ rest k. Succeeds-some _ (
          Reported-with_calls who sealed _ _ (Call.refused who.pid (Denied.of_dot what why) ∷ [])
            rest refl k)
  Reported-reportable who sealed (Event.second_wind ∷ es) mine h =
      Succeeds-bind (reportable who sealed es mine) _
        (Reported-reportable who sealed es mine (omega (arith, h)))
        λ rest k. Succeeds-some _ (
          Reported-with_calls who sealed _ _ (Call.passive who.pid Passive.second_wind ∷ []) rest
            refl k)
  Reported-reportable who sealed (Event.rim_stagger ∷ es) mine h =
      Succeeds-bind (reportable who (if seals who sealed then true else sealed) es mine) _
        (Reported-reportable who (if seals who sealed then true else sealed) es mine
          (omega (arith, h)))
        λ rest k. Succeeds-some _ (Reported-stagger who sealed _ _ rest k)
  Reported-reportable who sealed (Event.blow_stagger ∷ es) mine h =
      Succeeds-bind (reportable who (if seals who sealed then true else sealed) es mine) _
        (Reported-reportable who (if seals who sealed then true else sealed) es mine
          (omega (arith, h)))
        λ rest k. Succeeds-some _ (Reported-stagger who sealed _ _ rest k)
  Reported-reportable who sealed (Event.dodge ∷ es) mine h =
      Reported-reportable who sealed es mine (omega (arith, h))
  Reported-reportable who sealed (Event.recover ∷ es) mine h =
      Reported-reportable who sealed es mine (omega (arith, h))
  Reported-reportable who sealed (Event.steadied ∷ es) mine h =
      Reported-reportable who sealed es mine (omega (arith, h))

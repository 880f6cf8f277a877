-- ===== src/Session/Rate/Bounds.antt =====
-- What the limits of session.py let through.
use alzendor.Prelude.{
  ℕ, ◌+◌, ◌-◌, ◌*◌, ◌≤◌, ◌≡◌, refl, subst, sym, ap, ◌∙◌, Bool, true, false, not, ◌||◌, List, [],
  ◌∷◌, ◌++◌, length, ltb, leb, Bool-cases, inl, inr, arith, if◌then◌else◌,
}
use alzendor.Session.Data.{Session}
use alzendor.Session.Rate.{take_allowance, passes, recent, take_input, passed}

-- The times do not go back, and end by the last.
abbrev pub Until : ℕ → ℕ → List ℕ → Type 0
Until from last [] = from ≤ last
Until from last (t ∷ ts) = (from ≤ t) × Until t last ts

pub Until-le : (from last : ℕ) (ts : List ℕ) → Until from last ts → from ≤ last
Until-le from last [] h = h
Until-le from last (t ∷ ts) h = omega (arith, h.0, Until-le t last ts h.1)

-- One message: what is left and what passed come to no more than there was and what came in since.
pub take_allowance_lem :
    (s : Session) (now : ℕ)
    → s.last_command ≤ now
    → let (s', ok) = take_allowance s now in
      (s'.last_command ≡ now)
      × (s'.allowance ≤ 10000)
      × (s'.allowance + (if ok then 1000 else 0) ≤ s.allowance + 4 * (now - s.last_command))
unfolding take_allowance
take_allowance_lem s now h = (ground arith, ground arith, ground arith)

-- Of the messages at any times up to a last one, no more pass than the allowance at the start and
-- four a second since the last message have room for.
pub passes_bounded :
    (s : Session) (last : ℕ) (times : List ℕ)
    → Until s.last_command last times
    → 1000 * passes s times ≤ s.allowance + 4 * (last - s.last_command)
unfolding passes
passes_bounded s last [] h = omega arith
passes_bounded s last (now ∷ times) h =
    let (s', ok) = take_allowance s now in
    let (at_now, full, kept) = take_allowance_lem s now h.0 in
    let until : Until s'.last_command last times =
      subst (λ t. Until t last times) (sym at_now) h.1 in
    let rest : 1000 * passes s' times ≤ s'.allowance + 4 * (last - s'.last_command) =
      passes_bounded s' last times until in
    let later : now ≤ last = Until-le now last times h.1 in
    elim (Bool-cases ok) [
      | inl e ↦
          let kept' : s'.allowance + 1000 ≤ s.allowance + 4 * (now - s.last_command) =
            (rw e at kept) in
          rw e (omega (arith, rest, kept', later, at_now, h.0))
      | inr e ↦
          let kept' : s'.allowance + 0 ≤ s.allowance + 4 * (now - s.last_command) =
            (rw e at kept) in
          rw e (omega (arith, rest, kept', later, at_now, h.0))
    ]

-- The times in a list that are in the second up to a time.
abbrev pub within : ℕ → List ℕ → ℕ
within now ts = length (recent now ts)

recent-recent :
    (now later : ℕ) (ts : List ℕ) → now ≤ later → recent later (recent now ts) ≡ recent later ts
recent-recent now later [] h = refl
recent-recent now later (t ∷ ts) h = elim (Bool-cases (ltb (now - t) 1000)) [
  | inl e ↦ rw e (rw (recent-recent now later ts h) refl)
  | inr e ↦
      let old : ltb (later - t) 1000 ≡ false = ground arith in
      rw e (rw old (recent-recent now later ts h))
]

recent-append :
    (now : ℕ) (as' bs : List ℕ) → recent now (as' ++ bs) ≡ recent now as' ++ recent now bs
recent-append now [] bs = refl
recent-append now (t ∷ ts) bs = elim (Bool-cases (ltb (now - t) 1000)) [
  | inl e ↦ rw e (rw (recent-append now ts bs) refl)
  | inr e ↦ rw e (recent-append now ts bs)
]

-- Every input that passes finds at most 29 of those before it in the second before it. The list
-- holds the ones before.
abbrev pub IsSpaced : List ℕ → List ℕ → Type 0
IsSpaced before [] = Unit
IsSpaced before (t ∷ ts) = (within t before ≤ 29) × IsSpaced (before ++ (t ∷ [])) ts

recent_now : (now : ℕ) → recent now (now ∷ []) ≡ now ∷ []
recent_now now = let fresh : ltb (now - now) 1000 ≡ true = ground arith in rw fresh refl

IsSpaced-from :
    (fights : ℕ → Bool) (from last : ℕ) (before inputs times : List ℕ)
    → inputs ≡ recent from before
    → Until from last times
    → IsSpaced before (passed fights inputs times)
unfolding passed take_input
IsSpaced-from fights from last before inputs [] e h = tt
IsSpaced-from fights from last before inputs (now ∷ times) e h =
    let kept : recent now inputs ≡ recent now before =
      ap (recent now) e ∙ recent-recent from now before h.0 in
    elim (Bool-cases (leb 30 (length (recent now inputs)) || not (fights now))) [
      | inl full ↦ rw full (IsSpaced-from fights now last before (recent now inputs) times kept h.1)
      | inr room ↦
          let fresh : recent now inputs ++ (now ∷ []) ≡ recent now (before ++ (now ∷ [])) =
            ap (λ x. x ++ (now ∷ [])) kept
            ∙ sym (
                recent-append now before (now ∷ [])
                ∙ ap (λ x. recent now before ++ x) (recent_now now)) in
          rw room (
            ground (arith, room, ap length kept),
            IsSpaced-from fights now last (before ++ (now ∷ [])) (recent now inputs ++ (now ∷ []))
                times fresh h.1,
          )
    ]

-- However fast inputs come, in fights and out of them, as long as the clock does not go back, each
-- that passes finds at most 29 of those that passed before it within the second up to it: no more
-- than 30 pass in any second.
pub inputs-IsSpaced :
    (fights : ℕ → Bool) (last : ℕ) (times : List ℕ)
    → Until 0 last times
    → IsSpaced [] (passed fights [] times)
inputs-IsSpaced fights last times h = IsSpaced-from fights 0 last [] [] times refl h

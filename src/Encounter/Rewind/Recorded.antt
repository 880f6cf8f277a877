-- ===== src/Encounter/Rewind/Recorded.antt =====
-- A player's history, as steps that lead to its dot.
use alzendor.Prelude.{
  ℕ, suc, ◌+◌, ◌*◌, ◌≡◌, refl, sym, subst, ap, true, Bool-cases, inl, inr, List, [], ◌∷◌, ◌++◌,
  Option, arith, length, length-append, ltb,
}
use alzendor.Balance.Rng
use alzendor.Balance.Dot.{Gear, Dot}
use alzendor.Balance.Same.{Kit, kit}
use alzendor.Balance.Strikes.Armed.{AllArmed}
use alzendor.Balance.Snapshot.{snapshot}
use alzendor.Balance.Step.Safe.{IsArmed, next_kit}
use alzendor.Encounter.Data.{Entry, Player}
use alzendor.Encounter.Rewind.{before, since, is_empty, is_clean}

-- Each entry's snapshot is as many steps back, with four draws each, as there are entries from it
-- on; and its volleys are armed.
abbrev pub Recorded : {F : Type 0} → (ℕ → Option (Gear F)) → List (Entry F) → ℕ → ℕ → Type 0
Recorded slots [] n s = Unit
Recorded slots (e ∷ es) n s =
    (e.snap.n + length (e ∷ es) ≡ n)
    × (Rng.advance (4 * length (e ∷ es)) e.snap.rng ≡ s)
    × AllArmed slots e.snap.volleys
    × Recorded slots es n s

-- A player as the owner keeps it: its volleys are armed, its history leads to its dot, and its
-- scratch dot has the same gear.
pub record IsKept {F : Type 0} (p : Player F) : Type 0 where
  pub armed : IsArmed p.dot
  pub same_slots : p.scratch.slots ≡ p.dot.slots
  pub recorded : Recorded p.dot.slots p.history p.dot.n p.dot.rng

advance-four : (k s : ℕ) → Rng.advance (4 * suc k) s ≡ Rng.advance (4 * k) (Rng.advance 4 s)
unfolding Rng.advance
advance-four k s = let e : 4 * suc k ≡ suc (suc (suc (suc (4 * k)))) = omega arith in rw e refl

-- Entries for the same number of steps, of which the clean ones have no blows.
abbrev pub NoBlows : {F : Type 0} → List (Entry F) → Type 0
NoBlows [] = Unit
NoBlows (e ∷ es) = (e.blows ≡ []) × NoBlows es

is_empty_lem : {A : Type 0} (xs : List A) → is_empty xs ≡ true → xs ≡ []
is_empty_lem [] h = refl
is_empty_lem (x ∷ xs) h = absurd (ground arith)

pub NoBlows-is_clean : {F : Type 0} (es : List (Entry F)) → is_clean es ≡ true → NoBlows es
NoBlows-is_clean [] h = tt
NoBlows-is_clean (e ∷ es) h =
    (is_empty_lem e.blows (ground arith), NoBlows-is_clean es (ground arith))

-- The kit k steps on.
abbrev pub kit_on : {F : Type 0} → ℕ → Kit F → Kit F
kit_on k q = record q { n = q.n + k; rng = Rng.advance (4 * k) q.rng }

pub Recorded-since :
    {F : Type 0} (slots : ℕ → Option (Gear F)) (xs ys : List (Entry F)) (n s : ℕ)
    → Recorded slots (xs ++ ys) n s
    → Recorded slots ys n s
Recorded-since slots [] ys n s h = h
Recorded-since slots (x ∷ xs) ys n s (at, drawn, armed, h) = Recorded-since slots xs ys n s h

-- The end of a history may be put anew.
pub Recorded-replace :
    {F : Type 0} (slots : ℕ → Option (Gear F)) (xs ys zs : List (Entry F)) (n s : ℕ)
    → length zs ≡ length ys
    → Recorded slots zs n s
    → Recorded slots (xs ++ ys) n s
    → Recorded slots (xs ++ zs) n s
Recorded-replace slots [] ys zs n s as_many new h = new
Recorded-replace slots (x ∷ xs) ys zs n s as_many new (at, drawn, armed, h) =
    let same : length (x ∷ xs ++ zs) ≡ length (x ∷ xs ++ ys) =
      omega (arith, length-append xs zs, length-append xs ys, as_many) in
    (rw same at, rw same drawn, armed, Recorded-replace slots xs ys zs n s as_many new h)

pub before-since : {F : Type 0} (at : ℕ) (es : List (Entry F)) → before at es ++ since at es ≡ es
before-since at [] = refl
before-since {F} at (e ∷ es) = elim (Bool-cases (ltb e.at at)) [
  | inl earlier ↦ rw earlier (ap (λ (xs : List (Entry F)). e ∷ xs) (before-since at es))
  | inr later ↦ rw later refl
]

module _ {F : Type 0} where
  pub kit_on-zero : (d : Dot F) → kit d ≡ kit_on 0 (kit d)
  unfolding Rng.advance
  kit_on-zero d = let e : d.n + 0 ≡ d.n = omega arith in rw e refl

  pub kit_on-suc : (k : ℕ) (d : Dot F) → kit_on k (next_kit d) ≡ kit_on (suc k) (kit d)
  kit_on-suc k d =
      let n : suc d.n + k ≡ d.n + suc k = omega arith in rw (n, advance-four k d.rng) refl

  -- A new entry before those of the steps after it.
  pub Recorded-cons :
      (d : Dot F) (k : ℕ) (e : Entry F) (es : List (Entry F))
      → e.snap ≡ snapshot d
      → IsArmed d
      → length es ≡ k
      → Recorded d.slots es (kit_on (suc k) (kit d)).n (kit_on (suc k) (kit d)).rng
      → Recorded d.slots (e ∷ es) (kit_on (suc k) (kit d)).n (kit_on (suc k) (kit d)).rng
  unfolding snapshot
  Recorded-cons d k e es same armed as_many h =
      let m : length (e ∷ es) ≡ suc k = ap suc as_many in
      (
        rw (same, m) refl,
        rw (same, m) refl,
        subst (λ s. AllArmed d.slots s.volleys) (sym same) armed,
        h,
      )

-- ===== src/World/Quest/Way.antt =====
-- The steps of a quest of world.py that follow from its start, and how many are left to reach.
use text.Mathlib.TextPositions.{eq_refl}
use alzendor.Prelude.{
  ℕ, suc, ◌+◌, ◌≤◌, ◌≡◌, refl, subst, String, Bool, true, false, Option, none, some, List, [], ◌∷◌,
  length, str_eq, eq_iff, Bool-cases, inl, inr, arith, if◌then◌else◌,
}
use alzendor.Text.{is_one_of}
use alzendor.World.Quest.{Step, next_of}

abbrev pub is_step : Option (Option String) → Bool
is_step none = false
is_step (some next) = true

-- The steps that follow from the start, one after another.
pub data IsOnWay (steps : List Step) (start : String) : String → Type 0 where
  first : is_step (next_of steps start) ≡ true → IsOnWay steps start start
  after :
      (x next : String)
      → IsOnWay steps start x
      → next_of steps x ≡ some (some next)
      → is_step (next_of steps next) ≡ true
      → IsOnWay steps start next

-- One of them is the last.
pub data HasEnd (steps : List Step) (start : String) : Type 0 where
  last : (x : String) → IsOnWay steps start x → next_of steps x ≡ some none → HasEnd steps start

-- How many steps are left to reach.
abbrev pub left : List String → List Step → ℕ
left reached [] = 0
left reached (s ∷ ss) = (if is_one_of s.id reached then 0 else 1) + left reached ss

left_less :
    (name : String) (reached : List String) (ss : List Step)
    → left (name ∷ reached) ss ≤ left reached ss
left_less name reached [] = omega arith
left_less name reached (s ∷ ss) = ground (arith, left_less name reached ss)

pub left_start : (ss : List Step) → left [] ss ≤ length ss
left_start [] = omega arith
left_start (s ∷ ss) = omega (arith, left_start ss)

pub left_visit :
    (name : String) (reached : List String) (ss : List Step)
    → is_one_of name reached ≡ false
    → is_step (next_of ss name) ≡ true
    → suc (left (name ∷ reached) ss) ≤ left reached ss
left_visit name reached [] h k = cc
left_visit name reached (s ∷ ss) h k = elim (Bool-cases (str_eq name s.id)) [
  | inl f ↦
      let same : name ≡ s.id = (eq_iff name s.id).0 f in
      let out : is_one_of s.id reached ≡ false = subst (λ x. is_one_of x reached ≡ false) same h in
      let in_now : is_one_of s.id (name ∷ reached) ≡ true = (rw same (rw (eq_refl s.id) refl)) in
      rw (in_now, out) (omega (arith, left_less name reached ss))
  | inr f ↦
      let rest : suc (left (name ∷ reached) ss) ≤ left reached ss =
        left_visit name reached ss h (rw f at k) in
      ground (arith, rest, f)
]

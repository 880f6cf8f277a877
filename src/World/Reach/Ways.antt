-- ===== src/World/Reach/Ways.antt =====
-- What it is for a room to be reached in a graph of world.py, and the lists and sets of `_reach`.
use text.Mathlib.TextPositions.{eq_refl}
use alzendor.Prelude.{
  ◌+◌, ◌≤◌, ◌≡◌, refl, ap, subst, String, Bool, true, false, ◌||◌, none, some, List, [], ◌∷◌, ◌++◌,
  length, str_eq, eq_iff, Bool-cases, inl, inr, arith, if◌then◌else◌,
}
use alzendor.Text.{is_one_of}
use alzendor.World.Reach.{Graph, dests, is_known, known, unseen, weight}

-- Whether one step leads from a room to another.
abbrev pub leads : Graph → String → String → Bool
leads g r d = elim (dests g r) [ none ↦ false | some ds ↦ is_one_of d ds ]

-- A step from the first room of a graph, or from one of the others.
pub leads-cons :
    (key : String) (ds : List String) (g : Graph) (r d : String)
    → leads ((key, ds) ∷ g) r d ≡ (if str_eq r key then is_one_of d ds else leads g r d)
leads-cons key ds g r d = elim (Bool-cases (str_eq r key)) [
  | inl f ↦ rw (leads, f) refl
  | inr f ↦ rw (leads, f) refl
]

-- Every step leads to a room of the graph.
pub record IsClosed (g : Graph) : Type 0 where
  pub closed : (r d : String) → leads g r d ≡ true → is_known (dests g d) ≡ true

-- A room to which there is a way from one of the starts that are in the graph.
pub data IsReached (g : Graph) (starts : List String) : String → Type 0 where
  begins :
      (r : String) → is_one_of r starts ≡ true → is_known (dests g r) ≡ true → IsReached g starts r
  goes : (r d : String) → IsReached g starts r → leads g r d ≡ true → IsReached g starts d

pub is_one_of-append :
    (r : String) (as' bs : List String)
    → is_one_of r (as' ++ bs) ≡ (is_one_of r as' || is_one_of r bs)
is_one_of-append r [] bs = refl
is_one_of-append r (a ∷ as') bs = ground (arith, is_one_of-append r as' bs)

pub unseen_or :
    (r : String) (seen ds : List String)
    → (is_one_of r seen || is_one_of r (unseen seen ds)) ≡ (is_one_of r seen || is_one_of r ds)
unseen_or r seen [] = refl
unseen_or r seen (d ∷ ds) = elim (Bool-cases (is_one_of d seen)) [
  | inl e ↦ rw e (elim (Bool-cases (str_eq r d)) [
    | inl f ↦
        let same : r ≡ d = (eq_iff r d).0 f in
        let in_seen : is_one_of r seen ≡ true = rw same e in rw in_seen refl
    | inr f ↦ rw f (unseen_or r seen ds)
  ])
  | inr e ↦ rw e (ground (arith, unseen_or r seen ds))
]

pub unseen_sub :
    (r : String) (seen ds : List String)
    → is_one_of r (unseen seen ds) ≡ true
    → is_one_of r ds ≡ true
unseen_sub r seen [] h = h
unseen_sub r seen (d ∷ ds) h = ground (arith, unseen_sub r seen ds)

pub length-unseen : (seen ds : List String) → length (unseen seen ds) ≤ length ds
length-unseen seen [] = omega arith
length-unseen seen (d ∷ ds) = ground (arith, length-unseen seen ds)

weight_less : (t : String) (seen : List String) (g : Graph) → weight (t ∷ seen) g ≤ weight seen g
weight_less t seen [] = omega arith
weight_less t seen ((key, ds) ∷ g) = ground (arith, weight_less t seen g)

pub weight_visit :
    (t : String) (seen ds : List String) (g : Graph)
    → is_one_of t seen ≡ false
    → dests g t ≡ some ds
    → weight (t ∷ seen) g + length ds ≤ weight seen g
weight_visit t seen ds [] h e = cc
weight_visit t seen ds ((key, es) ∷ g) h e = elim (Bool-cases (str_eq t key)) [
  | inl f ↦
      let same : t ≡ key = (eq_iff t key).0 f in
      let is_es : es ≡ ds = (let at : some es ≡ some ds = (rw f at e) in cc) in
      let out : is_one_of key seen ≡ false = subst (λ k. is_one_of k seen ≡ false) same h in
      let in_now : is_one_of key (t ∷ seen) ≡ true = (rw same (rw (eq_refl key) refl)) in
      rw (in_now, out) (omega (arith, weight_less t seen g, ap length is_es))
  | inr f ↦
      let later : dests g t ≡ some ds = (rw f at e) in
      let rest : weight (t ∷ seen) g + length ds ≤ weight seen g =
        weight_visit t seen ds g h later in
      ground (arith, rest, f)
]

pub known-keys :
    (g : Graph) (starts : List String) (r : String)
    → is_one_of r (known g starts) ≡ true
    → (is_one_of r starts ≡ true) × (is_known (dests g r) ≡ true)
known-keys g [] r h = cc
known-keys g (s ∷ ss) r h = elim (Bool-cases (is_known (dests g s))) [
  | inl k ↦
      let here : (str_eq r s || is_one_of r (known g ss)) ≡ true = (rw k at h) in
      elim (Bool-cases (str_eq r s)) [
        | inl f ↦ let same : r ≡ s = (eq_iff r s).0 f in rw f (refl, rw same k)
        | inr f ↦ rw f (known-keys g ss r (rw f at here))
      ]
  | inr k ↦ let later = known-keys g ss r (rw k at h) in ground (arith, later)
]

pub known-has :
    (g : Graph) (starts : List String) (r : String)
    → is_one_of r starts ≡ true
    → is_known (dests g r) ≡ true
    → is_one_of r (known g starts) ≡ true
known-has g [] r h k = h
known-has g (s ∷ ss) r h k = elim (Bool-cases (str_eq r s)) [
  | inl f ↦
      let same : r ≡ s = (eq_iff r s).0 f in
      let there : is_known (dests g s) ≡ true = subst (λ x. is_known (dests g x) ≡ true) same k in
      rw there (rw f refl)
  | inr f ↦
      let later : is_one_of r (known g ss) ≡ true = known-has g ss r (rw f at h) k in
      elim (Bool-cases (is_known (dests g s))) [
        | inl m ↦ rw m (rw later (ground arith))
        | inr m ↦ rw m later
      ]
]

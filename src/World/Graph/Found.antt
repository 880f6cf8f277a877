-- ===== src/World/Graph/Found.antt =====
-- When the lists of problems of `_graph_problems` in world.py are empty.
use text.Mathlib.TextPositions.{eq_refl}
use alzendor.Prelude.{
  false, ◌≡◌, refl, ap, ◌∙◌, String, true, not, ◌&&◌, ◌||◌, List, [], ◌∷◌, ◌++◌, str_eq, eq_iff,
  Bool-cases, inl, inr, arith,
}
use alzendor.Text.{is_one_of}
use alzendor.World.Reach.{Graph, dests, is_known}
use alzendor.World.Graph.{Room, insert, sorted, Problem, marked, keys, cut_offs, traps}

is_one_of-insert :
    (x name : String) (ns : List String)
    → is_one_of x (insert name ns) ≡ (str_eq x name || is_one_of x ns)
is_one_of-insert x name [] = refl
is_one_of-insert x name (n ∷ ns) = ground (arith, is_one_of-insert x name ns)

pub is_one_of-sorted : (x : String) (ns : List String) → is_one_of x (sorted ns) ≡ is_one_of x ns
is_one_of-sorted x [] = refl
is_one_of-sorted x (n ∷ ns) =
    is_one_of-insert x n (sorted ns) ∙ ap (λ b. str_eq x n || b) (is_one_of-sorted x ns)

pub is_one_of-keys : (g : Graph) (x : String) → is_one_of x (keys g) ≡ is_known (dests g x)
is_one_of-keys [] x = refl
is_one_of-keys ((key, ds) ∷ g) x = elim (Bool-cases (str_eq x key)) [
  | inl f ↦ rw f refl
  | inr f ↦ rw f (is_one_of-keys g x)
]

pub append-left : {A : Type 0} (as' bs : List A) → as' ++ bs ≡ [] → as' ≡ []
append-left [] bs h = refl
append-left (a ∷ as') bs h = cc

pub append-right : {A : Type 0} (as' bs : List A) → as' ++ bs ≡ [] → bs ≡ []
append-right [] bs h = h
append-right (a ∷ as') bs h = cc

pub no_cut_off :
    (rooms : List Room) (reached rids : List String)
    → cut_offs rooms reached rids ≡ []
    → (x : String) → is_one_of x rids ≡ true
    → (is_one_of x reached || marked rooms x) ≡ true
no_cut_off rooms reached [] h x m = cc
no_cut_off rooms reached (rid ∷ rids) h x m =
    elim (Bool-cases (not (is_one_of rid reached) && not (marked rooms rid))) [
      | inl e ↦ let bad : Problem.cut_off rid ∷ cut_offs rooms reached rids ≡ [] = (rw e at h) in cc
      | inr e ↦
          let rest : cut_offs rooms reached rids ≡ [] = (rw e at h) in
          elim (Bool-cases (str_eq x rid)) [
            | inl f ↦ let same : x ≡ rid = (eq_iff x rid).0 f in rw same (ground arith)
            | inr f ↦ no_cut_off rooms reached rids rest x (rw f at m)
          ]
    ]

pub no_trap :
    (start : String) (home rids : List String)
    → traps start home rids ≡ []
    → (x : String) → is_one_of x rids ≡ true
    → is_one_of x home ≡ true
no_trap start home [] h x m = cc
no_trap start home (rid ∷ rids) h x m = elim (Bool-cases (is_one_of rid home)) [
  | inl e ↦
      let rest : traps start home rids ≡ [] = (rw e at h) in
      elim (Bool-cases (str_eq x rid)) [
        | inl f ↦ let same : x ≡ rid = (eq_iff x rid).0 f in rw same e
        | inr f ↦ no_trap start home rids rest x (rw f at m)
      ]
  | inr e ↦ let bad : Problem.trap rid start ∷ traps start home rids ≡ [] = (rw e at h) in cc
]

pub cut_offs_empty :
    (rooms : List Room) (reached rids : List String)
    → ((x : String) → is_one_of x rids ≡ true → (is_one_of x reached || marked rooms x) ≡ true)
    → cut_offs rooms reached rids ≡ []
cut_offs_empty rooms reached [] h = refl
cut_offs_empty rooms reached (rid ∷ rids) h =
    let here = h rid (rw (eq_refl rid) refl) in
    let fine : (not (is_one_of rid reached) && not (marked rooms rid)) ≡ false = ground arith in
    rw fine (cut_offs_empty rooms reached rids (λ x m. h x (rw m (ground arith))))

pub traps_empty :
    (start : String) (home rids : List String)
    → ((x : String) → is_one_of x rids ≡ true → is_one_of x home ≡ true)
    → traps start home rids ≡ []
traps_empty start home [] h = refl
traps_empty start home (rid ∷ rids) h =
    let here : is_one_of rid home ≡ true = h rid (rw (eq_refl rid) refl) in
    rw here (traps_empty start home rids (λ x m. h x (rw m (ground arith))))

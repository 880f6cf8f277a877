-- ===== src/Encounter/Turn/Here.antt =====
-- The attacks that land on the players of an encounter, by player, and who an attack is aimed at.
use mathlib.Core.List.{append-nil}
use alzendor.Prelude.{
  sym, ap, ◌∙◌, ℕ, ◌≡◌, refl, subst, String, Bool, true, false, Bool-cases, inl, inr, List, [], ◌∷◌,
  ◌++◌, Option, none, some, arith, if◌then◌else◌, str_eq, eq_iff,
}
use alzendor.Encounter.Data.{Incoming, Player}
use alzendor.Encounter.Clock.{aimed}
use alzendor.Encounter.Report.Total.{Aimed, attacks_on}
use alzendor.Encounter.Turn.{joined_before, first_of, first_player, has_player, party, on_player}

same_text : (s t : String) → str_eq s t ≡ true → s ≡ t
same_text s t h = (eq_iff s t).0 h

-- Players are keyed by their pid: no two have one.
abbrev pub Distinct : {F : Type 0} → List (Player F) → Type 0
Distinct [] = Unit
Distinct (p ∷ ps) = (has_player ps p.pid ≡ false) × Distinct ps

-- What lands is on someone here.
abbrev pub AllHere : {F : Type 0} → List (Player F) → List (Incoming F) → Type 0
AllHere ps [] = Unit
AllHere ps (m ∷ ms) = (has_player ps m.target ≡ true) × AllHere ps ms

-- The blows on one player among some, in their order.
abbrev pub blows_on : String → List Aimed → List (String × ℕ)
blows_on pid [] = []
blows_on pid ((nid, n, who) ∷ as') =
    let rest = blows_on pid as' in if str_eq who pid then (nid, n) ∷ rest else rest

blows_on-append :
    (pid : String) (xs ys : List Aimed)
    → blows_on pid (xs ++ ys) ≡ blows_on pid xs ++ blows_on pid ys
blows_on-append pid [] ys = refl
blows_on-append pid ((nid, n, who) ∷ xs) ys = elim (Bool-cases (str_eq who pid)) [
  | inl e ↦ rw e (ap (λ zs. (nid, n) ∷ zs) (blows_on-append pid xs ys))
  | inr e ↦ rw e (blows_on-append pid xs ys)
]

module _ {F : Type 0} where
  -- What is reported of what lands on all the players.
  abbrev pub all_on : List (Player F) → List (Incoming F) → List Aimed
  all_on [] landed = []
  all_on (p ∷ ps) landed = attacks_on p.pid (on_player p.pid landed) ++ all_on ps landed

  -- The attacks that land on one player, in their order: each NPC and its attack's number.
  abbrev pub landed_on : String → List (Incoming F) → List (String × ℕ)
  landed_on pid [] = []
  landed_on pid (m ∷ ms) =
      let rest = landed_on pid ms in if str_eq pid m.target then (m.nid, m.n) ∷ rest else rest

  -- Those on a player are all of them, or none.
  blows_on-own :
      (who pid : String) (landed : List (Incoming F))
      → str_eq who pid ≡ true
      → blows_on pid (attacks_on who (on_player who landed)) ≡ landed_on who landed
  blows_on-own who pid [] e = refl
  blows_on-own who pid (m ∷ ms) e = elim (Bool-cases (str_eq who m.target)) [
    | inl this ↦ rw this (rw e (ap (λ xs. (m.nid, m.n) ∷ xs) (blows_on-own who pid ms e)))
    | inr other ↦ rw other (blows_on-own who pid ms e)
  ]

  blows_on-other :
      (who pid : String) (mine : List (Incoming F))
      → str_eq who pid ≡ false
      → blows_on pid (attacks_on who mine) ≡ []
  blows_on-other who pid [] e = refl
  blows_on-other who pid (m ∷ ms) e = rw e (blows_on-other who pid ms e)

  blows_on-absent :
      (pid : String) (ps : List (Player F)) (landed : List (Incoming F))
      → has_player ps pid ≡ false
      → blows_on pid (all_on ps landed) ≡ []
  blows_on-absent pid [] landed h = refl
  blows_on-absent pid (p ∷ ps) landed h =
      let other : str_eq p.pid pid ≡ false = ground arith in
      let rest = blows_on-absent pid ps landed (ground arith) in
      blows_on-append pid (attacks_on p.pid (on_player p.pid landed)) (all_on ps landed)
      ∙ rw (blows_on-other p.pid pid (on_player p.pid landed) other) rest

  blows_on-present :
      (pid : String) (ps : List (Player F)) (landed : List (Incoming F))
      → Distinct ps
      → has_player ps pid ≡ true
      → blows_on pid (all_on ps landed) ≡ landed_on pid landed
  blows_on-present pid [] landed d h = absurd (ground arith)
  blows_on-present pid (p ∷ ps) landed d h =
      blows_on-append pid (attacks_on p.pid (on_player p.pid landed)) (all_on ps landed)
      ∙ elim (Bool-cases (str_eq p.pid pid)) [
        | inl this ↦
            let same : p.pid ≡ pid = same_text p.pid pid this in
            let gone : has_player ps pid ≡ false = subst (λ s. has_player ps s ≡ false) same d.0 in
            rw (blows_on-own p.pid pid landed this) (
              rw (blows_on-absent pid ps landed gone)
                (append-nil (landed_on p.pid landed) ∙ ap (λ s. landed_on s landed) same))
        | inr other ↦
            rw (blows_on-other p.pid pid (on_player p.pid landed) other)
              (blows_on-present pid ps landed d.1 (ground arith))
      ]

  landed_on-absent :
      (pid : String) (ps : List (Player F)) (landed : List (Incoming F))
      → AllHere ps landed
      → has_player ps pid ≡ false
      → landed_on pid landed ≡ []
  landed_on-absent pid ps [] h gone = refl
  landed_on-absent pid ps (m ∷ ms) h gone = elim (Bool-cases (str_eq pid m.target)) [
    | inl this ↦
        let here : has_player ps pid ≡ true =
          subst (λ s. has_player ps s ≡ true) (sym (same_text pid m.target this)) h.0 in
        cc
    | inr other ↦ rw other (landed_on-absent pid ps ms h.1 gone)
  ]

  -- For every text, a player's pid or not.
  pub blows_on-all :
      (pid : String) (ps : List (Player F)) (landed : List (Incoming F))
      → Distinct ps
      → AllHere ps landed
      → blows_on pid (all_on ps landed) ≡ landed_on pid landed
  blows_on-all pid ps landed d h = elim (Bool-cases (has_player ps pid)) [
    | inl here ↦ blows_on-present pid ps landed d here
    | inr gone ↦ blows_on-absent pid ps landed gone ∙ sym (landed_on-absent pid ps landed h gone)
  ]

  pub AllHere-append :
      (ps : List (Player F)) (xs ys : List (Incoming F))
      → AllHere ps xs
      → AllHere ps ys
      → AllHere ps (xs ++ ys)
  AllHere-append ps [] ys h k = k
  AllHere-append ps (x ∷ xs) ys h k = (h.0, AllHere-append ps xs ys h.1 k)

  here_of_either :
      (b : Bool) (p q : Player F) (qs : List (Player F)) (x : String)
      → has_player ((if b then q else p) ∷ qs) x ≡ true
      → has_player (p ∷ q ∷ qs) x ≡ true
  here_of_either true p q qs x h = ground arith
  here_of_either false p q qs x h = ground arith

  -- The first to have joined is among those here.
  has_player-first_of :
      (p : Player F) (ps : List (Player F)) → has_player (p ∷ ps) (first_of p ps).pid ≡ true
  has_player-first_of p [] =
      let this : str_eq p.pid p.pid ≡ true = (eq_iff p.pid p.pid).1 refl in ground arith
  has_player-first_of p (q ∷ qs) =
      here_of_either (joined_before q p) p q qs (first_of p (q ∷ qs)).pid
        (has_player-first_of (if joined_before q p then q else p) qs)

  pub has_player-first_player :
      (ps : List (Player F)) (pid : String) → first_player ps ≡ some pid → has_player ps pid ≡ true
  has_player-first_player [] pid h = absurd (ground arith)
  has_player-first_player (p ∷ ps) pid h =
      let this : (first_of p ps).pid ≡ pid = cc in
      subst (λ s. has_player (p ∷ ps) s ≡ true) this (has_player-first_of p ps)

  -- Who an attack is aimed at is here.
  pub has_player-aimed :
      (ps : List (Player F)) (t : Option String) (pid : String)
      → aimed (party ps) t ≡ some pid
      → has_player ps pid ≡ true
  has_player-aimed ps none pid h = has_player-first_player ps pid h
  has_player-aimed ps (some t) pid h = elim (Bool-cases (has_player ps t)) [
    | inl here ↦ let this : t ≡ pid = ground arith in subst (λ s. has_player ps s ≡ true) this here
    | inr gone ↦ has_player-first_player ps pid (ground arith)
  ]

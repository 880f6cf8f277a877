-- ===== src/World/Reach/Passes.antt =====
-- What a pass of the loop of `_reach` in world.py keeps.
use text.Mathlib.TextPositions.{eq_refl}
use alzendor.Prelude.{
  ℕ, suc, ◌+◌, ◌≤◌, ◌≡◌, refl, sym, subst, String, true, false, ◌||◌, Option, none, some, List, ◌∷◌,
  ◌++◌, ◌∙◌, length, length-append, str_eq, eq_iff, Bool-cases, inl, inr, arith, Succeeds,
  Succeeds-some, Succeeds-bind,
}
use alzendor.Text.{is_one_of}
use alzendor.World.Reach.{Graph, dests, is_known, unseen, visit_room, weight}
use alzendor.World.Reach.Ways.{
  leads, IsClosed, IsReached, is_one_of-append, unseen_or, unseen_sub, length-unseen, weight_visit,
}

-- What holds between two passes of the loop.
pub record IsBetween (g : Graph) (starts seen todo : List String) : Type 0 where
  pub keys : (r : String) → is_one_of r todo ≡ true → is_known (dests g r) ≡ true
  pub half :
      (r d : String)
      → is_one_of r seen ≡ true
      → leads g r d ≡ true
      → (is_one_of d seen || is_one_of d todo) ≡ true
  pub sound : (r : String) → (is_one_of r seen || is_one_of r todo) ≡ true → IsReached g starts r

-- What a pass comes to: nothing is lost, and the fuel it takes is at hand.
pub record Passes (g : Graph) (starts : List String) (n : ℕ) (seen todo : List String)
    (r : List String × List String) : Type 0 where
  pub between : IsBetween g starts r.0 r.1
  pub kept :
      (x : String)
      → (is_one_of x seen || is_one_of x todo) ≡ true
      → (is_one_of x r.0 || is_one_of x r.1) ≡ true
  pub fuel : length r.1 + weight r.0 g ≤ n

leads_in :
    (g : Graph) (r d : String) (ds : List String)
    → dests g r ≡ some ds
    → leads g r d ≡ is_one_of d ds
leads_in g r d ds e = rw (leads, e) refl

opened_or :
    (x t : String) (seen ds todo : List String)
    → (is_one_of x (t ∷ seen) || is_one_of x (unseen (t ∷ seen) ds ++ todo))
      ≡ (is_one_of x (t ∷ seen) || (is_one_of x ds || is_one_of x todo))
opened_or x t seen ds todo =
    ground (arith, is_one_of-append x (unseen (t ∷ seen) ds) todo, unseen_or x (t ∷ seen) ds)

skip_or :
    (x t : String) (seen todo : List String)
    → is_one_of t seen ≡ true
    → (is_one_of x seen || (str_eq x t || is_one_of x todo)) ≡ true
    → (is_one_of x seen || is_one_of x todo) ≡ true
skip_or x t seen todo old h = elim (Bool-cases (str_eq x t)) [
  | inl f ↦ let same : x ≡ t = (eq_iff x t).0 f in rw same (rw old refl)
  | inr f ↦ ground arith
]

known-Succeeds : (o : Option (List String)) → is_known o ≡ true → Succeeds (λ ds. o ≡ some ds) o
known-Succeeds none h = cc
known-Succeeds (some ds) h = Succeeds-some ds refl

module _ (g : Graph) (starts : List String) (c : IsClosed g) where
  opens-keys :
      (t : String) (seen ds todo : List String)
      → IsBetween g starts seen (t ∷ todo)
      → dests g t ≡ some ds
      → (r : String) → is_one_of r (unseen (t ∷ seen) ds ++ todo) ≡ true
      → is_known (dests g r) ≡ true
  opens-keys t seen ds todo b e r h = elim (Bool-cases (is_one_of r todo)) [
    | inl old ↦ b.keys r (ground arith)
    | inr young ↦
        let now : is_one_of r (unseen (t ∷ seen) ds) ≡ true =
          ground (arith, is_one_of-append r (unseen (t ∷ seen) ds) todo) in
        c.closed t r (leads_in g t r ds e ∙ unseen_sub r (t ∷ seen) ds now)
  ]

  opens-half :
      (t : String) (seen ds todo : List String)
      → IsBetween g starts seen (t ∷ todo)
      → dests g t ≡ some ds
      → (r d : String) → is_one_of r (t ∷ seen) ≡ true
      → leads g r d ≡ true
      → (is_one_of d (t ∷ seen) || is_one_of d (unseen (t ∷ seen) ds ++ todo)) ≡ true
  opens-half t seen ds todo b e r d h l = elim (Bool-cases (str_eq r t)) [
    | inl f ↦
        let same : r ≡ t = (eq_iff r t).0 f in
        let to_d : is_one_of d ds ≡ true =
          sym (leads_in g t d ds e) ∙ subst (λ x. leads g x d ≡ true) same l in
        opened_or d t seen ds todo ∙ rw to_d (ground arith)
    | inr f ↦
        let old : (is_one_of d seen || (str_eq d t || is_one_of d todo)) ≡ true =
          b.half r d (rw f at h) l in
        opened_or d t seen ds todo ∙ ground arith
  ]

  opens-sound :
      (t : String) (seen ds todo : List String)
      → IsBetween g starts seen (t ∷ todo)
      → dests g t ≡ some ds
      → (x : String) → (is_one_of x (t ∷ seen) || is_one_of x (unseen (t ∷ seen) ds ++ todo)) ≡ true
      → IsReached g starts x
  opens-sound t seen ds todo b e x h =
      let in_one : (is_one_of x (t ∷ seen) || (is_one_of x ds || is_one_of x todo)) ≡ true =
        sym (opened_or x t seen ds todo) ∙ h in
      elim (Bool-cases (is_one_of x ds)) [
        | inl to_x ↦
            IsReached.goes t x (b.sound t (rw (eq_refl t) (ground arith)))
              (leads_in g t x ds e ∙ to_x)
        | inr off ↦ b.sound x (ground arith)
      ]

  opens-Passes :
      (n : ℕ) (t : String) (seen ds todo : List String)
      → IsBetween g starts seen (t ∷ todo)
      → length (t ∷ todo) + weight seen g ≤ suc n
      → is_one_of t seen ≡ false
      → dests g t ≡ some ds
      → Passes g starts n seen (t ∷ todo) (t ∷ seen, unseen (t ∷ seen) ds ++ todo)
  opens-Passes n t seen ds todo b f new e = record {
    between = record {
      keys = opens-keys t seen ds todo b e;
      half = opens-half t seen ds todo b e;
      sound = opens-sound t seen ds todo b e;
    };
    kept = λ x h. opened_or x t seen ds todo ∙ ground arith;
    fuel = omega (
      arith,
      f,
      weight_visit t seen ds g new e,
      length-unseen (t ∷ seen) ds,
      length-append (unseen (t ∷ seen) ds) todo,
    );
  }

  skips-Passes :
      (n : ℕ) (t : String) (seen todo : List String)
      → IsBetween g starts seen (t ∷ todo)
      → length (t ∷ todo) + weight seen g ≤ suc n
      → is_one_of t seen ≡ true
      → Passes g starts n seen (t ∷ todo) (seen, todo)
  skips-Passes n t seen todo b f old = record {
    between = record {
      keys = λ r h. b.keys r (ground arith);
      half = λ r d h l. skip_or d t seen todo old (b.half r d h l);
      sound = λ x h. b.sound x (ground arith);
    };
    kept = λ x h. skip_or x t seen todo old h;
    fuel = omega (arith, f);
  }

  pub visit_room-Passes :
      (n : ℕ) (t : String) (seen todo : List String)
      → IsBetween g starts seen (t ∷ todo)
      → length (t ∷ todo) + weight seen g ≤ suc n
      → Succeeds (Passes g starts n seen (t ∷ todo)) (visit_room g seen t todo)
  unfolding visit_room
  visit_room-Passes n t seen todo b f = elim (Bool-cases (is_one_of t seen)) [
    | inl old ↦ rw old (Succeeds-some (seen, todo) (skips-Passes n t seen todo b f old))
    | inr new ↦ rw new (
        Succeeds-bind (dests g t) (λ ds. some (t ∷ seen, unseen (t ∷ seen) ds ++ todo))
          (known-Succeeds (dests g t) (b.keys t (rw (eq_refl t) refl)))
          (λ ds e.
            Succeeds-some (t ∷ seen, unseen (t ∷ seen) ds ++ todo)
              (opens-Passes n t seen ds todo b f new e)))
  ]

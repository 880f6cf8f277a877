-- ===== src/World/Quest/Passes.antt =====
-- What a pass of the walk over a quest's steps of world.py keeps.
use text.Mathlib.TextPositions.{eq_refl}
use alzendor.Prelude.{
  ℕ, suc, ◌+◌, ◌≤◌, ◌≡◌, ◌⊎◌, refl, sym, ap, subst, ◌∙◌, String, true, false, ◌||◌, Option, none,
  some, List, ◌∷◌, length, str_eq, eq_iff, Bool-cases, inl, inr, arith,
}
use alzendor.Text.{is_one_of}
use alzendor.World.Quest.{Step, next_of, Walk, take_step, walk_step}
use alzendor.World.Quest.Way.{is_step, IsOnWay, HasEnd, left, left_visit}

-- What holds between two passes of the loop.
pub record IsBetween (steps : List Step) (start : String) (w : Walk) (todo : List String)
    : Type 0 where
  pub ways : (x : String) → is_one_of x w.reached ≡ true → IsOnWay steps start x
  pub waits :
      (x : String)
      → is_one_of x todo ≡ true
      → is_step (next_of steps x) ≡ true
      → IsOnWay steps start x
  pub half :
      (x next : String)
      → is_one_of x w.reached ≡ true
      → next_of steps x ≡ some (some next)
      → is_step (next_of steps next) ≡ true
      → (is_one_of next w.reached || is_one_of next todo) ≡ true
  pub started :
      is_step (next_of steps start) ≡ true
      → (is_one_of start w.reached || is_one_of start todo) ≡ true
  pub ended : w.ends ≡ true → HasEnd steps start
  pub ending :
      (x : String) → is_one_of x w.reached ≡ true → next_of steps x ≡ some none → w.ends ≡ true

pub record Passes (steps : List Step) (start : String) (n : ℕ) (r : Walk × List String)
    : Type 0 where
  pub between : IsBetween steps start r.0 r.1
  pub fuel : length r.1 + left r.0.reached steps ≤ n

module _ (steps : List Step) (start : String) where
  skip_or :
      (x name : String) (w : Walk) (todo : List String)
      → ((is_one_of name w.reached ≡ true) ⊎ (is_step (next_of steps name) ≡ false))
      → is_step (next_of steps x) ≡ true
      → (is_one_of x w.reached || is_one_of x (name ∷ todo)) ≡ true
      → (is_one_of x w.reached || is_one_of x todo) ≡ true
  skip_or x name w todo old k h = elim (Bool-cases (str_eq x name)) [
    | inl f ↦
        let same : x ≡ name = (eq_iff x name).0 f in
        elim old [
          | inl o ↦
              let here : is_one_of x w.reached ≡ true =
                subst (λ y. is_one_of y w.reached ≡ true) (sym same) o in
              rw here refl
          | inr o ↦
              let no_step : is_step (next_of steps x) ≡ false =
                subst (λ y. is_step (next_of steps y) ≡ false) (sym same) o in
              cc
        ]
    | inr f ↦ ground arith
  ]

  -- A name that is passed over.
  skips-Passes :
      (n : ℕ) (w : Walk) (name : String) (todo : List String)
      → IsBetween steps start w (name ∷ todo)
      → length (name ∷ todo) + left w.reached steps ≤ suc n
      → ((is_one_of name w.reached ≡ true) ⊎ (is_step (next_of steps name) ≡ false))
      → Passes steps start n (w, todo)
  skips-Passes n w name todo b f old = record {
    between = record {
      ways = b.ways;
      waits = λ x m k. b.waits x (rw m (ground arith)) k;
      half = λ x next m e k. skip_or next name w todo old k (b.half x next m e k);
      started = λ k. skip_or start name w todo old k (b.started k);
      ended = b.ended;
      ending = b.ending;
    };
    fuel = omega (arith, f);
  }

  -- The name's own step is on the way.
  here :
      (w : Walk) (name : String) (todo : List String)
      → IsBetween steps start w (name ∷ todo)
      → is_step (next_of steps name) ≡ true
      → IsOnWay steps start name
  here w name todo b k = b.waits name (rw (eq_refl name) refl) k

  -- Those reached before, and the name.
  reached_now :
      (w : Walk) (name : String) (todo : List String) (x : String)
      → IsBetween steps start w (name ∷ todo)
      → is_step (next_of steps name) ≡ true
      → is_one_of x (name ∷ w.reached) ≡ true
      → IsOnWay steps start x
  reached_now w name todo x b k m = elim (Bool-cases (str_eq x name)) [
    | inl f ↦ subst (λ y. IsOnWay steps start y) (sym ((eq_iff x name).0 f)) (here w name todo b k)
    | inr f ↦ b.ways x (rw f at m)
  ]

  last-Passes :
      (n : ℕ) (w : Walk) (name : String) (todo : List String)
      → IsBetween steps start w (name ∷ todo)
      → length (name ∷ todo) + left w.reached steps ≤ suc n
      → is_one_of name w.reached ≡ false
      → next_of steps name ≡ some none
      → Passes steps start n (take_step w name todo (some none))
  last-Passes n w name todo b f new e =
      let known : is_step (next_of steps name) ≡ true = ap is_step e in
      record {
        between = record {
          ways = λ x m. reached_now w name todo x b known m;
          waits = λ x m k. b.waits x (rw m (ground arith)) k;
          half = λ x next m e' k. elim (Bool-cases (str_eq x name)) [
            | inl g ↦
                let no_end : next_of steps x ≡ some none =
                  subst (λ y. next_of steps y ≡ some none) (sym ((eq_iff x name).0 g)) e in
                cc
            | inr g ↦ let old = b.half x next (rw g at m) e' k in ground arith
          ];
          started = λ k. let old = b.started k in ground arith;
          ended = λ t. HasEnd.last name (here w name todo b known) e;
          ending = λ x m e'. refl;
        };
        fuel = omega (arith, f, left_visit name w.reached steps new known);
      }

  next-Passes :
      (n : ℕ) (w : Walk) (name next : String) (todo : List String)
      → IsBetween steps start w (name ∷ todo)
      → length (name ∷ todo) + left w.reached steps ≤ suc n
      → is_one_of name w.reached ≡ false
      → next_of steps name ≡ some (some next)
      → Passes steps start n (take_step w name todo (some (some next)))
  next-Passes n w name next todo b f new e =
      let known : is_step (next_of steps name) ≡ true = ap is_step e in
      record {
        between = record {
          ways = λ x m. reached_now w name todo x b known m;
          waits = λ x m k. elim (Bool-cases (str_eq x next)) [
            | inl g ↦
                let same : next ≡ x = sym ((eq_iff x next).0 g) in
                subst (λ y. is_step (next_of steps y) ≡ true → IsOnWay steps start y) same
                  (λ k'. IsOnWay.after name next (here w name todo b known) e k') k
            | inr g ↦
                let old : is_one_of x todo ≡ true = (rw g at m) in
                b.waits x (rw old (ground arith)) k
          ];
          half = λ x y m e' k. elim (Bool-cases (str_eq x name)) [
            | inl g ↦
                let its_next : next_of steps x ≡ some (some next) =
                  subst (λ z. next_of steps z ≡ some (some next)) (sym ((eq_iff x name).0 g)) e in
                let same : y ≡ next =
                  (let both : some (some y) ≡ some (some next) = sym e' ∙ its_next in cc) in
                rw same (rw (eq_refl next) (ground arith))
            | inr g ↦ let old = b.half x y (rw g at m) e' k in ground arith
          ];
          started = λ k. let old = b.started k in ground arith;
          ended = b.ended;
          ending = λ x m e'. elim (Bool-cases (str_eq x name)) [
            | inl g ↦
                let no_end : next_of steps x ≡ some (some next) =
                  subst (λ y. next_of steps y ≡ some (some next)) (sym ((eq_iff x name).0 g)) e in
                cc
            | inr g ↦ b.ending x (rw g at m) e'
          ];
        };
        fuel = omega (arith, f, left_visit name w.reached steps new known);
      }

  take-Passes :
      (n : ℕ) (w : Walk) (name : String) (todo : List String) (o : Option (Option String))
      → IsBetween steps start w (name ∷ todo)
      → length (name ∷ todo) + left w.reached steps ≤ suc n
      → is_one_of name w.reached ≡ false
      → next_of steps name ≡ o
      → Passes steps start n (take_step w name todo o)
  take-Passes n w name todo none b f new e = skips-Passes n w name todo b f (inr (ap is_step e))
  take-Passes n w name todo (some none) b f new e = last-Passes n w name todo b f new e
  take-Passes n w name todo (some (some next)) b f new e = next-Passes n w name next todo b f new e

  pub walk_step-Passes :
      (n : ℕ) (w : Walk) (name : String) (todo : List String)
      → IsBetween steps start w (name ∷ todo)
      → length (name ∷ todo) + left w.reached steps ≤ suc n
      → Passes steps start n (walk_step steps w name todo)
  unfolding walk_step
  walk_step-Passes n w name todo b f = elim (Bool-cases (is_one_of name w.reached)) [
    | inl old ↦ rw old (skips-Passes n w name todo b f (inl old))
    | inr new ↦ rw new (take-Passes n w name todo (next_of steps name) b f new refl)
  ]

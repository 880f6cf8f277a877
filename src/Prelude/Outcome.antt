-- ===== src/Prelude/Outcome.antt =====
-- What holds of the result of a fallible step, if it comes to one, with a rule for each way to
-- build such a step.
use mathlib.Core.Path.{◌≡◌, refl, subst}
use mathlib.Core.Option.{Option, none, some}
use alzendor.Prelude.Tests.{◌>>=◌}

pub record Ensures {ℓ κ} {A : Type ℓ} (P : A → Type κ) (m : Option A) : Type (ℓ ⊔ κ) where
  pub at : (a : A) → m ≡ some a → P a

module _ {ℓ κ} {A : Type ℓ} {P : A → Type κ} where
  pub Ensures-some : (a : A) → P a → Ensures P (some a)
  Ensures-some a p = record { at = λ b e. let same : a ≡ b = cc in subst P same p }

  pub Ensures-none : Ensures P none
  Ensures-none = record { at = λ b e. cc }

pub Ensures-bind {ℓ κ ι} :
    {A : Type ℓ} {B : Type ℓ} {P : A → Type κ} {Q : B → Type ι} (m : Option A) (f : A → Option B)
    → Ensures P m
    → ((a : A) → P a → Ensures Q (f a))
    → Ensures Q (m >>= f)
Ensures-bind none f p q = Ensures-none
Ensures-bind (some a) f p q = q a (p.at a refl)

-- Whatever the first step comes to.
pub Ensures-then {ℓ ι} :
    {A : Type ℓ} {B : Type ℓ} {Q : B → Type ι} (m : Option A) (f : A → Option B)
    → ((a : A) → Ensures Q (f a))
    → Ensures Q (m >>= f)
Ensures-then none f q = Ensures-none
Ensures-then (some a) f q = q a

-- The step comes to a result, of which P holds.
pub record Succeeds {ℓ κ} {A : Type ℓ} (P : A → Type κ) (m : Option A) : Type (ℓ ⊔ κ) where
  pub value : A
  pub succeeds : m ≡ some value
  pub holds : P value

pub Succeeds-some {ℓ κ} : {A : Type ℓ} {P : A → Type κ} (a : A) → P a → Succeeds P (some a)
Succeeds-some a p = record { value = a; succeeds = refl; holds = p }

pub Succeeds-bind {ℓ κ ι} :
    {A : Type ℓ} {B : Type ℓ} {P : A → Type κ} {Q : B → Type ι} (m : Option A) (f : A → Option B)
    → Succeeds P m
    → ((a : A) → P a → Succeeds Q (f a))
    → Succeeds Q (m >>= f)
Succeeds-bind m f s q = rw s.succeeds (q s.value s.holds)

-- Two things that hold of one result.
pub Succeeds-Ensures {ℓ κ ι} :
    {A : Type ℓ} {P : A → Type κ} {Q : A → Type ι} {m : Option A}
    → Succeeds P m
    → Ensures Q m
    → Succeeds (λ a. P a × Q a) m
Succeeds-Ensures s e = record {
  value = s.value;
  succeeds = s.succeeds;
  holds = (s.holds, e.at s.value s.succeeds);
}

-- There is one result only.
pub Succeeds-at {ℓ κ} :
    {A : Type ℓ} {P : A → Type κ} {m : Option A} {a : A} → Succeeds P m → m ≡ some a → P a
Succeeds-at {A} {P} {m} {a} s e =
    let same : some s.value ≡ some a = cc (s.succeeds, e) in
    let value : s.value ≡ a = cc in subst P value s.holds

pub Ensures-both {ℓ κ ι} :
    {A : Type ℓ} {P : A → Type κ} {Q : A → Type ι} {m : Option A}
    → Ensures P m
    → Ensures Q m
    → Ensures (λ a. P a × Q a) m
Ensures-both p q = record { at = λ a e. (p.at a e, q.at a e) }

-- ===== src/Balance/Events.antt =====
-- Reading a step's events: the first hits of strikes with one slot.
use alzendor.Prelude.{
  ℕ, ◌+◌, ◌≡◌, Bool, true, false, not, ◌&&◌, List, [], ◌∷◌, ◌++◌, arith, ◌==◌, if◌then◌else◌,
}
use alzendor.Balance.Dot.{Event}

abbrev pub is_first : ℕ → Event → Bool
is_first slot (Event.strike k target tier hit hits) = k == slot && hit == 1
is_first slot _ = false

abbrev pub first_strikes : ℕ → List Event → ℕ
first_strikes slot [] = 0
first_strikes slot (e ∷ es) = (if is_first slot e then 1 else 0) + first_strikes slot es

pub first_strikes-append :
    (slot : ℕ) (xs ys : List Event)
    → first_strikes slot (xs ++ ys) ≡ first_strikes slot xs + first_strikes slot ys
first_strikes-append slot [] ys = omega arith
first_strikes-append slot (e ∷ xs) ys = omega (arith, first_strikes-append slot xs ys)

-- What neither a strike, a refusal nor a dodge is: a stagger, or a blow's result.
pub data Rare : Type 0 where
  stagger landing : Rare

abbrev pub is_stagger : Rare → Bool
is_stagger stagger = true
is_stagger landing = false

abbrev pub is_rare : Rare → Event → Bool
is_rare c (Event.strike slot target tier hit hits) = false
is_rare c (Event.refused what why) = false
is_rare c Event.dodge = false
is_rare c Event.recover = false
is_rare c Event.steadied = false
is_rare c Event.second_wind = false
is_rare c Event.rim_stagger = is_stagger c
is_rare c Event.blow_stagger = is_stagger c
is_rare c (Event.blow result staggers) = not (is_stagger c)

abbrev pub count : Rare → List Event → ℕ
count c [] = 0
count c (e ∷ es) = (if is_rare c e then 1 else 0) + count c es

pub count-append : (c : Rare) (xs ys : List Event) → count c (xs ++ ys) ≡ count c xs + count c ys
count-append c [] ys = omega arith
count-append c (e ∷ xs) ys = omega (arith, count-append c xs ys)

-- The staggers that a step reports.
abbrev pub staggers : List Event → ℕ
staggers es = count stagger es

pub staggers-append : (xs ys : List Event) → staggers (xs ++ ys) ≡ staggers xs + staggers ys
staggers-append xs ys = count-append stagger xs ys

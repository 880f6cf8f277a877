-- ===== src/Balance/Rng.antt =====
-- The random stream of balance.py: `imul`, mulberry32 (`Rng`) and FNV-1a (`fnv1a`, `seed_for`).
-- Python's integers are unbounded and `& MASK` keeps the low 32 bits, which is `% 2 ^ 32`.
use Prim.Native.Nat.{bit_or, bit_xor}
use alzendor.Prelude.{
  ℕ, zero, suc, ◌+◌, ◌*◌, ◌/◌, ◌%◌, ◌^◌, ◌<◌, ◌≡◌, refl, arith, List, [], ◌∷◌, ◌++◌,
}

-- MASK + 1
abbrev pub word : ℕ
word = 2 ^ 32

-- The constant that mulberry32 adds to its state at each draw.
abbrev pub stride : ℕ
stride = 0x6d2b79f5

unfoldable pub imul : ℕ → ℕ → ℕ
imul a b = a * b % word

-- What `next` makes of its new state: the numerator of the draw over 2 ^ 32.
unfoldable pub mix : ℕ → ℕ
mix s =
    let t = imul (bit_xor s (s / 2 ^ 15)) (bit_or s 1) in
    let u = bit_xor ((t + imul (bit_xor t (t / 2 ^ 7)) (bit_or t 61)) % word) t in
    bit_xor u (u / 2 ^ 14) % word

-- `Rng.__init__`
abbrev pub start : ℕ → ℕ
start seed = seed % word

-- `Rng.next`: the new state, and the draw's numerator over 2 ^ 32.
unfoldable pub next : ℕ → ℕ × ℕ
next s = let s' = (s + stride) % word in (s', mix s')

fnv_from : ℕ → List ℕ → ℕ
fnv_from h [] = h
fnv_from h (byte ∷ rest) = fnv_from (imul (bit_xor h byte) 0x01000193) rest

-- The text as its UTF-8 bytes.
pub fnv1a : List ℕ → ℕ
fnv1a = fnv_from 0x811c9dc5

-- The texts of the encounter's seed and of the player's id, joined by a colon.
pub seed_for : List ℕ → List ℕ → ℕ
seed_for encounter_seed pid = fnv1a (encounter_seed ++ (b':' ∷ pid))

-- k draws on, whatever they gave.
unfoldable pub advance : ℕ → ℕ → ℕ
advance zero s = s
advance (suc k) s = advance k (next s).0

-- A draw is in [0, 1), and leaves a 32-bit state.
pub next_bounds : (s : ℕ) → ((next s).0 < word) × ((next s).1 < word)
unfolding next mix
next_bounds s = (omega arith, omega arith)

-- k draws add k strides, modulo 2 ^ 32.
pub advance-eq-add : (k s : ℕ) → s < word → advance k s ≡ (s + k * stride) % word
unfolding advance next
advance-eq-add zero s h = omega arith
advance-eq-add (suc k) s h = omega (arith, advance-eq-add k ((s + stride) % word) (omega arith))

fnv_from-lt : (h : ℕ) (text : List ℕ) → h < word → fnv_from h text < word
unfolding fnv_from imul
fnv_from-lt h [] b = b
fnv_from-lt h (byte ∷ rest) b = fnv_from-lt (imul (bit_xor h byte) 0x01000193) rest (omega arith)

pub fnv1a-lt : (text : List ℕ) → fnv1a text < word
unfolding fnv1a
fnv1a-lt text = fnv_from-lt 0x811c9dc5 text (omega arith)

-- The published FNV-1a hash of "a".
fnv1a_a : fnv1a (b'a' ∷ []) ≡ 0xe40c292c
unfolding fnv1a fnv_from imul
fnv1a_a = refl

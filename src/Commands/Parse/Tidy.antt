-- ===== src/Commands/Parse/Tidy.antt =====
-- What `clean` of commands.py leaves of a text.
use Prim.Native.Char.{Char, code}
use Prim.Native.String.{[] as empty_text, ◌∷◌ as ◌then◌}
use alzendor.Prelude.{
  ℕ, zero, suc, ◌≤◌, String, true, false, ◌≡◌, refl, List, [], ◌∷◌, Bool-cases, inl, inr, ◌==◌,
  arith, if◌then◌else◌,
}
use alzendor.Text.{
  Unicode, chars, is_empty, first_chars, keep_chars, append, words_of, join_more, join_words,
  partition_space,
}
use alzendor.Text.Words.{
  AllChars, AllWords, IsWord, InWord, AllChars-append, AllChars-first_chars, chars-first_chars,
  words_of-IsWord,
}
use alzendor.Commands.Parse.{max_input, clean}

-- What the code relies on of Python's tables: the blank is a printable space.
pub record HasBlank (u : Unicode) : Type 0 where
  pub blank_space : (c : Char) → code c ≡ 32 → u.is_space c ≡ true
  pub blank_printable : (c : Char) → code c ≡ 32 → u.is_printable c ≡ true

module _ (u : Unicode) where
  abbrev pub IsPrintable : Char → Type 0
  IsPrintable c = u.is_printable c ≡ true

  -- The text is empty or starts with a character that prints and is no space.
  abbrev pub Starts : String → Type 0
  Starts empty_text = Unit
  Starts (c then text) = (u.is_printable c ≡ true) × (u.is_space c ≡ false)

  -- So does what follows any space.
  abbrev pub IsSpaced : String → Type 0
  IsSpaced empty_text = Unit
  IsSpaced (c then text) = (u.is_space c ≡ true → Starts text) × IsSpaced text

  abbrev Word : String → Type 0
  Word = IsWord u.is_space IsPrintable

  Starts-Word : (word text : String) → Word word → Starts (append word text)
  Starts-Word empty_text text h = absurd (cc (h.0))
  Starts-Word (c then word) text h = h.1.0

  IsSpaced-append :
      (word text : String)
      → AllChars (InWord u.is_space IsPrintable) word
      → IsSpaced text
      → IsSpaced (append word text)
  IsSpaced-append empty_text text h k = k
  IsSpaced-append (c then word) text h k =
      ((λ e. absurd (cc (e, h.0.1))), IsSpaced-append word text h.1 k)

  IsSpaced-join_more : (ws : List String) → AllWords Word ws → IsSpaced (join_more ws)
  IsSpaced-join_more [] h = tt
  IsSpaced-join_more (w ∷ ws) h = (
    (λ e. Starts-Word w (join_more ws) h.0),
    IsSpaced-append w (join_more ws) h.0.1 (IsSpaced-join_more ws h.1),
  )

  IsSpaced-join :
      (ws : List String) → AllWords Word ws → Starts (join_words ws) × IsSpaced (join_words ws)
  IsSpaced-join [] h = (tt, tt)
  IsSpaced-join (w ∷ ws) h = (
    Starts-Word w (join_more ws) h.0,
    IsSpaced-append w (join_more ws) h.0.1 (IsSpaced-join_more ws h.1),
  )

  Starts-first_chars : (n : ℕ) (text : String) → Starts text → Starts (first_chars n text)
  Starts-first_chars zero text h = tt
  Starts-first_chars (suc n) empty_text h = tt
  Starts-first_chars (suc n) (c then text) h = h

  IsSpaced-first_chars : (n : ℕ) (text : String) → IsSpaced text → IsSpaced (first_chars n text)
  IsSpaced-first_chars zero text h = tt
  IsSpaced-first_chars (suc n) empty_text h = tt
  IsSpaced-first_chars (suc n) (c then text) h =
      ((λ e. Starts-first_chars n text (h.0 e)), IsSpaced-first_chars n text h.1)

  keep-IsPrintable : (text : String) → AllChars IsPrintable (keep_chars u.is_printable text)
  keep-IsPrintable empty_text = tt
  keep-IsPrintable (c then text) = elim (Bool-cases (u.is_printable c)) [
    | inl e ↦ rw e (e, keep-IsPrintable text)
    | inr e ↦ rw e (keep-IsPrintable text)
  ]

  clean_words :
      (text : String) → AllWords Word (words_of u.is_space (keep_chars u.is_printable text))
  clean_words text = words_of-IsWord u.is_space IsPrintable _ (keep-IsPrintable text)

  pub clean-IsSpaced : (text : String) → Starts (clean u text) × IsSpaced (clean u text)
  unfolding clean
  clean-IsSpaced text =
      let (starts, spaced) = IsSpaced-join _ (clean_words text) in
      (Starts-first_chars max_input _ starts, IsSpaced-first_chars max_input _ spaced)

  word_prints :
      (word : String) → AllChars (InWord u.is_space IsPrintable) word → AllChars IsPrintable word
  word_prints empty_text h = tt
  word_prints (c then word) h = (h.0.0, word_prints word h.1)

  join_prints :
      HasBlank u → (ws : List String) → AllWords Word ws → AllChars IsPrintable (join_more ws)
  join_prints b [] h = tt
  join_prints b (w ∷ ws) h = (
    b.blank_printable " " refl,
    AllChars-append _ w _ (word_prints w h.0.1) (join_prints b ws h.1),
  )

  join_words_prints :
      HasBlank u → (ws : List String) → AllWords Word ws → AllChars IsPrintable (join_words ws)
  join_words_prints b [] h = tt
  join_words_prints b (w ∷ ws) h =
      AllChars-append _ w _ (word_prints w h.0.1) (join_prints b ws h.1)

  -- Whatever is typed, what `clean` leaves has at most 500 characters, all of them printable; it
  -- does not start with a space, and no space follows another.
  pub clean_bounds :
      (text : String)
      → HasBlank u
      → (chars (clean u text) ≤ 500)
        × AllChars IsPrintable (clean u text)
        × Starts (clean u text)
        × IsSpaced (clean u text)
  unfolding clean
  clean_bounds text b =
      let (starts, spaced) = clean-IsSpaced text in
      (
        chars-first_chars max_input _,
        AllChars-first_chars _ max_input _ (join_words_prints b _ (clean_words text)),
        starts,
        spaced,
      )

  -- The rest of a line after its first blank.
  pub Starts-partition :
      (text : String) → HasBlank u → IsSpaced text → Starts (partition_space text).1
  Starts-partition empty_text b h = tt
  Starts-partition (c then text) b h = elim (Bool-cases (code c == 32)) [
    | inl e ↦ rw e (h.0 (b.blank_space c (ground arith)))
    | inr e ↦ rw e (Starts-partition text b h.1)
  ]

  -- A text that starts with a word does not clean to nothing.
  pub clean-ne :
      (text : String) → Starts text → is_empty text ≡ false → is_empty (clean u text) ≡ false
  unfolding clean
  clean-ne empty_text h k = absurd (cc (k))
  clean-ne (c then text) h k = rw h.0 (rw h.1 refl)

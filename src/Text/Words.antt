-- ===== src/Text/Words.antt =====
-- Texts split into words and joined again.
use Prim.Native.Char.{Char, code}
use Prim.Native.String.{[] as empty_text, ◌∷◌ as ◌then◌}
use alzendor.Prelude.{
  ℕ, zero, suc, ◌≤◌, String, Bool, true, false, ◌≡◌, refl, ap, List, [], ◌∷◌, Bool-cases, inl, inr,
  arith, if◌then◌else◌,
}
use alzendor.Text.{
  chars, is_empty, first_chars, append, add_word, split_words, words_of, join_more, join_words,
}

-- P holds of every character, and of every word.
abbrev pub AllChars : (Char → Type 0) → String → Type 0
AllChars P empty_text = Unit
AllChars P (c then text) = P c × AllChars P text

abbrev pub AllWords : (String → Type 0) → List String → Type 0
AllWords P [] = Unit
AllWords P (w ∷ ws) = P w × AllWords P ws

pub chars-first_chars : (n : ℕ) (text : String) → chars (first_chars n text) ≤ n
chars-first_chars zero text = omega arith
chars-first_chars (suc n) empty_text = omega arith
chars-first_chars (suc n) (c then text) = omega (arith, chars-first_chars n text)

module _ (P : Char → Type 0) where
  pub AllChars-append : (a b : String) → AllChars P a → AllChars P b → AllChars P (append a b)
  AllChars-append empty_text b h k = k
  AllChars-append (c then a) b h k = (h.0, AllChars-append a b h.1 k)

  pub AllChars-first_chars :
      (n : ℕ) (text : String) → AllChars P text → AllChars P (first_chars n text)
  AllChars-first_chars zero text h = tt
  AllChars-first_chars (suc n) empty_text h = tt
  AllChars-first_chars (suc n) (c then text) h = (h.0, AllChars-first_chars n text h.1)

-- A word has no space and is not empty.
module _ (space : Char → Bool) (P : Char → Type 0) where
  abbrev pub InWord : Char → Type 0
  InWord c = P c × (space c ≡ false)

  abbrev pub IsWord : String → Type 0
  IsWord word = (is_empty word ≡ false) × AllChars InWord word

  add_word-IsWord :
      (word : String) (ws : List String)
      → AllChars InWord word
      → AllWords IsWord ws
      → AllWords IsWord (add_word word ws)
  add_word-IsWord empty_text ws h k = k
  add_word-IsWord (c then word) ws h k = ((refl, h), k)

  split_words-IsWord :
      (text : String)
      → AllChars P text
      → AllChars InWord (split_words space text).0 × AllWords IsWord (split_words space text).1
  split_words-IsWord empty_text h = (tt, tt)
  split_words-IsWord (c then text) h =
      let (word, ws) = split_words-IsWord text h.1 in
      elim (Bool-cases (space c)) [
        | inl e ↦ rw e (tt, add_word-IsWord _ _ word ws)
        | inr e ↦ rw e (((h.0, e), word), ws)
      ]

  pub words_of-IsWord : (text : String) → AllChars P text → AllWords IsWord (words_of space text)
  words_of-IsWord text h = let (word, ws) = split_words-IsWord text h in add_word-IsWord _ _ word ws

  split_words-append :
      (word rest : String)
      → AllChars InWord word
      → split_words space (append word rest)
        ≡ (append word (split_words space rest).0, (split_words space rest).1)
  split_words-append empty_text rest h = refl
  split_words-append (c then word) rest h = rw (h.0.1, split_words-append word rest h.1) refl

  append-empty : (word : String) → append word empty_text ≡ word
  append-empty empty_text = refl
  append-empty (c then word) = ap (λ w. c then w) (append-empty word)

  add_word-IsWord_lem :
      (word : String) (ws : List String) → IsWord word → add_word word ws ≡ word ∷ ws
  add_word-IsWord_lem empty_text ws h = absurd (cc (h.0))
  add_word-IsWord_lem (c then word) ws h = refl

  module _ (blank : (c : Char) → code c ≡ 32 → space c ≡ true) where
    split_words-join_more :
        (ws : List String)
        → AllWords IsWord ws
        → split_words space (join_more ws) ≡ (empty_text, ws)
    split_words-join_more [] h = refl
    split_words-join_more (w ∷ ws) h = rw (blank " " refl) (
        rw (split_words-append w (join_more ws) h.0.1) (
          rw (split_words-join_more ws h.1)
            (rw (append-empty w) (rw (add_word-IsWord_lem w ws h.0) refl))))

    -- The words of joined words are those words.
    pub words_of-join_words :
        (ws : List String) → AllWords IsWord ws → words_of space (join_words ws) ≡ ws
    words_of-join_words [] h = refl
    words_of-join_words (w ∷ ws) h =
        rw (split_words-append w (join_more ws) h.0.1)
          (rw (split_words-join_more ws h.1) (rw (append-empty w) (add_word-IsWord_lem w ws h.0)))

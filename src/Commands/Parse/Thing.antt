-- ===== src/Commands/Parse/Thing.antt =====
-- What `_thing` of commands.py leaves of a reference to something.
use Prim.Native.Char.{Char}
use Prim.Native.String.{[] as empty_text, ◌∷◌ as ◌then◌}
use alzendor.Prelude.{
  String, Bool, true, false, ◌≡◌, ◌≢◌, ap, ◌++◌, refl, List, [], ◌∷◌, Bool-cases, inl, inr,
  if◌then◌else◌,
}
use alzendor.Text.{Unicode, is_one_of, words_of, join_more, join_words}
use alzendor.Text.Words.{
  AllChars, AllWords, IsWord, InWord, AllChars-append, words_of-IsWord, words_of-join_words,
}
use alzendor.Commands.Parse.{filler_words, drop_filler, thing}
use alzendor.Commands.Parse.Tidy.{HasBlank}

-- What the code relies on of `str.lower`: there are characters that it leaves alone, the blank is
-- one, it comes to no others, and it leaves a text of them as it is.
pub record HasCase (u : Unicode) (is_low : Char → Bool) : Type 0 where
  pub blank_low : is_low " " ≡ true
  pub lower_low : (text : String) → AllChars (λ c. is_low c ≡ true) (u.lower text)
  pub low_lower : (text : String) → AllChars (λ c. is_low c ≡ true) text → u.lower text ≡ text

-- A word at the front that stays is no filler, unless it is alone.
drop_filler_idem : (ws : List String) → drop_filler (drop_filler ws) ≡ drop_filler ws
drop_filler_idem [] = refl
drop_filler_idem (word ∷ []) = refl
drop_filler_idem (word ∷ (next ∷ more)) = elim (Bool-cases (is_one_of word filler_words)) [
  | inl e ↦ rw e (drop_filler_idem (next ∷ more))
  | inr e ↦ rw e (rw e refl)
]

AllWords-drop_filler :
    (P : String → Type 0) (ws : List String) → AllWords P ws → AllWords P (drop_filler ws)
AllWords-drop_filler P [] h = tt
AllWords-drop_filler P (word ∷ []) h = h
AllWords-drop_filler P (word ∷ (next ∷ more)) h = elim (Bool-cases (is_one_of word filler_words)) [
  | inl e ↦ rw e (AllWords-drop_filler P (next ∷ more) h.1)
  | inr e ↦ rw e h
]

abbrev pub IsFiller : String → Type 0
IsFiller word = is_one_of word filler_words ≡ true

-- The first word is no filler, unless it is alone.
abbrev pub Bare : List String → Type 0
Bare [] = Unit
Bare (word ∷ []) = Unit
Bare (word ∷ (next ∷ more)) = is_one_of word filler_words ≡ false

-- The words that are dropped.
abbrev filler_of : List String → List String
filler_of [] = []
filler_of (word ∷ []) = []
filler_of (word ∷ (next ∷ more)) =
    let rest = filler_of (next ∷ more) in if is_one_of word filler_words then word ∷ rest else []

filler_of-drop_filler : (ws : List String) → ws ≡ filler_of ws ++ drop_filler ws
filler_of-drop_filler [] = refl
filler_of-drop_filler (word ∷ []) = refl
filler_of-drop_filler (word ∷ (next ∷ more)) = elim (Bool-cases (is_one_of word filler_words)) [
  | inl e ↦ rw e (ap (λ ws. word ∷ ws) (filler_of-drop_filler (next ∷ more)))
  | inr e ↦ rw e refl
]

filler_of-IsFiller : (ws : List String) → AllWords IsFiller (filler_of ws)
filler_of-IsFiller [] = tt
filler_of-IsFiller (word ∷ []) = tt
filler_of-IsFiller (word ∷ (next ∷ more)) = elim (Bool-cases (is_one_of word filler_words)) [
  | inl e ↦ rw e (e, filler_of-IsFiller (next ∷ more))
  | inr e ↦ rw e tt
]

drop_filler-Bare : (ws : List String) → Bare (drop_filler ws)
drop_filler-Bare [] = tt
drop_filler-Bare (word ∷ []) = tt
drop_filler-Bare (word ∷ (next ∷ more)) = elim (Bool-cases (is_one_of word filler_words)) [
  | inl e ↦ rw e (drop_filler-Bare (next ∷ more))
  | inr e ↦ rw e e
]

-- Some word is left if there was one.
drop_filler_some : (word : String) (ws : List String) → drop_filler (word ∷ ws) ≢ []
drop_filler_some word [] h = cc
drop_filler_some word (next ∷ more) h = elim (Bool-cases (is_one_of word filler_words)) [
  | inl e ↦ drop_filler_some next more (rw e at h)
  | inr e ↦ let whole : word ∷ next ∷ more ≡ [] = (rw e at h) in cc
]

drop_filler_none : (ws : List String) → drop_filler ws ≡ [] → filler_of ws ≡ []
drop_filler_none [] h = refl
drop_filler_none (word ∷ []) h = refl
drop_filler_none (word ∷ (next ∷ more)) h = elim (Bool-cases (is_one_of word filler_words)) [
  | inl e ↦ absurd (drop_filler_some next more (rw e at h))
  | inr e ↦ rw e refl
]

module _ (u : Unicode) (is_low : Char → Bool) where
  abbrev pub IsLow : Char → Type 0
  IsLow c = is_low c ≡ true

  word-IsLow : (word : String) → AllChars (InWord u.is_space IsLow) word → AllChars IsLow word
  word-IsLow empty_text h = tt
  word-IsLow (c then word) h = (h.0.0, word-IsLow word h.1)

  join_more-IsLow :
      HasCase u is_low
      → (ws : List String) → AllWords (IsWord u.is_space IsLow) ws
      → AllChars IsLow (join_more ws)
  join_more-IsLow k [] h = tt
  join_more-IsLow k (w ∷ ws) h =
      (k.blank_low, AllChars-append _ w _ (word-IsLow w h.0.1) (join_more-IsLow k ws h.1))

  join-IsLow :
      HasCase u is_low
      → (ws : List String) → AllWords (IsWord u.is_space IsLow) ws
      → AllChars IsLow (join_words ws)
  join-IsLow k [] h = tt
  join-IsLow k (w ∷ ws) h = AllChars-append _ w _ (word-IsLow w h.0.1) (join_more-IsLow k ws h.1)

  thing_again :
      (text : String) → HasBlank u → HasCase u is_low → thing u (thing u text) ≡ thing u text
  unfolding thing
  thing_again text b k =
      let ws : List String = words_of u.is_space (u.lower text) in
      let good : AllWords (IsWord u.is_space IsLow) (drop_filler ws) =
        AllWords-drop_filler _ ws (words_of-IsWord u.is_space IsLow _ (k.lower_low text)) in
      rw (k.low_lower _ (join-IsLow k _ good)) (
        rw (words_of-join_words u.is_space IsLow b.blank_space _ good)
          (rw (drop_filler_idem ws) refl))

  -- Where the blank is a space that prints, and `lower` comes to characters in lower case, the
  -- blank among them, and leaves a text of those as it is: the words of a reference in lower case
  -- are some at its front, which are filler each, and the rest, which is what is left: one or more
  -- words if there were any, in lower case and with no space in them, with one blank between two,
  -- and the first of them no filler unless it is the only one. What is left stays as it is when it
  -- is cleaned again.
  pub thing_lem :
      (text : String)
      → HasBlank u
      → HasCase u is_low
      → (dropped : List String) × (rest : List String) × (words_of u.is_space (u.lower text)
          ≡ dropped ++ rest)
        × AllWords IsFiller dropped
        × Bare rest
        × (rest ≡ [] → dropped ≡ [])
        × AllWords (IsWord u.is_space IsLow) rest
        × (thing u text ≡ join_words rest)
        × (thing u (thing u text) ≡ thing u text)
  unfolding thing
  thing_lem text b k =
      let ws : List String = words_of u.is_space (u.lower text) in
      (
        filler_of ws,
        drop_filler ws,
        filler_of-drop_filler ws,
        filler_of-IsFiller ws,
        drop_filler-Bare ws,
        drop_filler_none ws,
        AllWords-drop_filler _ ws (words_of-IsWord u.is_space IsLow _ (k.lower_low text)),
        refl,
        thing_again text b k,
      )

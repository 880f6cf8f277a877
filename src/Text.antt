-- ===== src/Text.antt =====
-- Python's texts, as commands.py and auth.py use them: the methods of `str` that go by characters
-- are functions by clauses, and what Unicode's tables say is a record.
pub mod Words
use Prim.Native.Char.{Char, code}
use Prim.Native.String.{[] as empty_text, ◌∷◌ as ◌then◌, ◌++◌ as ◌joined◌}
use text.Mathlib.Text.{◌==◌ as str_eq, starts_with}
use alzendor.Prelude.{
  ℕ, zero, suc, String, Bool, true, false, not, ◌&&◌, ◌||◌, Option, none, some, List, [], ◌∷◌, ltb,
  leb, ◌==◌, if◌then◌else◌,
}

-- isprintable, isspace and isdigit of a character, and the case of a text.
pub record Unicode : Type 0 where
  pub is_printable : Char → Bool
  pub is_space : Char → Bool
  pub is_digit : Char → Bool
  pub lower : String → String
  pub upper : String → String
  pub capitalize : String → String

abbrev pub is_empty : String → Bool
is_empty empty_text = true
is_empty (c then text) = false

-- a or b
abbrev pub or_else : String → String → String
or_else a b = if is_empty a then b else a

-- len(text)
abbrev pub chars : String → ℕ
chars empty_text = 0
chars (c then text) = suc (chars text)

abbrev pub all_chars : (Char → Bool) → String → Bool
all_chars test empty_text = true
all_chars test (c then text) = let rest = all_chars test text in test c && rest

-- text[:n]
abbrev pub first_chars : ℕ → String → String
first_chars zero text = empty_text
first_chars (suc n) empty_text = empty_text
first_chars (suc n) (c then text) = c then first_chars n text

-- text[n:]
abbrev pub after_chars : ℕ → String → String
after_chars zero text = text
after_chars (suc n) empty_text = empty_text
after_chars (suc n) (c then text) = after_chars n text

-- Whether the text has the character.
abbrev pub has_char : ℕ → String → Bool
has_char k empty_text = false
has_char k (c then text) = let later = has_char k text in code c == k || later

-- The characters that pass a test.
abbrev pub keep_chars : (Char → Bool) → String → String
keep_chars test empty_text = empty_text
keep_chars test (c then text) =
    let rest = keep_chars test text in if test c then c then rest else rest

-- lstrip, rstrip and strip of the characters that pass a test
abbrev pub lstrip : (Char → Bool) → String → String
lstrip test empty_text = empty_text
lstrip test (c then text) = let rest = lstrip test text in if test c then rest else c then text

abbrev pub rstrip : (Char → Bool) → String → String
rstrip test empty_text = empty_text
rstrip test (c then text) =
    let rest = rstrip test text in if is_empty rest && test c then empty_text else c then rest

abbrev pub strip : (Char → Bool) → String → String
strip test text = rstrip test (lstrip test text)

-- A word, if it is one.
abbrev pub add_word : String → List String → List String
add_word empty_text ws = ws
add_word (c then word) ws = (c then word) ∷ ws

-- The text up to the first space, and the words after it.
abbrev pub split_words : (Char → Bool) → String → String × List String
split_words space empty_text = (empty_text, [])
split_words space (c then text) =
    let (word, ws) = split_words space text in
    if space c then (empty_text, add_word word ws) else (c then word, ws)

-- text.split()
abbrev pub words_of : (Char → Bool) → String → List String
words_of space text = let (word, ws) = split_words space text in add_word word ws

-- a + b, by clauses.
abbrev pub append : String → String → String
append empty_text b = b
append (c then a) b = c then append a b

-- " ".join(words)
abbrev pub join_more : List String → String
join_more [] = empty_text
join_more (word ∷ ws) = append " " (append word (join_more ws))

abbrev pub join_words : List String → String
join_words [] = empty_text
join_words (word ∷ ws) = append word (join_more ws)

-- text.partition(" "), less the separator
abbrev pub partition_space : String → String × String
partition_space empty_text = (empty_text, empty_text)
partition_space (c then text) =
    let (before, after) = partition_space text in
    if code c == b' ' then (empty_text, text) else (c then before, after)

-- text.partition(sep), less the separator
abbrev pub partition : String → String → String × String
partition sep empty_text = (empty_text, empty_text)
partition sep (c then text) =
    let (before, after) = partition sep text in
    if starts_with (c then text) sep
    then (empty_text, after_chars (chars sep) (c then text))
    else (c then before, after)

-- `sep in text`
abbrev pub contains_text : String → String → Bool
contains_text sep empty_text = false
contains_text sep (c then text) =
    let later = contains_text sep text in starts_with (c then text) sep || later

-- text.removeprefix(prefix)
abbrev pub remove_prefix : String → String → String
remove_prefix prefix text =
    if starts_with text prefix then after_chars (chars prefix) text else text

-- text.isdigit()
abbrev pub is_number : (Char → Bool) → String → Bool
is_number digit text = not (is_empty text) && all_chars digit text

-- word in texts
abbrev pub is_one_of : String → List String → Bool
is_one_of word [] = false
is_one_of word (one ∷ more) = let later = is_one_of word more in str_eq word one || later

-- d.get(key) of a dict of texts.
abbrev pub get_text : String → List (String × String) → Option String
get_text key [] = none
get_text key ((k, v) ∷ more) =
    let later = get_text key more in if str_eq key k then some v else later

-- d.get(key, default)
abbrev pub get_text_or : String → List (String × String) → String → String
get_text_or key table default = elim (get_text key table) [ none ↦ default | some v ↦ v ]

-- sep.join(texts)
abbrev pub join_texts : String → List String → String
join_texts sep [] = empty_text
join_texts sep (one ∷ []) = one
join_texts sep (one ∷ two ∷ more) = one joined (sep joined join_texts sep (two ∷ more))

-- The last of some words, and those before it.
abbrev pub last_word : String → List String → String
last_word word [] = word
last_word word (next ∷ more) = last_word next more

abbrev pub but_last : String → List String → List String
but_last word [] = []
but_last word (next ∷ more) = word ∷ but_last next more

-- A pattern's `$` matches before a last newline too: the text without it.
abbrev pub chomp : String → String
chomp empty_text = empty_text
chomp (c then empty_text) = if code c == 10 then empty_text else c then empty_text
chomp (c then (d then text)) = c then chomp (d then text)

-- From low to high characters, that pass a test.
abbrev pub counted : ℕ → ℕ → (Char → Bool) → String → Bool
counted low high test text = all_chars test text && (leb low (chars text) && leb (chars text) high)

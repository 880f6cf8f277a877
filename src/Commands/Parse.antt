-- ===== src/Commands/Parse.antt =====
-- commands.py: `clean`, `parse`, `target_id`, and the helpers that take the rest of an input apart.
pub mod Tidy
pub mod Thing
pub mod Resolved
use Prim.Native.Char.{Char, code}
use Prim.Native.String.{[] as empty_text, ◌∷◌ as ◌then◌}
use text.Mathlib.Text.{◌==◌ as str_eq, starts_with}
use alzendor.Prelude.{
  ℕ, String, Bool, true, false, not, ◌&&◌, ◌||◌, Option, none, some, List, [], ◌∷◌, ltb, leb, ◌==◌,
  if◌then◌else◌,
}
use alzendor.Text.{
  Unicode, is_empty, or_else, chars, all_chars, first_chars, after_chars, keep_chars, lstrip, strip,
  words_of, join_words, partition_space, counted, chomp, is_one_of, get_text, get_text_or,
}
use alzendor.Commands.Data.{Command, Tried, ok, hint}
use alzendor.Commands.Table.{commands, alias_in}

-- MAX_INPUT
abbrev pub max_input : ℕ
max_input = 500

abbrev pub short_directions : List (String × String)
short_directions =
    ("n", "north")
    ∷ ("s", "south")
    ∷ ("e", "east")
    ∷ ("w", "west")
    ∷ ("ne", "northeast")
    ∷ ("nw", "northwest")
    ∷ ("se", "southeast")
    ∷ ("sw", "southwest")
    ∷ ("u", "up")
    ∷ ("d", "down")
    ∷ []

abbrev pub directions : List String
directions =
    "north" ∷ "south" ∷ "east" ∷ "west" ∷ "northeast" ∷ "northwest" ∷ "southeast" ∷ "southwest"
    ∷ "up" ∷ "down" ∷ []

abbrev pub slot_numbers : List String
slot_numbers = "1" ∷ "2" ∷ "3" ∷ []

abbrev pub is_direction : String → Bool
is_direction word = is_one_of word directions

-- SHORT_DIRECTIONS.get(word, word)
abbrev pub long_direction : String → String
long_direction word = get_text_or word short_directions word

abbrev pub is_short : String → Bool
is_short word = elim (get_text word short_directions) [ none ↦ false | some d ↦ true ]

unfoldable pub clean : Unicode → String → String
clean u text =
    first_chars max_input (join_words (words_of u.is_space (keep_chars u.is_printable text)))

-- ALIASES.get(first, first)
abbrev pub resolve : Unicode → String → String
resolve u first = elim (alias_in first (commands u)) [ none ↦ first | some name ↦ name ]

-- `parse`, after `clean`: the first word in lower case, the rest, and the whole.
abbrev pub parse_words : Unicode → String → String → String → String × String
parse_words u first rest text =
    if is_one_of first slot_numbers
    then ("use", text)
    else if is_empty rest && (is_direction first || is_short first)
    then ("move", long_direction first)
    else (resolve u first, rest)

abbrev pub parse_clean : Unicode → String → Option (String × String)
parse_clean u empty_text = none
parse_clean u (c then text) =
    if code c == b'\''
    then some ("say", strip u.is_space text)
    else if code c == b':'
    then some ("emote", strip u.is_space text)
    else let (first, rest) = partition_space (c then text) in
      some (parse_words u (u.lower first) rest (c then text))

unfoldable pub parse : Unicode → String → Option (String × String)
unfolding clean
parse u text = parse_clean u (clean u text)

abbrev between : ℕ → ℕ → ℕ → Bool
between a b k = leb a k && leb k b

abbrev is_id_char : ℕ → Bool
is_id_char k = between b'a' b'z' k || (between b'0' b'9' k || (k == b'_' || k == b'-'))

abbrev starts_channel : String → Bool
starts_channel empty_text = false
starts_channel (c then text) = between b'a' b'z' (code c) || between b'0' b'9' (code c)

-- CHANNEL_RE
abbrev pub is_channel : String → Bool
is_channel name = starts_channel name && counted 2 24 (λ c. is_id_char (code c)) (chomp name)

abbrev is_target_name : String → Bool
is_target_name name = counted 1 80 (λ c. is_id_char (code c) || code c == b'~') (chomp name)

-- TARGET_RE
abbrev pub is_target : String → Bool
is_target value =
    (starts_with value "pc:" && is_target_name (after_chars 3 value))
    || (starts_with value "npc:" && is_target_name (after_chars 4 value))

-- `target_id`; a value that is not a text is none.
unfoldable pub target_id : Option String → String
target_id none = ""
target_id (some value) = if is_target value then value else ""

-- `_require`
abbrev pub require : String → String → Tried String
require rest why = if is_empty rest then hint why else ok rest

-- `_split`
abbrev pub split : Unicode → String → String → Tried (String × String)
split u rest why =
    let (first, remainder) = partition_space rest in
    if is_empty first || is_empty remainder then hint why else ok (u.lower first, remainder)

abbrev pub filler_words : List String
filler_words = "at" ∷ "to" ∷ "on" ∷ "the" ∷ "a" ∷ "an" ∷ []

abbrev pub drop_filler : List String → List String
drop_filler [] = []
drop_filler (word ∷ []) = word ∷ []
drop_filler (word ∷ (next ∷ more)) =
    let rest = drop_filler (next ∷ more) in
    if is_one_of word filler_words then rest else word ∷ next ∷ more

-- `_thing`
unfoldable pub thing : Unicode → String → String
thing u rest = join_words (drop_filler (words_of u.is_space (u.lower rest)))

-- `_channel`
abbrev pub channel : Unicode → String → Tried String
channel u rest =
    let name = lstrip (λ c. code c == b'#') (u.lower rest) in
    if is_channel name
    then ok name
    else hint "Channel names are 2-24 lowercase letters, digits, '-' or '_'."

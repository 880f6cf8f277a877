-- ===== src/Commands/Handlers/Fights.antt =====
-- commands.py: the handlers of fights, of gear and of the character.
use Prim.Native.String.{◌++◌ as ◌joined◌}
use text.Mathlib.Text.{◌==◌ as str_eq}
use alzendor.Prelude.{ℕ, String, not, ◌||◌, List, [], ◌∷◌, if◌then◌else◌}
use alzendor.Text.{
  Unicode, is_empty, or_else, strip, words_of, join_words, partition, partition_space, is_number,
  is_one_of, remove_prefix, join_texts, last_word, but_last,
}
use alzendor.Commands.Data.{
  Context, Around, Press, strike, Deed, calls, presses, idle, Tried, ok, hint, ◌>>=◌,
}
use alzendor.Commands.Parse.{slot_numbers, require, thing}

-- STATS of world.py
abbrev pub stat_names : List String
stat_names = "vigor" ∷ "poise" ∷ "focus" ∷ "presence" ∷ "resilience" ∷ []

-- SLOT_FILLER
abbrev pub slot_filler : List String
slot_filler = "in" ∷ "into" ∷ "to" ∷ "slot" ∷ []

-- int(slot), of SLOT_NUMBERS.
abbrev pub slot_number : String → ℕ
slot_number slot = if str_eq slot "1" then 1 else if str_eq slot "2" then 2 else 3

-- while words and words[-1] in SLOT_FILLER: words.pop()
abbrev pub less_filler : List String → List String
less_filler [] = []
less_filler (word ∷ more) = elim (less_filler more) [
  | [] ↦ if is_one_of word slot_filler then [] else word ∷ []
  | next ∷ rest ↦ word ∷ next ∷ rest
]

-- The words of what to equip, and the slot, which may be the last word or the first.
abbrev pub equip_words : List String → List String × String
equip_words [] = ([], "")
equip_words (word ∷ more) =
    if is_one_of (last_word word more) slot_numbers
    then (but_last word more, last_word word more)
    else if is_one_of word slot_numbers
    then (more, word)
    else (word ∷ more, "")

-- The slot to attune to, which comes last.
abbrev pub attune_words : List String → Tried Deed
attune_words (word ∷ (next ∷ more)) =
    if is_one_of (last_word word (next ∷ more)) slot_numbers
    then ok (
        calls "attune"
          (join_words (but_last word (next ∷ more)) ∷ last_word word (next ∷ more) ∷ []))
    else hint "Usage: ATTUNE <passive> <slot>, e.g. ATTUNE MOONLIT EDGE 1."
attune_words words = hint "Usage: ATTUNE <passive> <slot>, e.g. ATTUNE MOONLIT EDGE 1."

module _ (u : Unicode) (ctx : Context) (w : Around) where
  abbrev pub use_slot : String → Tried Deed
  use_slot rest =
      let (slot, target) = partition_space rest in
      let aim = or_else (thing u target) ctx.target in
      let (item, thing') = partition " on " (u.lower rest) in
      if is_one_of slot slot_numbers
      then (if not (is_empty w.encounter)
          then ok (presses w.encounter (strike (slot_number slot) aim))
          else ok (calls "use" (slot ∷ aim ∷ [])))
      else if is_empty rest || is_number u.is_digit slot
      then hint "Use which slot? 1, 2 or 3. Or USE <item> ON <thing>."
      else ok (calls "use_item" (thing u item ∷ thing u thing' ∷ []))

  abbrev pub learn : String → Tried Deed
  learn rest = do
    what ← require (strip u.is_space rest) "Learn what? The Character panel lists what you can."
    ok (calls "learn" (what ∷ []))

  abbrev pub attune : String → Tried Deed
  attune rest = attune_words (words_of u.is_space (u.lower rest))

  abbrev pub respec : String → Tried Deed
  respec rest = ok (calls "respec" [])

  abbrev pub quests : String → Tried Deed
  quests rest = ok (calls "quests" [])

  abbrev pub equip : String → Tried Deed
  equip rest =
      let (words, slot) = equip_words (words_of u.is_space (u.lower rest)) in
      require (thing u (join_words (less_filler words)))
        "Equip what? Type GEAR to see what there is."
      >>= λ what. ok (calls "equip" (what ∷ slot ∷ []))

  abbrev pub unequip : String → Tried Deed
  unequip rest =
      let slot = strip u.is_space (remove_prefix "slot" (u.lower rest)) in
      if not (is_one_of slot slot_numbers)
      then hint "Unequip which slot? 1, 2 or 3."
      else ok (calls "unequip" (slot ∷ []))

  abbrev pub gear : String → Tried Deed
  gear rest = ok (calls "gear" [])

  abbrev pub wear : String → Tried Deed
  wear rest = do
    item ← require (thing u rest) "Wear what? The Character panel lists your worn gear."
    ok (calls "wear" (item ∷ []))

  abbrev pub hold : String → Tried Deed
  hold rest = do
    item ← require (thing u rest) "Hold what? A torch, a shield, an orb."
    ok (calls "hold" (item ∷ []))

  abbrev pub remove : String → Tried Deed
  remove rest = do
    item ← require (thing u rest) "Remove what? HEAD, CHEST, LEGS, HAND, or an item's name."
    ok (calls "remove" (item ∷ []))

  abbrev pub dodge : String → Tried Deed
  dodge rest =
      if is_empty w.encounter
      then hint "There's nothing to dodge."
      else ok (presses w.encounter Press.dodge)

  abbrev pub block : String → Tried Deed
  block rest =
      if is_empty w.encounter
      then hint "There's nothing to block."
      else ok (presses w.encounter Press.block)

  abbrev pub unblock : String → Tried Deed
  unblock rest = if is_empty w.encounter then ok idle else ok (presses w.encounter Press.unblock)

  abbrev pub stats : String → Tried Deed
  stats rest = ok (calls "stats" [])

  abbrev pub train : String → Tried Deed
  train rest =
      let stat = strip u.is_space (u.lower rest) in
      if not (is_one_of stat stat_names)
      then hint ("Train which stat? " joined (join_texts ", " stat_names joined "."))
      else ok (calls "train" (stat ∷ []))

  abbrev pub get : String → Tried Deed
  get rest = do item ← require rest "Get what?"; ok (calls "get" (thing u item ∷ []))

  abbrev pub drop : String → Tried Deed
  drop rest = do item ← require rest "Drop what?"; ok (calls "drop" (thing u item ∷ []))

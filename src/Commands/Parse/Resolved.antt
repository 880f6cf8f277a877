-- ===== src/Commands/Parse/Resolved.antt =====
-- The name that `parse` of commands.py comes to.
use Prim.Native.Char.{code}
use Prim.Native.String.{[] as empty_text, ◌∷◌ as ◌then◌}
use alzendor.Prelude.{
  String, Bool, true, false, not, ◌&&◌, ◌||◌, ◌≡◌, refl, subst, Option, none, some, List, [], ◌∷◌,
  Bool-cases, Option-cases, inl, inr, ◌==◌, ◌⊎◌, arith, if◌then◌else◌,
}
use alzendor.Text.{Unicode, is_empty, is_one_of, partition_space}
use alzendor.Commands.Data.{Command}
use alzendor.Commands.Table.{commands, alias_in}
use alzendor.Commands.Parse.Tidy.{HasBlank, Starts, IsSpaced, clean-IsSpaced, Starts-partition}
use alzendor.Commands.Parse.{
  slot_numbers, is_direction, is_short, resolve, parse_words, parse_clean, clean, parse,
}

abbrev is_alias : Option String → Bool
is_alias none = false
is_alias (some name) = true

abbrev no_alias : List Command → List Command → Bool
no_alias all [] = true
no_alias all (c ∷ cs) = let rest = no_alias all cs in not (is_alias (alias_in c.name all)) && rest

-- No name of a command is an alias.
no_alias_table : (u : Unicode) → no_alias (commands u) (commands u) ≡ true
unfolding commands
no_alias_table u = refl

alias_in-name :
    (word name : String) (all cs : List Command)
    → no_alias all cs ≡ true
    → alias_in word cs ≡ some name
    → is_alias (alias_in name all) ≡ false
alias_in-name word name all [] h e = cc
alias_in-name word name all (c ∷ cs) h e = elim (Option-cases (alias_in word cs)) [
  | inl later ↦ ground (arith, later, e)
  | inr (other, later) ↦ alias_in-name word name all cs (ground arith) (ground (arith, later, e))
]

abbrev IsResolved : Unicode → String → Type 0
IsResolved u name = is_alias (alias_in name (commands u)) ≡ false

resolve-IsResolved : (u : Unicode) (first : String) → IsResolved u (resolve u first)
resolve-IsResolved u first = elim (Option-cases (alias_in first (commands u))) [
  | inl e ↦ rw (e, resolve) (rw e refl)
  | inr (name, e) ↦
      rw (e, resolve) (alias_in-name first name (commands u) (commands u) (no_alias_table u) e)
]

none_of : (o : Option String) → is_alias o ≡ false → o ≡ none
none_of none h = refl
none_of (some name) h = cc

-- The names that `parse` gives without looking them up are no aliases.
fixed_names :
    (u : Unicode)
    → IsResolved u "say" × IsResolved u "emote" × IsResolved u "use" × IsResolved u "move"
unfolding commands
fixed_names u = (refl, refl, refl, refl)

-- Where the rest of an input comes from: the shorthands and the directions give their own, and any
-- other is what was typed from a word on.
abbrev pub IsRest : Unicode → String → String → Type 0
IsRest u name rest = (name ≡ "say") ⊎ ((name ≡ "emote") ⊎ ((name ≡ "move") ⊎ Starts u rest))

module _ (u : Unicode) where
  abbrev Shape : String × String → Type 0
  Shape (name, rest) = IsResolved u name × IsRest u name rest

  words-Shape :
      (first rest text : String)
      → Starts u rest
      → Starts u text
      → Shape (parse_words u first rest text)
  words-Shape first rest text h k = elim (Bool-cases (is_one_of first slot_numbers)) [
    | inl e ↦ rw e ((fixed_names u).2, inr (inr (inr k)))
    | inr e ↦ elim (Bool-cases (is_empty rest && (is_direction first || is_short first))) [
      | inl f ↦ rw (e, f) ((fixed_names u).3, inr (inr (inl refl)))
      | inr f ↦ rw (e, f) (resolve-IsResolved u first, inr (inr (inr h)))
    ]
  ]

  abbrev ShapeOf : Option (String × String) → Type 0
  ShapeOf none = Unit
  ShapeOf (some parsed) = Shape parsed

  clean-Shape :
      (text : String) → HasBlank u → Starts u text → IsSpaced u text → ShapeOf (parse_clean u text)
  clean-Shape empty_text b h k = tt
  clean-Shape (c then text) b h k = elim (Bool-cases (code c == b'\'')) [
    | inl e ↦ rw e ((fixed_names u).0, inl refl)
    | inr e ↦ elim (Bool-cases (code c == b':')) [
      | inl f ↦ rw (e, f) ((fixed_names u).1, inr (inl refl))
      | inr f ↦
          rw (e, f)
            (words-Shape (u.lower (partition_space (c then text)).0)
              (partition_space (c then text)).1 (c then text) (Starts-partition u (c then text) b k)
              h)
    ]
  ]

  pub parse-ShapeOf : (text : String) → HasBlank u → ShapeOf (parse u text)
  unfolding parse
  parse-ShapeOf text b =
      let (starts, spaced) = clean-IsSpaced u text in clean-Shape (clean u text) b starts spaced

  pub parse-IsRest :
      (text name rest : String) → HasBlank u → parse u text ≡ some (name, rest) → IsRest u name rest
  parse-IsRest text name rest b e = (subst ShapeOf e (parse-ShapeOf text b)).1

  -- Whatever is typed, the name of the command that `parse` gives is not an alias of another
  -- command, so looking it up once more would change nothing.
  pub parse_resolved :
      (text name rest : String)
      → HasBlank u
      → parse u text ≡ some (name, rest)
      → (alias_in name (commands u) ≡ none) × (resolve u name ≡ name)
  parse_resolved text name rest b e =
      let none_left : alias_in name (commands u) ≡ none =
        none_of (alias_in name (commands u)) (subst ShapeOf e (parse-ShapeOf text b)).0 in
      (none_left, rw (none_left, resolve) refl)

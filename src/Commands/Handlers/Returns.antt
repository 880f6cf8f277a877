-- ===== src/Commands/Handlers/Returns.antt =====
-- No handler of commands.py raises an exception but Usage; HELP needs a word that parses.
use alzendor.Prelude.{
  String, Bool, true, false, not, ◌||◌, ◌≡◌, Bool-cases, inl, inr, Option, none, some, List, [],
  ◌∷◌, if◌then◌else◌,
}
use alzendor.Text.{Unicode, is_empty, words_of}
use alzendor.Commands.Data.{Command, Verb, Context, Around, Deed, Tried, ok, hint, ◌>>=◌}
use alzendor.Commands.Parse.{parse}
use alzendor.Commands.Handlers.{handle}
use alzendor.Commands.Handlers.Fights.{attune_words}
use alzendor.Commands.Handlers.Talks.{help_of, help_word, weather_values}

-- Not a crash.
pub data Returns {A : Type 0} : Tried A → Type 0 where
  returned : (a : A) → Returns (ok a)
  hinted : (why : String) → Returns (hint why)

module _ {A : Type 0} where
  Returns-if :
      (b : Bool) (t1 t2 : Tried A) → Returns t1 → Returns t2 → Returns (if b then t1 else t2)
  Returns-if true t1 t2 h k = h
  Returns-if false t1 t2 h k = k

  Returns-bind :
      {B : Type 0} (t : Tried B) (f : B → Tried A)
      → Returns t
      → ((b : B) → Returns (f b))
      → Returns (t >>= f)
  Returns-bind t f (returned b) h = h b
  Returns-bind t f (hinted why) h = hinted why

ruleset returns_rules = (returned, hinted, Returns-if, Returns-bind)

attune-Returns : (words : List String) → Returns (attune_words words)
attune-Returns [] = hinted _
attune-Returns (word ∷ []) = hinted _
attune-Returns (word ∷ (next ∷ more)) = search returns_rules

help_of-Returns : (u : Unicode) (rest : String) (c : Option Command) → Returns (help_of u rest c)
help_of-Returns u rest none = hinted _
help_of-Returns u rest (some c) = returned _

abbrev pub is_help : Verb → Bool
is_help Verb.help = true
is_help v = false

abbrev pub parses : Option (String × String) → Bool
parses none = false
parses (some parsed) = true

help_word-Returns :
    (u : Unicode) (is_admin : Bool) (rest : String) (parsed : Option (String × String))
    → parses parsed ≡ true
    → Returns (help_word u is_admin rest parsed)
help_word-Returns u is_admin rest none h = absurd (cc (h))
help_word-Returns u is_admin rest (some (name, more)) h = help_of-Returns u rest _

help-Returns :
    (u : Unicode) (is_admin : Bool) (rest : String) (t : Tried Deed)
    → (is_empty rest || parses (parse u rest)) ≡ true
    → Returns t
    → Returns (if not (is_empty rest) then help_word u is_admin rest (parse u rest) else t)
help-Returns u is_admin rest t h k = elim (Bool-cases (is_empty rest)) [
  | inl e ↦ rw e k
  | inr e ↦ rw e (help_word-Returns u is_admin rest (parse u rest) (rw e at h))
]

module _ (u : Unicode) (ctx : Context) (w : Around) where
  weather-Returns : (words : List String) → Returns (weather_values u ctx w words)
  weather-Returns [] = hinted _
  weather-Returns (a ∷ []) = search returns_rules
  weather-Returns (a ∷ (b ∷ [])) = hinted _
  weather-Returns (a ∷ (b ∷ (c ∷ []))) = returned _
  weather-Returns (a ∷ (b ∷ (c ∷ (d ∷ more)))) = hinted _

  pub handle-Returns :
      (v : Verb) (rest : String)
      → (not (is_help v) || (is_empty rest || parses (parse u rest))) ≡ true
      → Returns (handle u ctx w v rest)
  unfolding handle
  handle-Returns Verb.attune rest h = attune-Returns (words_of u.is_space (u.lower rest))
  handle-Returns Verb.setweather rest h = weather-Returns (words_of u.is_space (u.lower rest))
  handle-Returns Verb.help rest h = help-Returns u ctx.is_admin rest _ h (returned _)
  handle-Returns v rest h = search returns_rules

-- ===== src/Commands/Handlers/Does.antt =====
-- What the handlers of commands.py may do: which functions of the rules each calls, and when it
-- sends an input to a fight.
use alzendor.Prelude.{
  String, Bool, true, false, not, ◌&&◌, ◌≡◌, refl, subst, Option, none, some, List, [], ◌∷◌,
  Bool-cases, inl, inr, if◌then◌else◌,
}
use alzendor.Text.{Unicode, is_empty, is_one_of, words_of}
use alzendor.Commands.Handlers.Fights.{attune_words}
use alzendor.Commands.Handlers.Talks.{help_of, help_word, weather_values}
use alzendor.Commands.Data.{
  Command, Verb, Context, Around, Press, Deed, calls, presses, leaves, idle, Tried, ok, hint, crash,
  ◌>>=◌,
}
use alzendor.Commands.Parse.{parse}
use alzendor.Commands.Handlers.{handle}

-- A test holds of the deed, if the handler comes to one.
pub record Does (test : Deed → Bool) (t : Tried Deed) : Type 0 where
  pub at : (d : Deed) → t ≡ ok d → test d ≡ true

module _ {test : Deed → Bool} where
  pub Does-ok : (d : Deed) → test d ≡ true → Does test (ok d)
  Does-ok d h = record { at = λ e p. let same : d ≡ e = cc in subst (λ x. test x ≡ true) same h }

  pub Does-hint : (why : String) → Does test (hint why)
  Does-hint why = record { at = λ e p. cc }

  pub Does-crash : Does test crash
  Does-crash = record { at = λ e p. cc }

  pub Does-if :
      (b : Bool) (t1 t2 : Tried Deed)
      → Does test t1
      → Does test t2
      → Does test (if b then t1 else t2)
  Does-if true t1 t2 h k = h
  Does-if false t1 t2 h k = k

  pub Does-bind :
      {A : Type 0} (t : Tried A) (f : A → Tried Deed)
      → ((a : A) → Does test (f a))
      → Does test (t >>= f)
  Does-bind (ok a) f h = h a
  Does-bind (hint why) f h = Does-hint why
  Does-bind crash f h = Does-crash

-- The functions of alzendor.lua that a command may call.
abbrev pub allowed : Verb → List String
allowed Verb.look = "look" ∷ []
allowed Verb.inspect = "inspect" ∷ []
allowed Verb.inventory = "inventory" ∷ []
allowed Verb.who = "who" ∷ []
allowed Verb.weather = "weather" ∷ []
allowed Verb.discuss = "discuss" ∷ []
allowed Verb.greet = "greet" ∷ []
allowed Verb.accept = "accept" ∷ []
allowed Verb.decline = "decline" ∷ []
allowed Verb.whatnow = "whatnow" ∷ []
allowed Verb.what = "whatnow" ∷ []
allowed Verb.give = "give" ∷ []
allowed Verb.choose = "choose" ∷ []
allowed Verb.flee = "flee" ∷ []
allowed Verb.travel = "travel" ∷ []
allowed Verb.move = "move" ∷ []
allowed Verb.creep = "move" ∷ []
allowed Verb.disarm = "disarm" ∷ []
allowed Verb.say = "say" ∷ []
allowed Verb.emote = "emote" ∷ []
allowed (Verb.fixed verb plain targeted) = "emote" ∷ []
allowed Verb.describe = "describe" ∷ []
allowed Verb.use_slot = "use" ∷ "use_item" ∷ []
allowed Verb.learn = "learn" ∷ []
allowed Verb.attune = "attune" ∷ []
allowed Verb.respec = "respec" ∷ []
allowed Verb.quests = "quests" ∷ []
allowed Verb.equip = "equip" ∷ []
allowed Verb.unequip = "unequip" ∷ []
allowed Verb.gear = "gear" ∷ []
allowed Verb.wear = "wear" ∷ []
allowed Verb.hold = "hold" ∷ []
allowed Verb.remove = "remove" ∷ []
allowed Verb.dodge = []
allowed Verb.block = []
allowed Verb.unblock = []
allowed Verb.stats = "stats" ∷ []
allowed Verb.train = "train" ∷ []
allowed Verb.get = "get" ∷ []
allowed Verb.drop = "drop" ∷ []
allowed Verb.tell = "tell" ∷ []
allowed Verb.chat = "chat" ∷ []
allowed Verb.channels = "channels" ∷ []
allowed Verb.join = "join" ∷ []
allowed Verb.leave = "leave" ∷ []
allowed Verb.create = "create_channel" ∷ []
allowed Verb.announce = "announce" ∷ []
allowed Verb.setweather = "set_weather" ∷ []
allowed Verb.goto = "goto" ∷ []
allowed Verb.setclock = "set_clock" ∷ []
allowed Verb.help = "notify" ∷ []
allowed Verb.quit = []
allowed Verb.logout = []

abbrev pub is_unblock : Verb → Bool
is_unblock Verb.unblock = true
is_unblock v = false

-- A call of an allowed function, an input while there is a fight, or nothing where UNBLOCK finds
-- no fight.
abbrev pub fits : Verb → String → Deed → Bool
fits v eid (calls function args) = is_one_of function (allowed v)
fits v eid (presses to press) = not (is_empty eid)
fits v eid (leaves revoke) = true
fits v eid idle = is_unblock v && is_empty eid

ruleset does_rules = (Does-ok, Does-hint, Does-crash, Does-if, Does-bind)

attune-Does :
    (eid : String) (words : List String) → Does (fits Verb.attune eid) (attune_words words)
attune-Does eid [] = Does-hint _
attune-Does eid (word ∷ []) = Does-hint _
attune-Does eid (word ∷ (next ∷ more)) = search (does_rules, refl)

help-Does :
    (eid : String) (u : Unicode) (rest : String) (c : Option Command)
    → Does (fits Verb.help eid) (help_of u rest c)
help-Does eid u rest none = Does-hint _
help-Does eid u rest (some c) = Does-ok _ refl

help_word-Does :
    (eid : String) (u : Unicode) (is_admin : Bool) (rest : String)
    (parsed : Option (String × String))
    → Does (fits Verb.help eid) (help_word u is_admin rest parsed)
help_word-Does eid u is_admin rest none = Does-crash
help_word-Does eid u is_admin rest (some (name, more)) = help-Does eid u rest _

-- An input is sent under the test that there is a fight.
press-Does :
    (v : Verb) (eid : String) (press : Press) (t : Tried Deed)
    → Does (fits v eid) t
    → Does (fits v eid) (if not (is_empty eid) then ok (presses eid press) else t)
press-Does v eid press t h = elim (Bool-cases (is_empty eid)) [
  | inl e ↦ rw e h
  | inr e ↦ rw e (Does-ok _ (rw e refl))
]

press_unless-Does :
    (v : Verb) (eid : String) (press : Press) (t : Tried Deed)
    → Does (fits v eid) t
    → Does (fits v eid) (if is_empty eid then t else ok (presses eid press))
press_unless-Does v eid press t h = elim (Bool-cases (is_empty eid)) [
  | inl e ↦ rw e h
  | inr e ↦ rw e (Does-ok _ (rw e refl))
]

module _ (u : Unicode) (ctx : Context) (w : Around) where
  weather-Does :
      (words : List String) → Does (fits Verb.setweather w.encounter) (weather_values u ctx w words)
  weather-Does [] = Does-hint _
  weather-Does (a ∷ []) = search (does_rules, refl)
  weather-Does (a ∷ (b ∷ [])) = Does-hint _
  weather-Does (a ∷ (b ∷ (c ∷ []))) = Does-ok _ refl
  weather-Does (a ∷ (b ∷ (c ∷ (d ∷ more)))) = Does-hint _

  unblock-Does :
      Does
        (fits Verb.unblock w.encounter)
        (if is_empty w.encounter then ok idle else ok (presses w.encounter Press.unblock))
  unblock-Does = elim (Bool-cases (is_empty w.encounter)) [
    | inl e ↦ rw e (Does-ok _ e)
    | inr e ↦ rw e (Does-ok _ (rw e refl))
  ]

  pub handle-Does : (v : Verb) (rest : String) → Does (fits v w.encounter) (handle u ctx w v rest)
  unfolding handle
  handle-Does Verb.attune rest = attune-Does w.encounter (words_of u.is_space (u.lower rest))
  handle-Does Verb.setweather rest = weather-Does (words_of u.is_space (u.lower rest))
  handle-Does Verb.help rest =
      Does-if _ _ _ (help_word-Does w.encounter u ctx.is_admin rest (parse u rest)) (Does-ok _ refl)
  handle-Does Verb.use_slot rest =
      Does-if _ _ _ (press-Does Verb.use_slot _ _ _ (Does-ok _ refl))
        (Does-if _ _ _ (Does-hint _) (Does-ok _ refl))
  handle-Does Verb.unblock rest = unblock-Does
  handle-Does Verb.dodge rest = press_unless-Does Verb.dodge _ _ _ (Does-hint _)
  handle-Does Verb.block rest = press_unless-Does Verb.block _ _ _ (Does-hint _)
  handle-Does v rest = search (does_rules, refl)

-- ===== src/Auth/Store.antt =====
-- What auth.py keeps in Redis, its limits, and `_count`, `_bump` and `_verify`.
use Prim.Native.Char.{Char, code}
use Prim.Native.String.{[] as empty_text, ◌∷◌ as ◌then◌}
use text.Mathlib.Text.{◌==◌ as str_eq}
use alzendor.Prelude.{
  ℕ, suc, ◌+◌, ◌*◌, String, Bool, true, false, ◌&&◌, ◌||◌, Option, none, some, List, [], ◌∷◌, ltb,
  leb, if◌then◌else◌,
}
use alzendor.Text.{is_empty, chars, counted, chomp}

-- The password hasher: a failure of `verify` is false.
pub record Hasher : Type 0 where
  pub hash : String → String
  pub verify : String → String → Bool
  pub needs_rehash : String → Bool
  pub dummy_hash : String

-- The keys of the counters; their texts have a prefix for each constructor.
pub data Key : Type 0 where
  register_from login_from login_to : String → Key

abbrev pub same_key : Key → Key → Bool
same_key (Key.register_from a) (Key.register_from b) = str_eq a b
same_key (Key.login_from a) (Key.login_from b) = str_eq a b
same_key (Key.login_to a) (Key.login_to b) = str_eq a b
same_key (Key.register_from a) (Key.login_from b) = false
same_key (Key.register_from a) (Key.login_to b) = false
same_key (Key.login_from a) (Key.register_from b) = false
same_key (Key.login_from a) (Key.login_to b) = false
same_key (Key.login_to a) (Key.register_from b) = false
same_key (Key.login_to a) (Key.login_from b) = false

-- A counter, and the second that it expires at.
pub record Counter : Type 0 where
  pub value : ℕ
  pub expires : ℕ

-- ACCOUNT:{pid}: the hash, the name as typed, and when it was registered.
pub record Account : Type 0 where
  pub digest : Option String
  pub name : String
  pub registered : ℕ

pub record Store : Type 0 where
  pub counters : Key → Option Counter
  pub accounts : String → Option Account

abbrev pub put_counter : Key → Option Counter → Store → Store
put_counter key c s = record s { counters = λ k. if same_key key k then c else s.counters k }

abbrev pub put_account : String → Account → Store → Store
put_account pid a s = record s { accounts = λ p. if str_eq pid p then some a else s.accounts p }

-- A counter is gone once the second that it expires at is past.
abbrev pub live : ℕ → Option Counter → Option Counter
live now none = none
live now (some c) = if leb now c.expires then some c else none

abbrev pub value_of : Option Counter → ℕ
value_of none = 0
value_of (some c) = c.value

-- `_count`
abbrev pub count : Store → ℕ → Key → ℕ
count s now key = value_of (live now (s.counters key))

abbrev pub bumped : ℕ → ℕ → Option Counter → Counter
bumped now window none = record { value = 1; expires = now + window }
bumped now window (some c) = record c { value = suc c.value }

-- `_bump`, in one transaction: the window starts where the counter does.
abbrev pub bump : Store → ℕ → Key → ℕ → Store
bump s now key window = put_counter key (some (bumped now window (live now (s.counters key)))) s

abbrev pub password_min : ℕ
password_min = 8

abbrev pub password_max : ℕ
password_max = 128

-- LOGIN_FAILURES_PER_ADDRESS
abbrev pub per_address : ℕ
per_address = 20

-- LOGIN_FAILURES_PER_ACCOUNT
abbrev pub per_account : ℕ
per_account = 10

abbrev pub login_window : ℕ
login_window = 15 * 60

abbrev pub account_window : ℕ
account_window = 60 * 60

abbrev between : ℕ → ℕ → Char → Bool
between a b c = leb a (code c) && leb (code c) b

abbrev is_letter : Char → Bool
is_letter c = between b'a' b'z' c || between b'A' b'Z' c

abbrev starts_name : String → Bool
starts_name empty_text = false
starts_name (c then text) = is_letter c

-- NAME_RE
abbrev pub is_name : String → Bool
is_name name =
    starts_name name && counted 3 16 (λ c. is_letter c || between b'0' b'9' c) (chomp name)

-- RESERVED_NAMES
abbrev pub reserved_names : List String
reserved_names = "admin" ∷ "all" ∷ "everyone" ∷ "me" ∷ "self" ∷ "server" ∷ "someone" ∷ "system" ∷ []

-- stored or self._dummy_hash
abbrev or_dummy : Hasher → Option String → String
or_dummy h none = h.dummy_hash
or_dummy h (some digest) = if is_empty digest then h.dummy_hash else digest

abbrev pub is_stored : Option String → Bool
is_stored none = false
is_stored (some digest) = true

-- `_verify`
abbrev pub verifies : Hasher → Option String → String → Bool
verifies h stored password =
    if ltb password_max (chars password)
    then false
    else h.verify (or_dummy h stored) password && is_stored stored

abbrev pub digest_of : Option Account → Option String
digest_of none = none
digest_of (some a) = a.digest

-- HGET of an account's hash.
abbrev pub stored_hash : Store → String → Option String
stored_hash s pid = digest_of (s.accounts pid)

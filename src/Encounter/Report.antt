-- ===== src/Encounter/Report.antt =====
-- `Owner._reportable` of encounter.py: the consequences of a dot's step, as calls.
pub mod Total
pub mod Step
use alzendor.Prelude.{
  ℕ, String, Bool, true, false, not, ◌&&◌, Option, none, some, List, [], ◌∷◌, ◌++◌, if◌then◌else◌,
  ◌>>=◌,
}
use alzendor.Balance.Dot.{Event, Result}
use alzendor.Encounter.Data.{Incoming, Call, Denied, Passive}

-- The player whose dot it was, whether it has the Berserk Seal, and which NPCs are bosses here.
pub record Reporter : Type 0 where
  pub pid : String
  pub berserk : Bool
  pub is_boss : String → Bool

-- The calls, and whether the player's slot is sealed after them.
pub record Report : Type 0 where
  pub calls : List Call
  pub sealed : Bool

abbrev pub is_perfect_block : Result → Bool
is_perfect_block Result.perfect_block = true
is_perfect_block _ = false

-- What a blow's result comes to: a perfect block of a boss fills its meter.
abbrev pub blow_calls : {F : Type 0} → Reporter → Incoming F → Result → List Call
blow_calls who m result =
    Call.blow m.nid m.n who.pid result
    ∷ (if is_perfect_block result && who.is_boss m.nid then Call.poise m.nid ∷ [] else [])

-- Whether a stagger seals the slot now.
abbrev pub seals : Reporter → Bool → Bool
seals who sealed = who.berserk && not sealed

abbrev pub with_calls : List Call → Report → Report
with_calls calls report = record report { calls = calls ++ report.calls }

-- `none` is an IndexError: more results of blows than attacks that made them.
unfoldable pub reportable :
    {F : Type 0} → Reporter → Bool → List Event → List (Incoming F) → Option Report
reportable who sealed [] mine = some (record { calls = []; sealed = sealed })
reportable who sealed (Event.strike slot target tier hit hits ∷ es) mine = do
  rest ← reportable who sealed es mine
  some (with_calls (Call.strike who.pid slot target tier hit hits ∷ []) rest)
reportable who sealed (Event.blow result staggers ∷ es) [] = none
reportable who sealed (Event.blow result staggers ∷ es) (m ∷ mine) = do
  rest ← reportable who sealed es mine
  some (with_calls (blow_calls who m result) rest)
reportable who sealed (Event.refused what why ∷ es) mine = do
  rest ← reportable who sealed es mine
  some (with_calls (Call.refused who.pid (Denied.of_dot what why) ∷ []) rest)
reportable who sealed (Event.second_wind ∷ es) mine = do
  rest ← reportable who sealed es mine
  some (with_calls (Call.passive who.pid Passive.second_wind ∷ []) rest)
reportable who sealed (Event.rim_stagger ∷ es) mine = do
  rest ← reportable who (if seals who sealed then true else sealed) es mine
  some (with_calls (if seals who sealed then Call.passive who.pid Passive.seal ∷ [] else []) rest)
reportable who sealed (Event.blow_stagger ∷ es) mine = do
  rest ← reportable who (if seals who sealed then true else sealed) es mine
  some (with_calls (if seals who sealed then Call.passive who.pid Passive.seal ∷ [] else []) rest)
reportable who sealed (Event.dodge ∷ es) mine = reportable who sealed es mine
reportable who sealed (Event.recover ∷ es) mine = reportable who sealed es mine
reportable who sealed (Event.steadied ∷ es) mine = reportable who sealed es mine

-- ===== src/Session/Rate.antt =====
-- session.py: `_take_allowance`, and the rate of inputs in `_input`.
pub mod Bounds
use alzendor.Prelude.{
  ℕ, suc, ◌+◌, ◌-◌, ◌*◌, Bool, true, false, not, ◌||◌, List, [], ◌∷◌, ◌++◌, length, ltb, leb,
  if◌then◌else◌,
}
use alzendor.Session.Data.{Session}

-- COMMANDS_PER_SECOND
abbrev pub commands_per_second : ℕ
commands_per_second = 4

-- COMMAND_BURST, in thousandths
abbrev pub command_burst : ℕ
command_burst = 10 * 1000

-- INPUTS_PER_SECOND
abbrev pub inputs_per_second : ℕ
inputs_per_second = 30

abbrev smaller : ℕ → ℕ → ℕ
smaller a b = if ltb b a then b else a

-- `_take_allowance`: the session after it, and whether the message may pass.
unfoldable pub take_allowance : Session → ℕ → Session × Bool
take_allowance s now =
    let filled =
      smaller command_burst (s.allowance + (now - s.last_command) * commands_per_second) in
    if ltb filled 1000
    then (record s { allowance = filled; last_command = now }, false)
    else (record s { allowance = filled - 1000; last_command = now }, true)

-- How many of the messages at these times pass.
unfoldable pub passes : Session → List ℕ → ℕ
unfolding take_allowance
passes s [] = 0
passes s (now ∷ times) =
    let (s', ok) = take_allowance s now in
    let rest = passes s' times in if ok then suc rest else rest

-- [t for t in self._inputs if now - t < 1]
abbrev pub recent : ℕ → List ℕ → List ℕ
recent now [] = []
recent now (t ∷ ts) = let rest = recent now ts in if ltb (now - t) 1000 then t ∷ rest else rest

-- The times of the last second's inputs, and whether one more may pass, in a fight or not.
unfoldable pub take_input : Bool → List ℕ → ℕ → List ℕ × Bool
take_input in_fight inputs now =
    let kept = recent now inputs in
    if leb inputs_per_second (length kept) || not in_fight
    then (kept, false)
    else (kept ++ (now ∷ []), true)

-- The times at which inputs pass, of all that come; `fights` is when the player is in a fight.
unfoldable pub passed : (ℕ → Bool) → List ℕ → List ℕ → List ℕ
unfolding take_input
passed fights inputs [] = []
passed fights inputs (now ∷ times) =
    let (inputs', ok) = take_input (fights now) inputs now in
    let rest = passed fights inputs' times in if ok then now ∷ rest else rest

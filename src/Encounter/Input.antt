-- ===== src/Encounter/Input.antt =====
-- `Owner._take_inbox`, `_input` and `_target` of encounter.py: what the players ask of an encounter.
pub mod Safe
pub mod Inbox
use Prim.Native.String.{[] as empty_text, ◌∷◌ as ◌then◌, len, find, ◌++◌ as ◌joined◌}
use text.Mathlib.Text.{◌==◌ as str_eq, starts_with}
use alzendor.Prelude.{
  ℕ, zero, suc, ◌+◌, ◌-◌, ◌%◌, String, Bool, true, false, not, ◌&&◌, ◌||◌, Option, none, some, List,
  [], ◌∷◌, ◌++◌, ltb, ◌==◌, if◌then◌else◌, ◌>>=◌,
}
use alzendor.Prelude.Int.{ℤ, pos, negsuc, pos_part, ltb_ℤ}
use alzendor.Real.{Real}
use alzendor.Balance.Dot.{Act}
use alzendor.Encounter.Data.{GearInfo, Npc, Denied, Call, Player}
use alzendor.Encounter.Rewind.{Done, Rewound, rewind}
use alzendor.Encounter.Turn.{is_boss}

-- `str.strip` and `str.lower`, which go by Unicode's tables.
pub record Texts : Type 0 where
  pub strip : String → String
  pub lower : String → String

-- `act` of a message, with the fields that it is read with; other values are none.
pub data Asked : Type 0 where
  nothing dodge block unblock release : Asked
  strike : (slot : Option ℤ) (target : Option String) → Asked
  flee : (direction : Option String) → Asked

-- A field that is not an integer is none.
pub record Message : Type 0 where
  pub pid : String
  pub seq : Option ℤ
  pub step : Option ℤ
  pub keys : Option ℤ
  pub act : Asked

-- k & 15
abbrev pub low_bits : ℤ → ℕ
low_bits (pos k) = k % 16
low_bits (negsuc k) = 15 - k % 16

-- text[:n]
abbrev first_chars : ℕ → String → String
first_chars zero text = empty_text
first_chars (suc n) empty_text = empty_text
first_chars (suc n) (c then text) = c then first_chars n text

abbrev contains : String → String → Bool
contains text word = ltb (find text word) (suc (len text))

-- What a strike's target comes to: a name that matched no one is `no_one`.
pub data Aim : Type 0 where
  no_one : Aim
  aimed_at : String → Aim

abbrev aim_player : Option String → Aim
aim_player none = no_one
aim_player (some pid) = aimed_at ("pc:" joined pid)

abbrev aim_npc : Option String → Option String → Aim
aim_npc none player = aim_player player
aim_npc (some nid) player = aimed_at ("npc:" joined nid)

module _ {F : Type 0} where
  -- " name keywords ", and whether it has the word.
  abbrev is_named : Texts → String → (String → String × String) → Npc F → Bool
  is_named texts word words npc =
      let (name, keywords) = words npc.nid in
      str_eq word npc.nid
      || contains (" " joined (texts.lower name joined (" " joined (keywords joined " "))))
          (" " joined (word joined " "))

  abbrev npc_named : Texts → String → (String → String × String) → List (Npc F) → Option String
  npc_named texts word words [] = none
  npc_named texts word words (npc ∷ rest) =
      let others = npc_named texts word words rest in
      if is_named texts word words npc then some npc.nid else others

  abbrev player_named : Texts → String → List (Player F) → Option String
  player_named texts word [] = none
  player_named texts word (p ∷ ps) =
      let others = player_named texts word ps in
      if str_eq word p.pid || str_eq word (texts.lower p.name) then some p.pid else others

  abbrev first_npc : Npc F → List (Npc F) → Npc F
  first_npc npc [] = npc
  first_npc npc (other ∷ rest) = first_npc (if ltb other.join npc.join then other else npc) rest

  abbrev aim_first : List (Npc F) → Aim
  aim_first [] = aimed_at ""
  aim_first (npc ∷ rest) = aimed_at ("npc:" joined (first_npc npc rest).nid)

  -- With nothing named: yourself, for what heals and guards, or the first NPC.
  abbrev aim_unnamed : Option (GearInfo F) → List (Npc F) → Aim
  aim_unnamed none npcs = aim_first npcs
  aim_unnamed (some gear) npcs =
      if str_eq gear.effect "heal" || str_eq gear.effect "guard"
      then aimed_at ""
      else aim_first npcs

  -- `_target`; `words` are the name and the keywords of an NPC.
  unfoldable pub target_of :
      Texts
      → (String → String × String)
      → List (Npc F)
      → List (Player F)
      → Option (GearInfo F)
      → Option String
      → Aim
  target_of texts words npcs players gear none = aim_unnamed gear npcs
  target_of texts words npcs players gear (some target) =
      let word = texts.lower (texts.strip target) in
      if starts_with target "npc:" || starts_with target "pc:"
      then aimed_at (first_chars 100 target)
      else if not (str_eq (texts.strip target) "")
      then aim_npc (npc_named texts word words npcs) (player_named texts word players)
      else aim_unnamed gear npcs

-- isinstance(slot, int) and 1 <= slot <= 3
abbrev pub slot_of : Option ℤ → Option ℕ
slot_of none = none
slot_of (some (negsuc k)) = none
slot_of (some (pos k)) = if ltb 0 k && ltb k 4 then some k else none

-- What a message does: an act for the dot, a refusal, or a change to the player.
pub data Wish : Type 0 where
  done : Act → Wish
  no_target : ℕ → Wish
  run_away : String → Wish
  let_go idle : Wish

abbrev pub strikes : Option ℕ → Aim → Wish
strikes none aim = idle
strikes (some slot) no_one = no_target slot
strikes (some slot) (aimed_at aim) = done (Act.strike slot (some aim))

abbrev runs : Option String → Wish
runs none = idle
runs (some direction) = run_away (first_chars 16 direction)

-- The encounter about the player: the texts, the NPCs' words, the NPCs and the players.
pub record Around (F : Type 0) : Type 0 where
  pub texts : Texts
  pub words : String → String × String
  pub npcs : List (Npc F)
  pub players : List (Player F)

-- A player after an input, and what is reported late.
pub record Answered (F : Type 0) : Type 0 where
  pub player : Player F
  pub late : List Call

module _ {F : Type 0} where
  abbrev gear_in : Player F → Option ℕ → Option (GearInfo F)
  gear_in p none = none
  gear_in p (some slot) = p.gear slot

  unfoldable pub wish : Around F → Player F → Asked → Wish
  unfolding target_of
  wish around p nothing = idle
  wish around p dodge = done Act.dodge
  wish around p block = done Act.block
  wish around p unblock = done Act.unblock
  wish around p release = let_go
  wish around p (strike slot target) =
      let n = slot_of slot in
      strikes n
        (target_of around.texts around.words around.npcs around.players (gear_in p n) target)
  wish around p (flee direction) = runs direction

  abbrev newer : Player F → Option ℤ → Player F
  newer p none = p
  newer p (some seq) = if ltb_ℤ p.seq seq then record p { seq = seq } else p

  -- An act that waits for the next step, unless it was applied to the past.
  abbrev wait_unless : Bool → Player F → Act → Player F
  wait_unless true p a = p
  wait_unless false p a = record p { acts = p.acts ++ (a ∷ []) }

module _ {F : Type 0} ⦃r : Real F⦄ where
  -- What was done at a step, if the client says which: a step before the first is as the first.
  unfoldable pub rewind_to : (String → Bool) → Player F → Option ℤ → Done → Option (Rewound F)
  unfolding rewind
  rewind_to bosses p none what = some (record { player = p; applied = false; late = [] })
  rewind_to bosses p (some at) what = rewind bosses p (pos_part at) what

  -- Held keys.
  unfoldable pub hold : Bool → (String → Bool) → Player F → Option ℤ → ℕ → Option (Answered F)
  unfolding rewind_to
  hold true bosses p at keys = some (record { player = record p { keys = keys }; late = [] })
  hold false bosses p at keys = do
    x ← rewind_to bosses p at (record { keys = some keys; act = none })
    some (record { player = record x.player { keys = keys }; late = x.late })

  unfoldable pub take_keys : (String → Bool) → Player F → Option ℤ → Option ℤ → Option (Answered F)
  unfolding hold
  take_keys bosses p at none = some (record { player = p; late = [] })
  take_keys bosses p at (some k) = hold (low_bits k == p.keys) bosses p at (low_bits k)

  unfoldable pub grant : (String → Bool) → Player F → Option ℤ → Wish → Option (Answered F)
  unfolding rewind_to
  grant bosses p at (done a) = do
    x ← rewind_to bosses p at (record { keys = none; act = some a })
    some (record { player = wait_unless x.applied x.player a; late = x.late })
  grant bosses p at (no_target slot) =
      some (record { player = p; late = Call.refused p.pid (Denied.no_target slot) ∷ [] })
  grant bosses p at (run_away direction) =
      some (record { player = record p { flee = some direction }; late = [] })
  grant bosses p at let_go =
      some
        (record { player = record p { keys = 0; acts = p.acts ++ (Act.unblock ∷ []) }; late = [] })
  grant bosses p at idle = some (record { player = p; late = [] })

  -- `_input`, of the player that it names.
  unfoldable pub input : Around F → Player F → Message → Option (Answered F)
  unfolding take_keys wish grant
  input around p m = do
    a ← take_keys (is_boss around.npcs) (newer p m.seq) m.step m.keys
    b ← grant (is_boss around.npcs) a.player m.step (wish around a.player m.act)
    some (record b { late = a.late ++ b.late })

-- A message of an encounter's channel.
pub data Post : Type 0 where
  end sync : Post
  of_player : Message → Post

-- What the messages change of the owner.
pub record Desk (F : Type 0) : Type 0 where
  pub players : List (Player F)
  pub ended : Bool
  pub need_sync : Bool
  pub late : List Call

module _ {F : Type 0} ⦃r : Real F⦄ where
  -- The players after a message for one of them, and what is reported late; a message for nobody
  -- here changes nothing.
  unfoldable pub answer :
      Around F → Message → List (Player F) → Option (List (Player F) × List Call)
  unfolding input
  answer around m [] = some ([], [])
  answer around m (p ∷ ps) =
      let mine = input around p m >>= (λ a. some (a.player ∷ ps, a.late)) in
      let others = answer around m ps >>= (λ (ps', late). some (p ∷ ps', late)) in
      if str_eq p.pid m.pid then mine else others

  unfoldable pub take_post :
      Texts → (String → String × String) → List (Npc F) → Desk F → Post → Option (Desk F)
  unfolding answer
  take_post texts words npcs d end = some (record d { ended = true })
  take_post texts words npcs d sync = some (record d { need_sync = true })
  take_post texts words npcs d (of_player m) = do
    (ps, late) ←
        answer (record { texts = texts; words = words; npcs = npcs; players = d.players }) m
          d.players
    some (record d { players = ps; late = d.late ++ late })

  -- `_take_inbox`
  unfoldable pub take_inbox :
      Texts → (String → String × String) → List (Npc F) → Desk F → List Post → Option (Desk F)
  unfolding take_post
  take_inbox texts words npcs d [] = some d
  take_inbox texts words npcs d (m ∷ ms) = do
    d' ← take_post texts words npcs d m
    take_inbox texts words npcs d' ms

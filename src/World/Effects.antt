-- ===== src/World/Effects.antt =====
-- world.py: the effects of quests and travel events that `world_graph` looks for, in the seed's JSON.
use alzendor.Prelude.{
  String, Bool, ◌||◌, Option, none, some, List, [], ◌∷◌, ◌++◌, str_eq, if◌then◌else◌,
}

mutual
  -- `leaf` is a number, a Boolean or null.
  pub data Json : Type 0 where
    leaf : Json
    text : String → Json
    arr : Items → Json
    obj : Fields → Json

  pub data Items : Type 0 where
    nil : Items
    cons : Json → Items → Items

  pub data Fields : Type 0 where
    end : Fields
    field : String → Json → Fields → Fields

-- value.get(key)
abbrev pub get : String → Fields → Option Json
get key Fields.end = none
get key (Fields.field k value fs) =
    let rest = get key fs in if str_eq key k then some value else rest

-- A text, as the name of a room.
abbrev pub text_in : Option Json → Option String
text_in none = none
text_in (some Json.leaf) = none
text_in (some (Json.text t)) = some t
text_in (some (Json.arr js)) = none
text_in (some (Json.obj fs)) = none

-- value.get("room") if isinstance(value, dict) else value
abbrev pub room_of : Json → Option String
room_of Json.leaf = none
room_of (Json.text t) = some t
room_of (Json.arr js) = none
room_of (Json.obj fs) = text_in (get "room" fs)

-- An effect that takes a player to a room, if it names one.
pub record Moved : Type 0 where
  pub maroons : Bool
  pub room : Option String

abbrev moved : String → Json → List Moved
moved key value =
    if str_eq key "teleport" || str_eq key "maroon"
    then record { maroons = str_eq key "maroon"; room = room_of value } ∷ []
    else []

-- `effects`
unfoldable mutual
  pub effects : Json → List Moved
  effects Json.leaf = []
  effects (Json.text t) = []
  effects (Json.arr js) = effects_items js
  effects (Json.obj fs) = effects_fields fs

  pub effects_items : Items → List Moved
  effects_items Items.nil = []
  effects_items (Items.cons j js) = effects j ++ effects_items js

  pub effects_fields : Fields → List Moved
  effects_fields Fields.end = []
  effects_fields (Fields.field key value fs) =
      moved key value ++ (effects value ++ effects_fields fs)

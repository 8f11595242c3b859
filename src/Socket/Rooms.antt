-- ===== src/Socket/Rooms.antt =====
-- src/core/socket/room-manager.service.ts: the membership of rooms. Log output is left out.
pub mod Members
pub mod Ids
pub mod Clean
pub mod Refinement
use nestjs_vibe_engine.Prelude.{
  ℕ, String, Bool, true, false, ◌&&◌, ◌||◌, Option, none, some, List, [], ◌∷◌, ◌==◌, nat_eq, leb,
  if◌then◌else◌, all, any,
}
use nestjs_vibe_engine.Js.Map
use nestjs_vibe_engine.Js.Map.{TextMap}
use nestjs_vibe_engine.Js.Set
use nestjs_vibe_engine.Js.Set.{TextSet}
use nestjs_vibe_engine.Js.Text.{codes, key}

pub record RoomManager : Type 0 where
  pub room_members : TextMap TextSet

abbrev pub no_rooms : RoomManager
no_rooms = record { room_members = [] }

-- `members ?? new Set()`
abbrev pub or_empty : Option TextSet → TextSet
or_empty none = []
or_empty (some members) = members

unfoldable pub add_to_room : RoomManager → String → String → RoomManager
add_to_room r room_id socket_id =
    let members = or_empty (Map.get r.room_members room_id) in
    record { room_members = Map.set r.room_members room_id (Set.add members socket_id) }

unfoldable pub remove_from_room : RoomManager → String → String → RoomManager
remove_from_room r room_id socket_id = elim (Map.get r.room_members room_id) [
  | none ↦ r
  | some members ↦
      let members' = Set.delete members socket_id in
      if nat_eq (Set.size members') 0
      then record { room_members = Map.delete r.room_members room_id }
      else record { room_members = Map.set r.room_members room_id members' }
]

unfoldable pub get_room_members : RoomManager → String → TextSet
get_room_members r room_id = or_empty (Map.get r.room_members room_id)

unfoldable pub get_room_member_count : RoomManager → String → ℕ
get_room_member_count r room_id = elim (Map.get r.room_members room_id) [
  | none ↦ 0
  | some members ↦ Set.size members
]

unfoldable pub is_in_room : RoomManager → String → String → Bool
is_in_room r room_id socket_id = elim (Map.get r.room_members room_id) [
  | none ↦ false
  | some members ↦ Set.has members socket_id
]

-- The first loop of `removeFromAllRooms`: the entries with the socket deleted from each set, and
-- `roomsToDelete`.
unfoldable pub sweep : String → TextMap TextSet → TextMap TextSet × List String
sweep socket_id [] = ([], [])
sweep socket_id ((room_id, members) ∷ entries) =
    let (entries', rooms_to_delete) = sweep socket_id entries in
    let members' = Set.delete members socket_id in
    if Set.has members socket_id
    then (
      (room_id, members') ∷ entries',
      if nat_eq (Set.size members') 0 then room_id ∷ rooms_to_delete else rooms_to_delete,
    )
    else ((room_id, members) ∷ entries', rooms_to_delete)

-- The second loop.
unfoldable pub delete_rooms : TextMap TextSet → List String → TextMap TextSet
delete_rooms entries [] = entries
delete_rooms entries (room_id ∷ room_ids) = delete_rooms (Map.delete entries room_id) room_ids

unfoldable pub remove_from_all_rooms : RoomManager → String → RoomManager
remove_from_all_rooms r socket_id =
    let (entries, rooms_to_delete) = sweep socket_id r.room_members in
    record { room_members = delete_rooms entries rooms_to_delete }

-- [a-zA-Z0-9_-]
unfoldable pub is_word_char : ℕ → Bool
is_word_char c =
    (leb b'a' c && leb c b'z')
    || (leb b'A' c && leb c b'Z')
    || (leb b'0' c && leb c b'9')
    || nat_eq c b'_'
    || nat_eq c b'-'

-- `[a-zA-Z0-9_-]+$`
unfoldable pub is_room_name : List ℕ → Bool
is_room_name [] = false
is_room_name (c ∷ cs) = is_word_char c && all is_word_char cs

-- `^prefix` followed by `:[a-zA-Z0-9_-]+$`
unfoldable pub matches_prefix : List ℕ → List ℕ → Bool
matches_prefix [] [] = false
matches_prefix [] (c ∷ cs) = nat_eq c b':' && is_room_name cs
matches_prefix (p ∷ ps) [] = false
matches_prefix (p ∷ ps) (c ∷ cs) = nat_eq p c && matches_prefix ps cs

abbrev pub room_prefixes : List String
room_prefixes = "group" ∷ "channel" ∷ "user" ∷ "broadcast" ∷ []

-- ROOM_ID_PATTERN.test(roomId)
unfoldable pub is_valid_room_id : String → Bool
is_valid_room_id room_id =
    any (λ prefix. matches_prefix (codes prefix) (codes room_id)) room_prefixes

abbrev pub broadcast_all : String
broadcast_all = "broadcast:all"

abbrev pub user_room : String → String
user_room user_id = key "user" user_id

unfoldable pub is_default_room : String → String → Bool
is_default_room room_id user_id = room_id == user_room user_id || room_id == broadcast_all

-- ===== src/Socket/Rooms/Members.antt =====
-- The room manager seen as a relation between rooms and sockets, and the invariant of its map.
use nestjs_vibe_engine.Prelude.{
  String, ◌≡◌, refl, ◌∙◌, Bool, true, false, not, ◌&&◌, ◌||◌, Option, none, some, List, [], ◌∷◌,
  arith, ◌==◌, eq_iff, nat_eq, if◌then◌else◌, Option-cases, inl, inr,
}
use nestjs_vibe_engine.Js.Map
use nestjs_vibe_engine.Js.Map.{TextMap, IsMap}
use nestjs_vibe_engine.Js.Set
use nestjs_vibe_engine.Js.Set.{TextSet, IsSetOf}
use nestjs_vibe_engine.Socket.Rooms.{
  RoomManager, or_empty, add_to_room, remove_from_room, is_in_room, sweep, delete_rooms,
  remove_from_all_rooms,
}

-- After `addToRoom` the members are those before and the new one.
pub is_in_room-add_to_room :
    (r : RoomManager) (room socket room' socket' : String)
    → is_in_room (add_to_room r room socket) room' socket'
      ≡ ((room == room' && socket == socket') || is_in_room r room' socket')
unfolding add_to_room is_in_room Set.has
is_in_room-add_to_room r room socket room' socket' = ground (
  arith,
  Map.get-set r.room_members room room' (Set.add (or_empty (Map.get r.room_members room)) socket),
  Set.has-add (or_empty (Map.get r.room_members room)) socket socket',
  eq_iff room room',
)

size_zero : (s : TextSet) (x : String) → nat_eq (Set.size s) 0 ≡ true → Set.has s x ≡ false
unfolding Set.has
size_zero [] x h = refl
size_zero (y ∷ s) x h = absurd (ground arith)

-- After `removeFromRoom` the members are those before, without the socket in that room.
pub is_in_room-remove_from_room :
    (r : RoomManager) (room socket room' socket' : String)
    → is_in_room (remove_from_room r room socket) room' socket'
      ≡ (not (room == room' && socket == socket') && is_in_room r room' socket')
unfolding remove_from_room is_in_room
is_in_room-remove_from_room r room socket room' socket' =
    elim (Option-cases (Map.get r.room_members room)) [
      | inl e ↦ ground (arith, e, eq_iff room room')
      | inr (members, e) ↦ ground (
        arith,
        e,
        eq_iff room room',
        Map.get-delete r.room_members room room',
        Map.get-set r.room_members room room' (Set.delete members socket),
        Set.has-delete members socket socket',
        size_zero (Set.delete members socket) socket',
      )
    ]

-- What the first loop of `removeFromAllRooms` leaves of a room's set.
unfoldable pub swept : String → Option TextSet → Option TextSet
swept socket none = none
swept socket (some members) =
    if Set.has members socket then some (Set.delete members socket) else some members

-- Whether the loop puts the room on `roomsToDelete`.
unfoldable pub emptied : String → Option TextSet → Bool
emptied socket none = false
emptied socket (some members) =
    Set.has members socket && nat_eq (Set.size (Set.delete members socket)) 0

get-sweep :
    (socket : String) (m : TextMap TextSet) (room : String)
    → Map.get (sweep socket m).0 room ≡ swept socket (Map.get m room)
unfolding sweep swept Map.get
get-sweep socket [] room = refl
get-sweep socket ((k, members) ∷ m) room = ground (arith, get-sweep socket m room)

has-sweep :
    (socket : String) (m : TextMap TextSet) (room : String)
    → IsMap m
    → Set.has (sweep socket m).1 room ≡ emptied socket (Map.get m room)
unfolding sweep emptied Map.get Set.has
has-sweep socket [] room d = refl
has-sweep socket ((k, members) ∷ m) room d =
    ground (arith, has-sweep socket m room d.1, has-sweep socket m k d.1, eq_iff k room)

get-delete_rooms :
    (m : TextMap TextSet) (rooms : List String) (room : String)
    → Map.get (delete_rooms m rooms) room ≡ (if Set.has rooms room then none else Map.get m room)
unfolding delete_rooms Set.has
get-delete_rooms m [] room = refl
get-delete_rooms m (k ∷ ks) room =
    ground (arith, get-delete_rooms (Map.delete m k) ks room, Map.get-delete m k room)

pub get-remove_from_all_rooms :
    (r : RoomManager) (socket room : String)
    → IsMap r.room_members
    → Map.get (remove_from_all_rooms r socket).room_members room ≡ (
        if emptied socket (Map.get r.room_members room)
        then none
        else swept socket (Map.get r.room_members room))
unfolding remove_from_all_rooms
get-remove_from_all_rooms r socket room d =
    get-delete_rooms (sweep socket r.room_members).0 (sweep socket r.room_members).1 room
    ∙ rw (has-sweep socket r.room_members room d, get-sweep socket r.room_members room) refl

-- If each room stands once in the map, the members of every room after `removeFromAllRooms` are those
-- before other than the socket.
pub is_in_room-remove_from_all_rooms :
    (r : RoomManager) (socket room' socket' : String)
    → IsMap r.room_members
    → is_in_room (remove_from_all_rooms r socket) room' socket'
      ≡ (not (socket == socket') && is_in_room r room' socket')
unfolding is_in_room emptied swept
is_in_room-remove_from_all_rooms r socket room' socket' d =
    elim (Option-cases (Map.get r.room_members room')) [
      | inl e ↦ ground (arith, e, get-remove_from_all_rooms r socket room' d)
      | inr (members, e) ↦ ground (
        arith,
        e,
        get-remove_from_all_rooms r socket room' d,
        Set.has-delete members socket socket',
        size_zero (Set.delete members socket) socket',
        eq_iff socket socket',
      )
    ]

-- ===== src/Socket/Rooms/Refinement.antt =====
-- The room manager against its abstract view: a relation between rooms and sockets, which says
-- nothing of the map and of the order in its sets.
use nestjs_vibe_engine.Prelude.{
  String, ◌≡◌, refl, ap, ◌∙◌, Bool, false, not, ◌&&◌, ◌||◌, List, [], ◌∷◌, ◌==◌,
}
use nestjs_vibe_engine.Js.Map
use nestjs_vibe_engine.Socket.Rooms.{
  RoomManager, no_rooms, add_to_room, remove_from_room, remove_from_all_rooms, is_in_room,
}
use nestjs_vibe_engine.Socket.Rooms.Members.{
  is_in_room-add_to_room, is_in_room-remove_from_room, is_in_room-remove_from_all_rooms,
}
use nestjs_vibe_engine.Socket.Rooms.Clean.{
  IsClean, IsClean-no_rooms, add_to_room-IsClean, remove_from_room-IsClean,
  remove_from_all_rooms-IsClean,
}

-- A call of one of the three methods that change the rooms.
pub data Call : Type 0 where
  add remove : (room_id socket_id : String) → Call
  remove_all : (socket_id : String) → Call

abbrev pub perform : Call → RoomManager → RoomManager
perform (add room_id socket_id) r = add_to_room r room_id socket_id
perform (remove room_id socket_id) r = remove_from_room r room_id socket_id
perform (remove_all socket_id) r = remove_from_all_rooms r socket_id

abbrev pub perform_all : List Call → RoomManager → RoomManager
perform_all [] r = r
perform_all (call ∷ calls) r = perform_all calls (perform call r)

abbrev pub Membership : Type 0
Membership = String → String → Bool

abbrev pub nobody : Membership
nobody room_id socket_id = false

-- What a call does to the relation.
abbrev pub described : Call → Membership → Membership
described (add room_id socket_id) f room' socket' =
    (room_id == room' && socket_id == socket') || f room' socket'
described (remove room_id socket_id) f room' socket' =
    not (room_id == room' && socket_id == socket') && f room' socket'
described (remove_all socket_id) f room' socket' = not (socket_id == socket') && f room' socket'

abbrev pub described_all : List Call → Membership → Membership
described_all [] f = f
described_all (call ∷ calls) f = described_all calls (described call f)

-- The manager's map is well formed, and `isInRoom` answers as the relation.
pub record Refines (r : RoomManager) (f : Membership) : Type 0 where
  pub is_clean : IsClean r
  pub is_in : (room_id socket_id : String) → is_in_room r room_id socket_id ≡ f room_id socket_id

perform-Refines :
    (call : Call) (r : RoomManager) (f : Membership)
    → Refines r f
    → Refines (perform call r) (described call f)
perform-Refines (add room_id socket_id) r f h = record {
  is_clean = add_to_room-IsClean r room_id socket_id h.is_clean;
  is_in = λ room' socket'.
      is_in_room-add_to_room r room_id socket_id room' socket'
      ∙ ap (λ b. (room_id == room' && socket_id == socket') || b) (h.is_in room' socket');
}
perform-Refines (remove room_id socket_id) r f h = record {
  is_clean = remove_from_room-IsClean r room_id socket_id h.is_clean;
  is_in = λ room' socket'.
      is_in_room-remove_from_room r room_id socket_id room' socket'
      ∙ ap (λ b. not (room_id == room' && socket_id == socket') && b) (h.is_in room' socket');
}
perform-Refines (remove_all socket_id) r f h = record {
  is_clean = remove_from_all_rooms-IsClean r socket_id h.is_clean;
  is_in = λ room' socket'.
      is_in_room-remove_from_all_rooms r socket_id room' socket' h.is_clean.is_map
      ∙ ap (λ b. not (socket_id == socket') && b) (h.is_in room' socket');
}

perform_all-Refines :
    (calls : List Call) (r : RoomManager) (f : Membership)
    → Refines r f
    → Refines (perform_all calls r) (described_all calls f)
perform_all-Refines [] r f h = h
perform_all-Refines (call ∷ calls) r f h =
    perform_all-Refines calls (perform call r) (described call f) (perform-Refines call r f h)

-- After any calls from the start, the manager's map is well formed, with no empty room, and
-- `isInRoom` answers what the calls say of the relation.
pub rooms-Refines :
    (calls : List Call) → Refines (perform_all calls no_rooms) (described_all calls nobody)
unfolding is_in_room Map.get
rooms-Refines calls =
    perform_all-Refines calls no_rooms nobody
      (record { is_clean = IsClean-no_rooms; is_in = λ room_id socket_id. refl })

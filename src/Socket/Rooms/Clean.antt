-- ===== src/Socket/Rooms/Clean.antt =====
-- The invariant of the room map: the map keeps no empty room and no member twice.
use nestjs_vibe_engine.Prelude.{
  ◌+◌, ◌<◌, String, ◌≡◌, refl, ◌↔◌, Bool, true, false, Option, none, some, List, [], ◌∷◌, arith,
  ◌==◌, eq_refl, nat_eq, if◌then◌else◌, Option-cases, Bool-cases, inl, inr,
}
use nestjs_vibe_engine.Js.Map
use nestjs_vibe_engine.Js.Map.{TextMap, IsMap}
use nestjs_vibe_engine.Js.Set
use nestjs_vibe_engine.Js.Set.{TextSet, IsSetOf}
use nestjs_vibe_engine.Socket.Rooms.{
  RoomManager, no_rooms, or_empty, add_to_room, remove_from_room, get_room_member_count, is_in_room,
  sweep, delete_rooms, remove_from_all_rooms,
}
use nestjs_vibe_engine.Socket.Rooms.Members.{swept, emptied, get-remove_from_all_rooms}

abbrev pub IsFilled : Option TextSet → Type 0
IsFilled none = Unit
IsFilled (some members) = IsSetOf members × (0 < Set.size members)

-- Each room stands once, has a member at least, and has each member once.
pub record IsClean (r : RoomManager) : Type 0 where
  pub is_map : IsMap r.room_members
  pub filled : (room : String) → IsFilled (Map.get r.room_members room)

pub IsFilled-add :
    (m : Option TextSet) (x : String) → IsFilled m → IsFilled (some (Set.add (or_empty m) x))
unfolding Set.add
IsFilled-add none x f = (Set.add-IsSetOf [] x tt, omega (arith, Set.size-add [] x))
IsFilled-add (some s) x f = (Set.add-IsSetOf s x f.0, ground (arith, Set.size-add s x))

pub IsFilled-if :
    (b : Bool) (m n : Option TextSet) → IsFilled m → IsFilled n → IsFilled (if b then m else n)
IsFilled-if true m n f g = f
IsFilled-if false m n f g = g

pub add_to_room-IsClean :
    (r : RoomManager) (room socket : String) → IsClean r → IsClean (add_to_room r room socket)
unfolding add_to_room
add_to_room-IsClean r room socket c = record {
  is_map = Map.set-IsMap r.room_members room _ c.is_map;
  filled = λ k. rw Map.get-set (
      IsFilled-if (room == k) _ _
        (IsFilled-add (Map.get r.room_members room) socket (c.filled room)) (c.filled k));
}

-- The set that is left is stored only if it has members.
pub IsFilled-delete :
    (s : TextSet) (x : String)
    → IsSetOf s
    → nat_eq (Set.size (Set.delete s x)) 0 ≡ false
    → IsFilled (some (Set.delete s x))
IsFilled-delete s x d h = (Set.delete-IsSetOf s x d, ground arith)

pub remove_from_room-IsClean :
    (r : RoomManager) (room socket : String) → IsClean r → IsClean (remove_from_room r room socket)
unfolding remove_from_room
remove_from_room-IsClean r room socket c = elim (Option-cases (Map.get r.room_members room)) [
  | inl e ↦ rw (e, remove_from_room) c
  | inr (members, e) ↦
      let f : IsFilled (some members) = rw e at (c.filled room) in
      elim (Bool-cases (nat_eq (Set.size (Set.delete members socket)) 0)) [
        | inl z ↦
            rw (e, remove_from_room)
              (rw z (record {
                is_map = Map.delete-IsMap r.room_members room c.is_map;
                filled = λ k. rw Map.get-delete (IsFilled-if (room == k) none _ tt (c.filled k));
              }))
        | inr z ↦
            rw (e, remove_from_room)
              (rw z (record {
                is_map = Map.set-IsMap r.room_members room _ c.is_map;
                filled = λ k. rw Map.get-set (
                    IsFilled-if (room == k) _ _ (IsFilled-delete members socket f.0 z)
                      (c.filled k));
              }))
      ]
]

IsFilled-swept :
    (socket : String) (m : Option TextSet)
    → IsFilled m
    → IsFilled (if emptied socket m then none else swept socket m)
unfolding swept emptied
IsFilled-swept socket none f = tt
IsFilled-swept socket (some members) f = ground (arith, IsFilled-delete members socket f.0)

delete_rooms-IsMap :
    (m : TextMap TextSet) (rooms : List String) → IsMap m → IsMap (delete_rooms m rooms)
unfolding delete_rooms
delete_rooms-IsMap m [] d = d
delete_rooms-IsMap m (k ∷ ks) d = delete_rooms-IsMap (Map.delete m k) ks (Map.delete-IsMap m k d)

sweep-get-none :
    (socket : String) (m : TextMap TextSet) (k : String)
    → Map.get m k ≡ none
    → Map.get (sweep socket m).0 k ≡ none
unfolding sweep Map.get
sweep-get-none socket [] k e = refl
sweep-get-none socket ((j, members) ∷ m) k e = ground (arith, sweep-get-none socket m k)

sweep-IsMap : (socket : String) (m : TextMap TextSet) → IsMap m → IsMap (sweep socket m).0
unfolding sweep
sweep-IsMap socket [] d = tt
sweep-IsMap socket ((j, members) ∷ m) d =
    ground (arith, sweep-IsMap socket m d.1, sweep-get-none socket m j d.0)

pub remove_from_all_rooms-IsClean :
    (r : RoomManager) (socket : String) → IsClean r → IsClean (remove_from_all_rooms r socket)
remove_from_all_rooms-IsClean r socket c = record {
  is_map = is_map;
  filled = λ k.
      rw (get-remove_from_all_rooms r socket k c.is_map)
        (IsFilled-swept socket (Map.get r.room_members k) (c.filled k));
}
  where
    is_map : IsMap (remove_from_all_rooms r socket).room_members
    is_map =
        unfold remove_from_all_rooms in
        delete_rooms-IsMap _ _ (sweep-IsMap socket r.room_members c.is_map)

-- Adding a socket raises the count by one, or leaves it if the socket was in the room.
pub get_room_member_count-add_to_room :
    (r : RoomManager) (room socket : String)
    → get_room_member_count (add_to_room r room socket) room ≡ (
        if is_in_room r room socket
        then get_room_member_count r room
        else get_room_member_count r room + 1)
unfolding get_room_member_count add_to_room is_in_room Set.has
get_room_member_count-add_to_room r room socket = ground (
  arith,
  eq_refl room,
  Map.get-set r.room_members room room (Set.add (or_empty (Map.get r.room_members room)) socket),
  Set.size-add (or_empty (Map.get r.room_members room)) socket,
)

-- In a clean map, removing a socket lowers the count by one if the socket was in the room, and leaves
-- it otherwise.
pub get_room_member_count-remove_from_room :
    (r : RoomManager) (room socket : String)
    → IsClean r
    → get_room_member_count (remove_from_room r room socket) room
        + (if is_in_room r room socket then 1 else 0)
      ≡ get_room_member_count r room
unfolding get_room_member_count remove_from_room is_in_room
get_room_member_count-remove_from_room r room socket c =
    elim (Option-cases (Map.get r.room_members room)) [
      | inl e ↦ ground (arith, e)
      | inr (members, e) ↦
          let f : IsFilled (some members) = rw e at (c.filled room) in
          ground (
            arith,
            e,
            eq_refl room,
            Map.get-set r.room_members room room (Set.delete members socket),
            Map.get-delete r.room_members room room,
            Set.size-delete members socket f.0,
          )
    ]

has_some : (s : TextSet) → 0 < Set.size s → (x : String) × (Set.has s x ≡ true)
unfolding Set.has
has_some [] h = absurd (omega arith)
has_some (x ∷ s) h = (x, ground (arith, eq_refl x))

-- A clean map has an entry for a room exactly when some socket is in the room.
pub get-eq-none_iff :
    (r : RoomManager) (room : String)
    → IsClean r
    → (Map.get r.room_members room ≡ none) ↔ ((socket : String) → is_in_room r room socket ≡ false)
unfolding is_in_room
get-eq-none_iff r room c = (
  λ e socket. ground (arith, e),
  λ absent. elim (Option-cases (Map.get r.room_members room)) [
    | inl e ↦ e
    | inr (members, e) ↦
        let f : IsFilled (some members) = rw e at (c.filled room) in
        let (x, h) = has_some members f.1 in absurd (ground (arith, e, absent x))
  ],
)

pub IsClean-no_rooms : IsClean no_rooms
unfolding Map.get
IsClean-no_rooms = record { is_map = tt; filled = λ room. tt }

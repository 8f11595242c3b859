-- ===== src/Socket/Tests.antt =====
-- Tests of the gateway and of the rooms at concrete events.
use nestjs_vibe_engine.Prelude.{
  ◌≡◌, refl, ◌↔◌, ◌⊎◌, true, not, ◌&&◌, none, some, ◌==◌, List, [], ◌∷◌,
}
use nestjs_vibe_engine.Js.Map
use nestjs_vibe_engine.Js.Set
use nestjs_vibe_engine.Js.Text.{key}
use nestjs_vibe_engine.Socket.Rooms.{
  no_rooms, add_to_room, is_in_room, get_room_member_count, is_valid_room_id, is_default_room,
  matches_prefix, is_room_name, is_word_char,
}
use nestjs_vibe_engine.Socket.Rooms.Members.{is_in_room-add_to_room}
use nestjs_vibe_engine.Socket.Rooms.Refinement.{
  Call, add, remove, remove_all, perform_all, described_all, nobody, Refines, rooms-Refines,
}
use nestjs_vibe_engine.Socket.Rooms.Ids.{IsRoomWith, is_valid_room_id_iff}
use nestjs_vibe_engine.Socket.Gateway.{
  Socket, Gateway, handle_connection, handle_disconnect, handle_room_join, handle_room_leave,
  force_logout_user, track, joined, left,
}
use nestjs_vibe_engine.Socket.Gateway.Tracking.{is_owner, has_socket, IsConsistent}
use nestjs_vibe_engine.Socket.Gateway.Reachable.{
  start, Reach, here, next, connects, joins, deliver, Reach-IsConsistent,
  force_logout_user_disconnects, disconnect_overtakes, start-IsConsistent,
}

abbrev ann_phone : Socket
ann_phone = record { id = "s1"; user_id = "ann"; session_id = "x" }

abbrev one_client : Gateway
one_client = (handle_connection start "s1" (some ann_phone) "noon").0

phone_is_new : Map.get start.connected_clients "s1" ≡ none
unfolding Map.get
phone_is_new = refl

phone_connects : Reach start one_client
phone_connects = next here (connects ann_phone "noon" phone_is_new)

phone_is_ann's : is_owner one_client "s1" "ann" ≡ true
unfolding is_owner handle_connection track Map.get Map.set
phone_is_ann's = refl

abbrev in_group : Gateway
in_group = (handle_room_join one_client "group:team" ann_phone "noon").0

Reach-IsConsistent_example : IsConsistent in_group
Reach-IsConsistent_example =
    Reach-IsConsistent (next phone_connects (joins "group:team" ann_phone "noon" phone_is_ann's))

consistent : IsConsistent one_client
consistent = Reach-IsConsistent phone_connects

force_logout_user_disconnects_example :
    has_socket
      (deliver one_client (force_logout_user one_client (λ id. true) "ann" "LOGOUT" none "one"))
      "ann"
      "s1"
    ≡ (has_socket one_client "ann" "s1" && not ("ann" == "ann" && true))
force_logout_user_disconnects_example =
    force_logout_user_disconnects one_client (λ id. true) "ann" "LOGOUT" none "one" "ann" "s1"
      consistent

disconnect_overtakes_example :
    is_owner (track (handle_disconnect start "s1") ann_phone "noon") "s1" "ann" ≡ true
unfolding Map.get
disconnect_overtakes_example =
    (disconnect_overtakes start ann_phone "noon" start-IsConsistent refl).1

join_accepted :
    (handle_room_join one_client "group:team" ann_phone "noon").2 ≡ joined "group:team" 1
unfolding handle_room_join handle_connection track add_to_room get_room_member_count
    is_valid_room_id matches_prefix is_room_name is_word_char key Map.get Map.set Set.add
join_accepted = refl

leave_accepted : (handle_room_leave in_group "group:team" ann_phone "one").2 ≡ left "group:team"
unfolding handle_room_leave is_default_room key
leave_accepted = refl

is_valid_room_id_iff_example : (is_valid_room_id "group:a-1" ≡ true) ↔ (
    IsRoomWith "group" "group:a-1"
    ⊎ IsRoomWith "channel" "group:a-1"
    ⊎ IsRoomWith "user" "group:a-1"
    ⊎ IsRoomWith "broadcast" "group:a-1")
is_valid_room_id_iff_example = is_valid_room_id_iff "group:a-1"

is_in_room-add_to_room_example :
    is_in_room (add_to_room no_rooms "group:a" "s1") "group:a" "s1" ≡ true
unfolding is_in_room Map.get
is_in_room-add_to_room_example = is_in_room-add_to_room no_rooms "group:a" "s1" "group:a" "s1"

abbrev some_calls : List Call
some_calls = add "group:a" "s" ∷ add "group:b" "s" ∷ remove "group:a" "s" ∷ remove_all "s" ∷ []

rooms-Refines_example : Refines (perform_all some_calls no_rooms) (described_all some_calls nobody)
rooms-Refines_example = rooms-Refines some_calls

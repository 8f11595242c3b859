-- ===== src/Socket/Gateway.antt =====
-- src/core/socket/socket.gateway.ts: the tracking of connected clients, and the handlers of events.
-- Socket.IO is outside: a handler returns the calls that it makes of it, in order. A socket is its
-- `id` with the `data.userId` and `data.sessionId` that authentication has set; `now` is the text of
-- `new Date().toISOString()`. Log output is left out.
pub mod Tracking
pub mod Leaving
pub mod Joining
pub mod Reachable
use nestjs_vibe_engine.Prelude.{
  ℕ, String, Bool, true, false, Option, none, some, List, [], ◌∷◌, ◌++◌, map, nat_eq, is_some,
  if◌then◌else◌,
}
use nestjs_vibe_engine.Js.Map
use nestjs_vibe_engine.Js.Map.{TextMap}
use nestjs_vibe_engine.Js.Set
use nestjs_vibe_engine.Js.Set.{TextSet}
use nestjs_vibe_engine.Socket.Rooms.{
  RoomManager, add_to_room, remove_from_room, remove_from_all_rooms, get_room_member_count,
  is_in_room, is_valid_room_id, is_default_room, user_room, broadcast_all, or_empty,
}

pub record Socket : Type 0 where
  pub id : String
  pub user_id : String
  pub session_id : String

pub record ConnectedClient : Type 0 where
  pub socket_id : String
  pub user_id : String
  pub session_id : String
  pub connected_at : String

pub record Gateway : Type 0 where
  pub connected_clients : TextMap ConnectedClient
  pub user_sockets : TextMap TextSet
  pub room_manager : RoomManager

pub record NotificationPayload : Type 0 where
  pub type : String
  pub title : String
  pub message : String
  -- `data`, by its text
  pub extra : Option String

pub record DeviceInfo : Type 0 where
  pub device_type : Option String
  pub browser : Option String
  pub ip : Option String

pub data Event : Type 0 where
  connected : (socket_id user_id : String) → (rooms : List String) → Event
  user_joined user_left : (room_id user_id socket_id timestamp : String) → Event
  chat_message : (message_id room_id user_id content timestamp : String) → Event
  notification : NotificationPayload → (timestamp : String) → Event
  force_logout :
      (reason : String) → (new_device_info : Option DeviceInfo) → (timestamp : String) → Event

-- A call of Socket.IO.
pub data Call : Type 0 where
  join leave : (socket_id room_id : String) → Call
  -- socket.emit: to this socket alone
  emit : (socket_id : String) → Event → Call
  -- socket.to(room).emit: to the room's other sockets
  emit_to_others : (socket_id room_id : String) → Event → Call
  -- server.to(room).emit
  emit_to_room : (room_id : String) → Event → Call
  disconnect : (socket_id : String) → Call

-- `userSockets.get(userId)`, created if it is missing, with the socket added.
unfoldable pub add_user_socket : TextMap TextSet → String → String → TextMap TextSet
add_user_socket m user_id socket_id =
    Map.set m user_id (Set.add (or_empty (Map.get m user_id)) socket_id)

-- What `handleConnection` records once the socket has joined its default rooms.
unfoldable pub track : Gateway → Socket → String → Gateway
track g s now =
    let rooms = add_to_room g.room_manager (user_room s.user_id) s.id in
    record {
      connected_clients = Map.set g.connected_clients s.id (record {
        socket_id = s.id;
        user_id = s.user_id;
        session_id = s.session_id;
        connected_at = now;
      });
      user_sockets = add_user_socket g.user_sockets s.user_id s.id;
      room_manager = add_to_room rooms broadcast_all s.id;
    }

-- `none` for a socket that `SocketAuthAdapter.authenticate` refuses.
unfoldable pub handle_connection : Gateway → String → Option Socket → String → Gateway × List Call
handle_connection g socket_id none now = (g, disconnect socket_id ∷ [])
handle_connection g socket_id (some s) now = (
  track g s now,
  join s.id (user_room s.user_id)
      ∷ join s.id broadcast_all
      ∷ emit s.id (connected s.id s.user_id (user_room s.user_id ∷ broadcast_all ∷ []))
      ∷ [],
)

-- The set without the socket; a set that becomes empty is deleted.
unfoldable pub remove_user_socket :
    TextMap TextSet → Option ConnectedClient → String → TextMap TextSet
remove_user_socket m none socket_id = m
remove_user_socket m (some info) socket_id = elim (Map.get m info.user_id) [
  | none ↦ m
  | some sockets ↦
      let sockets' = Set.delete sockets socket_id in
      if nat_eq (Set.size sockets') 0
      then Map.delete m info.user_id
      else Map.set m info.user_id sockets'
]

unfoldable pub handle_disconnect : Gateway → String → Gateway
handle_disconnect g socket_id = record {
  connected_clients = Map.delete g.connected_clients socket_id;
  user_sockets =
      remove_user_socket g.user_sockets (Map.get g.connected_clients socket_id) socket_id;
  room_manager = remove_from_all_rooms g.room_manager socket_id;
}

pub data JoinReply : Type 0 where
  joined : (room_id : String) → (members : ℕ) → JoinReply
  invalid_room : (room_id : String) → JoinReply

unfoldable pub handle_room_join :
    Gateway → String → Socket → String → Gateway × List Call × JoinReply
handle_room_join g room_id s now =
    if is_valid_room_id room_id
    then (let rooms = add_to_room g.room_manager room_id s.id in
        (
          record g { room_manager = rooms },
          join s.id room_id
              ∷ emit_to_others s.id room_id (user_joined room_id s.user_id s.id now)
              ∷ [],
          joined room_id (get_room_member_count rooms room_id),
        ))
    else (g, [], invalid_room room_id)

pub data LeaveReply : Type 0 where
  left : (room_id : String) → LeaveReply
  default_room : (room_id : String) → LeaveReply

unfoldable pub handle_room_leave :
    Gateway → String → Socket → String → Gateway × List Call × LeaveReply
handle_room_leave g room_id s now =
    if is_default_room room_id s.user_id then (g, [], default_room room_id) else (
      record g { room_manager = remove_from_room g.room_manager room_id s.id },
      leave s.id room_id ∷ emit_to_others s.id room_id (user_left room_id s.user_id s.id now) ∷ [],
      left room_id,
    )

pub data ChatReply : Type 0 where
  sent : (message_id : String) → ChatReply
  not_a_member : ChatReply

-- `message_id` is what `crypto.randomUUID()` gives.
unfoldable pub handle_chat_send :
    Gateway → String → String → Socket → String → String → List Call × ChatReply
handle_chat_send g room_id content s message_id now =
    if is_in_room g.room_manager room_id s.id
    then (
      emit_to_others s.id room_id (chat_message message_id room_id s.user_id content now) ∷ [],
      sent message_id,
    )
    else ([], not_a_member)

unfoldable pub send_notification_to_user : String → NotificationPayload → String → List Call
send_notification_to_user user_id n now = emit_to_room (user_room user_id) (notification n now) ∷ []

unfoldable pub broadcast_notification : NotificationPayload → String → List Call
broadcast_notification n now = emit_to_room broadcast_all (notification n now) ∷ []

-- The loop of `forceLogoutUser`; `live` tells which ids `server.sockets.sockets` has.
unfoldable pub disconnect_live : (String → Bool) → TextSet → List Call
disconnect_live live [] = []
disconnect_live live (socket_id ∷ ids) =
    let rest = disconnect_live live ids in
    if live socket_id then disconnect socket_id ∷ rest else rest

unfoldable pub force_logout_user :
    Gateway → (String → Bool) → String → String → Option DeviceInfo → String → List Call
force_logout_user g live user_id reason info now =
    emit_to_room (user_room user_id) (force_logout reason info now)
    ∷ disconnect_live live (or_empty (Map.get g.user_sockets user_id))

-- ===== src/Socket/Gateway/Tracking.antt =====
-- The gateway's three views of who is connected agree, and every handler keeps them so.
use nestjs_vibe_engine.Prelude.{
  String, ◌≡◌, Bool, true, false, ◌&&◌, ◌||◌, Option, none, some, arith, ◌==◌, eq_iff, eq_refl,
  if◌then◌else◌, is_some,
}
use nestjs_vibe_engine.Js.Map
use nestjs_vibe_engine.Js.Map.{TextMap, IsMap}
use nestjs_vibe_engine.Js.Set
use nestjs_vibe_engine.Js.Set.{TextSet, IsSetOf}
use nestjs_vibe_engine.Socket.Rooms.{is_in_room, user_room, broadcast_all, or_empty, add_to_room}
use nestjs_vibe_engine.Socket.Rooms.Members.{is_in_room-add_to_room}
use nestjs_vibe_engine.Socket.Rooms.Clean.{
  IsClean, IsFilled, IsFilled-add, IsFilled-if, add_to_room-IsClean,
}
use nestjs_vibe_engine.Socket.Gateway.{Socket, ConnectedClient, Gateway, track, add_user_socket}

-- Whether the client entry of the socket belongs to the user.
is_client_of : Option ConnectedClient → String → Bool
is_client_of none user_id = false
is_client_of (some info) user_id = info.user_id == user_id

unfoldable pub is_owner : Gateway → String → String → Bool
unfolding is_client_of
is_owner g socket_id user_id = is_client_of (Map.get g.connected_clients socket_id) user_id

-- Whether `userSockets` lists the socket under the user.
unfoldable pub has_socket : Gateway → String → String → Bool
has_socket g user_id socket_id = Set.has (or_empty (Map.get g.user_sockets user_id)) socket_id

pub record IsConsistent (g : Gateway) : Type 0 where
  pub rooms : IsClean g.room_manager
  pub filled : (user_id : String) → IsFilled (Map.get g.user_sockets user_id)
  pub agree :
      (user_id socket_id : String) → has_socket g user_id socket_id ≡ is_owner g socket_id user_id
  pub in_user_room :
      (user_id socket_id : String)
      → is_owner g socket_id user_id ≡ true
      → is_in_room g.room_manager (user_room user_id) socket_id ≡ true
  pub in_broadcast :
      (user_id socket_id : String)
      → is_owner g socket_id user_id ≡ true
      → is_in_room g.room_manager broadcast_all socket_id ≡ true
  pub members :
      (room_id socket_id : String)
      → is_in_room g.room_manager room_id socket_id ≡ true
      → is_some (Map.get g.connected_clients socket_id) ≡ true

pub is_owner-track :
    (g : Gateway) (s : Socket) (now socket_id user_id : String)
    → is_owner (track g s now) socket_id user_id
      ≡ (if s.id == socket_id then s.user_id == user_id else is_owner g socket_id user_id)
unfolding is_owner track
is_owner-track g s now socket_id user_id = ground (
  arith,
  Map.get-set g.connected_clients s.id socket_id (record {
    socket_id = s.id;
    user_id = s.user_id;
    session_id = s.session_id;
    connected_at = now;
  }),
)

has_socket-track :
    (g : Gateway) (s : Socket) (now user_id socket_id : String)
    → has_socket (track g s now) user_id socket_id
      ≡ ((s.user_id == user_id && s.id == socket_id) || has_socket g user_id socket_id)
unfolding has_socket track add_user_socket
has_socket-track g s now user_id socket_id = ground (
  arith,
  Map.get-set g.user_sockets s.user_id user_id
      (Set.add (or_empty (Map.get g.user_sockets s.user_id)) s.id),
  Set.has-add (or_empty (Map.get g.user_sockets s.user_id)) s.id socket_id,
  eq_iff s.user_id user_id,
)

pub is_in_room-track :
    (g : Gateway) (s : Socket) (now room_id socket_id : String)
    → is_in_room (track g s now).room_manager room_id socket_id ≡ (
        ((user_room s.user_id == room_id || broadcast_all == room_id) && s.id == socket_id)
        || is_in_room g.room_manager room_id socket_id)
unfolding track
is_in_room-track g s now room_id socket_id = ground (
  arith,
  is_in_room-add_to_room (add_to_room g.room_manager (user_room s.user_id) s.id) broadcast_all s.id
      room_id socket_id,
  is_in_room-add_to_room g.room_manager (user_room s.user_id) s.id room_id socket_id,
)

is_some-track :
    (g : Gateway) (s : Socket) (now socket_id : String)
    → is_some (Map.get (track g s now).connected_clients socket_id)
      ≡ (s.id == socket_id || is_some (Map.get g.connected_clients socket_id))
unfolding track
is_some-track g s now socket_id = rw Map.get-set (ground arith)

track-agree :
    (g : Gateway) (s : Socket) (now user_id socket_id : String)
    → Map.get g.connected_clients s.id ≡ none
    → has_socket g user_id socket_id ≡ is_owner g socket_id user_id
    → has_socket (track g s now) user_id socket_id ≡ is_owner (track g s now) socket_id user_id
unfolding is_owner
track-agree g s now user_id socket_id fresh h = ground (
  arith,
  has_socket-track g s now user_id socket_id,
  is_owner-track g s now socket_id user_id,
  eq_iff s.id socket_id,
  h,
  fresh,
)

-- Tracking a socket that is not tracked yet keeps the views in agreement.
pub track-IsConsistent :
    (g : Gateway) (s : Socket) (now : String)
    → Map.get g.connected_clients s.id ≡ none
    → IsConsistent g
    → IsConsistent (track g s now)
track-IsConsistent g s now fresh c = record {
  rooms = unfold track in add_to_room-IsClean _ _ _ (add_to_room-IsClean _ _ _ c.rooms);
  filled = filled;
  agree = λ u t. track-agree g s now u t fresh (c.agree u t);
  in_user_room = λ u t h. ground (
    arith,
    is_in_room-track g s now (user_room u) t,
    is_owner-track g s now t u,
    c.in_user_room u t,
    eq_iff s.user_id u,
    eq_iff (user_room s.user_id) (user_room u),
  );
  in_broadcast = λ u t h. ground (
    arith,
    is_in_room-track g s now broadcast_all t,
    is_owner-track g s now t u,
    c.in_broadcast u t,
    eq_refl broadcast_all,
  );
  members =
      λ r t h. ground (arith, is_in_room-track g s now r t, is_some-track g s now t, c.members r t);
}
  where
    filled : (u : String) → IsFilled (Map.get (track g s now).user_sockets u)
    filled u =
        unfold track add_user_socket in
        rw Map.get-set (
          IsFilled-if (s.user_id == u) _ _
            (IsFilled-add (Map.get g.user_sockets s.user_id) s.id (c.filled s.user_id))
            (c.filled u))

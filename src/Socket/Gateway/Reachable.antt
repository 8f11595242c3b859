-- ===== src/Socket/Gateway/Reachable.antt =====
-- The gateway under any history of events, and the events that `forceLogoutUser` sets off.
use nestjs_vibe_engine.Prelude.{
  String, ◌≡◌, refl, ◌∙◌, ◌⊎◌, Bool, true, false, not, ◌&&◌, Option, none, some, List, [], ◌∷◌,
  arith, ◌==◌, eq_iff, eq_refl, Bool-cases, inl, inr,
}
use nestjs_vibe_engine.Js.Map
use nestjs_vibe_engine.Js.Set
use nestjs_vibe_engine.Js.Set.{TextSet}
use nestjs_vibe_engine.Socket.Rooms.{no_rooms, or_empty, is_in_room, broadcast_all}
use nestjs_vibe_engine.Socket.Rooms.Clean.{IsClean-no_rooms}
use nestjs_vibe_engine.Socket.Gateway.{
  DeviceInfo, Socket, Gateway, Call, disconnect, track, handle_connection, handle_disconnect,
  handle_room_join, handle_room_leave, disconnect_live, force_logout_user,
}
use nestjs_vibe_engine.Socket.Gateway.Tracking.{
  is_owner, has_socket, IsConsistent, track-IsConsistent, is_owner-track, is_in_room-track,
}
use nestjs_vibe_engine.Socket.Gateway.Leaving.{
  has_socket-handle_disconnect, handle_disconnect-IsConsistent, handle_disconnect_forgets,
}
use nestjs_vibe_engine.Socket.Gateway.Joining.{
  is_owner_unique, handle_room_join-IsConsistent, handle_room_leave-IsConsistent,
}

abbrev pub start : Gateway
start = record { connected_clients = []; user_sockets = []; room_manager = no_rooms }

-- One event. A connection brings a socket that is not tracked, and a room request comes from a
-- tracked socket whose user is the one that authentication has set.
pub data Step (g : Gateway) : Gateway → Type 0 where
  connects :
      (s : Socket) (now : String)
      → Map.get g.connected_clients s.id ≡ none
      → Step g (handle_connection g s.id (some s) now).0
  refused : (socket_id now : String) → Step g (handle_connection g socket_id none now).0
  disconnects : (socket_id : String) → Step g (handle_disconnect g socket_id)
  joins :
      (room_id : String) (s : Socket) (now : String)
      → is_owner g s.id s.user_id ≡ true
      → Step g (handle_room_join g room_id s now).0
  leaves :
      (room_id : String) (s : Socket) (now : String)
      → is_owner g s.id s.user_id ≡ true
      → Step g (handle_room_leave g room_id s now).0

pub data Reach (g : Gateway) : Gateway → Type 0 where
  here : Reach g g
  next : {h k : Gateway} → Reach g h → Step h k → Reach g k

pub start-IsConsistent : IsConsistent start
unfolding has_socket is_owner is_in_room Map.get Set.has
start-IsConsistent = record {
  rooms = IsClean-no_rooms;
  filled = λ u. tt;
  agree = λ u t. refl;
  in_user_room = λ u t h. cc;
  in_broadcast = λ u t h. cc;
  members = λ r t h. cc;
}

Step-IsConsistent : {g h : Gateway} → Step g h → IsConsistent g → IsConsistent h
unfolding handle_connection
Step-IsConsistent {g} (connects s now fresh) c = track-IsConsistent g s now fresh c
Step-IsConsistent (refused socket_id now) c = c
Step-IsConsistent {g} (disconnects socket_id) c = handle_disconnect-IsConsistent g socket_id c
Step-IsConsistent {g} (joins room_id s now own) c =
    handle_room_join-IsConsistent g room_id s now own c
Step-IsConsistent {g} (leaves room_id s now own) c =
    handle_room_leave-IsConsistent g room_id s now own c

-- After any history of connections, disconnections, joins and leaves the gateway is consistent: the
-- client map and the sets of each user's sockets agree, no set or room is kept empty, every member
-- of a room is a client, and every client is in its user's room and in broadcast:all.
pub Reach-IsConsistent : {g : Gateway} → Reach start g → IsConsistent g
Reach-IsConsistent here = start-IsConsistent
Reach-IsConsistent (next r st) = Step-IsConsistent st (Reach-IsConsistent r)

-- Socket.IO's side of the calls: `disconnect(true)` makes the socket's disconnection an event, and
-- the other calls make none.
abbrev pub deliver : Gateway → List Call → Gateway
deliver g [] = g
deliver g (disconnect socket_id ∷ calls) = deliver (handle_disconnect g socket_id) calls
deliver g (_ ∷ calls) = deliver g calls

deliver-disconnect_live :
    (live : String → Bool) (ids : TextSet) (g : Gateway) (user_id socket_id : String)
    → IsConsistent g
    → has_socket (deliver g (disconnect_live live ids)) user_id socket_id
      ≡ (not (Set.has ids socket_id && live socket_id) && has_socket g user_id socket_id)
unfolding disconnect_live Set.has
deliver-disconnect_live live [] g u t c = refl
deliver-disconnect_live live (x ∷ ids) g u t c = elim (Bool-cases (live x)) [
  | inr e ↦ rw e (ground (arith, deliver-disconnect_live live ids g u t c, eq_iff x t))
  | inl e ↦ rw e (
      ground (
        arith,
        deliver-disconnect_live live ids (handle_disconnect g x) u t
            (handle_disconnect-IsConsistent g x c),
        has_socket-handle_disconnect g x u t (c.agree u t),
        eq_iff x t,
      ))
]

-- A forced logout disconnects the user's live sockets and nobody else's: once the events that it
-- sets off are handled, a socket is still listed under a user exactly if it was listed there and is
-- not a live socket of the user who was logged out.
pub force_logout_user_disconnects :
    (g : Gateway) (live : String → Bool) (user_id reason : String) (info : Option DeviceInfo)
    (now : String) (other socket_id : String)
    → IsConsistent g
    → has_socket (deliver g (force_logout_user g live user_id reason info now)) other socket_id
      ≡ (has_socket g other socket_id && not (user_id == other && live socket_id))
unfolding force_logout_user has_socket
force_logout_user_disconnects g live user_id reason info now other socket_id c =
    deliver-disconnect_live live (or_empty (Map.get g.user_sockets user_id)) g other socket_id c
    ∙ only_theirs (Bool-cases (user_id == other))
  where
    only_theirs :
        ((user_id == other) ≡ true) ⊎ ((user_id == other) ≡ false)
        → (not (has_socket g user_id socket_id && live socket_id) && has_socket g other socket_id)
          ≡ (has_socket g other socket_id && not (user_id == other && live socket_id))
    only_theirs (inl same) = rw ((eq_iff user_id other).0 same) (ground (arith, eq_refl other))
    only_theirs (inr differ) = ground (
      arith,
      c.agree user_id socket_id,
      c.agree other socket_id,
      is_owner_unique g socket_id user_id other,
      eq_iff user_id other,
    )

-- The order of a connection and a disconnection of a new socket matters. Handled one behind the other
-- they leave nothing of it: it is no client, in no room and in no user's set. If the disconnection is
-- handled while `handleConnection` still waits for the joins, the socket, gone by then, is tracked all
-- the same, as a client and in broadcast:all.
pub disconnect_overtakes :
    (g : Gateway) (s : Socket) (now : String)
    → IsConsistent g
    → Map.get g.connected_clients s.id ≡ none
    → ((Map.get (handle_disconnect (track g s now) s.id).connected_clients s.id ≡ none)
        × ((room_id : String)
            → is_in_room (handle_disconnect (track g s now) s.id).room_manager room_id s.id ≡ false)
        × ((user_id : String)
            → has_socket (handle_disconnect (track g s now) s.id) user_id s.id ≡ false))
      × (is_owner (track (handle_disconnect g s.id) s now) s.id s.user_id ≡ true)
      × (is_in_room (track (handle_disconnect g s.id) s now).room_manager broadcast_all s.id ≡ true)
disconnect_overtakes g s now c new = (
  handle_disconnect_forgets (track g s now) s.id (track-IsConsistent g s now new c),
  ground (
    arith,
    is_owner-track (handle_disconnect g s.id) s now s.id s.user_id,
    eq_refl s.id,
    eq_refl s.user_id,
  ),
  ground (
    arith,
    is_in_room-track (handle_disconnect g s.id) s now broadcast_all s.id,
    eq_refl s.id,
    eq_refl broadcast_all,
  ),
)

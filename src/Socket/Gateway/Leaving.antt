-- ===== src/Socket/Gateway/Leaving.antt =====
-- Disconnection keeps the gateway's views in agreement.
use nestjs_vibe_engine.Prelude.{
  String, ◌≡◌, refl, true, false, not, ◌&&◌, Option, none, some, [], ◌∷◌, arith, ◌==◌, eq_iff,
  eq_refl, nat_eq, Option-cases, Bool-cases, inl, inr, is_some,
}
use nestjs_vibe_engine.Js.Map
use nestjs_vibe_engine.Js.Map.{TextMap}
use nestjs_vibe_engine.Js.Set
use nestjs_vibe_engine.Js.Set.{TextSet}
use nestjs_vibe_engine.Socket.Rooms.{is_in_room, user_room, broadcast_all, or_empty}
use nestjs_vibe_engine.Socket.Rooms.Members.{is_in_room-remove_from_all_rooms}
use nestjs_vibe_engine.Socket.Rooms.Clean.{
  IsFilled, IsFilled-if, IsFilled-delete, remove_from_all_rooms-IsClean,
}
use nestjs_vibe_engine.Socket.Gateway.{
  ConnectedClient, Gateway, handle_disconnect, remove_user_socket,
}
use nestjs_vibe_engine.Socket.Gateway.Tracking.{is_owner, has_socket, IsConsistent}

pub is_owner-handle_disconnect :
    (g : Gateway) (gone socket_id user_id : String)
    → is_owner (handle_disconnect g gone) socket_id user_id
      ≡ (not (gone == socket_id) && is_owner g socket_id user_id)
unfolding is_owner handle_disconnect
is_owner-handle_disconnect g gone socket_id user_id =
    ground (arith, Map.get-delete g.connected_clients gone socket_id)

is_some-handle_disconnect :
    (g : Gateway) (gone socket_id : String)
    → is_some (Map.get (handle_disconnect g gone).connected_clients socket_id)
      ≡ (not (gone == socket_id) && is_some (Map.get g.connected_clients socket_id))
unfolding handle_disconnect
is_some-handle_disconnect g gone socket_id = rw Map.get-delete (ground arith)

is_in_room-handle_disconnect :
    (g : Gateway) (gone room_id socket_id : String)
    → IsConsistent g
    → is_in_room (handle_disconnect g gone).room_manager room_id socket_id
      ≡ (not (gone == socket_id) && is_in_room g.room_manager room_id socket_id)
unfolding handle_disconnect
is_in_room-handle_disconnect g gone room_id socket_id c =
    is_in_room-remove_from_all_rooms g.room_manager gone room_id socket_id c.rooms.is_map

empty_has : (s : TextSet) (x : String) → nat_eq (Set.size s) 0 ≡ true → Set.has s x ≡ false
unfolding Set.has
empty_has [] x h = refl
empty_has (y ∷ s) x h = absurd (ground arith)

-- Deleting a socket from one user's set, whatever the entry of that user.
has-remove_user_socket :
    (m : TextMap TextSet) (info : ConnectedClient) (gone user_id socket_id : String)
    → Set.has (or_empty (Map.get (remove_user_socket m (some info) gone) user_id)) socket_id ≡ (
        not (info.user_id == user_id && gone == socket_id)
        && Set.has (or_empty (Map.get m user_id)) socket_id)
unfolding remove_user_socket Set.has
has-remove_user_socket m info gone user_id socket_id =
    elim (Option-cases (Map.get m info.user_id)) [
      | inl e ↦ ground (arith, e, eq_iff info.user_id user_id)
      | inr (sockets, e) ↦ ground (
        arith,
        e,
        eq_iff info.user_id user_id,
        Map.get-delete m info.user_id user_id,
        Map.get-set m info.user_id user_id (Set.delete sockets gone),
        Set.has-delete sockets gone socket_id,
        empty_has (Set.delete sockets gone) socket_id,
      )
    ]

remove_user_socket-IsFilled :
    (m : TextMap TextSet) (info : Option ConnectedClient) (gone user_id : String)
    → ((u : String) → IsFilled (Map.get m u))
    → IsFilled (Map.get (remove_user_socket m info gone) user_id)
unfolding remove_user_socket
remove_user_socket-IsFilled m none gone user_id f = f user_id
remove_user_socket-IsFilled m (some info) gone user_id f =
    elim (Option-cases (Map.get m info.user_id)) [
      | inl e ↦ rw (e, remove_user_socket) (f user_id)
      | inr (sockets, e) ↦
          let held : IsFilled (some sockets) = rw e at (f info.user_id) in
          elim (Bool-cases (nat_eq (Set.size (Set.delete sockets gone)) 0)) [
            | inl z ↦
                rw (e, remove_user_socket)
                  (rw z (
                    rw Map.get-delete
                      (IsFilled-if (info.user_id == user_id) none _ tt (f user_id))))
            | inr z ↦
                rw (e, remove_user_socket)
                  (rw z (
                    rw Map.get-set (
                      IsFilled-if (info.user_id == user_id) _ _
                        (IsFilled-delete sockets gone held.0 z) (f user_id))))
          ]
    ]

pub has_socket-handle_disconnect :
    (g : Gateway) (gone user_id socket_id : String)
    → has_socket g user_id socket_id ≡ is_owner g socket_id user_id
    → has_socket (handle_disconnect g gone) user_id socket_id
      ≡ (not (gone == socket_id) && has_socket g user_id socket_id)
unfolding has_socket is_owner handle_disconnect
has_socket-handle_disconnect g gone user_id socket_id h =
    elim (Option-cases (Map.get g.connected_clients gone)) [
      | inl e ↦ rw e (unfold remove_user_socket in ground (arith, e, h, eq_iff gone socket_id))
      | inr (info, e) ↦ rw e (
          ground (
            arith,
            e,
            h,
            eq_iff gone socket_id,
            has-remove_user_socket g.user_sockets info gone user_id socket_id,
          ))
    ]

-- Disconnection keeps the views in agreement.
pub handle_disconnect-IsConsistent :
    (g : Gateway) (gone : String) → IsConsistent g → IsConsistent (handle_disconnect g gone)
handle_disconnect-IsConsistent g gone c = record {
  rooms = unfold handle_disconnect in remove_from_all_rooms-IsClean _ _ c.rooms;
  filled = λ u.
      unfold handle_disconnect in
      remove_user_socket-IsFilled g.user_sockets (Map.get g.connected_clients gone) gone u c.filled;
  agree = λ u t. ground (
    arith,
    has_socket-handle_disconnect g gone u t,
    is_owner-handle_disconnect g gone t u,
    c.agree u t,
  );
  in_user_room = λ u t h. ground (
    arith,
    is_in_room-handle_disconnect g gone (user_room u) t c,
    is_owner-handle_disconnect g gone t u,
    c.in_user_room u t,
  );
  in_broadcast = λ u t h. ground (
    arith,
    is_in_room-handle_disconnect g gone broadcast_all t c,
    is_owner-handle_disconnect g gone t u,
    c.in_broadcast u t,
  );
  members = λ r t h. ground (
    arith,
    is_in_room-handle_disconnect g gone r t c,
    is_some-handle_disconnect g gone t,
    c.members r t,
  );
}

-- After its disconnection a socket is nowhere: not a client, in no room, in no user's set.
pub handle_disconnect_forgets :
    (g : Gateway) (gone : String)
    → IsConsistent g
    → (Map.get (handle_disconnect g gone).connected_clients gone ≡ none)
      × ((room_id : String)
          → is_in_room (handle_disconnect g gone).room_manager room_id gone ≡ false)
      × ((user_id : String) → has_socket (handle_disconnect g gone) user_id gone ≡ false)
handle_disconnect_forgets g gone c = (
  unfold handle_disconnect in
      ground (arith, Map.get-delete g.connected_clients gone gone, eq_refl gone),
  λ r. ground (arith, is_in_room-handle_disconnect g gone r gone c, eq_refl gone),
  λ u. ground (arith, has_socket-handle_disconnect g gone u gone, c.agree u gone, eq_refl gone),
)

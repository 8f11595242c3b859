-- ===== src/Socket/Gateway/Joining.antt =====
-- Joining and leaving rooms keeps the gateway's views in agreement, and decides who may chat.
use nestjs_vibe_engine.Prelude.{
  ℕ, String, ◌≡◌, true, false, [], arith, ◌==◌, eq_iff, eq_refl, Option-cases, Bool-cases, inl, inr,
  is_some,
}
use nestjs_vibe_engine.Js.Map
use nestjs_vibe_engine.Socket.Rooms.{
  RoomManager, is_in_room, user_room, broadcast_all, is_default_room, is_valid_room_id,
  remove_from_room,
}
use nestjs_vibe_engine.Socket.Rooms.Members.{is_in_room-add_to_room, is_in_room-remove_from_room}
use nestjs_vibe_engine.Socket.Rooms.Clean.{IsClean, add_to_room-IsClean, remove_from_room-IsClean}
use nestjs_vibe_engine.Socket.Gateway.{
  Socket, Gateway, handle_room_join, handle_room_leave, handle_chat_send, joined, left, sent,
  not_a_member,
}
use nestjs_vibe_engine.Socket.Gateway.Tracking.{is_owner, has_socket, IsConsistent}

-- Two owners of one socket are one user.
pub is_owner_unique :
    (g : Gateway) (socket_id u v : String)
    → is_owner g socket_id u ≡ true
    → is_owner g socket_id v ≡ true
    → (u == v) ≡ true
unfolding is_owner
is_owner_unique g socket_id u v h k = elim (Option-cases (Map.get g.connected_clients socket_id)) [
  | inl e ↦ absurd (ground (arith, e))
  | inr (info, e) ↦ ground (arith, e, eq_iff info.user_id u, eq_iff info.user_id v, eq_iff u v)
]

is_owner→is_some :
    (g : Gateway) (socket_id u : String)
    → is_owner g socket_id u ≡ true
    → is_some (Map.get g.connected_clients socket_id) ≡ true
unfolding is_owner
is_owner→is_some g socket_id u h = ground arith

-- The rooms alone change: what has to be shown of the new ones.
module _ (g : Gateway) (rooms : RoomManager) (c : IsConsistent g) (clean : IsClean rooms)
    (own : (u t : String) → is_owner g t u ≡ true → is_in_room rooms (user_room u) t ≡ true)
    (all : (u t : String) → is_owner g t u ≡ true → is_in_room rooms broadcast_all t ≡ true)
    (known : (r t : String)
      → is_in_room rooms r t ≡ true
      → is_some (Map.get g.connected_clients t) ≡ true) where
  with_rooms-IsConsistent : IsConsistent (record g { room_manager = rooms })
  unfolding is_owner has_socket
  with_rooms-IsConsistent = record {
    rooms = clean;
    filled = c.filled;
    agree = c.agree;
    in_user_room = own;
    in_broadcast = all;
    members = known;
  }

pub handle_room_join-IsConsistent :
    (g : Gateway) (room_id : String) (s : Socket) (now : String)
    → is_owner g s.id s.user_id ≡ true
    → IsConsistent g
    → IsConsistent (handle_room_join g room_id s now).0
unfolding handle_room_join
handle_room_join-IsConsistent g room_id s now own c = elim (Bool-cases (is_valid_room_id room_id)) [
  | inr e ↦ rw e c
  | inl e ↦ rw e (
      with_rooms-IsConsistent g _ c (add_to_room-IsClean g.room_manager room_id s.id c.rooms)
        (λ u t h. ground (
          arith,
          is_in_room-add_to_room g.room_manager room_id s.id (user_room u) t,
          c.in_user_room u t h,
        ))
        (λ u t h. ground (
          arith,
          is_in_room-add_to_room g.room_manager room_id s.id broadcast_all t,
          c.in_broadcast u t h,
        ))
        (λ r t h. ground (
          arith,
          is_in_room-add_to_room g.room_manager room_id s.id r t,
          c.members r t,
          is_owner→is_some g s.id s.user_id own,
          eq_iff s.id t,
        )))
]

pub handle_room_leave-IsConsistent :
    (g : Gateway) (room_id : String) (s : Socket) (now : String)
    → is_owner g s.id s.user_id ≡ true
    → IsConsistent g
    → IsConsistent (handle_room_leave g room_id s now).0
unfolding handle_room_leave
handle_room_leave-IsConsistent g room_id s now own c =
    elim (Bool-cases (is_default_room room_id s.user_id)) [
      | inl e ↦ rw e c
      | inr e ↦ rw e (
          with_rooms-IsConsistent g _ c
            (remove_from_room-IsClean g.room_manager room_id s.id c.rooms)
            (λ u t h. stays_in_user_room e u t h) (λ u t h. stays_in_broadcast e u t h)
            (λ r t h.
              ground (
                arith,
                is_in_room-remove_from_room g.room_manager room_id s.id r t,
                c.members r t,
              )))
    ]
  where
    stays_in_user_room :
        is_default_room room_id s.user_id ≡ false
        → (u t : String) → is_owner g t u ≡ true
        → is_in_room (remove_from_room g.room_manager room_id s.id) (user_room u) t ≡ true
    stays_in_user_room e u t h = elim (Bool-cases (s.id == t)) [
      | inr other ↦ ground (
        arith,
        other,
        is_in_room-remove_from_room g.room_manager room_id s.id (user_room u) t,
        c.in_user_room u t h,
      )
      | inl same ↦
          let own' : is_owner g s.id u ≡ true = rw ((eq_iff s.id t).0 same) h in
          unfold is_default_room in
          ground (
            arith,
            is_in_room-remove_from_room g.room_manager room_id s.id (user_room u) t,
            c.in_user_room u t h,
            is_owner_unique g s.id s.user_id u own own',
            eq_iff s.user_id u,
            eq_iff room_id (user_room u),
            eq_iff room_id (user_room s.user_id),
          )
    ]

    stays_in_broadcast :
        is_default_room room_id s.user_id ≡ false
        → (u t : String) → is_owner g t u ≡ true
        → is_in_room (remove_from_room g.room_manager room_id s.id) broadcast_all t ≡ true
    stays_in_broadcast e u t h =
        unfold is_default_room in
        ground (
          arith,
          is_in_room-remove_from_room g.room_manager room_id s.id broadcast_all t,
          c.in_broadcast u t h,
        )

-- After an accepted join a message of the socket to the room is sent.
pub chat_after_join :
    (g : Gateway) (room_id content message_id : String) (s : Socket) (now later : String) (n : ℕ)
    → (handle_room_join g room_id s now).2 ≡ joined room_id n
    → (handle_chat_send (handle_room_join g room_id s now).0 room_id content s message_id later).1
      ≡ sent message_id
unfolding handle_room_join handle_chat_send
chat_after_join g room_id content message_id s now later n h = ground (
  arith,
  is_in_room-add_to_room g.room_manager room_id s.id room_id s.id,
  eq_refl room_id,
  eq_refl s.id,
)

-- After an accepted leave a message of the socket to the room is refused and no call is made.
pub chat_after_leave :
    (g : Gateway) (room_id content message_id : String) (s : Socket) (now later : String)
    → (handle_room_leave g room_id s now).2 ≡ left room_id
    → handle_chat_send (handle_room_leave g room_id s now).0 room_id content s message_id later
      ≡ ([], not_a_member)
unfolding handle_room_leave handle_chat_send
chat_after_leave g room_id content message_id s now later h = ground (
  arith,
  is_in_room-remove_from_room g.room_manager room_id s.id room_id s.id,
  eq_refl room_id,
  eq_refl s.id,
)

-- ===== src/Manager/Clients.antt =====
-- Where a client is, and what its leaving does.
use mathlib.Core.Option
use waterbus_rs.Base.{
  ◌≡◌, refl, false, String, string_eq, str_eq, eq_iff, none, some, ok, err, arith,
}
use waterbus_rs.Table.{get, insert, remove, get-insert, get-remove}
use waterbus_rs.Webrtc.{Webrtc}
use waterbus_rs.Errors.{participant_not_found}
use waterbus_rs.Forward.{RtpForwardInfo}
use waterbus_rs.Multicast.{Channel}
use waterbus_rs.Room.{Room, peer_id, room_leave}
use waterbus_rs.Room.Leaving.{left_room}
use waterbus_rs.Manager.{
  WClient, WebRtcManager, add_client, remove_manager_client, get_client_by_id, get_room_by_id,
  manager_leave_room,
}

module _ (w : Webrtc) {Packet : Type 0} (c : Channel (RtpForwardInfo Packet)) where
  -- The manager after `client` has left `room`.
  abbrev pub without : String → WClient → Room w c → WebRtcManager w c → WebRtcManager w c
  without id client room m = record m {
    clients = remove id m.clients;
    rooms = insert client.room_id (room_leave w c client.participant_id room) m.rooms;
  }

  known_client_leaves :
      (id : String) (client : WClient) (room : Room w c) (m : WebRtcManager w c)
      → get id m.clients ≡ some client
      → get client.room_id m.rooms ≡ some room
      → manager_leave_room w c id m ≡ (ok client, without id client room m)
  unfolding manager_leave_room get_client_by_id get_room_by_id remove_manager_client
  known_client_leaves id client room m known there =
      rw (known, manager_leave_room, get_client_by_id, there, get_room_by_id) refl

  unknown_client_stays :
      (id : String) (m : WebRtcManager w c)
      → get id m.clients ≡ none
      → manager_leave_room w c id m ≡ (err participant_not_found, m)
  unfolding manager_leave_room get_client_by_id
  unknown_client_stays id m unknown = rw (unknown, manager_leave_room, get_client_by_id) refl

  -- A client who has left is told who it was and is not known afterwards, so that a second call to
  -- leave is refused and changes nothing; in its room its participant is no publisher and has no
  -- subscriber, and every other room is as before.
  pub client_left :
      (id other_room peer : String) (client : WClient) (room : Room w c) (m : WebRtcManager w c)
      → get id m.clients ≡ some client
      → get client.room_id m.rooms ≡ some room
      → str_eq client.room_id other_room ≡ false
      → (let after = manager_leave_room w c id m in
          (after.0 ≡ ok client)
          × (manager_leave_room w c id after.1 ≡ (err participant_not_found, after.1))
          × (Option.map
                (λ r. get client.participant_id r.publishers)
                (get client.room_id after.1.rooms)
              ≡ some none)
          × (Option.map
                (λ r. get (peer_id client.participant_id peer) r.subscribers)
                (get client.room_id after.1.rooms)
              ≡ some none)
          × (get other_room after.1.rooms ≡ get other_room m.rooms))
  client_left id other_room peer client room m known there differ =
      let gone = left_room w c client.participant_id client.participant_id peer "" room in
      let room' = room_leave w c client.participant_id room in
      let found : get client.room_id (insert client.room_id room' m.rooms) ≡ some room' = ground (
        arith,
        get-insert client.room_id client.room_id room' m.rooms,
        eq_iff client.room_id client.room_id,
      ) in
      let unknown : get id (remove id m.clients) ≡ none =
        ground (arith, get-remove id id m.clients, eq_iff id id) in
      rw (known_client_leaves id client room m known there) (
        refl,
        unknown_client_stays id (without id client room m) unknown,
        ground (arith, found, gone, eq_iff client.participant_id client.participant_id),
        ground (arith, found, gone),
        ground (arith, get-insert client.room_id other_room room' m.rooms),
      )

  -- A client who is registered again keeps the participant and the room of its first registration.
  pub first_room_kept :
      (id : String) (first second : WClient) (m : WebRtcManager w c)
      → get id m.clients ≡ none
      → get_client_by_id w c id (add_client w c id second (add_client w c id first m)) ≡ ok first
  unfolding add_client get_client_by_id
  first_room_kept id first second m unknown =
      let found : get id (insert id first m.clients) ≡ some first =
        ground (arith, get-insert id id first m.clients, eq_iff id id) in
      ground (arith, unknown, found)

-- ===== src/Manager/Joining.antt =====
-- Joining and subscribing as a client of the node.
use mathlib.Core.Option
use waterbus_rs.Base.{
  ℕ, ◌≡◌, refl, false, String, string_eq, str_eq, eq_iff, none, some, ok, err, arith,
}
use waterbus_rs.Table.{get, insert, get-insert}
use waterbus_rs.Webrtc.{Webrtc}
use waterbus_rs.Errors.{room_not_found}
use waterbus_rs.Forward.{RtpForwardInfo}
use waterbus_rs.Multicast.{Channel}
use waterbus_rs.Room.Connecting.{room_join, new_publisher}
use waterbus_rs.Room.Exchange.{joined_room}
use waterbus_rs.Manager.{
  WClient, WebRtcManager, JoinRoomReq, join_params, add_client, room_or_new, get_client_by_id,
  get_room_by_id, manager_join_room, manager_subscribe, manager_leave_room,
}

participant_of : (req : JoinRoomReq) → (join_params req).participant_id ≡ req.participant_id
unfolding join_params
participant_of req = refl

module _ (w : Webrtc) {Packet : Type 0} (c : Channel (RtpForwardInfo Packet)) where
  abbrev with_client : String → WClient → WebRtcManager w c → WebRtcManager w c
  with_client id client m = record m { clients = insert id client m.clients }

  add_client-new :
      (id : String) (client : WClient) (m : WebRtcManager w c)
      → get id m.clients ≡ none
      → add_client w c id client m ≡ with_client id client m
  unfolding add_client
  add_client-new id client m unknown = rw (unknown, add_client) refl

  room_or_new-clients :
      (empty : w.Net) (id : String) (client : WClient) (room_id : String) (m : WebRtcManager w c)
      → room_or_new w c empty room_id (with_client id client m) ≡ room_or_new w c empty room_id m
  unfolding room_or_new get_room_by_id
  room_or_new-clients empty id client room_id m = refl

  pub client_there :
      (empty : w.Net) (req : JoinRoomReq) (peer : w.Peer) (net : w.Net) (m : WebRtcManager w c)
      → get req.client_id m.clients ≡ none
      → w.new_peer_connection (room_or_new w c empty req.room_id m).net ≡ (some peer, net)
      → (let after = (manager_join_room w c empty req m).1 in
          (get_client_by_id w c req.client_id after
            ≡ ok (record { participant_id = req.participant_id; room_id = req.room_id }))
          × (Option.map (λ r. get req.participant_id r.publishers) (get req.room_id after.rooms)
              ≡ some (some (new_publisher w c (join_params req) peer))))
  unfolding manager_join_room get_client_by_id
  client_there empty req peer net m unknown made =
      let client : WClient = record {
        participant_id = req.participant_id;
        room_id = req.room_id;
      } in
      let room = room_or_new w c empty req.room_id m in
      let joined = room_join w c (join_params req) room in
      let people = joined_room w c (join_params req) req.participant_id peer net room made in
      rw
        (
          add_client-new req.client_id client m unknown,
          room_or_new-clients empty req.client_id client req.room_id m,
        )
        (
          ground (
            arith,
            get-insert req.client_id req.client_id client m.clients,
            eq_iff req.client_id req.client_id,
          ),
          ground (
            arith,
            get-insert req.room_id req.room_id joined.1 m.rooms,
            eq_iff req.room_id req.room_id,
            people.0,
            participant_of req,
            eq_iff req.participant_id req.participant_id,
          ),
        )

  -- A client who is not known and joins is known afterwards as the participant of the request in the
  -- room of the request; this room is there, with the participant as a publisher, as soon as the
  -- peer connection could be made, and every other room is as before.
  pub client_joined :
      (empty : w.Net) (req : JoinRoomReq) (other : String) (peer : w.Peer) (net : w.Net)
      (m : WebRtcManager w c)
      → get req.client_id m.clients ≡ none
      → str_eq req.room_id other ≡ false
      → w.new_peer_connection (room_or_new w c empty req.room_id m).net ≡ (some peer, net)
      → (let after = (manager_join_room w c empty req m).1 in
          (get_client_by_id w c req.client_id after
            ≡ ok (record { participant_id = req.participant_id; room_id = req.room_id }))
          × (Option.map (λ r. get req.participant_id r.publishers) (get req.room_id after.rooms)
              ≡ some (some (new_publisher w c (join_params req) peer)))
          × (get other after.rooms ≡ get other m.rooms))
  unfolding manager_join_room
  client_joined empty req other peer net m unknown differ made =
      let client : WClient = record {
        participant_id = req.participant_id;
        room_id = req.room_id;
      } in
      let joined = room_join w c (join_params req) (room_or_new w c empty req.room_id m) in
      let there = client_there empty req peer net m unknown made in
      (
        there.0,
        there.1,
        rw
            (
              add_client-new req.client_id client m unknown,
              room_or_new-clients empty req.client_id client req.room_id m,
            )
            (ground (arith, get-insert req.room_id other joined.1 m.rooms)),
      )

  -- To subscribe in a room that the node does not have is refused, but the client is known from then
  -- on: it can be told to leave, which fails as its room is not there, and it stays known.
  pub subscriber_of_no_room :
      (client target participant room_id : String) (now : ℕ) (m : WebRtcManager w c)
      → get client m.clients ≡ none
      → get room_id m.rooms ≡ none
      → (let after = (manager_subscribe w c client target participant room_id now m).1 in
          ((manager_subscribe w c client target participant room_id now m).0 ≡ err room_not_found)
          × (get_client_by_id w c client after
              ≡ ok (record { participant_id = participant; room_id = room_id }))
          × (manager_leave_room w c client after ≡ (err room_not_found, after)))
  unfolding manager_subscribe add_client get_client_by_id get_room_by_id manager_leave_room
  subscriber_of_no_room client target participant room_id now m unknown absent =
      let info : WClient = record { participant_id = participant; room_id = room_id } in
      ground (arith, unknown, absent, get-insert client client info m.clients, eq_iff client client)

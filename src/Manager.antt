-- ===== src/Manager.antt =====
-- crates/webrtc-manager/src/webrtc_manager.rs: the clients and the rooms of one node.
pub mod Clients
pub mod Joining
use waterbus_rs.Base.{
  ℕ, Bool, true, false, String, string_eq, Option, none, some, Result, ok, err, List, [], ◌∷◌,
}
use waterbus_rs.Table.{Table, get, insert, remove}
use waterbus_rs.Webrtc.{Webrtc, IceCandidate}
use waterbus_rs.Errors.{WebRtcError, participant_not_found, room_not_found}
use waterbus_rs.Forward.{RtpForwardInfo}
use waterbus_rs.Multicast.{Channel}
use waterbus_rs.Quality.{ConnectionType, connection_from_u8}
use waterbus_rs.Room.Connecting.{
  JoinRoomParams, JoinRoomResponse, SubscribeResponse, room_join, room_subscribe,
  set_subscriber_remote_sdp, handle_publisher_renegotiation, handle_migrate_connection,
  room_add_publisher_candidate, room_add_subscriber_candidate,
}
use waterbus_rs.Room.{
  Room, new_room, room_leave, room_set_e2ee_enabled, room_set_camera_type, room_set_video_enabled,
  room_set_audio_enabled, room_set_screen_sharing, room_set_hand_raising,
}

pub record WClient : Type 0 where
  pub participant_id : String
  pub room_id : String

-- `JoinRoomReq`, with the random part of the id of the media.
pub record JoinRoomReq : Type 0 where
  pub client_id : String
  pub participant_id : String
  pub room_id : String
  pub sdp : String
  pub is_video_enabled : Bool
  pub is_audio_enabled : Bool
  pub is_e2ee_enabled : Bool
  pub total_tracks : ℕ
  pub connection_type : ℕ
  pub nanoid : String

unfoldable pub join_params : JoinRoomReq → JoinRoomParams
join_params req = record {
  sdp = req.sdp;
  participant_id = req.participant_id;
  is_video_enabled = req.is_video_enabled;
  is_audio_enabled = req.is_audio_enabled;
  is_e2ee_enabled = req.is_e2ee_enabled;
  total_tracks = req.total_tracks;
  connection_type = connection_from_u8 req.connection_type;
  nanoid = req.nanoid;
}

module _ (w : Webrtc) {Packet : Type 0} (c : Channel (RtpForwardInfo Packet)) where
  pub record WebRtcManager : Type 0 where
    pub rooms : Table String (Room w c)
    pub clients : Table String WClient

  -- A call that may fail.
  abbrev pub Call : Type 0 → Type 0
  Call A = WebRtcManager → Result WebRtcError A × WebRtcManager

  -- `_add_client`: a client who is there is not replaced.
  unfoldable pub add_client : String → WClient → WebRtcManager → WebRtcManager
  add_client client_id info m = elim (get client_id m.clients) [
    | some _ ↦ m
    | none ↦ record m { clients = insert client_id info m.clients }
  ]

  -- `_remove_client`
  unfoldable pub remove_manager_client : String → WebRtcManager → WebRtcManager
  remove_manager_client client_id m = record m { clients = remove client_id m.clients }

  -- `get_client_by_id`
  unfoldable pub get_client_by_id : String → WebRtcManager → Result WebRtcError WClient
  get_client_by_id client_id m = elim (get client_id m.clients) [
    | none ↦ err participant_not_found
    | some client ↦ ok client
  ]

  -- `_get_room_by_id`
  unfoldable pub get_room_by_id : String → WebRtcManager → Result WebRtcError (Room w c)
  get_room_by_id room_id m = elim (get room_id m.rooms) [
    | none ↦ err room_not_found
    | some room ↦ ok room
  ]

  -- What the setters share: the client, its room, and a call of the room for the participant.
  unfoldable pub in_room :
      {A : Type 0} → (String → Room w c → Result WebRtcError A × Room w c) → String → Call A
  in_room call client_id m = elim (get_client_by_id client_id m) [
    | err e ↦ (err e, m)
    | ok client ↦ elim (get_room_by_id client.room_id m) [
      | err e ↦ (err e, m)
      | ok room ↦
          let (answer, room') = call client.participant_id room in
          (answer, record m { rooms = insert client.room_id room' m.rooms })
    ]
  ]

  unfoldable pub manager_set_audio_enabled : String → Bool → Call (Unit {0})
  manager_set_audio_enabled client_id b = in_room (λ id. room_set_audio_enabled w c id b) client_id

  unfoldable pub manager_set_video_enabled : String → Bool → Call (Unit {0})
  manager_set_video_enabled client_id b = in_room (λ id. room_set_video_enabled w c id b) client_id

  unfoldable pub manager_set_camera_type : String → ℕ → Call (Unit {0})
  manager_set_camera_type client_id n = in_room (λ id. room_set_camera_type w c id n) client_id

  unfoldable pub manager_set_e2ee_enabled : String → Bool → Call (Unit {0})
  manager_set_e2ee_enabled client_id b = in_room (λ id. room_set_e2ee_enabled w c id b) client_id

  unfoldable pub manager_set_screen_sharing : String → Bool → Option String → Call (Unit {0})
  manager_set_screen_sharing client_id b screen =
      in_room (λ id. room_set_screen_sharing w c id b screen) client_id

  unfoldable pub manager_set_hand_raising : String → Bool → Call (Unit {0})
  manager_set_hand_raising client_id b = in_room (λ id. room_set_hand_raising w c id b) client_id

  unfoldable pub set_subscriber_desc : String → String → String → Call (Unit {0})
  set_subscriber_desc client_id target_id sdp =
      in_room (λ id. set_subscriber_remote_sdp w c target_id id sdp) client_id

  unfoldable pub manager_publisher_renegotiation : String → String → Call String
  manager_publisher_renegotiation client_id sdp =
      in_room (λ id. handle_publisher_renegotiation w c id sdp) client_id

  unfoldable pub manager_migrate_connection :
      String → String → ConnectionType → Call (Option String)
  manager_migrate_connection client_id sdp connection_type =
      in_room (λ id. handle_migrate_connection w c id sdp connection_type) client_id

  unfoldable pub manager_add_publisher_candidate : String → IceCandidate → Call (Unit {0})
  manager_add_publisher_candidate client_id candidate =
      in_room (λ id. room_add_publisher_candidate w c id candidate) client_id

  unfoldable pub manager_add_subscriber_candidate : String → String → IceCandidate → Call (Unit {0})
  manager_add_subscriber_candidate client_id target_id candidate =
      in_room (λ id. room_add_subscriber_candidate w c target_id id candidate) client_id

  -- `_add_room`, and the room that is there or new. `net` is the state of no peer connection.
  unfoldable pub room_or_new : w.Net → String → WebRtcManager → Room w c
  room_or_new net room_id m = elim (get_room_by_id room_id m) [
    | ok room ↦ room
    | err _ ↦ new_room w c net
  ]

  -- `WebRTCManager::join_room`
  unfoldable pub manager_join_room : w.Net → JoinRoomReq → Call (Option JoinRoomResponse)
  manager_join_room net req m =
      let client : WClient = record {
        participant_id = req.participant_id;
        room_id = req.room_id;
      } in
      let m' = add_client req.client_id client m in
      let (answer, room) = room_join w c (join_params req) (room_or_new net req.room_id m') in
      (answer, record m' { rooms = insert req.room_id room m'.rooms })

  -- `WebRTCManager::subscribe`, at the time `now`.
  unfoldable pub manager_subscribe : String → String → String → String → ℕ → Call SubscribeResponse
  manager_subscribe client_id target_id participant_id room_id now m =
      let client : WClient = record { participant_id = participant_id; room_id = room_id } in
      let m' = add_client client_id client m in
      elim (get_room_by_id room_id m') [
        | err e ↦ (err e, m')
        | ok room ↦
            let (answer, room') = room_subscribe w c target_id participant_id now room in
            (answer, record m' { rooms = insert room_id room' m'.rooms })
      ]

  -- `WebRTCManager::leave_room`. The room is cloned, but its maps are shared with the clone.
  unfoldable pub manager_leave_room : String → Call WClient
  manager_leave_room client_id m = elim (get_client_by_id client_id m) [
    | err e ↦ (err e, m)
    | ok client ↦ elim (get_room_by_id client.room_id m) [
      | err e ↦ (err e, m)
      | ok room ↦ (
        ok client,
        remove_manager_client client_id (record m {
          rooms = insert client.room_id (room_leave w c client.participant_id room) m.rooms;
        }),
      )
    ]
  ]

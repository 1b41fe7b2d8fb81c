-- ===== src/Sfu.antt =====
-- sfu/src/application/sfu_grpc_service.rs: the calls of the dispatcher, as they reach the WebRTC
-- manager of a node. The callbacks of a call only send a message to the dispatcher and are left out,
-- and so is the panic of a task.
pub mod Calls
pub mod Nodes
pub mod Reached
use Prim.Native.String.{◌++◌ as str_append}
use waterbus_rs.Base.{
  ℕ, ◌%◌, ◌^◌, Bool, true, false, String, Option, none, some, Result, ok, err, List,
}
use waterbus_rs.Base.Int.{as_byte}
use waterbus_rs.Action.{Action, pure, fail, ◌>>=◌, ◌>>◌}
use waterbus_rs.Errors.{
  WebRtcError, failed_to_add_track, failed_to_replace_track, failed_to_create_offer,
  failed_to_create_answer, failed_to_create_peer, failed_to_add_transceiver, failed_to_set_sdp,
  failed_to_get_sdp, failed_to_add_candidate, failed_to_renegotiate, failed_to_migrate_connection,
  peer_not_found, participant_not_found, room_not_found,
}
use waterbus_rs.Quality.{connection_from_u8}
use waterbus_rs.Webrtc.{Webrtc, IceCandidate}
use waterbus_rs.Forward.{RtpForwardInfo}
use waterbus_rs.Multicast.{Channel}
use waterbus_rs.Dispatcher.{
  Candidate, JoinRoomRequest, SubscribeRequest, SetSubscriberSdpRequest, RenegotiationRequest,
  MigrateRequest, AddPublisherCandidateRequest, AddSubscriberCandidateRequest, LeaveRoomRequest,
  SetEnabledRequest, SetScreenSharingRequest, SetCameraType, JoinRoomResponse,
}
use waterbus_rs.Room.Connecting.{SubscribeResponse}
use waterbus_rs.Manager.{
  WClient, WebRtcManager, JoinRoomReq, manager_join_room, manager_subscribe, set_subscriber_desc,
  manager_publisher_renegotiation, manager_migrate_connection, manager_add_publisher_candidate,
  manager_add_subscriber_candidate, manager_leave_room, manager_set_video_enabled,
  manager_set_audio_enabled, manager_set_hand_raising, manager_set_screen_sharing,
  manager_set_camera_type,
}

-- The statuses of crate `tonic` that the service answers with.
pub data Status : Type 0 where
  internal : String → Status
  invalid_argument : String → Status

-- The texts of `WebRTCError`.
unfoldable pub error_text : WebRtcError → String
error_text failed_to_add_track = "Failed to add track"
error_text failed_to_replace_track = "Failed to replace track"
error_text failed_to_create_offer = "Failed to create offer"
error_text failed_to_create_answer = "Failed to create answer"
error_text failed_to_create_peer = "Failed to create pc"
error_text failed_to_add_transceiver = "Failed to add transceiver"
error_text failed_to_set_sdp = "Failed to set sdp"
error_text failed_to_get_sdp = "Failed to get sdp"
error_text failed_to_add_candidate = "Failed to add candidate"
error_text failed_to_renegotiate = "Failed to renegotiate"
error_text failed_to_migrate_connection = "Failed to migrate connection"
error_text peer_not_found = "Peer not found"
error_text participant_not_found = "Participant not found"
error_text room_not_found = "Room not found"

-- `sdp_m_line_index` is cut to 16 bits.
unfoldable pub ice_candidate : Candidate → IceCandidate
ice_candidate candidate = record {
  candidate = candidate.candidate;
  sdp_mid = candidate.sdp_mid;
  sdp_m_line_index = elim candidate.sdp_m_line_index [ none ↦ none | some n ↦ some (n % 2 ^ 16) ];
}

-- What the manager is asked for: the numbers of the request are cut to bytes, and `nanoid` is the
-- random part of the id of a media.
abbrev pub sfu_request : String → JoinRoomRequest → JoinRoomReq
sfu_request nanoid req = record {
  client_id = req.client_id;
  participant_id = req.participant_id;
  room_id = req.room_id;
  sdp = req.sdp;
  is_video_enabled = req.is_video_enabled;
  is_audio_enabled = req.is_audio_enabled;
  is_e2ee_enabled = req.is_e2ee_enabled;
  total_tracks = as_byte req.total_tracks;
  connection_type = as_byte req.connection_type;
  nanoid = nanoid;
}

module _ (w : Webrtc) {Packet : Type 0} (c : Channel (RtpForwardInfo Packet)) where
  abbrev pub Node : Type 0
  Node = WebRtcManager w c

  abbrev pub Answer : Type 0 → Type 0
  Answer A = Action Node Status A

  -- An error of the manager, after a text that says what was done.
  unfoldable pub or_internal :
      {A : Type 0} → String → (Node → Result WebRtcError A × Node) → Answer A
  or_internal text call m =
      let (answer, m') = call m in
      elim answer [
        | ok a ↦ (ok a, m')
        | err e ↦ (err (internal (str_append text (error_text e))), m')
      ]

  -- `StatusResponse { is_success: true }`
  abbrev pub success : {A : Type 0} → Answer A → Answer Bool
  success answer = do answer; pure true

  -- `net` is the state of no peer connection.
  unfoldable pub sfu_join_room : w.Net → String → JoinRoomRequest → Answer JoinRoomResponse
  sfu_join_room net nanoid req = do
    response ←
        or_internal "Failed to join room: " (manager_join_room w c net (sfu_request nanoid req))
    elim response [
      | some joined ↦ pure (record { sdp = joined.sdp; is_recording = joined.is_recording })
      | none ↦ pure (record { sdp = ""; is_recording = false })
    ]

  unfoldable pub sfu_subscribe : ℕ → SubscribeRequest → Answer SubscribeResponse
  sfu_subscribe now req =
      or_internal "Failed to join room: "
        (manager_subscribe w c req.client_id req.target_id req.participant_id req.room_id now)

  unfoldable pub sfu_set_subscriber_sdp : SetSubscriberSdpRequest → Answer Bool
  sfu_set_subscriber_sdp req = success (
      or_internal "Failed to set subscriber sdp: "
        (set_subscriber_desc w c req.client_id req.target_id req.sdp))

  unfoldable pub sfu_publisher_renegotiation : RenegotiationRequest → Answer String
  sfu_publisher_renegotiation req =
      or_internal "Failed to handle publisher renegotiate: "
        (manager_publisher_renegotiation w c req.client_id req.sdp)

  unfoldable pub sfu_migrate_publisher_connection : MigrateRequest → Answer (Option String)
  sfu_migrate_publisher_connection req = or_internal "Failed to handle publisher renegotiate: " (
      manager_migrate_connection w c req.client_id req.sdp
        (connection_from_u8 (as_byte req.connection_type)))

  unfoldable pub sfu_add_publisher_candidate : AddPublisherCandidateRequest → Answer Bool
  sfu_add_publisher_candidate req = elim req.candidate [
    | none ↦ fail (invalid_argument "Missing ICE candidate")
    | some candidate ↦ success (
        or_internal "Failed to handle publisher renegotiate: "
          (manager_add_publisher_candidate w c req.client_id (ice_candidate candidate)))
  ]

  unfoldable pub sfu_add_subscriber_candidate : AddSubscriberCandidateRequest → Answer Bool
  sfu_add_subscriber_candidate req = elim req.candidate [
    | none ↦ fail (invalid_argument "Missing ICE candidate")
    | some candidate ↦ success (
        or_internal "Failed to handle subscriber candidate: " (
          manager_add_subscriber_candidate w c req.client_id req.target_id
            (ice_candidate candidate)))
  ]

  -- The participant and the room of the client.
  unfoldable pub sfu_leave_room : LeaveRoomRequest → Answer WClient
  sfu_leave_room req = or_internal "Failed to leave room: " (manager_leave_room w c req.client_id)

  unfoldable pub sfu_set_video_enabled : SetEnabledRequest → Answer Bool
  sfu_set_video_enabled req = success (
      or_internal "Failed to set video enabled: "
        (manager_set_video_enabled w c req.client_id req.is_enabled))

  unfoldable pub sfu_set_audio_enabled : SetEnabledRequest → Answer Bool
  sfu_set_audio_enabled req = success (
      or_internal "Failed to set audio enabled: "
        (manager_set_audio_enabled w c req.client_id req.is_enabled))

  unfoldable pub sfu_set_hand_raising : SetEnabledRequest → Answer Bool
  sfu_set_hand_raising req = success (
      or_internal "Failed to set hand raising: "
        (manager_set_hand_raising w c req.client_id req.is_enabled))

  unfoldable pub sfu_set_screen_sharing : SetScreenSharingRequest → Answer Bool
  sfu_set_screen_sharing req = success (
      or_internal "Failed to set screen sharing: "
        (manager_set_screen_sharing w c req.client_id req.is_enabled req.screen_track_id))

  unfoldable pub sfu_set_camera_type : SetCameraType → Answer Bool
  sfu_set_camera_type req = success (
      or_internal "Failed to set camera type: "
        (manager_set_camera_type w c req.client_id (as_byte req.camera_type)))

-- ===== src/Sfu/Calls.antt =====
-- What a node answers to the dispatcher.
use Prim.Native.String.{◌++◌ as str_append}
use waterbus_rs.Base.{◌≡◌, Bool, String, string_eq, Option, none, err, arith}
use waterbus_rs.Base.Int.{ℤ}
use waterbus_rs.Table.{get}
use waterbus_rs.Webrtc.{Webrtc}
use waterbus_rs.Forward.{RtpForwardInfo}
use waterbus_rs.Multicast.{Channel}
use waterbus_rs.Manager.{
  get_client_by_id, in_room, set_subscriber_desc, manager_publisher_renegotiation,
  manager_migrate_connection, manager_leave_room, manager_set_video_enabled,
  manager_set_audio_enabled, manager_set_hand_raising, manager_set_screen_sharing,
  manager_set_camera_type,
}
use waterbus_rs.Sfu.{
  Node, Status, internal, error_text, or_internal, sfu_set_subscriber_sdp,
  sfu_publisher_renegotiation, sfu_migrate_publisher_connection, sfu_leave_room,
  sfu_set_video_enabled, sfu_set_audio_enabled, sfu_set_hand_raising, sfu_set_screen_sharing,
  sfu_set_camera_type,
}

-- The status for a client that the node does not know.
abbrev pub no_participant : String → Status
no_participant text = internal (str_append text "Participant not found")

module _ (w : Webrtc) {Packet : Type 0} (c : Channel (RtpForwardInfo Packet)) where
  -- A client that the node does not know is answered that the participant is not found, with a text
  -- that says what was asked for, and nothing changes.
  pub unknown_client_told :
      (id target sdp : String) (b : Bool) (n : ℤ) (screen : Option String) (m : Node w c)
      → get id m.clients ≡ none
      → (sfu_leave_room w c (record { client_id = id }) m
          ≡ (err (no_participant "Failed to leave room: "), m))
        × (sfu_set_subscriber_sdp w c (record { client_id = id; target_id = target; sdp = sdp }) m
            ≡ (err (no_participant "Failed to set subscriber sdp: "), m))
        × (sfu_publisher_renegotiation w c (record { client_id = id; sdp = sdp }) m
            ≡ (err (no_participant "Failed to handle publisher renegotiate: "), m))
        × (sfu_migrate_publisher_connection w c
              (record { client_id = id; sdp = sdp; connection_type = n })
              m
            ≡ (err (no_participant "Failed to handle publisher renegotiate: "), m))
        × (sfu_set_video_enabled w c (record { client_id = id; is_enabled = b }) m
            ≡ (err (no_participant "Failed to set video enabled: "), m))
        × (sfu_set_audio_enabled w c (record { client_id = id; is_enabled = b }) m
            ≡ (err (no_participant "Failed to set audio enabled: "), m))
        × (sfu_set_hand_raising w c (record { client_id = id; is_enabled = b }) m
            ≡ (err (no_participant "Failed to set hand raising: "), m))
        × (sfu_set_screen_sharing w c
              (record { client_id = id; is_enabled = b; screen_track_id = screen })
              m
            ≡ (err (no_participant "Failed to set screen sharing: "), m))
        × (sfu_set_camera_type w c (record { client_id = id; camera_type = n }) m
            ≡ (err (no_participant "Failed to set camera type: "), m))
  unfolding sfu_leave_room sfu_set_subscriber_sdp sfu_publisher_renegotiation
      sfu_migrate_publisher_connection sfu_set_video_enabled sfu_set_audio_enabled
      sfu_set_hand_raising sfu_set_screen_sharing sfu_set_camera_type or_internal error_text
      manager_leave_room set_subscriber_desc manager_publisher_renegotiation
      manager_migrate_connection manager_set_video_enabled manager_set_audio_enabled
      manager_set_hand_raising manager_set_screen_sharing manager_set_camera_type in_room
      get_client_by_id
  unknown_client_told id target sdp b n screen m unknown = (
    ground (arith, unknown),
    ground (arith, unknown),
    ground (arith, unknown),
    ground (arith, unknown),
    ground (arith, unknown),
    ground (arith, unknown),
    ground (arith, unknown),
    ground (arith, unknown),
    ground (arith, unknown),
  )

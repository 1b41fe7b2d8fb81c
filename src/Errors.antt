-- ===== src/Errors.antt =====
-- crates/webrtc-manager/src/errors/mod.rs
pub data WebRtcError : Type 0 where
  failed_to_add_track failed_to_replace_track failed_to_create_offer : WebRtcError
  failed_to_create_answer failed_to_create_peer failed_to_add_transceiver : WebRtcError
  failed_to_set_sdp failed_to_get_sdp failed_to_add_candidate failed_to_renegotiate : WebRtcError
  failed_to_migrate_connection peer_not_found participant_not_found room_not_found : WebRtcError

-- ===== src/Webrtc.antt =====
-- What crates/webrtc-manager calls of the peer connections of crate `webrtc`: a parameter of the
-- model. `Net` is the state of all peer connections of a room.
use waterbus_rs.Base.{ℕ, Bool, String, Option}
use waterbus_rs.Heap.{Ref}

-- crates/webrtc-manager/src/models/params.rs: what `RTCIceCandidateInit` is made of.
pub record IceCandidate : Type 0 where
  pub candidate : String
  pub sdp_mid : Option String
  pub sdp_m_line_index : Option ℕ

pub record Webrtc : Type 1 where
  pub Net : Type 0
  pub Peer : Type 0
  pub Description : Type 0
  pub new_peer_connection : Net → Option Peer × Net
  pub offer : String → Option Description
  pub answer : String → Option Description
  pub sdp : Description → String
  pub set_remote_description : Peer → Description → Net → Bool × Net
  pub set_local_description : Peer → Description → Net → Bool × Net
  pub local_description : Peer → Net → Option Description
  pub create_answer : Peer → Net → Option Description × Net
  pub create_offer : Peer → Net → Option Description × Net
  pub add_ice_candidate : Peer → IceCandidate → Net → Bool × Net
  -- the local track of the forward track that is stored at the reference
  pub add_transceiver_from_track : Peer → Ref → Net → Bool × Net
  pub close : Peer → Net → Net

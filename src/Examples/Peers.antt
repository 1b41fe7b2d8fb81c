-- ===== src/Examples/Peers.antt =====
-- Peer connections that are numbered as they are made, and that agree to every description.
use waterbus_rs.Base.{ℕ, ◌+◌, true, String, some}
use waterbus_rs.Webrtc.{Webrtc}

abbrev pub peers : Webrtc
peers = record {
  Net = ℕ;
  Peer = ℕ;
  Description = String;
  new_peer_connection = λ n. (some n, n + 1);
  offer = λ s. some s;
  answer = λ s. some s;
  sdp = λ d. d;
  set_remote_description = λ p d n. (true, n);
  set_local_description = λ p d n. (true, n);
  local_description = λ p n. some "local";
  create_answer = λ p n. (some "answer", n);
  create_offer = λ p n. (some "offer", n);
  add_ice_candidate = λ p i n. (true, n);
  add_transceiver_from_track = λ p r n. (true, n);
  close = λ p n. n;
}

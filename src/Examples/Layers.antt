-- ===== src/Examples/Layers.antt =====
-- A simulcast track with the layers `q` and `f`, and the packets that one subscriber is sent.
use waterbus_rs.Base.{
  ℕ, ◌≡◌, ◌≢◌, ◌↔◌, true, false, String, Option, none, List, [], ◌∷◌, ◌++◌, map, length, keep,
  concat, ◌≤◌, ◌%◌, arith, All,
}
use waterbus_rs.Quality.{TrackQuality, low, medium, high, from_u8, min_quality, Vp9Packet}
use waterbus_rs.Simulcast.{
  contains, rebuild_acceptable_map, is_acceptable_track, get_actual_served_quality,
  quality_fallback,
}
use waterbus_rs.Simulcast.Fallback.{fallback_agrees}
use waterbus_rs.Simulcast.Served.{accepts_served_layer}
use waterbus_rs.Forward.{
  ForwardTrack, RtpForwardInfo, new_forward, process_batch, get_desired_quality, receive_loop,
  batch_limit, waiting,
}
use waterbus_rs.Forward.Choice.{is_wanted, batch_of_served_layer}
use waterbus_rs.Forward.Receive.{receive_connected, receive_disconnected}

abbrev two_rids : List String
two_rids = "q" ∷ "f" ∷ []

medium_ne_none : medium ≢ TrackQuality.none
medium_ne_none = ground arith

accepts_served_layer_example :
    ((is_acceptable_track (rebuild_acceptable_map two_rids) high medium true ≡ true)
      ↔ (high ≡ get_actual_served_quality two_rids medium))
    × (is_acceptable_track (rebuild_acceptable_map two_rids) high medium false ≡ true)
accepts_served_layer_example = accepts_served_layer two_rids high medium medium_ne_none

fallback_agrees_example :
    quality_fallback (waterbus_rs.Simulcast.available_qualities two_rids) medium
    ≡ get_actual_served_quality two_rids medium
fallback_agrees_example = fallback_agrees two_rids medium

abbrev forward : ForwardTrack
forward = new_forward "alice" 7 true

abbrev packet_of : TrackQuality → ℕ → RtpForwardInfo ℕ
packet_of q n = record { packet = n; is_svc = false; is_simulcast = true; track_quality = q }

abbrev packets : List (RtpForwardInfo ℕ)
packets = packet_of low 1 ∷ packet_of high 2 ∷ packet_of low 3 ∷ []

abbrev no_vp9 : ℕ → Option Vp9Packet
no_vp9 n = none

wants_medium : get_desired_quality forward ≢ TrackQuality.none
unfolding get_desired_quality new_forward min_quality from_u8
wants_medium = ground arith

-- A packet with scalable layers, of a simulcast layer that is not served.
abbrev mixed : List (RtpForwardInfo ℕ)
mixed = record (packet_of high 4) { is_svc = true } ∷ packets

batch_of_served_layer_example :
    process_batch no_vp9 forward (rebuild_acceptable_map two_rids) mixed
    ≡ map
        (λ info. info.packet)
        (keep (is_wanted no_vp9 two_rids (get_desired_quality forward)) mixed)
batch_of_served_layer_example = batch_of_served_layer no_vp9 two_rids forward mixed wants_medium

receive_connected_example :
    ((receive_loop 3 true packets).1 ≡ waiting)
    × All (λ b. length b ≤ batch_limit) (receive_loop 3 true packets).0
    × (concat (
          map
            (process_batch no_vp9 forward (rebuild_acceptable_map two_rids))
            (receive_loop 3 true packets).0)
        ≡ process_batch no_vp9 forward (rebuild_acceptable_map two_rids) packets)
receive_connected_example =
    receive_connected no_vp9 forward (rebuild_acceptable_map two_rids) 3 packets (omega arith)

receive_disconnected_example :
    (lost : List (RtpForwardInfo ℕ)) × (concat (receive_loop 3 false packets).0 ++ lost ≡ packets)
    × (length lost ≡ length packets % batch_limit)
receive_disconnected_example = receive_disconnected 3 packets (omega arith)

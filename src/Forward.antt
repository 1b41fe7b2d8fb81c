-- ===== src/Forward.antt =====
-- crates/webrtc-manager/src/entities/forward_track.rs and models/rtp_foward_info.rs: one track as it
-- is forwarded to one subscriber. The packets and the VP9 depacketizer are those of crate `webrtc`,
-- so they are parameters. What `write_rtp_with_extensions` is given is the list that
-- `process_batch` returns; its errors are only logged.
pub mod Choice
pub mod Receive
use waterbus_rs.Base.{
  ℕ, suc, ◌+◌, Bool, true, false, not, ◌&&◌, String, Option, none, some, List, [], ◌∷◌, ◌++◌, ltb,
  length, if◌then◌else◌,
}
use waterbus_rs.Quality.{
  TrackQuality, medium, as_u8, from_u8, min_quality, quality_eq, Vp9Packet, should_forward_vp9_svc,
}
use waterbus_rs.Simulcast.{AcceptableMap, is_acceptable_track}

-- The two qualities are the bytes of two `AtomicU8`. `keyframe_request` says whether a callback
-- is set.
pub record ForwardTrack : Type 0 where
  pub track_id : String
  pub requested_quality : ℕ
  pub effective_quality : ℕ
  pub ssrc : ℕ
  pub keyframe_request : Bool

unfoldable pub new_forward : String → ℕ → Bool → ForwardTrack
new_forward forward_track_id ssrc keyframe_request = record {
  track_id = forward_track_id;
  requested_quality = as_u8 medium;
  effective_quality = as_u8 medium;
  ssrc = ssrc;
  keyframe_request = keyframe_request;
}

-- `set_requested_quality`: the new state, and the ssrcs for which a keyframe is requested.
unfoldable pub set_requested_quality : TrackQuality → ForwardTrack → ForwardTrack × List ℕ
set_requested_quality q f =
    if not (quality_eq q (from_u8 f.requested_quality))
    then (record f { requested_quality = as_u8 q }, if f.keyframe_request then f.ssrc ∷ [] else [])
    else (f, [])

unfoldable pub set_effective_quality : TrackQuality → ForwardTrack → ForwardTrack
set_effective_quality q f =
    if not (quality_eq q (from_u8 f.effective_quality))
    then record f { effective_quality = as_u8 q }
    else f

unfoldable pub get_desired_quality : ForwardTrack → TrackQuality
get_desired_quality f = min_quality (from_u8 f.requested_quality) (from_u8 f.effective_quality)

-- `acceptable_map` is shared with the track, so the batch reads the map as it is when the batch is
-- processed: it is an argument of `process_batch`, not a field.
pub record RtpForwardInfo (Packet : Type 0) : Type 0 where
  pub packet : Packet
  pub is_svc : Bool
  pub is_simulcast : Bool
  pub track_quality : TrackQuality

module _ {Packet : Type 0} (depacketize : Packet → Option Vp9Packet) where
  -- A header that cannot be read does not stop the packet.
  svc_allows : TrackQuality → Packet → Bool
  svc_allows desired p = elim (depacketize p) [
    | none ↦ true
    | some vp9 ↦ should_forward_vp9_svc desired vp9
  ]

  -- The body of the loop of `_process_batch`: is the packet written?
  unfoldable pub should_write : ForwardTrack → AcceptableMap → RtpForwardInfo Packet → Bool
  unfolding svc_allows
  should_write f m info =
      let desired = get_desired_quality f in
      if quality_eq desired TrackQuality.none
      then false
      else if not info.is_svc
          && not (is_acceptable_track m info.track_quality desired info.is_simulcast)
      then false
      else if info.is_svc
      then svc_allows desired info.packet
      else true

  -- `_process_batch`: the packets that are written, in order.
  unfoldable pub process_batch :
      ForwardTrack → AcceptableMap → List (RtpForwardInfo Packet) → List Packet
  process_batch f m [] = []
  process_batch f m (info ∷ batch) =
      let rest = process_batch f m batch in
      if should_write f m info then info.packet ∷ rest else rest

abbrev pub batch_limit : ℕ
batch_limit = 32

-- The inner `while` of `_receive_rtp`, over what is queued: the batch and what stays queued, or
-- `none` where `try_recv` finds the channel empty and disconnected, and the task returns.
unfoldable pub fill {ℓ} : {A : Type ℓ} → Bool → List A → List A → Option (List A × List A)
fill connected batch [] =
    if ltb (length batch) batch_limit
    then (if connected then some (batch, []) else none)
    else some (batch, [])
fill connected batch (x ∷ queue) =
    let more = fill connected (batch ++ x ∷ []) queue in
    if ltb (length batch) batch_limit then more else some (batch, x ∷ queue)

-- What the loop of `_receive_rtp` does with a queue to which nothing more is added.
pub data Outcome : Type 0 where
  -- it waits in `recv`; it left the loop; it returned with a batch not processed; out of fuel
  waiting stopped returned unfinished : Outcome

-- The batches that are processed, and how the loop ends.
unfoldable pub receive_loop {ℓ} : {A : Type ℓ} → ℕ → Bool → List A → List (List A) × Outcome
receive_loop fuel connected [] = ([], if connected then waiting else stopped)
receive_loop ℕ.zero connected (x ∷ queue) = ([], unfinished)
receive_loop (suc fuel) connected (x ∷ queue) = elim (fill connected (x ∷ []) queue) [
  | none ↦ ([], returned)
  | some (batch, queue') ↦ let rest = receive_loop fuel connected queue' in (batch ∷ rest.0, rest.1)
]

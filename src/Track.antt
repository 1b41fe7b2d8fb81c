-- ===== src/Track.antt =====
-- crates/webrtc-manager/src/entities/track.rs: one published track, with the remote tracks of its
-- layers and a forward track for each subscriber. Forward tracks are shared with the subscribers, so
-- the track holds references. `RemoteTrack` is what the code reads of a `TrackRemote` of crate
-- `webrtc`; `mime_lowercase` is `mime_type.to_lowercase()`.
pub mod Consistent
use waterbus_rs.Base.{
  ℕ, ◌≡◌, Bool, true, false, String, string_eq, Option, none, some, List, [], ◌∷◌, ◌++◌, map, ok,
  err, Result, if◌then◌else◌,
}
use text.Mathlib.Text.{find?}
use waterbus_rs.Heap.{Ref, alloc}
use waterbus_rs.Table.{Table, get, insert, remove}
use waterbus_rs.Quality.{TrackQuality, from_str}
use waterbus_rs.Simulcast.{AcceptableMap, rebuild_acceptable_map}
use waterbus_rs.Errors.{WebRtcError, failed_to_add_track}
use waterbus_rs.Forward.{ForwardTrack, RtpForwardInfo, new_forward}
use waterbus_rs.Multicast.{Channel, Senders, add_receiver, remove_receiver, send}

pub data RtpCodecType : Type 0 where
  unspecified audio video : RtpCodecType

pub data CodecType : Type 0 where
  h264 vp8 vp9 av1 other : CodecType

pub record RemoteTrack : Type 0 where
  pub id : String
  pub kind : RtpCodecType
  pub rid : String
  pub mime_type : String
  pub mime_lowercase : String
  pub stream_id : String
  pub ssrc : ℕ

-- `str::contains`
abbrev pub str_contains : String → String → Bool
str_contains s pat = elim (find? s pat) [ none ↦ false | some _ ↦ true ]

-- The `match` on the mime type in `Track::new`.
unfoldable pub codec_type_of : String → CodecType
codec_type_of s =
    if str_contains s "vp8"
    then vp8
    else if str_contains s "vp9"
    then vp9
    else if str_contains s "av1"
    then av1
    else if str_contains s "h264"
    then h264
    else other

abbrev pub is_vp9 : CodecType → Bool
is_vp9 vp9 = true
is_vp9 _ = false

-- One answer of `read_rtp`: a packet, with `payload.is_empty()`, or an error.
pub data ReadRtp (Packet : Type 0) : Type 0 where
  rtp : Bool → Packet → ReadRtp Packet
  failed : ReadRtp Packet

module _ {Packet : Type 0} (c : Channel (RtpForwardInfo Packet)) where
  pub record Track : Type 0 where
    pub id : String
    pub room_id : String
    pub participant_id : String
    pub is_simulcast : Bool
    pub is_svc : Bool
    pub codec_type : CodecType
    pub stream_id : String
    pub capability : String
    pub kind : RtpCodecType
    pub remote_tracks : List RemoteTrack
    pub forward_tracks : Table String Ref
    pub ssrc : ℕ
    pub acceptable_map : AcceptableMap
    pub rtp_multicast : Senders c
    pub keyframe_request : Bool

  abbrev pub rids : List RemoteTrack → List String
  rids = map (λ r. r.rid)

  -- `rebuild_acceptable_map`
  unfoldable pub rebuild_map : Track → Track
  rebuild_map t = record t { acceptable_map = rebuild_acceptable_map (rids t.remote_tracks) }

  -- `Track::new`. The task that it spawns is `forward_rtp` below.
  unfoldable pub new_track : RemoteTrack → String → String → Bool → Track
  unfolding rebuild_map
  new_track remote room_id participant_id keyframe_request =
      let codec = codec_type_of remote.mime_lowercase in
      rebuild_map (record {
        id = remote.id;
        room_id = room_id;
        participant_id = participant_id;
        is_simulcast = false;
        is_svc = is_vp9 codec;
        codec_type = codec;
        stream_id = remote.stream_id;
        capability = remote.mime_type;
        kind = remote.kind;
        remote_tracks = remote ∷ [];
        forward_tracks = [];
        ssrc = remote.ssrc;
        acceptable_map = [];
        rtp_multicast = [];
        keyframe_request = keyframe_request;
      })

  -- `Track::add_track`
  unfoldable pub add_track : RemoteTrack → Track → Track
  unfolding rebuild_map
  add_track remote t =
      let t' = rebuild_map (record t { remote_tracks = t.remote_tracks ++ remote ∷ [] }) in
      record t' { is_simulcast = true }

  -- `Track::stop`
  unfoldable pub stop : Track → Track
  stop t = record t { remote_tracks = []; forward_tracks = [] }

  -- `Track::new_forward_track`, over the heap of forward tracks.
  unfoldable pub new_forward_track :
      String → ℕ → Track → List ForwardTrack → Result WebRtcError (Ref × Track × List ForwardTrack)
  new_forward_track id ssrc t heap = elim (get id t.forward_tracks) [
    | some _ ↦ err failed_to_add_track
    | none ↦
        let senders = add_receiver c id t.rtp_multicast in
        let (r, heap') = alloc (new_forward id ssrc t.keyframe_request) heap in
        ok (
          r,
          record t { forward_tracks = insert id r t.forward_tracks; rtp_multicast = senders },
          heap',
        )
  ]

  -- `Track::remove_forward_track`
  unfoldable pub remove_forward_track : String → Track → Track
  remove_forward_track id t = record t {
    forward_tracks = remove id t.forward_tracks;
    rtp_multicast = remove_receiver c id t.rtp_multicast;
  }

  -- The task of `_forward_rtp` for one remote track, over what `read_rtp` answers.
  unfoldable pub forward_rtp : RemoteTrack → Track → List (ReadRtp Packet) → Track
  forward_rtp remote t [] = t
  forward_rtp remote t (failed ∷ reads) = t
  forward_rtp remote t (rtp is_empty packet ∷ reads) =
      let info : RtpForwardInfo Packet = record {
        packet = packet;
        is_svc = t.is_svc;
        is_simulcast = t.is_simulcast;
        track_quality = from_str remote.rid;
      } in
      forward_rtp remote
        (if is_empty then t else record t { rtp_multicast = send c info t.rtp_multicast }) reads

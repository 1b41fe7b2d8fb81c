-- ===== src/Media.antt =====
-- crates/webrtc-manager/src/entities/media.rs: what one participant publishes. A media of a room has
-- no HLS or MoQ writer (`join_room` initialises none), so the fields of the writers, which only the
-- egress crate reads, are left out; so are the callbacks and channels of the monitor. Tracks are
-- shared with the subscribers: a media holds references into a heap of tracks.
pub mod State
pub mod Tracks
use Prim.Native.String.{◌++◌ as str_append}
use waterbus_rs.Base.{
  ℕ, ◌≡◌, Bool, true, false, not, String, string_eq, Option, none, some, List, [], ◌∷◌,
  if◌then◌else◌,
}
use waterbus_rs.Heap.{Ref, alloc, modify_at}
use waterbus_rs.Table.{Table, get, insert, remove}
use waterbus_rs.Forward.{RtpForwardInfo}
use waterbus_rs.Multicast.{Channel}
use waterbus_rs.Track.{
  Track, RemoteTrack, RtpCodecType, unspecified, audio, video, new_track, add_track, stop,
}

pub record MediaState : Type 0 where
  pub video_enabled : Bool
  pub audio_enabled : Bool
  pub is_e2ee_enabled : Bool
  pub is_screen_sharing : Bool
  pub is_hand_raising : Bool
  pub camera_type : ℕ
  pub codec : String
  pub screen_track_id : Option String

pub record Media : Type 0 where
  pub media_id : String
  pub participant_id : String
  pub tracks : Table String Ref
  pub state : MediaState
  pub sdp : Option String
  pub keyframe_request : Bool

-- `Media::new`; the random part of the id is an argument.
unfoldable pub new_media : String → String → Bool → Bool → Bool → Media
new_media nanoid publisher_id is_video_enabled is_audio_enabled is_e2ee_enabled = record {
  media_id = str_append "m_" nanoid;
  participant_id = publisher_id;
  tracks = [];
  state = record {
    video_enabled = is_video_enabled;
    audio_enabled = is_audio_enabled;
    is_e2ee_enabled = is_e2ee_enabled;
    is_screen_sharing = false;
    is_hand_raising = false;
    camera_type = 0;
    codec = "";
    screen_track_id = none;
  };
  sdp = none;
  keyframe_request = false;
}

unfoldable pub cache_sdp : String → Media → Media
cache_sdp sdp m = record m { sdp = some sdp }

-- The cached description is taken.
unfoldable pub get_sdp : Media → Option String × Media
get_sdp m = (m.sdp, record m { sdp = none })

unfoldable pub set_hand_rasing : Bool → Media → Media
set_hand_rasing b m = record m { state = record m.state { is_hand_raising = b } }

unfoldable pub set_camera_type : ℕ → Media → Media
set_camera_type n m = record m { state = record m.state { camera_type = n } }

unfoldable pub set_video_enabled : Bool → Media → Media
set_video_enabled b m = record m { state = record m.state { video_enabled = b } }

unfoldable pub set_audio_enabled : Bool → Media → Media
set_audio_enabled b m = record m { state = record m.state { audio_enabled = b } }

unfoldable pub set_e2ee_enabled : Bool → Media → Media
set_e2ee_enabled b m = record m { state = record m.state { is_e2ee_enabled = b } }

remove_screen : Option String → Media → Media
remove_screen none m = m
remove_screen (some id) m = record m {
  tracks = remove id m.tracks;
  state = record m.state { screen_track_id = none };
}

-- `remove_screen_track`
unfoldable pub remove_screen_track : Media → Media
unfolding remove_screen
remove_screen_track m = remove_screen m.state.screen_track_id m

abbrev bool_eq : Bool → Bool → Bool
bool_eq true b = b
bool_eq false b = not b

unfoldable pub set_screen_sharing : Bool → Option String → Media → Media
unfolding remove_screen_track
set_screen_sharing is_enabled screen_track_id m =
    if bool_eq m.state.is_screen_sharing is_enabled
    then m
    else (if not is_enabled
        then remove_screen_track
            (record m { state = record m.state { is_screen_sharing = is_enabled } })
        else record m {
          state = record m.state {
            is_screen_sharing = is_enabled;
            screen_track_id = screen_track_id;
          };
        })

-- The state that `stop` leaves.
unfoldable pub stopped_state : MediaState → MediaState
stopped_state s = record s {
  screen_track_id = none;
  video_enabled = false;
  audio_enabled = false;
  is_screen_sharing = false;
  is_hand_raising = false;
  camera_type = 0;
  codec = "";
}

abbrev pub is_video : RtpCodecType → Bool
is_video video = true
is_video _ = false

abbrev with_codec : RemoteTrack → MediaState → MediaState
with_codec remote s = if is_video remote.kind then record s { codec = remote.mime_type } else s

-- `AddTrackResponse`; the code never answers with its third constructor.
pub data AddTrackResponse : Type 0 where
  add_track_success add_simulcast_track_success : Ref → AddTrackResponse
  failed_to_add_track : AddTrackResponse

module _ {Packet : Type 0} (c : Channel (RtpForwardInfo Packet)) where
  stop_all : Table String Ref → List (Track c) → List (Track c)
  stop_all [] heap = heap
  stop_all ((id, r) ∷ rest) heap = stop_all rest (modify_at r (stop c) heap)

  unfoldable pub remove_all_tracks : Media → List (Track c) → Media × List (Track c)
  unfolding stop_all
  remove_all_tracks m heap = (record m { tracks = [] }, stop_all m.tracks heap)

  -- `Media::stop`
  unfoldable pub stop_media : Media → List (Track c) → Media × List (Track c)
  unfolding remove_all_tracks stopped_state
  stop_media m heap =
      let (m', heap') = remove_all_tracks m heap in
      (record m' { state = stopped_state m'.state }, heap')

  unfoldable pub added :
      Option Ref
      → RemoteTrack
      → String
      → Media
      → List (Track c)
      → AddTrackResponse × Media × List (Track c)
  added (some r) remote room_id m heap = (
    add_simulcast_track_success r,
    record m { state = with_codec remote m.state },
    modify_at r (add_track c remote) heap,
  )
  added none remote room_id m heap =
      let (r, heap') =
        alloc (new_track c remote room_id m.participant_id m.keyframe_request) heap in
      (
        add_track_success r,
        record m { state = with_codec remote m.state; tracks = insert remote.id r m.tracks },
        heap',
      )

  -- `Media::add_track`
  unfoldable pub media_add_track :
      RemoteTrack → String → Media → List (Track c) → AddTrackResponse × Media × List (Track c)
  unfolding added
  media_add_track remote room_id m heap = added (get remote.id m.tracks) remote room_id m heap

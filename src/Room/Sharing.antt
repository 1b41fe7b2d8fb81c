-- ===== src/Room/Sharing.antt =====
-- What the callbacks of `join_room` in crates/webrtc-manager/src/room.rs do: a track that arrives is
-- added to the media of its publisher and sent to the subscribers of this publisher, and the joined
-- callback is called. A callback holds the media of its publisher: here it is that of the publisher
-- of this id, and a track that arrives after the publisher has left is dropped.
use waterbus_rs.Base.{
  ℕ, ◌+◌, ◌%◌, Bool, true, false, not, ◌&&◌, String, string_eq, none, some, ok, err, List, [], ◌∷◌,
  ◌==◌, if◌then◌else◌,
}
use waterbus_rs.Heap.{Ref}
use waterbus_rs.Table.{get, insert}
use waterbus_rs.Webrtc.{Webrtc}
use waterbus_rs.Forward.{RtpForwardInfo}
use waterbus_rs.Multicast.{Channel}
use waterbus_rs.Track.{RemoteTrack}
use waterbus_rs.Media.{
  AddTrackResponse, add_track_success, add_simulcast_track_success, failed_to_add_track,
  media_add_track,
}
use waterbus_rs.Room.{Room, peers_of}
use waterbus_rs.Quality.{p2p, connection_eq}
use waterbus_rs.Room.Connecting.{JoinRoomParams, connected_add_track, emit_joined}

-- What one call of `join_room` shares with its callbacks: `track_counter` is a byte.
pub record Joining : Type 0 where
  pub participant_id : String
  pub is_migrate : Bool
  pub total_tracks : ℕ
  pub track_counter : ℕ
  pub callback_called : Bool
  pub has_emitted : Bool

-- The start of `join_room`.
unfoldable pub new_joining : JoinRoomParams → Joining
new_joining params = record {
  participant_id = params.participant_id;
  is_migrate = connection_eq params.connection_type p2p;
  total_tracks = params.total_tracks;
  track_counter = 0;
  callback_called = false;
  has_emitted = false;
}

module _ (w : Webrtc) {Packet : Type 0} (c : Channel (RtpForwardInfo Packet)) where
  -- The loop of `_add_track_to_subscribers`, which an error leaves.
  unfoldable pub add_to_peers : Ref → List String → Room w c → Room w c
  add_to_peers r [] room = room
  add_to_peers r (key ∷ keys) room = elim (get key room.subscribers) [
    | none ↦ add_to_peers r keys room
    | some s ↦
        let (result, s', room') = connected_add_track w c r s room in
        let room'' : Room w c = record room' { subscribers = insert key s' room'.subscribers } in
        let rest = add_to_peers r keys room'' in elim result [ ok _ ↦ rest | err _ ↦ room'' ]
  ]

  unfoldable pub add_track_to_subscribers : Ref → String → Room w c → Room w c
  add_track_to_subscribers r target_id room = add_to_peers r (peers_of w c target_id room) room

  -- A new track is counted; the callback is called once, when the count is reached.
  unfoldable pub count_track : Joining → Room w c → Joining × Room w c
  count_track j room =
      let count = (j.track_counter + 1) % 256 in
      if count == j.total_tracks && not j.callback_called
      then (
        record j { track_counter = count; callback_called = true },
        emit_joined w c j.participant_id j.is_migrate room,
      )
      else (record j { track_counter = count }, room)

  unfoldable pub shared : Joining → AddTrackResponse → Room w c → Joining × Room w c
  shared j (add_track_success r) room =
      count_track j (add_track_to_subscribers r j.participant_id room)
  shared j (add_simulcast_track_success r) room =
      (j, add_track_to_subscribers r j.participant_id room)
  shared j failed_to_add_track room = (j, room)

  -- The callback of `on_track`.
  unfoldable pub on_track : String → RemoteTrack → Joining → Room w c → Joining × Room w c
  on_track room_id remote j room = elim (get j.participant_id room.publishers) [
    | none ↦ (j, room)
    | some p ↦
        let (response, media, published) =
          media_add_track c remote room_id p.media room.store.published in
        shared j response (record room {
          publishers = insert j.participant_id (record p { media = media }) room.publishers;
          store = record room.store { published = published };
        })
  ]

  unfoldable pub on_tracks : String → List RemoteTrack → Joining → Room w c → Joining × Room w c
  on_tracks room_id [] j room = (j, room)
  on_tracks room_id (t ∷ ts) j room =
      let (j', room') = on_track room_id t j room in on_tracks room_id ts j' room'

  -- The callback of `on_peer_connection_state_change`, which is there if no tracks are expected.
  unfoldable pub on_connected : Joining → Room w c → Joining × Room w c
  on_connected j room =
      if j.total_tracks == 0 && not j.has_emitted
      then (record j { has_emitted = true }, emit_joined w c j.participant_id j.is_migrate room)
      else (j, room)

  -- What the callbacks of one join are called for: a track, or a connection that comes up.
  pub data Happening : Type 0 where
    arrived : RemoteTrack → Happening
    connected : Happening

  unfoldable pub on_happening : String → Happening → Joining → Room w c → Joining × Room w c
  on_happening room_id (arrived t) j room = on_track room_id t j room
  on_happening room_id connected j room = on_connected j room

  unfoldable pub on_happenings : String → List Happening → Joining → Room w c → Joining × Room w c
  on_happenings room_id [] j room = (j, room)
  on_happenings room_id (h ∷ hs) j room =
      let (j', room') = on_happening room_id h j room in on_happenings room_id hs j' room'

-- ===== src/Room.antt =====
-- crates/webrtc-manager/src/room.rs and the parts of entities/publisher.rs that it uses: the
-- publishers and the subscribers of a room, which share tracks. Each has a peer connection.
pub mod Leaving
pub mod Connecting
pub mod Sharing
pub mod Exchange
pub mod Arriving
pub mod Announced
use Prim.Native.String.{◌++◌ as str_append}
use waterbus_rs.Base.{
  ℕ, Bool, true, false, not, String, string_eq, starts_with, Option, none, some, Result, ok, err,
  List, [], ◌∷◌, map, keep,
}
use waterbus_rs.Heap.{Ref, read}
use waterbus_rs.Table.{Table, get, insert, remove}
use waterbus_rs.Webrtc.{Webrtc}
use waterbus_rs.Errors.{WebRtcError, participant_not_found}
use waterbus_rs.Forward.{RtpForwardInfo}
use waterbus_rs.Multicast.{Channel}
use waterbus_rs.Track.{Track}
use waterbus_rs.Media.{
  Media, set_e2ee_enabled, set_camera_type, set_video_enabled, set_audio_enabled,
  set_screen_sharing, set_hand_rasing, stop_media,
}
use waterbus_rs.Subscriber.{Subscriber, Store, subscriber_add_track, clear_all_forward_tracks}

-- `_get_subscriber_peer_id`
unfoldable pub peer_id : String → String → String
peer_id target_id participant_id =
    str_append (str_append "p_" (str_append target_id "_")) participant_id

-- The prefix of the ids of the subscribers of a publisher.
unfoldable pub peer_prefix : String → String
peer_prefix target_id = str_append "p_" (str_append target_id "_")

module _ (w : Webrtc) where
  -- `connection_type` is the byte of an `AtomicU8`.
  pub record Publisher : Type 0 where
    pub media : Media
    pub peer_connection : w.Peer
    pub connection_type : ℕ

  -- A `Subscriber` with its peer connection.
  pub record Connected : Type 0 where
    pub peer_connection : w.Peer
    pub subscriber : Subscriber

module _ (w : Webrtc) {Packet : Type 0} (c : Channel (RtpForwardInfo Packet)) where
  -- `joined` is what the callbacks of `join_room` were called with, the last one first.
  pub record Room : Type 0 where
    pub publishers : Table String (Publisher w)
    pub subscribers : Table String (Connected w)
    pub store : Store c
    pub net : w.Net
    pub joined : List (String × Bool)

  -- `Room::new`, where `net` is the state of no peer connection.
  unfoldable pub new_room : w.Net → Room
  new_room net = record {
    publishers = [];
    subscribers = [];
    store = record { published = []; forwards = [] };
    net = net;
    joined = [];
  }

  -- The keys that are collected before the loops over the subscribers of a publisher.
  unfoldable pub peers_of : String → Room → List String
  peers_of target_id room =
      keep (λ key. starts_with key (peer_prefix target_id)) (map (λ e. e.0) room.subscribers)

  -- `subscribers.remove` and `close`.
  close_subscriber : String → Room → Room
  close_subscriber key room = elim (get key room.subscribers) [
    | none ↦ room
    | some s ↦ record room {
      subscribers = remove key room.subscribers;
      store = (clear_all_forward_tracks c s.subscriber room.store).1;
      net = w.close s.peer_connection room.net;
    }
  ]

  unfoldable pub close_each : List String → Room → Room
  unfolding close_subscriber
  close_each [] room = room
  close_each (key ∷ keys) room = close_each keys (close_subscriber key room)

  -- `_remove_all_subscribers_with_target_id`
  unfoldable pub remove_all_subscribers_with_target_id : String → Room → Room
  remove_all_subscribers_with_target_id participant_id room =
      close_each (peers_of participant_id room) room

  -- `publishers.remove` and `close`, after the task that it spawns.
  unfoldable pub remove_publisher : String → Room → Room
  remove_publisher participant_id room = elim (get participant_id room.publishers) [
    | none ↦ room
    | some p ↦ record room {
      publishers = remove participant_id room.publishers;
      store = record room.store { published = (stop_media c p.media room.store.published).1 };
      net = w.close p.peer_connection room.net;
    }
  ]

  -- `Room::leave_room`
  unfoldable pub room_leave : String → Room → Room
  room_leave participant_id room =
      remove_publisher participant_id (remove_all_subscribers_with_target_id participant_id room)

  -- `_get_media`, and a change of the media.
  unfoldable pub with_media : (Media → Media) → String → Room → Result WebRtcError (Unit {0}) × Room
  with_media f participant_id room = elim (get participant_id room.publishers) [
    | none ↦ (err participant_not_found, room)
    | some p ↦ (
      ok tt,
      record room {
        publishers = insert participant_id (record p { media = f p.media }) room.publishers;
      },
    )
  ]

  unfoldable pub room_set_e2ee_enabled : String → Bool → Room → Result WebRtcError (Unit {0}) × Room
  room_set_e2ee_enabled id b room = with_media (set_e2ee_enabled b) id room

  unfoldable pub room_set_camera_type : String → ℕ → Room → Result WebRtcError (Unit {0}) × Room
  room_set_camera_type id n room = with_media (set_camera_type n) id room

  unfoldable pub room_set_video_enabled :
      String → Bool → Room → Result WebRtcError (Unit {0}) × Room
  room_set_video_enabled id b room = with_media (set_video_enabled b) id room

  unfoldable pub room_set_audio_enabled :
      String → Bool → Room → Result WebRtcError (Unit {0}) × Room
  room_set_audio_enabled id b room = with_media (set_audio_enabled b) id room

  unfoldable pub room_set_screen_sharing :
      String → Bool → Option String → Room → Result WebRtcError (Unit {0}) × Room
  room_set_screen_sharing id b screen room = with_media (set_screen_sharing b screen) id room

  unfoldable pub room_set_hand_raising : String → Bool → Room → Result WebRtcError (Unit {0}) × Room
  room_set_hand_raising id b room = with_media (set_hand_rasing b) id room

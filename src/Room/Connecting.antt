-- ===== src/Room/Connecting.antt =====
-- The handlers of crates/webrtc-manager/src/room.rs that exchange descriptions: joining, subscribing,
-- renegotiation, migration and candidates. A `?` ends the handler and keeps what was written.
use waterbus_rs.Base.{
  ℕ, Bool, true, false, String, string_eq, Option, none, some, Result, ok, err, List, [], ◌∷◌,
  length, if◌then◌else◌,
}
use waterbus_rs.Heap.{Ref, read}
use waterbus_rs.Table.{get, insert}
use waterbus_rs.Webrtc.{Webrtc, IceCandidate}
use waterbus_rs.Errors.{
  WebRtcError, failed_to_create_peer, failed_to_create_offer, failed_to_create_answer,
  failed_to_set_sdp, failed_to_get_sdp, failed_to_add_candidate, peer_not_found,
  participant_not_found,
}
use waterbus_rs.Action.{Action, pure, fail, gets, or_fail, attempt, modify, ensure, ◌>>=◌, ◌>>◌}
use waterbus_rs.Quality.{
  ConnectionType, p2p, sfu, connection_to_u8, connection_from_u8, connection_eq,
}
use waterbus_rs.Forward.{RtpForwardInfo}
use waterbus_rs.Multicast.{Channel}
use waterbus_rs.Track.{Track}
use waterbus_rs.Media.{Media, MediaState, new_media, cache_sdp, get_sdp, remove_all_tracks}
use waterbus_rs.Subscriber.{Subscriber, new_subscriber, subscriber_add_track, refs}
use waterbus_rs.Room.{Room, Publisher, Connected, peer_id}

-- `JoinRoomParams` without its callbacks, and the random part of the id of the media.
pub record JoinRoomParams : Type 0 where
  pub sdp : String
  pub participant_id : String
  pub is_video_enabled : Bool
  pub is_audio_enabled : Bool
  pub is_e2ee_enabled : Bool
  pub total_tracks : ℕ
  pub connection_type : ConnectionType
  pub nanoid : String

pub record JoinRoomResponse : Type 0 where
  pub sdp : String
  pub is_recording : Bool

-- `SubscribeResponse`: the state of the media, and the offer.
pub record SubscribeResponse : Type 0 where
  pub offer : String
  pub camera_type : ℕ
  pub video_enabled : Bool
  pub audio_enabled : Bool
  pub is_screen_sharing : Bool
  pub is_hand_raising : Bool
  pub is_e2ee_enabled : Bool
  pub video_codec : String
  pub screen_track_id : Option String

-- `_extract_subscribe_response`, with the offer put in.
unfoldable pub extract_subscribe_response : String → MediaState → SubscribeResponse
extract_subscribe_response offer s = record {
  offer = offer;
  camera_type = s.camera_type;
  video_enabled = s.video_enabled;
  audio_enabled = s.audio_enabled;
  is_screen_sharing = s.is_screen_sharing;
  is_hand_raising = s.is_hand_raising;
  is_e2ee_enabled = s.is_e2ee_enabled;
  video_codec = s.codec;
  screen_track_id = s.screen_track_id;
}

module _ (w : Webrtc) {Packet : Type 0} (c : Channel (RtpForwardInfo Packet)) where
  abbrev pub Handler : Type 0 → Type 0
  Handler A = Action (Room w c) WebRtcError A

  -- A call of the peer connections, on the room.
  abbrev pub on_net : {A : Type 0} → (w.Net → A × w.Net) → Room w c → A × Room w c
  on_net f room = let (a, net) = f room.net in (a, record room { net = net })

  -- `_create_pc`
  unfoldable pub create_pc : Handler w.Peer
  create_pc = attempt (on_net w.new_peer_connection) failed_to_create_peer

  -- `_get_publisher`
  unfoldable pub get_publisher : String → Handler (Publisher w)
  get_publisher id room = or_fail (get id room.publishers) participant_not_found room

  -- `_get_subscriber`
  unfoldable pub get_subscriber : String → String → Handler (Connected w)
  get_subscriber target_id participant_id room =
      or_fail (get (peer_id target_id participant_id) room.subscribers) peer_not_found room

  -- An offer is set, and answered: the description that is returned.
  unfoldable pub answer_offer : w.Peer → String → Handler w.Description
  answer_offer peer sdp = do
    offer ← or_fail (w.offer sdp) failed_to_create_offer
    ensure (on_net (w.set_remote_description peer offer)) failed_to_set_sdp
    answer ← attempt (on_net (w.create_answer peer)) failed_to_create_answer
    ensure (on_net (w.set_local_description peer answer)) failed_to_set_sdp
    pure answer

  -- The publisher that `join_room` makes. `Publisher::new` sets the keyframe callback.
  unfoldable pub new_publisher : JoinRoomParams → w.Peer → Publisher w
  new_publisher params peer =
      let media =
        new_media params.nanoid params.participant_id params.is_video_enabled
          params.is_audio_enabled params.is_e2ee_enabled in
      let media' =
        if connection_eq params.connection_type p2p then cache_sdp params.sdp media else media in
      record {
        media = record media' { keyframe_request = true };
        peer_connection = peer;
        connection_type = connection_to_u8 params.connection_type;
      }

  abbrev add_publisher : String → Publisher w → Room w c → Room w c
  add_publisher id p room = record room { publishers = insert id p room.publishers }

  abbrev pub emit_joined : String → Bool → Room w c → Room w c
  emit_joined id is_migrate room = record room { joined = (id, is_migrate) ∷ room.joined }

  -- `Room::join_room`
  unfoldable pub room_join : JoinRoomParams → Handler (Option JoinRoomResponse)
  unfolding answer_offer
  room_join params = do
    peer ← create_pc
    modify (add_publisher params.participant_id (new_publisher params peer))
    if connection_eq params.connection_type sfu
        then (do
          answer ← answer_offer peer params.sdp
          pure (some (record { sdp = w.sdp answer; is_recording = false })))
        else (do modify (emit_joined params.participant_id false); pure none)

  -- Does `Subscriber::add_track` come to ask for a transceiver?
  unfoldable pub asks_transceiver : Track c → Subscriber → Bool
  asks_transceiver t s = elim (get t.id s.tracks) [
    | some _ ↦ false
    | none ↦ elim (get s.user_id t.forward_tracks) [ some _ ↦ false | none ↦ true ]
  ]

  -- `Subscriber::add_track` with its peer connection, for the track at `r`.
  unfoldable pub connected_add_track :
      Ref → Connected w → Room w c → Result WebRtcError (Unit {0}) × Connected w × Room w c
  unfolding asks_transceiver
  connected_add_track r s room = elim (read r room.store.published) [
    | none ↦ (ok tt, s, room)
    | some t ↦
        let (answer, net) =
          w.add_transceiver_from_track s.peer_connection (length room.store.forwards) room.net in
        let (result, s', store) = subscriber_add_track c answer r t s.subscriber room.store in
        (
          result,
          record s { subscriber = s' },
          record room {
            store = store;
            net = if asks_transceiver t s.subscriber then net else room.net;
          },
        )
  ]

  -- `_forward_all_tracks`: an error leaves the loop.
  unfoldable pub forward_all_tracks : List Ref → Connected w → Room w c → Connected w × Room w c
  forward_all_tracks [] s room = (s, room)
  forward_all_tracks (r ∷ rs) s room =
      let (result, s', room') = connected_add_track r s room in
      let rest = forward_all_tracks rs s' room' in elim result [ ok _ ↦ rest | err _ ↦ (s', room') ]

  abbrev set_subscriber : String → Connected w → Room w c → Room w c
  set_subscriber key s room = record room { subscribers = insert key s room.subscribers }

  -- The subscriber at `key` is sent the tracks of a media.
  unfoldable pub forward_media : String → Media → Connected w → Room w c → Room w c
  forward_media key media s room =
      let (s', room') = forward_all_tracks (refs media.tracks) s room in set_subscriber key s' room'

  -- The first subscriber of a peer-to-peer publisher takes the cached offer.
  unfoldable pub take_sdp : String → Publisher w → Handler (Option String)
  take_sdp id p room =
      let (sdp, media) = get_sdp p.media in
      (ok sdp, record room { publishers = insert id (record p { media = media }) room.publishers })

  -- `Room::subscribe`, at the time `now`.
  unfoldable pub room_subscribe : String → String → ℕ → Handler SubscribeResponse
  room_subscribe target_id participant_id now = do
    p ← get_publisher target_id
    cached ← take_sdp target_id p
    elim cached [
      | some sdp ↦ pure (extract_subscribe_response sdp p.media.state)
      | none ↦
          if connection_eq (connection_from_u8 p.connection_type) p2p
          then fail peer_not_found
          else (do
            peer ← create_pc
            let key = peer_id target_id participant_id
            let s : Connected w = record {
              peer_connection = peer;
              subscriber = new_subscriber participant_id now;
            }
            modify (set_subscriber key s)
            modify (forward_media key p.media s)
            offer ← attempt (on_net (w.create_offer peer)) failed_to_create_offer
            ensure (on_net (w.set_local_description peer offer)) failed_to_set_sdp
            net ← gets (λ (r : Room w c). r.net)
            local ← or_fail (w.local_description peer net) failed_to_get_sdp
            pure (extract_subscribe_response (w.sdp local) p.media.state))
    ]

  unfoldable pub set_subscriber_remote_sdp : String → String → String → Handler (Unit {0})
  set_subscriber_remote_sdp target_id participant_id sdp = do
    s ← get_subscriber target_id participant_id
    answer ← or_fail (w.answer sdp) failed_to_create_answer
    ensure (on_net (w.set_remote_description s.peer_connection answer)) failed_to_set_sdp

  unfoldable pub handle_publisher_renegotiation : String → String → Handler String
  handle_publisher_renegotiation participant_id sdp = do
    p ← get_publisher participant_id
    answer ← answer_offer p.peer_connection sdp
    pure (w.sdp answer)

  abbrev set_connection_type : String → ConnectionType → Publisher w → Room w c → Room w c
  set_connection_type id t p room = record room {
    publishers = insert id (record p { connection_type = connection_to_u8 t }) room.publishers;
  }

  -- The media of a publisher who goes back to peer-to-peer: its tracks are stopped and forgotten,
  -- and its offer is kept.
  unfoldable pub to_p2p : String → String → Publisher w → Room w c → Room w c
  to_p2p id sdp p room =
      let (media, published) = remove_all_tracks c p.media room.store.published in
      record room {
        publishers = insert id (record p { media = cache_sdp sdp media }) room.publishers;
        store = record room.store { published = published };
      }

  unfoldable pub handle_migrate_connection :
      String → String → ConnectionType → Handler (Option String)
  handle_migrate_connection participant_id sdp connection_type = do
    p ← get_publisher participant_id
    modify (set_connection_type participant_id connection_type p)
    if connection_eq connection_type sfu
        then (do answer ← answer_offer p.peer_connection sdp; pure (some (w.sdp answer)))
        else (do
          p' ← get_publisher participant_id
          modify (to_p2p participant_id sdp p')
          pure none)

  unfoldable pub room_add_publisher_candidate : String → IceCandidate → Handler (Unit {0})
  room_add_publisher_candidate participant_id candidate = do
    p ← get_publisher participant_id
    ensure (on_net (w.add_ice_candidate p.peer_connection candidate)) failed_to_add_candidate

  unfoldable pub room_add_subscriber_candidate : String → String → IceCandidate → Handler (Unit {0})
  room_add_subscriber_candidate target_id participant_id candidate = do
    s ← get_subscriber target_id participant_id
    ensure (on_net (w.add_ice_candidate s.peer_connection candidate)) failed_to_add_candidate

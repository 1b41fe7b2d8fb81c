-- ===== src/Examples/Exchange.antt =====
-- Participants who join, publish, subscribe and migrate in a room.
use mathlib.Core.Option
use waterbus_rs.Base.{◌≡◌, refl, true, false, string_eq, none, some, ok, err, List, [], ◌∷◌, arith}
use waterbus_rs.Table.{get}
use waterbus_rs.Errors.{peer_not_found}
use waterbus_rs.Quality.{p2p, connection_from_u8}
use waterbus_rs.Track.{RemoteTrack}
use waterbus_rs.Media.{new_media, cache_sdp}
use waterbus_rs.Room.{Room, Publisher}
use waterbus_rs.Room.Connecting.{
  JoinRoomParams, extract_subscribe_response, room_subscribe, handle_migrate_connection,
}
use waterbus_rs.Room.Exchange.{offer_taken_once, migrated_to_p2p}
use waterbus_rs.Room.Sharing.{Joining, Happening, arrived, connected, on_tracks}
use waterbus_rs.Room.Arriving.{AreNew, joined_at_last}
use waterbus_rs.Examples.Peers.{peers}
use waterbus_rs.Examples.Tracks.{channel, encoding}
use waterbus_rs.Examples.Rooms.{room, publisher}

abbrev joining : Joining
joining = record {
  participant_id = "p1";
  is_migrate = false;
  total_tracks = 2;
  track_counter = 0;
  callback_called = false;
  has_emitted = false;
}

abbrev arriving : List RemoteTrack
arriving = encoding "q" ∷ record (encoding "q") { id = "microphone" } ∷ []

abbrev params : JoinRoomParams
params = record {
  sdp = "offer";
  participant_id = "p9";
  is_video_enabled = true;
  is_audio_enabled = true;
  is_e2ee_enabled = false;
  total_tracks = 2;
  connection_type = p2p;
  nanoid = "m9";
}

abbrev happenings : List (Happening peers channel)
happenings =
    arrived (encoding "q") ∷ connected ∷ arrived (record (encoding "q") { id = "microphone" }) ∷ []

there : get "p1" room.publishers ≡ some publisher
there = unfold get in refl

arriving-AreNew : AreNew publisher.media.tracks arriving
arriving-AreNew = unfold get new_media in (refl, (refl, tt), (refl, tt, tt))

joined_at_last_example :
    (on_tracks peers channel "room" arriving joining room).1.joined ≡ ("p1", false) ∷ room.joined
joined_at_last_example =
    joined_at_last peers channel "room" arriving joining room publisher there arriving-AreNew
      (omega arith) refl (omega arith) refl

abbrev caller : Publisher peers
caller = record publisher { media = cache_sdp "offer" publisher.media; connection_type = 0 }

abbrev direct : Room peers channel
direct = record room { publishers = ("p1", caller) ∷ [] }

calling : get "p1" direct.publishers ≡ some caller
calling = unfold get in refl

cached : caller.media.sdp ≡ some "offer"
cached = unfold cache_sdp in refl

of_p2p : connection_from_u8 caller.connection_type ≡ p2p
of_p2p = unfold connection_from_u8 in refl

offer_taken_once_example :
    (let one = room_subscribe peers channel "p1" "alice" 5 direct in
      let two = room_subscribe peers channel "p1" "bob" 6 one.1 in
      (one.0 ≡ ok (extract_subscribe_response "offer" caller.media.state))
      × (two.0 ≡ err peer_not_found)
      × (two.1.subscribers ≡ direct.subscribers))
offer_taken_once_example =
    offer_taken_once peers channel "p1" "alice" "bob" "offer" 5 6 caller direct calling cached
      of_p2p

migrated_to_p2p_example :
    (let after = handle_migrate_connection peers channel "p1" "offer" p2p room in
      (after.0 ≡ ok none)
      × (Option.map (λ q. q.media.tracks) (get "p1" after.1.publishers) ≡ some [])
      × ((room_subscribe peers channel "p1" "alice" 5 after.1).0
          ≡ ok (extract_subscribe_response "offer" publisher.media.state)))
migrated_to_p2p_example = migrated_to_p2p peers channel "p1" "offer" "alice" 5 publisher room there

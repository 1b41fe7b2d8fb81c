-- ===== src/Subscriber.antt =====
-- crates/webrtc-manager/src/entities/subscriber.rs: the tracks of one publisher as one participant is
-- sent them. Tracks and forward tracks are shared with the publisher, so they are cells of a store,
-- and a subscriber holds references. What the peer connection of crate `webrtc` answers to
-- `add_transceiver_from_track` is an argument, and the keyframes that are requested from it are left
-- out; so are the spawning of the tasks and the logs.
pub mod Forwarding
pub mod Adjusting
use waterbus_rs.Base.{
  ℕ, Bool, true, false, String, string_eq, Option, none, some, Result, ok, err, List, [], ◌∷◌, map,
}
use waterbus_rs.Heap.{Ref, read, write, modify_at, modify_all}
use waterbus_rs.Table.{Table, get, insert}
use waterbus_rs.Quality.{TrackQuality, medium, as_u8, from_u8}
use waterbus_rs.Errors.{WebRtcError, failed_to_add_track}
use waterbus_rs.Forward.{ForwardTrack, RtpForwardInfo, set_effective_quality}
use waterbus_rs.Network.{Adaptation, default_stats, update_quality_timestamp, Report, monitor_rtcp}
use waterbus_rs.Multicast.{Channel}
use waterbus_rs.Track.{Track, new_forward_track, remove_forward_track}

-- `adaptation` holds `preferred_quality`, `network_stats` and the mark of the watch channel.
pub record Subscriber : Type 0 where
  pub user_id : String
  pub adaptation : Adaptation
  pub tracks : Table String Ref
  pub track_map : Table String Ref
  pub client_requested_quality : Option TrackQuality

-- `Subscriber::new` at the time `now`.
unfoldable pub new_subscriber : String → ℕ → Subscriber
new_subscriber user_id now = record {
  user_id = user_id;
  adaptation = record {
    preferred_quality = as_u8 medium;
    stats = default_stats now;
    notified = false;
  };
  tracks = [];
  track_map = [];
  client_requested_quality = none;
}

abbrev pub refs : Table String Ref → List Ref
refs = map (λ e. e.1)

-- The forward tracks after one turn of the loop of `spawn_track_update_loop`.
unfoldable pub track_update : Subscriber → List ForwardTrack → List ForwardTrack
track_update s forwards =
    modify_all (set_effective_quality (from_u8 s.adaptation.preferred_quality)) (refs s.track_map)
      forwards

-- `force_quality_for_migration` at the time `now`.
unfoldable pub force_quality_for_migration :
    TrackQuality → ℕ → Subscriber → List ForwardTrack → Subscriber × List ForwardTrack
force_quality_for_migration q now s forwards = (
  record s {
    adaptation = record s.adaptation {
      preferred_quality = as_u8 q;
      stats = update_quality_timestamp now s.adaptation.stats;
    };
  },
  modify_all (set_effective_quality q) (refs s.track_map) forwards,
)

-- A request that came through the data channel; one that cannot be parsed changes nothing.
pub record TrackQualityRequest : Type 0 where
  pub track_id : String
  pub quality : TrackQuality

-- The callback of `on_message`.
unfoldable pub on_message :
    TrackQualityRequest → Subscriber → List ForwardTrack → Subscriber × List ForwardTrack
on_message request s forwards = (
  record s {
    client_requested_quality = some request.quality;
    adaptation = record s.adaptation { preferred_quality = as_u8 request.quality };
  },
  elim (get request.track_id s.track_map) [
    | none ↦ forwards
    | some r ↦ modify_at r (set_effective_quality request.quality) forwards
  ],
)

unfoldable pub get_network_stats : Subscriber → TrackQuality × TrackQuality
get_network_stats s = (from_u8 s.adaptation.preferred_quality, s.adaptation.stats.twcc_quality)

-- What happens to the qualities of a subscriber: a request of the client, a forced quality, a tick of
-- `monitor_rtcp`, a turn of the update loop.
pub data Event : Type 0 where
  requested : TrackQualityRequest → Event
  forced : TrackQuality → ℕ → Event
  monitored : List Report → ℕ → ℕ → Event
  updated : Event

unfoldable pub step : Event → Subscriber → List ForwardTrack → Subscriber × List ForwardTrack
step (requested r) s forwards = on_message r s forwards
step (forced q now) s forwards = force_quality_for_migration q now s forwards
step (monitored rs now now') s forwards =
    (record s { adaptation = monitor_rtcp rs now now' s.adaptation }, forwards)
step updated s forwards = (s, track_update s forwards)

unfoldable pub run : List Event → Subscriber → List ForwardTrack → Subscriber × List ForwardTrack
run [] s forwards = (s, forwards)
run (e ∷ es) s forwards = let (s', forwards') = step e s forwards in run es s' forwards'

module _ {Packet : Type 0} (c : Channel (RtpForwardInfo Packet)) where
  pub record Store : Type 0 where
    pub published : List (Track c)
    pub forwards : List ForwardTrack

  -- The transceiver is asked for after the track has its forward track.
  unfoldable pub transceiver_added :
      Bool
      → Ref
      → String
      → Subscriber
      → Store
      → Result WebRtcError (Ref × Track c × List ForwardTrack)
      → Result WebRtcError (Unit {0}) × Subscriber × Store
  transceiver_added answer r id s store (err e) = (err e, s, store)
  transceiver_added true r id s store (ok (forward, t, forwards)) = (
    ok tt,
    record s { track_map = insert id forward s.track_map },
    record { published = write r t store.published; forwards = forwards },
  )
  transceiver_added false r id s store (ok (forward, t, forwards)) = (
    err failed_to_add_track,
    s,
    record { published = write r t store.published; forwards = forwards },
  )

  -- `add_transceiver` for the track `t` at `r`.
  unfoldable pub add_transceiver :
      Bool → Ref → Track c → Subscriber → Store → Result WebRtcError (Unit {0}) × Subscriber × Store
  add_transceiver answer r t s store =
      transceiver_added answer r t.id s store
        (new_forward_track c s.user_id t.ssrc t store.forwards)

  -- `Subscriber::add_track` for the track `t` at `r`.
  unfoldable pub subscriber_add_track :
      Bool → Ref → Track c → Subscriber → Store → Result WebRtcError (Unit {0}) × Subscriber × Store
  subscriber_add_track answer r t s store =
      let s' : Subscriber = record s { tracks = insert t.id r s.tracks } in
      elim (get t.id s.tracks) [
        | some _ ↦ (ok tt, s', store)
        | none ↦ add_transceiver answer r t s' store
      ]

  -- `clear_all_forward_tracks`, after the tasks that it spawns.
  unfoldable pub clear_all_forward_tracks : Subscriber → Store → Subscriber × Store
  clear_all_forward_tracks s store = (
    record s { tracks = []; track_map = [] },
    record store {
      published = modify_all (remove_forward_track c s.user_id) (refs s.tracks) store.published;
    },
  )

-- ===== src/Monitor.antt =====
-- crates/webrtc-manager/src/services/track_monitor.rs and media_monitor.rs: which layers of a
-- simulcast track are watched, and the messages that tell the publisher so. A track is given by its
-- flag, the rids of its remote tracks and its forward tracks, in the order of iteration.
pub mod Layers
pub mod Ticks
use waterbus_rs.Base.{
  ℕ, ◌+◌, ◌%◌, ◌^◌, ◌≡◌, Bool, true, false, not, ◌&&◌, ◌||◌, String, string_eq, Option, none, some,
  List, [], ◌∷◌, ◌++◌, map, if◌then◌else◌, ltb, ◌==◌, length, sum, keep,
}
use waterbus_rs.Table.{Table, get, insert}
use waterbus_rs.Quality.{TrackQuality, low, medium, high, quality_eq, quality_test}
use waterbus_rs.Simulcast.{get_actual_served_quality}
use waterbus_rs.Forward.{ForwardTrack, get_desired_quality}

pub record LayerInfo : Type 0 where
  pub quality : TrackQuality
  pub subscriber_count : ℕ
  pub subscribers : List String

pub record TrackSubscribed : Type 0 where
  pub is_simulcast : Bool
  pub layers : Table TrackQuality LayerInfo

abbrev no_subscriber : TrackQuality → LayerInfo
no_subscriber q = record { quality = q; subscriber_count = 0; subscribers = [] }

-- The loop that enters the three simulcast layers.
unfoldable pub initial_layers : Table TrackQuality LayerInfo
initial_layers =
    insert high (no_subscriber high)
      (insert medium (no_subscriber medium) (insert low (no_subscriber low) []))

count_subscriber :
    String → TrackQuality → Table TrackQuality LayerInfo → Table TrackQuality LayerInfo
count_subscriber id served layers = elim (get served layers) [
  | none ↦ layers
  | some info ↦
      insert served
        (record info {
          subscriber_count = info.subscriber_count + 1;
          subscribers = info.subscribers ++ id ∷ [];
        })
        layers
]

-- The loop of `get_track_subscribed` over the forward tracks.
count_forwards :
    List String
    → List (String × ForwardTrack)
    → Table TrackQuality LayerInfo
    → Table TrackQuality LayerInfo
unfolding count_subscriber
count_forwards rids [] layers = layers
count_forwards rids ((id, f) ∷ rest) layers =
    let desired = get_desired_quality f in
    count_forwards rids rest (
      if quality_eq desired TrackQuality.none
      then layers
      else count_subscriber id (get_actual_served_quality rids desired) layers)

unfoldable pub get_track_subscribed :
    Bool → List String → List (String × ForwardTrack) → TrackSubscribed
unfolding count_forwards
get_track_subscribed is_simulcast rids forwards =
    if not is_simulcast
    then record { is_simulcast = false; layers = [] }
    else record { is_simulcast = true; layers = count_forwards rids forwards initial_layers }

abbrev pub counts : Table TrackQuality LayerInfo → List ℕ
counts = map (λ e. e.1.subscriber_count)

unfoldable pub get_layer_subscriber_summary :
    Bool → List String → List (String × ForwardTrack) → Table TrackQuality ℕ
get_layer_subscriber_summary is_simulcast rids forwards =
    map (λ e. (e.0, e.1.subscriber_count)) (get_track_subscribed is_simulcast rids forwards).layers

-- `layers.values().any(|info| info.subscriber_count > 0)`
any_watched : Table TrackQuality LayerInfo → Bool
any_watched [] = false
any_watched ((q, info) ∷ rest) = ltb 0 info.subscriber_count || any_watched rest

unfoldable pub has_simulcast_subscribers : Bool → List String → List (String × ForwardTrack) → Bool
unfolding any_watched
has_simulcast_subscribers is_simulcast rids forwards =
    if not is_simulcast
    then false
    else any_watched (get_track_subscribed is_simulcast rids forwards).layers

-- `max_by_key` keeps the last of several greatest items.
max_by_count :
    Option (TrackQuality × LayerInfo)
    → Table TrackQuality LayerInfo
    → Option (TrackQuality × LayerInfo)
max_by_count best [] = best
max_by_count none (e ∷ rest) = max_by_count (some e) rest
max_by_count (some best) (e ∷ rest) =
    max_by_count (some (if ltb e.1.subscriber_count best.1.subscriber_count then best else e)) rest

unfoldable pub most_demanded : Table TrackQuality LayerInfo → Option TrackQuality
unfolding max_by_count
most_demanded layers = elim (max_by_count none (keep (λ e. ltb 0 e.1.subscriber_count) layers)) [
  | none ↦ none
  | some e ↦ some e.0
]

unfoldable pub get_most_demanded_quality :
    Bool → List String → List (String × ForwardTrack) → Option TrackQuality
get_most_demanded_quality is_simulcast rids forwards =
    most_demanded (get_track_subscribed is_simulcast rids forwards).layers

-- The loop of `track_subscribed_changed`.
any_changed : Table TrackQuality LayerInfo → Table TrackQuality LayerInfo → Bool
any_changed old [] = false
any_changed old ((q, info) ∷ rest) = elim (get q old) [
  | none ↦ true
  | some was ↦ not (was.subscriber_count == info.subscriber_count) || any_changed old rest
]

abbrev bool_ne : Bool → Bool → Bool
bool_ne true b = not b
bool_ne false b = b

unfoldable pub track_subscribed_changed : TrackSubscribed → TrackSubscribed → Bool
unfolding any_changed
track_subscribed_changed old new =
    if bool_ne old.is_simulcast new.is_simulcast
    then true
    else if not (length old.layers == length new.layers)
    then true
    else any_changed old.layers new.layers

-- The loop of `get_highest_active_quality`.
first_active : List TrackQuality → Table TrackQuality LayerInfo → Option TrackQuality
first_active [] layers = none
first_active (q ∷ qs) layers = elim (get q layers) [
  | none ↦ first_active qs layers
  | some info ↦
      let rest = first_active qs layers in if ltb 0 info.subscriber_count then some q else rest
]

unfoldable pub get_highest_active_quality : TrackSubscribed → Option TrackQuality
unfolding first_active
get_highest_active_quality s =
    if not s.is_simulcast then none else first_active (high ∷ medium ∷ low ∷ []) s.layers

pub record TrackSubscribedMessage : Type 0 where
  pub track_id : String
  pub subscribed_count : ℕ
  pub quality : Option TrackQuality
  pub timestamp : ℕ

-- One entry of `tracks`, as the monitor reads it.
pub record Monitored : Type 0 where
  pub track_id : String
  pub is_simulcast : Bool
  pub rids : List String
  pub forwards : List (String × ForwardTrack)

abbrev pub States : Type 0
States = Table String TrackSubscribed

abbrev pub has_changed : Option TrackSubscribed → TrackSubscribed → Bool
has_changed none new = true
has_changed (some old) new = track_subscribed_changed old new

-- The body of the loop of `start_track_monitoring` for one track: the last states after it, and the
-- message that is sent, if any. `now` is the time in milliseconds.
unfoldable pub monitor_track : ℕ → Monitored → States → States × List TrackSubscribedMessage
monitor_track now m last =
    if not m.is_simulcast
    then (last, [])
    else (let current = get_track_subscribed m.is_simulcast m.rids m.forwards in
        if has_changed (get m.track_id last) current
        then (
          insert m.track_id current last,
          (record {
            track_id = m.track_id;
            subscribed_count = sum (counts current.layers) % 2 ^ 32;
            quality = get_highest_active_quality current;
            timestamp = now;
          })
              ∷ [],
        )
        else (last, []))

-- One tick of the interval.
unfoldable pub monitor_tick : ℕ → List Monitored → States → States × List TrackSubscribedMessage
monitor_tick now [] last = (last, [])
monitor_tick now (m ∷ ms) last =
    let (last', sent) = monitor_track now m last in
    let (last'', more) = monitor_tick now ms last' in (last'', sent ++ more)

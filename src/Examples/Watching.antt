-- ===== src/Examples/Watching.antt =====
-- The tracks that a publisher's monitor watches, with the subscribers of each.
use waterbus_rs.Base.{ℕ, ◌≡◌, ◌≢◌, true, false, String, string_eq, some, List, [], ◌∷◌, arith}
use waterbus_rs.Table.{get}
use waterbus_rs.Quality.{TrackQuality, quality_test, high}
use waterbus_rs.Forward.{ForwardTrack}
use waterbus_rs.Monitor.{get_track_subscribed, Monitored}
use waterbus_rs.Monitor.Layers.{info_of, layer_info}

abbrev two_rids : List String
two_rids = "q" ∷ "f" ∷ []

abbrev watching : String → ℕ → ForwardTrack
watching id n = record {
  track_id = id;
  requested_quality = n;
  effective_quality = 3;
  ssrc = 11;
  keyframe_request = true;
}

-- Two subscribers are served from the layer `f`, one is muted.
abbrev forwards : List (String × ForwardTrack)
forwards =
    ("alice", watching "alice" 3) ∷ ("bob", watching "bob" 3) ∷ ("carol", watching "carol" 0) ∷ []

high_ne_none : high ≢ TrackQuality.none
high_ne_none = ground arith

layer_info_example :
    get high (get_track_subscribed true two_rids forwards).layers
    ≡ some (info_of two_rids high forwards)
layer_info_example = layer_info two_rids forwards high high_ne_none

abbrev muted : List (String × ForwardTrack)
muted = ("carol", watching "carol" 0) ∷ []

abbrev camera : Monitored
camera = record { track_id = "camera"; is_simulcast = true; rids = two_rids; forwards = forwards }

abbrev screen : Monitored
screen = record { track_id = "screen"; is_simulcast = false; rids = "" ∷ []; forwards = forwards }

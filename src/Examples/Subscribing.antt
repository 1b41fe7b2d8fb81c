-- ===== src/Examples/Subscribing.antt =====
-- One subscriber of one publisher, and the track that is published.
use mathlib.Core.Option
use waterbus_rs.Base.{
  ◌≤◌, ◌≡◌, refl, true, false, string_eq, none, some, ok, err, List, [], ◌∷◌, All,
}
use waterbus_rs.Base.Int.{pos}
use waterbus_rs.Heap.{read, modify_all, modify_at}
use waterbus_rs.Table.{get}
use waterbus_rs.Quality.{medium, high, as_u8, from_u8, min_quality}
use waterbus_rs.Errors.{failed_to_add_track}
use waterbus_rs.Forward.{ForwardTrack, new_forward, set_effective_quality, get_desired_quality}
use waterbus_rs.Network.{
  monitor_rtcp, adapt, should_update_quality, process_reports, process_twcc_feedback, update_twcc,
  assess, average, loss_penalty, push_history, read_deltas, default_stats,
}
use waterbus_rs.Track.{Track, new_track}
use waterbus_rs.Subscriber.{
  Subscriber, Store, new_subscriber, track_update, requested, forced, monitored, updated, run, step,
  on_message, force_quality_for_migration, Event, subscriber_add_track,
}
use waterbus_rs.Subscriber.Adjusting.{IsUntouched, update_reaches_tracks, high_never_desired}
use waterbus_rs.Subscriber.Forwarding.{watched, subscribed_track, refused_track_not_retried}
use waterbus_rs.Examples.Tracks.{channel, encoding}

abbrev pub forwards : List ForwardTrack
forwards = new_forward "alice" 11 true ∷ new_forward "bob" 11 true ∷ []

abbrev pub fresh : Subscriber
fresh = new_subscriber "alice" 0

abbrev pub alice : Subscriber
alice = record fresh {
  tracks = ("camera", 0) ∷ [];
  track_map = ("camera", 0) ∷ [];
  adaptation = record fresh.adaptation { preferred_quality = 1 };
}

mapped : get "camera" alice.track_map ≡ some 0
mapped = unfold get in refl

update_reaches_tracks_example :
    (Option.map get_desired_quality (read 0 (track_update alice forwards))
      ≡ some (
          min_quality
            (from_u8 (new_forward "alice" 11 true).requested_quality)
            (from_u8 alice.adaptation.preferred_quality)))
    × (read 1 (track_update alice forwards) ≡ read 1 forwards)
update_reaches_tracks_example =
    update_reaches_tracks alice forwards "camera" 0 1 (new_forward "alice" 11 true) mapped
      (unfold read in refl) refl

abbrev events : List Event
events =
    requested (record { track_id = "camera"; quality = high })
    ∷ monitored (record { deltas = pos 10 ∷ []; now = 7; later = 7 } ∷ []) 7 7
    ∷ updated
    ∷ forced high 9
    ∷ []

forwards-IsUntouched : All IsUntouched forwards
forwards-IsUntouched = unfold new_forward in (refl, (refl, tt))

abbrev forced_track : ForwardTrack
forced_track = record (new_forward "alice" 11 true) { effective_quality = 3 }

after_events : read 0 (run events alice forwards).1 ≡ some forced_track
unfolding read run step on_message force_quality_for_migration track_update modify_all modify_at
    set_effective_quality from_u8 get new_forward new_subscriber monitor_rtcp adapt
    should_update_quality process_reports process_twcc_feedback update_twcc assess average
    loss_penalty push_history read_deltas default_stats
after_events = refl

high_never_desired_example : as_u8 (get_desired_quality forced_track) ≤ as_u8 medium
high_never_desired_example =
    high_never_desired events alice forwards 0 forced_track forwards-IsUntouched after_events

abbrev pub camera : Track channel
camera = new_track channel (encoding "q") "room" "p1" true

abbrev store : Store channel
store = record { published = camera ∷ []; forwards = [] }

no_tracks : get camera.id fresh.tracks ≡ none
no_tracks = unfold get new_track new_subscriber in refl

no_map : get camera.id fresh.track_map ≡ none
no_map = unfold get new_track new_subscriber in refl

no_forward : get fresh.user_id camera.forward_tracks ≡ none
no_forward = unfold get new_track new_subscriber in refl

published : read 0 store.published ≡ some camera
published = unfold read in refl

subscribed_track_example :
    (let after = subscriber_add_track channel true 0 camera fresh store in
      (after.0 ≡ ok tt)
      × (get camera.id after.1.tracks ≡ some 0)
      × (get camera.id after.1.track_map ≡ some 0)
      × (read 0 after.2.forwards
          ≡ some (new_forward fresh.user_id camera.ssrc camera.keyframe_request))
      × (Option.map (λ u. get fresh.user_id u.forward_tracks) (read 0 after.2.published)
          ≡ some (some 0))
      × (Option.map (λ u. get fresh.user_id u.rtp_multicast) (read 0 after.2.published)
          ≡ some (some (channel.bounded 1024))))
subscribed_track_example =
    subscribed_track channel 0 camera fresh store published no_tracks no_forward

refused_track_not_retried_example :
    (let first = subscriber_add_track channel false 0 camera fresh store in
      let second = subscriber_add_track channel true 0 camera first.1 first.2 in
      (first.0 ≡ err failed_to_add_track)
      × (second.0 ≡ ok tt)
      × (get camera.id second.1.track_map ≡ none)
      × (second.2 ≡ first.2))
refused_track_not_retried_example =
    refused_track_not_retried channel true 0 camera camera fresh store refl no_tracks no_map
      no_forward

abbrev pub watched_store : Store channel
watched_store = record {
  published = watched channel "alice" 0 camera ∷ camera ∷ [];
  forwards = forwards;
}

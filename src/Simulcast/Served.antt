-- ===== src/Simulcast/Served.antt =====
-- What a subscriber of a simulcast track is served.
use waterbus_rs.Base.{
  ◌≡◌, ◌≢◌, ◌↔◌, refl, true, false, String, none, some, List, map, arith, if◌then◌else◌, ◌∙◌, sym,
}
use waterbus_rs.Table.{insert, get}
use waterbus_rs.Simulcast.{pair_test}
use waterbus_rs.Quality.{TrackQuality, low, medium, high, from_str, quality_eq, quality_eq_iff}
use waterbus_rs.Simulcast.{
  contains, collect_set, available_qualities, quality_fallback, rebuild_acceptable_map,
  is_acceptable_track, get_actual_served_quality, fallback_layer,
}
use waterbus_rs.Simulcast.Fallback.{contains-collect_set, fallback_agrees}

-- The nine entries of the rebuilt map.
get-rebuild :
    (rids : List String) (current desired : TrackQuality)
    → current ≢ TrackQuality.none
    → desired ≢ TrackQuality.none
    → get (current, desired) (rebuild_acceptable_map rids)
      ≡ some (quality_eq current (quality_fallback (available_qualities rids) desired))
unfolding get insert rebuild_acceptable_map
get-rebuild rids TrackQuality.none d h k = absurd (h refl)
get-rebuild rids low low h k = refl
get-rebuild rids low medium h k = refl
get-rebuild rids low high h k = refl
get-rebuild rids medium low h k = refl
get-rebuild rids medium medium h k = refl
get-rebuild rids medium high h k = refl
get-rebuild rids high low h k = refl
get-rebuild rids high medium h k = refl
get-rebuild rids high high h k = refl
get-rebuild rids c TrackQuality.none h k = absurd (k refl)

get-rebuild-none :
    (rids : List String) (desired : TrackQuality)
    → get (TrackQuality.none, desired) (rebuild_acceptable_map rids) ≡ none
unfolding get insert rebuild_acceptable_map
get-rebuild-none rids TrackQuality.none = refl
get-rebuild-none rids low = refl
get-rebuild-none rids medium = refl
get-rebuild-none rids high = refl

served_some_layer :
    (rids : List String) (desired : TrackQuality)
    → desired ≢ TrackQuality.none
    → TrackQuality.none ≢ get_actual_served_quality rids desired
unfolding get_actual_served_quality fallback_layer
served_some_layer rids TrackQuality.none h e = h refl
served_some_layer rids low h e = ground arith
served_some_layer rids medium h e = ground arith
served_some_layer rids high h e = ground arith

layer_accepted :
    (rids : List String) (current desired : TrackQuality)
    → current ≢ TrackQuality.none
    → desired ≢ TrackQuality.none
    → ((is_acceptable_track (rebuild_acceptable_map rids) current desired true ≡ true)
        ↔ (current ≡ get_actual_served_quality rids desired))
      × (is_acceptable_track (rebuild_acceptable_map rids) current desired false ≡ true)
unfolding is_acceptable_track
layer_accepted rids c d h k =
    rw (get-rebuild rids c d h k, fallback_agrees rids d)
      (quality_eq_iff c (get_actual_served_quality rids d), refl)

-- Of a simulcast track, for a desired quality other than none, the packets of the layer that
-- `get_actual_served_quality` names are accepted by the rebuilt map, and no other packets are, also
-- none whose rid names no layer; of a track with one encoding every packet is accepted.
pub accepts_served_layer :
    (rids : List String) (current desired : TrackQuality)
    → desired ≢ TrackQuality.none
    → ((is_acceptable_track (rebuild_acceptable_map rids) current desired true ≡ true)
        ↔ (current ≡ get_actual_served_quality rids desired))
      × (is_acceptable_track (rebuild_acceptable_map rids) current desired false ≡ true)
unfolding is_acceptable_track
accepts_served_layer rids TrackQuality.none d k =
    rw (get-rebuild-none rids d)
      (((λ e. absurd (ground arith)), (λ e. absurd (served_some_layer rids d k e))), refl)
accepts_served_layer rids low d k = layer_accepted rids low d (ground arith) k
accepts_served_layer rids medium d k = layer_accepted rids medium d (ground arith) k
accepts_served_layer rids high d k = layer_accepted rids high d (ground arith) k

pick : List TrackQuality → TrackQuality → TrackQuality
unfolding fallback_layer
pick av desired = if contains av desired then desired else fallback_layer av desired

pick_available :
    (av : List TrackQuality) (layer desired : TrackQuality)
    → layer ≢ TrackQuality.none
    → desired ≢ TrackQuality.none
    → contains av layer ≡ true
    → contains av (pick av desired) ≡ true
unfolding pick
pick_available av TrackQuality.none d h k there = absurd (h refl)
pick_available av c TrackQuality.none h k there = absurd (k refl)
pick_available av low low h k there = ground arith
pick_available av c low h k there = ground arith
pick_available av c medium h k there = ground arith
pick_available av c high h k there = ground arith

-- Where one of the layers low, medium and high is there, the layer served for any of these three
-- desired qualities is one that is there, and it is the desired one exactly when that is there.
pub served_layer_available :
    (rids : List String) (layer desired : TrackQuality)
    → layer ≢ TrackQuality.none
    → desired ≢ TrackQuality.none
    → contains (map from_str rids) layer ≡ true
    → (contains (map from_str rids) (get_actual_served_quality rids desired) ≡ true)
      × ((contains (map from_str rids) desired ≡ true)
          ↔ (get_actual_served_quality rids desired ≡ desired))
unfolding get_actual_served_quality available_qualities pick
served_layer_available rids layer desired h k there =
    let served = get_actual_served_quality rids desired in
    let members = contains-collect_set (map from_str rids) in
    let found : contains (map from_str rids) served ≡ true =
      sym (members served)
      ∙ pick_available (collect_set (map from_str rids)) layer desired h k
          (members layer ∙ there) in
    (found, (λ e. rw (members desired ∙ e), λ e. rw e at found))

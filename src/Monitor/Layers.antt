-- ===== src/Monitor/Layers.antt =====
-- What the counts of the layers say of the forward tracks.
use waterbus_rs.Base.{
  ◌+◌, ◌≡◌, ◌≢◌, refl, Bool, true, false, not, ◌&&◌, String, string_eq, some, List, [], ◌∷◌, ◌++◌,
  map, if◌then◌else◌, length, sum, keep, arith, inl, inr, length-append, Bool-cases, ◌∙◌,
}
use mathlib.Core.List.{append_assoc, append-nil}
use waterbus_rs.Table.{Table, get, insert}
use waterbus_rs.Quality.{TrackQuality, low, medium, high, quality_eq, quality_test}
use waterbus_rs.Simulcast.{get_actual_served_quality, fallback_layer}
use waterbus_rs.Forward.{ForwardTrack, get_desired_quality}
use waterbus_rs.Monitor.{
  LayerInfo, initial_layers, count_subscriber, count_forwards, get_track_subscribed, counts,
}

-- Is this forward track served from layer `q`?
abbrev pub served_from : List String → TrackQuality → String × ForwardTrack → Bool
served_from rids q e =
    not (quality_eq (get_desired_quality e.1) TrackQuality.none)
    && quality_eq (get_actual_served_quality rids (get_desired_quality e.1)) q

abbrev pub watchers : List String → TrackQuality → List (String × ForwardTrack) → List String
watchers rids q forwards = map (λ e. e.0) (keep (served_from rids q) forwards)

abbrev grow : List String → LayerInfo → LayerInfo
grow ids info = record info {
  subscriber_count = info.subscriber_count + length ids;
  subscribers = info.subscribers ++ ids;
}

grow-nil : (info : LayerInfo) → grow [] info ≡ info
grow-nil info = ground (arith, append-nil info.subscribers)

grow-append :
    (xs ys : List String) (info : LayerInfo) → grow ys (grow xs info) ≡ grow (xs ++ ys) info
grow-append xs ys info = ground (arith, append_assoc info.subscribers xs ys, length-append xs ys)

-- The table of the three layers.
abbrev pub three : LayerInfo → LayerInfo → LayerInfo → Table TrackQuality LayerInfo
three a b c = (low, a) ∷ (medium, b) ∷ (high, c) ∷ []

abbrev one_if : Bool → String → List String
one_if b id = if b then id ∷ [] else []

count_subscriber-three :
    (id : String) (served : TrackQuality) (a b c : LayerInfo)
    → count_subscriber id served (three a b c)
      ≡ three
          (grow (one_if (quality_eq served low) id) a)
          (grow (one_if (quality_eq served medium) id) b)
          (grow (one_if (quality_eq served high) id) c)
unfolding count_subscriber get insert
count_subscriber-three id TrackQuality.none a b c =
    ground (arith, grow-nil a, grow-nil b, grow-nil c)
count_subscriber-three id low a b c = ground (arith, grow-nil b, grow-nil c)
count_subscriber-three id medium a b c = ground (arith, grow-nil a, grow-nil c)
count_subscriber-three id high a b c = ground (arith, grow-nil a, grow-nil b)

count_forwards-three :
    (rids : List String) (forwards : List (String × ForwardTrack)) (a b c : LayerInfo)
    → count_forwards rids forwards (three a b c)
      ≡ three
          (grow (watchers rids low forwards) a)
          (grow (watchers rids medium forwards) b)
          (grow (watchers rids high forwards) c)
unfolding count_forwards
count_forwards-three rids [] a b c = ground (arith, grow-nil a, grow-nil b, grow-nil c)
count_forwards-three rids ((id, f) ∷ rest) a b c =
    let served = get_actual_served_quality rids (get_desired_quality f) in
    let a' : LayerInfo = grow (one_if (quality_eq served low) id) a in
    let b' : LayerInfo = grow (one_if (quality_eq served medium) id) b in
    let c' : LayerInfo = grow (one_if (quality_eq served high) id) c in
    elim (Bool-cases (quality_eq (get_desired_quality f) TrackQuality.none)) [
      | inl off ↦ ground (arith, count_forwards-three rids rest a b c)
      | inr on ↦ ground (
        arith,
        on,
        count_subscriber-three id served a b c,
        count_forwards-three rids rest a' b' c',
        grow-append (one_if (quality_eq served low) id) (watchers rids low rest) a,
        grow-append (one_if (quality_eq served medium) id) (watchers rids medium rest) b,
        grow-append (one_if (quality_eq served high) id) (watchers rids high rest) c,
      )
    ]

abbrev pub info_of : List String → TrackQuality → List (String × ForwardTrack) → LayerInfo
info_of rids q forwards = record {
  quality = q;
  subscriber_count = length (watchers rids q forwards);
  subscribers = watchers rids q forwards;
}

pub subscribed-three :
    (rids : List String) (forwards : List (String × ForwardTrack))
    → (get_track_subscribed true rids forwards).layers
      ≡ three
          (info_of rids low forwards)
          (info_of rids medium forwards)
          (info_of rids high forwards)
unfolding get_track_subscribed initial_layers insert
subscribed-three rids forwards = count_forwards-three rids forwards _ _ _ ∙ ground arith

-- Of a simulcast track, the information on each of the layers low, medium and high lists exactly the
-- forward tracks that are served from it, in order, with their number.
pub layer_info :
    (rids : List String) (forwards : List (String × ForwardTrack)) (q : TrackQuality)
    → q ≢ TrackQuality.none
    → get q (get_track_subscribed true rids forwards).layers ≡ some (info_of rids q forwards)
unfolding get
layer_info rids forwards TrackQuality.none h = absurd (h refl)
layer_info rids forwards low h = rw subscribed-three
layer_info rids forwards medium h = rw subscribed-three
layer_info rids forwards high h = rw subscribed-three

-- The forward tracks whose subscriber wants some quality.
abbrev pub wanting : List (String × ForwardTrack) → List (String × ForwardTrack)
wanting = keep (λ e. not (quality_eq (get_desired_quality e.1) TrackQuality.none))

served_ne_none :
    (rids : List String) (d : TrackQuality)
    → quality_eq d TrackQuality.none ≡ false
    → quality_eq (get_actual_served_quality rids d) TrackQuality.none ≡ false
unfolding get_actual_served_quality fallback_layer
served_ne_none rids TrackQuality.none h = cc
served_ne_none rids d h = ground arith

pub watchers_total :
    (rids : List String) (forwards : List (String × ForwardTrack))
    → length (watchers rids low forwards)
        + length (watchers rids medium forwards)
        + length (watchers rids high forwards)
      ≡ length (wanting forwards)
watchers_total rids [] = omega arith
watchers_total rids (e ∷ rest) =
    ground (arith, watchers_total rids rest, served_ne_none rids (get_desired_quality e.1))

-- Every forward track whose subscriber wants some quality is counted in exactly one layer: the
-- counts of a simulcast track add up to their number.
pub counts_total :
    (rids : List String) (forwards : List (String × ForwardTrack))
    → sum (counts (get_track_subscribed true rids forwards).layers) ≡ length (wanting forwards)
counts_total rids forwards = rw subscribed-three (omega (arith, watchers_total rids forwards))

-- ===== src/Simulcast/Fallback.antt =====
-- The fallback depends only on which layers are there, and both copies of it agree.
use waterbus_rs.Base.{◌≡◌, refl, ap, String, none, some, List, [], ◌∷◌, arith, if◌then◌else◌}
use waterbus_rs.Quality.{TrackQuality, low, medium, high, quality_eq_iff}
use waterbus_rs.Simulcast.{
  contains, collect_set, available_qualities, find_quality, smart_fallback, quality_fallback,
  get_actual_served_quality, fallback_layer,
}

-- Making a set of a list of layers keeps the members.
pub contains-collect_set :
    (qs : List TrackQuality) (q : TrackQuality) → contains (collect_set qs) q ≡ contains qs q
unfolding collect_set
contains-collect_set [] q = refl
contains-collect_set (x ∷ qs) q =
    ground (arith, contains-collect_set qs q, contains-collect_set qs x, quality_eq_iff q x)

find_quality-contains :
    (q : TrackQuality) (qs : List TrackQuality)
    → find_quality q qs ≡ (if contains qs q then some q else none)
unfolding find_quality
find_quality-contains q [] = refl
find_quality-contains q (x ∷ qs) =
    ground (arith, find_quality-contains q qs, quality_eq_iff x q, quality_eq_iff q x)

smart-layer :
    (av : List TrackQuality) (desired : TrackQuality)
    → smart_fallback av desired ≡ fallback_layer av desired
unfolding smart_fallback fallback_layer
smart-layer av TrackQuality.none = refl
smart-layer av low = ground (arith, find_quality-contains medium av, find_quality-contains high av)
smart-layer av medium = ground (arith, find_quality-contains low av, find_quality-contains high av)
smart-layer av high = ground (arith, find_quality-contains medium av, find_quality-contains low av)

-- The closure that fills the acceptable map and the function that the monitor asks choose the same
-- layer, whatever the rids of the remote tracks and whatever layer is desired.
pub fallback_agrees :
    (rids : List String) (desired : TrackQuality)
    → quality_fallback (available_qualities rids) desired ≡ get_actual_served_quality rids desired
unfolding quality_fallback get_actual_served_quality
fallback_agrees rids desired =
    ap (λ q. if contains (available_qualities rids) desired then desired else q)
      (smart-layer (available_qualities rids) desired)

layer_order :
    (xs ys : List TrackQuality)
    → ((q : TrackQuality) → contains xs q ≡ contains ys q)
    → (desired : TrackQuality) → fallback_layer xs desired ≡ fallback_layer ys desired
unfolding fallback_layer
layer_order xs ys h TrackQuality.none = refl
layer_order xs ys h desired = ground (arith, h low, h medium, h high)

-- The layer chosen for a desired quality depends on the set of layers only, not on the order in
-- which the hash set yields them.
pub quality_fallback_order :
    (xs ys : List TrackQuality)
    → ((q : TrackQuality) → contains xs q ≡ contains ys q)
    → (desired : TrackQuality) → quality_fallback xs desired ≡ quality_fallback ys desired
unfolding quality_fallback
quality_fallback_order xs ys h desired =
    rw (smart-layer xs desired, smart-layer ys desired, h desired)
      (ap (λ q. if contains ys desired then desired else q) (layer_order xs ys h desired))

-- ===== src/Simulcast.antt =====
-- The choice of a simulcast layer: `rebuild_acceptable_map` of
-- crates/webrtc-manager/src/entities/track.rs, `_is_acceptable_track` of entities/forward_track.rs
-- and `get_actual_served_quality` of services/track_monitor.rs.
pub mod Fallback
pub mod Served
use waterbus_rs.Base.{
  ◌≡◌, refl, ap, ◌↔◌, Bool, true, false, ◌&&◌, String, Option, none, some, List, [], ◌∷◌, map, any,
  arith, if◌then◌else◌, EqTest,
}
use waterbus_rs.Table.{Table, insert, get}
use waterbus_rs.Quality.{TrackQuality, low, medium, high, from_str, quality_eq, quality_eq_iff}

abbrev pub contains : List TrackQuality → TrackQuality → Bool
contains qs q = any (quality_eq q) qs

-- `collect::<HashSet<_>>().into_iter().collect()`: one copy of each, in some order.
unfoldable pub collect_set : List TrackQuality → List TrackQuality
collect_set [] = []
collect_set (q ∷ qs) = let rest = collect_set qs in if contains rest q then rest else q ∷ rest

unfoldable pub available_qualities : List String → List TrackQuality
available_qualities rids = collect_set (map from_str rids)

-- `iter().find(|&q| matches!(q, …))`
unfoldable pub find_quality : TrackQuality → List TrackQuality → Option TrackQuality
find_quality q [] = none
find_quality q (x ∷ xs) = if quality_eq x q then some x else find_quality q xs

abbrev or_else : Option TrackQuality → Option TrackQuality → Option TrackQuality
or_else none o = o
or_else (some q) o = some q

abbrev unwrap_or : Option TrackQuality → TrackQuality → TrackQuality
unwrap_or none d = d
unwrap_or (some q) d = q

smart_fallback : List TrackQuality → TrackQuality → TrackQuality
smart_fallback av high = unwrap_or (or_else (find_quality medium av) (find_quality low av)) low
smart_fallback av medium = unwrap_or (or_else (find_quality low av) (find_quality high av)) low
smart_fallback av low = unwrap_or (or_else (find_quality medium av) (find_quality high av)) low
smart_fallback av TrackQuality.none = low

-- The closure `quality_fallback` of `rebuild_acceptable_map`.
unfoldable pub quality_fallback : List TrackQuality → TrackQuality → TrackQuality
unfolding smart_fallback
quality_fallback av desired = if contains av desired then desired else smart_fallback av desired

abbrev pub pair_eq : TrackQuality × TrackQuality → TrackQuality × TrackQuality → Bool
pair_eq (a, b) (c, d) = quality_eq a c && quality_eq b d

pub pair_eq_iff : (p q : TrackQuality × TrackQuality) → (pair_eq p q ≡ true) ↔ (p ≡ q)
pair_eq_iff (a, b) (c, d) = ground arith

instance abbrev pub pair_test : EqTest (TrackQuality × TrackQuality)
pair_test = record { beq = pair_eq; beq_iff = pair_eq_iff }

-- (current, desired) ↦ is `current` the layer to forward?
abbrev pub AcceptableMap : Type 0
AcceptableMap = Table (TrackQuality × TrackQuality) Bool

abbrev pub layers : List TrackQuality
layers = low ∷ medium ∷ high ∷ []

-- The inner and the outer `for` loop.
insert_row : List TrackQuality → TrackQuality → List TrackQuality → AcceptableMap → AcceptableMap
insert_row av current [] m = m
insert_row av current (desired ∷ rest) m =
    insert_row av current rest
      (insert (current, desired) (quality_eq current (quality_fallback av desired)) m)

insert_rows : List TrackQuality → List TrackQuality → AcceptableMap → AcceptableMap
unfolding insert_row
insert_rows av [] m = m
insert_rows av (current ∷ rest) m = insert_rows av rest (insert_row av current layers m)

-- `rebuild_acceptable_map`, of the rids of the remote tracks. The map is cleared first.
unfoldable pub rebuild_acceptable_map : List String → AcceptableMap
unfolding insert_rows
rebuild_acceptable_map rids = insert_rows (available_qualities rids) layers []

abbrev or_false : Option Bool → Bool
or_false none = false
or_false (some b) = b

-- `_is_acceptable_track`
unfoldable pub is_acceptable_track : AcceptableMap → TrackQuality → TrackQuality → Bool → Bool
is_acceptable_track m current desired is_simulcast =
    if is_simulcast then or_false (get (current, desired) m) else true

-- The `match` of `get_actual_served_quality`.
unfoldable pub fallback_layer : List TrackQuality → TrackQuality → TrackQuality
fallback_layer av high = if contains av medium then medium else low
fallback_layer av medium = if contains av low then low else if contains av high then high else low
fallback_layer av low =
    if contains av medium then medium else if contains av high then high else low
fallback_layer av TrackQuality.none = low

-- `get_actual_served_quality`
unfoldable pub get_actual_served_quality : List String → TrackQuality → TrackQuality
unfolding fallback_layer
get_actual_served_quality rids desired =
    let av = available_qualities rids in
    if contains av desired then desired else fallback_layer av desired

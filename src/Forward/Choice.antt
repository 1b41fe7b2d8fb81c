-- ===== src/Forward/Choice.antt =====
-- Which packets a subscriber gets.
use waterbus_rs.Base.{
  ◌≡◌, ◌≢◌, refl, Bool, true, String, List, [], ◌∷◌, ◌++◌, map, arith, Option, none, some, keep,
  if◌then◌else◌,
}
use waterbus_rs.Quality.{
  TrackQuality, from_u8, min_quality, quality_eq, quality_eq_iff, Vp9Packet, should_forward_vp9_svc,
}
use waterbus_rs.Quality.Codes.{from_u8-as_u8}
use waterbus_rs.Simulcast.{rebuild_acceptable_map, get_actual_served_quality, AcceptableMap}
use waterbus_rs.Simulcast.Served.{accepts_served_layer}
use waterbus_rs.Forward.{
  ForwardTrack, RtpForwardInfo, set_requested_quality, set_effective_quality, get_desired_quality,
  should_write, process_batch,
}

effective_set :
    (q : TrackQuality) (f : ForwardTrack)
    → (from_u8 (set_effective_quality q f).effective_quality ≡ q)
      × ((set_effective_quality q f).requested_quality ≡ f.requested_quality)
unfolding set_effective_quality
effective_set q f = ground (arith, from_u8-as_u8 q, quality_eq_iff q (from_u8 f.effective_quality))

requested_set :
    (q : TrackQuality) (f : ForwardTrack)
    → (from_u8 (set_requested_quality q f).0.requested_quality ≡ q)
      × ((set_requested_quality q f).0.effective_quality ≡ f.effective_quality)
unfolding set_requested_quality
requested_set q f = ground (arith, from_u8-as_u8 q, quality_eq_iff q (from_u8 f.requested_quality))

-- After the subscriber has asked for one quality and the network allows another, in either order,
-- the desired quality is the smaller of the two.
pub desired_is_min :
    (asked allowed : TrackQuality) (f : ForwardTrack)
    → (get_desired_quality (set_effective_quality allowed (set_requested_quality asked f).0)
        ≡ min_quality asked allowed)
      × (get_desired_quality (set_requested_quality asked (set_effective_quality allowed f)).0
          ≡ min_quality asked allowed)
unfolding get_desired_quality
desired_is_min asked allowed f =
    let g = (set_requested_quality asked f).0 in
    let h = set_effective_quality allowed f in
    (
      rw ((effective_set allowed g).0, (effective_set allowed g).1, (requested_set asked f).0),
      rw ((requested_set asked h).0, (requested_set asked h).1, (effective_set allowed f).0),
    )

module _ {Packet : Type 0} (depacketize : Packet → Option Vp9Packet) where
  -- What is to be sent to a subscriber who wants `desired`, of a track with these rids: of a codec
  -- with scalable layers what the header allows, and else, of a simulcast track, the layer served.
  abbrev pub is_wanted : List String → TrackQuality → RtpForwardInfo Packet → Bool
  is_wanted rids desired info =
      if info.is_svc
      then elim (depacketize info.packet) [
        | none ↦ true
        | some vp9 ↦ should_forward_vp9_svc desired vp9
      ]
      else if info.is_simulcast
      then quality_eq info.track_quality (get_actual_served_quality rids desired)
      else true

  should_write-wanted :
      (rids : List String) (f : ForwardTrack) (info : RtpForwardInfo Packet)
      → get_desired_quality f ≢ TrackQuality.none
      → should_write depacketize f (rebuild_acceptable_map rids) info
        ≡ is_wanted rids (get_desired_quality f) info
  unfolding should_write
  should_write-wanted rids f info wanted = ground (
    arith,
    accepts_served_layer rids info.track_quality (get_desired_quality f),
    quality_eq_iff info.track_quality (get_actual_served_quality rids (get_desired_quality f)),
    quality_eq_iff (get_desired_quality f) TrackQuality.none,
  )

  -- Of a batch a subscriber who wants some quality is sent, with the map rebuilt for the rids of
  -- the track and in the order in which they came: of the packets without scalable layers of a
  -- simulcast track exactly those of the layer that is served for this quality, of those of a
  -- track with one encoding all, and of the packets with scalable layers, whatever their simulcast
  -- layer, those whose header cannot be read or allows it.
  pub batch_of_served_layer :
      (rids : List String) (f : ForwardTrack) (batch : List (RtpForwardInfo Packet))
      → get_desired_quality f ≢ TrackQuality.none
      → process_batch depacketize f (rebuild_acceptable_map rids) batch
        ≡ map (λ info. info.packet) (keep (is_wanted rids (get_desired_quality f)) batch)
  unfolding process_batch
  batch_of_served_layer rids f [] wanted = refl
  batch_of_served_layer rids f (info ∷ batch) wanted =
      ground
        (arith, should_write-wanted rids f info wanted, batch_of_served_layer rids f batch wanted)

  -- A subscriber whose desired quality is none is sent nothing, whatever the packets.
  pub batch_off :
      (f : ForwardTrack) (m : AcceptableMap) (batch : List (RtpForwardInfo Packet))
      → get_desired_quality f ≡ TrackQuality.none
      → process_batch depacketize f m batch ≡ []
  unfolding process_batch should_write
  batch_off f m [] off = refl
  batch_off f m (info ∷ batch) off = ground (arith, batch_off f m batch off)

  pub process_batch-append :
      (f : ForwardTrack) (m : AcceptableMap) (xs ys : List (RtpForwardInfo Packet))
      → process_batch depacketize f m (xs ++ ys)
        ≡ process_batch depacketize f m xs ++ process_batch depacketize f m ys
  unfolding process_batch
  process_batch-append f m [] ys = refl
  process_batch-append f m (x ∷ xs) ys = ground (arith, process_batch-append f m xs ys)

-- ===== src/Subscriber/Adjusting.antt =====
-- The quality of the forward tracks of a subscriber.
use mathlib.Core.Option
use waterbus_rs.Base.{
  zero, suc, ◌≤◌, ◌≡◌, ◌∙◌, subst, true, false, String, string_eq, none, some, List, [], ◌∷◌, any,
  All, arith, ◌==◌,
}
use waterbus_rs.Heap.{Ref, read, modify_at, modify_all, read-modify_all}
use waterbus_rs.Table.{Table, get}
use waterbus_rs.Quality.{TrackQuality, medium, as_u8, from_u8, min_quality, quality_eq_iff}
use waterbus_rs.Quality.Codes.{from_u8-as_u8, min_quality_le}
use waterbus_rs.Forward.{ForwardTrack, set_effective_quality, get_desired_quality}
use waterbus_rs.Subscriber.{
  Subscriber, refs, track_update, on_message, force_quality_for_migration, Event, requested, forced,
  monitored, updated, step, run,
}

some_eq : {x y : ForwardTrack} → some x ≡ some y → x ≡ y
some_eq e = cc

effective_is :
    (q : TrackQuality) (f : ForwardTrack)
    → from_u8 (set_effective_quality q f).effective_quality ≡ q
unfolding set_effective_quality
effective_is q f = ground (arith, from_u8-as_u8 q, quality_eq_iff q (from_u8 f.effective_quality))

effective_twice :
    (q : TrackQuality) (f : ForwardTrack)
    → set_effective_quality q (set_effective_quality q f) ≡ set_effective_quality q f
unfolding set_effective_quality
effective_twice q f =
    ground
      (arith, from_u8-as_u8 q, quality_eq_iff q q, quality_eq_iff q (from_u8 f.effective_quality))

requested_kept :
    (q : TrackQuality) (f : ForwardTrack)
    → (set_effective_quality q f).requested_quality ≡ f.requested_quality
unfolding set_effective_quality
requested_kept q f = ground arith

pub refs-get :
    (id : String) (r : Ref) (m : Table String Ref)
    → get id m ≡ some r
    → any (λ j. j == r) (refs m) ≡ true
unfolding get
refs-get id r [] h = cc
refs-get id r ((i, j) ∷ m) h = ground (arith, refs-get id r m)

-- A turn of the update loop leaves each forward track of the subscriber with the smaller of the
-- quality that is requested of it and the preferred quality of the subscriber as its desired
-- quality, and leaves every forward track that is not the subscriber's as it is.
pub update_reaches_tracks :
    (s : Subscriber) (forwards : List ForwardTrack) (id : String) (r other : Ref) (f : ForwardTrack)
    → get id s.track_map ≡ some r
    → read r forwards ≡ some f
    → any (λ j. j == other) (refs s.track_map) ≡ false
    → (Option.map get_desired_quality (read r (track_update s forwards))
        ≡ some (min_quality (from_u8 f.requested_quality) (from_u8 s.adaptation.preferred_quality)))
      × (read other (track_update s forwards) ≡ read other forwards)
unfolding track_update get_desired_quality
update_reaches_tracks s forwards id r other f mapped there foreign =
    let q = from_u8 s.adaptation.preferred_quality in
    let reach =
      read-modify_all (set_effective_quality q) (refs s.track_map) r forwards (effective_twice q) in
    let rest =
      read-modify_all (set_effective_quality q) (refs s.track_map) other forwards
        (effective_twice q) in
    (
      ground (arith, reach, refs-get id r s.track_map mapped, requested_kept q f, effective_is q f),
      ground (arith, rest),
    )

module _ (P : ForwardTrack → Type 0) (g : ForwardTrack → ForwardTrack)
    (keeps : (f : ForwardTrack) → P f → P (g f)) where
  modify_at-All : (r : Ref) (fs : List ForwardTrack) → All P fs → All P (modify_at r g fs)
  unfolding modify_at
  modify_at-All r [] h = tt
  modify_at-All zero (f ∷ fs) h = (keeps f h.0, h.1)
  modify_at-All (suc r) (f ∷ fs) h = (h.0, modify_at-All r fs h.1)

  modify_all-All : (rs : List Ref) (fs : List ForwardTrack) → All P fs → All P (modify_all g rs fs)
  unfolding modify_all
  modify_all-All [] fs h = h
  modify_all-All (r ∷ rs) fs h = modify_all-All rs _ (modify_at-All r fs h)

-- No quality was requested of a forward track since it was made.
abbrev pub IsUntouched : ForwardTrack → Type 0
IsUntouched f = f.requested_quality ≡ as_u8 medium

untouched :
    (q : TrackQuality) (f : ForwardTrack) → IsUntouched f → IsUntouched (set_effective_quality q f)
untouched q f h = requested_kept q f ∙ h

step-IsUntouched :
    (e : Event) (s : Subscriber) (fs : List ForwardTrack)
    → All IsUntouched fs
    → All IsUntouched (step e s fs).1
unfolding step on_message force_quality_for_migration track_update
step-IsUntouched (requested r) s fs h =
    elim (get r.track_id s.track_map)
      as (λ x.
        All IsUntouched
          (elim x [ none ↦ fs | some i ↦ modify_at i (set_effective_quality r.quality) fs ])) [
            | none ↦ h
            | some i ↦ modify_at-All IsUntouched _ (untouched r.quality) i fs h
          ]
step-IsUntouched (forced q now) s fs h =
    modify_all-All IsUntouched _ (untouched q) (refs s.track_map) fs h
step-IsUntouched (monitored rs now now') s fs h = h
step-IsUntouched updated s fs h = modify_all-All IsUntouched _ (untouched _) (refs s.track_map) fs h

run-IsUntouched :
    (es : List Event) (s : Subscriber) (fs : List ForwardTrack)
    → All IsUntouched fs
    → All IsUntouched (run es s fs).1
unfolding run
run-IsUntouched [] s fs h = h
run-IsUntouched (e ∷ es) s fs h = run-IsUntouched es _ _ (step-IsUntouched e s fs h)

read-All :
    (P : ForwardTrack → Type 0) (r : Ref) (fs : List ForwardTrack) {f : ForwardTrack}
    → All P fs
    → read r fs ≡ some f
    → P f
unfolding read
read-All P r [] h e = cc
read-All P zero (f ∷ fs) h e = subst P (some_eq e) h.0
read-All P (suc r) (f ∷ fs) h e = read-All P r fs h.1 e

-- Whatever the client requests, whatever quality is forced and whatever the network allows, no
-- forward track that starts with the quality requested of it at its creation is ever desired at more
-- than medium: the layer high is never asked for.
pub high_never_desired :
    (es : List Event) (s : Subscriber) (fs : List ForwardTrack) (r : Ref) (f : ForwardTrack)
    → All IsUntouched fs
    → read r (run es s fs).1 ≡ some f
    → as_u8 (get_desired_quality f) ≤ as_u8 medium
unfolding get_desired_quality
high_never_desired es s fs r f h e =
    let fresh = read-All IsUntouched r (run es s fs).1 (run-IsUntouched es s fs h) e in
    ground (
      arith,
      fresh,
      from_u8-as_u8 medium,
      (min_quality_le (from_u8 f.requested_quality) (from_u8 f.effective_quality)).0,
    )

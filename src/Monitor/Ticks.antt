-- ===== src/Monitor/Ticks.antt =====
-- The summaries of the layers, and what a tick of the monitor sends.
use waterbus_rs.Base.{
  ℕ, ◌≤◌, ◌<◌, ◌≡◌, ◌≢◌, ◌↔◌, refl, Bool, true, false, ◌&&◌, String, string_eq, str_eq, eq_iff,
  none, some, List, [], ◌∷◌, if◌then◌else◌, ltb, length, arith, All, ◌∙◌,
}
use waterbus_rs.Table.{get, get-insert}
use waterbus_rs.Quality.{TrackQuality, low, medium, high, as_u8, quality_test}
use waterbus_rs.Forward.{ForwardTrack}
use waterbus_rs.Monitor.{
  LayerInfo, get_track_subscribed, get_highest_active_quality, has_simulcast_subscribers,
  get_most_demanded_quality, most_demanded, track_subscribed_changed, Monitored, States,
  has_changed, monitor_track, monitor_tick,
}
use waterbus_rs.Monitor.Layers.{watchers, wanting, info_of, three, subscribed-three, watchers_total}

module _ (rids : List String) (forwards : List (String × ForwardTrack)) where
  simulcast_flag : (get_track_subscribed true rids forwards).is_simulcast ≡ true
  unfolding get_track_subscribed
  simulcast_flag = refl

  -- A simulcast track has subscribers, and an active quality, exactly when some forward track wants
  -- a quality.
  pub active_iff_wanted :
      (has_simulcast_subscribers true rids forwards ≡ ltb 0 (length (wanting forwards)))
      × ((get_highest_active_quality (get_track_subscribed true rids forwards) ≡ none)
          ↔ (length (wanting forwards) ≡ 0))
  unfolding has_simulcast_subscribers get_highest_active_quality get
  active_iff_wanted =
      rw (simulcast_flag, subscribed-three) (ground (arith, watchers_total rids forwards))

  best_layer : get_highest_active_quality (get_track_subscribed true rids forwards) ≡ (
      if ltb 0 (length (watchers rids high forwards))
      then some high
      else if ltb 0 (length (watchers rids medium forwards))
      then some medium
      else if ltb 0 (length (watchers rids low forwards))
      then some low
      else none)
  unfolding get_highest_active_quality get
  best_layer = rw (simulcast_flag, subscribed-three)

  -- The active quality that is sent is that of a layer with watchers, and no better layer has any.
  pub highest_active :
      (q better : TrackQuality)
      → get_highest_active_quality (get_track_subscribed true rids forwards) ≡ some q
      → as_u8 q < as_u8 better
      → (0 < length (watchers rids q forwards)) × (length (watchers rids better forwards) ≡ 0)
  highest_active TrackQuality.none better h above = ground (arith, best_layer)
  highest_active q TrackQuality.none h above = absurd (omega arith)
  highest_active q low h above = ground (arith, best_layer)
  highest_active q medium h above = ground (arith, best_layer)
  highest_active q high h above = ground (arith, best_layer)

abbrev count_at : LayerInfo → LayerInfo → LayerInfo → TrackQuality → ℕ
count_at a b c TrackQuality.none = 0
count_at a b c low = a.subscriber_count
count_at a b c medium = b.subscriber_count
count_at a b c high = c.subscriber_count

demanded-three :
    (a b c : LayerInfo) (q r : TrackQuality)
    → most_demanded (three a b c) ≡ some q
    → (0 < count_at a b c q) × (count_at a b c r ≤ count_at a b c q)
unfolding most_demanded
demanded-three a b c q TrackQuality.none h = ground arith
demanded-three a b c q r h = ground arith

module _ (rids : List String) (forwards : List (String × ForwardTrack)) where
  count_at-watchers :
      (q : TrackQuality)
      → q ≢ TrackQuality.none
      → count_at
          (info_of rids low forwards)
          (info_of rids medium forwards)
          (info_of rids high forwards)
          q
        ≡ length (watchers rids q forwards)
  count_at-watchers TrackQuality.none h = absurd (h refl)
  count_at-watchers low h = refl
  count_at-watchers medium h = refl
  count_at-watchers high h = refl

  -- The most demanded quality has watchers, and no layer has more.
  pub most_demanded_max :
      (q r : TrackQuality)
      → get_most_demanded_quality true rids forwards ≡ some q
      → r ≢ TrackQuality.none
      → (0 < length (watchers rids q forwards))
        × (length (watchers rids r forwards) ≤ length (watchers rids q forwards))
  unfolding get_most_demanded_quality
  most_demanded_max q r h layer =
      let m =
        demanded-three (info_of rids low forwards) (info_of rids medium forwards)
          (info_of rids high forwards) q r (rw subscribed-three at h) in
      let k : q ≢ TrackQuality.none = λ e. absurd (omega (arith, rw e at m.0)) in
      rw (count_at-watchers q k, count_at-watchers r layer) at m

-- Is a message pending for this track?
abbrev pending : Monitored → States → Bool
pending m last =
    m.is_simulcast
    && has_changed (get m.track_id last) (get_track_subscribed m.is_simulcast m.rids m.forwards)

unchanged_self :
    (rids : List String) (forwards : List (String × ForwardTrack))
    → track_subscribed_changed
        (get_track_subscribed true rids forwards)
        (get_track_subscribed true rids forwards)
      ≡ false
unfolding track_subscribed_changed get
unchanged_self rids forwards = rw (simulcast_flag rids forwards, subscribed-three) (ground arith)

pending-monitor_track :
    (now : ℕ) (m : Monitored) (last : States) → pending m (monitor_track now m last).0 ≡ false
unfolding monitor_track
pending-monitor_track now m last = ground (
  arith,
  unchanged_self m.rids m.forwards,
  get-insert m.track_id m.track_id (get_track_subscribed true m.rids m.forwards) last,
  eq_iff m.track_id m.track_id,
)

get-monitor_track :
    (now : ℕ) (m : Monitored) (id : String) (last : States)
    → str_eq m.track_id id ≡ false
    → get id (monitor_track now m last).0 ≡ get id last
unfolding monitor_track
get-monitor_track now m id last h =
    ground (arith, get-insert m.track_id id (get_track_subscribed true m.rids m.forwards) last)

settled :
    (now : ℕ) (m : Monitored) (last : States)
    → pending m last ≡ false
    → monitor_track now m last ≡ (last, [])
unfolding monitor_track
settled now m last h = ground arith

abbrev Differs : Monitored → Monitored → Type 0
Differs m n = str_eq n.track_id m.track_id ≡ false

-- The tracks of a map have distinct ids.
abbrev pub Distinct : List Monitored → Type 0
Distinct [] = Unit
Distinct (m ∷ ms) = All (Differs m) ms × Distinct ms

get-monitor_tick :
    (now : ℕ) (m : Monitored) (ms : List Monitored) (last : States)
    → All (Differs m) ms
    → get m.track_id (monitor_tick now ms last).0 ≡ get m.track_id last
unfolding monitor_tick
get-monitor_tick now m [] last h = refl
get-monitor_tick now m (n ∷ ms) last h =
    get-monitor_tick now m ms (monitor_track now n last).0 h.1
    ∙ get-monitor_track now n m.track_id last h.0

All-settled :
    (now : ℕ) (ms : List Monitored) (last : States)
    → Distinct ms
    → All (λ m. pending m (monitor_tick now ms last).0 ≡ false) ms
unfolding monitor_tick
All-settled now [] last d = tt
All-settled now (m ∷ ms) last d = (
  rw (get-monitor_tick now m ms (monitor_track now m last).0 d.0)
      (pending-monitor_track now m last),
  All-settled now ms (monitor_track now m last).0 d.1,
)

quiet :
    (now : ℕ) (ms : List Monitored) (last : States)
    → All (λ m. pending m last ≡ false) ms
    → monitor_tick now ms last ≡ (last, [])
unfolding monitor_tick
quiet now [] last h = refl
quiet now (m ∷ ms) last h = ground (arith, settled now m last h.0, quiet now ms last h.1)

-- After a tick over tracks with distinct ids, a tick at which no track has changed sends nothing and
-- remembers the same states.
pub second_tick_quiet :
    (now later : ℕ) (ms : List Monitored) (last : States)
    → Distinct ms
    → monitor_tick later ms (monitor_tick now ms last).0 ≡ ((monitor_tick now ms last).0, [])
second_tick_quiet now later ms last d = quiet later ms _ (All-settled now ms last d)

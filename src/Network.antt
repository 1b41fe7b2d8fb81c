-- ===== src/Network.antt =====
-- `NetworkStats`, the feedback of a connection and the choice of a preferred quality, of
-- crates/webrtc-manager/src/entities/subscriber.rs. A `Duration` and an `Instant` are numbers of
-- nanoseconds; each `Instant::now()` is an argument.
pub mod History
pub mod Steady
pub mod Loss
pub mod Adapt
use waterbus_rs.Base.{
  ℕ, ◌+◌, ◌-◌, ◌*◌, ◌/◌, ◌%◌, ◌^◌, ◌≡◌, Bool, true, false, not, ◌&&◌, List, [], ◌∷◌, ◌++◌, map,
  if◌then◌else◌, ltb, leb, ◌==◌, length, sum,
}
use waterbus_rs.Base.Int.{ℤ, is_negative, to_ℕ}
use waterbus_rs.Quality.{TrackQuality, low, medium, high, as_u8, from_u8, quality_eq}

abbrev pub millis : ℕ → ℕ
millis n = n * 1000000

abbrev pub secs : ℕ → ℕ
secs n = millis (n * 1000)

abbrev pub jitter_threshold_high : ℕ
jitter_threshold_high = millis 80

abbrev pub delay_threshold_low : ℕ
delay_threshold_low = millis 25

abbrev pub delay_threshold_medium : ℕ
delay_threshold_medium = millis 120

abbrev pub high_jitter_threshold_low : ℕ
high_jitter_threshold_low = 2

abbrev pub high_jitter_threshold_medium : ℕ
high_jitter_threshold_medium = 5

abbrev pub history_size : ℕ
history_size = 10

abbrev pub min_quality_change_interval : ℕ
min_quality_change_interval = secs 2

pub record NetworkStats : Type 0 where
  pub twcc_quality : TrackQuality
  pub last_quality_change : ℕ
  pub delay_history : List ℕ
  pub jitter_history : List ℕ
  pub packet_loss_count : ℕ

-- `NetworkStats::default`
unfoldable pub default_stats : ℕ → NetworkStats
default_stats now = record {
  twcc_quality = medium;
  last_quality_change = now;
  delay_history = [];
  jitter_history = [];
  packet_loss_count = 0;
}

abbrev pop_front : List ℕ → List ℕ
pop_front [] = []
pop_front (x ∷ xs) = xs

-- The fixed capacity of a history.
unfoldable pub push_history : ℕ → List ℕ → List ℕ
push_history x h = (if leb history_size (length h) then pop_front h else h) ++ x ∷ []

-- `Duration::as_millis() as u64`
abbrev pub as_millis : ℕ → ℕ
as_millis d = d / 1000000 % 2 ^ 64

-- The average of a history, in 64 bits.
unfoldable pub average : List ℕ → ℕ
average [] = 0
average (x ∷ xs) = sum (x ∷ xs) % 2 ^ 64 / length (x ∷ xs)

-- The chain of tests that sets `twcc_quality`.
unfoldable pub assess : ℕ → ℕ → ℕ → TrackQuality
assess avg_delay_ms avg_jitter_count loss_penalty =
    if ltb avg_delay_ms (as_millis delay_threshold_low)
      && leb avg_jitter_count high_jitter_threshold_low
      && loss_penalty == 0
    then high
    else if ltb avg_delay_ms (as_millis delay_threshold_medium)
        && leb avg_jitter_count high_jitter_threshold_medium
        && leb loss_penalty 1
    then medium
    else low

unfoldable pub loss_penalty : ℕ → ℕ → ℕ → ℕ
loss_penalty count now last = if ltb 0 count && ltb (secs 5) (now - last) then 1 else 0

-- `update_twcc`; `now` is read for the penalty, and `now'` for the reset of the counter.
unfoldable pub update_twcc : ℕ → ℕ → Bool → ℕ → ℕ → NetworkStats → NetworkStats
update_twcc avg_delay high_jitter_count packet_loss now now' s =
    let delays = push_history avg_delay s.delay_history in
    let jitters = push_history high_jitter_count s.jitter_history in
    let count = if packet_loss then (s.packet_loss_count + 1) % 2 ^ 32 else s.packet_loss_count in
    record s {
      delay_history = delays;
      jitter_history = jitters;
      twcc_quality =
          assess (average (map as_millis delays)) (average jitters)
            (loss_penalty count now s.last_quality_change);
      packet_loss_count = if ltb (secs 10) (now' - s.last_quality_change) then 0 else count;
    }

unfoldable pub should_update_quality : TrackQuality → ℕ → NetworkStats → Bool
should_update_quality current now s =
    if quality_eq s.twcc_quality current
    then false
    else leb
        (if ltb (as_u8 current) (as_u8 s.twcc_quality)
          then millis 1500
          else min_quality_change_interval)
        (now - s.last_quality_change)

abbrev pub update_quality_timestamp : ℕ → NetworkStats → NetworkStats
update_quality_timestamp now s = record s { last_quality_change = now }

-- What the loop of `process_twcc_feedback` adds up.
pub record Feedback : Type 0 where
  pub high_jitter_count : ℕ
  pub total_delay : ℕ
  pub valid_deltas : ℕ
  pub packet_loss : Bool

abbrev pub no_feedback : Feedback
no_feedback = record {
  high_jitter_count = 0;
  total_delay = 0;
  valid_deltas = 0;
  packet_loss = false;
}

-- A delta is a number of microseconds; a negative one stands for a loss.
unfoldable pub read_deltas : List ℤ → Feedback → Feedback
read_deltas [] f = f
read_deltas (d ∷ ds) f =
    let duration = to_ℕ d * 1000 in
    read_deltas ds (
      if is_negative d then record f { packet_loss = true } else record f {
        total_delay = f.total_delay + duration;
        valid_deltas = f.valid_deltas + 1;
        high_jitter_count =
            if ltb jitter_threshold_high duration
            then f.high_jitter_count + 1
            else f.high_jitter_count;
      })

-- One transport feedback packet, with the two times that `update_twcc` reads.
pub record Report : Type 0 where
  pub deltas : List ℤ
  pub now : ℕ
  pub later : ℕ

unfoldable pub process_twcc_feedback : Report → NetworkStats → NetworkStats
process_twcc_feedback r s =
    let f = read_deltas r.deltas no_feedback in
    update_twcc (if ltb 0 f.valid_deltas then f.total_delay / f.valid_deltas else 0)
      f.high_jitter_count f.packet_loss r.now r.later s

unfoldable pub process_reports : List Report → NetworkStats → NetworkStats
process_reports [] s = s
process_reports (r ∷ rs) s = process_reports rs (process_twcc_feedback r s)

-- The quality state of a subscriber: the byte of `preferred_quality`, the statistics, and whether
-- the update loop was notified.
pub record Adaptation : Type 0 where
  pub preferred_quality : ℕ
  pub stats : NetworkStats
  pub notified : Bool

-- The second half of `monitor_rtcp`; `now` is read by the test, and `now'` for the time stamp.
unfoldable pub adapt : ℕ → ℕ → Adaptation → Adaptation
adapt now now' a =
    if should_update_quality (from_u8 a.preferred_quality) now a.stats
    then record {
      preferred_quality = as_u8 a.stats.twcc_quality;
      stats = update_quality_timestamp now' a.stats;
      notified = true;
    }
    else a

-- `monitor_rtcp`, over the feedback packets that the senders had.
unfoldable pub monitor_rtcp : List Report → ℕ → ℕ → Adaptation → Adaptation
monitor_rtcp [] now now' a = a
monitor_rtcp (r ∷ rs) now now' a =
    adapt now now' (record a { stats = process_reports (r ∷ rs) a.stats })

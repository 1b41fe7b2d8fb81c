-- ===== src/Network/Adapt.antt =====
-- How often the preferred quality changes.
use waterbus_rs.Base.{ℕ, ◌+◌, ◌≤◌, ◌<◌, ◌≡◌, refl, List, [], ◌∷◌, arith}
use waterbus_rs.Quality.{from_u8, quality_eq_iff}
use waterbus_rs.Quality.Codes.{from_u8-as_u8}
use waterbus_rs.Network.{
  NetworkStats, Adaptation, Report, adapt, monitor_rtcp, process_reports, process_twcc_feedback,
  update_twcc, should_update_quality, millis, secs,
}

process_reports-last :
    (rs : List Report) (s : NetworkStats)
    → (process_reports rs s).last_quality_change ≡ s.last_quality_change
unfolding process_reports process_twcc_feedback update_twcc
process_reports-last [] s = refl
process_reports-last (r ∷ rs) s = process_reports-last rs (process_twcc_feedback r s)

-- Less than 1.5 seconds after the last change, a tick of the monitor leaves the preferred quality as
-- it is, keeps the time of the last change, and notifies nobody, whatever the feedback.
pub no_early_change :
    (rs : List Report) (now now' : ℕ) (a : Adaptation)
    → now < a.stats.last_quality_change + millis 1500
    → ((monitor_rtcp rs now now' a).preferred_quality ≡ a.preferred_quality)
      × ((monitor_rtcp rs now now' a).stats.last_quality_change ≡ a.stats.last_quality_change)
      × ((monitor_rtcp rs now now' a).notified ≡ a.notified)
unfolding monitor_rtcp adapt should_update_quality
no_early_change [] now now' a h = (refl, refl, refl)
no_early_change (r ∷ rs) now now' a h = ground (arith, process_reports-last (r ∷ rs) a.stats)

-- Two seconds after the last change or later, a tick that reads some feedback leaves the preferred
-- quality equal to the assessed one.
pub late_tick_settles :
    (r : Report) (rs : List Report) (now now' : ℕ) (a : Adaptation)
    → a.stats.last_quality_change + secs 2 ≤ now
    → from_u8 (monitor_rtcp (r ∷ rs) now now' a).preferred_quality
      ≡ (monitor_rtcp (r ∷ rs) now now' a).stats.twcc_quality
unfolding monitor_rtcp adapt should_update_quality
late_tick_settles r rs now now' a h = ground (
  arith,
  process_reports-last (r ∷ rs) a.stats,
  from_u8-as_u8 (process_reports (r ∷ rs) a.stats).twcc_quality,
  quality_eq_iff (process_reports (r ∷ rs) a.stats).twcc_quality (from_u8 a.preferred_quality),
)

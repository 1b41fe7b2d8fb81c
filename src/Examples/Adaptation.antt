-- ===== src/Examples/Adaptation.antt =====
-- The network of one subscriber.
use waterbus_rs.Base.{◌≡◌, ◌≤◌, refl, false, [], ◌∷◌, length, arith}
use waterbus_rs.Base.Int.{pos, negsuc}
use waterbus_rs.Quality.{medium, from_u8}
use waterbus_rs.Network.{
  NetworkStats, default_stats, assess, as_millis, millis, secs, Report, Adaptation, monitor_rtcp,
}
use waterbus_rs.Network.History.{Tick, ticks, capped, count_reports, monitor_rtcp-IsBounded}
use waterbus_rs.Network.Steady.{IsBounded, repeat_update, steady_network}
use waterbus_rs.Network.Adapt.{late_tick_settles}

abbrev stats : NetworkStats
stats = record {
  delay_history = millis 200 ∷ [];
  jitter_history = 1 ∷ [];
  packet_loss_count = 0;
  last_quality_change = 1000;
  twcc_quality = medium;
}

-- Two deltas of 1 and of 20 milliseconds, and a loss.
abbrev report : Report
report = record { deltas = pos 1000 ∷ pos 20000 ∷ negsuc 4 ∷ []; now = secs 9; later = secs 9 }

abbrev adaptation : Adaptation
adaptation = record { preferred_quality = 3; stats = stats; notified = false }

abbrev tick : Tick
tick = record { reports = report ∷ report ∷ []; now = secs 9; later = secs 9 }

monitor_rtcp-IsBounded_example :
    (let s =
        (ticks
          (tick ∷ tick ∷ [])
          (record { preferred_quality = 2; stats = default_stats 5; notified = false })).stats in
      (length s.delay_history ≡ capped (count_reports (tick ∷ tick ∷ [])))
      × (length s.jitter_history ≡ capped (count_reports (tick ∷ tick ∷ [])))
      × (capped (count_reports (tick ∷ tick ∷ [])) ≤ 10))
monitor_rtcp-IsBounded_example = monitor_rtcp-IsBounded (tick ∷ tick ∷ []) 5 2 false

bounded : IsBounded stats
bounded = record { delays = omega arith; jitters = omega arith }

steady_network_example :
    (repeat_update 10 (millis 30) 1 (secs 9) stats).twcc_quality
    ≡ assess (as_millis (millis 30)) 1 0
steady_network_example =
    steady_network (millis 30) 1 (secs 9) stats bounded refl (omega arith) (omega arith)

late_tick_settles_example :
    from_u8 (monitor_rtcp (report ∷ []) (secs 9) (secs 9) adaptation).preferred_quality
    ≡ (monitor_rtcp (report ∷ []) (secs 9) (secs 9) adaptation).stats.twcc_quality
late_tick_settles_example = late_tick_settles report [] (secs 9) (secs 9) adaptation (omega arith)

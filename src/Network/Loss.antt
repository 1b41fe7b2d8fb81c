-- ===== src/Network/Loss.antt =====
-- How packet loss enters the assessment.
use waterbus_rs.Base.{ℕ, ◌+◌, ◌-◌, ◌%◌, ◌^◌, ◌≡◌, Bool, false, ◌&&◌, arith, if◌then◌else◌, ltb, map}
use waterbus_rs.Quality.{medium, min_quality}
use waterbus_rs.Network.{
  NetworkStats, update_twcc, assess, loss_penalty, secs, average, as_millis, push_history,
}

-- Within the tests that set it, the penalty caps the quality at medium and does no more.
assess_penalty :
    (d j count now last : ℕ)
    → assess d j (loss_penalty count now last) ≡ (
        if ltb 0 count && ltb (secs 5) (now - last)
        then min_quality medium (assess d j 0)
        else assess d j 0)
unfolding assess loss_penalty min_quality
assess_penalty d j count now last = ground arith

-- The losses that are counted when a report is read.
abbrev pub counted : Bool → NetworkStats → ℕ
counted loss s = if loss then (s.packet_loss_count + 1) % 2 ^ 32 else s.packet_loss_count

-- Packet loss caps the quality at medium, if some loss is counted and the last change is more than
-- five seconds ago, and otherwise changes nothing; it never takes the quality from medium to low.
pub loss_caps_quality :
    (d j : ℕ) (loss : Bool) (now now' : ℕ) (s : NetworkStats)
    → (update_twcc d j loss now now' s).twcc_quality ≡ (
        if ltb 0 (counted loss s) && ltb (secs 5) (now - s.last_quality_change)
        then min_quality medium
            (update_twcc d j false now now' (record s { packet_loss_count = 0 })).twcc_quality
        else (update_twcc d j false now now' (record s { packet_loss_count = 0 })).twcc_quality)
unfolding update_twcc
loss_caps_quality d j loss now now' s =
    let delay = average (map as_millis (push_history d s.delay_history)) in
    let jitter = average (push_history j s.jitter_history) in
    ground (
      arith,
      assess_penalty delay jitter (counted loss s) now s.last_quality_change,
      assess_penalty delay jitter 0 now s.last_quality_change,
    )

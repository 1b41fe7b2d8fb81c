-- ===== src/Network/History.antt =====
-- How many entries the two histories of the network statistics hold, in
-- crates/webrtc-manager/src/entities/subscriber.rs.
use waterbus_rs.Base.{
  ℕ, suc, ◌+◌, ◌≤◌, ◌≡◌, Bool, List, [], ◌∷◌, arith, leb, length, length-append, subst,
  if◌then◌else◌,
}
use native.Mathlib.Nat.{zero-add}
use waterbus_rs.Network.{
  NetworkStats, default_stats, push_history, update_twcc, history_size, Report,
  process_twcc_feedback, process_reports, Adaptation, adapt, monitor_rtcp,
}

-- The number of the last `history_size` of `n` entries.
abbrev pub capped : ℕ → ℕ
capped n = if leb history_size n then history_size else n

length-push_history :
    (x n : ℕ) (h : List ℕ) → length h ≡ capped n → length (push_history x h) ≡ capped (suc n)
unfolding push_history
length-push_history x n [] e = ground arith
length-push_history x n (y ∷ h) e = ground (arith, length-append h (x ∷ []))

-- Both histories hold the entries of `n` reports, as far as there is room.
pub record HasReports (n : ℕ) (s : NetworkStats) : Type 0 where
  pub delays : length s.delay_history ≡ capped n
  pub jitters : length s.jitter_history ≡ capped n

update_twcc-HasReports :
    (n d j : ℕ) (loss : Bool) (now now' : ℕ) (s : NetworkStats)
    → HasReports n s
    → HasReports (suc n) (update_twcc d j loss now now' s)
unfolding update_twcc
update_twcc-HasReports n d j loss now now' s h = record {
  delays = length-push_history d n s.delay_history h.delays;
  jitters = length-push_history j n s.jitter_history h.jitters;
}

process_reports-HasReports :
    (rs : List Report) (n : ℕ) (s : NetworkStats)
    → HasReports n s
    → HasReports (length rs + n) (process_reports rs s)
unfolding process_reports process_twcc_feedback
process_reports-HasReports [] n s h = rw zero-add h
process_reports-HasReports (r ∷ rs) n s h =
    let s' = process_twcc_feedback r s in
    let rest = process_reports-HasReports rs (suc n) s' (update_twcc-HasReports n _ _ _ _ _ s h) in
    let e : length rs + suc n ≡ length (r ∷ rs) + n = omega arith in
    subst (λ k. HasReports k (process_reports rs s')) e rest

-- A tick of the monitor: what it reads, and its two times.
pub record Tick : Type 0 where
  pub reports : List Report
  pub now : ℕ
  pub later : ℕ

unfoldable pub ticks : List Tick → Adaptation → Adaptation
ticks [] a = a
ticks (t ∷ ts) a = ticks ts (monitor_rtcp t.reports t.now t.later a)

abbrev pub count_reports : List Tick → ℕ
count_reports [] = 0
count_reports (t ∷ ts) = count_reports ts + length t.reports

monitor_rtcp-HasReports :
    (rs : List Report) (now now' n : ℕ) (a : Adaptation)
    → HasReports n a.stats
    → HasReports (length rs + n) (monitor_rtcp rs now now' a).stats
unfolding monitor_rtcp adapt
monitor_rtcp-HasReports [] now now' n a h = rw zero-add h
monitor_rtcp-HasReports (r ∷ rs) now now' n a h =
    ground (arith, process_reports-HasReports (r ∷ rs) n a.stats h)

ticks-HasReports :
    (ts : List Tick) (n : ℕ) (a : Adaptation)
    → HasReports n a.stats
    → HasReports (count_reports ts + n) (ticks ts a).stats
unfolding ticks
ticks-HasReports [] n a h = rw zero-add h
ticks-HasReports (t ∷ ts) n a h =
    let a' = monitor_rtcp t.reports t.now t.later a in
    let rest =
      ticks-HasReports ts (length t.reports + n) a'
        (monitor_rtcp-HasReports t.reports t.now t.later n a h) in
    let e : count_reports ts + (length t.reports + n) ≡ count_reports (t ∷ ts) + n = omega arith in
    subst (λ k. HasReports k (ticks ts a').stats) e rest

-- From the statistics that a subscriber starts with, after any ticks of the monitor, the two histories
-- hold as many entries as reports were read, or ten once there were ten: never more than ten.
pub monitor_rtcp-IsBounded :
    (ts : List Tick) (created preferred : ℕ) (notified : Bool)
    → (let s =
          (ticks ts (record {
            preferred_quality = preferred;
            stats = default_stats created;
            notified = notified;
          })).stats in
        (length s.delay_history ≡ capped (count_reports ts))
        × (length s.jitter_history ≡ capped (count_reports ts))
        × (capped (count_reports ts) ≤ 10))
unfolding default_stats
monitor_rtcp-IsBounded ts created preferred notified =
    let h =
      ticks-HasReports ts 0
        (record {
          preferred_quality = preferred;
          stats = default_stats created;
          notified = notified;
        })
        (record { delays = ground arith; jitters = ground arith }) in
    ground (arith, h)

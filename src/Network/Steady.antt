-- ===== src/Network/Steady.antt =====
-- Ten equal reports wipe out what was before them in the network statistics of
-- crates/webrtc-manager/src/entities/subscriber.rs.
use waterbus_rs.Base.{
  ℕ, zero, suc, ◌+◌, ◌^◌, ◌≤◌, ◌<◌, ◌≡◌, refl, ap, sym, ◌∙◌, Bool, false, List, [], ◌∷◌, ◌++◌, map,
  arith, leb, length, length-append, Bool-cases, inl, inr, subst,
}
use mathlib.Core.List.{append_assoc, append-nil}
use native.Mathlib.Nat.{zero-add}
use waterbus_rs.Network.{
  NetworkStats, push_history, update_twcc, assess, average, as_millis, loss_penalty, history_size,
}

-- Histories that are not too long.
pub record IsBounded (s : NetworkStats) : Type 0 where
  pub delays : length s.delay_history ≤ history_size
  pub jitters : length s.jitter_history ≤ history_size

push_history-bounded :
    (x : ℕ) (h : List ℕ) → length h ≤ history_size → length (push_history x h) ≤ history_size
unfolding push_history
push_history-bounded x [] k = omega arith
push_history-bounded x (y ∷ h) k = ground (arith, length-append h (x ∷ []))

update_twcc-IsBounded :
    (d j : ℕ) (loss : Bool) (now now' : ℕ) (s : NetworkStats)
    → IsBounded s
    → IsBounded (update_twcc d j loss now now' s)
unfolding update_twcc
update_twcc-IsBounded d j loss now now' s h = record {
  delays = push_history-bounded d s.delay_history h.delays;
  jitters = push_history-bounded j s.jitter_history h.jitters;
}

-- `k` updates that report the same delay and jitter and no loss.
unfoldable pub repeat_update : ℕ → ℕ → ℕ → ℕ → NetworkStats → NetworkStats
repeat_update zero d j now s = s
repeat_update (suc k) d j now s = repeat_update k d j now (update_twcc d j false now now s)

abbrev replicate : ℕ → ℕ → List ℕ
replicate zero x = []
replicate (suc n) x = x ∷ replicate n x

-- A history that ends with `k` copies of `x`.
abbrev EndsWith : ℕ → ℕ → List ℕ → Type 0
EndsWith k x h = (before : List ℕ) × (h ≡ before ++ replicate k x)

replicate-snoc : (k x : ℕ) → replicate k x ++ x ∷ [] ≡ replicate (suc k) x
replicate-snoc zero x = refl
replicate-snoc (suc k) x = ap (λ t. x ∷ t) (replicate-snoc k x)

length-replicate : (k x : ℕ) → length (replicate k x) ≡ k
length-replicate zero x = refl
length-replicate (suc k) x = ap suc (length-replicate k x)

snoc-ends :
    (before : List ℕ) (k x : ℕ)
    → (before ++ replicate k x) ++ x ∷ [] ≡ before ++ replicate (suc k) x
snoc-ends before k x =
    append_assoc before (replicate k x) (x ∷ []) ∙ ap (λ t. before ++ t) (replicate-snoc k x)

push-ends :
    (before : List ℕ) (k x : ℕ)
    → k < history_size
    → EndsWith (suc k) x (push_history x (before ++ replicate k x))
unfolding push_history
push-ends [] k x small = ([], ground (arith, length-replicate k x, snoc-ends [] k x))
push-ends (p ∷ ps) k x small =
    elim (Bool-cases (leb history_size (length (p ∷ ps ++ replicate k x)))) [
      | inl full ↦ (ps, rw full (snoc-ends ps k x))
      | inr room ↦ (p ∷ ps, rw room (snoc-ends (p ∷ ps) k x))
    ]

push-EndsWith :
    (k x : ℕ) (h : List ℕ)
    → k < history_size
    → EndsWith k x h
    → EndsWith (suc k) x (push_history x h)
push-EndsWith k x h small (before, e) =
    subst (λ t. EndsWith (suc k) x (push_history x t)) (sym e) (push-ends before k x small)

repeat-ends :
    (n k d j now : ℕ) (s : NetworkStats)
    → n + k ≤ history_size
    → IsBounded s
    → EndsWith k d s.delay_history
    → EndsWith k j s.jitter_history
    → EndsWith (n + k) d (repeat_update n d j now s).delay_history
      × EndsWith (n + k) j (repeat_update n d j now s).jitter_history
      × IsBounded (repeat_update n d j now s)
unfolding repeat_update update_twcc
repeat-ends zero k d j now s small h ed ej = rw zero-add (ed, ej, h)
repeat-ends (suc n) k d j now s small h ed ej =
    let r =
      repeat-ends n (suc k) d j now (update_twcc d j false now now s) (omega arith)
        (update_twcc-IsBounded d j false now now s h)
        (push-EndsWith k d s.delay_history (omega arith) ed)
        (push-EndsWith k j s.jitter_history (omega arith) ej) in
    let e : n + suc k ≡ suc n + k = omega arith in rw e at r

whole_history :
    (x : ℕ) (h : List ℕ) → length h ≤ history_size → EndsWith 10 x h → h ≡ replicate 10 x
whole_history x h bound ([], e) = e
whole_history x h bound (b ∷ before, e) =
    absurd (
      omega
        (arith, ap length e, length-append (b ∷ before) (replicate 10 x), length-replicate 10 x))

update_assessed :
    (d j now : ℕ) (s : NetworkStats)
    → s.packet_loss_count ≡ 0
    → ((update_twcc d j false now now s).packet_loss_count ≡ 0)
      × ((update_twcc d j false now now s).twcc_quality
          ≡ assess
              (average (map as_millis (update_twcc d j false now now s).delay_history))
              (average (update_twcc d j false now now s).jitter_history)
              0)
unfolding update_twcc loss_penalty
update_assessed d j now s clean = ground arith

abbrev Assessed : NetworkStats → Type 0
Assessed s =
    s.twcc_quality ≡ assess (average (map as_millis s.delay_history)) (average s.jitter_history) 0

repeat-Assessed :
    (n d j now : ℕ) (s : NetworkStats)
    → s.packet_loss_count ≡ 0
    → Assessed (repeat_update (suc n) d j now s)
unfolding repeat_update
repeat-Assessed zero d j now s clean = (update_assessed d j now s clean).1
repeat-Assessed (suc n) d j now s clean =
    repeat-Assessed n d j now (update_twcc d j false now now s) (update_assessed d j now s clean).0

average-replicate : (x : ℕ) → x < 2 ^ 60 → average (replicate 10 x) ≡ x
unfolding average
average-replicate x h = omega arith

-- From any statistics with histories of at most ten entries and no loss counted, after ten reports
-- of one delay and one jitter count, both below 2 ^ 60, without loss and all read at one time, the
-- quality is the one that the tests give for this delay and this count alone: nothing older has
-- any influence.
pub steady_network :
    (d j now : ℕ) (s : NetworkStats)
    → IsBounded s
    → s.packet_loss_count ≡ 0
    → d < 2 ^ 60
    → j < 2 ^ 60
    → (repeat_update 10 d j now s).twcc_quality ≡ assess (as_millis d) j 0
steady_network d j now s bounded clean small_d small_j =
    let r =
      repeat-ends 10 0 d j now s (omega arith) bounded
        (s.delay_history, sym (append-nil s.delay_history))
        (s.jitter_history, sym (append-nil s.jitter_history)) in
    let ed = whole_history d _ r.2.delays r.0 in
    let ej = whole_history j _ r.2.jitters r.1 in
    repeat-Assessed 9 d j now s clean
    ∙ rw (ed, ej, average-replicate (as_millis d) (omega arith), average-replicate j small_j)

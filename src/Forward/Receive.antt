-- ===== src/Forward/Receive.antt =====
-- The loop that takes packets from the channel in batches.
use waterbus_rs.Base.{
  ℕ, zero, suc, ◌+◌, ◌≤◌, ◌<◌, ◌≡◌, refl, ap, sym, ◌∙◌, Bool, true, false, Option, none, some, List,
  [], ◌∷◌, ◌++◌, map, ◌*◌, arith, length, length-append, concat, All, ◌%◌,
}
use mathlib.Core.List.{append_assoc, append-nil}
use waterbus_rs.Quality.{Vp9Packet}
use waterbus_rs.Simulcast.{AcceptableMap}
use waterbus_rs.Forward.{
  ForwardTrack, RtpForwardInfo, process_batch, fill, receive_loop, batch_limit, Outcome, waiting,
  returned,
}
use waterbus_rs.Forward.Choice.{process_batch-append}

-- What `fill` may answer: a batch that begins the queue, full if no more can come; or nothing,
-- where the channel is disconnected and less than a batch is left.
abbrev Filled : {A : Type 0} → Bool → List A → List A → Option (List A × List A) → Type 0
Filled connected batch queue none =
    (connected ≡ false) × (length batch + length queue < batch_limit)
Filled connected batch queue (some (b, q)) =
    (b ++ q ≡ batch ++ queue)
    × (length batch ≤ length b)
    × (length b ≤ batch_limit)
    × (connected ≡ false → length b ≡ batch_limit)

Filled-shift :
    {A : Type 0} (connected : Bool) (batch queue : List A) (x : A) (r : Option (List A × List A))
    → Filled connected (batch ++ x ∷ []) queue r
    → Filled connected batch (x ∷ queue) r
Filled-shift connected batch queue x none h =
    (h.0, omega (arith, h.1, length-append batch (x ∷ [])))
Filled-shift connected batch queue x (some (b, q)) h = (
  h.0 ∙ append_assoc batch (x ∷ []) queue,
  omega (arith, h.1, length-append batch (x ∷ [])),
  h.2,
  h.3,
)

fill-Filled :
    {A : Type 0} (connected : Bool) (batch queue : List A)
    → length batch ≤ batch_limit
    → Filled connected batch queue (fill connected batch queue)
unfolding fill
fill-Filled connected batch [] h = ground arith
fill-Filled connected batch (x ∷ queue) h = ground (
  arith,
  fill-Filled connected (batch ++ x ∷ []) queue,
  length-append batch (x ∷ []),
  Filled-shift connected batch queue x (fill connected (batch ++ x ∷ []) queue),
)

-- The batches of the loop cover the queue but for what is lost at its end.
record Covers {A : Type 0} (connected : Bool) (queue : List A) (r : List (List A) × Outcome)
    : Type 0 where
  rest : List A
  covered : concat r.0 ++ rest ≡ queue
  bounded : All (λ b. length b ≤ batch_limit) r.0
  whole : connected ≡ true → (rest ≡ []) × (r.1 ≡ waiting)
  full : connected ≡ false → All (λ b. length b ≡ batch_limit) r.0 × (length rest < batch_limit)

Covers-cons :
    {A : Type 0} (connected : Bool) (x : A) (b q queue : List A) (r : List (List A) × Outcome)
    → Filled connected (x ∷ []) queue (some (b, q))
    → Covers connected q r
    → Covers connected (x ∷ queue) (b ∷ r.0, r.1)
Covers-cons connected x b q queue r h c = record {
  rest = c.rest;
  covered = append_assoc b (concat r.0) c.rest ∙ ap (λ t. b ++ t) c.covered ∙ h.0;
  bounded = (h.2, c.bounded);
  whole = c.whole;
  full = λ e. ((h.3 e, (c.full e).0), (c.full e).1);
}

shorter_rest :
    {A : Type 0} (connected : Bool) (x : A) (queue b q : List A)
    → Filled connected (x ∷ []) queue (some (b, q))
    → length q ≤ length queue
shorter_rest connected x queue b q h = omega (arith, ap length h.0, length-append b q, h.1)

Covers-step :
    {A : Type 0} (fuel : ℕ) (connected : Bool) (x : A) (queue : List A)
    (o : Option (List A × List A))
    → Filled connected (x ∷ []) queue o
    → ((q : List A) → length q ≤ length queue → Covers connected q (receive_loop fuel connected q))
    → Covers connected (x ∷ queue) (elim o [
      | none ↦ ([], returned)
      | some (batch, queue') ↦
          let rest = receive_loop fuel connected queue' in (batch ∷ rest.0, rest.1)
    ])
Covers-step fuel connected x queue none h ih = record {
  rest = x ∷ queue;
  covered = refl;
  bounded = tt;
  whole = λ e. cc (h.0);
  full = λ e. (tt, omega (arith, h.1));
}
Covers-step fuel connected x queue (some (b, q)) h ih =
    Covers-cons connected x b q queue (receive_loop fuel connected q) h
      (ih q (shorter_rest connected x queue b q h))

receive_loop-Covers :
    {A : Type 0} (fuel : ℕ) (connected : Bool) (queue : List A)
    → length queue ≤ fuel
    → Covers connected queue (receive_loop fuel connected queue)
unfolding receive_loop
receive_loop-Covers fuel connected [] h = record {
  rest = [];
  covered = refl;
  bounded = tt;
  whole = λ e. (refl, rw e);
  full = λ e. (tt, omega arith);
}
receive_loop-Covers zero connected (x ∷ queue) h = absurd (omega arith)
receive_loop-Covers (suc fuel) connected (x ∷ queue) h =
    Covers-step fuel connected x queue (fill connected (x ∷ []) queue)
      (fill-Filled connected (x ∷ []) queue (omega arith))
      (λ q shorter. receive_loop-Covers fuel connected q (omega arith))

concat-process_batch :
    {Packet : Type 0} (depacketize : Packet → Option Vp9Packet) (f : ForwardTrack)
    (m : AcceptableMap) (bs : List (List (RtpForwardInfo Packet)))
    → concat (map (process_batch depacketize f m) bs) ≡ process_batch depacketize f m (concat bs)
unfolding process_batch
concat-process_batch d f m [] = refl
concat-process_batch d f m (b ∷ bs) =
    ap (λ t. process_batch d f m b ++ t) (concat-process_batch d f m bs)
    ∙ sym (process_batch-append d f m b (concat bs))

length-whole :
    {A : Type 0} (bs : List (List A))
    → All (λ b. length b ≡ batch_limit) bs
    → (k : ℕ) × (length (concat bs) ≡ 32 * k)
length-whole [] h = (0, omega arith)
length-whole (b ∷ bs) h =
    let (k, e) = length-whole bs h.1 in (suc k, omega (arith, length-append b (concat bs), e, h.0))

-- While the channel is connected, with fuel for each packet of the queue, the loop takes the whole
-- queue in batches of at most 32 and then waits; what it sends of them is what sending the queue as
-- one batch would send, in the same order.
pub receive_connected :
    {Packet : Type 0} (depacketize : Packet → Option Vp9Packet) (f : ForwardTrack)
    (m : AcceptableMap) (fuel : ℕ) (queue : List (RtpForwardInfo Packet))
    → length queue ≤ fuel
    → ((receive_loop fuel true queue).1 ≡ waiting)
      × All (λ b. length b ≤ batch_limit) (receive_loop fuel true queue).0
      × (concat (map (process_batch depacketize f m) (receive_loop fuel true queue).0)
          ≡ process_batch depacketize f m queue)
receive_connected depacketize f m fuel queue h =
    let c = receive_loop-Covers fuel true queue h in
    let all : concat (receive_loop fuel true queue).0 ≡ queue =
      sym (append-nil (concat (receive_loop fuel true queue).0))
      ∙ (rw (c.whole refl).0 at c.covered) in
    (
      (c.whole refl).1,
      c.bounded,
      concat-process_batch depacketize f m (receive_loop fuel true queue).0
          ∙ ap (process_batch depacketize f m) all,
    )

-- Once the channel is disconnected, with fuel for each packet of the queue, only whole batches of 32
-- are processed: the last packets, as many as the length of the queue leaves over 32, are lost.
pub receive_disconnected :
    {A : Type 0} (fuel : ℕ) (queue : List A)
    → length queue ≤ fuel
    → (lost : List A) × (concat (receive_loop fuel false queue).0 ++ lost ≡ queue)
      × (length lost ≡ length queue % batch_limit)
receive_disconnected fuel queue h =
    let c = receive_loop-Covers fuel false queue h in
    let (k, e) = length-whole (receive_loop fuel false queue).0 (c.full refl).0 in
    (
      c.rest,
      c.covered,
      omega (
        arith,
        (c.full refl).1,
        e,
        ap length c.covered,
        length-append (concat (receive_loop fuel false queue).0) c.rest,
      ),
    )

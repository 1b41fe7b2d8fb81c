-- ===== src/Multicast.antt =====
-- crates/webrtc-manager/src/utils/multicast_sender.rs: one sender for each forward track. The channel
-- is that of crate `crossbeam`, so a sender and its operations are a parameter.
pub mod Delivery
use waterbus_rs.Base.{ℕ, String, string_eq, Bool, List, [], ◌∷◌, ◌≡◌, length, if◌then◌else◌}
use waterbus_rs.Table.{Table, insert, remove, get}
use waterbus_rs.Table.Keys.{remove_all}

-- What `try_send` answers.
pub data Sent : Type 0 where
  ok full disconnected : Sent

-- `channel::bounded` and `Sender::try_send` of crate `crossbeam`: the answer, and the sender after.
pub record Channel (Info : Type 0) : Type 1 where
  pub Sender : Type 0
  pub bounded : ℕ → Sender
  pub try_send : Sender → Info → Sent × Sender

abbrev pub channel_capacity : ℕ
channel_capacity = 1024

module _ {Info : Type 0} (c : Channel Info) where
  abbrev pub Senders : Type 0
  Senders = Table String c.Sender

  -- A receiver of this id that was there is replaced.
  unfoldable pub add_receiver : String → Senders → Senders
  add_receiver id senders = insert id (c.bounded channel_capacity) senders

  unfoldable pub remove_receiver : String → Senders → Senders
  remove_receiver id senders = remove id senders

  -- The loop of `send`: the senders after it, and the ids in `to_remove`.
  unfoldable pub send_each : Info → Senders → Senders × List String
  send_each info [] = ([], [])
  send_each info ((id, s) ∷ rest) =
      let (answer, s') = c.try_send s info in
      let (rest', dead) = send_each info rest in
      elim answer [
        | ok ↦ ((id, s') ∷ rest', dead)
        | full ↦ ((id, s') ∷ rest', dead)
        | disconnected ↦ ((id, s') ∷ rest', id ∷ dead)
      ]

  unfoldable pub send : Info → Senders → Senders
  send info senders = let (senders', dead) = send_each info senders in remove_all dead senders'

  unfoldable pub receiver_count : Senders → ℕ
  receiver_count senders = length senders

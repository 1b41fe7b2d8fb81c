-- ===== src/Room/Announced.antt =====
-- How often one call of `join_room` of crates/webrtc-manager/src/room.rs calls the joined callback.
use waterbus_rs.Base.{
  ℕ, ◌+◌, ◌≡◌, Bool, false, not, ◌&&◌, Option, none, some, Result, ok, err, ◌==◌, if◌then◌else◌,
}
use waterbus_rs.Errors.{WebRtcError}
use waterbus_rs.Webrtc.{Webrtc}
use waterbus_rs.Room.{Room}
use waterbus_rs.Room.Connecting.{JoinRoomResponse}
use waterbus_rs.Room.Sharing.{Joining}

-- A peer-to-peer join that succeeds answers without a description.
abbrev pub calls_at_once : Result WebRtcError (Option JoinRoomResponse) → ℕ
calls_at_once (ok none) = 1
calls_at_once (ok (some _)) = 0
calls_at_once (err _) = 0

abbrev pub one_if : Bool → ℕ
one_if b = if b then 1 else 0

-- The calls that the flags of a join account for.
abbrev marked : Joining → ℕ
marked j = one_if j.callback_called + one_if j.has_emitted

record IsCounted (j j' : Joining) (before after : ℕ) : Type 0 where
  counted : after + marked j ≡ before + marked j'
  total : j'.total_tracks ≡ j.total_tracks
  emits :
      (j.has_emitted && not (j.total_tracks == 0)) ≡ false
      → (j'.has_emitted && not (j'.total_tracks == 0)) ≡ false

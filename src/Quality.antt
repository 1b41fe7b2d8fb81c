-- ===== src/Quality.antt =====
-- crates/webrtc-manager/src/models/quality.rs, connection_type.rs and track_quality_request.rs:
-- the layers of a track, and the two ways in which a participant is connected.
pub mod Codes
use waterbus_rs.Base.{
  ℕ, ◌≡◌, ◌↔◌, refl, Bool, true, false, ◌&&◌, ◌||◌, String, not, arith, ◌==◌, leb, str_eq,
  if◌then◌else◌, EqTest,
}

-- `Option.none` is another constructor: files that use both write `TrackQuality.none`.
pub data TrackQuality : Type 0 where
  none low medium high : TrackQuality

-- `FromStr`: the rid of a simulcast layer. It never fails.
unfoldable pub from_str : String → TrackQuality
from_str s =
    if str_eq s "q"
    then low
    else if str_eq s "h"
    then medium
    else if str_eq s "f"
    then high
    else none

unfoldable pub from_u8 : ℕ → TrackQuality
from_u8 value =
    if value == 1 then low else if value == 2 then medium else if value == 3 then high else none

abbrev pub as_u8 : TrackQuality → ℕ
as_u8 none = 0
as_u8 low = 1
as_u8 medium = 2
as_u8 high = 3

-- The derived `PartialEq`.
abbrev pub quality_eq : TrackQuality → TrackQuality → Bool
quality_eq a b = as_u8 a == as_u8 b

-- `Ord::min` of the derived order, which is that of the discriminants.
unfoldable pub min_quality : TrackQuality → TrackQuality → TrackQuality
min_quality a b = if leb (as_u8 a) (as_u8 b) then a else b

pub quality_eq_iff : (a b : TrackQuality) → (quality_eq a b ≡ true) ↔ (a ≡ b)
quality_eq_iff a b = ground arith

instance abbrev pub quality_test : EqTest TrackQuality
quality_test = record { beq = quality_eq; beq_iff = quality_eq_iff }

-- What the code reads of a depacketized VP9 header (crate `webrtc`).
pub record Vp9Packet : Type 0 where
  pub l : Bool
  pub tid : ℕ
  pub sid : ℕ

-- `quality_to_svc_layers`: the spatial and the temporal layer.
unfoldable pub quality_to_svc_layers : TrackQuality → ℕ × ℕ
quality_to_svc_layers low = (0, 0)
quality_to_svc_layers medium = (1, 1)
quality_to_svc_layers high = (2, 2)
quality_to_svc_layers none = (0, 0)

unfoldable pub should_forward_vp9_svc : TrackQuality → Vp9Packet → Bool
unfolding quality_to_svc_layers
should_forward_vp9_svc q p =
    if not p.l || p.tid == 0 then true else p.sid == (quality_to_svc_layers q).0

pub data ConnectionType : Type 0 where
  p2p sfu : ConnectionType

-- `From<u8>` and `From<ConnectionType>`.
unfoldable pub connection_from_u8 : ℕ → ConnectionType
connection_from_u8 val = if val == 1 then sfu else p2p

abbrev pub connection_to_u8 : ConnectionType → ℕ
connection_to_u8 p2p = 0
connection_to_u8 sfu = 1

abbrev pub connection_eq : ConnectionType → ConnectionType → Bool
connection_eq a b = connection_to_u8 a == connection_to_u8 b

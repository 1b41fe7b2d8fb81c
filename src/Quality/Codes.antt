-- ===== src/Quality/Codes.antt =====
-- The byte codes of qualities and connection types (models/quality.rs, connection_type.rs).
use waterbus_rs.Base.{ℕ, ◌≡◌, ◌<◌, ◌≤◌, arith}
use waterbus_rs.Quality.{
  TrackQuality, from_u8, as_u8, min_quality, ConnectionType, connection_from_u8, connection_to_u8,
}

-- What is stored in an `AtomicU8` is read back: every quality and every connection type survives
-- its byte code, and every other byte is read as no quality or as peer to peer.
pub codes_roundtrip :
    ((q : TrackQuality) → from_u8 (as_u8 q) ≡ q)
    × ((c : ConnectionType) → connection_from_u8 (connection_to_u8 c) ≡ c)
    × ((n : ℕ) → 3 < n → from_u8 n ≡ TrackQuality.none)
    × ((n : ℕ) → 1 < n → connection_from_u8 n ≡ ConnectionType.p2p)
unfolding from_u8 connection_from_u8
codes_roundtrip = (λ q. ground arith, λ c. ground arith, λ n h. ground arith, λ n h. ground arith)

pub from_u8-as_u8 : (q : TrackQuality) → from_u8 (as_u8 q) ≡ q
from_u8-as_u8 q = codes_roundtrip.0 q

pub connection_from-to : (c : ConnectionType) → connection_from_u8 (connection_to_u8 c) ≡ c
connection_from-to c = codes_roundtrip.1 c

-- The smaller of two qualities is a lower bound, and is one of the two.
pub min_quality_le :
    (a b : TrackQuality) → (as_u8 (min_quality a b) ≤ as_u8 a) × (as_u8 (min_quality a b) ≤ as_u8 b)
unfolding min_quality
min_quality_le a b = ground arith

-- ===== src/Examples/Tracks.antt =====
-- A published track and its media, over a channel of crate `crossbeam` of which only the queue and
-- the state of its receiver are kept.
use waterbus_rs.Base.{
  ℕ, ◌≡◌, refl, Bool, true, false, String, string_eq, none, List, [], ◌∷◌, ◌++◌, length, ltb,
  if◌then◌else◌,
}
use waterbus_rs.Heap.{alloc}
use waterbus_rs.Table.{get, insert, remove}
use waterbus_rs.Table.Keys.{IsMap, remove_all}
use waterbus_rs.Quality.{low}
use waterbus_rs.Forward.{RtpForwardInfo, new_forward}
use waterbus_rs.Multicast.{
  Channel, Sent, Senders, send, send_each, add_receiver, ok, full, disconnected,
}
use waterbus_rs.Multicast.Delivery.{delivered, get-send}
use waterbus_rs.Media.{Media, new_media}
use waterbus_rs.Track.{
  Track, RemoteTrack, video, ReadRtp, rtp, failed, new_track, add_track, forward_rtp,
}
use waterbus_rs.Track.Consistent.{
  IsConsistent, Lives, created, next, layer, subscribed, relayed, Lives-IsConsistent,
  new_forward_track_lem,
}

-- The packets that wait, how many may, and whether the receiver is there.
pub record Queue : Type 0 where
  pub waiting : List (RtpForwardInfo ℕ)
  pub capacity : ℕ
  pub is_connected : Bool

abbrev pub try_send : Queue → RtpForwardInfo ℕ → Sent × Queue
try_send q info =
    if q.is_connected
    then (if ltb (length q.waiting) q.capacity
        then (ok, record q { waiting = q.waiting ++ info ∷ [] })
        else (full, q))
    else (disconnected, q)

abbrev pub channel : Channel (RtpForwardInfo ℕ)
channel = record {
  Sender = Queue;
  bounded = λ n. record { waiting = []; capacity = n; is_connected = true };
  try_send = try_send;
}

abbrev info : RtpForwardInfo ℕ
info = record { packet = 5; is_svc = false; is_simulcast = true; track_quality = low }

abbrev senders : Senders channel
senders =
    ("alice", record { waiting = []; capacity = 1; is_connected = true })
    ∷ ("bob", record { waiting = []; capacity = 1; is_connected = false })
    ∷ []

senders-IsMap : IsMap senders
senders-IsMap = unfold get in (refl, (refl, tt))

get-send_example :
    get "bob" (send channel info senders) ≡ delivered channel info (get "bob" senders)
get-send_example = get-send channel info "bob" senders senders-IsMap

-- The dead receiver is dropped, and the other has the packet.
sent :
    send channel info senders
    ≡ ("alice", record { waiting = info ∷ []; capacity = 1; is_connected = true }) ∷ []
unfolding send send_each remove_all remove
sent = refl

abbrev pub encoding : String → RemoteTrack
encoding rid = record {
  id = "camera";
  kind = video;
  rid = rid;
  mime_type = "video/VP8";
  mime_lowercase = "video/vp8";
  stream_id = "stream";
  ssrc = 11;
}

abbrev published : Track channel
published = add_track channel (encoding "f") (new_track channel (encoding "q") "room" "p1" true)

no_forward : get "alice" published.forward_tracks ≡ none
unfolding get add_track new_track
no_forward = refl

abbrev watched_track : Track channel
watched_track = record published {
  forward_tracks =
      insert "alice" (alloc (new_forward "alice" 11 published.keyframe_request) []).0
        published.forward_tracks;
  rtp_multicast = add_receiver channel "alice" published.rtp_multicast;
}

abbrev reads : List (ReadRtp ℕ)
reads = rtp false 5 ∷ failed ∷ []

watched : Lives channel watched_track
watched =
    next (next (created (encoding "q") "room" "p1" true) (layer (encoding "f")))
      (subscribed "alice" 11 [] (new_forward_track_lem channel "alice" 11 published [] no_forward))

relayed_track : Lives channel (forward_rtp channel (encoding "q") watched_track reads)
relayed_track = next watched (relayed (encoding "q") reads)

Lives-IsConsistent_example :
    IsConsistent channel (forward_rtp channel (encoding "q") watched_track reads)
Lives-IsConsistent_example = Lives-IsConsistent channel relayed_track

abbrev pub media : Media
media = new_media "1" "p1" true true false

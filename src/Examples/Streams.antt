-- ===== src/Examples/Streams.antt =====
-- A stream of seven segments, and the master playlist of a video and an audio stream.
use waterbus_rs.Base.{
  ℕ, ◌+◌, ◌*◌, ◌≤◌, ◌≡◌, true, false, String, none, [], ◌∷◌, ◌++◌, ◌==◌, if◌then◌else◌, map, length,
  arith,
}
use waterbus_rs.Egress.Segments.{Sample, new_stream, basename, new_sample, second}
use waterbus_rs.Egress.Segments.Window.{names, window_moved}
use waterbus_rs.Egress.Master.{State, R2MasterState, playlist, add_cloud_mimes}
use waterbus_rs.Egress.Master.Writing.{manifest_never_uploaded}

abbrev decimal : ℕ → String
decimal n = if n == 0 then "0" else "1"

abbrev sample : Sample
sample = record { pts = 5 * second; duration = second; pts_utc = 100 * second }

window_moved_example :
    (let (playlist, after) = new_sample decimal true sample new_stream in
      (names after ≡ names new_stream ++ basename decimal true new_stream.segment_index ∷ [])
      × (map (λ e. e.0) playlist.segments ≡ map (λ s. s.path) after.segments)
      × (length playlist.segments ≤ 5)
      × (playlist.media_sequence + length playlist.segments
          ≡ new_stream.media_sequence + length new_stream.segments + 1))
window_moved_example =
    window_moved decimal true sample new_stream (unfold new_stream in omega arith)

abbrev state : State
state = record {
  video_streams =
      record { name = "video_0"; bitrate = 2048; width = 1280; height = 720; codec = "avc" } ∷ [];
  audio_streams = record { name = "audio_0"; lang = "eng"; is_default = true; wave = "sine" } ∷ [];
  all_mimes = "mp4a.40.2" ∷ [];
  path = "master.m3u8";
  wrote_manifest = false;
  written = none;
}

abbrev cloud : R2MasterState
cloud = record { state = state; cloud_url_base = none; queue = []; has_worker = true }

manifest_never_uploaded_example : (add_cloud_mimes ("avc1" ∷ "opus" ∷ []) cloud).queue ≡ cloud.queue
manifest_never_uploaded_example = manifest_never_uploaded ("avc1" ∷ "opus" ∷ []) cloud

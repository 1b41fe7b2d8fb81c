-- ===== src/Media/Tracks.antt =====
-- The tracks of a media over the heap of tracks.
use waterbus_rs.Base.{◌≡◌, refl, eq_iff, String, string_eq, nat_eq, none, some, List, arith, length}
use waterbus_rs.Heap.{alloc, read, modify_at, read-alloc, read-modify_at}
use waterbus_rs.Table.{get, insert, get-insert}
use waterbus_rs.Forward.{RtpForwardInfo}
use waterbus_rs.Multicast.{Channel}
use waterbus_rs.Track.{Track, RemoteTrack, new_track, add_track}
use waterbus_rs.Media.{Media, add_track_success, add_simulcast_track_success, media_add_track}

module _ {Packet : Type 0} (c : Channel (RtpForwardInfo Packet)) where
  -- The first layer of a track that the media does not have makes a new shared track, and a second
  -- layer of the same id is added to that track: no second entry is made, the object is the same,
  -- and it is then what `Track::new` and `Track::add_track` make of the two layers.
  pub layers_share_track :
      (first second : RemoteTrack) (room_id : String) (m : Media) (heap : List (Track c))
      → second.id ≡ first.id
      → get first.id m.tracks ≡ none
      → (let one = media_add_track c first room_id m heap in
          let two = media_add_track c second room_id one.1 one.2 in
          (one.0 ≡ add_track_success (length heap))
          × (two.0 ≡ add_simulcast_track_success (length heap))
          × (two.1.tracks ≡ insert first.id (length heap) m.tracks)
          × (read (length heap) two.2
              ≡ some (
                  add_track c second
                    (new_track c first room_id m.participant_id m.keyframe_request))))
  unfolding media_add_track alloc
  layers_share_track first second room_id m heap same fresh =
      let track = new_track c first room_id m.participant_id m.keyframe_request in
      let got : get second.id (insert first.id (length heap) m.tracks) ≡ some (length heap) =
        ground (
          arith,
          get-insert first.id second.id (length heap) m.tracks,
          eq_iff first.id second.id,
        ) in
      let cell : read (length heap)
            (modify_at (length heap) (add_track c second) (alloc track heap).1)
          ≡ some (add_track c second track) =
        ground (
          arith,
          read-modify_at (length heap) (length heap) (add_track c second) (alloc track heap).1,
          read-alloc track heap,
        ) in
      rw (fresh, media_add_track, got) (refl, refl, refl, cell)

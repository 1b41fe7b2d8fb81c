-- ===== src/Subscriber/Forwarding.antt =====
-- What adding the track of a publisher to a subscriber, and ending the subscription, do to the track.
use mathlib.Core.Option
use waterbus_rs.Base.{
  zero, suc, ◌≡◌, refl, Bool, true, false, String, string_eq, eq_iff, none, some, ok, err, List, [],
  ◌∷◌, any, arith, ◌==◌, length,
}
use waterbus_rs.Heap.{Ref, alloc, read, write, read-modify_all, read-alloc}
use waterbus_rs.Table.{Table, get, insert, remove, get-insert, get-remove}
use waterbus_rs.Errors.{failed_to_add_track}
use waterbus_rs.Forward.{RtpForwardInfo, new_forward}
use waterbus_rs.Multicast.{Channel, add_receiver, remove_receiver}
use waterbus_rs.Track.{Track, remove_forward_track}
use waterbus_rs.Track.Consistent.{new_forward_track_lem}
use waterbus_rs.Subscriber.{
  Subscriber, Store, refs, subscriber_add_track, add_transceiver, transceiver_added,
  clear_all_forward_tracks,
}
use waterbus_rs.Subscriber.Adjusting.{refs-get}

module _ {ℓ} {V : Type ℓ} where
  remove_twice : (k : String) (m : Table String V) → remove k (remove k m) ≡ remove k m
  unfolding remove
  remove_twice k [] = refl
  remove_twice k ((j, v) ∷ m) = ground (arith, remove_twice k m)

module _ {ℓ} {A : Type ℓ} where
  read-write :
      (r : Ref) (a b : A) (heap : List A) → read r heap ≡ some b → read r (write r a heap) ≡ some a
  unfolding read write
  read-write r a b [] h = cc
  read-write zero a b (x ∷ heap) h = refl
  read-write (suc r) a b (x ∷ heap) h = read-write r a b heap h

module _ {Packet : Type 0} (c : Channel (RtpForwardInfo Packet)) where
  -- The track once the user has forward track `fwd`.
  abbrev pub watched : String → Ref → Track c → Track c
  watched user_id fwd t = record t {
    forward_tracks = insert user_id fwd t.forward_tracks;
    rtp_multicast = add_receiver c user_id t.rtp_multicast;
  }

  subscriber_add_track_lem :
      (answer : Bool) (r : Ref) (t : Track c) (s : Subscriber) (store : Store c)
      → get t.id s.tracks ≡ none
      → get s.user_id t.forward_tracks ≡ none
      → subscriber_add_track c answer r t s store
        ≡ transceiver_added c answer r t.id
            (record s { tracks = insert t.id r s.tracks })
            store
            (ok (
              (alloc (new_forward s.user_id t.ssrc t.keyframe_request) store.forwards).0,
              watched s.user_id
                  (alloc (new_forward s.user_id t.ssrc t.keyframe_request) store.forwards).0
                  t,
              (alloc (new_forward s.user_id t.ssrc t.keyframe_request) store.forwards).1,
            ))
  unfolding subscriber_add_track add_transceiver
  subscriber_add_track_lem answer r t s store new_track free =
      rw
        (
          new_track,
          subscriber_add_track,
          new_forward_track_lem c s.user_id t.ssrc t store.forwards free,
        )
        refl

  -- Where the peer connection accepts a transceiver for it, a track that the subscriber does not have,
  -- and to which its user has no subscription, gets a new forward track for this user, which the
  -- subscriber can find by the id of the track, and a receiver; the track is read back with both.
  pub subscribed_track :
      (r : Ref) (t : Track c) (s : Subscriber) (store : Store c)
      → read r store.published ≡ some t
      → get t.id s.tracks ≡ none
      → get s.user_id t.forward_tracks ≡ none
      → (let after = subscriber_add_track c true r t s store in
          (after.0 ≡ ok tt)
          × (get t.id after.1.tracks ≡ some r)
          × (get t.id after.1.track_map ≡ some (length store.forwards))
          × (read (length store.forwards) after.2.forwards
              ≡ some (new_forward s.user_id t.ssrc t.keyframe_request))
          × (Option.map (λ u. get s.user_id u.forward_tracks) (read r after.2.published)
              ≡ some (some (length store.forwards)))
          × (Option.map (λ u. get s.user_id u.rtp_multicast) (read r after.2.published)
              ≡ some (some (c.bounded 1024))))
  unfolding alloc add_receiver transceiver_added
  subscribed_track r t s store there new_track free =
      let fwd = new_forward s.user_id t.ssrc t.keyframe_request in
      let u = watched s.user_id (length store.forwards) t in
      let cell = read-write r u t store.published there in
      rw (subscriber_add_track_lem true r t s store new_track free) (
        refl,
        ground (arith, get-insert t.id t.id r s.tracks, eq_iff t.id t.id),
        ground (arith, get-insert t.id t.id (length store.forwards) s.track_map, eq_iff t.id t.id),
        read-alloc fwd store.forwards,
        ground (
          arith,
          cell,
          get-insert s.user_id s.user_id (length store.forwards) t.forward_tracks,
          eq_iff s.user_id s.user_id,
        ),
        ground (
          arith,
          cell,
          get-insert s.user_id s.user_id (c.bounded 1024) t.rtp_multicast,
          eq_iff s.user_id s.user_id,
        ),
      )

  known_track_lem :
      (answer : Bool) (r old : Ref) (t : Track c) (s : Subscriber) (store : Store c)
      → get t.id s.tracks ≡ some old
      → subscriber_add_track c answer r t s store
        ≡ (ok tt, record s { tracks = insert t.id r s.tracks }, store)
  unfolding subscriber_add_track
  known_track_lem answer r old t s store known = rw (known, subscriber_add_track) refl

  -- Where the peer connection refuses the transceiver, the call fails, but the subscriber keeps the
  -- track: a second call for this track succeeds without asking for a transceiver, and the
  -- subscriber has no forward track for it.
  pub refused_track_not_retried :
      (answer : Bool) (r : Ref) (t u : Track c) (s : Subscriber) (store : Store c)
      → u.id ≡ t.id
      → get t.id s.tracks ≡ none
      → get t.id s.track_map ≡ none
      → get s.user_id t.forward_tracks ≡ none
      → (let first = subscriber_add_track c false r t s store in
          let second = subscriber_add_track c answer r u first.1 first.2 in
          (first.0 ≡ err failed_to_add_track)
          × (second.0 ≡ ok tt)
          × (get t.id second.1.track_map ≡ none)
          × (second.2 ≡ first.2))
  unfolding transceiver_added
  refused_track_not_retried answer r t u s store same new_track unmapped free =
      let got : get u.id (insert t.id r s.tracks) ≡ some r =
        ground (arith, get-insert t.id u.id r s.tracks, eq_iff t.id u.id) in
      let new = alloc (new_forward s.user_id t.ssrc t.keyframe_request) store.forwards in
      let s' : Subscriber = record s { tracks = insert t.id r s.tracks } in
      let first =
        transceiver_added c false r t.id s' store (ok (new.0, watched s.user_id new.0 t, new.1)) in
      let known = known_track_lem answer r r u first.1 first.2 got in
      rw (subscriber_add_track_lem false r t s store new_track free, known)
        (refl, refl, unmapped, refl)

  removed_twice :
      (id : String) (t : Track c)
      → remove_forward_track c id (remove_forward_track c id t) ≡ remove_forward_track c id t
  unfolding remove_forward_track remove_receiver
  removed_twice id t = rw (remove_twice id t.forward_tracks, remove_twice id t.rtp_multicast) refl

  removed_forward :
      (id : String) (t : Track c) → get id (remove_forward_track c id t).forward_tracks ≡ none
  unfolding remove_forward_track
  removed_forward id t = ground (arith, get-remove id id t.forward_tracks, eq_iff id id)

  removed_receiver :
      (id : String) (t : Track c) → get id (remove_forward_track c id t).rtp_multicast ≡ none
  unfolding remove_forward_track remove_receiver
  removed_receiver id t = ground (arith, get-remove id id t.rtp_multicast, eq_iff id id)

  -- After a subscriber is cleared, none of the tracks that it had has a forward track or a receiver
  -- of its user, the other tracks are as before, and it has no tracks.
  pub cleared_subscriber :
      (s : Subscriber) (store : Store c) (id : String) (r other : Ref) (t : Track c)
      → get id s.tracks ≡ some r
      → read r store.published ≡ some t
      → any (λ j. j == other) (refs s.tracks) ≡ false
      → (let after = clear_all_forward_tracks c s store in
          (after.0.tracks ≡ [])
          × (after.0.track_map ≡ [])
          × (Option.map (λ u. get s.user_id u.forward_tracks) (read r after.1.published)
              ≡ some none)
          × (Option.map (λ u. get s.user_id u.rtp_multicast) (read r after.1.published) ≡ some none)
          × (read other after.1.published ≡ read other store.published))
  unfolding clear_all_forward_tracks
  cleared_subscriber s store id r other t mapped there foreign =
      let f = remove_forward_track c s.user_id in
      let reach = read-modify_all f (refs s.tracks) r store.published (removed_twice s.user_id) in
      let rest =
        read-modify_all f (refs s.tracks) other store.published (removed_twice s.user_id) in
      let in_refs = refs-get id r s.tracks mapped in
      (
        refl,
        refl,
        ground (arith, reach, in_refs, removed_forward s.user_id t),
        ground (arith, reach, in_refs, removed_receiver s.user_id t),
        ground (arith, rest),
      )

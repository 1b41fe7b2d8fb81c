-- ===== src/Track/Consistent.antt =====
-- The invariant of a track that has not been stopped.
use waterbus_rs.Base.{
  ℕ, ◌≡◌, ◌<◌, refl, Bool, true, false, String, string_eq, none, List, [], ◌∷◌, subst, sym, ap, ◌∙◌,
  ok_injective, ok, arith, ltb, length, length-append, inl, inr, Option-cases,
}
use waterbus_rs.Heap.{Ref, alloc}
use waterbus_rs.Table.{get, insert, get-insert, get-remove}
use waterbus_rs.Table.Keys.{IsMap, insert-IsMap, remove-IsMap}
use waterbus_rs.Simulcast.{rebuild_acceptable_map}
use waterbus_rs.Forward.{ForwardTrack, RtpForwardInfo, new_forward}
use waterbus_rs.Multicast.{Channel, add_receiver, remove_receiver, send}
use waterbus_rs.Multicast.Delivery.{get-send, send-IsMap}
use waterbus_rs.Track.{
  Track, RemoteTrack, rids, new_track, add_track, new_forward_track, remove_forward_track,
  forward_rtp, ReadRtp, rtp, failed, is_vp9,
}

module _ {Packet : Type 0} (c : Channel (RtpForwardInfo Packet)) where
  pub record IsConsistent (t : Track c) : Type 0 where
    pub fresh_map : t.acceptable_map ≡ rebuild_acceptable_map (rids c t.remote_tracks)
    pub simulcast : t.is_simulcast ≡ ltb 1 (length t.remote_tracks)
    pub svc : t.is_svc ≡ is_vp9 t.codec_type
    pub some_layer : 0 < length t.remote_tracks
    pub forwards : IsMap t.forward_tracks
    pub senders : IsMap t.rtp_multicast
    -- Every receiver belongs to a forward track.
    pub owned : (id : String) → get id t.forward_tracks ≡ none → get id t.rtp_multicast ≡ none

  new_track-IsConsistent :
      (r : RemoteTrack) (room_id participant_id : String) (k : Bool)
      → IsConsistent (new_track c r room_id participant_id k)
  unfolding new_track get
  new_track-IsConsistent r room_id participant_id k = record {
    fresh_map = refl;
    simulcast = refl;
    svc = refl;
    some_layer = omega arith;
    forwards = tt;
    senders = tt;
    owned = λ id h. refl;
  }

  add_track-IsConsistent :
      (r : RemoteTrack) (t : Track c) → IsConsistent t → IsConsistent (add_track c r t)
  unfolding add_track
  add_track-IsConsistent r t h = record {
    fresh_map = refl;
    simulcast = ground (arith, length-append t.remote_tracks (r ∷ []), h.some_layer);
    svc = h.svc;
    some_layer = omega (arith, length-append t.remote_tracks (r ∷ []));
    forwards = h.forwards;
    senders = h.senders;
    owned = h.owned;
  }

  remove_forward_track-IsConsistent :
      (id : String) (t : Track c) → IsConsistent t → IsConsistent (remove_forward_track c id t)
  unfolding remove_forward_track remove_receiver
  remove_forward_track-IsConsistent id t h = record {
    fresh_map = h.fresh_map;
    simulcast = h.simulcast;
    svc = h.svc;
    some_layer = h.some_layer;
    forwards = remove-IsMap id t.forward_tracks h.forwards;
    senders = remove-IsMap id t.rtp_multicast h.senders;
    owned = λ j e.
        ground
          (arith, get-remove id j t.forward_tracks, get-remove id j t.rtp_multicast, h.owned j);
  }

  -- What a successful `new_forward_track` returns, field by field.
  pub new_forward_track_lem :
      (id : String) (ssrc : ℕ) (t : Track c) (heap : List ForwardTrack)
      → get id t.forward_tracks ≡ none
      → new_forward_track c id ssrc t heap
        ≡ ok (
          (alloc (new_forward id ssrc t.keyframe_request) heap).0,
          record t {
            forward_tracks =
                insert id (alloc (new_forward id ssrc t.keyframe_request) heap).0 t.forward_tracks;
            rtp_multicast = add_receiver c id t.rtp_multicast;
          },
          (alloc (new_forward id ssrc t.keyframe_request) heap).1,
        )
  unfolding new_forward_track
  new_forward_track_lem id ssrc t heap e = rw (e, new_forward_track)

  subscribed-IsConsistent :
      (id : String) (r : Ref) (t : Track c)
      → IsConsistent t
      → IsConsistent (record t {
        forward_tracks = insert id r t.forward_tracks;
        rtp_multicast = add_receiver c id t.rtp_multicast;
      })
  unfolding add_receiver
  subscribed-IsConsistent id r t h = record {
    fresh_map = h.fresh_map;
    simulcast = h.simulcast;
    svc = h.svc;
    some_layer = h.some_layer;
    forwards = insert-IsMap id r t.forward_tracks h.forwards;
    senders = insert-IsMap id _ t.rtp_multicast h.senders;
    owned = λ j e. ground (
      arith,
      get-insert id j r t.forward_tracks,
      get-insert id j (c.bounded 1024) t.rtp_multicast,
      h.owned j,
    );
  }

  new_forward_track-IsConsistent :
      (id : String) (ssrc : ℕ) (t : Track c) (heap : List ForwardTrack) (r : Ref) (t' : Track c)
      (heap' : List ForwardTrack)
      → new_forward_track c id ssrc t heap ≡ ok (r, t', heap')
      → IsConsistent t
      → IsConsistent t'
  unfolding new_forward_track
  new_forward_track-IsConsistent id ssrc t heap r t' heap' e h =
      elim (Option-cases (get id t.forward_tracks)) [
        | inl free ↦
            subst IsConsistent
              (ap (λ p. p.1) (ok_injective (sym (new_forward_track_lem id ssrc t heap free) ∙ e)))
              (subscribed-IsConsistent id _ t h)
        | inr (x, taken) ↦ cc (rw (taken, new_forward_track) at e)
      ]

  sent-IsConsistent :
      (info : RtpForwardInfo Packet) (t : Track c)
      → IsConsistent t
      → IsConsistent (record t { rtp_multicast = send c info t.rtp_multicast })
  sent-IsConsistent info t h = record {
    fresh_map = h.fresh_map;
    simulcast = h.simulcast;
    svc = h.svc;
    some_layer = h.some_layer;
    forwards = h.forwards;
    senders = send-IsMap c info t.rtp_multicast h.senders;
    owned = λ j e. ground (arith, get-send c info j t.rtp_multicast h.senders, h.owned j);
  }

  forward_rtp-IsConsistent :
      (remote : RemoteTrack) (reads : List (ReadRtp Packet)) (t : Track c)
      → IsConsistent t
      → IsConsistent (forward_rtp c remote t reads)
  unfolding forward_rtp
  forward_rtp-IsConsistent remote [] t h = h
  forward_rtp-IsConsistent remote (failed ∷ reads) t h = h
  forward_rtp-IsConsistent remote (rtp true packet ∷ reads) t h =
      forward_rtp-IsConsistent remote reads t h
  forward_rtp-IsConsistent remote (rtp false packet ∷ reads) t h =
      forward_rtp-IsConsistent remote reads _ (sent-IsConsistent _ t h)

  -- One thing that happens to a live track: another layer, a subscriber who comes or goes, packets
  -- that are read from one of its remote tracks.
  pub data Step (t : Track c) : Track c → Type 0 where
    layer : (r : RemoteTrack) → Step t (add_track c r t)
    subscribed :
        (id : String) (ssrc : ℕ) (heap : List ForwardTrack) {r : Ref} {t' : Track c}
        {heap' : List ForwardTrack}
        → new_forward_track c id ssrc t heap ≡ ok (r, t', heap')
        → Step t t'
    unsubscribed : (id : String) → Step t (remove_forward_track c id t)
    relayed :
        (remote : RemoteTrack) (reads : List (ReadRtp Packet))
        → Step t (forward_rtp c remote t reads)

  pub data Lives : Track c → Type 0 where
    created :
        (r : RemoteTrack) (room_id participant_id : String) (k : Bool)
        → Lives (new_track c r room_id participant_id k)
    next : {t u : Track c} → Lives t → Step t u → Lives u

  Step-IsConsistent : {t u : Track c} → Step t u → IsConsistent t → IsConsistent u
  Step-IsConsistent {t} (layer r) h = add_track-IsConsistent r t h
  Step-IsConsistent {t} (subscribed id ssrc heap e) h =
      new_forward_track-IsConsistent id ssrc t heap _ _ _ e h
  Step-IsConsistent {t} (unsubscribed id) h = remove_forward_track-IsConsistent id t h
  Step-IsConsistent {t} (relayed remote reads) h = forward_rtp-IsConsistent remote reads t h

  -- Through any sequence of new layers, subscriptions, their ends and packets, as long as it is not
  -- stopped, a track has an acceptable map that is the one of its present layers, is marked as
  -- simulcast exactly when it has more than one layer, is marked as scalable exactly for VP9, has
  -- one entry for each subscriber, and has no receiver without a forward track.
  pub Lives-IsConsistent : {t : Track c} → Lives t → IsConsistent t
  Lives-IsConsistent (created r room_id participant_id k) =
      new_track-IsConsistent r room_id participant_id k
  Lives-IsConsistent (next l st) = Step-IsConsistent st (Lives-IsConsistent l)

-- ===== src/Room/Arriving.antt =====
-- How often, and when, the joined callback of a participant is called.
use waterbus_rs.Base.{
  ◌+◌, ◌%◌, ◌<◌, ◌≡◌, ◌∙◌, refl, ap, sym, subst, Bool, true, false, not, ◌&&◌, ◌||◌, String,
  string_eq, str_eq, eq_iff, none, some, List, [], ◌∷◌, ◌==◌, if◌then◌else◌, length, All, arith,
  Option-cases, inl, inr,
}
use waterbus_rs.Heap.{Ref, alloc}
use waterbus_rs.Table.{Table, get, insert, get-insert}
use waterbus_rs.Webrtc.{Webrtc}
use waterbus_rs.Forward.{RtpForwardInfo}
use waterbus_rs.Multicast.{Channel}
use waterbus_rs.Track.{Track, RemoteTrack}
use waterbus_rs.Media.{
  Media, AddTrackResponse, add_track_success, add_simulcast_track_success, failed_to_add_track,
  media_add_track,
}
use waterbus_rs.Room.{Room, Publisher, Connected, peers_of}
use waterbus_rs.Room.Connecting.{connected_add_track}
use waterbus_rs.Room.Sharing.{
  Joining, add_to_peers, add_track_to_subscribers, count_track, shared, on_track, on_tracks,
}

-- What arriving tracks do to the calls of the callback: there is one when the flag is set, and the
-- flag stays set. The rest of what the callbacks share stays.
pub record IsCalled (j j' : Joining) (before after : List (String × Bool)) : Type 0 where
  pub called : after ≡ (
      if j'.callback_called && not j.callback_called
      then (j.participant_id, j.is_migrate) ∷ before
      else before)
  pub kept : (j.callback_called || j'.callback_called) ≡ j'.callback_called
  pub same : j'.participant_id ≡ j.participant_id
  pub migrates : j'.is_migrate ≡ j.is_migrate
  pub total : j'.total_tracks ≡ j.total_tracks
  pub emitted : j'.has_emitted ≡ j.has_emitted

module _ (w : Webrtc) {Packet : Type 0} (c : Channel (RtpForwardInfo Packet)) where
  -- Adding a track to subscribers leaves the publishers, and the calls of the callback, alone.
  abbrev Alike : Room w c → Room w c → Type 0
  Alike a b = (a.publishers ≡ b.publishers) × (a.joined ≡ b.joined)

  connected-Alike :
      (r : Ref) (s : Connected w) (room : Room w c)
      → Alike (connected_add_track w c r s room).2 room
  unfolding connected_add_track
  connected-Alike r s room = ground arith

  add_to_peers-Alike :
      (r : Ref) (keys : List String) (room : Room w c) → Alike (add_to_peers w c r keys room) room
  unfolding add_to_peers
  add_to_peers-Alike r [] room = (refl, refl)
  add_to_peers-Alike r (key ∷ keys) room = elim (Option-cases (get key room.subscribers)) [
    | inl e ↦ ground (arith, e, add_to_peers-Alike r keys room)
    | inr (s, e) ↦
        let step = connected_add_track w c r s room in
        let room' : Room w c = record step.2 {
          subscribers = insert key step.1 step.2.subscribers;
        } in
        ground (arith, e, connected-Alike r s room, add_to_peers-Alike r keys room')
  ]

  count_track-IsCalled :
      (j : Joining) (room : Room w c)
      → IsCalled j (count_track w c j room).0 room.joined (count_track w c j room).1.joined
  unfolding count_track
  count_track-IsCalled j room = ground arith

  shared-IsCalled :
      (j : Joining) (a : AddTrackResponse) (room : Room w c)
      → IsCalled j (shared w c j a room).0 room.joined (shared w c j a room).1.joined
  unfolding shared add_track_to_subscribers
  shared-IsCalled j (add_track_success r) room =
      let keys = peers_of w c j.participant_id room in
      ground (
        arith,
        count_track-IsCalled j (add_to_peers w c r keys room),
        add_to_peers-Alike r keys room,
      )
  shared-IsCalled j (add_simulcast_track_success r) room =
      ground (arith, add_to_peers-Alike r (peers_of w c j.participant_id room) room)
  shared-IsCalled j failed_to_add_track room = ground arith

  pub on_track-IsCalled :
      (room_id : String) (t : RemoteTrack) (j : Joining) (room : Room w c)
      → IsCalled j
          (on_track w c room_id t j room).0
          room.joined
          (on_track w c room_id t j room).1.joined
  unfolding on_track
  on_track-IsCalled room_id t j room = elim (Option-cases (get j.participant_id room.publishers)) [
    | inl e ↦ ground (arith, e)
    | inr (p, e) ↦
        let step = media_add_track c t room_id p.media room.store.published in
        ground (
          arith,
          e,
          shared-IsCalled j step.0 (record room {
            publishers = insert j.participant_id (record p { media = step.1 }) room.publishers;
            store = record room.store { published = step.2 };
          }),
        )
  ]

  pub on_tracks-IsCalled :
      (room_id : String) (ts : List RemoteTrack) (j : Joining) (room : Room w c)
      → IsCalled j
          (on_tracks w c room_id ts j room).0
          room.joined
          (on_tracks w c room_id ts j room).1.joined
  unfolding on_tracks
  on_tracks-IsCalled room_id [] j room = ground arith
  on_tracks-IsCalled room_id (t ∷ ts) j room =
      let step = on_track w c room_id t j room in
      ground
        (arith, on_track-IsCalled room_id t j room, on_tracks-IsCalled room_id ts step.0 step.1)

-- Tracks with different ids, none of which the media has.
abbrev pub AreNew : Table String Ref → List RemoteTrack → Type 0
AreNew tracks [] = Unit
AreNew tracks (t ∷ ts) =
    (get t.id tracks ≡ none) × All (λ u. str_eq t.id u.id ≡ false) ts × AreNew tracks ts

AreNew-insert :
    (id : String) (r : Ref) (tracks : Table String Ref) (ts : List RemoteTrack)
    → All (λ u. str_eq id u.id ≡ false) ts
    → AreNew tracks ts
    → AreNew (insert id r tracks) ts
AreNew-insert id r tracks [] apart new = tt
AreNew-insert id r tracks (t ∷ ts) apart new = (
  ground (arith, get-insert id t.id r tracks, apart.0, new.0),
  new.1,
  AreNew-insert id r tracks ts apart.1 new.2,
)

module _ (w : Webrtc) {Packet : Type 0} (c : Channel (RtpForwardInfo Packet)) where
  -- A new track is counted, and its publisher has it afterwards.
  record Counted (j : Joining) (t : RemoteTrack) (p : Publisher w) (after : Joining × Room w c)
      : Type 0 where
    r : Ref
    p' : Publisher w
    there : get j.participant_id after.1.publishers ≡ some p'
    has : p'.media.tracks ≡ insert t.id r p.media.tracks
    id : after.0.participant_id ≡ j.participant_id
    total : after.0.total_tracks ≡ j.total_tracks
    count : after.0.track_counter ≡ (j.track_counter + 1) % 256
    reached :
        after.0.callback_called
        ≡ (j.callback_called || (j.track_counter + 1) % 256 == j.total_tracks)

  media_add_track-new :
      (room_id : String) (t : RemoteTrack) (m : Media) (heap : List (Track c))
      → get t.id m.tracks ≡ none
      → ((media_add_track c t room_id m heap).0 ≡ add_track_success (length heap))
        × ((media_add_track c t room_id m heap).1.tracks ≡ insert t.id (length heap) m.tracks)
  unfolding media_add_track alloc
  media_add_track-new room_id t m heap new = rw (new, media_add_track) (refl, refl)

  new_track-Counted :
      (room_id : String) (t : RemoteTrack) (j : Joining) (room : Room w c) (p : Publisher w)
      → get j.participant_id room.publishers ≡ some p
      → get t.id p.media.tracks ≡ none
      → Counted j t p (on_track w c room_id t j room)
  unfolding on_track shared count_track add_track_to_subscribers
  new_track-Counted room_id t j room p there new =
      let step = media_add_track c t room_id p.media room.store.published in
      let r = length room.store.published in
      let room' : Room w c = record room {
        publishers = insert j.participant_id (record p { media = step.1 }) room.publishers;
        store = record room.store { published = step.2 };
      } in
      let alike = add_to_peers-Alike w c r (peers_of w c j.participant_id room') room' in
      let made = media_add_track-new room_id t p.media room.store.published new in
      let got : get j.participant_id room'.publishers ≡ some (record p { media = step.1 }) =
        ground (
          arith,
          get-insert j.participant_id j.participant_id (record p { media = step.1 })
              room.publishers,
          eq_iff j.participant_id j.participant_id,
        ) in
      rw (there, on_track, made.0, shared)
        (record {
          r = r;
          p' = record p { media = step.1 };
          there = ground (arith, alike, got);
          has = made.1;
          id = ground arith;
          total = ground arith;
          count = ground arith;
          reached = ground arith;
        })

  reached_at_last :
      (room_id : String) (ts : List RemoteTrack) (j : Joining) (room : Room w c) (p : Publisher w)
      → get j.participant_id room.publishers ≡ some p
      → AreNew p.media.tracks ts
      → 0 < length ts
      → j.track_counter + length ts ≡ j.total_tracks
      → j.total_tracks < 256
      → (on_tracks w c room_id ts j room).0.callback_called ≡ true
  unfolding on_tracks
  reached_at_last room_id [] j room p there new some_track all small = absurd (omega arith)
  reached_at_last room_id (t ∷ []) j room p there new some_track all small =
      let k = new_track-Counted room_id t j room p there new.0 in ground (arith, k.reached)
  reached_at_last room_id (t ∷ u ∷ ts) j room p there new some_track all small =
      let k = new_track-Counted room_id t j room p there new.0 in
      let step = on_track w c room_id t j room in
      reached_at_last room_id (u ∷ ts) step.0 step.1 k.p'
        (ap (λ id. get id step.1.publishers) k.id ∙ k.there)
        (subst (λ tracks. AreNew tracks (u ∷ ts)) (sym k.has)
          (AreNew-insert t.id k.r p.media.tracks (u ∷ ts) new.1 new.2))
        (omega arith) (ground (arith, k.count, k.total)) (ground (arith, k.total))

  -- Where a participant is a publisher of the room and its callback was not called by tracks
  -- before, and the tracks that arrive have different ids, which its media does not have, and are
  -- at least one and, with those counted before, as many as announced, fewer than 256, the joined
  -- callback of the participant is called, once, by the time that all of them have arrived; nobody
  -- else's is.
  pub joined_at_last :
      (room_id : String) (ts : List RemoteTrack) (j : Joining) (room : Room w c) (p : Publisher w)
      → get j.participant_id room.publishers ≡ some p
      → AreNew p.media.tracks ts
      → 0 < length ts
      → j.track_counter + length ts ≡ j.total_tracks
      → j.total_tracks < 256
      → j.callback_called ≡ false
      → (on_tracks w c room_id ts j room).1.joined ≡ (j.participant_id, j.is_migrate) ∷ room.joined
  joined_at_last room_id ts j room p there new some_track all small not_called = ground (
    arith,
    on_tracks-IsCalled w c room_id ts j room,
    reached_at_last room_id ts j room p there new some_track all small,
    not_called,
  )

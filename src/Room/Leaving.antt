-- ===== src/Room/Leaving.antt =====
-- Who is left in a room after a participant has gone, and whom a change of a media reaches.
use Prim.Native.String.{◌++◌ as str_append}
use text.Mathlib.TextPositions.{starts_with-append}
use waterbus_rs.Base.{
  ◌≡◌, ◌∙◌, refl, Bool, true, false, String, string_eq, str_eq, eq_iff, starts_with, none, some, ok,
  err, List, [], ◌∷◌, map, keep, any, arith, if◌then◌else◌, Bool-cases, inl, inr,
}
use waterbus_rs.Table.{Table, get, get-insert, get-remove}
use waterbus_rs.Webrtc.{Webrtc}
use waterbus_rs.Errors.{participant_not_found}
use waterbus_rs.Forward.{RtpForwardInfo}
use waterbus_rs.Multicast.{Channel}
use waterbus_rs.Media.{Media}
use waterbus_rs.Room.{
  Room, Publisher, peer_id, peer_prefix, peers_of, close_subscriber, close_each,
  remove_all_subscribers_with_target_id, remove_publisher, room_leave, with_media,
}

peer_id-prefix :
    (id participant : String) → starts_with (peer_id id participant) (peer_prefix id) ≡ true
unfolding peer_id peer_prefix
peer_id-prefix id participant = starts_with-append (str_append "p_" (str_append id "_")) participant

module _ {V : Type 0} (p : String → Bool) (k : String) where
  abbrev named : Table String V → Bool
  named m = any (λ j. str_eq j k) (keep p (map (λ e. e.0) m))

  not_kept : (m : Table String V) → p k ≡ false → named m ≡ false
  not_kept [] h = refl
  not_kept ((j, v) ∷ m) h = elim (Bool-cases (p j)) [
    | inl e ↦ ground (arith, e, eq_iff j k, not_kept m h)
    | inr e ↦ ground (arith, e, not_kept m h)
  ]

  kept_or_none : (m : Table String V) → p k ≡ true → (if named m then none else get k m) ≡ none
  unfolding get
  kept_or_none [] h = refl
  kept_or_none ((j, v) ∷ m) h = elim (Bool-cases (p j)) [
    | inl e ↦ ground (arith, e, eq_iff j k, kept_or_none m h)
    | inr e ↦ ground (arith, e, eq_iff j k, kept_or_none m h)
  ]

  kept_names :
      (m : Table String V) → (if named m then none else get k m) ≡ (if p k then none else get k m)
  kept_names m = elim (Bool-cases (p k)) [
    | inl e ↦ rw e (kept_or_none m e)
    | inr e ↦ rw (e, not_kept m e) refl
  ]

module _ (w : Webrtc) {Packet : Type 0} (c : Channel (RtpForwardInfo Packet)) where
  close_subscriber-get :
      (key k : String) (room : Room w c)
      → (get k (close_subscriber w c key room).subscribers
          ≡ (if str_eq key k then none else get k room.subscribers))
        × ((close_subscriber w c key room).publishers ≡ room.publishers)
  unfolding close_subscriber
  close_subscriber-get key k room = ground (arith, get-remove key k room.subscribers, eq_iff key k)

  close_each-get :
      (keys : List String) (k : String) (room : Room w c)
      → (get k (close_each w c keys room).subscribers
          ≡ (if any (λ j. str_eq j k) keys then none else get k room.subscribers))
        × ((close_each w c keys room).publishers ≡ room.publishers)
  unfolding close_each
  close_each-get [] k room = (refl, refl)
  close_each-get (key ∷ keys) k room =
      let one = close_subscriber-get key k room in
      let rest = close_each-get keys k (close_subscriber w c key room) in
      (ground (arith, one.0, rest.0), rest.1 ∙ one.1)

  remove_publisher-get :
      (id other : String) (room : Room w c)
      → (get other (remove_publisher w c id room).publishers
          ≡ (if str_eq id other then none else get other room.publishers))
        × ((remove_publisher w c id room).subscribers ≡ room.subscribers)
  unfolding remove_publisher
  remove_publisher-get id other room =
      ground (arith, get-remove id other room.publishers, eq_iff id other)

  removed_subscribers-get :
      (id k : String) (room : Room w c)
      → (get k (remove_all_subscribers_with_target_id w c id room).subscribers
          ≡ (if starts_with k (peer_prefix id) then none else get k room.subscribers))
        × ((remove_all_subscribers_with_target_id w c id room).publishers ≡ room.publishers)
  unfolding remove_all_subscribers_with_target_id peers_of
  removed_subscribers-get id k room =
      let gone = close_each-get (peers_of w c id room) k room in
      (gone.0 ∙ kept_names (λ j. starts_with j (peer_prefix id)) k room.subscribers, gone.1)

  -- After a participant has left, it is no publisher, and all others are; of the subscribers exactly
  -- those are gone whose key begins with the prefix of this participant, so every subscription to it
  -- is gone, and one that it has to another publisher stays, where its key does not begin so.
  pub left_room :
      (id other participant key : String) (room : Room w c)
      → (get other (room_leave w c id room).publishers
          ≡ (if str_eq id other then none else get other room.publishers))
        × (get key (room_leave w c id room).subscribers
            ≡ (if starts_with key (peer_prefix id) then none else get key room.subscribers))
        × (get (peer_id id participant) (room_leave w c id room).subscribers ≡ none)
  unfolding room_leave
  left_room id other participant key room =
      let room' = remove_all_subscribers_with_target_id w c id room in
      let ps = remove_publisher-get id other room' in
      (
        ps.0 ∙ ground (arith, removed_subscribers-get id key room),
        ground (arith, ps, removed_subscribers-get id key room),
        ground (
          arith,
          ps,
          removed_subscribers-get id (peer_id id participant) room,
          peer_id-prefix id participant,
        ),
      )

  -- A change of the media of a publisher reaches this publisher, and no other publisher, no
  -- subscriber and no track; for a participant who is no publisher it is refused.
  pub media_changed :
      (f : Media → Media) (id missing other : String) (p : Publisher w) (room : Room w c)
      → get id room.publishers ≡ some p
      → get missing room.publishers ≡ none
      → (get other (with_media w c f id room).1.publishers ≡ (
          if str_eq id other
          then some (record p { media = f p.media })
          else get other room.publishers))
        × ((with_media w c f id room).0 ≡ ok tt)
        × ((with_media w c f id room).1.subscribers ≡ room.subscribers)
        × ((with_media w c f id room).1.store ≡ room.store)
        × ((with_media w c f id room).1.net ≡ room.net)
        × (with_media w c f missing room ≡ (err participant_not_found, room))
  unfolding with_media
  media_changed f id missing other p room there absent =
      rw (there, absent, with_media)
        (
          get-insert id other (record p { media = f p.media }) room.publishers,
          refl,
          refl,
          refl,
          refl,
          refl,
        )

-- ===== src/Room/Exchange.antt =====
-- What the handlers that exchange descriptions leave in the room.
use mathlib.Core.Option
use waterbus_rs.Base.{
  ℕ, ◌≡◌, refl, false, String, string_eq, str_eq, eq_iff, none, some, ok, err, List, [], ◌∷◌, arith,
  if◌then◌else◌, Option-cases, inl, inr,
}
use waterbus_rs.Heap.{Ref}
use waterbus_rs.Table.{get, insert, get-insert}
use waterbus_rs.Webrtc.{Webrtc, IceCandidate}
use waterbus_rs.Errors.{peer_not_found}
use waterbus_rs.Quality.{p2p, sfu, connection_from_u8, connection_eq}
use waterbus_rs.Forward.{RtpForwardInfo}
use waterbus_rs.Multicast.{Channel}
use waterbus_rs.Media.{cache_sdp, get_sdp, remove_all_tracks}
use waterbus_rs.Subscriber.{
  refs, new_subscriber, subscriber_add_track, add_transceiver, transceiver_added,
}
use waterbus_rs.Room.{Room, Publisher, Connected, peer_id}
use waterbus_rs.Room.Connecting.{
  JoinRoomParams, extract_subscribe_response, create_pc, get_publisher, get_subscriber,
  answer_offer, new_publisher, room_join, connected_add_track, forward_all_tracks, forward_media,
  take_sdp, room_subscribe, set_subscriber_remote_sdp, handle_publisher_renegotiation, to_p2p,
  handle_migrate_connection, room_add_publisher_candidate, room_add_subscriber_candidate,
}

module _ (w : Webrtc) {Packet : Type 0} (c : Channel (RtpForwardInfo Packet)) where
  -- Only the peer connections may differ.
  pub record SamePeople (a b : Room w c) : Type 0 where
    pub publishers : a.publishers ≡ b.publishers
    pub subscribers : a.subscribers ≡ b.subscribers
    pub store : a.store ≡ b.store
    pub joined : a.joined ≡ b.joined

  answer_offer-SamePeople :
      (peer : w.Peer) (sdp : String) (room : Room w c)
      → SamePeople (answer_offer w c peer sdp room).1 room
  unfolding answer_offer
  answer_offer-SamePeople peer sdp room = ground arith

  renegotiation-SamePeople :
      (id sdp : String) (room : Room w c)
      → SamePeople (handle_publisher_renegotiation w c id sdp room).1 room
  unfolding handle_publisher_renegotiation get_publisher
  renegotiation-SamePeople id sdp room = elim (Option-cases (get id room.publishers)) [
    | inl e ↦ ground (arith, e)
    | inr (p, e) ↦ ground (arith, e, answer_offer-SamePeople p.peer_connection sdp room)
  ]

  answer-SamePeople :
      (target id sdp : String) (room : Room w c)
      → SamePeople (set_subscriber_remote_sdp w c target id sdp room).1 room
  unfolding set_subscriber_remote_sdp get_subscriber
  answer-SamePeople target id sdp room = ground arith

  candidate-SamePeople :
      (target id : String) (candidate : IceCandidate) (room : Room w c)
      → SamePeople (room_add_publisher_candidate w c id candidate room).1 room
        × SamePeople (room_add_subscriber_candidate w c target id candidate room).1 room
  unfolding room_add_publisher_candidate room_add_subscriber_candidate get_publisher get_subscriber
  candidate-SamePeople target id candidate room = (ground arith, ground arith)

  -- Whatever the peer connections answer, a renegotiation, the answer of a subscriber and a
  -- candidate of either change nothing of the room but its peer connections.
  pub exchange-SamePeople :
      (target id sdp : String) (candidate : IceCandidate) (room : Room w c)
      → SamePeople (handle_publisher_renegotiation w c id sdp room).1 room
        × SamePeople (set_subscriber_remote_sdp w c target id sdp room).1 room
        × SamePeople (room_add_publisher_candidate w c id candidate room).1 room
        × SamePeople (room_add_subscriber_candidate w c target id candidate room).1 room
  exchange-SamePeople target id sdp candidate room = (
    renegotiation-SamePeople id sdp room,
    answer-SamePeople target id sdp room,
    (candidate-SamePeople target id candidate room).0,
    (candidate-SamePeople target id candidate room).1,
  )

  -- Once a peer connection is there, a participant who joins is a publisher of the room, also where
  -- the exchange of descriptions fails afterwards; no other publisher and no subscriber changes, and
  -- the joined callback is called at once exactly for a peer-to-peer connection.
  pub joined_room :
      (params : JoinRoomParams) (other : String) (peer : w.Peer) (net : w.Net) (room : Room w c)
      → w.new_peer_connection room.net ≡ (some peer, net)
      → (get other (room_join w c params room).1.publishers ≡ (
          if str_eq params.participant_id other
          then some (new_publisher w c params peer)
          else get other room.publishers))
        × ((room_join w c params room).1.subscribers ≡ room.subscribers)
        × ((room_join w c params room).1.joined ≡ (
            if connection_eq params.connection_type sfu
            then room.joined
            else (params.participant_id, false) ∷ room.joined))
  unfolding room_join create_pc
  joined_room params other peer net room made =
      let room' : Room w c = record room {
        publishers = insert params.participant_id (new_publisher w c params peer) room.publishers;
        net = net;
      } in
      ground (
        arith,
        made,
        get-insert params.participant_id other (new_publisher w c params peer) room.publishers,
        answer_offer-SamePeople peer params.sdp room',
      )

  -- The room once the cached offer was asked for.
  abbrev asked : String → Publisher w → Room w c → Room w c
  asked target p room = record room {
    publishers = insert target (record p { media = (get_sdp p.media).1 }) room.publishers;
  }

  subscribe_cached :
      (target id sdp : String) (now : ℕ) (p : Publisher w) (room : Room w c)
      → get target room.publishers ≡ some p
      → p.media.sdp ≡ some sdp
      → room_subscribe w c target id now room
        ≡ (ok (extract_subscribe_response sdp p.media.state), asked target p room)
  unfolding room_subscribe take_sdp get_sdp get_publisher
  subscribe_cached target id sdp now p room there cached = ground (arith, there, cached)

  subscribe_direct :
      (target id : String) (now : ℕ) (p : Publisher w) (room : Room w c)
      → get target room.publishers ≡ some p
      → p.media.sdp ≡ none
      → connection_from_u8 p.connection_type ≡ p2p
      → room_subscribe w c target id now room ≡ (err peer_not_found, asked target p room)
  unfolding room_subscribe take_sdp get_sdp get_publisher
  subscribe_direct target id now p room there cached direct = ground (arith, there, cached, direct)

  -- The offer of a peer-to-peer publisher goes to the first who subscribes; the next one is told
  -- that there is no peer, and nobody becomes a subscriber.
  pub offer_taken_once :
      (target first second sdp : String) (now later : ℕ) (p : Publisher w) (room : Room w c)
      → get target room.publishers ≡ some p
      → p.media.sdp ≡ some sdp
      → connection_from_u8 p.connection_type ≡ p2p
      → (let one = room_subscribe w c target first now room in
          let two = room_subscribe w c target second later one.1 in
          (one.0 ≡ ok (extract_subscribe_response sdp p.media.state))
          × (two.0 ≡ err peer_not_found)
          × (two.1.subscribers ≡ room.subscribers))
  unfolding get_sdp
  offer_taken_once target first second sdp now later p room there cached direct =
      let q : Publisher w = record p { media = (get_sdp p.media).1 } in
      let again : get target (asked target p room).publishers ≡ some q =
        ground (arith, get-insert target target q room.publishers, eq_iff target target) in
      rw
        (
          subscribe_cached target first sdp now p room there cached,
          subscribe_direct target second later q (asked target p room) again refl direct,
        )
        (refl, refl, refl)

  -- A publisher whose connection is marked as peer-to-peer, and then as it is without its tracks.
  abbrev direct_publisher : Publisher w → Publisher w
  direct_publisher p = record p { connection_type = 0 }

  abbrev parked : String → Publisher w → Room w c → Publisher w
  parked sdp p room = record p {
    connection_type = 0;
    media = cache_sdp sdp (remove_all_tracks c p.media room.store.published).0;
  }

  abbrev left_behind : String → String → Publisher w → Room w c → Room w c
  left_behind id sdp p room = record room {
    publishers = insert id (parked sdp p room) (insert id (direct_publisher p) room.publishers);
    store = record room.store { published = (remove_all_tracks c p.media room.store.published).1 };
  }

  migrate_p2p_lem :
      (id sdp : String) (p : Publisher w) (room : Room w c)
      → get id room.publishers ≡ some p
      → handle_migrate_connection w c id sdp p2p room ≡ (ok none, left_behind id sdp p room)
  unfolding handle_migrate_connection to_p2p get_publisher
  migrate_p2p_lem id sdp p room there =
      let got : get id (insert id (direct_publisher p) room.publishers)
          ≡ some (direct_publisher p) =
        ground (arith, get-insert id id (direct_publisher p) room.publishers, eq_iff id id) in
      ground (arith, there, got)

  -- A publisher who goes back to peer-to-peer has no tracks any more, and the next who subscribes is
  -- given the offer that came with the migration, with the state of the media as it was.
  pub migrated_to_p2p :
      (id sdp subscriber : String) (now : ℕ) (p : Publisher w) (room : Room w c)
      → get id room.publishers ≡ some p
      → (let after = handle_migrate_connection w c id sdp p2p room in
          (after.0 ≡ ok none)
          × (Option.map (λ q. q.media.tracks) (get id after.1.publishers) ≡ some [])
          × ((room_subscribe w c id subscriber now after.1).0
              ≡ ok (extract_subscribe_response sdp p.media.state)))
  unfolding cache_sdp remove_all_tracks
  migrated_to_p2p id sdp subscriber now p room there =
      let q = parked sdp p room in
      let after = left_behind id sdp p room in
      let got : get id after.publishers ≡ some q = ground (
        arith,
        get-insert id id q (insert id (direct_publisher p) room.publishers),
        eq_iff id id,
      ) in
      rw
        (
          migrate_p2p_lem id sdp p room there,
          subscribe_cached id subscriber sdp now q after got refl,
        )
        (refl, rw got, refl)

  -- A subscriber keeps its peer connection and its user while tracks are added.
  abbrev Same : Connected w → Connected w → Type 0
  Same s t = (s.peer_connection ≡ t.peer_connection) × (s.subscriber.user_id ≡ t.subscriber.user_id)

  connected-Same :
      (r : Ref) (s : Connected w) (room : Room w c) → Same (connected_add_track w c r s room).1 s
  unfolding connected_add_track subscriber_add_track add_transceiver transceiver_added
  connected-Same r s room = ground arith

  forward_all-Same :
      (rs : List Ref) (s : Connected w) (room : Room w c)
      → Same (forward_all_tracks w c rs s room).0 s
  unfolding forward_all_tracks
  forward_all-Same [] s room = (refl, refl)
  forward_all-Same (r ∷ rs) s room =
      let step = connected_add_track w c r s room in
      ground (arith, connected-Same r s room, forward_all-Same rs step.1 step.2)

  -- Whoever subscribes to a publisher that sends through the node, once a peer connection is there, is
  -- a subscriber of the room with this peer connection, also where the tracks cannot all be added or
  -- the offer fails.
  pub subscriber_connected :
      (target id : String) (now : ℕ) (p : Publisher w) (peer : w.Peer) (net : w.Net)
      (room : Room w c)
      → get target room.publishers ≡ some p
      → p.media.sdp ≡ none
      → connection_from_u8 p.connection_type ≡ sfu
      → w.new_peer_connection room.net ≡ (some peer, net)
      → (s : Connected w) × (get
            (peer_id target id)
            (room_subscribe w c target id now room).1.subscribers
          ≡ some s)
        × (s.peer_connection ≡ peer)
        × (s.subscriber.user_id ≡ id)
  unfolding room_subscribe take_sdp get_sdp get_publisher create_pc forward_media new_subscriber
  subscriber_connected target id now p peer net room there cached through made =
      let key = peer_id target id in
      let s : Connected w = record { peer_connection = peer; subscriber = new_subscriber id now } in
      let room' : Room w c = record room {
        publishers = insert target (record p { media = (get_sdp p.media).1 }) room.publishers;
        subscribers = insert key s room.subscribers;
        net = net;
      } in
      let fed = forward_all_tracks w c (refs p.media.tracks) s room' in
      let same = forward_all-Same (refs p.media.tracks) s room' in
      (
        fed.0,
        ground (
          arith,
          there,
          cached,
          through,
          made,
          get-insert key key fed.0 fed.1.subscribers,
          eq_iff key key,
        ),
        same.0,
        same.1,
      )

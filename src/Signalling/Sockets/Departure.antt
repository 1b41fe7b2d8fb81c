-- ===== src/Signalling/Sockets/Departure.antt =====
-- What a socket does after its client has left, in signalling/src/core/socket/mod.rs.
use waterbus_rs.Base.{
  ◌≡◌, Bool, String, string_eq, Option, none, some, ok, [], ◌∷◌, ◌++◌, arith, Option-cases, inl,
  inr,
}
use waterbus_rs.Base.Int.{ℤ, pos, negsuc}
use waterbus_rs.Dispatcher
use waterbus_rs.Dispatcher.Nodes.{Float}
use waterbus_rs.Dispatcher.Cache.{Redis, Json, ClientMetadata, get_client, remove_client}
use waterbus_rs.Dispatcher.Cache.Clients.{IsHealthy, removed_client_gone}
use waterbus_rs.Dispatcher.{SfuGrpc}
use waterbus_rs.Signalling.Repositories.{RoomRepository}
use waterbus_rs.Signalling.Events.{others_in, room_participant_left, participant_left, Emission}
use waterbus_rs.Signalling.Sockets.{
  Hub, emit, on_dispatcher, announced, delete_participant, leave, handle_leave_room,
  handle_set_video_enabled,
}

module _ (f : Float) (r : Redis) (j : Json) (g : SfuGrpc) {World : Type 0}
    (rooms : RoomRepository World) (parse_id : String → Option ℤ) where
  abbrev Sockets : Type 0
  Sockets = Hub f r j g rooms parse_id

  -- What the others in the room of a client are told when it leaves.
  abbrev pub farewell : String → ClientMetadata → Emission g.SubscribeResponse
  farewell socket c = record {
    socket = socket;
    recipients = others_in c.room_id;
    event = room_participant_left;
    payload = participant_left c.participant_id;
  }

  -- A socket whose client the dispatcher does not know.
  unknown_leaves :
      (socket : String) (hub : Sockets)
      → get_client r j socket hub.dispatcher.cluster ≡ ok none
      → (let after = handle_leave_room f r j g rooms parse_id socket hub in
          (after.emitted ≡ hub.emitted)
          × (after.world ≡ hub.world)
          × (after.dispatcher.world ≡ hub.dispatcher.world))
  unfolding handle_leave_room on_dispatcher Dispatcher.leave_room
  unknown_leaves socket hub unknown = ground (arith, unknown)

  known_leaves :
      (socket : String) (c : ClientMetadata) (hub : Sockets)
      → get_client r j socket hub.dispatcher.cluster ≡ ok (some c)
      → (let after = handle_leave_room f r j g rooms parse_id socket hub in
          (after.emitted ≡ hub.emitted ++ farewell socket c ∷ [])
          × (after.dispatcher.cluster ≡ (remove_client r j socket hub.dispatcher.cluster).1))
  unfolding handle_leave_room on_dispatcher Dispatcher.leave_room emit leave delete_participant
  known_leaves socket c hub known = elim (Option-cases (parse_id c.participant_id)) [
    | inl e ↦ ground (arith, known, e)
    | inr (pos n, e) ↦ ground (arith, known, e)
    | inr (negsuc n, e) ↦ ground (arith, known, e)
  ]

module _ (f : Float) (r : Redis) (j : Json) (g : SfuGrpc) (h : IsHealthy r) {World : Type 0}
    (rooms : RoomRepository World) (parse_id : String → Option ℤ) where
  -- Where redis is healthy, so that what is removed from the cache is gone (an error of the removal is
  -- ignored), a socket whose client is cached, and that leaves and is disconnected afterwards, or leaves twice, tells the others in its room
  -- once that the participant has left: the second time nothing is emitted, no participant is deleted
  -- and no node is called. Between the two, whether its video is enabled is not told to anyone.
  pub left_once :
      (socket : String) (b : Bool) (c : ClientMetadata) (hub : Hub f r j g rooms parse_id)
      → get_client r j socket hub.dispatcher.cluster ≡ ok (some c)
      → (let one = handle_leave_room f r j g rooms parse_id socket hub in
          let two = handle_leave_room f r j g rooms parse_id socket one in
          (one.emitted ≡ hub.emitted ++ farewell f r j g rooms parse_id socket c ∷ [])
          × (two.emitted ≡ one.emitted)
          × (two.world ≡ one.world)
          × (two.dispatcher.world ≡ one.dispatcher.world)
          × ((handle_set_video_enabled f r j g rooms parse_id socket b one).emitted ≡ one.emitted))
  unfolding handle_set_video_enabled announced on_dispatcher Dispatcher.set_video_enabled
      Dispatcher.route
  left_once socket b c hub known =
      let one = handle_leave_room f r j g rooms parse_id socket hub in
      let first = known_leaves f r j g rooms parse_id socket c hub known in
      let gone = (removed_client_gone r j h socket c hub.dispatcher.cluster known).1 in
      let unknown : get_client r j socket one.dispatcher.cluster ≡ ok none = rw (first.1) gone in
      let second = unknown_leaves f r j g rooms parse_id socket one unknown in
      (first.0, second.0, second.1, second.2, ground (arith, unknown))

-- ===== src/Signalling/Sockets/Callbacks.antt =====
-- signalling/src/core/socket/mod.rs: the loops over what the dispatcher and the chats send. A socket
-- of an id is there if it is connected.
use waterbus_rs.Base.{
  ℕ, ◌≡◌, Bool, String, string_eq, str_eq, Option, none, some, ok, err, List, [], ◌∷◌, ◌++◌,
  if◌then◌else◌, any, arith, Option-cases, inl, inr,
}
use waterbus_rs.Base.Int.{ℤ, pos, negsuc}
use waterbus_rs.Dispatcher.Nodes.{Float}
use waterbus_rs.Dispatcher.Cache.{Redis, Json}
use waterbus_rs.Dispatcher.{SfuGrpc}
use waterbus_rs.Signalling.Repositories.{RoomRepository, UserRepository}
use waterbus_rs.Signalling.Rooms.{update_participant}
use waterbus_rs.Signalling.Models.{MessageResponse}
use waterbus_rs.Signalling.Events.{
  AppEvent, send_message, update_message, delete_message, chat_send, chat_update, chat_delete,
  DispatcherCallback, new_user_joined, subscriber_renegotiate, publisher_candidate,
  subscriber_candidate, node_terminated, WsEvent, room_new_participant,
  room_subscriber_renegotiation, room_publisher_candidate, room_subscriber_candidate, this_socket,
  others_in, Payload, new_participant, subscriber_renegotiated, candidate_of_publisher,
  candidate_of_subscriber,
}
use waterbus_rs.Signalling.Sockets.{Hub, emit}

-- A message goes to all sockets in the room that it belongs to, whose number is the name of the room
-- of sockets.
unfoldable pub handle_message_update : AppEvent → Option (ℕ × WsEvent × MessageResponse)
handle_message_update (send_message m) = elim m.room [
  | none ↦ none
  | some room ↦ some (room.id, chat_send, m)
]
handle_message_update (update_message m) = elim m.room [
  | none ↦ none
  | some room ↦ some (room.id, chat_update, m)
]
handle_message_update (delete_message m) = elim m.room [
  | none ↦ none
  | some room ↦ some (room.id, chat_delete, m)
]

module _ (f : Float) (r : Redis) (j : Json) (g : SfuGrpc) {World : Type 0}
    (rooms : RoomRepository World) (users : UserRepository World)
    (parse_id : String → Option ℤ) where
  abbrev Sockets : Type 0
  Sockets = Hub f r j g rooms parse_id

  -- `io.get_socket`, and an emission to it.
  unfoldable pub emit_to : String → WsEvent → Payload g.SubscribeResponse → Sockets → Sockets
  emit_to client_id event payload hub =
      if any (str_eq client_id) hub.sockets
      then emit f r j g rooms parse_id client_id this_socket event payload hub
      else hub

  -- The node of a participant is stored, and the others in its room are told of it.
  unfoldable pub user_joined : ℕ → String → String → String → Bool → Sockets → Sockets
  user_joined id room_id client_id node_id is_migrate hub =
      if any (str_eq client_id) hub.sockets
      then (let (answer, world) = update_participant rooms users id node_id hub.world in
          let hub' : Sockets = record hub { world = world } in
          elim answer [
            | err _ ↦ hub'
            | ok participant ↦
                emit f r j g rooms parse_id client_id (others_in room_id) room_new_participant
                  (new_participant participant is_migrate) hub'
          ])
      else hub

  -- One turn of `handle_dispatcher_callback`: none where it returns from the loop, as it does for an
  -- id that is no number. No participant has a negative id, so an update of one fails, and nobody is told.
  unfoldable pub handle_callback : DispatcherCallback → Sockets → Option Sockets
  handle_callback (node_terminated node_id) hub =
      some (record hub { world = (rooms.delete_participants_by_node node_id hub.world).1 })
  handle_callback (new_user_joined participant_id room_id client_id node_id is_migrate) hub =
      elim (parse_id participant_id) [
        | none ↦ none
        | some (negsuc _) ↦ some hub
        | some (pos id) ↦ some (user_joined id room_id client_id node_id is_migrate hub)
      ]
  handle_callback (subscriber_renegotiate client_id target_id sdp) hub =
      some (
        emit_to client_id room_subscriber_renegotiation (subscriber_renegotiated target_id sdp) hub)
  handle_callback (publisher_candidate client_id none) hub = some hub
  handle_callback (publisher_candidate client_id (some candidate)) hub =
      some (emit_to client_id room_publisher_candidate (candidate_of_publisher candidate) hub)
  handle_callback (subscriber_candidate client_id target_id none) hub = some hub
  handle_callback (subscriber_candidate client_id target_id (some candidate)) hub = some (
      emit_to client_id room_subscriber_candidate (candidate_of_subscriber candidate target_id) hub)

  unfoldable pub handle_dispatcher_callbacks : List DispatcherCallback → Sockets → Sockets
  unfolding handle_callback
  handle_dispatcher_callbacks [] hub = hub
  handle_dispatcher_callbacks (callback ∷ rest) hub = elim (handle_callback callback hub) [
    | none ↦ hub
    | some hub' ↦ handle_dispatcher_callbacks rest hub'
  ]

  -- Where the dispatcher tells of a participant whose id is no number, nothing that it tells
  -- afterwards is handled: what is left is what the callbacks before left.
  pub bad_id_ends_loop :
      (before after : List DispatcherCallback) (participant_id room_id client_id node_id : String)
      (is_migrate : Bool) (hub : Sockets)
      → parse_id participant_id ≡ none
      → handle_dispatcher_callbacks
          (before ++ new_user_joined participant_id room_id client_id node_id is_migrate ∷ after)
          hub
        ≡ handle_dispatcher_callbacks before hub
  unfolding handle_dispatcher_callbacks handle_callback
  bad_id_ends_loop [] after participant_id room_id client_id node_id is_migrate hub bad =
      ground (arith, bad)
  bad_id_ends_loop (callback ∷ before) after participant_id room_id client_id node_id is_migrate hub
        bad =
      elim (Option-cases (handle_callback callback hub)) [
        | inl e ↦ ground (arith, e)
        | inr (next, e) ↦
            let rest =
              bad_id_ends_loop before after participant_id room_id client_id node_id is_migrate next
                bad in
            ground (arith, e, rest)
      ]

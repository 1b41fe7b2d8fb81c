-- ===== src/Signalling/Sockets.antt =====
-- signalling/src/core/socket/mod.rs: what a client's events do. The sockets are those of crate
-- `socketioxide`: an emission is kept in the order in which it is sent, with the socket that sends it;
-- a broadcast to a room goes to the others in it. `parse_id` reads the number of a participant, an `i32`; no
-- row has a negative id, so a call of the database with one changes nothing. The spawned tasks run at
-- once.
pub mod Callbacks
pub mod Departure
use waterbus_rs.Base.{
  ℕ, Bool, true, false, not, ◌&&◌, String, string_eq, str_eq, Option, none, some, Result, ok, err,
  List, [], ◌∷◌, ◌++◌, ◌==◌, if◌then◌else◌, any, keep,
}
use waterbus_rs.Base.Int.{ℤ, pos, negsuc}
use waterbus_rs.Dispatcher.Nodes.{Float}
use waterbus_rs.Dispatcher.Cache.{Redis, Json, ClientMetadata}
use waterbus_rs.Dispatcher.{
  Candidate, JoinRoomRequest, SubscribeRequest, SetSubscriberSdpRequest, RenegotiationRequest,
  MigrateRequest, AddPublisherCandidateRequest, AddSubscriberCandidateRequest, LeaveRoomRequest,
  SetEnabledRequest, SetScreenSharingRequest, SetCameraType, SfuGrpc, DispatcherManager,
}
use waterbus_rs.Dispatcher
use waterbus_rs.Signalling.Events.{
  WsEvent, JoinRoomDto, SubscribeDto, AnswerSubscribeDto, PublisherRenegotiationDto,
  MigrateConnectionDto, PublisherCandidateDto, SubscriberCandidateDto, Recipients, Payload,
  Emission, room_publish, room_answer_subscriber, room_migrate, room_publisher_renegotiation,
  room_subscriber_renegotiation, room_publisher_candidate, room_subscriber_candidate,
  room_participant_left, room_video_enabled, room_camera_type, room_audio_enabled,
  room_screen_sharing, room_hand_raising, this_socket, others_in, joined, subscribed, renegotiated,
  subscriber_renegotiated, candidate_of_publisher, candidate_of_subscriber, participant_left,
  camera_type, enabled, screen_sharing, hand_raising,
}
use waterbus_rs.Signalling.Repositories.{RoomRepository}

module _ (f : Float) (r : Redis) (j : Json) (g : SfuGrpc) {World : Type 0}
    (rooms : RoomRepository World) (parse_id : String → Option ℤ) where
  -- `sockets` are the ids of the connected sockets, and `joined` the rooms that they are in.
  pub record Hub : Type 0 where
    pub dispatcher : DispatcherManager f r j g
    pub world : World
    pub sockets : List String
    pub joined : List (String × String)
    pub emitted : List (Emission g.SubscribeResponse)

  unfoldable pub emit : String → Recipients → WsEvent → Payload g.SubscribeResponse → Hub → Hub
  emit socket recipients event payload hub = record hub {
    emitted =
        hub.emitted
        ++ record { socket = socket; recipients = recipients; event = event; payload = payload }
          ∷ [];
  }

  -- A call of the dispatcher.
  unfoldable pub on_dispatcher :
      {A : Type 0}
      → Dispatcher.Handler f r j g A
      → Hub
      → Result (Dispatcher.RouteError f r j g) A × Hub
  on_dispatcher call hub =
      let (answer, d) = call hub.dispatcher in (answer, record hub { dispatcher = d })

  unfoldable pub handle_join_room : String → JoinRoomDto → Hub → Hub
  handle_join_room socket dto hub =
      let (answer, hub') =
        on_dispatcher
          (Dispatcher.join_room f r j g (record {
            sdp = dto.sdp;
            is_audio_enabled = dto.is_audio_enabled;
            is_video_enabled = dto.is_video_enabled;
            is_e2ee_enabled = dto.is_e2ee_enabled;
            total_tracks = pos dto.total_tracks;
            client_id = socket;
            participant_id = dto.participant_id;
            room_id = dto.room_id;
            connection_type = pos dto.connection_type;
          }))
          hub in
      elim answer [
        | err _ ↦ hub'
        | ok res ↦
            let hub'' : Hub = record hub' { joined = (socket, dto.room_id) ∷ hub'.joined } in
            if str_eq res.sdp ""
            then hub''
            else emit socket this_socket room_publish (joined res.sdp res.is_recording) hub''
      ]

  unfoldable pub handle_subscribe : String → SubscribeDto → Hub → Hub
  handle_subscribe socket dto hub =
      let (answer, hub') =
        on_dispatcher
          (Dispatcher.subscribe f r j g (record {
            client_id = socket;
            target_id = dto.target_id;
            participant_id = dto.participant_id;
            room_id = dto.room_id;
          }))
          hub in
      elim answer [
        | err _ ↦ hub'
        | ok res ↦
            emit socket this_socket room_answer_subscriber (subscribed res dto.target_id) hub'
      ]

  unfoldable pub handle_answer_subscribe : String → AnswerSubscribeDto → Hub → Hub
  handle_answer_subscribe socket dto hub =
      if dto.connection_type == 0
      then emit socket (others_in dto.room_id) room_publish (joined dto.sdp false) hub
      else (on_dispatcher
          (Dispatcher.set_subscribe_sdp f r j g
            (record { client_id = socket; target_id = dto.target_id; sdp = dto.sdp }))
          hub).1

  unfoldable pub handle_publisher_renegotiation : String → PublisherRenegotiationDto → Hub → Hub
  handle_publisher_renegotiation socket dto hub =
      if dto.connection_type == 0
      then emit socket (others_in dto.room_id) room_subscriber_renegotiation
          (subscriber_renegotiated "" dto.sdp) hub
      else (let (answer, hub') =
            on_dispatcher
              (Dispatcher.publisher_renegotiate f r j g
                (record { client_id = socket; sdp = dto.sdp }))
              hub in
          elim answer [
            | err _ ↦ hub'
            | ok sdp ↦ emit socket this_socket room_publisher_renegotiation (renegotiated sdp) hub'
          ])

  unfoldable pub handle_migrate_connection : String → MigrateConnectionDto → Hub → Hub
  handle_migrate_connection socket dto hub =
      let (answer, hub') =
        on_dispatcher
          (Dispatcher.migrate_connection f r j g (record {
            client_id = socket;
            sdp = dto.sdp;
            connection_type = pos dto.connection_type;
          }))
          hub in
      elim answer [
        | err _ ↦ hub'
        | ok none ↦ hub'
        | ok (some sdp) ↦ emit socket this_socket room_migrate (renegotiated sdp) hub'
      ]

  unfoldable pub handle_publisher_candidate : String → PublisherCandidateDto → Hub → Hub
  handle_publisher_candidate socket dto hub =
      if dto.connection_type == 0
      then emit socket (others_in dto.room_id) room_subscriber_candidate
          (candidate_of_subscriber dto.candidate "") hub
      else (on_dispatcher
          (Dispatcher.add_publisher_candidate f r j g (record {
            client_id = socket;
            candidate = some dto.candidate;
            connection_type = pos dto.connection_type;
          }))
          hub).1

  unfoldable pub handle_subscriber_candidate : String → SubscriberCandidateDto → Hub → Hub
  handle_subscriber_candidate socket dto hub =
      if dto.connection_type == 0
      then emit socket (others_in dto.room_id) room_publisher_candidate
          (candidate_of_publisher dto.candidate) hub
      else (on_dispatcher
          (Dispatcher.add_subscriber_candidate f r j g (record {
            client_id = socket;
            target_id = dto.target_id;
            candidate = some dto.candidate;
            connection_type = pos dto.connection_type;
          }))
          hub).1

  -- What the setters share: the others in the room of the client are told.
  unfoldable pub announced :
      String
      → WsEvent
      → (String → Payload g.SubscribeResponse)
      → Dispatcher.Handler f r j g ClientMetadata
      → Hub
      → Hub
  announced socket event payload call hub =
      let (answer, hub') = on_dispatcher call hub in
      elim answer [
        | err _ ↦ hub'
        | ok client ↦
            emit socket (others_in client.room_id) event (payload client.participant_id) hub'
      ]

  unfoldable pub handle_set_camera_type : String → ℤ → Hub → Hub
  handle_set_camera_type socket n =
      announced socket room_camera_type (λ id. camera_type id n)
        (Dispatcher.set_camera_type f r j g (record { client_id = socket; camera_type = n }))

  unfoldable pub handle_set_video_enabled : String → Bool → Hub → Hub
  handle_set_video_enabled socket b =
      announced socket room_video_enabled (λ id. enabled id b)
        (Dispatcher.set_video_enabled f r j g (record { client_id = socket; is_enabled = b }))

  unfoldable pub handle_set_audio_enabled : String → Bool → Hub → Hub
  handle_set_audio_enabled socket b =
      announced socket room_audio_enabled (λ id. enabled id b)
        (Dispatcher.set_audio_enabled f r j g (record { client_id = socket; is_enabled = b }))

  unfoldable pub handle_set_screen_sharing : String → Bool → Option String → Hub → Hub
  handle_set_screen_sharing socket b screen =
      announced socket room_screen_sharing (λ id. screen_sharing id b screen)
        (Dispatcher.set_screen_sharing f r j g
          (record { client_id = socket; is_enabled = b; screen_track_id = screen }))

  unfoldable pub handle_set_hand_raising : String → Bool → Hub → Hub
  handle_set_hand_raising socket b =
      announced socket room_hand_raising (λ id. hand_raising id b)
        (Dispatcher.set_hand_raising f r j g (record { client_id = socket; is_enabled = b }))

  -- The participant of a text id, if it is one, is deleted; an error is only logged.
  unfoldable pub delete_participant : String → Hub → Hub
  delete_participant id hub = elim (parse_id id) [
    | none ↦ hub
    | some (negsuc _) ↦ hub
    | some (pos n) ↦ record hub { world = (rooms.delete_participant_by_id n hub.world).1 }
  ]

  -- The socket leaves a room.
  unfoldable pub leave : String → String → Hub → Hub
  leave socket room hub = record hub {
    joined = keep (λ e. not (str_eq e.0 socket && str_eq e.1 room)) hub.joined;
  }

  -- `_handle_leave_room`, for a leaving client and for a socket that is disconnected.
  unfoldable pub handle_leave_room : String → Hub → Hub
  handle_leave_room socket hub =
      let (answer, hub') =
        on_dispatcher (Dispatcher.leave_room f r j g (record { client_id = socket })) hub in
      elim answer [
        | err _ ↦ hub'
        | ok client ↦ delete_participant client.participant_id (
            leave socket client.room_id (
              emit socket (others_in client.room_id) room_participant_left
                (participant_left client.participant_id) hub'))
      ]

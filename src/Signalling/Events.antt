-- ===== src/Signalling/Events.antt =====
-- What the sockets of signalling/src receive and emit: the events, the payloads, and the messages of
-- the dispatcher and of the chats.
use waterbus_rs.Base.{ℕ, Bool, String, Option}
use waterbus_rs.Base.Int.{ℤ}
use waterbus_rs.Dispatcher.{Candidate}
use waterbus_rs.Signalling.Models.{MessageResponse, ParticipantResponse}

-- core/types/enums/ws_event.rs, the events that are emitted.
pub data WsEvent : Type 0 where
  room_publish room_answer_subscriber room_migrate room_publisher_renegotiation : WsEvent
  room_subscriber_renegotiation room_publisher_candidate room_subscriber_candidate : WsEvent
  room_new_participant room_participant_left room_video_enabled room_camera_type : WsEvent
  room_audio_enabled room_screen_sharing room_hand_raising : WsEvent
  chat_send chat_update chat_delete : WsEvent

-- core/dtos/socket/socket_dto.rs
pub record JoinRoomDto : Type 0 where
  pub sdp : String
  pub room_id : String
  pub participant_id : String
  pub is_video_enabled : Bool
  pub is_audio_enabled : Bool
  pub is_e2ee_enabled : Bool
  pub total_tracks : ℕ
  pub connection_type : ℕ

pub record SubscribeDto : Type 0 where
  pub target_id : String
  pub room_id : String
  pub participant_id : String

pub record AnswerSubscribeDto : Type 0 where
  pub room_id : String
  pub target_id : String
  pub sdp : String
  pub connection_type : ℕ

pub record PublisherRenegotiationDto : Type 0 where
  pub sdp : String
  pub room_id : String
  pub connection_type : ℕ

pub record MigrateConnectionDto : Type 0 where
  pub sdp : String
  pub room_id : String
  pub participant_id : String
  pub connection_type : ℕ

pub record PublisherCandidateDto : Type 0 where
  pub connection_type : ℕ
  pub candidate : Candidate
  pub room_id : String

pub record SubscriberCandidateDto : Type 0 where
  pub target_id : String
  pub connection_type : ℕ
  pub candidate : Candidate
  pub room_id : String

-- crates/dispatcher/src/domain, with the fields of the messages that are read.
pub data DispatcherCallback : Type 0 where
  new_user_joined :
      (participant_id room_id client_id node_id : String) (is_migrate : Bool) → DispatcherCallback
  subscriber_renegotiate : (client_id target_id sdp : String) → DispatcherCallback
  publisher_candidate : (client_id : String) (candidate : Option Candidate) → DispatcherCallback
  subscriber_candidate :
      (client_id target_id : String) (candidate : Option Candidate) → DispatcherCallback
  node_terminated : (node_id : String) → DispatcherCallback

pub data AppEvent : Type 0 where
  send_message : MessageResponse → AppEvent
  update_message : MessageResponse → AppEvent
  delete_message : MessageResponse → AppEvent

-- Who an emission is for.
pub data Recipients : Type 0 where
  this_socket : Recipients
  others_in : String → Recipients

-- core/types/responses/socket_response.rs, over the subscribe response of the gRPC client.
pub data Payload (Response : Type 0) : Type 0 where
  joined : (sdp : String) (is_recording : Bool) → Payload Response
  subscribed : Response → (target_id : String) → Payload Response
  renegotiated : (sdp : String) → Payload Response
  subscriber_renegotiated : (target_id sdp : String) → Payload Response
  candidate_of_publisher : Candidate → Payload Response
  candidate_of_subscriber : Candidate → (target_id : String) → Payload Response
  new_participant : ParticipantResponse → (is_migrate : Bool) → Payload Response
  participant_left : (target_id : String) → Payload Response
  camera_type : (participant_id : String) (type_ : ℤ) → Payload Response
  enabled : (participant_id : String) (is_enabled : Bool) → Payload Response
  screen_sharing :
      (participant_id : String) (is_sharing : Bool) (screen_track_id : Option String)
      → Payload Response
  hand_raising : (participant_id : String) (is_raising : Bool) → Payload Response

pub record Emission (Response : Type 0) : Type 0 where
  pub socket : String
  pub recipients : Recipients
  pub event : WsEvent
  pub payload : Payload Response

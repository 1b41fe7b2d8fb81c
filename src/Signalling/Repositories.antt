-- ===== src/Signalling/Repositories.antt =====
-- The interfaces of the repositories in signalling/src/features/*/repository.rs that the services are
-- written against. `World` is what they keep; a method that only reads gives no new one.
use waterbus_rs.Base.{ℕ, String, Option, List, Bool, Result}
use waterbus_rs.Action.{Action}
use waterbus_rs.Signalling.Models.{
  Room, Member, Message, Participant, User, NewRoom, NewMember, NewParticipant, NewMessage,
  MemberResponse, ParticipantResponse, MessageResponse, RoomResponse, RoomError, UserError,
  AuthError, NewUser, ChatError,
}

pub record RoomRepository (World : Type 0) : Type 0 where
  pub find_all : ℕ → ℕ → ℕ → ℕ → World → Result RoomError (List RoomResponse)
  pub exists_code : String → World → Result RoomError Bool
  pub get_room_by_id : ℕ → World → Result RoomError RoomResponse
  pub get_room_by_code : String → World → Result RoomError RoomResponse
  pub create_room_with_member : NewRoom → User → ℕ → Action World RoomError RoomResponse
  pub update_room : Room → Action World RoomError RoomResponse
  pub create_member : NewMember → Action World RoomError MemberResponse
  pub update_member : Member → Action World RoomError MemberResponse
  pub delete_member_by_id : ℕ → Action World RoomError (Unit {0})
  pub get_participant_by_id : ℕ → World → Result RoomError ParticipantResponse
  pub create_participant : NewParticipant → Action World RoomError ParticipantResponse
  pub update_participant : Participant → Action World RoomError ParticipantResponse
  pub delete_participant_by_id : ℕ → Action World RoomError (Unit {0})
  pub delete_participants_by_node : String → Action World RoomError (Unit {0})

pub record UserRepository (World : Type 0) : Type 0 where
  pub get_user_by_id : ℕ → World → Result UserError User
  pub update_user : User → Action World UserError User
  pub get_username : String → World → Result UserError String
  pub update_username : ℕ → String → Action World UserError User

pub record AuthRepository (World : Type 0) : Type 0 where
  pub create_user : NewUser → Action World AuthError User
  pub get_user_by_id : ℕ → World → Result AuthError User
  pub get_user_by_auth_id : String → World → Result AuthError User
  pub get_user_by_user_name : String → World → Result AuthError User

pub record ChatRepository (World : Type 0) : Type 0 where
  pub get_messages_by_room : ℕ → ℕ → ℕ → ℕ → World → Result ChatError (List MessageResponse)
  pub get_message_by_id : ℕ → World → Result ChatError MessageResponse
  pub create_message : NewMessage → Action World ChatError Message
  pub update_message : Message → Action World ChatError Message
  pub delete_message_by_id : ℕ → Action World ChatError Message

-- Crate `bcrypt` with its default cost: a hash depends on a random salt. `verify` is none where the
-- hash is not one, for which the code panics.
pub record Bcrypt : Type 0 where
  pub hash : ℕ → String → String
  pub verify : String → String → Option Bool

-- `JwtUtils`, of the id of a user and the time, from which the expiry of a token is counted.
pub record JwtUtils : Type 0 where
  pub generate_token : ℕ → ℕ → String
  pub generate_refresh_token : ℕ → ℕ → String

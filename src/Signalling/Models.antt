-- ===== src/Signalling/Models.antt =====
-- signalling/src/core/entities/models.rs, the responses and the errors that are made of them. A time
-- is its number.
use waterbus_rs.Base.{
  ℕ, String, Option, List, Bool, ◌==◌, ◌&&◌, any, if◌then◌else◌, [], ◌∷◌, none, some,
}

pub record Room : Type 0 where
  pub id : ℕ
  pub title : String
  pub password : Option String
  pub avatar : Option String
  pub status : ℕ
  pub latest_message_created_at : Option ℕ
  pub code : String
  pub created_at : ℕ
  pub updated_at : ℕ
  pub deleted_at : Option ℕ
  pub latest_message_id : Option ℕ
  pub type_ : ℕ

pub record Member : Type 0 where
  pub id : ℕ
  pub role : ℕ
  pub created_at : ℕ
  pub deleted_at : Option ℕ
  pub soft_deleted_at : Option ℕ
  pub user_id : ℕ
  pub room_id : ℕ

pub record Message : Type 0 where
  pub id : ℕ
  pub data_ : String
  pub created_at : ℕ
  pub updated_at : ℕ
  pub deleted_at : Option ℕ
  pub created_by_id : ℕ
  pub room_id : ℕ
  pub type_ : ℕ
  pub status : ℕ

pub record Participant : Type 0 where
  pub id : ℕ
  pub created_at : ℕ
  pub deleted_at : Option ℕ
  pub user_id : ℕ
  pub room_id : ℕ
  pub status : ℕ
  pub node_id : Option String

pub record User : Type 0 where
  pub id : ℕ
  pub full_name : Option String
  pub user_name : String
  pub bio : Option String
  pub external_id : String
  pub avatar : Option String
  pub created_at : ℕ
  pub updated_at : ℕ
  pub deleted_at : Option ℕ
  pub last_seen_at : Option ℕ

pub record NewUser : Type 0 where
  pub full_name : Option String
  pub user_name : String
  pub bio : Option String
  pub external_id : String
  pub avatar : Option String
  pub created_at : ℕ
  pub updated_at : ℕ

pub record NewMessage : Type 0 where
  pub data_ : String
  pub created_by_id : ℕ
  pub room_id : ℕ
  pub status : ℕ
  pub type_ : ℕ
  pub created_at : ℕ
  pub updated_at : ℕ

pub record NewRoom : Type 0 where
  pub title : String
  pub password : String
  pub code : String
  pub created_at : ℕ
  pub updated_at : ℕ
  pub latest_message_created_at : ℕ
  pub status : ℕ
  pub type_ : ℕ

pub record NewMember : Type 0 where
  pub room_id : ℕ
  pub created_at : ℕ
  pub user_id : ℕ
  pub role : ℕ

pub record NewParticipant : Type 0 where
  pub room_id : ℕ
  pub user_id : ℕ
  pub created_at : ℕ
  pub status : ℕ

-- The numbers of `MembersRoleEnum`.
abbrev pub owner : ℕ
owner = 0

abbrev pub attendee : ℕ
attendee = 1

-- The numbers of `RoomStatusEnum`, `ParticipantsStatusEnum` and `MessagesStatusEnum`.
abbrev pub active : ℕ
active = 0

abbrev pub inactive : ℕ
inactive = 1

-- `RoomStatusEnum::try_from`, and the default of its caller.
unfoldable pub room_status_or_active : ℕ → ℕ
room_status_or_active n = if n == 1 then inactive else active

pub record MemberResponse : Type 0 where
  pub member : Member
  pub user : Option User

pub record ParticipantResponse : Type 0 where
  pub participant : Participant
  pub user : Option User

pub record MessageResponse : Type 0 where
  pub message : Message
  pub created_by : Option User
  pub room : Option Room

pub record RoomResponse : Type 0 where
  pub room : Room
  pub members : List MemberResponse
  pub participants : List ParticipantResponse
  pub latest_message : Option MessageResponse

pub data GeneralError : Type 0 where
  db_connection_error : GeneralError

pub data RoomError : Type 0 where
  room_not_found : ℕ → RoomError
  room_code_not_found : String → RoomError
  room_exists : ℕ → RoomError
  owner_cannot_leave_room : RoomError
  you_dont_have_permissions : RoomError
  password_incorrect : RoomError
  unexpected_error : String → RoomError
  general : GeneralError → RoomError

pub data UserError : Type 0 where
  user_not_found : ℕ → UserError
  user_name_not_found : String → UserError
  user_exists : ℕ → UserError
  user_unexpected_error : String → UserError
  user_general : GeneralError → UserError

pub data AuthError : Type 0 where
  invalid_api_key : AuthError
  invalid_token : AuthError
  auth_user_exists : ℕ → AuthError
  auth_user_not_found : ℕ → AuthError
  auth_unexpected_error : String → AuthError
  auth_general : GeneralError → AuthError

pub data ChatError : Type 0 where
  message_not_found : ℕ → ChatError
  member_not_found : ℕ → ChatError
  forbidden : String → ChatError
  conversation_not_found : ℕ → ChatError
  chat_unexpected_error : String → ChatError
  chat_general : GeneralError → ChatError

-- `members.iter().any`
unfoldable pub is_member : ℕ → List MemberResponse → Bool
is_member user_id members = any (λ m. m.member.user_id == user_id) members

unfoldable pub is_host : ℕ → List MemberResponse → Bool
is_host user_id members = any (λ m. m.member.user_id == user_id && m.member.role == owner) members

-- `members.iter().position`, and the member there.
unfoldable pub member_of : ℕ → List MemberResponse → Option Member
member_of user_id [] = none
member_of user_id (m ∷ ms) =
    if m.member.user_id == user_id then some m.member else member_of user_id ms

-- ===== src/Signalling/Rooms.antt =====
-- signalling/src/features/room/service.rs, over the repositories. `now` is the time of a call and
-- `salt` what the hash of a password draws; `draw n` is the code that the n-th call of
-- `generate_room_code` draws.
pub mod Hosts
pub mod Codes
pub mod Roster
pub mod Leavers
use waterbus_rs.Base.{
  ℕ, zero, suc, ◌+◌, Bool, true, false, not, String, Option, none, some, Result, ok, err, List, [],
  ◌∷◌, ◌++◌, ◌==◌, if◌then◌else◌, keep,
}
use waterbus_rs.Action.{Action, pure, fail, or_fail, query, or_else, ◌>>=◌, ◌>>◌}
use waterbus_rs.Signalling.Models.{
  Room, Member, Participant, User, NewRoom, NewMember, NewParticipant, RoomResponse,
  ParticipantResponse, MemberResponse, RoomError, you_dont_have_permissions, password_incorrect,
  unexpected_error, owner, attendee, active, inactive, room_status_or_active, is_member, is_host,
  member_of,
}
use waterbus_rs.Signalling.Repositories.{RoomRepository, UserRepository, Bcrypt}

-- What `create_room` and `update_room` read of their requests.
pub record CreateRoomDto : Type 0 where
  pub title : String
  pub password : Option String

pub record UpdateRoomDto : Type 0 where
  pub title : Option String
  pub password : Option String
  pub avatar : Option String

abbrev without_user : ℕ → RoomResponse → RoomResponse
without_user user_id room = record room {
  members = keep (λ m. not (m.member.user_id == user_id)) room.members;
}

abbrev has_node : ParticipantResponse → Bool
has_node p = elim p.participant.node_id [ none ↦ false | some _ ↦ true ]

-- The changes of a request, where a password is hashed.
unfoldable pub updated_room : Bcrypt → ℕ → UpdateRoomDto → Room → Room
updated_room bcrypt salt dto room = record room {
  title = elim dto.title [ none ↦ room.title | some title ↦ title ];
  password = elim dto.password [
    | none ↦ room.password
    | some password ↦ some (bcrypt.hash salt password)
  ];
  avatar = elim dto.avatar [ none ↦ room.avatar | some avatar ↦ some avatar ];
}

-- The password of a room, if it has one, against what was given. A panic gives none.
unfoldable pub is_password_correct : Bcrypt → Option String → Option String → Option Bool
is_password_correct bcrypt none given = some true
is_password_correct bcrypt (some hash) none = some false
is_password_correct bcrypt (some hash) (some password) = bcrypt.verify password hash

module _ {World : Type 0} (rooms : RoomRepository World) (users : UserRepository World) where
  abbrev pub Call : Type 0 → Type 0
  Call A = Action World RoomError A

  -- `attempts` more draws, where the n-th is next.
  unfoldable pub generate_from : (ℕ → String) → ℕ → ℕ → Call String
  generate_from draw n zero = fail (unexpected_error "Failed to generate unique room code")
  generate_from draw n (suc attempts) = do
    exists ←
        or_else (query (rooms.exists_code (draw n))) (unexpected_error "Failed to check room code")
    if exists then generate_from draw (suc n) attempts else pure (draw n)

  unfoldable pub generate_unique_room_code : (ℕ → String) → ℕ → Call String
  generate_unique_room_code draw max_attempts = generate_from draw 0 max_attempts

  unfoldable pub create_room : Bcrypt → ℕ → (ℕ → String) → ℕ → CreateRoomDto → ℕ → Call RoomResponse
  create_room bcrypt salt draw now dto user_id = do
    user ← or_else (query (users.get_user_by_id user_id)) (unexpected_error "User not found")
    code ← generate_unique_room_code draw 10
    rooms.create_room_with_member
        (record {
          title = dto.title;
          password = elim dto.password [ none ↦ "" | some password ↦ bcrypt.hash salt password ];
          code = code;
          created_at = now;
          updated_at = now;
          latest_message_created_at = now;
          status = active;
          type_ = 0;
        })
        user now

  unfoldable pub update_room : Bcrypt → ℕ → UpdateRoomDto → ℕ → ℕ → Call RoomResponse
  update_room bcrypt salt dto room_id user_id = do
    room ← query (rooms.get_room_by_id room_id)
    if is_host user_id room.members
        then rooms.update_room (updated_room bcrypt salt dto room.room)
        else fail you_dont_have_permissions

  unfoldable pub get_rooms_by_status : ℕ → ℕ → ℕ → ℕ → Call (List RoomResponse)
  get_rooms_by_status room_status user_id skip limit =
      query (rooms.find_all user_id (room_status_or_active room_status) skip limit)

  unfoldable pub leave_room : ℕ → ℕ → Call RoomResponse
  leave_room room_id user_id = do
    room ← query (rooms.get_room_by_id room_id)
    member ← or_fail (member_of user_id room.members) (unexpected_error "Member not found")
    if member.role == owner
        then fail (
            unexpected_error
              "Host not allowed to leave the room. You can archive chats if the room no longer active.")
        else (do rooms.delete_member_by_id member.id; pure (without_user user_id room))

  -- Who may enter is a participant from then on.
  unfoldable pub enter_room : ℕ → ℕ → RoomResponse → Call RoomResponse
  enter_room user_id now room = do
    participant ←
        rooms.create_participant
          (record { user_id = user_id; room_id = room.room.id; status = active; created_at = now })
    pure (record room { participants = keep has_node room.participants ++ participant ∷ [] })

  -- None where the test of the password panics.
  unfoldable pub join_room : Bcrypt → ℕ → ℕ → ℕ → Option String → Call (Option RoomResponse)
  join_room bcrypt now user_id room_id password = do
    user ← or_else (query (users.get_user_by_id user_id)) (unexpected_error "User not found")
    room ← query (rooms.get_room_by_id room_id)
    elim (if is_member user_id room.members
        then some true
        else is_password_correct bcrypt room.room.password password) [
          | none ↦ pure none
          | some false ↦ fail password_incorrect
          | some true ↦ (do room' ← enter_room user_id now room; pure (some room'))
        ]

  -- Whether the user is there is asked, and ignored.
  unfoldable pub add_member : ℕ → ℕ → ℕ → ℕ → Call RoomResponse
  add_member now room_id host_id user_id = do
    room ← query (rooms.get_room_by_id room_id)
    if is_member user_id room.members
        then fail (unexpected_error "User already in the room")
        else if is_host host_id room.members
        then (do
          member ← rooms.create_member (record {
            user_id = user_id;
            room_id = room.room.id;
            created_at = now;
            role = attendee;
          })
          pure (record room { members = room.members ++ member ∷ [] }))
        else fail you_dont_have_permissions

  unfoldable pub remove_member : ℕ → ℕ → ℕ → Call RoomResponse
  remove_member room_id host_id user_id = do
    room ← query (rooms.get_room_by_id room_id)
    member ← or_fail (member_of user_id room.members) (unexpected_error "Member not found")
    if is_host host_id room.members
        then (do rooms.delete_member_by_id member.id; pure (without_user user_id room))
        else fail you_dont_have_permissions

  unfoldable pub deactivate_room : ℕ → ℕ → Call RoomResponse
  deactivate_room room_id user_id = do
    room ← query (rooms.get_room_by_id room_id)
    member ← or_fail (member_of user_id room.members) (unexpected_error "Member not found")
    if member.role == owner
        then rooms.update_room (record room.room { status = inactive })
        else fail you_dont_have_permissions

  unfoldable pub update_participant : ℕ → String → Call ParticipantResponse
  update_participant participant_id node_id = do
    found ← query (rooms.get_participant_by_id participant_id)
    rooms.update_participant (record found.participant { node_id = some node_id })

  unfoldable pub find_room_by_id : ℕ → Call RoomResponse
  find_room_by_id room_id = query (rooms.get_room_by_id room_id)

  unfoldable pub find_room_by_code : String → Call RoomResponse
  find_room_by_code room_code = query (rooms.get_room_by_code room_code)

  unfoldable pub delete_participant : ℕ → Call (Unit {0})
  delete_participant participant_id = rooms.delete_participant_by_id participant_id

  unfoldable pub delete_participants_by_node : String → Call (Unit {0})
  delete_participants_by_node node_id = rooms.delete_participants_by_node node_id

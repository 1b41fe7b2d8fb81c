-- ===== src/Signalling/Chats.antt =====
-- signalling/src/features/chat/service.rs, over the repositories. `now` is the time of a call. The room
-- of a message that is read is there, by a foreign key: the code unwraps it, and panics otherwise,
-- which is the answer none here.
pub mod Authors
pub mod Hidden
use waterbus_rs.Base.{
  ℕ, Bool, true, false, not, String, Option, none, some, Result, ok, err, List, [], ◌∷◌, ◌==◌,
  if◌then◌else◌,
}
use waterbus_rs.Action.{Action, pure, fail, or_fail, query, or_else, ◌>>=◌, ◌>>◌}
use waterbus_rs.Signalling.Models.{
  Room, Member, Message, User, NewMessage, MemberResponse, MessageResponse, RoomResponse, ChatError,
  RoomError, member_not_found, forbidden, conversation_not_found, chat_unexpected_error, active,
  inactive, member_of,
}
use waterbus_rs.Signalling.Repositories.{RoomRepository, UserRepository, ChatRepository}

-- From when on a user sees the messages of a room.
unfoldable pub visible_from : ℕ → RoomResponse → ℕ
visible_from user_id room = elim (member_of user_id room.members) [
  | none ↦ room.room.created_at
  | some member ↦ elim member.soft_deleted_at [ none ↦ room.room.created_at | some time ↦ time ]
]

module _ {World : Type 0} (chats : ChatRepository World) (rooms : RoomRepository World)
    (users : UserRepository World) where
  abbrev pub Call : Type 0 → Type 0
  Call A = Action World ChatError A

  abbrev get_conversation : ℕ → Call RoomResponse
  get_conversation room_id =
      or_else (query (rooms.get_room_by_id room_id)) (conversation_not_found room_id)

  unfoldable pub get_messages_by_room : ℕ → ℕ → ℕ → ℕ → Call (List MessageResponse)
  get_messages_by_room room_id user_id skip limit = do
    room ← get_conversation room_id
    query (chats.get_messages_by_room room_id (visible_from user_id room) skip limit)

  -- An error of the repository is ignored.
  unfoldable pub update_latest_message_created_at : Room → ℕ → Option ℕ → Call (Unit {0})
  update_latest_message_created_at room now latest_message_id w =
      let latest : Room = record room {
        latest_message_created_at = some now;
        latest_message_id = elim latest_message_id [
          | none ↦ room.latest_message_id
          | some id ↦ some id
        ];
      } in
      (ok tt, (rooms.update_room latest w).1)

  unfoldable pub create_message : ℕ → ℕ → ℕ → String → Call MessageResponse
  create_message now room_id user_id text = do
    user ← or_else (query (users.get_user_by_id user_id)) (member_not_found user_id)
    room ← get_conversation room_id
    message ← chats.create_message (record {
      data_ = text;
      created_by_id = user_id;
      room_id = room_id;
      status = active;
      type_ = 0;
      created_at = now;
      updated_at = now;
    })
    update_latest_message_created_at room.room now (some message.id)
    pure (record { message = message; created_by = some user; room = some room.room })

  -- What `update_message` and `delete_message_by_id` ask of a message before they change it.
  unfoldable pub check_author : ℕ → MessageResponse → Call (Unit {0})
  check_author user_id found =
      if found.message.status == inactive
      then fail (chat_unexpected_error "Message has been deleted")
      else if found.message.created_by_id == user_id
      then pure tt
      else fail (forbidden "You not allowed modify message of other users")

  -- None where the unwrapping of the room panics.
  unfoldable pub update_message : ℕ → ℕ → ℕ → String → Call (Option MessageResponse)
  update_message now message_id user_id text = do
    found ← query (chats.get_message_by_id message_id)
    elim found.room [
      | none ↦ pure none
      | some room ↦ (do
        check_author user_id found
        update_latest_message_created_at room now none
        message ← chats.update_message (record found.message { data_ = text; updated_at = now })
        pure (some (record found { message = message })))
    ]

  unfoldable pub delete_message_by_id : ℕ → ℕ → Call MessageResponse
  delete_message_by_id message_id user_id = do
    found ← query (chats.get_message_by_id message_id)
    check_author user_id found
    message ← chats.update_message (record found.message { status = inactive })
    pure (record found { message = message })

  -- The conversation is hidden from the user up to now.
  unfoldable pub delete_conversation : ℕ → ℕ → ℕ → Call Room
  delete_conversation now conversation_id user_id = do
    room ← get_conversation conversation_id
    member ← or_fail (member_of user_id room.members) (conversation_not_found user_id)
    or_else (rooms.update_member (record member { soft_deleted_at = some now }))
        (chat_unexpected_error "")
    pure room.room

-- ===== src/Signalling/Chats/Authors.antt =====
-- Who may change a message of signalling/src/features/chat/service.rs, and what its deletion leaves.
use waterbus_rs.Base.{
  ℕ, ◌≡◌, refl, true, false, String, none, some, ok, err, ◌==◌, if◌then◌else◌, arith, Bool-cases,
  inl, inr,
}
use waterbus_rs.Signalling.Models.{
  Message, MessageResponse, forbidden, chat_unexpected_error, active, inactive,
}
use waterbus_rs.Signalling.Repositories.{RoomRepository, UserRepository, ChatRepository}
use waterbus_rs.Signalling.Tables.{Database, find, get_conn}
use waterbus_rs.Signalling.Tables.Rows.{find-update_where}
use waterbus_rs.Signalling.Tables.ChatTables.{
  chat_tables, chat_connect, message_response, table_get_message_by_id, table_update_message,
}
use waterbus_rs.Signalling.Chats.{check_author, update_message, delete_message_by_id}

module _ {World : Type 0} (chats : ChatRepository World) (rooms : RoomRepository World)
    (users : UserRepository World) where
  -- A message of another user can be neither changed nor deleted: the call is answered with an error,
  -- which says whether the message is deleted, and nothing is written. Only where the message has no
  -- room, a change ends in a panic instead.
  pub message_kept :
      (now id user : ℕ) (text : String) (found : MessageResponse) (w : World)
      → chats.get_message_by_id id w ≡ ok found
      → (found.message.created_by_id == user) ≡ false
      → (let reason =
            if found.message.status == inactive
            then chat_unexpected_error "Message has been deleted"
            else forbidden "You not allowed modify message of other users" in
          (delete_message_by_id chats rooms users id user w ≡ (err reason, w))
          × (update_message chats rooms users now id user text w
              ≡ (elim found.room [ none ↦ ok none | some _ ↦ err reason ], w)))
  unfolding delete_message_by_id update_message check_author
  message_kept now id user text found w there other = (
    elim (Bool-cases (found.message.status == inactive)) [
      | inl e ↦ ground (arith, there, other, e)
      | inr e ↦ ground (arith, there, other, e)
    ],
    elim (Bool-cases (found.message.status == inactive)) [
      | inl e ↦ ground (arith, there, other, e)
      | inr e ↦ ground (arith, there, other, e)
    ],
  )

-- A message that its author deletes stays active in the tables, and the answer says so too: only its
-- text, which is the same, and the time of its update are written. It can be deleted again.
pub deleted_message_active :
    (rooms : RoomRepository Database) (users : UserRepository Database) (m : Message)
    (db : Database)
    → db.is_connected ≡ true
    → find (λ x. x.id == m.id) db.messages ≡ some m
    → m.status ≡ active
    → (let stamped : Message = record m { updated_at = db.current_timestamp } in
        let after = delete_message_by_id chat_tables rooms users m.id m.created_by_id db in
        (after.0 ≡ ok (record (message_response db m) { message = stamped }))
        × (find (λ x. x.id == m.id) after.1.messages ≡ some stamped)
        × (stamped.status ≡ active))
unfolding delete_message_by_id check_author chat_tables table_get_message_by_id table_update_message
    chat_connect get_conn message_response
deleted_message_active rooms users m db connected there is_active =
    let stamp : Message → Message =
      λ x. record x { data_ = m.data_; updated_at = db.current_timestamp } in
    let after = find-update_where (λ x. x.id == m.id) stamp db.messages (λ x. refl) in
    ground (arith, connected, there, is_active, after)

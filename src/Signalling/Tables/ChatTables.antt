-- ===== src/Signalling/Tables/ChatTables.antt =====
-- `ChatRepositoryImpl` of signalling/src/features/chat/repository.rs on the tables.
use waterbus_rs.Base.{
  ℕ, suc, zero, ◌+◌, ◌&&◌, ltb, none, some, ok, err, List, [], ◌∷◌, ◌++◌, ◌==◌, if◌then◌else◌, keep,
  map,
}
use waterbus_rs.Action.{Action, pure, fail, gets, or_fail, modify, ◌>>=◌, ◌>>◌}
use waterbus_rs.Signalling.Models.{
  Message, NewMessage, MessageResponse, ChatError, message_not_found, chat_unexpected_error,
  chat_general, inactive,
}
use waterbus_rs.Signalling.Repositories.{ChatRepository}
use waterbus_rs.Signalling.Tables.{
  Database, find, update_where, get_conn, find_user, find_room, has_references,
}

abbrev pub Query : Type 0 → Type 0
Query A = Action Database ChatError A

unfoldable pub chat_connect : Query (Unit {0})
chat_connect db = elim (get_conn db) [ ok _ ↦ (ok tt, db) | err e ↦ (err (chat_general e), db) ]

-- A message, joined with its room and its author.
unfoldable pub message_response : Database → Message → MessageResponse
message_response db m = record {
  message = m;
  created_by = find_user m.created_by_id db.users;
  room = find_room m.room_id db.rooms;
}

-- The order of `created_at`, the latest first.
unfoldable pub insert_latest : Message → List Message → List Message
insert_latest m [] = m ∷ []
insert_latest m (x ∷ xs) =
    let rest = insert_latest m xs in if ltb x.created_at m.created_at then m ∷ x ∷ xs else x ∷ rest

unfoldable pub latest_first : List Message → List Message
unfolding insert_latest
latest_first [] = []
latest_first (m ∷ ms) = insert_latest m (latest_first ms)

-- `offset` and `limit`
unfoldable pub page {ℓ} : {A : Type ℓ} → ℕ → ℕ → List A → List A
page skip limit [] = []
page zero zero (x ∷ xs) = []
page zero (suc limit) (x ∷ xs) = x ∷ page zero limit xs
page (suc skip) limit (x ∷ xs) = page skip limit xs

unfoldable pub table_get_messages_by_room : ℕ → ℕ → ℕ → ℕ → Query (List MessageResponse)
unfolding latest_first page
table_get_messages_by_room room_id deleted_at skip limit = do
  chat_connect
  db ← gets (λ (db : Database). db)
  let found = keep (λ m. m.room_id == room_id && ltb deleted_at m.created_at) db.messages
  pure (map (message_response db) (page skip limit (latest_first found)))

unfoldable pub table_get_message_by_id : ℕ → Query MessageResponse
table_get_message_by_id message_id = do
  chat_connect
  db ← gets (λ (db : Database). db)
  message ← or_fail (find (λ m. m.id == message_id) db.messages) (message_not_found message_id)
  pure (message_response db message)

abbrev pub message_row : ℕ → NewMessage → Message
message_row id new = record {
  id = id;
  data_ = new.data_;
  created_at = new.created_at;
  updated_at = new.updated_at;
  deleted_at = none;
  created_by_id = new.created_by_id;
  room_id = new.room_id;
  type_ = new.type_;
  status = new.status;
}

-- A trigger of the database makes it the latest message of its room.
unfoldable pub table_create_message : NewMessage → Query Message
table_create_message new = do
  chat_connect
  db ← gets (λ (db : Database). db)
  let row = message_row db.next_message new
  if has_references new.created_by_id new.room_id db
      then (do
        modify (λ (db : Database). record db {
          messages = db.messages ++ row ∷ [];
          next_message = db.next_message + 1;
          rooms =
              update_where (λ r. r.id == new.room_id)
                (λ r. record r {
                  latest_message_id = some row.id;
                  latest_message_created_at = some new.created_at;
                  updated_at = db.current_timestamp;
                })
                db.rooms;
        })
        pure row)
      else fail (chat_unexpected_error "Failed to create new message")

-- An update of a message, which a trigger of the database stamps with the time.
abbrev pub updated_message : (Message → Message) → ℕ → Query Message
updated_message f message_id = do
  chat_connect
  db ← gets (λ (db : Database). db)
  message ←
      or_fail (find (λ m. m.id == message_id) db.messages)
        (chat_unexpected_error "Failed to update message")
  modify (λ (db : Database). record db {
    messages =
        update_where (λ m. m.id == message_id)
          (λ m. record (f m) { updated_at = db.current_timestamp }) db.messages;
  })
  pure (record (f message) { updated_at = db.current_timestamp })

-- Only the text is written.
unfoldable pub table_update_message : Message → Query Message
table_update_message message = updated_message (λ m. record m { data_ = message.data_ }) message.id

unfoldable pub table_delete_message_by_id : ℕ → Query Message
table_delete_message_by_id message_id =
    updated_message (λ m. record m { status = inactive }) message_id

unfoldable pub chat_tables : ChatRepository Database
chat_tables = record {
  get_messages_by_room = λ room_id deleted_at skip limit db.
      (table_get_messages_by_room room_id deleted_at skip limit db).0;
  get_message_by_id = λ id db. (table_get_message_by_id id db).0;
  create_message = table_create_message;
  update_message = table_update_message;
  delete_message_by_id = table_delete_message_by_id;
}

-- ===== src/Signalling/Chats/Hidden.antt =====
-- What a user sees of a conversation that it has deleted.
use waterbus_rs.Base.{
  ℕ, zero, suc, ◌≡◌, ◌<◌, refl, true, ◌&&◌, ltb, String, Option, some, Result, ok, List, [], ◌∷◌,
  ◌==◌, arith, Bool-cases, inl, inr, All, keep, map,
}
use waterbus_rs.Signalling.Models.{Room, Member, Message, RoomResponse, RoomError}
use waterbus_rs.Signalling.Repositories.{UserRepository}
use waterbus_rs.Signalling.Tables.{Database, find, update_where, get_conn, find_room, room_response}
use waterbus_rs.Signalling.Tables.Rows.{find-passes, find-updated, find-other}
use waterbus_rs.Signalling.Tables.Seats.{is_seat, member_of-seat}
use waterbus_rs.Signalling.Tables.RoomTables.{
  connect, get_member_by_id, table_get_room_by_id, table_update_member, room_tables,
}
use waterbus_rs.Signalling.Tables.ChatTables.{
  chat_tables, chat_connect, message_response, insert_latest, latest_first, page,
  table_get_messages_by_room,
}
use waterbus_rs.Signalling.Chats.{visible_from, get_messages_by_room, delete_conversation}

-- A membership that is hidden from a time on.
abbrev hidden : Option ℕ → Member → Member
hidden time m = record m { soft_deleted_at = time }

abbrev hide : ℕ → Option ℕ → List Member → List Member
hide id time ms = update_where (λ m. m.id == id) (hidden time) ms

module _ {A : Type 0} where
  All-page : (P : A → Type 0) (skip limit : ℕ) (xs : List A) → All P xs → All P (page skip limit xs)
  unfolding page
  All-page P skip limit [] all = tt
  All-page P zero zero (x ∷ xs) all = tt
  All-page P zero (suc limit) (x ∷ xs) all = (all.0, All-page P zero limit xs all.1)
  All-page P (suc skip) limit (x ∷ xs) all = All-page P skip limit xs all.1

abbrev pub After : ℕ → Message → Type 0
After time m = time < m.created_at

All-insert_latest :
    (time : ℕ) (m : Message) (ms : List Message)
    → After time m
    → All (After time) ms
    → All (After time) (insert_latest m ms)
unfolding insert_latest
All-insert_latest time m [] new all = (new, tt)
All-insert_latest time m (x ∷ ms) new all = elim (Bool-cases (ltb x.created_at m.created_at)) [
  | inl e ↦ rw e (new, all)
  | inr e ↦ rw e (all.0, All-insert_latest time m ms new all.1)
]

All-latest_first :
    (time : ℕ) (ms : List Message) → All (After time) ms → All (After time) (latest_first ms)
unfolding latest_first
All-latest_first time [] all = tt
All-latest_first time (m ∷ ms) all =
    All-insert_latest time m (latest_first ms) all.0 (All-latest_first time ms all.1)

All-found :
    (room_id time : ℕ) (ms : List Message)
    → All (After time) (keep (λ m. m.room_id == room_id && ltb time m.created_at) ms)
All-found room_id time [] = tt
All-found room_id time (m ∷ ms) =
    let rest = All-found room_id time ms in
    elim (Bool-cases (m.room_id == room_id && ltb time m.created_at)) [
      | inl e ↦ rw (e, All) (ground (arith, e), rest)
      | inr e ↦ rw (e, All) rest
    ]

module _ (violation : String)
    (find_all : ℕ → ℕ → ℕ → ℕ → Database → Result RoomError (List RoomResponse))
    (users : UserRepository Database) where
  -- The tables after a membership was hidden at a time.
  abbrev after_hiding : ℕ → Member → Database → Database
  after_hiding now m db = record db { members = hide m.id (some now) db.members }

  conversation_deleted :
      (now room_id user : ℕ) (room : Room) (m : Member) (db : Database)
      → db.is_connected ≡ true
      → find_room room_id db.rooms ≡ some room
      → find (is_seat db.users room.id user) db.members ≡ some m
      → delete_conversation chat_tables (room_tables violation find_all) users now room_id user db
        ≡ (ok room, after_hiding now m db)
  unfolding delete_conversation room_tables table_get_room_by_id table_update_member
      get_member_by_id connect get_conn room_response
  conversation_deleted now room_id user room m db connected there seat =
      let self = λ (x : Member). x.id == m.id in
      let (x, listed) =
        find-other (is_seat db.users room.id user) self db.members m seat (ground arith) in
      let still =
        find-updated self self (hidden (some now)) db.members x (λ y. refl) listed
          (find-passes self db.members x listed) in
      ground (
        arith,
        connected,
        there,
        member_of-seat db.users room.id user db.members,
        seat,
        listed,
        still,
      )

  -- The page of the messages of a room after a time.
  abbrev page_after : ℕ → ℕ → ℕ → ℕ → Database → List Message
  page_after room_id time skip limit db =
      page skip limit
        (latest_first (keep (λ x. x.room_id == room_id && ltb time x.created_at) db.messages))

  messages_read :
      (now room_id user skip limit : ℕ) (room : Room) (m : Member) (db : Database)
      → db.is_connected ≡ true
      → find_room room_id db.rooms ≡ some room
      → find (is_seat db.users room.id user) db.members ≡ some m
      → m.soft_deleted_at ≡ some now
      → (get_messages_by_room chat_tables
          (room_tables violation find_all)
          users
          room_id
          user
          skip
          limit
          db).0
        ≡ ok (map (message_response db) (page_after room_id now skip limit db))
  unfolding get_messages_by_room visible_from room_tables chat_tables table_get_room_by_id
      table_get_messages_by_room chat_connect connect get_conn room_response
  messages_read now room_id user skip limit room m db connected there seat since =
      ground (arith, connected, there, member_of-seat db.users room.id user db.members, seat, since)

  -- A user who has deleted a conversation sees no message of it that was written until then: the
  -- answer of the deletion is the room, and every message that the user is given afterwards is later.
  pub deleted_conversation_hidden :
      (now room_id user skip limit : ℕ) (room : Room) (m : Member) (db : Database)
      → db.is_connected ≡ true
      → find_room room_id db.rooms ≡ some room
      → find (is_seat db.users room.id user) db.members ≡ some m
      → (let tables = room_tables violation find_all in
          let after = delete_conversation chat_tables tables users now room_id user db in
          (messages : List Message) × (after.0 ≡ ok room)
          × ((get_messages_by_room chat_tables tables users room_id user skip limit after.1).0
              ≡ ok (map (message_response after.1) messages))
          × All (After now) messages)
  deleted_conversation_hidden now room_id user skip limit room m db connected there seat =
      let after = after_hiding now m db in
      let moved =
        find-updated (is_seat db.users room.id user) (λ x. x.id == m.id) (hidden (some now))
          db.members m (λ x. unfold is_seat in refl) seat (ground arith) in
      let found = keep (λ x. x.room_id == room_id && ltb now x.created_at) db.messages in
      rw (conversation_deleted now room_id user room m db connected there seat) (
        page_after room_id now skip limit after,
        refl,
        messages_read now room_id user skip limit room (hidden (some now) m) after connected there
            moved refl,
        All-page (After now) skip limit (latest_first found)
            (All-latest_first now found (All-found room_id now db.messages)),
      )

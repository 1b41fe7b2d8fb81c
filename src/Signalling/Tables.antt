-- ===== src/Signalling/Tables.antt =====
-- The tables of the signalling server's database, and how the repositories read them: migrations/ and
-- signalling/src/features/*/repository.rs. Rows stay in the order in which they are inserted, ids are
-- serial, `current_timestamp` is the time of a statement, and `is_connected` whether the pool gives a
-- connection. Limits of the lengths of texts are left out.
pub mod RoomTables
pub mod UserTables
pub mod ChatTables
pub mod Rows
pub mod Seats
pub mod Serial
use waterbus_rs.Base.{
  ℕ, Bool, true, false, ◌&&◌, ◌||◌, String, string_eq, str_eq, Option, none, some, Result, ok, err,
  List, [], ◌∷◌, ◌==◌, if◌then◌else◌, any,
}
use waterbus_rs.Signalling.Models.{
  Room, Member, Message, Participant, User, MemberResponse, ParticipantResponse, RoomResponse,
  GeneralError, db_connection_error, UserError, user_not_found, user_general,
}
use waterbus_rs.Signalling.Repositories.{UserRepository}

pub record Database : Type 0 where
  pub users : List User
  pub rooms : List Room
  pub members : List Member
  pub messages : List Message
  pub participants : List Participant
  pub next_user : ℕ
  pub next_room : ℕ
  pub next_member : ℕ
  pub next_message : ℕ
  pub next_participant : ℕ
  pub current_timestamp : ℕ
  pub is_connected : Bool

-- The first row of a query.
unfoldable pub find {ℓ} : {A : Type ℓ} → (A → Bool) → List A → Option A
find p [] = none
find p (x ∷ xs) = if p x then some x else find p xs

-- `update`, of the rows that pass the filter.
unfoldable pub update_where {ℓ} : {A : Type ℓ} → (A → Bool) → (A → A) → List A → List A
update_where p f [] = []
update_where p f (x ∷ xs) = (if p x then f x else x) ∷ update_where p f xs

-- `get_conn`
unfoldable pub get_conn : Database → Result GeneralError (Unit {0})
get_conn db = if db.is_connected then ok tt else err db_connection_error

unfoldable pub find_user : ℕ → List User → Option User
find_user user_id users = find (λ u. u.id == user_id) users

unfoldable pub find_room : ℕ → List Room → Option Room
find_room room_id rooms = find (λ r. r.id == room_id) rooms

-- The members of a room, joined with their users.
unfoldable pub members_with_users : List User → ℕ → List Member → List MemberResponse
members_with_users users room_id [] = []
members_with_users users room_id (m ∷ ms) =
    let rest = members_with_users users room_id ms in
    if m.room_id == room_id
    then (elim (find_user m.user_id users) [
      | none ↦ rest
      | some u ↦ record { member = m; user = some u } ∷ rest
    ])
    else rest

unfoldable pub participants_with_users : List User → ℕ → List Participant → List ParticipantResponse
participants_with_users users room_id [] = []
participants_with_users users room_id (p ∷ ps) =
    let rest = participants_with_users users room_id ps in
    if p.room_id == room_id
    then (elim (find_user p.user_id users) [
      | none ↦ rest
      | some u ↦ record { participant = p; user = some u } ∷ rest
    ])
    else rest

-- A room with what belongs to it.
unfoldable pub room_response : Database → Room → RoomResponse
room_response db room = record {
  room = room;
  members = members_with_users db.users room.id db.members;
  participants = participants_with_users db.users room.id db.participants;
  latest_message = none;
}

-- Do the rows that a new row refers to exist?
unfoldable pub has_references : ℕ → ℕ → Database → Bool
has_references user_id room_id db = elim (find_user user_id db.users) [
  | none ↦ false
  | some _ ↦ elim (find_room room_id db.rooms) [ none ↦ false | some _ ↦ true ]
]

-- `UserRepositoryImpl::get_user_by_id`
unfoldable pub table_get_user_by_id : ℕ → Database → Result UserError User
table_get_user_by_id user_id db = elim (get_conn db) [
  | err e ↦ err (user_general e)
  | ok _ ↦ elim (find_user user_id db.users) [
    | none ↦ err (user_not_found user_id)
    | some user ↦ ok user
  ]
]

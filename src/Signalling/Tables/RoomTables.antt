-- ===== src/Signalling/Tables/RoomTables.antt =====
-- `RoomRepositoryImpl` of signalling/src/features/room/repository.rs on the tables. `violation` is the
-- text of an error of the database, and the query of `find_all` is an argument.
use waterbus_rs.Base.{
  ℕ, ◌+◌, Bool, true, false, not, ◌&&◌, String, string_eq, str_eq, none, some, Result, ok, err,
  List, [], ◌∷◌, ◌++◌, ◌==◌, if◌then◌else◌, any, keep,
}
use waterbus_rs.Action.{Action, pure, fail, gets, or_fail, modify, ◌>>=◌, ◌>>◌}
use waterbus_rs.Signalling.Models.{
  Room, Member, Participant, User, NewRoom, NewMember, NewParticipant, MemberResponse,
  ParticipantResponse, RoomResponse, RoomError, room_not_found, room_code_not_found,
  unexpected_error, general, owner,
}
use waterbus_rs.Signalling.Repositories.{RoomRepository}
use waterbus_rs.Signalling.Tables.{
  Database, find, update_where, get_conn, find_user, find_room, room_response, has_references,
}

abbrev pub Query : Type 0 → Type 0
Query A = Action Database RoomError A

-- A method starts with a connection.
unfoldable pub connect : Query (Unit {0})
connect db = elim (get_conn db) [ ok _ ↦ (ok tt, db) | err e ↦ (err (general e), db) ]

unfoldable pub table_exists_code : String → Query Bool
table_exists_code code = do
  connect
  gets (λ (db : Database). any (λ r. str_eq r.code code) db.rooms)

unfoldable pub table_get_room_by_id : ℕ → Query RoomResponse
table_get_room_by_id room_id = do
  connect
  db ← gets (λ (db : Database). db)
  room ← or_fail (find_room room_id db.rooms) (room_not_found room_id)
  pure (room_response db room)

unfoldable pub table_get_room_by_code : String → Query RoomResponse
table_get_room_by_code code = do
  connect
  db ← gets (λ (db : Database). db)
  room ← or_fail (find (λ r. str_eq r.code code) db.rooms) (room_code_not_found code)
  pure (room_response db room)

unfoldable pub get_member_by_id : ℕ → Query MemberResponse
get_member_by_id member_id = do
  connect
  db ← gets (λ (db : Database). db)
  member ← or_fail (find (λ m. m.id == member_id) db.members) (unexpected_error "Member not found")
  pure (record { member = member; user = find_user member.user_id db.users })

unfoldable pub table_get_participant_by_id : ℕ → Query ParticipantResponse
table_get_participant_by_id participant_id = do
  connect
  db ← gets (λ (db : Database). db)
  participant ←
      or_fail (find (λ p. p.id == participant_id) db.participants)
        (unexpected_error "Participant not found")
  pure (record { participant = participant; user = find_user participant.user_id db.users })

-- The row of a new member, and the same for a participant and a room.
abbrev pub member_row : ℕ → NewMember → Member
member_row id new = record {
  id = id;
  role = new.role;
  created_at = new.created_at;
  deleted_at = none;
  soft_deleted_at = none;
  user_id = new.user_id;
  room_id = new.room_id;
}

abbrev pub participant_row : ℕ → NewParticipant → Participant
participant_row id new = record {
  id = id;
  created_at = new.created_at;
  deleted_at = none;
  user_id = new.user_id;
  room_id = new.room_id;
  status = new.status;
  node_id = none;
}

abbrev pub room_row : ℕ → NewRoom → Room
room_row id new = record {
  id = id;
  title = new.title;
  password = some new.password;
  avatar = none;
  status = new.status;
  latest_message_created_at = some new.latest_message_created_at;
  code = new.code;
  created_at = new.created_at;
  updated_at = new.updated_at;
  deleted_at = none;
  latest_message_id = none;
  type_ = new.type_;
}

-- The unique index of members: a membership that is not deleted.
unfoldable pub is_taken : ℕ → ℕ → Member → Bool
is_taken user_id room_id m =
    m.user_id == user_id
    && m.room_id == room_id
    && (elim m.deleted_at [ none ↦ true | some _ ↦ false ])
    && (elim m.soft_deleted_at [ none ↦ true | some _ ↦ false ])

module _ (violation : String) where
  unfoldable pub insert_member : NewMember → Query Member
  insert_member new db =
      if has_references new.user_id new.room_id db
        && not (any (is_taken new.user_id new.room_id) db.members)
      then (
        ok (member_row db.next_member new),
        record db {
          members = db.members ++ member_row db.next_member new ∷ [];
          next_member = db.next_member + 1;
        },
      )
      else (err (unexpected_error violation), db)

  unfoldable pub insert_room : NewRoom → Query Room
  insert_room new db =
      if any (λ r. str_eq r.code new.code) db.rooms
      then (err (unexpected_error violation), db)
      else (
        ok (room_row db.next_room new),
        record db {
          rooms = db.rooms ++ room_row db.next_room new ∷ [];
          next_room = db.next_room + 1;
        },
      )

  -- The transaction of `create_room_with_member`.
  abbrev pub create_both : NewRoom → User → ℕ → Query RoomResponse
  create_both new user created_at = do
    room ← insert_room new
    member ←
        insert_member
          (record { room_id = room.id; user_id = user.id; role = owner; created_at = created_at })
    pure (record {
      room = room;
      members = record { member = member; user = some user } ∷ [];
      participants = [];
      latest_message = none;
    })

  -- An error takes everything back, but not the ids that were drawn.
  unfoldable pub table_create_room_with_member : NewRoom → User → ℕ → Query RoomResponse
  table_create_room_with_member new user created_at = do
    connect
    (λ (db : Database).
        (let (answer, db') = create_both new user created_at db in
          elim answer [
            | ok room ↦ (ok room, db')
            | err e ↦
                (err e, record db { next_room = db'.next_room; next_member = db'.next_member })
          ]))

  unfoldable pub table_update_room : Room → Query RoomResponse
  table_update_room room = do
    connect
    db ← gets (λ (db : Database). db)
    or_fail (find_room room.id db.rooms) (unexpected_error violation)
    modify (λ (db : Database). record db {
      rooms =
          update_where (λ r. r.id == room.id)
            (λ r. record r {
              title = room.title;
              avatar = room.avatar;
              password = room.password;
              latest_message_created_at = room.latest_message_created_at;
              latest_message_id = room.latest_message_id;
              status = room.status;
              updated_at = db.current_timestamp;
            })
            db.rooms;
    })
    table_get_room_by_id room.id

  unfoldable pub table_create_member : NewMember → Query MemberResponse
  table_create_member new = do connect; member ← insert_member new; get_member_by_id member.id

  unfoldable pub table_update_member : Member → Query MemberResponse
  table_update_member member = do
    connect
    db ← gets (λ (db : Database). db)
    or_fail (find (λ m. m.id == member.id) db.members) (unexpected_error violation)
    modify (λ (db : Database). record db {
      members =
          update_where (λ m. m.id == member.id)
            (λ m. record m { soft_deleted_at = member.soft_deleted_at }) db.members;
    })
    get_member_by_id member.id

  unfoldable pub table_delete_member_by_id : ℕ → Query (Unit {0})
  table_delete_member_by_id member_id = do
    connect
    modify
        (λ (db : Database). record db { members = keep (λ m. not (m.id == member_id)) db.members })

  unfoldable pub table_create_participant : NewParticipant → Query ParticipantResponse
  table_create_participant new = do
    connect
    db ← gets (λ (db : Database). db)
    if has_references new.user_id new.room_id db
        then (do
          modify (λ (db : Database). record db {
            participants = db.participants ++ participant_row db.next_participant new ∷ [];
            next_participant = db.next_participant + 1;
          })
          table_get_participant_by_id db.next_participant)
        else fail (unexpected_error violation)

  unfoldable pub table_update_participant : Participant → Query ParticipantResponse
  table_update_participant participant = do
    connect
    db ← gets (λ (db : Database). db)
    or_fail (find (λ p. p.id == participant.id) db.participants) (unexpected_error violation)
    modify (λ (db : Database). record db {
      participants =
          update_where (λ p. p.id == participant.id)
            (λ p. record p { status = participant.status; node_id = participant.node_id })
            db.participants;
    })
    table_get_participant_by_id participant.id

  unfoldable pub table_delete_participant_by_id : ℕ → Query (Unit {0})
  table_delete_participant_by_id participant_id = do
    connect
    db ← gets (λ (db : Database). db)
    if any (λ p. p.id == participant_id) db.participants
        then modify (λ (db : Database). record db {
          participants = keep (λ p. not (p.id == participant_id)) db.participants;
        })
        else fail (unexpected_error "No participant found to delete")

  -- Is it the node of the participant?
  abbrev pub is_on : String → Participant → Bool
  is_on node_id p = elim p.node_id [ none ↦ false | some n ↦ str_eq n node_id ]

  unfoldable pub table_delete_participants_by_node : String → Query (Unit {0})
  table_delete_participants_by_node node_id = do
    connect
    modify (λ (db : Database). record db {
      participants = keep (λ p. not (is_on node_id p)) db.participants;
    })

  unfoldable pub room_tables :
      (ℕ → ℕ → ℕ → ℕ → Database → Result RoomError (List RoomResponse)) → RoomRepository Database
  room_tables find_all = record {
    find_all = find_all;
    exists_code = λ code db. (table_exists_code code db).0;
    get_room_by_id = λ id db. (table_get_room_by_id id db).0;
    get_room_by_code = λ code db. (table_get_room_by_code code db).0;
    create_room_with_member = table_create_room_with_member;
    update_room = table_update_room;
    create_member = table_create_member;
    update_member = table_update_member;
    delete_member_by_id = table_delete_member_by_id;
    get_participant_by_id = λ id db. (table_get_participant_by_id id db).0;
    create_participant = table_create_participant;
    update_participant = table_update_participant;
    delete_participant_by_id = table_delete_participant_by_id;
    delete_participants_by_node = table_delete_participants_by_node;
  }

-- ===== src/Signalling/Rooms/Roster.antt =====
-- The members of a room, as the service of signalling/src/features/room/service.rs promises them: for
-- each user its role, if it is a member.
use mathlib.Core.Option
use waterbus_rs.Base.{
  ℕ, ◌≡◌, ◌<◌, ◌+◌, refl, true, false, String, Option, some, Result, ok, List, [], ◌∷◌, ◌++◌, ◌==◌,
  if◌then◌else◌, arith, any, All, Option-cases, Bool-cases, inl, inr,
}
use waterbus_rs.Signalling.Models.{
  Room, Member, User, MemberResponse, RoomResponse, RoomError, attendee, is_member, is_host,
  member_of,
}
use waterbus_rs.Signalling.Repositories.{UserRepository}
use waterbus_rs.Signalling.Tables.{
  Database, find, get_conn, find_user, find_room, members_with_users, room_response, has_references,
}
use waterbus_rs.Signalling.Tables.Serial.{IsSerial}
use waterbus_rs.Signalling.Tables.RoomTables.{
  connect, member_row, is_taken, insert_member, get_member_by_id, table_get_room_by_id,
  table_create_member, room_tables,
}
use waterbus_rs.Signalling.Rooms.{add_member}

-- The abstract view: roles of users.
abbrev pub Roster : Type 0
Roster = ℕ → Option ℕ

abbrev pub roster : RoomResponse → Roster
roster room user = Option.map (λ m. m.role) (member_of user room.members)

-- A user is put on the roster.
abbrev pub enlisted : ℕ → ℕ → Roster → Roster
enlisted user role r u = if user == u then some role else r u

find-new :
    (n : ℕ) (m : Member) (ms : List Member)
    → m.id ≡ n
    → All (λ x. x.id < n) ms
    → find (λ x. x.id == n) (ms ++ m ∷ []) ≡ some m
unfolding find
find-new n m [] new below = ground (arith, new)
find-new n m (x ∷ ms) new below = ground (arith, below.0, find-new n m ms new below.1)

members-append :
    (users : List User) (m : Member) (u : User) (ms : List Member)
    → find_user m.user_id users ≡ some u
    → members_with_users users m.room_id (ms ++ m ∷ [])
      ≡ members_with_users users m.room_id ms ++ record { member = m; user = some u } ∷ []
unfolding members_with_users
members-append users m u [] known = ground (arith, known)
members-append users m u (x ∷ ms) known =
    let rest = members-append users m u ms known in
    elim (Bool-cases (x.room_id == m.room_id)) [
      | inr e ↦ ground (arith, e, rest)
      | inl e ↦ elim (Option-cases (find_user x.user_id users)) [
        | inl h ↦ ground (arith, e, h, rest)
        | inr (v, h) ↦ ground (arith, e, h, rest)
      ]
    ]

member_of-append :
    (user u : ℕ) (y : MemberResponse) (xs : List MemberResponse)
    → y.member.user_id ≡ user
    → is_member user xs ≡ false
    → Option.map (λ m. m.role) (member_of u (xs ++ y ∷ []))
      ≡ enlisted user y.member.role (λ v. Option.map (λ m. m.role) (member_of v xs)) u
unfolding member_of is_member
member_of-append user u y [] same absent = ground (arith, same)
member_of-append user u y (x ∷ xs) same absent =
    ground (arith, absent, member_of-append user u y xs same)

no_member_taken :
    (users : List User) (room_id user : ℕ) (u : User) (ms : List Member)
    → find_user user users ≡ some u
    → is_member user (members_with_users users room_id ms) ≡ false
    → any (is_taken user room_id) ms ≡ false
unfolding is_member members_with_users is_taken
no_member_taken users room_id user u [] known absent = refl
no_member_taken users room_id user u (x ∷ ms) known absent =
    let rest = no_member_taken users room_id user u ms known in
    elim (Bool-cases (x.room_id == room_id)) [
      | inr e ↦ ground (arith, e, absent, rest)
      | inl e ↦ elim (Bool-cases (x.user_id == user)) [
        | inl h ↦
            let same : x.user_id ≡ user = ground (arith, h) in
            let there : find_user x.user_id users ≡ some u = rw same known in
            absurd (ground (arith, e, h, there, absent))
        | inr h ↦ elim (Option-cases (find_user x.user_id users)) [
          | inl k ↦ ground (arith, e, h, k, absent, rest)
          | inr (v, k) ↦ ground (arith, e, h, k, absent, rest)
        ]
      ]
    ]

module _ (violation : String)
    (find_all : ℕ → ℕ → ℕ → ℕ → Database → Result RoomError (List RoomResponse))
    (users : UserRepository Database) where
  -- The tables with a new membership.
  abbrev with_attendee : ℕ → ℕ → Room → Database → Database
  with_attendee now user room db = record db {
    members =
        db.members
        ++ member_row db.next_member
            (record { room_id = room.id; created_at = now; user_id = user; role = attendee })
          ∷ [];
    next_member = db.next_member + 1;
  }

  -- A host who adds a known user to a room puts the user on the roster as an attendee and changes it
  -- for nobody else; the room that is answered is the room as it is read afterwards.
  pub added_member_enlisted :
      (now host user u : ℕ) (room : Room) (known : User) (db : Database)
      → IsSerial db
      → db.is_connected ≡ true
      → find_room room.id db.rooms ≡ some room
      → find_user user db.users ≡ some known
      → is_host host (room_response db room).members ≡ true
      → is_member user (room_response db room).members ≡ false
      → (let after = add_member (room_tables violation find_all) users now room.id host user db in
          (after.0 ≡ (table_get_room_by_id room.id after.1).0)
          × (after.0 ≡ ok (room_response after.1 room))
          × (roster (room_response after.1 room) u
              ≡ enlisted user attendee (roster (room_response db room)) u))
  unfolding add_member room_tables table_create_member insert_member get_member_by_id
      table_get_room_by_id connect get_conn room_response has_references
  added_member_enlisted now host user u room known db serial connected there is_known hosted
        absent =
      let new : Member =
        member_row db.next_member
          (record { room_id = room.id; created_at = now; user_id = user; role = attendee }) in
      let found = find-new db.next_member new db.members refl serial.members in
      let free = no_member_taken db.users room.id user known db.members is_known absent in
      let more = members-append db.users new known db.members is_known in
      let listed =
        member_of-append user u (record { member = new; user = some known })
          (members_with_users db.users room.id db.members) refl absent in
      (
        ground (arith, connected, there, is_known, hosted, absent, found, free, more),
        ground (arith, connected, there, is_known, hosted, absent, found, free, more),
        ground (arith, connected, there, is_known, hosted, absent, found, free, more, listed),
      )

-- ===== src/Signalling/Rooms/Leavers.antt =====
-- What leaving a room and the removal of a member leave of the roster, in
-- signalling/src/features/room/service.rs.
use mathlib.Core.Option
use waterbus_rs.Base.{
  ℕ, ◌≡◌, refl, true, not, String, none, some, Result, ok, err, List, [], ◌∷◌, ◌==◌, if◌then◌else◌,
  arith, keep, All, Option-cases, Bool-cases, inl, inr,
}
use waterbus_rs.Signalling.Models.{
  Room, Member, User, MemberResponse, RoomResponse, RoomError, unexpected_error, owner, is_host,
  member_of,
}
use waterbus_rs.Signalling.Repositories.{UserRepository}
use waterbus_rs.Signalling.Tables.{
  Database, find, get_conn, find_user, find_room, members_with_users, room_response,
}
use waterbus_rs.Signalling.Tables.Seats.{is_seat, member_of-seat}
use waterbus_rs.Signalling.Tables.RoomTables.{
  connect, table_get_room_by_id, table_delete_member_by_id, room_tables,
}
use waterbus_rs.Signalling.Rooms.{leave_room, remove_member}
use waterbus_rs.Signalling.Rooms.Roster.{Roster, roster}

-- A user is struck off the roster.
abbrev pub struck : ℕ → Roster → Roster
struck user r u = if user == u then none else r u

abbrev others : ℕ → List MemberResponse → List MemberResponse
others user ms = keep (λ m. not (m.member.user_id == user)) ms

-- To delete the one row of a user's membership is to drop the user from the members.
members-keep :
    (users : List User) (room_id user id : ℕ) (ms : List Member)
    → All (λ x. is_seat users room_id user x ≡ (x.id == id)) ms
    → members_with_users users room_id (keep (λ x. not (x.id == id)) ms)
      ≡ others user (members_with_users users room_id ms)
unfolding members_with_users is_seat
members-keep users room_id user id [] unique = refl
members-keep users room_id user id (x ∷ ms) unique =
    let rest = members-keep users room_id user id ms unique.1 in
    elim (Bool-cases (x.room_id == room_id)) [
      | inr e ↦ ground (arith, e, rest, unique.0)
      | inl e ↦ elim (Option-cases (find_user x.user_id users)) [
        | inl h ↦ ground (arith, e, h, rest, unique.0)
        | inr (v, h) ↦ elim (Bool-cases (x.user_id == user)) [
          | inl k ↦ ground (arith, e, h, k, rest, unique.0)
          | inr k ↦ ground (arith, e, h, k, rest, unique.0)
        ]
      ]
    ]

member_of-others :
    (user u : ℕ) (ms : List MemberResponse)
    → Option.map (λ m. m.role) (member_of u (others user ms))
      ≡ struck user (λ v. Option.map (λ m. m.role) (member_of v ms)) u
unfolding member_of
member_of-others user u [] = ground arith
member_of-others user u (x ∷ ms) = ground (arith, member_of-others user u ms)

module _ (violation : String)
    (find_all : ℕ → ℕ → ℕ → ℕ → Database → Result RoomError (List RoomResponse))
    (users : UserRepository Database) where
  -- The tables without a membership.
  abbrev without_member : ℕ → Database → Database
  without_member id db = record db { members = keep (λ x. not (x.id == id)) db.members }

  -- A member who is removed by a host, who may be the member itself, is struck off the roster, and so
  -- is one who leaves, unless its role is that of a host, who is refused: nobody else is concerned, and
  -- the room that is answered is the room as it is read afterwards. It is presumed that the membership
  -- is the only one of this user in the room, and that no other row has its id.
  pub gone_member_struck :
      (host user u : ℕ) (room : Room) (m : Member) (db : Database)
      → db.is_connected ≡ true
      → find_room room.id db.rooms ≡ some room
      → find (is_seat db.users room.id user) db.members ≡ some m
      → All (λ x. is_seat db.users room.id user x ≡ (x.id == m.id)) db.members
      → is_host host (room_response db room).members ≡ true
      → (let tables = room_tables violation find_all in
          let removed = remove_member tables users room.id host user db in
          let left = leave_room tables users room.id user db in
          (removed.0 ≡ ok (room_response removed.1 room))
          × (roster (room_response removed.1 room) u
              ≡ struck user (roster (room_response db room)) u)
          × (left ≡ (
              if m.role == owner
              then (
                err (
                    unexpected_error
                      "Host not allowed to leave the room. You can archive chats if the room no longer active."),
                db,
              )
              else removed)))
  unfolding remove_member leave_room room_tables table_delete_member_by_id table_get_room_by_id
      connect get_conn room_response
  gone_member_struck host user u room m db connected there seat unique hosted =
      let found = member_of-seat db.users room.id user db.members in
      let fewer = members-keep db.users room.id user m.id db.members unique in
      let gone = member_of-others user u (members_with_users db.users room.id db.members) in
      (
        ground (arith, connected, there, seat, hosted, found, fewer),
        ground (arith, connected, there, seat, hosted, found, fewer, gone),
        ground (arith, connected, there, seat, hosted, found, fewer),
      )

-- ===== src/Signalling/Tables/Seats.antt =====
-- The membership of a user of a room, as a query of the members.
use waterbus_rs.Base.{
  ℕ, ◌≡◌, refl, Bool, true, false, ◌&&◌, none, some, List, [], ◌∷◌, ◌==◌, arith, Bool-cases,
  Option-cases, inl, inr,
}
use waterbus_rs.Signalling.Models.{Member, User, member_of}
use waterbus_rs.Signalling.Tables.{find, find_user, members_with_users}

-- A row of the room and of the user, who is known.
unfoldable pub is_seat : List User → ℕ → ℕ → Member → Bool
is_seat users room_id user m =
    m.room_id == room_id
    && m.user_id == user
    && (elim (find_user m.user_id users) [ none ↦ false | some _ ↦ true ])

pub member_of-seat :
    (users : List User) (room_id user : ℕ) (ms : List Member)
    → member_of user (members_with_users users room_id ms) ≡ find (is_seat users room_id user) ms
unfolding member_of members_with_users find is_seat
member_of-seat users room_id user [] = refl
member_of-seat users room_id user (x ∷ ms) =
    let rest = member_of-seat users room_id user ms in
    elim (Bool-cases (x.room_id == room_id)) [
      | inr e ↦ ground (arith, e, rest)
      | inl e ↦ elim (Option-cases (find_user x.user_id users)) [
        | inl h ↦ ground (arith, e, h, rest)
        | inr (u, h) ↦ ground (arith, e, h, rest)
      ]
    ]

-- ===== src/Signalling/Rooms/Hosts.antt =====
-- Who may change a room of signalling/src/features/room/service.rs.
use waterbus_rs.Base.{
  ℕ, ◌≡◌, false, some, Result, ok, err, List, [], ◌∷◌, ◌==◌, arith, Option-cases, Bool-cases, inl,
  inr,
}
use waterbus_rs.Signalling.Models.{
  Member, MemberResponse, RoomResponse, RoomError, you_dont_have_permissions, unexpected_error,
  owner, is_member, is_host, member_of,
}
use waterbus_rs.Signalling.Repositories.{RoomRepository, UserRepository, Bcrypt}
use waterbus_rs.Signalling.Rooms.{
  UpdateRoomDto, update_room, add_member, remove_member, deactivate_room,
}

-- A member who is not a host has no role of a host where its membership is found.
role_of_no_host :
    (user : ℕ) (ms : List MemberResponse) (m : Member)
    → is_host user ms ≡ false
    → member_of user ms ≡ some m
    → (m.role == owner) ≡ false
unfolding is_host member_of
role_of_no_host user [] m no_host found = ground arith
role_of_no_host user (x ∷ ms) m no_host found =
    ground (arith, role_of_no_host user ms m, no_host, found)

module _ {World : Type 0} (rooms : RoomRepository World) (users : UserRepository World) where
  -- The call answers with an error, and changes nothing.
  pub record IsRefused {A : Type 0} (answer : Result RoomError A × World) (before : World)
      : Type 0 where
    pub reason : RoomError
    pub refused : answer ≡ (err reason, before)

  -- Whoever is not a host of a room can neither change nor deactivate it, nor add or remove a member:
  -- the call is answered with an error, and nothing is written.
  pub no_host-IsRefused :
      (bcrypt : Bcrypt) (salt now room_id user other : ℕ) (dto : UpdateRoomDto)
      (room : RoomResponse) (w : World)
      → rooms.get_room_by_id room_id w ≡ ok room
      → is_host user room.members ≡ false
      → IsRefused (update_room rooms users bcrypt salt dto room_id user w) w
        × IsRefused (deactivate_room rooms users room_id user w) w
        × IsRefused (add_member rooms users now room_id user other w) w
        × IsRefused (remove_member rooms users room_id user other w) w
  unfolding update_room deactivate_room add_member remove_member
  no_host-IsRefused bcrypt salt now room_id user other dto room w there no_host = (
    record { reason = you_dont_have_permissions; refused = ground (arith, there, no_host) },
    elim (Option-cases (member_of user room.members)) [
      | inl e ↦ record {
        reason = unexpected_error "Member not found";
        refused = ground (arith, there, e);
      }
      | inr (m, e) ↦ record {
        reason = you_dont_have_permissions;
        refused = ground (arith, there, e, role_of_no_host user room.members m no_host e);
      }
    ],
    elim (Bool-cases (is_member other room.members)) [
      | inl e ↦ record {
        reason = unexpected_error "User already in the room";
        refused = ground (arith, there, e, no_host);
      }
      | inr e ↦ record {
        reason = you_dont_have_permissions;
        refused = ground (arith, there, e, no_host);
      }
    ],
    elim (Option-cases (member_of other room.members)) [
      | inl e ↦ record {
        reason = unexpected_error "Member not found";
        refused = ground (arith, there, e, no_host);
      }
      | inr (m, e) ↦ record {
        reason = you_dont_have_permissions;
        refused = ground (arith, there, e, no_host);
      }
    ],
  )

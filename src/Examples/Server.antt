-- ===== src/Examples/Server.antt =====
-- A database with a room, its host and its messages.
use waterbus_rs.Base.{
  string_eq, str_eq, any, ◌||◌, ℕ, ◌≡◌, refl, true, false, String, none, some, Result, ok, err,
  List, [], ◌∷◌, ◌==◌, if◌then◌else◌, map, All, arith, ltb,
}
use waterbus_rs.Signalling.Models.{
  Room, Member, Message, Participant, User, NewRoom, NewMember, NewParticipant, NewMessage,
  RoomResponse, RoomError, unexpected_error, owner, attendee, active, inactive, is_host, is_member,
  chat_unexpected_error, forbidden, MessageResponse,
}
use waterbus_rs.Signalling.Repositories.{JwtUtils, RoomRepository, UserRepository, Bcrypt}
use waterbus_rs.Signalling.Tables.{
  Database, find, get_conn, find_user, find_room, members_with_users, room_response,
}
use waterbus_rs.Signalling.Tables.UserTables.{user_tables, auth_tables, has_name, has_external_id}
use waterbus_rs.Signalling.Users.{CreateTokenDto, auth_response, login_with_social}
use waterbus_rs.Signalling.Users.Login.{logged_in_again}
use waterbus_rs.Signalling.Tables.Seats.{is_seat}
use waterbus_rs.Signalling.Tables.Serial.{IsSerial}
use waterbus_rs.Signalling.Tables.RoomTables.{connect, room_tables, table_get_room_by_id}
use waterbus_rs.Signalling.Tables.ChatTables.{
  chat_tables, chat_connect, message_response, table_get_message_by_id,
}
use waterbus_rs.Signalling.Rooms.{
  UpdateRoomDto, update_room, leave_room, add_member, remove_member, deactivate_room,
  generate_unique_room_code,
}
use waterbus_rs.Signalling.Rooms.Hosts.{IsRefused, no_host-IsRefused}
use waterbus_rs.Signalling.Rooms.Codes.{IsFound, generated-IsFound}
use waterbus_rs.Signalling.Rooms.Roster.{roster, enlisted, added_member_enlisted}
use waterbus_rs.Signalling.Rooms.Leavers.{struck, gone_member_struck}
use waterbus_rs.Signalling.Chats.{
  update_message, delete_message_by_id, delete_conversation, get_messages_by_room,
}
use waterbus_rs.Signalling.Chats.Authors.{message_kept, deleted_message_active}
use waterbus_rs.Signalling.Chats.Hidden.{After, deleted_conversation_hidden}

abbrev person : ℕ → String → User
person id name = record {
  id = id;
  full_name = none;
  user_name = name;
  bio = none;
  external_id = name;
  avatar = none;
  created_at = 1;
  updated_at = 1;
  deleted_at = none;
  last_seen_at = none;
}

abbrev room : Room
room = record {
  id = 1;
  title = "Daily";
  password = some "";
  avatar = none;
  status = active;
  latest_message_created_at = none;
  code = "abc-defg-hij";
  created_at = 2;
  updated_at = 2;
  deleted_at = none;
  latest_message_id = none;
  type_ = 0;
}

abbrev seat : ℕ → ℕ → ℕ → Member
seat id user role = record {
  id = id;
  role = role;
  created_at = 2;
  deleted_at = none;
  soft_deleted_at = none;
  user_id = user;
  room_id = 1;
}

abbrev greeting : Message
greeting = record {
  id = 1;
  data_ = "hello";
  created_at = 5;
  updated_at = 5;
  deleted_at = none;
  created_by_id = 1;
  room_id = 1;
  type_ = 0;
  status = active;
}

abbrev pub db : Database
db = record {
  users = person 1 "host" ∷ person 2 "guest" ∷ person 3 "other" ∷ [];
  rooms = room ∷ [];
  members = seat 1 1 owner ∷ seat 2 2 attendee ∷ [];
  messages = greeting ∷ [];
  participants = [];
  next_user = 4;
  next_room = 2;
  next_member = 3;
  next_message = 2;
  next_participant = 1;
  current_timestamp = 9;
  is_connected = true;
}

abbrev no_rooms : ℕ → ℕ → ℕ → ℕ → Database → Result RoomError (List RoomResponse)
no_rooms user status skip limit _ = ok []

abbrev pub rooms : RoomRepository Database
rooms = room_tables "violation" no_rooms

abbrev pub users : UserRepository Database
users = user_tables

abbrev bcrypt : Bcrypt
bcrypt = record { hash = λ salt password. password; verify = λ password hash. some true }

abbrev dto : UpdateRoomDto
dto = record { title = some "Weekly"; password = none; avatar = none }

there : rooms.get_room_by_id 1 db ≡ ok (room_response db room)
unfolding room_tables table_get_room_by_id connect get_conn find_room find
there = refl

no_host : is_host 2 (room_response db room).members ≡ false
unfolding is_host room_response members_with_users find_user find
no_host = refl

no_host-IsRefused_example :
    IsRefused rooms users (update_room rooms users bcrypt 7 dto 1 2 db) db
    × IsRefused rooms users (deactivate_room rooms users 1 2 db) db
    × IsRefused rooms users (add_member rooms users 8 1 2 3 db) db
    × IsRefused rooms users (remove_member rooms users 1 2 3 db) db
no_host-IsRefused_example =
    no_host-IsRefused rooms users bcrypt 7 8 1 2 3 dto (room_response db room) db there no_host

abbrev draw : ℕ → String
draw n = if n == 0 then "abc-defg-hij" else "klm-nopq-rst"

generated-IsFound_example :
    IsFound rooms users draw 0 10 db (generate_unique_room_code rooms users draw 10 db).0
    × ((generate_unique_room_code rooms users draw 10 db).1 ≡ db)
generated-IsFound_example = generated-IsFound rooms users draw 10 db

db-IsSerial : IsSerial db
db-IsSerial = record {
  rooms = (omega arith, tt);
  members = (omega arith, (omega arith, tt));
  messages = (omega arith, tt);
  participants = tt;
}

found : find_room room.id db.rooms ≡ some room
found = unfold find_room find in refl

known : find_user 3 db.users ≡ some (person 3 "other")
known = unfold find_user find in refl

hosted : is_host 1 (room_response db room).members ≡ true
unfolding is_host room_response members_with_users find_user find
hosted = refl

absent : is_member 3 (room_response db room).members ≡ false
unfolding is_member room_response members_with_users find_user find
absent = refl

added_member_enlisted_example :
    (let after = add_member rooms users 8 1 1 3 db in
      (after.0 ≡ (table_get_room_by_id 1 after.1).0)
      × (after.0 ≡ ok (room_response after.1 room))
      × (roster (room_response after.1 room) 2
          ≡ enlisted 3 attendee (roster (room_response db room)) 2))
added_member_enlisted_example =
    added_member_enlisted "violation" no_rooms users 8 1 3 2 room (person 3 "other") db db-IsSerial
      refl found known hosted absent

seated : find (is_seat db.users room.id 2) db.members ≡ some (seat 2 2 attendee)
unfolding find is_seat find_user
seated = refl

unique : All (λ x. is_seat db.users room.id 2 x ≡ (x.id == 2)) db.members
unfolding is_seat find_user find
unique = (refl, (refl, tt))

gone_member_struck_example :
    (let removed = remove_member rooms users 1 1 2 db in
      let left = leave_room rooms users 1 2 db in
      (removed.0 ≡ ok (room_response removed.1 room))
      × (roster (room_response removed.1 room) 1 ≡ struck 2 (roster (room_response db room)) 1)
      × (left ≡ (
          if attendee == owner
          then (
            err (
                unexpected_error
                  "Host not allowed to leave the room. You can archive chats if the room no longer active."),
            db,
          )
          else removed)))
gone_member_struck_example =
    gone_member_struck "violation" no_rooms users 1 2 1 room (seat 2 2 attendee) db refl found
      seated unique hosted

abbrev new_room : NewRoom
new_room = record {
  title = "Weekly";
  password = "";
  code = "klm-nopq-rst";
  created_at = 9;
  updated_at = 9;
  latest_message_created_at = 9;
  status = active;
  type_ = 0;
}

abbrev new_member : NewMember
new_member = record { room_id = 1; created_at = 9; user_id = 3; role = attendee }

abbrev new_participant : NewParticipant
new_participant = record { room_id = 1; user_id = 2; created_at = 9; status = active }

abbrev participant : Participant
participant = record {
  id = 1;
  created_at = 9;
  deleted_at = none;
  user_id = 2;
  room_id = 1;
  status = active;
  node_id = some "node";
}

abbrev new_message : NewMessage
new_message = record {
  data_ = "again";
  created_by_id = 1;
  room_id = 1;
  status = active;
  type_ = 0;
  created_at = 9;
  updated_at = 9;
}

abbrev stored : MessageResponse
stored = record { message = greeting; created_by = some (person 1 "host"); room = some room }

read_greeting : chat_tables.get_message_by_id 1 db ≡ ok stored
unfolding chat_tables table_get_message_by_id chat_connect get_conn message_response find find_user
    find_room
read_greeting = refl

message_kept_example :
    (let reason =
        if active == inactive
        then chat_unexpected_error "Message has been deleted"
        else forbidden "You not allowed modify message of other users" in
      (delete_message_by_id chat_tables rooms users 1 2 db ≡ (err reason, db))
      × (update_message chat_tables rooms users 9 1 2 "bye" db ≡ (err reason, db)))
message_kept_example = message_kept chat_tables rooms users 9 1 2 "bye" stored db read_greeting refl

listed : find (λ x. x.id == greeting.id) db.messages ≡ some greeting
listed = unfold find in refl

deleted_message_active_example :
    (let stamped : Message = record greeting { updated_at = 9 } in
      let after = delete_message_by_id chat_tables rooms users 1 1 db in
      (after.0 ≡ ok (record (message_response db greeting) { message = stamped }))
      × (find (λ x. x.id == 1) after.1.messages ≡ some stamped)
      × (active ≡ active))
deleted_message_active_example = deleted_message_active rooms users greeting db refl listed refl

deleted_conversation_hidden_example :
    (let after = delete_conversation chat_tables rooms users 9 1 2 db in
      (messages : List Message) × (after.0 ≡ ok room)
      × ((get_messages_by_room chat_tables rooms users 1 2 0 10 after.1).0
          ≡ ok (map (message_response after.1) messages))
      × All (After 9) messages)
deleted_conversation_hidden_example =
    deleted_conversation_hidden "violation" no_rooms users 9 1 2 0 10 room (seat 2 2 attendee) db
      refl found seated

abbrev jwt : JwtUtils
jwt = record {
  generate_token = λ id now. if ltb now 10 then "token" else "later";
  generate_refresh_token = λ id now. "refresh";
}

abbrev newcomer : String → CreateTokenDto
newcomer name = record { full_name = name; external_id = "newcomer" }

nobody : find (λ u. str_eq u.external_id "newcomer") db.users ≡ none
nobody = unfold find in refl

free : any (λ u. has_name "n1" u || has_external_id "newcomer" u) db.users ≡ false
free = unfold has_name has_external_id in refl

logged_in_again_example :
    (let one = login_with_social auth_tables jwt "n1" 9 (newcomer "Kai") db in
      let two = login_with_social auth_tables jwt "n2" 12 (newcomer "K.") one.1 in
      (user : User) × (one.0 ≡ ok (auth_response jwt 9 user.id (some user)))
      × (user.external_id ≡ "newcomer")
      × (two ≡ (ok (auth_response jwt 12 user.id (some user)), one.1)))
logged_in_again_example =
    logged_in_again jwt "n1" "n2" 9 12 (newcomer "Kai") (newcomer "K.") db refl nobody free refl

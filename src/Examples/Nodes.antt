-- ===== src/Examples/Nodes.antt =====
-- A node with two rooms and one client.
use mathlib.Core.Option
use waterbus_rs.Base.{◌≡◌, refl, string_eq, none, some, ok, err, [], ◌∷◌}
use waterbus_rs.Table.{get}
use waterbus_rs.Errors.{participant_not_found, room_not_found}
use waterbus_rs.Room.{peer_id}
use waterbus_rs.Manager.{
  WClient, WebRtcManager, get_client_by_id, manager_subscribe, manager_leave_room,
}
use waterbus_rs.Manager.Clients.{client_left}
use waterbus_rs.Manager.Joining.{subscriber_of_no_room}
use waterbus_rs.Examples.Peers.{peers}
use waterbus_rs.Examples.Tracks.{channel}
use waterbus_rs.Examples.Rooms.{room}

abbrev client : WClient
client = record { participant_id = "alice"; room_id = "room" }

abbrev manager : WebRtcManager peers channel
manager = record {
  rooms = ("room", room) ∷ ("other", room) ∷ [];
  clients = ("socket", client) ∷ [];
}

known : get "socket" manager.clients ≡ some client
known = unfold get in refl

there : get "room" manager.rooms ≡ some room
there = unfold get in refl

client_left_example :
    (let after = manager_leave_room peers channel "socket" manager in
      (after.0 ≡ ok client)
      × (manager_leave_room peers channel "socket" after.1 ≡ (err participant_not_found, after.1))
      × (Option.map (λ r. get "alice" r.publishers) (get "room" after.1.rooms) ≡ some none)
      × (Option.map (λ r. get (peer_id "alice" "p1") r.subscribers) (get "room" after.1.rooms)
          ≡ some none)
      × (get "other" after.1.rooms ≡ get "other" manager.rooms))
client_left_example =
    client_left peers channel "socket" "other" "p1" client room manager known there refl

unknown : get "tab" manager.clients ≡ none
unknown = unfold get in refl

absent : get "nowhere" manager.rooms ≡ none
absent = unfold get in refl

subscriber_of_no_room_example :
    (let after = (manager_subscribe peers channel "tab" "p1" "bob" "nowhere" 5 manager).1 in
      ((manager_subscribe peers channel "tab" "p1" "bob" "nowhere" 5 manager).0
        ≡ err room_not_found)
      × (get_client_by_id peers channel "tab" after
          ≡ ok (record { participant_id = "bob"; room_id = "nowhere" }))
      × (manager_leave_room peers channel "tab" after ≡ (err room_not_found, after)))
subscriber_of_no_room_example =
    subscriber_of_no_room peers channel "tab" "p1" "bob" "nowhere" 5 manager unknown absent

-- ===== src/Examples/Rooms.antt =====
-- A room with two publishers, who are subscribed to each other.
use waterbus_rs.Base.{◌≡◌, string_eq, str_eq, starts_with, none, [], ◌∷◌, if◌then◌else◌}
use waterbus_rs.Table.{get}
use waterbus_rs.Room.{Room, Publisher, peer_id, peer_prefix, room_leave}
use waterbus_rs.Room.Leaving.{left_room}
use waterbus_rs.Examples.Peers.{peers}
use waterbus_rs.Examples.Tracks.{channel, media}
use waterbus_rs.Examples.Subscribing.{alice, fresh, watched_store}

abbrev pub publisher : Publisher peers
publisher = record { media = media; peer_connection = 0; connection_type = 1 }

abbrev pub room : Room peers channel
room = record {
  publishers = ("p1", publisher) ∷ ("alice", publisher) ∷ [];
  subscribers =
      ("p_p1_alice", record { peer_connection = 1; subscriber = alice })
      ∷ ("p_alice_p1", record { peer_connection = 2; subscriber = fresh })
      ∷ [];
  store = watched_store;
  net = 3;
  joined = [];
}

left_room_example :
    (get "p1" (room_leave peers channel "alice" room).publishers
      ≡ (if str_eq "alice" "p1" then none else get "p1" room.publishers))
    × (get "p_p1_alice" (room_leave peers channel "alice" room).subscribers ≡ (
        if starts_with "p_p1_alice" (peer_prefix "alice")
        then none
        else get "p_p1_alice" room.subscribers))
    × (get (peer_id "alice" "p1") (room_leave peers channel "alice" room).subscribers ≡ none)
left_room_example = left_room peers channel "alice" "p1" "p1" "p_p1_alice" room

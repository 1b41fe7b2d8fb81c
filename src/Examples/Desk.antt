-- ===== src/Examples/Desk.antt =====
-- A signalling server with one socket, whose client has joined.
use waterbus_rs.Base.{
  ◌≡◌, refl, true, false, String, str_eq, Option, none, some, [], ◌∷◌, ◌++◌, if◌then◌else◌,
}
use waterbus_rs.Base.Int.{ℤ, pos}
use waterbus_rs.Signalling.Events.{DispatcherCallback, new_user_joined, node_terminated}
use waterbus_rs.Signalling.Sockets.{Hub, handle_leave_room, handle_set_video_enabled}
use waterbus_rs.Signalling.Sockets.Callbacks.{handle_dispatcher_callbacks, bad_id_ends_loop}
use waterbus_rs.Signalling.Sockets.Departure.{farewell, left_once}
use waterbus_rs.Examples.Cluster.{float}
use waterbus_rs.Examples.Calls.{redis, json, grpc, healthy, cluster, dispatcher, alice, alice_there}
use waterbus_rs.Examples.Server.{db, rooms, users}

abbrev parse_id : String → Option ℤ
parse_id s = if str_eq s "1" then some (pos 1) else none

abbrev hub : Hub float redis json grpc rooms parse_id
hub = record {
  dispatcher = dispatcher cluster;
  world = db;
  sockets = "socket" ∷ [];
  joined = ("socket", "room") ∷ [];
  emitted = [];
}

left_once_example :
    (let one = handle_leave_room float redis json grpc rooms parse_id "socket" hub in
      let two = handle_leave_room float redis json grpc rooms parse_id "socket" one in
      (one.emitted
        ≡ hub.emitted ++ farewell float redis json grpc rooms parse_id "socket" alice ∷ [])
      × (two.emitted ≡ one.emitted)
      × (two.world ≡ one.world)
      × (two.dispatcher.world ≡ one.dispatcher.world)
      × ((handle_set_video_enabled float redis json grpc rooms parse_id "socket" true one).emitted
          ≡ one.emitted))
left_once_example =
    left_once float redis json grpc healthy rooms parse_id "socket" true alice hub alice_there

abbrev ended : DispatcherCallback
ended = node_terminated "node"

bad_id_ends_loop_example :
    handle_dispatcher_callbacks float redis json grpc rooms users parse_id
      ((ended ∷ []) ++ new_user_joined "p1" "room" "socket" "node" false ∷ ended ∷ [])
      hub
    ≡ handle_dispatcher_callbacks float redis json grpc rooms users parse_id (ended ∷ []) hub
bad_id_ends_loop_example =
    bad_id_ends_loop float redis json grpc rooms users parse_id (ended ∷ []) (ended ∷ []) "p1"
      "room" "socket" "node" false hub refl

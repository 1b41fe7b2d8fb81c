-- ===== src/Examples/Journey.antt =====
-- A dispatcher whose chosen node has a room.
use mathlib.Core.Option
use waterbus_rs.Base.{◌≡◌, refl, true, false, string_eq, none, some, ok, [], ◌∷◌}
use waterbus_rs.Base.Int.{pos}
use waterbus_rs.Table.{get}
use waterbus_rs.Dispatcher
use waterbus_rs.Dispatcher.{DispatcherManager, JoinRoomRequest}
use waterbus_rs.Room.{Room}
use waterbus_rs.Room.Connecting.{new_publisher}
use waterbus_rs.Manager.{WClient, join_params, room_or_new, get_client_by_id, get_room_by_id}
use waterbus_rs.Sfu.{Node, sfu_request}
use waterbus_rs.Sfu.Nodes.{node_grpc, joined_on_node}
use waterbus_rs.Sfu.Reached.{video_set_on_node}
use waterbus_rs.Examples.Cluster.{float, node, nodes, chosen}
use waterbus_rs.Examples.Calls.{redis, json, cluster, alice, alice_there}
use waterbus_rs.Examples.Peers.{peers}
use waterbus_rs.Examples.Tracks.{channel}
use waterbus_rs.Examples.Rooms.{room, publisher}

abbrev speaker : WClient
speaker = record { participant_id = "p1"; room_id = "room" }

abbrev host : Node peers channel
host = record { rooms = ("room", room) ∷ []; clients = ("socket", speaker) ∷ [] }

abbrev grpc : Dispatcher.SfuGrpc
grpc = node_grpc peers channel 0 "1" 5

abbrev dispatcher : DispatcherManager float redis json grpc
dispatcher = record {
  nodes = nodes;
  group_id = "g";
  cluster = cluster;
  world = ("10.0.0.2:50051", host) ∷ [];
  sfu_port = "50051";
}

abbrev request : JoinRoomRequest
request = record {
  client_id = "tab";
  participant_id = "bob";
  room_id = "room";
  sdp = "offer";
  is_video_enabled = true;
  is_audio_enabled = true;
  is_e2ee_enabled = false;
  total_tracks = pos 2;
  connection_type = pos 1;
}

reached :
    get (Dispatcher.server_addr float redis json grpc "10.0.0.2" dispatcher) dispatcher.world
    ≡ some host
reached = unfold get in refl

unknown : get "tab" host.clients ≡ none
unknown = unfold get in refl

made : peers.new_peer_connection (room_or_new peers channel 0 "room" host).net ≡ (some 3, 4)
unfolding room_or_new get_room_by_id get
made = refl

joined_on_node_example :
    (node' : Node peers channel) × (get
        (Dispatcher.server_addr float redis json grpc "10.0.0.2" dispatcher)
        (Dispatcher.join_room float redis json grpc request dispatcher).1.world
      ≡ some node')
    × (get_client_by_id peers channel "tab" node'
        ≡ ok (record { participant_id = "bob"; room_id = "room" }))
    × (Option.map (λ r. get "bob" r.publishers) (get "room" node'.rooms)
        ≡ some (some (new_publisher peers channel (join_params (sfu_request "1" request)) 3)))
joined_on_node_example =
    joined_on_node peers channel 0 "1" 5 float redis json dispatcher request "n2"
      (node "10.0.0.2" 20) host 3 4 chosen reached unknown made

known : get "socket" host.clients ≡ some speaker
known = unfold get in refl

there : get "room" host.rooms ≡ some room
there = unfold get in refl

published : get "p1" room.publishers ≡ some publisher
published = unfold get in refl

video_set_on_node_example :
    (let after =
        Dispatcher.set_video_enabled float redis json grpc
          (record { client_id = "socket"; is_enabled = false })
          dispatcher in
      (node' : Node peers channel) × (room' : Room peers channel) × (after.0 ≡ ok alice)
      × (get (Dispatcher.server_addr float redis json grpc "10.0.0.2" dispatcher) after.1.world
          ≡ some node')
      × (get "room" node'.rooms ≡ some room')
      × (Option.map (λ q. q.media.state.video_enabled) (get "p1" room'.publishers) ≡ some false))
video_set_on_node_example =
    video_set_on_node peers channel 0 "1" 5 float redis json dispatcher "socket" false alice speaker
      publisher room host alice_there reached known there published

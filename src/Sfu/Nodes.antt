-- ===== src/Sfu/Nodes.antt =====
-- The nodes behind the gRPC client of the dispatcher: crates/dispatcher/src/application/
-- sfu_grpc_client.rs connects to the address of a node and makes the call there, and each node answers
-- as sfu/src/application/sfu_grpc_service.rs does.
use mathlib.Core.Option
use waterbus_rs.Base.{ℕ, ◌≡◌, Bool, String, string_eq, eq_iff, none, some, Result, ok, err, arith}
use waterbus_rs.Table.{Table, get, insert, get-insert}
use waterbus_rs.Webrtc.{Webrtc}
use waterbus_rs.Forward.{RtpForwardInfo}
use waterbus_rs.Multicast.{Channel}
use waterbus_rs.Dispatcher
use waterbus_rs.Dispatcher.{SfuGrpc, DispatcherManager, JoinRoomRequest}
use waterbus_rs.Dispatcher.Nodes.{Float, NodeMetadata, get_node_least}
use waterbus_rs.Dispatcher.Cache.{Redis, Json}
use waterbus_rs.Room.Connecting.{SubscribeResponse, new_publisher}
use waterbus_rs.Manager.{join_params, room_or_new, get_client_by_id, manager_join_room}
use waterbus_rs.Manager.Joining.{client_there}
use waterbus_rs.Sfu.{
  Node, Answer, Status, or_internal, sfu_request, sfu_join_room, sfu_subscribe,
  sfu_set_subscriber_sdp, sfu_publisher_renegotiation, sfu_migrate_publisher_connection,
  sfu_add_publisher_candidate, sfu_add_subscriber_candidate, sfu_leave_room, sfu_set_video_enabled,
  sfu_set_audio_enabled, sfu_set_hand_raising, sfu_set_screen_sharing, sfu_set_camera_type,
}

-- A node that cannot be connected to, or its status.
pub data NodeStatus : Type 0 where
  unavailable : NodeStatus
  answered_with : Status → NodeStatus

module _ (w : Webrtc) {Packet : Type 0} (c : Channel (RtpForwardInfo Packet)) (net : w.Net)
    (nanoid : String) (now : ℕ) where
  -- The nodes by their addresses.
  abbrev pub Nodes : Type 0
  Nodes = Table String (Node w c)

  -- `get_client`, and the call of the node.
  unfoldable pub call_node :
      {A : Type 0} → Answer w c A → String → Nodes → Result NodeStatus A × Nodes
  call_node call addr nodes = elim (get addr nodes) [
    | none ↦ (err unavailable, nodes)
    | some node ↦
        let (answer, node') = call node in
        let nodes' = insert addr node' nodes in
        elim answer [ ok a ↦ (ok a, nodes') | err e ↦ (err (answered_with e), nodes') ]
  ]

  -- The participant and the room of a client that has left.
  unfoldable pub leave_node :
      Dispatcher.LeaveRoomRequest → String → Nodes → Result NodeStatus (String × String) × Nodes
  leave_node req addr nodes =
      let (answer, nodes') = call_node (sfu_leave_room w c req) addr nodes in
      elim answer [
        | ok client ↦ (ok (client.participant_id, client.room_id), nodes')
        | err e ↦ (err e, nodes')
      ]

  abbrev pub node_grpc : SfuGrpc
  node_grpc = record {
    World = Nodes;
    Status = NodeStatus;
    SubscribeResponse = SubscribeResponse;
    StatusResponse = Bool;
    join_room = λ addr req. call_node (sfu_join_room w c net nanoid req) addr;
    subscribe = λ addr req. call_node (sfu_subscribe w c now req) addr;
    set_subscriber_sdp = λ addr req. call_node (sfu_set_subscriber_sdp w c req) addr;
    publisher_renegotiation = λ addr req. call_node (sfu_publisher_renegotiation w c req) addr;
    migrate_connection = λ addr req. call_node (sfu_migrate_publisher_connection w c req) addr;
    add_publisher_candidate = λ addr req. call_node (sfu_add_publisher_candidate w c req) addr;
    add_subscriber_candidate = λ addr req. call_node (sfu_add_subscriber_candidate w c req) addr;
    leave_room = λ addr req. leave_node req addr;
    set_video_enabled = λ addr req. call_node (sfu_set_video_enabled w c req) addr;
    set_audio_enabled = λ addr req. call_node (sfu_set_audio_enabled w c req) addr;
    set_hand_raising = λ addr req. call_node (sfu_set_hand_raising w c req) addr;
    set_screen_sharing = λ addr req. call_node (sfu_set_screen_sharing w c req) addr;
    set_camera_type = λ addr req. call_node (sfu_set_camera_type w c req) addr;
  }

  -- What a join leaves of its node, whatever it answers.
  join_node :
      (req : JoinRoomRequest) (addr : String) (node : Node w c) (nodes : Nodes)
      → get addr nodes ≡ some node
      → get addr (call_node (sfu_join_room w c net nanoid req) addr nodes).1
        ≡ some (manager_join_room w c net (sfu_request nanoid req) node).1
  unfolding call_node sfu_join_room or_internal
  join_node req addr node nodes there =
      let node' = (manager_join_room w c net (sfu_request nanoid req) node).1 in
      ground (arith, there, get-insert addr addr node' nodes, eq_iff addr addr)

  module _ (f : Float) (r : Redis) (j : Json) where
    joined_world :
        (d : DispatcherManager f r j node_grpc) (req : JoinRoomRequest) (id : String)
        (m : NodeMetadata f)
        → get_node_least f d.group_id d.nodes ≡ some (id, m)
        → (Dispatcher.join_room f r j node_grpc req d).1.world
          ≡ (call_node
              (sfu_join_room w c net nanoid req)
              (Dispatcher.server_addr f r j node_grpc m.addr d)
              d.world).1
    unfolding Dispatcher.join_room
    joined_world d req id m chosen = ground (arith, chosen)

    -- A client who joins through the dispatcher, and is not yet known on the node that the dispatcher
    -- chooses (a registration that is there would be kept), is known there afterwards, as the
    -- participant and in the room of the request, and its participant is a publisher of the room
    -- there. It is so where the address of the node is known and the node can make a peer connection,
    -- also where it then answers with an error because the descriptions cannot be exchanged.
    pub joined_on_node :
        (d : DispatcherManager f r j node_grpc) (req : JoinRoomRequest) (id : String)
        (m : NodeMetadata f) (node : Node w c) (peer : w.Peer) (net' : w.Net)
        → get_node_least f d.group_id d.nodes ≡ some (id, m)
        → get (Dispatcher.server_addr f r j node_grpc m.addr d) d.world ≡ some node
        → get req.client_id node.clients ≡ none
        → w.new_peer_connection (room_or_new w c net req.room_id node).net ≡ (some peer, net')
        → (node' : Node w c) × (get
              (Dispatcher.server_addr f r j node_grpc m.addr d)
              (Dispatcher.join_room f r j node_grpc req d).1.world
            ≡ some node')
          × (get_client_by_id w c req.client_id node'
              ≡ ok (record { participant_id = req.participant_id; room_id = req.room_id }))
          × (Option.map
                (λ room. get req.participant_id room.publishers)
                (get req.room_id node'.rooms)
              ≡ some (some (new_publisher w c (join_params (sfu_request nanoid req)) peer)))
    joined_on_node d req id m node peer net' chosen there unknown made =
        let addr = Dispatcher.server_addr f r j node_grpc m.addr d in
        let asked = sfu_request nanoid req in
        let there' = client_there w c net asked peer net' node unknown made in
        (
          (manager_join_room w c net asked node).1,
          rw (joined_world d req id m chosen) (join_node req addr node d.world there),
          there'.0,
          there'.1,
        )

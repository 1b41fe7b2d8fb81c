-- ===== src/Sfu/Reached.antt =====
-- A setting of a client, from the dispatcher to the media on its node.
use mathlib.Core.Option
use waterbus_rs.Base.{ℕ, ◌≡◌, Bool, true, String, string_eq, eq_iff, some, ok, arith}
use waterbus_rs.Table.{get, insert, get-insert}
use waterbus_rs.Webrtc.{Webrtc}
use waterbus_rs.Forward.{RtpForwardInfo}
use waterbus_rs.Multicast.{Channel}
use waterbus_rs.Dispatcher
use waterbus_rs.Dispatcher.{DispatcherManager}
use waterbus_rs.Dispatcher.Nodes.{Float}
use waterbus_rs.Dispatcher.Cache.{Redis, Json, ClientMetadata, get_client}
use waterbus_rs.Media.{set_video_enabled}
use waterbus_rs.Room.{Room, Publisher, with_media, room_set_video_enabled}
use waterbus_rs.Manager.{
  WClient, in_room, get_client_by_id, get_room_by_id, manager_set_video_enabled,
}
use waterbus_rs.Sfu.{Node, or_internal, sfu_set_video_enabled}
use waterbus_rs.Sfu.Nodes.{call_node, node_grpc}

module _ (w : Webrtc) {Packet : Type 0} (c : Channel (RtpForwardInfo Packet)) (net : w.Net)
    (nanoid : String) (now : ℕ) where
  -- The publisher, the room and the node with the setting.
  abbrev set_publisher : Bool → Publisher w → Publisher w
  set_publisher b p = record p { media = set_video_enabled b p.media }

  abbrev set_room : String → Bool → Publisher w → Room w c → Room w c
  set_room id b p room = record room { publishers = insert id (set_publisher b p) room.publishers }

  abbrev set_node : WClient → Bool → Publisher w → Room w c → Node w c → Node w c
  set_node k b p room node = record node {
    rooms = insert k.room_id (set_room k.participant_id b p room) node.rooms;
  }

  node_set :
      (id : String) (b : Bool) (k : WClient) (p : Publisher w) (room : Room w c) (node : Node w c)
      → get id node.clients ≡ some k
      → get k.room_id node.rooms ≡ some room
      → get k.participant_id room.publishers ≡ some p
      → sfu_set_video_enabled w c (record { client_id = id; is_enabled = b }) node
        ≡ (ok true, set_node k b p room node)
  unfolding sfu_set_video_enabled or_internal manager_set_video_enabled in_room get_client_by_id
      get_room_by_id room_set_video_enabled with_media
  node_set id b k p room node known there published = ground (arith, known, there, published)

  -- A client whom the dispatcher has sent to a node, where it is known as a publisher of a room, turns
  -- its video on or off: the call is answered with the client, and on this node the media of its
  -- participant says so.
  pub video_set_on_node :
      (f : Float) (r : Redis) (j : Json)
      (d : DispatcherManager f r j (node_grpc w c net nanoid now)) (id : String) (b : Bool)
      (client : ClientMetadata) (k : WClient) (p : Publisher w) (room : Room w c) (node : Node w c)
      → get_client r j id d.cluster ≡ ok (some client)
      → get (Dispatcher.server_addr f r j (node_grpc w c net nanoid now) client.node_addr d) d.world
        ≡ some node
      → get id node.clients ≡ some k
      → get k.room_id node.rooms ≡ some room
      → get k.participant_id room.publishers ≡ some p
      → (let grpc = node_grpc w c net nanoid now in
          let after =
            Dispatcher.set_video_enabled f r j grpc (record { client_id = id; is_enabled = b }) d in
          (node' : Node w c) × (room' : Room w c) × (after.0 ≡ ok client)
          × (get (Dispatcher.server_addr f r j grpc client.node_addr d) after.1.world ≡ some node')
          × (get k.room_id node'.rooms ≡ some room')
          × (Option.map (λ q. q.media.state.video_enabled) (get k.participant_id room'.publishers)
              ≡ some b))
  unfolding Dispatcher.set_video_enabled Dispatcher.route call_node set_video_enabled
  video_set_on_node f r j d id b client k p room node cached reached known there published =
      let grpc = node_grpc w c net nanoid now in
      let addr = Dispatcher.server_addr f r j grpc client.node_addr d in
      let room' = set_room k.participant_id b p room in
      let node' = set_node k b p room node in
      let done = node_set id b k p room node known there published in
      (
        node',
        room',
        ground (arith, cached, reached, done),
        ground (arith, cached, reached, done, get-insert addr addr node' d.world, eq_iff addr addr),
        ground (arith, get-insert k.room_id k.room_id room' node.rooms, eq_iff k.room_id k.room_id),
        ground (
          arith,
          get-insert k.participant_id k.participant_id (set_publisher b p) room.publishers,
          eq_iff k.participant_id k.participant_id,
        ),
      )

-- ===== src/Dispatcher.antt =====
-- crates/dispatcher/src/dispatcher_manager.rs: the choice of an SFU node for a client, the cache of
-- clients, and the calls that are passed on to the node of a client. The SFU nodes and their gRPC
-- client (application/sfu_grpc_client.rs, a wrapper of the generated `SfuServiceClient`) are a
-- parameter: each call gives a status or a response, and changes the world of nodes.
pub mod Nodes
pub mod Cache
pub mod Routing
use Prim.Native.String.{◌++◌ as str_append}
use waterbus_rs.Base.{
  ℕ, ◌≡◌, Bool, true, false, String, Option, none, some, ok, err, Result, List, [], ◌∷◌,
}
use waterbus_rs.Base.Int.{ℤ}
use waterbus_rs.Dispatcher.Nodes.{Float, NodeMetadata, Nodes as NodeTable, get_node_least}
use waterbus_rs.Dispatcher.Cache.{
  Redis, Json, ClientMetadata, insert_client, get_client, get_by_participant_id, remove_client,
}

-- The messages of crates/waterbus-proto/proto, with the fields that the code reads.
pub record Candidate : Type 0 where
  pub candidate : String
  pub sdp_mid : Option String
  pub sdp_m_line_index : Option ℕ

pub record JoinRoomRequest : Type 0 where
  pub client_id : String
  pub participant_id : String
  pub room_id : String
  pub sdp : String
  pub is_video_enabled : Bool
  pub is_audio_enabled : Bool
  pub is_e2ee_enabled : Bool
  pub total_tracks : ℤ
  pub connection_type : ℤ

pub record SubscribeRequest : Type 0 where
  pub client_id : String
  pub target_id : String
  pub participant_id : String
  pub room_id : String

pub record SetSubscriberSdpRequest : Type 0 where
  pub client_id : String
  pub target_id : String
  pub sdp : String

pub record RenegotiationRequest : Type 0 where
  pub client_id : String
  pub sdp : String

pub record MigrateRequest : Type 0 where
  pub client_id : String
  pub sdp : String
  pub connection_type : ℤ

pub record AddPublisherCandidateRequest : Type 0 where
  pub client_id : String
  pub candidate : Option Candidate
  pub connection_type : ℤ

pub record AddSubscriberCandidateRequest : Type 0 where
  pub client_id : String
  pub target_id : String
  pub candidate : Option Candidate
  pub connection_type : ℤ

pub record LeaveRoomRequest : Type 0 where
  pub client_id : String

pub record SetEnabledRequest : Type 0 where
  pub client_id : String
  pub is_enabled : Bool

pub record SetScreenSharingRequest : Type 0 where
  pub client_id : String
  pub is_enabled : Bool
  pub screen_track_id : Option String

pub record SetCameraType : Type 0 where
  pub client_id : String
  pub camera_type : ℤ

pub record JoinRoomResponse : Type 0 where
  pub sdp : String
  pub is_recording : Bool

-- The calls of `SfuGrpcClient`: an address, a request, and the nodes.
pub record SfuGrpc : Type 1 where
  pub World : Type 0
  pub Status : Type 0
  pub SubscribeResponse : Type 0
  pub StatusResponse : Type 0
  pub join_room : String → JoinRoomRequest → World → Result Status JoinRoomResponse × World
  pub subscribe : String → SubscribeRequest → World → Result Status SubscribeResponse × World
  pub set_subscriber_sdp :
      String → SetSubscriberSdpRequest → World → Result Status StatusResponse × World
  pub publisher_renegotiation : String → RenegotiationRequest → World → Result Status String × World
  pub migrate_connection : String → MigrateRequest → World → Result Status (Option String) × World
  pub add_publisher_candidate :
      String → AddPublisherCandidateRequest → World → Result Status StatusResponse × World
  pub add_subscriber_candidate :
      String → AddSubscriberCandidateRequest → World → Result Status StatusResponse × World
  pub leave_room : String → LeaveRoomRequest → World → Result Status (String × String) × World
  pub set_video_enabled : String → SetEnabledRequest → World → Result Status StatusResponse × World
  pub set_audio_enabled : String → SetEnabledRequest → World → Result Status StatusResponse × World
  pub set_hand_raising : String → SetEnabledRequest → World → Result Status StatusResponse × World
  pub set_screen_sharing :
      String → SetScreenSharingRequest → World → Result Status StatusResponse × World
  pub set_camera_type : String → SetCameraType → World → Result Status StatusResponse × World

module _ (f : Float) (r : Redis) (j : Json) (g : SfuGrpc) where
  -- `sfu_port` is the port as it is printed.
  pub record DispatcherManager : Type 0 where
    pub nodes : NodeTable f
    pub group_id : String
    pub cluster : r.Cluster
    pub world : g.World
    pub sfu_port : String

  pub data RouteError : Type 0 where
    no_node client_not_found : RouteError
    failed_on_node : String → g.Status → RouteError

  abbrev pub Handler : Type 0 → Type 0
  Handler A = DispatcherManager → Result RouteError A × DispatcherManager

  abbrev pub server_addr : String → DispatcherManager → String
  server_addr addr d = str_append addr (str_append ":" d.sfu_port)

  joined :
      JoinRoomRequest
      → String
      → String
      → Result g.Status JoinRoomResponse × g.World
      → Handler JoinRoomResponse
  joined req node_id addr (err e, w) d = (err (failed_on_node node_id e), record d { world = w })
  joined req node_id addr (ok resp, w) d =
      let client : ClientMetadata = record {
        room_id = req.room_id;
        participant_id = req.participant_id;
        sfu_node_id = node_id;
        node_addr = addr;
      } in
      (
        ok resp,
        record d { world = w; cluster = (insert_client r j req.client_id client d.cluster).1 },
      )

  -- An error of the cache is dropped.
  unfoldable pub join_room : JoinRoomRequest → Handler JoinRoomResponse
  unfolding joined
  join_room req d = elim (get_node_least f d.group_id d.nodes) [
    | none ↦ (err no_node, d)
    | some (node_id, metadata) ↦
        joined req node_id metadata.addr (g.join_room (server_addr metadata.addr d) req d.world) d
  ]

  answered :
      {A B : Type 0}
      → ClientMetadata
      → (ClientMetadata → B → A)
      → Result g.Status B × g.World
      → Handler A
  answered client answer (ok b, w) d = (ok (answer client b), record d { world = w })
  answered client answer (err e, w) d =
      (err (failed_on_node client.sfu_node_id e), record d { world = w })

  -- What the handlers below do with the client that the cache gives: nothing is called where there
  -- is none, or where the cache fails.
  unfoldable pub route :
      {A B : Type 0}
      → Result r.RedisError (Option ClientMetadata)
      → (String → g.World → Result g.Status B × g.World)
      → (ClientMetadata → B → A)
      → Handler A
  unfolding answered
  route (err _) call answer d = (err client_not_found, d)
  route (ok none) call answer d = (err client_not_found, d)
  route (ok (some client)) call answer d =
      answered client answer (call (server_addr client.node_addr d) d.world) d

  unfoldable pub subscribe : SubscribeRequest → Handler g.SubscribeResponse
  subscribe req d =
      route (get_by_participant_id r j req.target_id d.cluster) (λ addr. g.subscribe addr req)
        (λ _ b. b) d

  unfoldable pub set_subscribe_sdp : SetSubscriberSdpRequest → Handler (Unit {0})
  set_subscribe_sdp req d =
      route (get_by_participant_id r j req.target_id d.cluster)
        (λ addr. g.set_subscriber_sdp addr req) (λ _ _. tt) d

  unfoldable pub publisher_renegotiate : RenegotiationRequest → Handler String
  publisher_renegotiate req d =
      route (get_client r j req.client_id d.cluster) (λ addr. g.publisher_renegotiation addr req)
        (λ _ b. b) d

  unfoldable pub migrate_connection : MigrateRequest → Handler (Option String)
  migrate_connection req d =
      route (get_client r j req.client_id d.cluster) (λ addr. g.migrate_connection addr req)
        (λ _ b. b) d

  unfoldable pub add_publisher_candidate : AddPublisherCandidateRequest → Handler (Unit {0})
  add_publisher_candidate req d =
      route (get_client r j req.client_id d.cluster) (λ addr. g.add_publisher_candidate addr req)
        (λ _ _. tt) d

  unfoldable pub add_subscriber_candidate : AddSubscriberCandidateRequest → Handler (Unit {0})
  add_subscriber_candidate req d =
      route (get_client r j req.client_id d.cluster) (λ addr. g.add_subscriber_candidate addr req)
        (λ _ _. tt) d

  unfoldable pub set_video_enabled : SetEnabledRequest → Handler ClientMetadata
  set_video_enabled req d =
      route (get_client r j req.client_id d.cluster) (λ addr. g.set_video_enabled addr req)
        (λ client _. client) d

  unfoldable pub set_audio_enabled : SetEnabledRequest → Handler ClientMetadata
  set_audio_enabled req d =
      route (get_client r j req.client_id d.cluster) (λ addr. g.set_audio_enabled addr req)
        (λ client _. client) d

  unfoldable pub set_hand_raising : SetEnabledRequest → Handler ClientMetadata
  set_hand_raising req d =
      route (get_client r j req.client_id d.cluster) (λ addr. g.set_hand_raising addr req)
        (λ client _. client) d

  unfoldable pub set_screen_sharing : SetScreenSharingRequest → Handler ClientMetadata
  set_screen_sharing req d =
      route (get_client r j req.client_id d.cluster) (λ addr. g.set_screen_sharing addr req)
        (λ client _. client) d

  unfoldable pub set_camera_type : SetCameraType → Handler ClientMetadata
  set_camera_type req d =
      route (get_client r j req.client_id d.cluster) (λ addr. g.set_camera_type addr req)
        (λ client _. client) d

  left : LeaveRoomRequest → Result r.RedisError (Option ClientMetadata) → Handler ClientMetadata
  left req (err _) d = (err client_not_found, d)
  left req (ok none) d = (err client_not_found, d)
  left req (ok (some client)) d = (
    ok client,
    record d { world = (g.leave_room (server_addr client.node_addr d) req d.world).1 },
  )

  -- The client is forgotten before the node is told; what the node answers is dropped.
  unfoldable pub leave_room : LeaveRoomRequest → Handler ClientMetadata
  unfolding left
  leave_room req d =
      left req (get_client r j req.client_id d.cluster)
        (record d { cluster = (remove_client r j req.client_id d.cluster).1 })

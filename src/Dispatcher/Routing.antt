-- ===== src/Dispatcher/Routing.antt =====
-- Calls go to the node on which the client joined, and to no node for a client who is not known.
use waterbus_rs.Base.{
  ◌≡◌, refl, Bool, false, String, str_eq, Option, none, some, Result, ok, err, arith,
}
use waterbus_rs.Base.Int.{ℤ}
use waterbus_rs.Dispatcher.Nodes.{Float, NodeMetadata, get_node_least}
use waterbus_rs.Dispatcher.Cache.{
  ClientMetadata, Redis, Json, participant_key, insert_client, get_client, get_by_participant_id,
}
use waterbus_rs.Dispatcher.Cache.Clients.{
  IsHealthy, IsRoundTrip, insert_client-found, removed_client_gone,
}
use waterbus_rs.Dispatcher

module _ (f : Float) (r : Redis) (j : Json) (g : Dispatcher.SfuGrpc) where
  abbrev pub Manager : Type 0
  Manager = Dispatcher.DispatcherManager f r j g

  abbrev pub refused : {A : Type 0} → Manager → Result (Dispatcher.RouteError f r j g) A × Manager
  refused d = (err Dispatcher.client_not_found, d)

  -- A call that names a client who is not in the cache is refused: no node is called, and nothing
  -- changes.
  pub unknown_client_refused :
      (d : Manager) (id sdp : String) (n : ℤ) (b : Bool) (c : Option Dispatcher.Candidate)
      (s : Option String)
      → get_client r j id d.cluster ≡ ok none
      → (Dispatcher.publisher_renegotiate f r j g (record { client_id = id; sdp = sdp }) d
          ≡ refused d)
        × (Dispatcher.migrate_connection f r j g
              (record { client_id = id; sdp = sdp; connection_type = n })
              d
            ≡ refused d)
        × (Dispatcher.add_publisher_candidate f r j g
              (record { client_id = id; candidate = c; connection_type = n })
              d
            ≡ refused d)
        × (Dispatcher.add_subscriber_candidate f r j g
              (record { client_id = id; target_id = sdp; candidate = c; connection_type = n })
              d
            ≡ refused d)
        × (Dispatcher.set_video_enabled f r j g (record { client_id = id; is_enabled = b }) d
            ≡ refused d)
        × (Dispatcher.set_audio_enabled f r j g (record { client_id = id; is_enabled = b }) d
            ≡ refused d)
        × (Dispatcher.set_hand_raising f r j g (record { client_id = id; is_enabled = b }) d
            ≡ refused d)
        × (Dispatcher.set_screen_sharing f r j g
              (record { client_id = id; is_enabled = b; screen_track_id = s })
              d
            ≡ refused d)
        × (Dispatcher.set_camera_type f r j g (record { client_id = id; camera_type = n }) d
            ≡ refused d)
  unfolding Dispatcher.route Dispatcher.publisher_renegotiate Dispatcher.migrate_connection
      Dispatcher.add_publisher_candidate Dispatcher.add_subscriber_candidate
      Dispatcher.set_video_enabled Dispatcher.set_audio_enabled Dispatcher.set_hand_raising
      Dispatcher.set_screen_sharing Dispatcher.set_camera_type
  unknown_client_refused d id sdp n b c s e = (rw e, rw e, rw e, rw e, rw e, rw e, rw e, rw e, rw e)

  -- Where the chosen node answers with an error, joining fails with the id of this node, and the
  -- client is not remembered.
  pub join_room_failed :
      (d : Manager) (req : Dispatcher.JoinRoomRequest) (node_id : String) (m : NodeMetadata f)
      (e : g.Status) (w : g.World)
      → get_node_least f d.group_id d.nodes ≡ some (node_id, m)
      → g.join_room (Dispatcher.server_addr f r j g m.addr d) req d.world ≡ (err e, w)
      → Dispatcher.join_room f r j g req d
        ≡ (err (Dispatcher.failed_on_node node_id e), record d { world = w })
  unfolding Dispatcher.join_room
  join_room_failed d req node_id m e w chosen failed = rw (chosen, Dispatcher.join_room, failed)

  -- What the cache is told of a client who joined.
  unfoldable pub joined_metadata : Dispatcher.JoinRoomRequest → String → String → ClientMetadata
  joined_metadata req node_id addr = record {
    room_id = req.room_id;
    participant_id = req.participant_id;
    sfu_node_id = node_id;
    node_addr = addr;
  }

  join_room_lem :
      (d : Manager) (req : Dispatcher.JoinRoomRequest) (node_id : String) (m : NodeMetadata f)
      (resp : Dispatcher.JoinRoomResponse) (w : g.World)
      → get_node_least f d.group_id d.nodes ≡ some (node_id, m)
      → g.join_room (Dispatcher.server_addr f r j g m.addr d) req d.world ≡ (ok resp, w)
      → Dispatcher.join_room f r j g req d ≡ (
        ok resp,
        record d {
          world = w;
          cluster =
              (insert_client r j req.client_id (joined_metadata req node_id m.addr) d.cluster).1;
        },
      )
  unfolding Dispatcher.join_room joined_metadata
  join_room_lem d req node_id m resp w chosen served = rw (chosen, Dispatcher.join_room, served)

  world_of_client :
      (d : Manager) (a : Dispatcher.RenegotiationRequest) (c : ClientMetadata)
      → get_client r j a.client_id d.cluster ≡ ok (some c)
      → (Dispatcher.publisher_renegotiate f r j g a d).1.world
        ≡ (g.publisher_renegotiation (Dispatcher.server_addr f r j g c.node_addr d) a d.world).1
  unfolding Dispatcher.publisher_renegotiate Dispatcher.route
  world_of_client d a c e = ground (arith, e)

  world_of_target :
      (d : Manager) (a : Dispatcher.SubscribeRequest) (c : ClientMetadata)
      → get_by_participant_id r j a.target_id d.cluster ≡ ok (some c)
      → (Dispatcher.subscribe f r j g a d).1.world
        ≡ (g.subscribe (Dispatcher.server_addr f r j g c.node_addr d) a d.world).1
  unfolding Dispatcher.subscribe Dispatcher.route
  world_of_target d a c e = ground (arith, e)

module _ (f : Float) (r : Redis) (j : Json) (g : Dispatcher.SfuGrpc) (h : IsHealthy r) where
  -- After a client has joined on the chosen node, a renegotiation of the client, and a subscription
  -- of anyone to its participant, are sent to this node's address, where the cache is healthy, the
  -- metadata of the client is read back from its text and the client's id is not the key of its
  -- participant.
  pub routed_to_joined_node :
      (d : Manager f r j g) (req : Dispatcher.JoinRoomRequest)
      (node_id sdp client_id participant_id room_id : String) (m : NodeMetadata f)
      (resp : Dispatcher.JoinRoomResponse) (w : g.World)
      → get_node_least f d.group_id d.nodes ≡ some (node_id, m)
      → g.join_room (Dispatcher.server_addr f r j g m.addr d) req d.world ≡ (ok resp, w)
      → IsRoundTrip j (joined_metadata f r j g req node_id m.addr)
      → str_eq (participant_key req.participant_id) req.client_id ≡ false
      → ((Dispatcher.publisher_renegotiate f r j g
            (record { client_id = req.client_id; sdp = sdp })
            (Dispatcher.join_room f r j g req d).1).1.world
          ≡ (g.publisher_renegotiation
              (Dispatcher.server_addr f r j g m.addr d)
              (record { client_id = req.client_id; sdp = sdp })
              w).1)
        × ((Dispatcher.subscribe f r j g
              (record {
                client_id = client_id;
                target_id = req.participant_id;
                participant_id = participant_id;
                room_id = room_id;
              })
              (Dispatcher.join_room f r j g req d).1).1.world
            ≡ (g.subscribe
                (Dispatcher.server_addr f r j g m.addr d)
                (record {
                  client_id = client_id;
                  target_id = req.participant_id;
                  participant_id = participant_id;
                  room_id = room_id;
                })
                w).1)
  unfolding joined_metadata
  routed_to_joined_node d req node_id sdp client_id participant_id room_id m resp w chosen served t
        apart =
      let c = joined_metadata f r j g req node_id m.addr in
      let found = insert_client-found r j h req.client_id c t d.cluster apart in
      rw (join_room_lem f r j g d req node_id m resp w chosen served)
        (world_of_client f r j g _ _ c found.0, world_of_target f r j g _ _ c found.1)

  -- A client who leaves is told to the node on which it joined; after that the client is not known,
  -- so a renegotiation of the client is refused and reaches no node. The cache is healthy.
  pub left_client_forgotten :
      (d : Manager f r j g) (id sdp : String) (c : ClientMetadata)
      → get_client r j id d.cluster ≡ ok (some c)
      → ((Dispatcher.leave_room f r j g (record { client_id = id }) d).0 ≡ ok c)
        × ((Dispatcher.leave_room f r j g (record { client_id = id }) d).1.world
            ≡ (g.leave_room
                (Dispatcher.server_addr f r j g c.node_addr d)
                (record { client_id = id })
                d.world).1)
        × (Dispatcher.publisher_renegotiate f r j g
              (record { client_id = id; sdp = sdp })
              (Dispatcher.leave_room f r j g (record { client_id = id }) d).1
            ≡ refused f r j g (Dispatcher.leave_room f r j g (record { client_id = id }) d).1)
  unfolding Dispatcher.leave_room Dispatcher.publisher_renegotiate Dispatcher.route
  left_client_forgotten d id sdp c e =
      let gone = (removed_client_gone r j h id c d.cluster e).1 in
      rw (e, Dispatcher.leave_room) (refl, refl, rw gone)

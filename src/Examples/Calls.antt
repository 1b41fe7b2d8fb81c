-- ===== src/Examples/Calls.antt =====
-- A dispatcher with two nodes, a cache that is a table, and nodes that only note who is called.
use waterbus_rs.Base.{
  ◌≡◌, refl, arith, Bool, true, false, String, string_eq, str_eq, none, some, Result, ok, err, List,
  [], ◌∷◌, if◌then◌else◌,
}
use waterbus_rs.Base.Int.{pos}
use waterbus_rs.Table.{Table, get, insert, remove, get-insert, get-remove}
use waterbus_rs.Dispatcher.Cache.{
  ClientMetadata, Redis, Json, participant_key, decode, insert_client, get_client,
  get_by_participant_id,
}
use waterbus_rs.Dispatcher.Cache.Clients.{IsHealthy, IsRoundTrip, inserted_client_found}
use waterbus_rs.Dispatcher
use waterbus_rs.Dispatcher.Routing.{Manager, joined_metadata, routed_to_joined_node}
use waterbus_rs.Examples.Cluster.{float, node, nodes, chosen}

abbrev pub redis : Redis
redis = record {
  Cluster = Table String String;
  RedisError = Unit {0};
  get_connection = λ c. ok tt;
  set = λ k v c. (ok tt, insert k v c);
  get = λ k c. ok (get k c);
  del = λ k c. (ok tt, remove k c);
  exists = λ k c. ok (elim (get k c) [ none ↦ 0 | some _ ↦ 1 ]);
  type_error = tt;
}

pub healthy : IsHealthy redis
healthy = record {
  connected = λ c. refl;
  set_ok = λ k v c. refl;
  get_set = λ k k' v c. ground (arith, get-insert k k' v c);
  del_ok = λ k c. refl;
  get_del = λ k k' c. ground (arith, get-remove k k' c);
}

abbrev pub alice : ClientMetadata
alice = record {
  room_id = "room";
  participant_id = "p1";
  sfu_node_id = "n2";
  node_addr = "10.0.0.2";
}

-- Writes and reads the one client that joins.
abbrev pub json : Json
json = record {
  JsonError = Unit {0};
  to_string = λ m. if str_eq m.participant_id "p1" then ok "{p1}" else err tt;
  from_str = λ s. if str_eq s "{p1}" then ok alice else err tt;
}

alice-IsRoundTrip : IsRoundTrip json alice
alice-IsRoundTrip = record { text = "{p1}"; to_string_ok = refl; from_to = refl }

not_a_participant : str_eq (participant_key "p1") "socket" ≡ false
unfolding participant_key
not_a_participant = refl

not_other : str_eq (participant_key "p1") "other" ≡ false
unfolding participant_key
not_other = refl

inserted_client_found_example :
    ((insert_client redis json "socket" alice []).0 ≡ ok tt)
    × (get_client redis json "socket" (insert_client redis json "socket" alice []).1
        ≡ ok (some alice))
    × (get_by_participant_id redis json "p1" (insert_client redis json "socket" alice []).1
        ≡ ok (some alice))
    × (redis.get "other" (insert_client redis json "socket" alice []).1 ≡ redis.get "other" [])
inserted_client_found_example =
    inserted_client_found redis json healthy "socket" "other" alice alice-IsRoundTrip []
      not_a_participant refl not_other

abbrev pub cluster : Table String String
cluster = ("socket", "{p1}") ∷ ("participant_id:p1", "socket") ∷ []

pub alice_there : get_client redis json "socket" cluster ≡ ok (some alice)
unfolding get_client get decode
alice_there = refl

abbrev answer : {A : Type 0} → A → String → List String → Result (Unit {0}) A × List String
answer a addr w = (ok a, addr ∷ w)

abbrev room_is : Dispatcher.JoinRoomRequest → String → Bool
room_is req room = str_eq req.room_id room

abbrev pub grpc : Dispatcher.SfuGrpc
grpc = record {
  World = List String;
  Status = Unit {0};
  SubscribeResponse = Unit {0};
  StatusResponse = Unit {0};
  join_room = λ addr req w.
      if room_is req "full"
      then (err tt, addr ∷ w)
      else (ok (record { sdp = "answer"; is_recording = false }), addr ∷ w);
  subscribe = λ addr req w. answer tt addr w;
  set_subscriber_sdp = λ addr req w. answer tt addr w;
  publisher_renegotiation = λ addr req w. answer "answer" addr w;
  migrate_connection = λ addr req w. answer (some "answer") addr w;
  add_publisher_candidate = λ addr req w. answer tt addr w;
  add_subscriber_candidate = λ addr req w. answer tt addr w;
  leave_room = λ addr req w. answer ("p1", "room") addr w;
  set_video_enabled = λ addr req w. answer tt addr w;
  set_audio_enabled = λ addr req w. answer tt addr w;
  set_hand_raising = λ addr req w. answer tt addr w;
  set_screen_sharing = λ addr req w. answer tt addr w;
  set_camera_type = λ addr req w. answer tt addr w;
}

abbrev pub dispatcher : Table String String → Manager float redis json grpc
dispatcher c = record { nodes = nodes; group_id = "g"; cluster = c; world = []; sfu_port = "50051" }

abbrev join_of : String → Dispatcher.JoinRoomRequest
join_of room = record {
  client_id = "socket";
  participant_id = "p1";
  room_id = room;
  sdp = "offer";
  is_video_enabled = true;
  is_audio_enabled = true;
  is_e2ee_enabled = false;
  total_tracks = pos 2;
  connection_type = pos 0;
}

joined-IsRoundTrip :
    IsRoundTrip json (joined_metadata float redis json grpc (join_of "room") "n2" "10.0.0.2")
unfolding joined_metadata
joined-IsRoundTrip = alice-IsRoundTrip

routed_to_joined_node_example :
    ((Dispatcher.publisher_renegotiate float redis json grpc
        (record { client_id = "socket"; sdp = "offer" })
        (Dispatcher.join_room float redis json grpc (join_of "room") (dispatcher [])).1).1.world
      ≡ "10.0.0.2:50051" ∷ "10.0.0.2:50051" ∷ [])
    × ((Dispatcher.subscribe float redis json grpc
          (record {
            client_id = "other";
            target_id = "p1";
            participant_id = "p2";
            room_id = "room";
          })
          (Dispatcher.join_room float redis json grpc (join_of "room") (dispatcher [])).1).1.world
        ≡ "10.0.0.2:50051" ∷ "10.0.0.2:50051" ∷ [])
routed_to_joined_node_example =
    routed_to_joined_node float redis json grpc healthy (dispatcher []) (join_of "room") "n2"
      "offer" "other" "p2" "room" (node "10.0.0.2" 20)
      (record { sdp = "answer"; is_recording = false }) ("10.0.0.2:50051" ∷ []) chosen refl
      joined-IsRoundTrip not_a_participant

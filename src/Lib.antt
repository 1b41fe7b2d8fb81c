-- ===== src/Lib.antt =====
-- Verification library of waterbus-rs, a server for video conferences.
--
-- The program has four parts. A signalling server (signalling/) keeps the rooms and talks to the
-- clients. A dispatcher (crates/dispatcher) in it chooses the node for each client who joins, and
-- sends every later call of this client to the same node. A node (sfu/, crates/webrtc-manager)
-- holds the published tracks and forwards their packets: a track has one or more simulcast layers,
-- each subscriber has a forward track with a desired quality, and the desired quality and the
-- layers that are there decide which packets the subscriber is sent. The network of each
-- subscriber is assessed from its transport feedback, and caps the desired quality. The egress
-- (crates/egress-manager) writes the playlists of a stream that is watched over HTTP.
--
-- Which file models what (paths from the repository's root; `wm` is crates/webrtc-manager/src):
--   Base, Table, Heap     lists, results, tests of equality, maps (`DashMap`, `HashMap`) as
--                         association lists, and objects behind an `Arc` as cells of a heap
--   Quality               wm/models/quality.rs, connection_type.rs; `min` of two bytes is
--                         `min_quality`
--   Simulcast             `rebuild_acceptable_map` (wm/entities/track.rs), `_is_acceptable_track`
--                         (forward_track.rs), `get_actual_served_quality` (wm/services/
--                         track_monitor.rs), as functions of the rids of the remote tracks
--   Forward               wm/entities/forward_track.rs: `_receive_rtp` is `receive_loop`,
--                         `_process_batch` is `process_batch`
--   Multicast             wm/utils/multicast_sender.rs over a channel of crate crossbeam
--   Track                 wm/entities/track.rs
--   Monitor               wm/services/track_monitor.rs and media_monitor.rs
--   Network               `NetworkStats`, `process_twcc_feedback` and `monitor_rtcp` of
--                         wm/entities/subscriber.rs
--   Subscriber            the rest of wm/entities/subscriber.rs: its tracks, the requests of the
--                         client and the update loop, over a store of shared tracks
--   Webrtc                the peer connections of crate webrtc, as far as they are called
--   Action                methods that may fail, over a state, as a monad
--   Room                  wm/room.rs: the state, leaving and the changes of a media
--   Room/Connecting       the handlers of wm/room.rs that exchange descriptions
--   Room/Sharing          what the callbacks of `join_room` of wm/room.rs do with a track
--   Manager               wm/webrtc_manager.rs
--   Sfu                   sfu/src/application/sfu_grpc_service.rs
--   Sfu/Nodes             the nodes behind the gRPC client, crates/dispatcher/src/application/
--                         sfu_grpc_client.rs
--   Media                 wm/entities/media.rs
--   Dispatcher            crates/dispatcher/src/dispatcher_manager.rs over the gRPC client
--   Dispatcher/Nodes      the etcd modules of crates/dispatcher and of sfu
--   Dispatcher/Cache      crates/dispatcher/src/infrastructure/cache/cache_manager.rs
--   Signalling/Models     the rows, responses and errors of signalling/src/core
--   Signalling/Repositories  the traits of signalling/src/features/*/repository.rs
--   Signalling/Rooms, Chats  signalling/src/features/room/service.rs and chat/service.rs
--   Signalling/Users      signalling/src/features/user/service.rs and auth/service.rs
--   Signalling/Tables     the repositories over the tables of migrations/
--   Signalling/Events     signalling/src/core/types and core/dtos/socket: events, payloads
--   Signalling/Sockets    signalling/src/core/socket/mod.rs
--   Egress/Segments       crates/egress-manager/src/egress/utils/segment.rs and playlist.rs
--   Egress/Master         state.rs and cloud_master_playlist.rs of the same folder
--   Examples              concrete runs
--
-- State is passed on: an operation with `&self` takes the state and returns the new one. A task is
-- a function over the list of what it reads. Times (`Instant::now()`) and random ids are
-- arguments. Crates are parameters: the channel of crossbeam, the commands of redis, the texts of
-- serde_json, the floating-point numbers, the gRPC client, the VP9 depacketizer and the peer
-- connections of webrtc, bcrypt and the tokens. The database is lists of rows: the repositories
-- are what their queries of diesel say, with the foreign keys, unique indexes and triggers of
-- migrations/. A room service or chat service is written over the interface of the repositories,
-- and some theorems are about both together.
--
-- Bounds. `receive_loop` has fuel, of which the length of the queue is enough. All else is
-- structural recursion. `u64` and `u32` sums are taken modulo 2 ^ 64 and 2 ^ 32. The delay of a
-- feedback packet is a `Duration`, whose sum is not bounded here.
--
-- Not modelled: the settings of a peer connection, the callbacks that only pass a message on, the
-- HTTP routers of the signalling server, the authentication of its sockets, its tokens, the query
-- that lists the rooms of a user, the pipelines of the egress (GStreamer, MoQ, S3), the generated
-- messages, and logs.
mod Base
pub mod Table
pub mod Quality
pub mod Simulcast
pub mod Forward
pub mod Multicast
pub mod Heap
pub mod Errors
pub mod Track
pub mod Monitor
pub mod Network
pub mod Dispatcher
pub mod Media
pub mod Webrtc
pub mod Signalling
pub mod Action
pub mod Subscriber
pub mod Room
pub mod Manager
pub mod Sfu
pub mod Egress
mod Examples

-- ===== src/Signalling.antt =====
-- signalling/src: the rooms, chats and users of the signalling server and the handlers of its
-- sockets, without its HTTP routers.
pub mod Models
pub mod Repositories
pub mod Rooms
pub mod Tables
pub mod Chats
pub mod Events
pub mod Sockets
pub mod Users

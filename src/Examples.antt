-- ===== src/Examples.antt =====
-- Concrete runs of the model, and the theorems at concrete inputs.
mod Layers
mod Tracks
mod Watching
mod Adaptation
mod Cluster
mod Calls
mod Subscribing
mod Peers
mod Rooms
mod Exchange
mod Nodes
mod Server
mod Streams
mod Desk
mod Journey

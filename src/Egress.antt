-- ===== src/Egress.antt =====
-- crates/egress-manager/src/egress/utils: the segments of a stream, its playlist and the master
-- playlist, without GStreamer, which gives the samples, and without the files, of which only the names
-- are kept. Times are in nanoseconds.
pub mod Segments
pub mod Master

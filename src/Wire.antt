-- ===== src/Wire.antt =====
-- protocols/rttx-proto: the messages between the daemon and its clients. The types that `prost-build`
-- generates are those of proto/rttx-v3.proto; an `i32` enumeration field is the number on the wire.
pub mod Uuids
pub mod Tree
pub mod Handshake
pub mod Scrollback
pub mod Sizes
pub mod Input
pub mod Errors
pub mod Messages

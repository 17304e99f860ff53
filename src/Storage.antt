-- ===== src/Storage.antt =====
-- The storage server.
pub mod Examples
pub mod Iterator
pub mod Log
pub mod Position
pub mod Server
pub mod Slots
pub mod Publish

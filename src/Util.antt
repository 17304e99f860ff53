-- ===== src/Util.antt =====
-- src/util.
pub mod Address
pub mod Align
pub mod Bits
pub mod Concurrent
pub mod Examples

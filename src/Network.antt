-- ===== src/Network.antt =====
-- src/network: the queues on which messages are written to the memory of their receiver, and the
-- handshake that sets them up.
pub mod Examples
pub mod RecvQueue
pub mod Ring
pub mod SendQueue
pub mod Transfer
pub mod Handshake
pub mod Memory

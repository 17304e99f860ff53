-- ===== src/Subscriber.antt =====
-- src/subscriber: the log of a subscriber and its threads.
pub mod Examples
pub mod Iterator
pub mod Log
pub mod Recycling
pub mod Poll
pub mod Control

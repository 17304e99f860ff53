-- ===== src/Network/Memory/Attempts.antt =====
-- The queues of `accept` and `connect` of src/network/manager.cpp, from the moment when the socket is
-- connected: how many there are, their receive buffers, and what is left of them when the exchange
-- over the socket fails. The memory of a page and that of the buffers is taken to be granted.
pub mod Laws
use zip_log_ae.Network.Handshake.{QueueInfo, Connection, agree, deserialize}
use zip_log_ae.Network.Memory.{Handle, Pools, Region, create_receive_buffer}
use zip_log_ae.Network.Memory.Objects.{QueuePair, Holders}
use zip_log_ae.Base.{
  ℕ, zero, suc, Bool, true, false, Option, none, some, List, [], ◌∷◌, ◌++◌, ◌+◌, if◌then◌else◌,
}

-- Where the exchange fails: before the queues are created, after that, or not at all, with the
-- bytes that have come.
pub data Exchange : Type 0 where
  no_counts : Exchange
  fails : ℕ → Exchange
  succeeds : ℕ → List ℕ → Exchange

-- What the device answers: whether it creates the queues of the round `i` (`create_queues`), brings
-- a queue to its states for the queue of the peer (`ibv_modify_qp`), and destroys the queues
-- (`ibv_destroy_qp`, `ibv_destroy_cq`). The program aborts when one of these calls fails.
pub record Device : Type 0 where
  pub creates : ℕ → Bool
  pub activates : ℕ → QueueInfo → Bool
  pub destroys : Bool

-- The loop that creates the queues, from `i` on.
unfoldable pub create_rooms :
    Device → (ℕ → Region) → ℕ → ℕ → Pools → Option (Pools × List (ℕ × Handle))
create_rooms d page i zero m = some (m, [])
create_rooms d page i (suc n) m = elim (d.creates i) [
  | false ↦ none
  | true ↦ elim (create_receive_buffer page m) [
    | none ↦ none
    | some (m, room) ↦ elim (create_rooms d page (i + 1) n m) [
      | none ↦ none
      | some (m, rooms) ↦ some (m, room ∷ rooms)
    ]
  ]
]

-- The send queue objects for the queues of the peer, which are activated: `none` when it has told
-- too few.
unfoldable pub pairs_of : Device → ℕ → List (ℕ × Handle) → List QueueInfo → Option (List QueuePair)
pairs_of d i [] infos = some []
pairs_of d i (room ∷ rooms) [] = none
pairs_of d i ((index, handle) ∷ rooms) (info ∷ infos) = elim (d.activates i info) [
  | false ↦ none
  | true ↦ elim (pairs_of d (i + 1) rooms infos) [
    | none ↦ none
    | some qs ↦ some (record { index = index; handle = handle; remote_index = info.index } ∷ qs)
  ]
]

-- The bytes must be those of a connection, as `deserialize_connection` asserts.
abbrev pub join :
    Device
    → Holders
    → Option Connection
    → Option (Pools × List (ℕ × Handle))
    → Option (Holders × Bool)
join d s c none = none
join d s none (some (m, rooms)) = none
join d s (some c) (some (m, rooms)) = elim (pairs_of d 0 rooms c.queue_infos) [
  | none ↦ none
  | some qs ↦ some (record s { pools = m; queue_pairs = s.queue_pairs ++ qs }, true)
]

-- `free_queues` destroys the queues only.
abbrev pub give_up : Device → Holders → Option (Pools × List (ℕ × Handle)) → Option (Holders × Bool)
give_up d s none = none
give_up d s (some (m, rooms)) = if d.destroys then some (record s { pools = m }, false) else none

-- One call of `accept` or `connect`, with the number of queues that it asks for, and whether it
-- yields a connection; `none` is a failing assertion or an access out of
-- bounds.
unfoldable pub attempt : Device → (ℕ → Region) → ℕ → Holders → Exchange → Option (Holders × Bool)
unfolding deserialize
attempt d page mine s no_counts = some (s, false)
attempt d page mine s (fails other) = give_up d s (create_rooms d page 0 (agree mine other) s.pools)
attempt d page mine s (succeeds other bytes) =
    join d s (deserialize bytes) (create_rooms d page 0 (agree mine other) s.pools)

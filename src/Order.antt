-- ===== src/Order.antt =====
-- src/order/order.h and src/order/order.cpp: the state of the ordering server, the methods that
-- add servers, clients and subscribers, and the handlers of its loop. A method or a handler holds
-- the lock of the server; its result is the state after it and the messages it sends.
-- The addresses and send queues of a shard's replicas are one map, by the replica.
pub mod Changes
pub mod Epoch
pub mod Events
pub mod Examples
pub mod Failed
pub mod Handlers
pub mod Invariant
use zip_log_ae.Base.{
  ℕ, ◌+◌, Bool, true, false, not, ◌&&◌, ◌||◌, Option, none, some, List, [], ◌∷◌, ◌++◌, map,
  if◌then◌else◌, ltb, leb, ◌==◌, is_none, u64_max, length, find, assign, erase,
}
use zip_log_ae.Storage.Slots.{StorageSlots}
use zip_log_ae.Storage.Log.{Bytes}
use zip_log_ae.Storage.Server.{max_clients}

-- `zip::consts::NUM_SHARDS`, `MAX_REPLICAS`
abbrev pub num_shards : ℕ
num_shards = 1

abbrev pub max_replicas : ℕ
max_replicas = 10

-- `std::unordered_set<uint64_t>`
abbrev pub Keys : Type 0
Keys = List (ℕ × Unit {0})

-- A message that is kept for the storage servers, `zip::api::storage_client_patch`.
pub record Patch : Type 0 where
  pub data_length : ℕ
  pub bytes : Bytes

-- `order::client_state`, less the send queue.
pub record Client : Type 0 where
  pub shard_id : ℕ
  pub num_slots : ℕ
  pub failed : Bool
  pub requested : Bool
  pub cuts : List (ℕ × ℕ)
  pub flushed : Keys
  pub patches : List (ℕ × Patch)

abbrev pub new_client : ℕ → ℕ → Client
new_client shard_id num_slots = record {
  shard_id = shard_id;
  num_slots = num_slots;
  failed = false;
  requested = false;
  cuts = [];
  flushed = [];
  patches = [];
}

-- The class `order`, with the set of suspicious clients and the heartbeat of its loop.
pub record Order : Type 0 where
  pub gsn_base : ℕ
  pub replicas : ℕ → List (ℕ × ℕ)
  pub clients : List (ℕ × Client)
  pub subscribers : Keys
  pub suspicious : Keys
  pub heartbeat_id : ℕ

unfoldable pub new_order : Order
new_order = record {
  gsn_base = 0;
  replicas = λ _. [];
  clients = [];
  subscribers = [];
  suspicious = [];
  heartbeat_id = 0;
}

-- What the server sends to clients, subscribers, and a replica of a shard.
pub data Sent : Type 0 where
  client_storage_info : (client_id : ℕ) → (addresses : List ℕ) → Sent
  client_new_epoch : (client_id num_slots : ℕ) → Sent
  client_heartbeat : (client_id id : ℕ) → Sent
  client_order_finished : (client_id : ℕ) → Sent
  subscriber_storage_info : (subscriber_id : ℕ) → (addresses : List ℕ) → Sent
  subscriber_order_finished : (subscriber_id : ℕ) → Sent
  storage_client_freeze : (shard_id replica_id client_id : ℕ) → Sent
  storage_client_cut : (shard_id replica_id client_id begin_gsn : ℕ) → Sent
  storage_client_patch : (shard_id replica_id client_id gsn : ℕ) → Patch → Sent
  storage_client_finalize : (shard_id replica_id client_id : ℕ) → Sent
  storage_slots : (shard_id replica_id : ℕ) → StorageSlots → Sent

abbrev pub Step : Type 0
Step = Order × List Sent

abbrev pub has_key {ℓ} : {A : Type ℓ} → ℕ → List (ℕ × A) → Bool
has_key k xs = not (is_none (find k xs))

abbrev pub addresses : List (ℕ × ℕ) → List ℕ
addresses = map (λ r. r.1)

-- A message to every replica of a shard.
abbrev pub to_replicas : List (ℕ × ℕ) → (ℕ → Sent) → List Sent
to_replicas replicas message = map (λ r. message r.0) replicas

abbrev pub set_client : Order → ℕ → Client → Order
set_client o client_id c = record o { clients = assign client_id c o.clients }

-- `order::add_storage`; `none` is the assertion that neither clients nor subscribers are there.
unfoldable pub add_storage : Order → ℕ → ℕ → ℕ → Option Order
add_storage o shard_id replica_id address =
    if leb num_shards shard_id
      || leb max_replicas replica_id
      || has_key replica_id (o.replicas shard_id)
    then some o
    else if (length o.clients == 0) && (length o.subscribers == 0)
    then some (record o {
      replicas = λ s.
          if s == shard_id then assign replica_id address (o.replicas shard_id) else o.replicas s;
    })
    else none

-- `order::add_client`
unfoldable pub add_client : Order → ℕ → ℕ → ℕ → Step
add_client o client_id shard_id num_slots =
    if leb num_shards shard_id
      || leb max_clients client_id
      || has_key client_id o.clients
      || leb max_clients (length o.clients)
    then (o, [])
    else (
      set_client o client_id (new_client shard_id num_slots),
      client_storage_info client_id (addresses (o.replicas shard_id)) ∷ [],
    )

-- `order::add_subscriber`; there is one shard.
unfoldable pub add_subscriber : Order → ℕ → Step
add_subscriber o subscriber_id = if has_key subscriber_id o.subscribers then (o, []) else (
  record o { subscribers = assign subscriber_id tt o.subscribers },
  subscriber_storage_info subscriber_id (addresses (o.replicas 0)) ∷ [],
)

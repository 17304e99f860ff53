-- ===== src/Storage/Server.antt =====
-- src/storage/storage.h and src/storage/storage.cpp: the state of a storage server and the handlers
-- of its control and client threads. A handler holds the lock of the one client that it is about.
-- The map of the clients gives every client its state, new ones in the state of a new object.
pub mod Events
pub mod Frozen
pub mod Invariant
pub mod Runs
use zip_log_ae.Base.{
  ℕ, ◌+◌, ◌<◌, Bool, true, false, not, ◌&&◌, ◌||◌, Option, none, some, List, [], ◌∷◌, ◌++◌, map,
  if◌then◌else◌, ltb, leb, ◌==◌, u64_max, take,
}
use zip_log_ae.Storage.Slots.{StorageSlots}
use zip_log_ae.Storage.Log.{Log, Entry, Bytes, Data, inline, pointer, add_entries, new_log, update}
use zip_log_ae.Storage.Position.{Position, Stored, insert, suffix, close}

-- `zip::consts::MAX_CLIENTS`, `NUM_SHARDS`
abbrev pub max_clients : ℕ
max_clients = 126

-- `storage::client_state`, less the lock, the condition variable and the send queue.
pub record ClientState : Type 0 where
  pub connected : Bool
  pub disconnected : Bool
  pub position : Position
  pub latest_gsn : ℕ

abbrev pub new_client_state : ℕ → ClientState
new_client_state client_id = record {
  connected = false;
  disconnected = false;
  position = record { client_id = client_id; current_entry = none };
  latest_gsn = u64_max;
}

pub record Server : Type 0 where
  pub shard_id : ℕ
  pub replica_id : ℕ
  pub log : Log
  pub clients : ℕ → ClientState

-- The constructor of the class `storage`, less the threads and the connections.
unfoldable pub new_server : ℕ → ℕ → Server
new_server shard_id replica_id = record {
  shard_id = shard_id;
  replica_id = replica_id;
  log = new_log;
  clients = new_client_state;
}

-- What the handlers send to the ordering server and to clients.
pub data Message : Type 0 where
  order_client_freeze : (client_id : ℕ) → Message
  order_client_cut : (client_id shard_id replica_id latest_gsn : ℕ) → Message
  order_client_data : (client_id shard_id replica_id gsn data_length : ℕ) → Bytes → Message
  client_insert_ack : (client_id replica_id gsn : ℕ) → Message
  storage_finished : (client_id shard_id replica_id : ℕ) → Message

-- A handler ends, or waits until its client is connected, or stops the server at a `ZIP_ASSERT`.
pub data Outcome : Type 0 where
  done : Server → List Message → Outcome
  waits : Outcome
  aborts : Outcome

abbrev pub set_client : Server → ℕ → ClientState → Server
set_client s client_id c = record s { clients = update s.clients client_id c }

-- `state.cv.wait(lock, ...)`
abbrev pub when_connected : ClientState → Outcome → Outcome
when_connected c next = if c.connected then next else waits

-- `storage::add_client`
unfoldable pub add_client : Server → ℕ → Server
add_client s client_id =
    let c = s.clients client_id in
    if leb max_clients client_id || c.connected
    then s
    else set_client s client_id (record c { connected = true })

-- The copy of an entry's data into a message.
unfoldable pub copy_data : Data → ℕ → Bytes
copy_data (pointer bytes) data_length = take data_length bytes
copy_data (inline bytes) data_length = take data_length bytes

module _ (s : Server) where
  unfoldable pub on_storage_slots : StorageSlots → Outcome
  on_storage_slots slots = elim slots.assignments [
    | [] ↦ done s []
    | a ∷ rest ↦ done (record s { log = add_entries s.log slots }) []
  ]

  -- `client_intro` out of the failure queue
  unfoldable pub on_failure : ℕ → Outcome
  on_failure client_id =
      let c = s.clients client_id in
      when_connected c (
        done (set_client s client_id (record c { disconnected = true }))
          (order_client_freeze client_id ∷ []))

  unfoldable pub on_client_freeze : ℕ → Outcome
  on_client_freeze client_id =
      let c = s.clients client_id in
      when_connected c (
        done (set_client s client_id (record c { disconnected = true }))
          (order_client_cut client_id s.shard_id s.replica_id c.latest_gsn ∷ []))

  -- The entries with data, each in a message.
  unfoldable pub data_messages : List Entry → List Message
  unfolding copy_data
  data_messages [] = []
  data_messages (e ∷ es) =
      let rest = data_messages es in
      if ltb 0 e.data_length
      then order_client_data e.client_id s.shard_id s.replica_id e.gsn e.data_length
          (copy_data e.payload e.data_length)
        ∷ rest
      else rest

  unfoldable pub on_client_cut : ℕ → ℕ → Outcome
  unfolding data_messages
  on_client_cut client_id begin_gsn =
      let c = s.clients client_id in
      let entries = if c.latest_gsn == u64_max then [] else suffix s.log c.position begin_gsn in
      done s (
        data_messages entries
        ++ order_client_data client_id s.shard_id s.replica_id u64_max 0 [] ∷ [])

  -- The part of `storage_client_patch` behind the call of `insert`.
  abbrev pub patched : ℕ → ClientState → Option Stored → Outcome
  patched client_id c none = aborts
  patched client_id c (some r) =
      done
        (record s {
          log = r.log;
          clients = update s.clients client_id (record c { position = r.position });
        })
        []

  unfoldable pub on_client_patch : ℕ → ℕ → Bytes → ℕ → Outcome
  on_client_patch client_id gsn buffer data_length =
      let c = s.clients client_id in
      if ltb c.latest_gsn gsn
      then patched client_id c (insert s.log c.position buffer data_length gsn)
      else done s []

  unfoldable pub on_client_finalize : ℕ → Outcome
  on_client_finalize client_id =
      let c = s.clients client_id in
      let r = close s.log c.position in
      done
        (record s { log = r.0; clients = update s.clients client_id (record c { position = r.1 }) })
        []

  -- The part of `storage_insert` behind the call of `insert`.
  abbrev pub inserted : ℕ → ClientState → Option Stored → Outcome
  inserted client_id c none = aborts
  inserted client_id c (some r) =
      done
        (record s {
          log = r.log;
          clients =
              update s.clients client_id (record c { position = r.position; latest_gsn = r.gsn });
        })
        (client_insert_ack client_id s.replica_id r.gsn ∷ [])

  unfoldable pub on_storage_insert : ℕ → ℕ → Bytes → ℕ → Outcome
  on_storage_insert client_id num_slots buffer data_length =
      let c = s.clients client_id in
      when_connected c (
        if c.disconnected
        then done s []
        else inserted client_id c (insert s.log c.position buffer data_length num_slots))

  unfoldable pub on_client_finished : ℕ → Outcome
  on_client_finished client_id =
      let c = s.clients client_id in
      when_connected c (
        if c.disconnected
        then done s []
        else done (set_client s client_id (record c { disconnected = true }))
            (storage_finished client_id s.shard_id s.replica_id ∷ []))

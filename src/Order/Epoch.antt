-- ===== src/Order/Epoch.antt =====
-- The timers of `order::loop` in src/order/order.cpp: the heartbeat and the next epoch.
pub mod Contiguous
pub mod Sorted
use zip_log_ae.Base.{
  ℕ, ◌+◌, ◌%◌, ◌^◌, Bool, not, ◌&&◌, ◌||◌, List, [], ◌∷◌, ◌++◌, map, if◌then◌else◌, ltb, ◌==◌,
  u64_max, add64,
}
use zip_log_ae.Storage.Slots.{StorageSlots, Assignment}
use zip_log_ae.Order.{
  Order, Client, Sent, Step, has_key, to_replicas, client_heartbeat, client_new_epoch,
  storage_slots, num_shards,
}

-- The heartbeats, to every client that is not suspicious.
unfoldable pub heartbeats : Order → List (ℕ × Client) → List Sent
heartbeats o [] = []
heartbeats o ((client_id, _) ∷ rest) =
    let others = heartbeats o rest in
    if has_key client_id o.suspicious
    then others
    else client_heartbeat client_id o.heartbeat_id ∷ others

unfoldable pub heartbeat : Order → Step
unfolding heartbeats
heartbeat o = (record o { heartbeat_id = add64 o.heartbeat_id 1 }, heartbeats o o.clients)

-- `std::tuple<unsigned long, uint64_t, uint64_t>`
pub record Slot : Type 0 where
  pub num_slots : ℕ
  pub shard_id : ℕ
  pub client_id : ℕ

-- The slots of the clients that are active.
unfoldable pub active_slots : List (ℕ × Client) → List Slot
active_slots [] = []
active_slots ((client_id, c) ∷ rest) =
    let others = active_slots rest in
    if c.failed
    then others
    else record { num_slots = c.num_slots; shard_id = c.shard_id; client_id = client_id } ∷ others

unfoldable pub sum_slots : List Slot → ℕ
sum_slots [] = 0
sum_slots (s ∷ rest) = add64 s.num_slots (sum_slots rest)

-- `std::greater` on the tuples.
abbrev pub is_greater : Slot → Slot → Bool
is_greater a b =
    ltb b.num_slots a.num_slots
    || (a.num_slots == b.num_slots)
      && (ltb b.shard_id a.shard_id || (a.shard_id == b.shard_id) && ltb b.client_id a.client_id)

unfoldable pub insert_slot : Slot → List Slot → List Slot
insert_slot a [] = a ∷ []
insert_slot a (b ∷ rest) =
    let others = insert_slot a rest in if is_greater a b then a ∷ b ∷ rest else b ∷ others

-- `std::sort` in the descending order; the tuples are distinct.
unfoldable pub sort_slots : List Slot → List Slot
unfolding insert_slot
sort_slots [] = []
sort_slots (a ∷ rest) = insert_slot a (sort_slots rest)

abbrev pub assignment : ℕ → Slot → Assignment
assignment sid s = record {
  client_id = if s.shard_id == sid then s.client_id else u64_max;
  num_slots = s.num_slots;
}

-- The message to the replicas of a shard.
unfoldable pub shard_message : Order → ℕ → StorageSlots
unfolding active_slots sort_slots
shard_message o sid = record {
  start_gsn = o.gsn_base;
  assignments = map (assignment sid) (sort_slots (active_slots o.clients));
}

abbrev pub new_epochs : List Slot → List Sent
new_epochs = map (λ s. client_new_epoch s.client_id s.num_slots)

-- The next epoch; there is one shard.
unfoldable pub epoch : Order → Step
unfolding shard_message sum_slots active_slots
epoch o =
    let slots = active_slots o.clients in
    let message = shard_message o 0 in
    (
      record o { gsn_base = add64 o.gsn_base (sum_slots slots) },
      new_epochs slots ++ to_replicas (o.replicas 0) (λ r. storage_slots 0 r message),
    )

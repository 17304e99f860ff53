-- ===== src/Order/Events.antt =====
-- The steps of the ordering server, those of src/order/order.cpp under the server's lock, and the
-- sequences of them.
use zip_log_ae.Base.{ℕ, ◌<◌, ◌^◌, ◌≡◌, Option, none, some, List, []}
use zip_log_ae.Order.{Order, Patch, Sent, Step, add_storage, add_client, add_subscriber}
use zip_log_ae.Order.Handlers.{
  on_client_freeze, on_client_rate, on_client_finished, on_subscriber_finished, on_client_cut,
  on_client_data,
}
use zip_log_ae.Order.Epoch.{heartbeat, epoch}

pub data Event : Type 0 where
  connect_storage : (shard_id replica_id address : ℕ) → Event
  connect_client : (client_id shard_id num_slots : ℕ) → Event
  connect_subscriber : (subscriber_id : ℕ) → Event
  freeze : (client_id : ℕ) → Event
  rate : (client_id num_slots : ℕ) → Event
  client_finished : (client_id : ℕ) → Event
  subscriber_finished : (subscriber_id : ℕ) → Event
  cut : (client_id shard_id replica_id latest_gsn : ℕ) → Event
  client_data : (client_id shard_id replica_id gsn : ℕ) → Patch → Event
  beat : Event
  next_epoch : Event

abbrev pub added : Option Order → Option Step
added none = none
added (some o) = some (o, [])

-- `none` is a failing assertion.
unfoldable pub handle : Order → Event → Option Step
unfolding add_storage add_client add_subscriber on_client_freeze on_client_rate on_client_finished
    on_subscriber_finished on_client_cut on_client_data heartbeat epoch
handle o (connect_storage shard_id replica_id address) =
    added (add_storage o shard_id replica_id address)
handle o (connect_client client_id shard_id num_slots) =
    some (add_client o client_id shard_id num_slots)
handle o (connect_subscriber subscriber_id) = some (add_subscriber o subscriber_id)
handle o (freeze client_id) = some (on_client_freeze o client_id)
handle o (rate client_id num_slots) = some (on_client_rate o client_id num_slots)
handle o (client_finished client_id) = some (on_client_finished o client_id)
handle o (subscriber_finished subscriber_id) = some (on_subscriber_finished o subscriber_id)
handle o (cut client_id shard_id replica_id latest_gsn) =
    some (on_client_cut o client_id shard_id replica_id latest_gsn)
handle o (client_data client_id shard_id replica_id gsn p) =
    some (on_client_data o client_id shard_id replica_id gsn p)
handle o beat = some (heartbeat o)
handle o next_epoch = some (epoch o)

-- The numbers of slots that clients ask for do not come near the size of a word.
abbrev pub IsValid : Event → Type 0
IsValid (connect_client client_id shard_id num_slots) = num_slots < 2 ^ 63
IsValid (rate client_id num_slots) = num_slots < 2 ^ 62
IsValid _ = Unit

-- Sequences of steps whose events are all in `V`.
pub data Reaches (V : Event → Type 0) : Order → Order → Type 0 where
  stop : (o : Order) → Reaches V o o
  step :
      (o p q : Order) (e : Event) (ms : List Sent)
      → V e
      → handle o e ≡ some (p, ms)
      → Reaches V p q
      → Reaches V o q

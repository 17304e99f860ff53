-- ===== src/Subscriber/Control.antt =====
-- The thread `control` of src/subscriber/subscriber.cpp: the connections with the storage servers and
-- the end of the thread. A map to send queues is a map to how many there are.
mod Ending
mod Connect
mod Ended
mod Reach
mod Taken
mod Waits
pub mod Examples
use zip_log_ae.Base.{
  ℕ, zero, suc, ◌+◌, Bool, true, false, Option, none, some, not, ◌&&◌, ◌||◌, is_none, List, [], ◌∷◌,
  ◌++◌, if◌then◌else◌, ltb, leb, ◌==◌, add64, find, assign, erase,
}
use zip_log_ae.Storage.Log.{update}
use zip_log_ae.Order.{num_shards}
use zip_log_ae.Subscriber.Log.{Log, recycle_blocks}

-- `storage_intro`, and whether its length and its type are right.
pub record Intro : Type 0 where
  pub is_valid : Bool
  pub shard_id : ℕ
  pub replica_id : ℕ
  pub num_queues : ℕ

pub record Control : Type 0 where
  pub log : Log
  pub storage_queues : ℕ → List (ℕ × ℕ)
  pub storage_finished : ℕ → List (ℕ × ℕ)
  pub order_finished : Bool
  pub stopped : Bool
  pub process : Bool
  pub end : Bool

abbrev pub new_control : Log → Control
new_control l = record {
  log = l;
  storage_queues = λ _. [];
  storage_finished = λ _. [];
  order_finished = false;
  stopped = false;
  process = true;
  end = false;
}

-- The servers that are told of the end, in the order in which they are told.
pub data Sent : Type 0 where
  to_order : Sent
  to_storage : ℕ → ℕ → Sent

abbrev pub to_replicas : ℕ → List (ℕ × ℕ) → List Sent
to_replicas sid [] = []
to_replicas sid ((rid, n) ∷ queues) = to_storage sid rid ∷ to_replicas sid queues

abbrev pub to_shards : (ℕ → List (ℕ × ℕ)) → ℕ → ℕ → List Sent
to_shards queues zero sid = []
to_shards queues (suc n) sid = to_replicas sid (queues sid) ++ to_shards queues n (sid + 1)

-- The head of the loop, for the value of `stop_`.
unfoldable pub begin_round : Bool → Control → Control × List Sent
begin_round stop c = (
  record c { log = recycle_blocks c.log; stopped = c.stopped || stop },
  if not c.stopped && stop then to_order ∷ to_shards c.storage_queues num_shards 0 else [],
)

-- One address of `subscriber_storage_info`: `none` when the server cannot be connected.
unfoldable pub connect_storage : Control → Option Intro → Control
connect_storage c none = c
connect_storage c (some intro) =
    if not intro.is_valid
      || (leb num_shards intro.shard_id
          || not (is_none (find intro.replica_id (c.storage_queues intro.shard_id))))
    then c
    else record c {
      storage_queues =
          update c.storage_queues intro.shard_id
            (assign intro.replica_id intro.num_queues (c.storage_queues intro.shard_id));
    }

unfoldable pub on_storage_info : Control → List (Option Intro) → Control
on_storage_info c [] = c
on_storage_info c (intro ∷ intros) = on_storage_info (connect_storage c intro) intros

abbrev pub is_empty : List (ℕ × ℕ) → Bool
is_empty [] = true
is_empty (q ∷ qs) = false

-- `std::all_of` with `pred`, for the shards from `sid` on.
abbrev pub all_empty : (ℕ → List (ℕ × ℕ)) → ℕ → ℕ → Bool
all_empty queues zero sid = true
all_empty queues (suc n) sid = is_empty (queues sid) && all_empty queues n (sid + 1)

-- The end of both handlers, once `order_finished` holds.
abbrev pub check_end : Control → Control
check_end c =
    if c.order_finished && all_empty c.storage_queues num_shards 0
    then record c { process = false; end = true }
    else c

-- `order_finished`: `none` when the assertion fails.
unfoldable pub on_order_finished : Control → Option Control
on_order_finished c =
    if c.order_finished then none else some (check_end (record c { order_finished = true }))

abbrev pub count_of : Option ℕ → ℕ
count_of none = 0
count_of (some n) = n

-- One more finished message of a replica, and whether it was the last one.
unfoldable pub count_finished : Control → ℕ → ℕ → ℕ → Control
count_finished c sid rid n =
    let count = add64 (count_of (find rid (c.storage_finished sid))) 1 in
    if count == n
    then record c {
      storage_finished =
          update c.storage_finished sid (erase rid (assign rid count (c.storage_finished sid)));
      storage_queues = update c.storage_queues sid (erase rid (c.storage_queues sid));
    }
    else record c {
      storage_finished = update c.storage_finished sid (assign rid count (c.storage_finished sid));
    }

abbrev pub finish_replica : Control → ℕ → ℕ → Option ℕ → Control
finish_replica c sid rid none = c
finish_replica c sid rid (some n) = check_end (count_finished c sid rid n)

-- `storage_finished`
unfoldable pub on_storage_finished : Control → ℕ → ℕ → Control
on_storage_finished c sid rid =
    if leb num_shards sid then c else finish_replica c sid rid (find rid (c.storage_queues sid))

pub data Event : Type 0 where
  storage_info : List (Option Intro) → Event
  order_bye : Event
  storage_bye : ℕ → ℕ → Event

unfoldable pub handle : Control → Event → Option Control
handle c (storage_info intros) = some (on_storage_info c intros)
handle c order_bye = on_order_finished c
handle c (storage_bye sid rid) = some (on_storage_finished c sid rid)

-- The messages that one call of `recv_apply` receives.
abbrev pub then_all : (Control → Option Control) → Option Control → Option Control
then_all rest none = none
then_all rest (some c) = rest c

unfoldable pub handle_all : Control → List Event → Option Control
handle_all c [] = some c
handle_all c (e ∷ es) = then_all (λ d. handle_all d es) (handle c e)

-- A round, for the value of `stop_` and the messages that it receives, and the loop `while (!end)`.
unfoldable pub round : Control → Bool → List Event → Option Control × List Sent
round c stop es = let (c', sent) = begin_round stop c in (handle_all c' es, sent)

abbrev pub next_round : (Control → Option Control) → Option Control → Option Control
next_round rest none = none
next_round rest (some c) = if c.end then some c else rest c

unfoldable pub loop : Control → List (Bool × List Event) → Option Control
loop c [] = some c
loop c ((stop, es) ∷ rounds) = next_round (λ d. loop d rounds) (round c stop es).0

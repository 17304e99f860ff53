-- ===== src/Subscriber/Poll.antt =====
-- The thread `poll` of src/subscriber/subscriber.cpp: the handler of a copy of a log entry. The maps
-- with unspecified order are association lists.
pub mod Examples
mod Quorum
mod Ends
mod Pending
mod Runs
mod Ascending
mod Steps
pub mod Delivery
use zip_log_ae.Base.{
  ℕ, Option, none, some, Bool, not, ◌&&◌, List, [], ◌∷◌, ◌++◌, if◌then◌else◌, ltb, leb, ◌==◌,
  u64_max, add64, find, assign, erase,
}
use zip_log_ae.Storage.Log.{update}
use zip_log_ae.Subscriber.Log.{LogEntry, Log, Position, new_position, insert}
use zip_log_ae.Order.{num_shards}

-- `subscriber_log_entry` with the members that `poll` reads. In the copy that it keeps, the member
-- `replica_id` of the entry is the union's `num_acks`.
pub record Message : Type 0 where
  pub entry : LogEntry
  pub thread_id : ℕ
  pub data_length : ℕ

abbrev pub gsn_of : Message → ℕ
gsn_of m = m.entry.gsn

abbrev pub num_acks : Message → ℕ
num_acks m = m.entry.replica_id

abbrev pub set_acks : Message → ℕ → Message
set_acks m n = record m { entry = record m.entry { replica_id = n } }

-- The latest GSN and the position of a thread of a shard.
pub record Latest : Type 0 where
  pub gsn : ℕ
  pub position : Position

pub record Poll : Type 0 where
  pub current_requests : List (ℕ × Message)
  pub shard_info : ℕ → List (ℕ × Latest)
  pub log : Log

abbrev pub new_poll : Log → Poll
new_poll l = record { current_requests = []; shard_info = λ _. []; log = l }

abbrev pub or_new : Option Latest → Latest
or_new none = record { gsn = u64_max; position = new_position }
or_new (some info) = info

abbrev pub info_of : Poll → Message → Latest
info_of p m = or_new (find m.thread_id (p.shard_info m.entry.shard_id))

unfoldable pub set_info : Poll → Message → Latest → Poll
set_info p m info = record p {
  shard_info =
      update p.shard_info m.entry.shard_id
        (assign m.thread_id info (p.shard_info m.entry.shard_id));
}

-- Whether a copy agrees with the one that is kept.
abbrev pub is_same : Message → Message → Bool
is_same e m =
    e.entry.shard_id == m.entry.shard_id
    && (e.entry.client_id == m.entry.client_id
        && (e.thread_id == m.thread_id && e.data_length == m.data_length))

-- The state afterwards, and the entries that were inserted into the log. `none` while the insertion
-- waits for a block, and for a shard that the array does not have.
abbrev pub Result : Type 0
Result = Option (Poll × List Message)

abbrev pub deliver_entry : Poll → Message → Message → Option (Log × Position) → Result
deliver_entry p m e none = none
deliver_entry p m e (some (l, position)) = some (
  set_info (record p { log = l; current_requests = erase (gsn_of m) p.current_requests }) m
      (record { gsn = gsn_of m; position = position }),
  e ∷ [],
)

-- `++entry->num_acks > failures_`, for the entry that is kept.
unfoldable pub count_copy : ℕ → Poll → Message → Message → Result
count_copy failures p m e =
    let counted = set_acks e (add64 (num_acks e) 1) in
    let q = record p { current_requests = assign (gsn_of m) counted p.current_requests } in
    if ltb failures (num_acks counted)
    then deliver_entry q m counted (insert q.log (info_of p m).position counted.entry)
    else some (q, [])

-- The first copy is kept; a later one is compared with it.
unfoldable pub keep_copy : ℕ → Poll → Message → Option Message → Result
keep_copy failures p m none = count_copy failures p m (set_acks m 0)
keep_copy failures p m (some e) = if is_same e m then count_copy failures p m e else some (p, [])

-- The entry of this GSN, or a later one of the thread, has been delivered.
abbrev pub is_old : ℕ → Message → Bool
is_old latest m = not (latest == u64_max) && leb (gsn_of m) latest

-- The handler of `subscriber_log_entry` in `subscriber::poll`.
unfoldable pub on_log_entry : ℕ → Poll → Message → Result
on_log_entry failures p m =
    let info = info_of p m in
    let q = set_info p m info in
    if leb num_shards m.entry.shard_id
    then none
    else if is_old info.gsn m
    then some (q, [])
    else keep_copy failures q m (find (gsn_of m) q.current_requests)

abbrev pub add_delivered : List Message → Result → Result
add_delivered ds none = none
add_delivered ds (some (q, es)) = some (q, ds ++ es)

abbrev pub run_rest : (Poll → Result) → Result → Result
run_rest rest none = none
run_rest rest (some (q, ds)) = add_delivered ds (rest q)

-- The packets of the receive queue, one after the other.
unfoldable pub run : ℕ → Poll → List Message → Result
run failures p [] = some (p, [])
run failures p (m ∷ ms) = run_rest (λ q. run failures q ms) (on_log_entry failures p m)

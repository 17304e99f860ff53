-- ===== src/Storage/Publish.antt =====
-- The thread `subscriber` of src/storage/storage.cpp, which sends the entries of the log to the
-- subscribers, and the subscribers of the server. The queues of a subscriber are their number.
pub mod Examples
mod Queues
mod Streams
use zip_log_ae.Base.{
  ℕ, ◌+◌, ◌%◌, Bool, true, false, not, Option, none, some, is_none, List, [], ◌∷◌, ◌++◌,
  if◌then◌else◌, ltb, ◌==◌, ◌||◌, add64, find, assign, erase,
}
use zip_log_ae.Storage.Log.{Bytes, Entry, Log}
use zip_log_ae.Storage.Iterator.{Iterator, new_iterator, next_entry}
use zip_log_ae.Storage.Server.{copy_data}

-- `change_t`: a new subscriber with the number of its queues, or one that is gone.
pub data Change : Type 0 where
  joined : ℕ → ℕ → Change
  gone : ℕ → Change

-- `subscribers_` and the bag `subscriber_changes_`.
pub record Subscribers : Type 0 where
  pub ids : List ℕ
  pub changes : List Change

abbrev pub contains : ℕ → List ℕ → Bool
contains id [] = false
contains id (x ∷ xs) = (x == id) || contains id xs

abbrev pub remove : ℕ → List ℕ → List ℕ
remove id [] = []
remove id (x ∷ xs) = let rest = x ∷ remove id xs in if x == id then xs else rest

-- `storage::add_subscriber`
unfoldable pub add_subscriber : Subscribers → ℕ → ℕ → Subscribers
add_subscriber s id num_queues =
    if contains id s.ids
    then s
    else record { ids = id ∷ s.ids; changes = s.changes ++ (joined id num_queues ∷ []) }

-- The handler of `subscriber_finished` in `storage::control`.
unfoldable pub on_subscriber_finished : Subscribers → ℕ → Subscribers
on_subscriber_finished s id =
    if contains id s.ids
    then record { ids = remove id s.ids; changes = s.changes ++ (gone id ∷ []) }
    else s

-- `subscriber_log_entry`, the subscriber that it is sent to and the index of the receive queue; or
-- `finished_`.
pub data Out : Type 0 where
  log_entry : ℕ → ℕ → ℕ → ℕ → ℕ → ℕ → ℕ → ℕ → Bytes → Out
  finished : ℕ → Out

-- What the server and the thread have in common with every message.
pub record Thread : Type 0 where
  pub shard_id : ℕ
  pub replica_id : ℕ
  pub index : ℕ
  pub subscriber_threads : ℕ

pub record State : Type 0 where
  pub subscribers : List (ℕ × ℕ)
  pub num_sent : ℕ
  pub log : Iterator

abbrev pub start : Thread → State
start t = record {
  subscribers = [];
  num_sent = t.index;
  log = new_iterator t.index t.subscriber_threads;
}

-- `try_emplace`, and the end of a subscriber; `none` for one that the thread does not have, whose
-- send queue is not set.
abbrev pub try_emplace : ℕ → ℕ → List (ℕ × ℕ) → Option (ℕ) → List (ℕ × ℕ)
try_emplace id num_queues subscribers none = assign id num_queues subscribers
try_emplace id num_queues subscribers (some n) = subscribers

abbrev pub drop_subscriber : State → ℕ → Option ℕ → Option (State × List Out)
drop_subscriber s id none = none
drop_subscriber s id (some n) =
    some (record s { subscribers = erase id s.subscribers }, finished id ∷ [])

unfoldable pub on_change : State → Option Change → Option (State × List Out)
on_change s none = some (s, [])
on_change s (some (joined id n)) =
    some (record s { subscribers = try_emplace id n s.subscribers (find id s.subscribers) }, [])
on_change s (some (gone id)) = drop_subscriber s id (find id s.subscribers)

-- The entry in a message to a subscriber.
unfoldable pub message : Thread → Entry → ℕ → ℕ → Out
unfolding copy_data
message t e id queue =
    log_entry id queue t.shard_id t.replica_id t.index e.client_id e.gsn e.data_length
      (copy_data e.payload e.data_length)

abbrev pub with_first : Out → Option (List Out) → Option (List Out)
with_first o none = none
with_first o (some os) = some (o ∷ os)

-- `queue.send(*buffer, req.length(), 1 + num_sent % num_queues)` for every subscriber; `none` for a
-- division by zero.
unfoldable pub send_all : Thread → Entry → ℕ → List (ℕ × ℕ) → Option (List Out)
send_all t e num_sent [] = some []
send_all t e num_sent ((id, num_queues) ∷ subscribers) =
    let rest = send_all t e num_sent subscribers in
    if num_queues == 0 then none else with_first (message t e id (1 + num_sent % num_queues)) rest

-- The state after the round, and what was sent in it.
abbrev pub Result : Type 0
Result = Option (State × List Out)

abbrev pub sent_entry : Thread → State → Iterator → List Out → Option (List Out) → Result
sent_entry t s it before none = none
sent_entry t s it before (some out) =
    some (record s { log = it; num_sent = add64 s.num_sent t.subscriber_threads }, before ++ out)

abbrev pub publish : Thread → State → List Out → Option Entry × Iterator → Result
publish t s before (none, it) = some (record s { log = it }, before)
publish t s before (some e, it) = sent_entry t s it before (send_all t e s.num_sent s.subscribers)

abbrev pub after_change : Thread → Log → Result → Result
after_change t l none = none
after_change t l (some (s, out)) = publish t s out (next_entry l s.log)

-- A round of the loop, for what the bag of changes yields.
unfoldable pub round : Thread → Log → State → Option Change → Result
round t l s change = after_change t l (on_change s change)

-- What was sent in each round of the loop, for the log and the change that each round finds.
abbrev pub add_round : List Out → Option (List (List Out)) → Option (List (List Out))
add_round out none = none
add_round out (some outs) = some (out ∷ outs)

abbrev pub run_rest : (State → Option (List (List Out))) → Result → Option (List (List Out))
run_rest rest none = none
run_rest rest (some (s, out)) = add_round out (rest s)

unfoldable pub run : Thread → State → List (Log × Option Change) → Option (List (List Out))
run t s [] = some []
run t s ((l, change) ∷ rounds) = run_rest (λ s'. run t s' rounds) (round t l s change)

-- ===== src/Client.antt =====
-- src/client/client.h and client.cpp: the state of a client's processing loop and the parts of
-- one round. The time is an argument, in nanoseconds; the rate estimation is left out.
pub mod Acks
pub mod Examples
pub mod Links
pub mod Slots
pub mod Start
use zip_log_ae.Base.{
  ℕ, ◌+◌, ◌-◌, ◌*◌, ◌/◌, ◌%◌, ◌^◌, Bool, true, false, not, ◌&&◌, ◌||◌, Option, none, some, List, [],
  ◌∷◌, ◌++◌, map, if◌then◌else◌, ltb, leb, ◌==◌, u64_max, add64, sub64, length,
}
use zip_log_ae.Storage.Log.{Bytes, update}
use zip_log_ae.Network.SendQueue.{max_outstanding_requests}

-- `zip::consts::EPOCH_DURATION` in microseconds, `time_in_us`, and `MAX_PAYLOAD`.
abbrev pub epoch_duration : ℕ
epoch_duration = 5000

unfoldable pub time_in_us : ℕ → ℕ
time_in_us nanoseconds = nanoseconds / 1000

abbrev pub max_payload : ℕ
max_payload = 2048 - 56

-- A request, with the location of its response.
pub record Request : Type 0 where
  pub response : ℕ
  pub data_length : ℕ
  pub bytes : Bytes

-- `detail::epoch`
pub record Epoch : Type 0 where
  pub begin : ℕ
  pub first : ℕ
  pub last : ℕ

-- `detail::outstanding`; a no-op has no response.
pub record Outstanding : Type 0 where
  pub response : Option ℕ
  pub gsn : ℕ
  pub num_acks : ℕ

pub record Client : Type 0 where
  pub client_id : ℕ
  pub shard_id : ℕ
  pub failures : ℕ
  pub latest_gsn : ℕ
  pub queues : List ℕ
  pub stopped : Bool
  pub ended : Bool
  pub consumed : ℕ
  pub assigned : ℕ
  pub current : Epoch
  pub epochs : List Epoch
  pub requests : List Request
  pub outstanding : List Outstanding
  pub responses : ℕ → ℕ

-- What a client sends, to the replicas of its shard and to the ordering server.
pub data Sent : Type 0 where
  storage_insert : (replica_id num_slots : ℕ) → Option Request → Sent
  storage_finished : (replica_id : ℕ) → Sent
  order_finished : Sent

abbrev pub Step : Type 0
Step = Client × List Sent

-- `client::insert`; `none` is the failing assertion.
unfoldable pub insert : Client → Request → Option Client
insert c r =
    if leb r.data_length max_payload
    then some (record c {
      responses = update c.responses r.response u64_max;
      requests = c.requests ++ r ∷ [];
    })
    else none

-- The signal to stop, once.
unfoldable pub stop : Client → Step
stop c = if c.stopped then (c, []) else (record c { stopped = true }, map storage_finished c.queues)

abbrev pub begin_epoch : Client → List Epoch → ℕ → Client
begin_epoch c [] now = c
begin_epoch c (e ∷ rest) now =
    if leb e.begin now then record c { current = e; epochs = rest } else c

-- The switch to the next epoch.
unfoldable pub switch_epoch : Client → ℕ → Client
switch_epoch c now = begin_epoch c c.epochs now

-- Where the client should be, `elapsed` nanoseconds into the epoch.
unfoldable pub ideal : Epoch → ℕ → ℕ
unfolding time_in_us
ideal e elapsed =
    add64 e.first (sub64 e.last e.first * time_in_us elapsed % 2 ^ 64 / epoch_duration)

unfoldable pub may_send : Client → ℕ → Bool
unfolding ideal
may_send c elapsed =
    not c.stopped
    && ltb c.consumed (ideal c.current elapsed)
    && ltb c.failures (length c.queues)
    && leb (length c.outstanding) max_outstanding_requests
    && leb elapsed (epoch_duration * 1000)

abbrev pub waiting : Option ℕ → Outstanding
waiting response = record { response = response; gsn = u64_max; num_acks = 0 }

abbrev pub send_insert : Client → Option Request → Option ℕ → ℕ → Step
send_insert c r response advanced = (
  record c {
    consumed = add64 c.consumed advanced;
    outstanding = c.outstanding ++ waiting response ∷ [];
  },
  map (λ q. storage_insert q advanced r) c.queues,
)

-- A request that waits, or else a no-op if nothing is outstanding.
unfoldable pub send_next : Client → List Request → List Outstanding → ℕ → Step
send_next c (r ∷ rest) _ advanced =
    send_insert (record c { requests = rest }) (some r) (some r.response) advanced
send_next c [] [] advanced = send_insert c none none advanced
send_next c [] (o ∷ os) advanced = (c, [])

unfoldable pub send_slots : Client → ℕ → Step
unfolding may_send send_next
send_slots c elapsed =
    if may_send c elapsed
    then send_next c c.requests c.outstanding (sub64 (ideal c.current elapsed) c.consumed)
    else (c, [])

-- The client after one round of the loop without a message.
unfoldable pub round : Client → ℕ → ℕ → Step
unfolding switch_epoch send_slots
round c now elapsed = send_slots (switch_epoch c now) elapsed

-- `client_new_epoch`
unfoldable pub on_new_epoch : Client → ℕ → ℕ → Client
on_new_epoch c begin num_slots =
    let last = add64 c.assigned num_slots in
    record c {
      epochs = c.epochs ++ record { begin = begin; first = c.assigned; last = last } ∷ [];
      assigned = last;
    }

-- The request that an ACK is for, and what is left of the outstanding ones; the request is
-- complete when more than `failures` ACKs have come.
pub record Matched : Type 0 where
  pub complete : Option Outstanding
  pub outstanding : List Outstanding

abbrev pub acknowledge : Outstanding → ℕ → Outstanding
acknowledge o gsn = record o {
  gsn = if o.gsn == u64_max then gsn else o.gsn;
  num_acks = add64 o.num_acks 1;
}

abbrev pub push_front : Outstanding → Matched → Matched
push_front o m = record m { outstanding = o ∷ m.outstanding }

unfoldable pub match_ack : ℕ → ℕ → List Outstanding → Matched
match_ack failures gsn [] = record { complete = none; outstanding = [] }
match_ack failures gsn (o ∷ os) =
    let rest = push_front o (match_ack failures gsn os) in
    let o' = acknowledge o gsn in
    if (o.gsn == u64_max) || (gsn == o.gsn)
    then (if ltb failures o'.num_acks
        then record { complete = some o'; outstanding = os }
        else record { complete = none; outstanding = o' ∷ os })
    else rest

abbrev pub respond : Option ℕ → ℕ → (ℕ → ℕ) → ℕ → ℕ
respond none gsn responses = responses
respond (some r) gsn responses = update responses r gsn

abbrev pub deliver : Client → Option Outstanding → List Outstanding → Client
deliver c none os = record c { outstanding = os }
deliver c (some o) os = record c {
  outstanding = os;
  latest_gsn = o.gsn;
  responses = respond o.response o.gsn c.responses;
}

-- `client_insert_ack`
unfoldable pub on_ack : Client → ℕ → Client
unfolding match_ack
on_ack c gsn =
    if not (c.latest_gsn == u64_max) && leb gsn c.latest_gsn
    then c
    else let m = match_ack c.failures gsn c.outstanding in deliver c m.complete m.outstanding

unfoldable pub remove_queue : ℕ → List ℕ → List ℕ
remove_queue q [] = []
remove_queue q (r ∷ rs) = let rest = remove_queue q rs in if r == q then rs else r ∷ rest

unfoldable pub has_queue : ℕ → List ℕ → Bool
has_queue q [] = false
has_queue q (r ∷ rs) = (r == q) || has_queue q rs

-- `storage_finished`
unfoldable pub on_storage_finished : Client → ℕ → ℕ → Step
unfolding remove_queue has_queue
on_storage_finished c shard_id replica_id =
    let left = remove_queue replica_id c.queues in
    if not (c.shard_id == shard_id) || not (has_queue replica_id c.queues)
    then (c, [])
    else (record c { queues = left }, if length left == 0 then order_finished ∷ [] else [])

-- `order_finished`
unfoldable pub on_order_finished : Client → Client
on_order_finished c = record c { ended = true }

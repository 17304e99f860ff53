-- ===== src/Order/Handlers.antt =====
-- The handlers of `order::loop` in src/order/order.cpp, all but the timers.
use zip_log_ae.Base.{
  ℕ, true, not, ◌&&◌, ◌||◌, Option, none, some, List, [], ◌∷◌, ◌++◌, if◌then◌else◌, ◌==◌, u64_max,
  length, find, assign, erase,
}
use zip_log_ae.Order.{
  Order, Client, Patch, Sent, Step, has_key, to_replicas, set_client, client_order_finished,
  subscriber_order_finished, storage_client_freeze, storage_client_cut, storage_client_patch,
  storage_client_finalize,
}
use zip_log_ae.Util.Align.{align, max_of}

-- `zip::consts::MIN_SLOTS`
abbrev pub min_slots : ℕ
min_slots = 100

-- `client_state_.find`, with what follows for a client that is there.
abbrev pub with_client : Order → Option Client → (Client → Step) → Step
with_client o none next = (o, [])
with_client o (some c) next = next c

module _ (o : Order) (client_id : ℕ) where
  -- The lambda `failed`.
  unfoldable pub mark_failed : Client → Step
  mark_failed c = (
    record o {
      clients = assign client_id (record c { failed = true }) o.clients;
      suspicious = assign client_id tt o.suspicious;
    },
    to_replicas (o.replicas c.shard_id) (λ r. storage_client_freeze c.shard_id r client_id),
  )

  -- The lambda `requested`.
  unfoldable pub request_data : Client → ℕ → Step
  request_data c min_cut = (
    set_client o client_id (record c { requested = true }),
    to_replicas (o.replicas c.shard_id) (λ r. storage_client_cut c.shard_id r client_id min_cut),
  )

  -- The patches in the order of their GSNs, each to all replicas.
  unfoldable pub send_patches : Client → List (ℕ × Patch) → List Sent
  send_patches c [] = []
  send_patches c ((gsn, p) ∷ rest) =
      to_replicas (o.replicas c.shard_id) (λ r. storage_client_patch c.shard_id r client_id gsn p)
      ++ send_patches c rest

  -- The lambda `finalized`.
  unfoldable pub finish_client : Client → Step
  unfolding send_patches
  finish_client c = (
    record o { clients = erase client_id o.clients; suspicious = erase client_id o.suspicious },
    (if c.requested then send_patches c c.patches else [])
        ++ to_replicas (o.replicas c.shard_id)
            (λ r. storage_client_finalize c.shard_id r client_id),
  )

-- A failure of the network, and `order_client_freeze`.
unfoldable pub on_client_freeze : Order → ℕ → Step
unfolding mark_failed
on_client_freeze o client_id =
    with_client o (find client_id o.clients)
      (λ c. if c.failed then (o, []) else mark_failed o client_id c)

unfoldable pub on_client_rate : Order → ℕ → ℕ → Step
on_client_rate o client_id num_slots = with_client o (find client_id o.clients) (λ c.
    (set_client o client_id (record c { num_slots = align min_slots (max_of 1 num_slots) }), []))

unfoldable pub on_client_finished : Order → ℕ → Step
unfolding finish_client
on_client_finished o client_id =
    with_client o (find client_id o.clients)
      (λ c. let r = finish_client o client_id c in (r.0, client_order_finished client_id ∷ r.1))

unfoldable pub on_subscriber_finished : Order → ℕ → Step
on_subscriber_finished o subscriber_id =
    if has_key subscriber_id o.subscribers
    then (
      record o { subscribers = erase subscriber_id o.subscribers },
      subscriber_order_finished subscriber_id ∷ [],
    )
    else (o, [])

-- The cuts from the last replica to the first.
unfoldable pub from_back : List (ℕ × ℕ) → List ℕ
from_back [] = []
from_back ((_, gsn) ∷ rest) = from_back rest ++ gsn ∷ []

-- The first cut that is not -1, or -1.
unfoldable pub first_known : List ℕ → ℕ
first_known [] = u64_max
first_known (gsn ∷ rest) = let other = first_known rest in if gsn == u64_max then other else gsn

-- `max`, after the responses are disambiguated; `others` are the cuts before the last one.
unfoldable pub settle : ℕ → ℕ → List ℕ → ℕ
unfolding first_known
settle min max others = if not (min == max) && (max == u64_max) then first_known others else max

-- All servers have sent their cuts: the cut of the first one, `min`, against those from the back.
unfoldable pub decide : Order → ℕ → Client → ℕ → List ℕ → Step
unfolding finish_client request_data settle
decide o client_id c min [] = (o, [])
decide o client_id c min (max ∷ others) =
    if min == settle min max others
    then finish_client o client_id c
    else request_data o client_id c min

-- With the map of the cuts.
unfoldable pub save_cut : Order → ℕ → Client → List (ℕ × ℕ) → Step
unfolding decide from_back
save_cut o client_id c [] = (o, [])
save_cut o client_id c (first ∷ rest) =
    if not c.requested && (length (first ∷ rest) == length (o.replicas c.shard_id))
    then decide o client_id c first.1 (from_back (first ∷ rest))
    else (o, [])

-- The handler for a client that is there.
unfoldable pub client_cut : Order → ℕ → Client → ℕ → ℕ → ℕ → Step
unfolding save_cut
client_cut o client_id c shard_id replica_id latest_gsn =
    let c' = record c { cuts = assign replica_id latest_gsn c.cuts } in
    if not c.failed || not (c.shard_id == shard_id) || has_key replica_id c.cuts
    then (o, [])
    else save_cut (set_client o client_id c') client_id c' c'.cuts

unfoldable pub on_client_cut : Order → ℕ → ℕ → ℕ → ℕ → Step
unfolding client_cut
on_client_cut o client_id shard_id replica_id latest_gsn =
    with_client o (find client_id o.clients)
      (λ c. client_cut o client_id c shard_id replica_id latest_gsn)

-- A flush message, of GSN -1, or data.
unfoldable pub save_data : Order → ℕ → Client → ℕ → ℕ → Patch → Step
unfolding finish_client
save_data o client_id c replica_id gsn p =
    let flushed' = record c { flushed = assign replica_id tt c.flushed } in
    let patched = record c { patches = assign gsn p c.patches } in
    if gsn == u64_max
    then (if length flushed'.flushed == length (o.replicas c.shard_id)
        then finish_client (set_client o client_id flushed') client_id flushed'
        else (set_client o client_id flushed', []))
    else if has_key gsn c.patches
    then (o, [])
    else (set_client o client_id patched, [])

unfoldable pub on_client_data : Order → ℕ → ℕ → ℕ → ℕ → Patch → Step
unfolding save_data
on_client_data o client_id shard_id replica_id gsn p =
    with_client o (find client_id o.clients) (λ c.
      if not c.requested || not (c.shard_id == shard_id) || has_key replica_id c.flushed
      then (o, [])
      else save_data o client_id c replica_id gsn p)

-- ===== src/Lock.antt =====
-- src/lock_service/lock_service.cpp: what the lock service does with the entries of the log. A
-- pointer to a flag is a number. `callback` reads the front request after it is popped; here the
-- request still has its values.
pub mod Examples
pub mod Exclusion
pub mod Fifo
mod Front
mod Prefixes
pub mod Sender
use zip_log_ae.Base.{
  ℕ, Bool, true, false, Option, none, some, List, [], ◌∷◌, ◌++◌, if◌then◌else◌, ltb, ◌==◌,
}
use zip_log_ae.Storage.Log.{update}

pub data Action : Type 0 where
  lock : Action
  unlock : Action

-- `LockRequest`
pub record Request : Type 0 where
  pub action : Action
  pub client : ℕ
  pub lock_key : ℕ
  pub flag : ℕ

-- `lock_service`: its client, the queues of the keys, and the flags that its requests wait for.
pub record Service : Type 0 where
  pub cid : ℕ
  pub num_keys : ℕ
  pub lock_queue : ℕ → List Request
  pub flags : ℕ → Bool

-- The constructor, as far as it concerns the requests.
abbrev pub new_service : ℕ → ℕ → Service
new_service cid num_keys = record {
  cid = cid;
  num_keys = num_keys;
  lock_queue = λ _. [];
  flags = λ _. false;
}

-- `done->store(true)` of a request by this service's client.
abbrev pub notify : Service → Request → Service
notify s r = if r.client == s.cid then record s { flags = update s.flags r.flag true } else s

abbrev pub set_queue : Service → ℕ → List Request → Service
set_queue s key queue = record s { lock_queue = update s.lock_queue key queue }

-- A request to lock: it holds the lock if it is the first one.
unfoldable pub acquire : Service → Request → List Request → Service
acquire s r [] = set_queue (notify s r) r.lock_key (r ∷ [])
acquire s r (first ∷ rest) = set_queue s r.lock_key (first ∷ rest ++ r ∷ [])

-- The requests in a queue are to lock, and those that were read out of it.
abbrev pub is_lock : Action → Bool
is_lock lock = true
is_lock unlock = false

abbrev pub notify_next : Service → List Request → Service
notify_next s [] = s
notify_next s (next ∷ rest) = notify s next

-- A request to unlock; `none` is a failing assertion.
unfoldable pub release : Service → Request → List Request → Option Service
release s r [] = none
release s r (top ∷ rest) =
    let s' = notify_next (notify (set_queue s r.lock_key rest) top) rest in
    if is_lock top.action
    then (if top.client == r.client
        then (if top.lock_key == r.lock_key then some s' else none)
        else none)
    else none

unfoldable pub serve : Service → Request → Action → Option Service
unfolding acquire release
serve s r lock = some (acquire s r (s.lock_queue r.lock_key))
serve s r unlock = release s r (s.lock_queue r.lock_key)

-- `lock_service::callback`
unfoldable pub callback : Service → Request → Option Service
unfolding serve
callback s r = if ltb r.lock_key s.num_keys then serve s r r.action else none

abbrev pub run_rest : (Service → Option Service) → Option Service → Option Service
run_rest next none = none
run_rest next (some s) = next s

-- The requests in the order of the log.
unfoldable pub run : Service → List Request → Option Service
unfolding callback
run s [] = some s
run s (r ∷ rs) = run_rest (λ t. run t rs) (callback s r)

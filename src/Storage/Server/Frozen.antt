-- ===== src/Storage/Server/Frozen.antt =====
-- Clients that src/storage/storage.cpp has marked as disconnected.
use zip_log_ae.Base.{
  ℕ, ◌≡◌, ◌∙◌, sym, refl, Option, none, some, List, [], ◌∷◌, arith, Bool, true, false, inl, inr,
  Bool-cases, ◌==◌, if◌then◌else◌, leb, ltb, ◌||◌,
}
use zip_log_ae.Storage.Slots.{Assignment}
use zip_log_ae.Storage.Log.{Log, Bytes, update}
use zip_log_ae.Storage.Position.{Stored, insert}
use zip_log_ae.Storage.Server.{
  Server, ClientState, Message, Outcome, done, waits, set_client, add_client, max_clients,
  on_storage_slots, on_failure, on_client_freeze, on_client_cut, on_client_patch,
  on_client_finalize, on_storage_insert, on_client_finished, patched, inserted, order_client_freeze,
  order_client_cut, storage_finished,
}
use zip_log_ae.Storage.Server.Events.{
  Event, slots, failure, freeze, cut, patch, finalize, request, finished, connect, handle, After,
  After-if,
}
use zip_log_ae.Storage.Server.Runs.{Reaches, stop, step}

-- A client that was connected and does not insert any more, with its last GSN.
pub record IsFrozen (c gsn : ℕ) (s : Server) : Type 0 where
  pub gone : (s.clients c).disconnected ≡ true
  pub latest : (s.clients c).latest_gsn ≡ gsn

-- The state of a client, but for its position.
record SameClient (k k' : ClientState) : Type 0 where
  disconnected : k.disconnected ≡ true → k'.disconnected ≡ true
  latest : k.disconnected ≡ true → k'.latest_gsn ≡ k.latest_gsn

update-Frozen :
    (s : Server) (l : Log) (c gsn d : ℕ) (k : ClientState)
    → SameClient (s.clients d) k
    → IsFrozen c gsn s
    → IsFrozen c gsn (record s { log = l; clients = update s.clients d k })
update-Frozen s l c gsn d k same v = elim (Bool-cases (c == d)) [
  | inr other ↦ record { gone = rw other v.gone; latest = rw other v.latest }
  | inl mine ↦
      let e : c ≡ d = ground arith in
      record {
        gone = rw mine (same.disconnected (rw e at v.gone));
        latest = rw mine (same.latest (rw e at v.gone) ∙ (rw e at v.latest));
      }
]

module _ (c gsn : ℕ) where
  Frozen-if :
      (b : Bool) (x y : Server)
      → IsFrozen c gsn x
      → IsFrozen c gsn y
      → IsFrozen c gsn (if b then x else y)
  Frozen-if true x y p q = p
  Frozen-if false x y p q = q

  slots-Frozen :
      (s : Server) (start : ℕ) (assignments : List Assignment)
      → IsFrozen c gsn s
      → After
          (IsFrozen c gsn)
          (on_storage_slots s (record { start_gsn = start; assignments = assignments }))
  unfolding on_storage_slots
  slots-Frozen s start [] v = v
  slots-Frozen s start (a ∷ rest) v = record { gone = v.gone; latest = v.latest }

  -- The branches of `inserted` and `patched`; the client changes as `k` says.
  stored-Frozen :
      (s : Server) (d : ℕ) (outcome : Option Stored → Outcome) (k : Stored → ClientState)
      → IsFrozen c gsn s
      → After (IsFrozen c gsn) (outcome none)
      → ((r : Stored)
          → After (IsFrozen c gsn) (outcome (some r))
            ≡ IsFrozen c gsn (record s { log = r.log; clients = update s.clients d (k r) }))
      → ((r : Stored) → SameClient (s.clients d) (k r))
      → (o : Option Stored) → After (IsFrozen c gsn) (outcome o)
  stored-Frozen s d outcome k v failed ended same none = failed
  stored-Frozen s d outcome k v failed ended same (some r) =
      rw (ended r) (update-Frozen s r.log c gsn d (k r) (same r) v)

  off :
      (s : Server) (d : ℕ) (ms : List Message)
      → IsFrozen c gsn s
      → After
          (IsFrozen c gsn)
          (done (set_client s d (record (s.clients d) { disconnected = true })) ms)
  off s d ms v =
      update-Frozen s s.log c gsn d _ (record { disconnected = λ _. refl; latest = λ _. refl }) v

  off_connected :
      (s : Server) (d : ℕ) (b : Bool) (ms : List Message)
      → IsFrozen c gsn s
      → After (IsFrozen c gsn) (
          if b
          then done (set_client s d (record (s.clients d) { disconnected = true })) ms
          else waits)
  off_connected s d true ms v = off s d ms v
  off_connected s d false ms v = tt

  failure-Frozen : (s : Server) (d : ℕ) → IsFrozen c gsn s → After (IsFrozen c gsn) (on_failure s d)
  unfolding on_failure
  failure-Frozen s d v = off_connected s d (s.clients d).connected (order_client_freeze d ∷ []) v

  freeze-Frozen :
      (s : Server) (d : ℕ) → IsFrozen c gsn s → After (IsFrozen c gsn) (on_client_freeze s d)
  unfolding on_client_freeze
  freeze-Frozen s d v =
      let message = order_client_cut d s.shard_id s.replica_id (s.clients d).latest_gsn in
      off_connected s d (s.clients d).connected (message ∷ []) v

  cut-Frozen :
      (s : Server) (d begin_gsn : ℕ)
      → IsFrozen c gsn s
      → After (IsFrozen c gsn) (on_client_cut s d begin_gsn)
  unfolding on_client_cut
  cut-Frozen s d begin_gsn v = v

  patch-Frozen :
      (s : Server) (d g : ℕ) (buffer : Bytes) (n : ℕ)
      → IsFrozen c gsn s
      → After (IsFrozen c gsn) (on_client_patch s d g buffer n)
  unfolding on_client_patch
  patch-Frozen s d g buffer n v =
      let k = s.clients d in
      let o = insert s.log k.position buffer n g in
      After-if (IsFrozen c gsn) (ltb k.latest_gsn g) (patched s d k o) (done s [])
        (stored-Frozen s d (patched s d k) (λ r. record k { position = r.position }) v tt
          (λ r. refl) (λ r. record { disconnected = λ h. h; latest = λ h. refl }) o)
        v

  finalize-Frozen :
      (s : Server) (d : ℕ) → IsFrozen c gsn s → After (IsFrozen c gsn) (on_client_finalize s d)
  unfolding on_client_finalize
  finalize-Frozen s d v =
      update-Frozen s _ c gsn d _ (record { disconnected = λ h. h; latest = λ h. refl }) v

  -- An insert takes place only if the client `k` is still there.
  insert-Frozen :
      (s : Server) (d : ℕ) (b : Bool) (o : Option Stored)
      → (s.clients d).disconnected ≡ b
      → IsFrozen c gsn s
      → After (IsFrozen c gsn) (if b then done s [] else inserted s d (s.clients d) o)
  insert-Frozen s d true o e v = v
  insert-Frozen s d false o e v =
      stored-Frozen s d (inserted s d (s.clients d))
        (λ r. record (s.clients d) { position = r.position; latest_gsn = r.gsn }) v tt (λ r. refl)
        (λ r. record { disconnected = λ h. h; latest = λ h. absurd (cc) }) o

  request-Frozen :
      (s : Server) (d num_slots : ℕ) (buffer : Bytes) (n : ℕ)
      → IsFrozen c gsn s
      → After (IsFrozen c gsn) (on_storage_insert s d num_slots buffer n)
  unfolding on_storage_insert
  request-Frozen s d num_slots buffer n v =
      let k = s.clients d in
      let o = insert s.log k.position buffer n num_slots in
      After-if (IsFrozen c gsn) k.connected (if k.disconnected then done s [] else inserted s d k o)
        waits (insert-Frozen s d k.disconnected o refl v) tt

  finished-Frozen :
      (s : Server) (d : ℕ) → IsFrozen c gsn s → After (IsFrozen c gsn) (on_client_finished s d)
  unfolding on_client_finished
  finished-Frozen s d v =
      let k = s.clients d in
      let ms = storage_finished d s.shard_id s.replica_id ∷ [] in
      let o = done (set_client s d (record k { disconnected = true })) ms in
      After-if (IsFrozen c gsn) k.connected (if k.disconnected then done s [] else o) waits
        (After-if (IsFrozen c gsn) k.disconnected (done s []) o v (off s d ms v)) tt

  connect-Frozen : (s : Server) (d : ℕ) → IsFrozen c gsn s → IsFrozen c gsn (add_client s d)
  unfolding add_client
  connect-Frozen s d v = Frozen-if (leb max_clients d || (s.clients d).connected) s _ v (
      update-Frozen s s.log c gsn d (record (s.clients d) { connected = true })
        (record { disconnected = λ h. h; latest = λ h. refl }) v)

  handle-Frozen : (s : Server) (e : Event) → IsFrozen c gsn s → After (IsFrozen c gsn) (handle s e)
  unfolding handle
  handle-Frozen s (slots m) v = slots-Frozen s m.start_gsn m.assignments v
  handle-Frozen s (failure d) v = failure-Frozen s d v
  handle-Frozen s (freeze d) v = freeze-Frozen s d v
  handle-Frozen s (cut d g) v = cut-Frozen s d g v
  handle-Frozen s (patch d g buffer n) v = patch-Frozen s d g buffer n v
  handle-Frozen s (finalize d) v = finalize-Frozen s d v
  handle-Frozen s (request d m buffer n) v = request-Frozen s d m buffer n v
  handle-Frozen s (finished d) v = finished-Frozen s d v
  handle-Frozen s (connect d) v = connect-Frozen s d v

  run-Frozen : (s t : Server) → Reaches s t → IsFrozen c gsn s → IsFrozen c gsn t
  run-Frozen s _ (stop _) v = v
  run-Frozen s u (step _ t _ e ms h eq rest) v =
      run-Frozen t u rest (rw eq at (handle-Frozen s e v))

freeze-answer :
    (s t : Server) (c : ℕ) (b : Bool) (ms ms' : List Message)
    → (if b then done (set_client s c (record (s.clients c) { disconnected = true })) ms else waits)
      ≡ done t ms'
    → (ms' ≡ ms) × IsFrozen c (s.clients c).latest_gsn t
freeze-answer s t c false ms ms' e = absurd (cc)
freeze-answer s t c true ms ms' e =
    let (same, sent) : (set_client s c (record (s.clients c) { disconnected = true }) ≡ t)
        × (ms ≡ ms') =
      ground arith in
    (sym sent, rw⁻¹ same (record { gone = ground arith; latest = ground arith }))

-- When the handler of `storage_client_freeze` ends in an answer, the answer holds the latest GSN
-- that the client has in every state that any sequence of handlers reaches afterwards.
pub freeze-stable :
    (s t u : Server) (c : ℕ) (ms : List Message)
    → on_client_freeze s c ≡ done t ms
    → Reaches t u
    → ms ≡ order_client_cut c s.shard_id s.replica_id (u.clients c).latest_gsn ∷ []
unfolding on_client_freeze
freeze-stable s t u c ms e run =
    let (sent, v) = freeze-answer s t c (s.clients c).connected _ ms e in
    rw ((run-Frozen c (s.clients c).latest_gsn t u run v).latest) sent

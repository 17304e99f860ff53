-- ===== src/Storage/Server/Invariant.antt =====
-- The invariant of a storage server, src/storage/storage.cpp.
use zip_log_ae.Base.{
  ℕ, ◌<◌, ◌^◌, ◌≡◌, ◌≢◌, ◌∙◌, sym, refl, Bool, Option, none, some, List, [], ◌∷◌, arith, true,
  false, inl, inr, Bool-cases, ◌==◌, ltb, leb, ◌||◌, if◌then◌else◌,
}
use zip_log_ae.Storage.Slots.{Assignment}
use zip_log_ae.Storage.Log.{Log, Entry, Bytes, update, new_log}
use zip_log_ae.Storage.Log.Links.{WellLinked, new_log-WellLinked}
use zip_log_ae.Storage.Position.{Position, Stored, insert, close}
use zip_log_ae.Storage.Position.Stable.{insert_lem}
use zip_log_ae.Storage.Position.Final.{IsAt, insert-final, insert-IsAt, insert-IsAt_other}
use zip_log_ae.Storage.Position.Close.{close-Closed, close-IsAt_other}
use zip_log_ae.Storage.Position.Added.{SameContent, add_entries-Extends}
use zip_log_ae.Storage.Server.{
  Server, ClientState, Message, Outcome, done, waits, new_server, set_client, add_client,
  on_storage_slots, on_failure, on_client_freeze, on_client_cut, on_client_patch,
  on_client_finalize, on_storage_insert, on_client_finished, when_connected, order_client_freeze,
  order_client_cut, storage_finished, max_clients, patched, inserted,
}
use zip_log_ae.Storage.Server.Events.{
  Event, slots, failure, freeze, cut, patch, finalize, request, finished, connect, handle, IsValid,
  After, After-if,
}

pub record ServerInv (s : Server) : Type 0 where
  pub linked : WellLinked s.log
  pub own : (c : ℕ) → (s.clients c).position.client_id ≡ c
  pub at : (c : ℕ) → IsAt s.log (s.clients c).position

-- What a handler keeps: the invariant, and the content of every entry that is set.
pub record Keeps (s s' : Server) : Type 0 where
  pub inv : ServerInv s'
  pub final :
      (a : ℕ)
      → a < s.log.current_entries
      → (s.log.cells a).set ≡ true
      → SameContent (s'.log.cells a) (s.log.cells a)

same_content : {x y : Entry} → x ≡ y → SameContent x y
same_content e = ground arith

Keeps-if :
    (s : Server) (b : Bool) (x y : Server) → Keeps s x → Keeps s y → Keeps s (if b then x else y)
Keeps-if s true x y p q = p
Keeps-if s false x y p q = q

-- A change of a client's state that leaves its position.
update_cases :
    (P : ClientState → Type 0) (f : ℕ → ClientState) (c : ℕ) (k : ClientState) (d : ℕ)
    → (d ≡ c → P k)
    → (d ≢ c → P (f d))
    → P (update f c k d)
update_cases P f c k d here other = elim (Bool-cases (d == c)) [
  | inl e ↦ rw e (here (ground arith))
  | inr e ↦ rw e (other (λ same. ground arith))
]

-- A change of a client's state that leaves its position.
pub keep_client :
    (s : Server) (c : ℕ) (k : ClientState)
    → ServerInv s
    → k.position ≡ (s.clients c).position
    → Keeps s (set_client s c k)
keep_client s c k v e = record {
  inv = record {
    linked = v.linked;
    own = λ d.
        update_cases (λ x. x.position.client_id ≡ d) s.clients c k d
          (λ same. rw e (v.own c) ∙ sym same) (λ ne. v.own d);
    at = λ d.
        update_cases (λ x. IsAt s.log x.position) s.clients c k d (λ same. rw e (v.at c))
          (λ ne. v.at d);
  };
  final = λ a h set. same_content refl;
}

pub move_client :
    (s : Server) (c : ℕ) (k : ClientState) (l : Log)
    → ServerInv s
    → k.position.client_id ≡ c
    → WellLinked l
    → IsAt l k.position
    → ((q : Position) → q.client_id ≢ c → IsAt s.log q → IsAt l q)
    → ((a : ℕ) → (s.log.cells a).set ≡ true → l.cells a ≡ s.log.cells a)
    → Keeps s (record s { log = l; clients = update s.clients c k })
move_client s c k l v e w here others final = record {
  inv = record {
    linked = w;
    own = λ d.
        update_cases (λ x. x.position.client_id ≡ d) s.clients c k d (λ same. e ∙ sym same)
          (λ ne. v.own d);
    at = λ d.
        update_cases (λ x. IsAt l x.position) s.clients c k d (λ same. here)
          (λ ne. others (s.clients d).position (λ q. ne (sym (v.own d) ∙ q)) (v.at d));
  };
  final = λ a h set. same_content (final a set);
}

pub unchanged : (s : Server) → ServerInv s → Keeps s s
unchanged s v = record { inv = v; final = λ a h set. same_content refl }

slots-Keeps :
    (s : Server) (gsn : ℕ) (assignments : List Assignment)
    → ServerInv s
    → After (Keeps s) (on_storage_slots s (record { start_gsn = gsn; assignments = assignments }))
unfolding on_storage_slots
slots-Keeps s gsn [] v = unchanged s v
slots-Keeps s gsn (a ∷ rest) v =
    let x =
      add_entries-Extends s.log (record { start_gsn = gsn; assignments = a ∷ rest }) v.linked in
    record {
      inv = record {
        linked = x.linked;
        own = v.own;
        at = λ c. x.positions (s.clients c).position (v.at c);
      };
      final = λ a h set. x.content a h;
    }

-- What an insert of a client that stands does, for the state `k` that the client gets.
insert-Keeps :
    (s : Server) (c : ℕ) (buffer : Bytes) (n close : ℕ) (outcome : Option Stored → Outcome)
    (k : Stored → ClientState)
    → ServerInv s
    → 0 < close
    → close < 2 ^ 64
    → After (Keeps s) (outcome none)
    → ((r : Stored)
        → After (Keeps s) (outcome (some r))
          ≡ Keeps s (record s { log = r.log; clients = update s.clients c (k r) }))
    → ((r : Stored) → (k r).position ≡ r.position)
    → After (Keeps s) (outcome (insert s.log (s.clients c).position buffer n close))
insert-Keeps s c buffer n close outcome k v pos small failed ended moved =
    let found =
      insert_lem s.log (s.clients c).position buffer n close v.linked (v.at c).stands pos small in
    elim found [
      | inl (_, e) ↦ rw e failed
      | inr (xs, d, ys, r, split, _, e, i) ↦
          rw (e, ended r)
            (move_client s c (k r) r.log v (rw (moved r, i.position) (v.own c)) i.linked
              (rw (moved r)
                (insert-IsAt s.log (s.clients c).position buffer n xs d ys r split i (v.at c)))
              (λ q other.
                insert-IsAt_other s.log (s.clients c).position buffer n xs d ys r split i q
                  (λ same. other (same ∙ v.own c)))
              (insert-final s.log (s.clients c).position buffer n xs d ys r split i (v.at c)))
    ]

patch-Keeps :
    (s : Server) (c gsn : ℕ) (buffer : Bytes) (n : ℕ)
    → ServerInv s
    → gsn < 2 ^ 64
    → After (Keeps s) (on_client_patch s c gsn buffer n)
unfolding on_client_patch
patch-Keeps s c gsn buffer n v small = elim (Bool-cases (ltb (s.clients c).latest_gsn gsn)) [
  | inl later ↦ rw later (
      insert-Keeps s c buffer n gsn (patched s c (s.clients c))
        (λ r. record (s.clients c) { position = r.position }) v (ground arith) small tt (λ r. refl)
        (λ r. refl))
  | inr stale ↦ rw stale (unchanged s v)
]

request-Keeps :
    (s : Server) (c num_slots : ℕ) (buffer : Bytes) (n : ℕ)
    → ServerInv s
    → 0 < num_slots
    → num_slots < 2 ^ 64
    → After (Keeps s) (on_storage_insert s c num_slots buffer n)
unfolding on_storage_insert
request-Keeps s c num_slots buffer n v pos small =
    let k = s.clients c in
    let o = inserted s c k (insert s.log k.position buffer n num_slots) in
    After-if (Keeps s) k.connected (if k.disconnected then done s [] else o) waits
      (After-if (Keeps s) k.disconnected (done s []) o (unchanged s v) (
        insert-Keeps s c buffer n num_slots (inserted s c k)
          (λ r. record k { position = r.position; latest_gsn = r.gsn }) v pos small tt (λ r. refl)
          (λ r. refl)))
      tt

finalize-Keeps : (s : Server) (c : ℕ) → ServerInv s → After (Keeps s) (on_client_finalize s c)
unfolding on_client_finalize
finalize-Keeps s c v =
    let p = (s.clients c).position in
    let r = close s.log p in
    let x = close-Closed s.log p v.linked (v.at c) in
    move_client s c (record (s.clients c) { position = r.1 }) r.0 v (x.client ∙ v.own c) x.linked
      x.at (λ q other at. close-IsAt_other s.log p q r x (λ same. other (same ∙ v.own c)) at)
      x.final

cut-Keeps : (s : Server) (c gsn : ℕ) → ServerInv s → After (Keeps s) (on_client_cut s c gsn)
unfolding on_client_cut
cut-Keeps s c gsn v = unchanged s v

abbrev frozen : Server → ℕ → Server
frozen s c = set_client s c (record (s.clients c) { disconnected = true })

frozen-Keeps :
    (s : Server) (c : ℕ) (ms : List Message)
    → ServerInv s
    → After (Keeps s) (when_connected (s.clients c) (done (frozen s c) ms))
frozen-Keeps s c ms v =
    After-if (Keeps s) (s.clients c).connected (done (frozen s c) ms) waits
      (keep_client s c (record (s.clients c) { disconnected = true }) v refl) tt

failure-Keeps : (s : Server) (c : ℕ) → ServerInv s → After (Keeps s) (on_failure s c)
unfolding on_failure
failure-Keeps s c v = frozen-Keeps s c (order_client_freeze c ∷ []) v

freeze-Keeps : (s : Server) (c : ℕ) → ServerInv s → After (Keeps s) (on_client_freeze s c)
unfolding on_client_freeze
freeze-Keeps s c v =
    let cut = order_client_cut c s.shard_id s.replica_id (s.clients c).latest_gsn in
    frozen-Keeps s c (cut ∷ []) v

finished-Keeps : (s : Server) (c : ℕ) → ServerInv s → After (Keeps s) (on_client_finished s c)
unfolding on_client_finished
finished-Keeps s c v =
    let k = s.clients c in
    let o = done (frozen s c) (storage_finished c s.shard_id s.replica_id ∷ []) in
    After-if (Keeps s) k.connected (if k.disconnected then done s [] else o) waits
      (After-if (Keeps s) k.disconnected (done s []) o (unchanged s v)
        (keep_client s c (record k { disconnected = true }) v refl))
      tt

connect-Keeps : (s : Server) (c : ℕ) → ServerInv s → Keeps s (add_client s c)
unfolding add_client
connect-Keeps s c v =
    Keeps-if s (leb max_clients c || (s.clients c).connected) s
      (set_client s c (record (s.clients c) { connected = true })) (unchanged s v)
      (keep_client s c (record (s.clients c) { connected = true }) v refl)

-- From the server invariant, a handler that ends, for a valid message (a client closes at least
-- one slot and fewer than 2 ^ 64), keeps the invariant and leaves the content of every entry that
-- is set.
pub handle-Keeps : (s : Server) (e : Event) → ServerInv s → IsValid e → After (Keeps s) (handle s e)
unfolding handle
handle-Keeps s (slots m) v h = slots-Keeps s m.start_gsn m.assignments v
handle-Keeps s (failure c) v h = failure-Keeps s c v
handle-Keeps s (freeze c) v h = freeze-Keeps s c v
handle-Keeps s (cut c gsn) v h = cut-Keeps s c gsn v
handle-Keeps s (patch c gsn buffer n) v h = patch-Keeps s c gsn buffer n v h
handle-Keeps s (finalize c) v h = finalize-Keeps s c v
handle-Keeps s (request c num_slots buffer n) v h = request-Keeps s c num_slots buffer n v h.0 h.1
handle-Keeps s (finished c) v h = finished-Keeps s c v
handle-Keeps s (connect c) v h = connect-Keeps s c v

pub new_server-ServerInv : (shard replica : ℕ) → ServerInv (new_server shard replica)
unfolding new_server new_log
new_server-ServerInv shard replica = record {
  linked = new_log-WellLinked;
  own = λ c. refl;
  at = λ c. record {
    stands = tt;
    passed = λ a lt. absurd (omega arith);
    ahead = λ a le lt. absurd (omega arith);
  };
}

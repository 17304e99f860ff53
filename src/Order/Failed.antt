-- ===== src/Order/Failed.antt =====
-- The clients that src/order/order.cpp has marked as failed.
use zip_log_ae.Base.{
  ℕ, ◌<◌, ◌≡◌, ◌≢◌, ◌∙◌, sym, refl, Bool, true, false, ◌||◌, Option, none, some, List, [], arith,
  if◌then◌else◌, leb, u64_max, find, assign, erase, length, ℕ_discrete, find-assign,
  find-assign_other, find-erase, find-erase_other,
}
use zip_log_ae.Storage.Log.{Log, add_entries}
use zip_log_ae.Storage.Log.Links.{WellLinked}
use zip_log_ae.Storage.Log.Epoch.{slots_of}
use zip_log_ae.Storage.Server.{max_clients}
use zip_log_ae.Order.{
  Order, Client, Step, new_client, add_client, add_subscriber, num_shards, has_key, add_storage,
}
use zip_log_ae.Order.Handlers.{on_subscriber_finished}
use zip_log_ae.Order.Changes.{
  Changes, Moves, no_more, updated, removed, freeze-Moves, rate-Moves, finished-Moves, cut-Moves,
  data-Moves,
}
use zip_log_ae.Order.Epoch.{epoch, heartbeat, shard_message}
use zip_log_ae.Order.Epoch.Contiguous.{granted, epoch-granted}
use zip_log_ae.Order.Events.{
  Event, connect_storage, connect_client, connect_subscriber, freeze, rate, client_finished,
  subscriber_finished, cut, client_data, beat, next_epoch, added, handle, IsValid, Reaches, stop,
  step,
}
use zip_log_ae.Order.Invariant.{
  OrderInv, GoodClients, After, SameClients, add_storage-same, handle-OrderInv, evolved,
  removed-Good, good-Small,
}

-- The events in which the client does not connect again.
abbrev pub NotConnect : ℕ → Event → Type 0
NotConnect i (connect_client j shard n) = j ≢ i
NotConnect i _ = Unit

abbrev pub Leaves : ℕ → Event → Type 0
Leaves i e = IsValid e × NotConnect i e

-- A client that is gone or has failed.
abbrev pub IsOut : Option Client → Type 0
IsOut none = Unit
IsOut (some c) = c.failed ≡ true

abbrev Out : ℕ → Order → Type 0
Out i o = IsOut (find i o.clients)

module _ (i : ℕ) where
  changed-Out :
      (xs ys : List (ℕ × Client))
      → Changes xs ys
      → GoodClients xs
      → IsOut (find i xs)
      → IsOut (find i ys)
  changed-Out xs _ (no_more _) g h = h
  changed-Out xs ys (updated _ _ j c c' e v rest) g h =
      changed-Out (assign j c' xs) ys rest (evolved xs j c c' g e v) (elim (ℕ_discrete i j) [
        | yes same ↦ rw (same, find-assign j c' xs) (v.failed (rw (same, e) at h))
        | no other ↦ rw (find-assign_other i j c' xs other) h
      ])
  changed-Out xs ys (removed _ _ j rest) g h =
      changed-Out (erase j xs) ys rest (removed-Good xs j g) (elim (ℕ_discrete i j) [
        | yes same ↦ rw (same, find-erase 0 max_clients j xs g.0) tt
        | no other ↦ rw (find-erase_other i j xs other) h
      ])

  moved-Out : (o : Order) (r : Step) → OrderInv o → Moves o r → Out i o → Out i r.0
  moved-Out o r v m h = changed-Out o.clients r.0.clients m.clients v.clients h

  Out-if : (b : Bool) (x y : Step) → Out i x.0 → Out i y.0 → Out i (if b then x else y).0
  Out-if true x y p q = p
  Out-if false x y p q = q

  connect-Out : (o : Order) (j shard n : ℕ) → j ≢ i → Out i o → Out i (add_client o j shard n).0
  unfolding add_client
  connect-Out o j shard n ne h =
      Out-if
        (leb num_shards shard
          || leb max_clients j
          || has_key j o.clients
          || leb max_clients (length o.clients))
        (o, []) _ h (rw (find-assign_other i j (new_client shard n) o.clients (λ e. ne (sym e))) h)

  subscriber-Out : (o : Order) (s : ℕ) → Out i o → Out i (add_subscriber o s).0
  unfolding add_subscriber
  subscriber-Out o s h = Out-if (has_key s o.subscribers) (o, []) _ h h

  subscriber_finished-Out : (o : Order) (s : ℕ) → Out i o → Out i (on_subscriber_finished o s).0
  unfolding on_subscriber_finished
  subscriber_finished-Out o s h = Out-if (has_key s o.subscribers) _ (o, []) h h

  epoch-Out : (o : Order) → Out i o → Out i (epoch o).0
  unfolding epoch
  epoch-Out o h = h

  heartbeat-Out : (o : Order) → Out i o → Out i (heartbeat o).0
  unfolding heartbeat
  heartbeat-Out o h = h

  storage-Out : (o : Order) (r : Option Order) → Out i o → SameClients o r → After (Out i) (added r)
  storage-Out o none h s = tt
  storage-Out o (some p) h s = rw (s.0) h

  handle-Out :
      (o : Order) (e : Event) → OrderInv o → Leaves i e → Out i o → After (Out i) (handle o e)
  unfolding handle
  handle-Out o (connect_storage shard replica address) v l h =
      storage-Out o (add_storage o shard replica address) h
        (add_storage-same o shard replica address)
  handle-Out o (connect_client j shard n) v l h = connect-Out o j shard n l.1 h
  handle-Out o (connect_subscriber s) v l h = subscriber-Out o s h
  handle-Out o (freeze j) v l h = moved-Out o _ v (freeze-Moves o j) h
  handle-Out o (rate j n) v l h = moved-Out o _ v (rate-Moves o j n l.0) h
  handle-Out o (client_finished j) v l h = moved-Out o _ v (finished-Moves o j) h
  handle-Out o (subscriber_finished s) v l h = subscriber_finished-Out o s h
  handle-Out o (cut j shard replica gsn) v l h = moved-Out o _ v (cut-Moves o j shard replica gsn) h
  handle-Out o (client_data j shard replica gsn p) v l h =
      moved-Out o _ v (data-Moves o j shard replica gsn p) h
  handle-Out o beat v l h = heartbeat-Out o h
  handle-Out o next_epoch v l h = epoch-Out o h

  run-Out : (o p : Order) → OrderInv o → Reaches (Leaves i) o p → Out i o → OrderInv p × Out i p
  run-Out o _ v (stop _) h = (v, h)
  run-Out o q v (step _ p _ e ms l eq rest) h =
      run-Out p q (rw eq at (handle-OrderInv o e v l.0)) rest (rw eq at (handle-Out o e v l h))

Out-granted : (sid : ℕ) (k : Option Client) → IsOut k → granted sid k ≡ 0
unfolding granted
Out-granted sid none h = refl
Out-granted sid (some c) h = rw h refl

-- From the invariant, a client that is gone or has failed gets no slot from any epoch after any
-- sequence of steps in which it does not connect again.
pub failed-granted :
    (i : ℕ) (o p : Order) (sid : ℕ) (l : Log)
    → i < u64_max
    → OrderInv o
    → IsOut (find i o.clients)
    → Reaches (Leaves i) o p
    → WellLinked l
    → length (slots_of i (add_entries l (shard_message p sid))) ≡ length (slots_of i l)
failed-granted i o p sid l real v h run w =
    let (v', h') = run-Out i o p v run h in
    epoch-granted sid i real p l max_clients w (good-Small p.clients v'.clients.1) v'.clients.0
    ∙ (rw (Out-granted sid (find i p.clients) h') (omega arith))

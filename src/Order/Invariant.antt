-- ===== src/Order/Invariant.antt =====
-- The invariant of the ordering server of src/order/order.cpp.
use zip_log_ae.Base.{
  ℕ, ◌+◌, ◌*◌, ◌≤◌, ◌<◌, ◌^◌, ◌≡◌, refl, Bool, true, false, ◌||◌, ◌&&◌, Option, none, some, List,
  [], ◌∷◌, arith, All, inl, inr, Bool-cases, if◌then◌else◌, ◌==◌, leb, find, assign, erase, length,
  Keyed, assign-Keyed, erase-Keyed, length-Keyed, find-bound, All-assign, All-erase, All-find,
  length-map,
}
use zip_log_ae.Storage.Slots.{StorageSlots}
use zip_log_ae.Storage.Server.{max_clients}
use zip_log_ae.Order.{
  Order, Client, Step, new_order, new_client, add_client, add_subscriber, add_storage, num_shards,
  has_key,
}
use zip_log_ae.Order.Handlers.{on_subscriber_finished}
use zip_log_ae.Order.Changes.{
  Changes, Evolves, Moves, no_more, updated, removed, freeze-Moves, rate-Moves, finished-Moves,
  cut-Moves, data-Moves,
}
use zip_log_ae.Order.Epoch.{
  Slot, epoch, heartbeat, active_slots, insert_slot, sort_slots, assignment, shard_message,
}
use zip_log_ae.Order.Epoch.Sorted.{Small}
use zip_log_ae.Order.Events.{
  Event, connect_storage, connect_client, connect_subscriber, freeze, rate, client_finished,
  subscriber_finished, cut, client_data, beat, next_epoch, added, handle, IsValid, Reaches, stop,
  step,
}

-- Data is requested only of clients that have failed, and every client has a shard.
pub record IsGood (e : ℕ × Client) : Type 0 where
  pub shard : e.1.shard_id < num_shards
  pub small : e.1.num_slots < 2 ^ 63
  pub asked : e.1.requested ≡ true → e.1.failed ≡ true

abbrev pub GoodClients : List (ℕ × Client) → Type 0
GoodClients xs = Keyed 0 max_clients xs × All IsGood xs

pub record OrderInv (o : Order) : Type 0 where
  pub clients : GoodClients o.clients
  pub base : o.gsn_base < 2 ^ 64

pub good-Small : (xs : List (ℕ × Client)) → All IsGood xs → Small xs
good-Small [] h = tt
good-Small (e ∷ xs) (g, h) = (g.small, good-Small xs h)

pub evolved :
    (xs : List (ℕ × Client)) (i : ℕ) (c c' : Client)
    → GoodClients xs
    → find i xs ≡ some c
    → Evolves c c'
    → GoodClients (assign i c' xs)
evolved xs i c c' (keyed, good) e v =
    let g = All-find IsGood i c xs good e in
    (
      assign-Keyed 0 max_clients i c' xs (omega arith) (find-bound 0 max_clients i c xs keyed e)
          keyed,
      All-assign IsGood i c' xs
          (record { shard = rw v.shard g.shard; small = v.small g.small; asked = v.asked g.asked })
          good,
    )

pub removed-Good : (xs : List (ℕ × Client)) (i : ℕ) → GoodClients xs → GoodClients (erase i xs)
removed-Good xs i (keyed, good) = (erase-Keyed 0 max_clients i xs keyed, All-erase IsGood i xs good)

changed : (xs ys : List (ℕ × Client)) → Changes xs ys → GoodClients xs → GoodClients ys
changed xs _ (no_more _) g = g
changed xs ys (updated _ _ i c c' e v rest) g =
    changed (assign i c' xs) ys rest (evolved xs i c c' g e v)
changed xs ys (removed _ _ i rest) g = changed (erase i xs) ys rest (removed-Good xs i g)

moved : (o : Order) (r : Step) → OrderInv o → Moves o r → OrderInv r.0
moved o r v m = record {
  clients = changed o.clients r.0.clients m.clients v.clients;
  base = rw m.base v.base;
}

Inv-if : (b : Bool) (x y : Step) → OrderInv x.0 → OrderInv y.0 → OrderInv (if b then x else y).0
Inv-if true x y p q = p
Inv-if false x y p q = q

connect-OrderInv :
    (o : Order) (i shard n : ℕ) → OrderInv o → n < 2 ^ 63 → OrderInv (add_client o i shard n).0
unfolding add_client
connect-OrderInv o i shard n v small =
    elim (Bool-cases (
      leb num_shards shard
      || leb max_clients i
      || has_key i o.clients
      || leb max_clients (length o.clients))) [
        | inl known ↦ rw known v
        | inr new ↦ rw new (record {
          clients = (
            assign-Keyed 0 max_clients i (new_client shard n) o.clients (omega arith) (ground arith)
                v.clients.0,
            All-assign IsGood i (new_client shard n) o.clients
                (record { shard = ground arith; small = small; asked = λ h. absurd cc })
                v.clients.1,
          );
          base = v.base;
        })
      ]

subscriber-OrderInv : (o : Order) (s : ℕ) → OrderInv o → OrderInv (add_subscriber o s).0
unfolding add_subscriber
subscriber-OrderInv o s v =
    Inv-if (has_key s o.subscribers) (o, []) _ v (record { clients = v.clients; base = v.base })

subscriber_finished-OrderInv :
    (o : Order) (s : ℕ) → OrderInv o → OrderInv (on_subscriber_finished o s).0
unfolding on_subscriber_finished
subscriber_finished-OrderInv o s v =
    Inv-if (has_key s o.subscribers) _ (o, []) (record { clients = v.clients; base = v.base }) v

epoch-OrderInv : (o : Order) → OrderInv o → OrderInv (epoch o).0
unfolding epoch
epoch-OrderInv o v = record { clients = v.clients; base = omega arith }

heartbeat-OrderInv : (o : Order) → OrderInv o → OrderInv (heartbeat o).0
unfolding heartbeat
heartbeat-OrderInv o v = record { clients = v.clients; base = v.base }

-- A storage server is added, or nothing changes.
abbrev pub SameClients : Order → Option Order → Type 0
SameClients o none = Unit
SameClients o (some p) = (p.clients ≡ o.clients) × (p.gsn_base ≡ o.gsn_base)

same-if :
    (o : Order) (b : Bool) (x y : Option Order)
    → SameClients o x
    → SameClients o y
    → SameClients o (if b then x else y)
same-if o true x y p q = p
same-if o false x y p q = q

pub add_storage-same :
    (o : Order) (shard replica address : ℕ) → SameClients o (add_storage o shard replica address)
unfolding add_storage
add_storage-same o shard replica address =
    same-if o (leb num_shards shard || leb 10 replica || has_key replica (o.replicas shard))
      (some o) _ (refl, refl)
      (same-if o ((length o.clients == 0) && (length o.subscribers == 0)) _ none (refl, refl) tt)

-- What holds of the state after a step that does not fail.
abbrev pub After : (Order → Type 0) → Option Step → Type 0
After P none = Unit
After P (some r) = P r.0

storage-OrderInv :
    (o : Order) (r : Option Order) → OrderInv o → SameClients o r → After OrderInv (added r)
storage-OrderInv o none v s = tt
storage-OrderInv o (some p) v s = record { clients = rw (s.0) v.clients; base = rw (s.1) v.base }

-- From the invariant (distinct clients below MAX_CLIENTS, each in a shard, with fewer than 2 ^ 63
-- slots, and data requested only of failed clients; the base is a 64-bit word), every step for a
-- valid event that fails no assertion keeps the invariant.
pub handle-OrderInv : (o : Order) (e : Event) → OrderInv o → IsValid e → After OrderInv (handle o e)
unfolding handle
handle-OrderInv o (connect_storage shard replica address) v h =
    storage-OrderInv o (add_storage o shard replica address) v
      (add_storage-same o shard replica address)
handle-OrderInv o (connect_client i shard n) v h = connect-OrderInv o i shard n v h
handle-OrderInv o (connect_subscriber s) v h = subscriber-OrderInv o s v
handle-OrderInv o (freeze i) v h = moved o _ v (freeze-Moves o i)
handle-OrderInv o (rate i n) v h = moved o _ v (rate-Moves o i n h)
handle-OrderInv o (client_finished i) v h = moved o _ v (finished-Moves o i)
handle-OrderInv o (subscriber_finished s) v h = subscriber_finished-OrderInv o s v
handle-OrderInv o (cut i shard replica gsn) v h = moved o _ v (cut-Moves o i shard replica gsn)
handle-OrderInv o (client_data i shard replica gsn p) v h =
    moved o _ v (data-Moves o i shard replica gsn p)
handle-OrderInv o beat v h = heartbeat-OrderInv o v
handle-OrderInv o next_epoch v h = epoch-OrderInv o v

run-OrderInv : (o p : Order) → OrderInv o → Reaches IsValid o p → OrderInv p
run-OrderInv o _ v (stop _) = v
run-OrderInv o q v (step _ p _ e ms h eq rest) =
    run-OrderInv p q (rw eq at (handle-OrderInv o e v h)) rest

new_order-OrderInv : OrderInv new_order
unfolding new_order
new_order-OrderInv = record { clients = (tt, tt); base = omega arith }

-- Every state that a started ordering server reaches by valid events has the invariant.
pub started-OrderInv : (o : Order) → Reaches IsValid new_order o → OrderInv o
started-OrderInv o run = run-OrderInv new_order o new_order-OrderInv run

-- `storage_slots::length`
unfoldable pub message_length : StorageSlots → ℕ
message_length m = 24 + length m.assignments * 16

active_slots-length : (xs : List (ℕ × Client)) → length (active_slots xs) ≤ length xs
unfolding active_slots
active_slots-length [] = omega arith
active_slots-length ((i, c) ∷ xs) = ground (arith, active_slots-length xs)

insert_slot-length : (a : Slot) (xs : List Slot) → length (insert_slot a xs) ≡ length xs + 1
unfolding insert_slot
insert_slot-length a [] = omega arith
insert_slot-length a (b ∷ xs) = ground (arith, insert_slot-length a xs)

sort_slots-length : (xs : List Slot) → length (sort_slots xs) ≡ length xs
unfolding sort_slots
sort_slots-length [] = omega arith
sort_slots-length (a ∷ xs) =
    omega (arith, insert_slot-length a (sort_slots xs), sort_slots-length xs)

-- `zip::consts::SEND_BUFFER_SIZE`
abbrev pub send_buffer_size : ℕ
send_buffer_size = 2 ^ 11

-- In every state that a started ordering server reaches by valid events, the message of an epoch
-- fits a send buffer.
pub shard_message-fits :
    (o : Order) (sid : ℕ)
    → Reaches IsValid new_order o
    → message_length (shard_message o sid) ≤ send_buffer_size
unfolding message_length shard_message
shard_message-fits o sid run =
    let v = started-OrderInv o run in
    omega (
      arith,
      length-map (sort_slots (active_slots o.clients)) (assignment sid),
      sort_slots-length (active_slots o.clients),
      active_slots-length o.clients,
      length-Keyed 0 max_clients o.clients (omega arith) v.clients.0,
    )

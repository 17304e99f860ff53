-- ===== src/Client/Links.antt =====
-- The connections of a client with the storage servers of its shard, src/client/client.cpp.
-- `manager::connect` yields the introduction of a server, or nothing when it fails.
pub mod Ending
pub mod Laws
mod Servers
mod Steps
use zip_log_ae.Order.{num_shards}
use zip_log_ae.Client.{Client, Sent, has_queue, on_storage_finished, on_order_finished, stop}
use zip_log_ae.Base.{
  ℕ, ◌+◌, ◌/◌, ◌%◌, Bool, true, false, not, ◌&&◌, ◌||◌, Option, none, some, List, [], ◌∷◌, ◌++◌,
  if◌then◌else◌, ◌==◌, length,
}

-- `storage_intro`; `valid` says that its length and its type are those of an introduction.
pub record StorageIntro : Type 0 where
  pub valid : Bool
  pub shard_id : ℕ
  pub replica_id : ℕ
  pub client_queues : ℕ

-- The client with the local variables that the connections share.
pub record Links : Type 0 where
  pub client : Client
  pub client_queues : ℕ
  pub destination : ℕ

abbrev pub is_empty : List ℕ → Bool
is_empty [] = true
is_empty (q ∷ qs) = false

unfoldable pub is_accepted : Links → StorageIntro → Bool
is_accepted l i =
    i.valid
    && (i.shard_id == l.client.shard_id)
    && not (has_queue i.replica_id l.client.queues)
    && (is_empty l.client.queues || l.client_queues == i.client_queues)

-- The queues of the first server determine the one that the client sends to; `none` is a division
-- by 0.
abbrev pub choose : Links → StorageIntro → List ℕ → Option Links
choose l i (q ∷ qs) = some l
choose l i [] =
    if i.client_queues == 0
    then none
    else some record l {
      client_queues = i.client_queues;
      destination = 1 + (l.client.client_id / num_shards) % i.client_queues;
    }

abbrev pub add_queue : ℕ → Links → Links
add_queue q l = record l { client = record l.client { queues = l.client.queues ++ q ∷ [] } }

unfoldable pub connect : Links → Option StorageIntro → Option Links
unfolding is_accepted
connect l none = some l
connect l (some i) = elim (is_accepted l i) [
  | false ↦ some l
  | true ↦ elim (choose l i l.client.queues) [
    | none ↦ none
    | some l ↦ some (add_queue i.replica_id l)
  ]
]

-- `client_storage_info`: what the servers of the list yield, one after the other.
unfoldable pub on_storage_info : Links → List (Option StorageIntro) → Option Links
unfolding connect
on_storage_info l [] = some l
on_storage_info l (i ∷ is) = elim (connect l i) [ none ↦ none | some l ↦ on_storage_info l is ]

-- The messages that change the connections.
pub data Event : Type 0 where
  storage_info : List (Option StorageIntro) → Event
  storage_finished : (shard_id replica_id : ℕ) → Event

unfoldable pub handle : Links → Event → Option Links
unfolding on_storage_info on_storage_finished
handle l (storage_info is) = on_storage_info l is
handle l (storage_finished shard_id replica_id) =
    some record l { client = (on_storage_finished l.client shard_id replica_id).0 }

unfoldable pub run : Links → List Event → Option Links
unfolding handle
run l [] = some l
run l (e ∷ es) = elim (handle l e) [ none ↦ none | some l ↦ run l es ]

-- The end of the connections in the order in which the servers answer.
unfoldable pub finish_all : Client → List ℕ → Client × List Sent
unfolding on_storage_finished
finish_all c [] = (c, [])
finish_all c (r ∷ rs) =
    let (d, first) = on_storage_finished c c.shard_id r in
    let (e, rest) = finish_all d rs in (e, first ++ rest)

-- ===== src/Network/Memory/Objects.antt =====
-- Who holds the memory of the manager: the `buffer` objects of src/network/buffer.h, which are moved
-- and destroyed, and the send queues with their receive buffer (src/network/send_queue.cpp).
use zip_log_ae.Network.Memory.{
  Handle, Pools, put_buffer, get_buffers, create_receive_buffer, free_recv_buffer, Region,
}
use zip_log_ae.Base.{ℕ, zero, suc, Option, none, some, List, [], ◌∷◌, ◌++◌, map, get_elem?}

-- A send queue: the index and the receive buffer that `accept` or `connect` created for it, and the
-- index that its peer has told, which is its member `index_`.
pub record QueuePair : Type 0 where
  pub index : ℕ
  pub handle : Handle
  pub remote_index : ℕ

-- The objects, `none` for one whose `manager_` is null, and the send queues.
pub record Holders : Type 0 where
  pub pools : Pools
  pub objects : List (Option Handle)
  pub queue_pairs : List QueuePair

-- A connection comes with what the peer answers to the index that it is told. Move construction and
-- move assignment refer to objects by their places.
pub data Event : Type 0 where
  get : ℕ → Event
  move_construct : ℕ → Event
  move_assign : ℕ → ℕ → Event
  destroy : ℕ → Event
  connect : (ℕ → ℕ) → Event
  disconnect : ℕ → Event

module _ {ℓ} {A : Type ℓ} where
  -- The list without an element.
  unfoldable pub remove_at : ℕ → List A → List A
  remove_at i [] = []
  remove_at zero (x ∷ xs) = xs
  remove_at (suc i) (x ∷ xs) = x ∷ remove_at i xs

  -- The list with another element at a place, unchanged when there is no such place.
  unfoldable pub replace : ℕ → A → List A → List A
  replace i a [] = []
  replace zero a (x ∷ xs) = a ∷ xs
  replace (suc i) a (x ∷ xs) = x ∷ replace i a xs

-- The object at a place; that of no place owns nothing.
unfoldable pub object : ℕ → List (Option Handle) → Option Handle
object i [] = none
object zero (x ∷ xs) = x
object (suc i) (x ∷ xs) = object i xs

-- `buffer(buffer&&)`: the members of a new object are swapped with those of the other.
unfoldable pub move_construct_at : ℕ → List (Option Handle) → List (Option Handle)
move_construct_at i xs = replace i none xs ++ (object i xs ∷ [])

-- `operator=(buffer&&)`: when both objects exist, their members are swapped.
unfoldable pub move_assign_at : ℕ → ℕ → List (Option Handle) → List (Option Handle)
move_assign_at i j xs = elim (get_elem? xs i) [
  | none ↦ xs
  | some x ↦ elim (get_elem? xs j) [ none ↦ xs | some y ↦ replace j x (replace i y xs) ]
]

-- `~buffer`
abbrev pub release : Option Handle → Pools → Pools
release none m = m
release (some h) m = put_buffer h m

-- `~send_queue`, as far as it concerns the receive buffers: it frees `index_`.
abbrev pub leave : ℕ → Holders → Option Holders
leave i s = elim (get_elem? s.queue_pairs i) [
  | none ↦ some s
  | some q ↦ elim (free_recv_buffer q.remote_index s.pools) [
    | none ↦ none
    | some m ↦ some record s { pools = m; queue_pairs = remove_at i s.queue_pairs }
  ]
]

module _ (page : ℕ → Region) where
  unfoldable pub step : Holders → Event → Option Holders
  step s (get n) = elim (get_buffers page n s.pools) [
    | none ↦ none
    | some (m, hs) ↦ some record s { pools = m; objects = s.objects ++ map some hs }
  ]
  step s (move_construct i) = some record s { objects = move_construct_at i s.objects }
  step s (move_assign i j) = some record s { objects = move_assign_at i j s.objects }
  step s (destroy i) =
      some
        record s { pools = release (object i s.objects) s.pools; objects = remove_at i s.objects }
  step s (connect answer) = elim (create_receive_buffer page s.pools) [
    | none ↦ none
    | some (m, (index, handle)) ↦
        let q : QueuePair = record {
          index = index;
          handle = handle;
          remote_index = answer index;
        } in
        some record s { pools = m; queue_pairs = s.queue_pairs ++ (q ∷ []) }
  ]
  step s (disconnect i) = leave i s

  -- A run of the program: it ends at the step that aborts it.
  unfoldable pub run : Holders → List Event → Option Holders
  run s [] = some s
  run s (e ∷ es) = elim (step s e) [ none ↦ none | some t ↦ run t es ]

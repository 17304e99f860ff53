-- ===== src/Network/Memory.antt =====
-- The memory of `zip::network::manager`: the send buffers that it lends and the receive buffers of
-- the queue pairs, both cut from huge pages, and the objects of src/network/buffer.h that own the
-- send buffers. `page i` is the `i`-th huge page with the keys under which the device registers it.
pub mod Cover
pub mod Examples
pub mod Objects
pub mod Receive
pub mod Runs
pub mod Send
pub mod Shares
pub mod Account
pub mod Attempts
pub mod Create
use zip_log_ae.Network.SendQueue.{max_queue_pairs, receive_buffer_size, send_buffer_size}
use zip_log_ae.Network.Transfer.{skip}
use zip_log_ae.Base.{
  ℕ, zero, suc, ◌+◌, ◌/◌, ◌^◌, Bool, true, false, Option, none, some, List, [], ◌∷◌, ◌++◌,
  if◌then◌else◌, ltb, ◌==◌, length, take, replicate, get_elem?,
}

abbrev pub huge_page_size : ℕ
huge_page_size = 2 ^ 21

-- What the manager reads of an `ibv_mr`.
pub record Region : Type 0 where
  pub address : ℕ
  pub local_key : ℕ
  pub remote_key : ℕ

-- The address of a buffer and its key.
abbrev pub Handle : Type 0
Handle = ℕ × ℕ

-- The members of the manager that `memory_lock_` protects.
pub record Pools : Type 0 where
  pub page_list : List Region
  pub free_list : List Handle
  pub receive_buffers : List (Option ℕ)
  pub receive_keys : List ℕ
  pub free_receive_buffers : List Bool

-- The constructor of the manager.
abbrev pub new_pools : Pools
new_pools = record {
  page_list = [];
  free_list = [];
  receive_buffers = replicate max_queue_pairs none;
  receive_keys = replicate max_queue_pairs 0;
  free_receive_buffers = replicate max_queue_pairs true;
}

-- `count` buffers from the offset `j` of a page on, each with the same key.
unfoldable pub carve : ℕ → ℕ → ℕ → ℕ → ℕ → List Handle
carve size address key zero j = []
carve size address key (suc count) j = (address + j, key) ∷ carve size address key count (j + size)

-- A page that has been registered and, cut into send buffers, added to the free list.
abbrev pub add_page : Region → Pools → Pools
add_page r m = record m {
  page_list = m.page_list ++ (r ∷ []);
  free_list =
      m.free_list
      ++ carve send_buffer_size r.address r.local_key (huge_page_size / send_buffer_size) 0;
}

-- `put_buffer`
abbrev pub put_buffer : Handle → Pools → Pools
put_buffer h m = record m { free_list = m.free_list ++ (h ∷ []) }

module _ {ℓ} {A : Type ℓ} where
  -- An assignment to an element of a `std::array`: `none` when the index is out of bounds.
  unfoldable pub set_at : ℕ → A → List A → Option (List A)
  set_at i a [] = none
  set_at zero a (x ∷ xs) = some (a ∷ xs)
  set_at (suc i) a (x ∷ xs) = elim (set_at i a xs) [ none ↦ none | some ys ↦ some (x ∷ ys) ]

-- `std::bitset::_Find_first`: the number of bits when none is set.
unfoldable pub find_first : List Bool → ℕ
find_first [] = 0
find_first (true ∷ bs) = 0
find_first (false ∷ bs) = suc (find_first bs)

-- The loop of `create_receive_buffer` that stores the buffers of a page, from the offset `j` and
-- the index `index + i` on.
unfoldable pub store :
    Region → ℕ → ℕ → ℕ → List (Option ℕ) → List ℕ → Option (List (Option ℕ) × List ℕ)
store r zero at j buffers keys = some (buffers, keys)
store r (suc count) at j buffers keys = elim (set_at at (some (r.address + j)) buffers) [
  | none ↦ none
  | some bs ↦ elim (set_at at r.remote_key keys) [
    | none ↦ none
    | some ks ↦ store r count (at + 1) (j + receive_buffer_size) bs ks
  ]
]

abbrev pub store_page : Region → ℕ → Pools → Option Pools
store_page r index m =
    elim (store r (huge_page_size / receive_buffer_size) index 0 m.receive_buffers m.receive_keys) [
      | none ↦ none
      | some (bs, ks) ↦
          some record m {
            page_list = m.page_list ++ (r ∷ []);
            receive_buffers = bs;
            receive_keys = ks;
          }
    ]

-- The end of `create_receive_buffer`: the index, the address and the key.
abbrev pub use_index : ℕ → Pools → Option (Pools × (ℕ × Handle))
use_index index m = elim (get_elem? m.receive_buffers index) [
  | none ↦ none
  | some none ↦ none
  | some (some address) ↦ elim (get_elem? m.receive_keys index) [
    | none ↦ none
    | some key ↦ elim (set_at index false m.free_receive_buffers) [
      | none ↦ none
      | some bs ↦ some (record m { free_receive_buffers = bs }, (index, (address, key)))
    ]
  ]
]

-- `free_recv_buffer`: `std::bitset::set` throws when the index is out of bounds.
unfoldable pub free_recv_buffer : ℕ → Pools → Option Pools
free_recv_buffer index m = elim (set_at index true m.free_receive_buffers) [
  | none ↦ none
  | some bs ↦ some record m { free_receive_buffers = bs }
]

-- The first `num_buffers` of the free list, which are erased from it.
abbrev pub split : ℕ → Pools → Pools × List Handle
split num_buffers m =
    (record m { free_list = skip num_buffers m.free_list }, take num_buffers m.free_list)

module _ (page : ℕ → Region) where
  -- The loop of `get_buffers`: `none` when the fuel does not suffice.
  unfoldable pub grow : ℕ → ℕ → Pools → Option Pools
  grow zero num_buffers m = if ltb (length m.free_list) num_buffers then none else some m
  grow (suc fuel) num_buffers m = elim (ltb (length m.free_list) num_buffers) [
    | false ↦ some m
    | true ↦ grow fuel num_buffers (add_page (page (length m.page_list)) m)
  ]

  -- `get_buffers`; every round of the loop adds buffers, so `num_buffers` rounds are enough.
  unfoldable pub get_buffers : ℕ → Pools → Option (Pools × List Handle)
  get_buffers num_buffers m = elim (grow num_buffers num_buffers m) [
    | none ↦ none
    | some m ↦ some (split num_buffers m)
  ]

  -- `create_receive_buffer` once it has an index: `none` when the assertion fails or an index is out
  -- of bounds.
  unfoldable pub create_at : ℕ → Pools → Option (Pools × (ℕ × Handle))
  create_at index m = elim (index == max_queue_pairs) [
    | true ↦ none
    | false ↦ elim (get_elem? m.receive_buffers index) [
      | none ↦ none
      | some (some _) ↦ use_index index m
      | some none ↦ elim (store_page (page (length m.page_list)) index m) [
        | none ↦ none
        | some m ↦ use_index index m
      ]
    ]
  ]

  unfoldable pub create_receive_buffer : Pools → Option (Pools × (ℕ × Handle))
  create_receive_buffer m = create_at (find_first m.free_receive_buffers) m

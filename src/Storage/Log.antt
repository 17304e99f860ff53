-- ===== src/Storage/Log.antt =====
-- src/storage/log.h and src/storage/log.cpp: the log of a storage server and `log::add_entries`.
-- A pointer to an entry is its place in the log, `block * num_entries_per_block + index`; a fresh
-- block holds zeroed entries.

pub mod Epoch
pub mod Links
pub mod Order
pub mod Owned
use zip_log_ae.Base.{
  ℕ, zero, suc, ◌+◌, ◌*◌, ◌/◌, ◌%◌, ◌^◌, Bool, true, false, ◌&&◌, Option, none, some, List, [], ◌∷◌,
  if◌then◌else◌, ltb, leb, ◌==◌, is_none, u64_max, add64, sub64, take, replicate,
}
use zip_log_ae.Storage.Slots.{StorageSlots, generate}

-- `zip::consts::NUM_ENTRIES_PER_BLOCK`
abbrev pub num_entries_per_block : ℕ
num_entries_per_block = 1024 * 256

abbrev pub Bytes : Type 0
Bytes = List ℕ

-- The field `entry.data`: eight bytes kept in place, or the pointed-to copy.
pub data Data : Type 0 where
  inline : Bytes → Data
  pointer : Bytes → Data

pub record Entry : Type 0 where
  pub client_id : ℕ
  pub gsn : ℕ
  pub data_length : ℕ
  pub payload : Data
  pub set : Bool
  pub next : Option ℕ
  pub prev : Option ℕ

abbrev pub zeroed : Entry
zeroed = record {
  client_id = 0;
  gsn = 0;
  data_length = 0;
  payload = inline (replicate 8 0);
  set = false;
  next = none;
  prev = none;
}

pub record Log : Type 0 where
  pub blocks : ℕ
  pub cells : ℕ → Entry
  pub current_entries : ℕ
  pub num_entries : ℕ
  pub first : ℕ → Option ℕ
  pub last : ℕ → Option ℕ
  pub entry_index : ℕ
  pub block_index : ℕ

unfoldable pub new_log : Log
new_log = record {
  blocks = 1;
  cells = λ _. zeroed;
  current_entries = 0;
  num_entries = 0;
  first = λ _. none;
  last = λ _. none;
  entry_index = 0;
  block_index = 0;
}

abbrev pub update {ℓ} : {A : Type ℓ} → (ℕ → A) → ℕ → A → ℕ → A
update f k v a = if a == k then v else f a

-- At the end of a block, a new one is allocated and the iterators advance.
unfoldable pub grow : Log → Log
grow l =
    if l.entry_index == num_entries_per_block
    then record l { blocks = l.blocks + 1; block_index = l.block_index + 1; entry_index = 0 }
    else l

-- Links the entry at `a` behind the last one of its client.
unfoldable pub link : Option ℕ → Log → ℕ → ℕ → Log
link none l a client_id = record l {
  first = update l.first client_id (some a);
  last = update l.last client_id (some a);
}
link (some last) l a client_id = record l {
  cells =
      let linked = update l.cells a (record (l.cells a) { prev = some last }) in
      update linked last (record (linked last) { next = some a });
  last = update l.last client_id (some a);
}

abbrev pub write_slot : Log → ℕ → ℕ → ℕ → Log
write_slot l a gsn client_id = record l {
  cells = update l.cells a (record (l.cells a) { gsn = gsn; client_id = client_id });
  entry_index = l.entry_index + 1;
}

abbrev pub count_entry : Log → Log
count_entry l = record l { current_entries = l.current_entries + 1 }

-- The part of the lambda `yield` behind its test of the client, at the entry `*entry_++`.
unfoldable pub append_at : ℕ → Log → ℕ → ℕ → Log
unfolding link
append_at a l gsn client_id =
    count_entry (link (l.last client_id) (write_slot l a gsn client_id) a client_id)

unfoldable pub append_entry : Log → ℕ → ℕ → Log
unfolding append_at
append_entry l = append_at (l.block_index * num_entries_per_block + l.entry_index) l

-- The log while slots are added, with `slots.start_gsn`.
pub record Filling : Type 0 where
  pub log : Log
  pub start_gsn : ℕ

unfoldable pub yield_slot : ℕ → Filling → Filling
unfolding grow append_entry
yield_slot client_id s = record {
  log = if client_id == u64_max then s.log else append_entry (grow s.log) s.start_gsn client_id;
  start_gsn = add64 s.start_gsn 1;
}

abbrev pub begin_fill : Log → ℕ → Filling
begin_fill l start_gsn = record { log = l; start_gsn = start_gsn }

unfoldable pub fill : Log → StorageSlots → Filling
unfolding yield_slot
fill l slots = generate yield_slot slots.assignments (begin_fill l slots.start_gsn)

unfoldable pub add_entries : Log → StorageSlots → Log
unfolding fill
add_entries l slots = let s = fill l slots in record (s.log) { num_entries = s.log.current_entries }

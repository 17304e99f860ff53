-- ===== src/Subscriber/Log.antt =====
-- The classes `log` and `position` of src/subscriber/log.h and log.cpp. The nodes of the list of
-- blocks are numbered; a pointer to a cell is its place, `node * num_entries_per_block + index`.
-- The nodes before `first_block` have been recycled: their memory is that of later nodes.
use zip_log_ae.Base.{ℕ, ◌+◌, ◌*◌, ◌/◌, ◌%◌, Option, none, some, if◌then◌else◌, ltb, leb, ◌==◌}
use zip_log_ae.Storage.Log.{num_entries_per_block, Bytes, update}

-- `zip::api::subscriber_log_entry`
pub record LogEntry : Type 0 where
  pub client_id : ℕ
  pub gsn : ℕ
  pub shard_id : ℕ
  pub replica_id : ℕ
  pub bytes : Bytes

pub record Log : Type 0 where
  pub cells : ℕ → Option LogEntry
  pub counters : ℕ → ℕ
  pub first_block : ℕ
  pub num_blocks : ℕ
  pub num_iterators : ℕ

unfoldable pub new_log : ℕ → Log
new_log num_iterators = record {
  cells = λ _. none;
  counters = λ _. 0;
  first_block = 0;
  num_blocks = 2;
  num_iterators = num_iterators;
}

-- `log::recycle_blocks`: the new node has the memory of the first one, zeroed.
unfoldable pub recycle_blocks : Log → Log
recycle_blocks l =
    if l.counters l.first_block == l.num_iterators
    then record l {
      counters = update l.counters l.num_blocks 0;
      cells = λ a. if a / num_entries_per_block == l.num_blocks then none else l.cells a;
      first_block = l.first_block + 1;
      num_blocks = l.num_blocks + 1;
    }
    else l

pub record Position : Type 0 where
  pub current_blocks : ℕ
  pub block_index : ℕ

abbrev pub new_position : Position
new_position = record { current_blocks = 0; block_index = 0 }

-- `while (block > block_index_)`: forward, and never back.
abbrev pub advance_to : ℕ → ℕ → ℕ
advance_to block block_index = if ltb block_index block then block else block_index

-- A number of blocks that was read before, refreshed if it is not larger than `block`.
abbrev pub see_blocks : Log → ℕ → ℕ → ℕ
see_blocks l current_blocks block =
    if leb current_blocks block then l.num_blocks else current_blocks

-- `position::insert`; `none` while it waits for a block.
unfoldable pub insert : Log → Position → LogEntry → Option (Log × Position)
insert l p e =
    let block = e.gsn / num_entries_per_block in
    let seen = see_blocks l p.current_blocks block in
    let block_index = advance_to block p.block_index in
    if leb seen block
    then none
    else some (
      record l {
        cells =
            update l.cells (block_index * num_entries_per_block + e.gsn % num_entries_per_block)
              (some e);
      },
      record { current_blocks = seen; block_index = block_index },
    )

-- ===== src/Storage/Iterator.antt =====
-- The class `iterator` of src/storage/log.cpp: how a subscriber thread steps over the log.
pub mod InOrder
use zip_log_ae.Base.{ℕ, ◌+◌, ◌*◌, ◌/◌, ◌%◌, Option, none, some, if◌then◌else◌, leb, ltb}
use zip_log_ae.Storage.Log.{Entry, Log, num_entries_per_block}

pub record Iterator : Type 0 where
  pub entry_index : ℕ
  pub stride : ℕ
  pub current_entries : ℕ
  pub block_index : ℕ
  pub entry : Option ℕ

unfoldable pub new_iterator : ℕ → ℕ → Iterator
new_iterator index stride = record {
  entry_index = index;
  stride = stride;
  current_entries = 0;
  block_index = 0;
  entry = none;
}

-- `block > block_index_` moves the block forward, and never back.
abbrev pub advance_block : ℕ → ℕ → ℕ
advance_block block block_index = if ltb block_index block then block else block_index

-- The next place, if the log reaches so far. A read of `num_entries_` refreshes the cached size.
unfoldable pub fetch : Log → Iterator → Iterator
fetch l it =
    let seen =
      if leb it.current_entries it.entry_index then l.num_entries else it.current_entries in
    let block = advance_block (it.entry_index / num_entries_per_block) it.block_index in
    if leb seen it.entry_index then record it { current_entries = seen } else record it {
      current_entries = seen;
      block_index = block;
      entry = some (block * num_entries_per_block + it.entry_index % num_entries_per_block);
      entry_index = it.entry_index + it.stride;
    }

-- The entry under consideration is returned once it is set, and given up then.
unfoldable pub take_set : Option ℕ → Log → Iterator → Option Entry × Iterator
take_set none l it = (none, it)
take_set (some a) l it =
    if (l.cells a).set then (some (l.cells a), record it { entry = none }) else (none, it)

abbrev pub obtain : Option ℕ → Log → Iterator → Iterator
obtain none l it = fetch l it
obtain (some a) l it = it

unfoldable pub next_entry : Log → Iterator → Option Entry × Iterator
unfolding fetch take_set
next_entry l it = let it' = obtain it.entry l it in take_set it'.entry l it'

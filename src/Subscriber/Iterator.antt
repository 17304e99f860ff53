-- ===== src/Subscriber/Iterator.antt =====
-- The classes `iterator` and `sequential_iterator` of src/subscriber/log.h and log.cpp.
use zip_log_ae.Base.{
  ℕ, ◌+◌, ◌-◌, ◌*◌, ◌/◌, ◌%◌, ◌&&◌, Option, none, some, if◌then◌else◌, ltb, leb, ◌==◌,
}
use zip_log_ae.Storage.Log.{num_entries_per_block}
use zip_log_ae.Subscriber.Log.{Log, LogEntry, advance_to, see_blocks}

pub record Iterator : Type 0 where
  pub entry_index : ℕ
  pub stride : ℕ
  pub current_blocks : ℕ
  pub block_index : ℕ
  pub entry : Option ℕ

-- The constructor leaves `current_blocks_` unset, so its value is an argument.
unfoldable pub new_iterator : ℕ → ℕ → ℕ → Iterator
new_iterator current_blocks index stride = record {
  entry_index = index;
  stride = stride;
  current_blocks = current_blocks;
  block_index = 0;
  entry = none;
}

-- Each node that the iterator leaves counts it.
abbrev pub count_up : ℕ → ℕ → (ℕ → ℕ) → ℕ → ℕ
count_up from to counters b = if leb from b && ltb b to then counters b + 1 else counters b

-- The next cell, `step` entries before the one after it, unless its block is not there yet.
unfoldable pub fetch : ℕ → Log → Iterator → Log × Iterator
fetch step l it =
    let block = it.entry_index / num_entries_per_block in
    let seen = see_blocks l it.current_blocks block in
    let to = advance_to block it.block_index in
    if leb seen block then (l, record it { current_blocks = seen }) else (
      record l { counters = count_up it.block_index to l.counters },
      record it {
        current_blocks = seen;
        block_index = to;
        entry = some (to * num_entries_per_block + it.entry_index % num_entries_per_block);
        entry_index = it.entry_index + step;
      },
    )

abbrev pub obtain : ℕ → Option ℕ → Log → Iterator → Log × Iterator
obtain step none l it = fetch step l it
obtain step (some a) l it = (l, it)

-- What stands in the cell under consideration; the iterator keeps an empty cell.
abbrev pub read_cell : Log → Option ℕ → Option LogEntry
read_cell l none = none
read_cell l (some a) = l.cells a

abbrev pub release : Option LogEntry → Iterator → Iterator
release none it = it
release (some e) it = record it { entry = none }

-- `iterator::next_entry`
unfoldable pub next_entry : Log → Iterator → Option LogEntry × Log × Iterator
unfolding fetch
next_entry l it =
    let r = obtain it.stride it.entry l it in
    let e = read_cell r.0 r.1.entry in (e, r.0, release e r.1)

-- Only the thread whose turn it is processes an entry.
abbrev pub take_turn : ℕ → Iterator → Option LogEntry → Option LogEntry
take_turn index it none = none
take_turn index it (some e) = if (it.entry_index - 1) % it.stride == index then some e else none

-- `sequential_iterator::next_entry`; the iterator starts at the entry 0, and `index` is its own.
unfoldable pub next_sequential : ℕ → Log → Iterator → Option LogEntry × Log × Iterator
unfolding fetch
next_sequential index l it =
    let r = obtain 1 it.entry l it in
    let e = read_cell r.0 r.1.entry in (take_turn index r.1 e, r.0, release e r.1)

-- ===== src/Storage/Position.antt =====
-- The class `position` of src/storage/log.cpp: where a client stands in the log.
-- An operation that meets a failing `ZIP_ASSERT` returns `none`. The loops over the links of a
-- client run on fuel, the number of entries in the log.
pub mod Added
pub mod Close
pub mod Final
pub mod Insert
pub mod Marks
pub mod Stable
pub mod Walk
use zip_log_ae.Base.{
  ℕ, zero, suc, true, ◌||◌, Option, none, some, List, [], ◌∷◌, if◌then◌else◌, ltb, ◌==◌, u64_max,
  sub64, take, replicate,
}
use zip_log_ae.Storage.Log.{Bytes, Data, inline, pointer, Entry, Log, update}

-- `detail::alloc_copy`: `buffer` is the memory from `data` on, which goes on behind the data.
unfoldable pub alloc_copy : Bytes → ℕ → Data
alloc_copy buffer length =
    if ltb 8 length
    then pointer (take length buffer)
    else if ltb 0 length
    then inline (take 8 buffer)
    else inline (replicate 8 0)

pub record Position : Type 0 where
  pub client_id : ℕ
  pub current_entry : Option ℕ

abbrev pub next_slot : Log → Position → Option ℕ
next_slot l p = elim p.current_entry [ none ↦ l.first p.client_id | some a ↦ (l.cells a).next ]

abbrev pub mark : (ℕ → Entry) → ℕ → ℕ → Entry
mark m a = update m a (record (m a) { set = true })

-- `while (--close)`, by the rounds that are left.
unfoldable pub close_slots : ℕ → (ℕ → Entry) → ℕ → Option ((ℕ → Entry) × ℕ)
close_slots zero m a = some (m, a)
close_slots (suc n) m a = elim (m a).next [ none ↦ none | some b ↦ close_slots n (mark m a) b ]

pub record Stored : Type 0 where
  pub log : Log
  pub position : Position
  pub gsn : ℕ

-- The attributes of the entry are set, and the client stays there.
unfoldable pub store : Log → Position → (ℕ → Entry) → ℕ → Bytes → ℕ → Stored
unfolding alloc_copy
store l p m a buffer length = record {
  log = record l {
    cells =
        update m a
          (record (m a) { payload = alloc_copy buffer length; data_length = length; set = true });
  };
  position = record p { current_entry = some a };
  gsn = (m a).gsn;
}

-- What is stored at the entry where a loop stopped; a loop that met the end of the links failed.
unfoldable pub store_at : Log → Position → Bytes → ℕ → Option ((ℕ → Entry) × ℕ) → Option Stored
unfolding store
store_at l p buffer length none = none
store_at l p buffer length (some (m, a)) = some (store l p m a buffer length)

unfoldable pub insert_from : Option ℕ → Log → Position → Bytes → ℕ → ℕ → Option Stored
unfolding close_slots store_at
insert_from none l p buffer length close = none
insert_from (some a) l p buffer length close =
    store_at l p buffer length (close_slots (sub64 close 1) l.cells a)

unfoldable pub insert : Log → Position → Bytes → ℕ → ℕ → Option Stored
unfolding insert_from
insert l p = insert_from (next_slot l p) l p

-- `while (current_entry_->gsn < gsn)`
unfoldable pub seek_gsn : ℕ → ℕ → (ℕ → Entry) → ℕ → Option ((ℕ → Entry) × ℕ)
seek_gsn zero gsn m a = none
seek_gsn (suc fuel) gsn m a =
    let rest : Option ((ℕ → Entry) × ℕ) = elim (m a).next [
      | none ↦ none
      | some b ↦ seek_gsn fuel gsn (mark m a) b
    ] in
    if ltb (m a).gsn gsn then rest else some (m, a)

-- `ZIP_ASSERT_EQ(current_entry_->gsn, gsn)`
unfoldable pub with_gsn : ℕ → Option ((ℕ → Entry) × ℕ) → Option ((ℕ → Entry) × ℕ)
with_gsn gsn none = none
with_gsn gsn (some (m, a)) = if (m a).gsn == gsn then some (m, a) else none

unfoldable pub patch_from : Option ℕ → Log → Position → Bytes → ℕ → ℕ → Option Stored
unfolding seek_gsn with_gsn store_at
patch_from none l p buffer length gsn = none
patch_from (some a) l p buffer length gsn =
    store_at l p buffer length (with_gsn gsn (seek_gsn l.current_entries gsn l.cells a))

unfoldable pub patch : Log → Position → Bytes → ℕ → ℕ → Option Stored
unfolding patch_from
patch l p = patch_from (next_slot l p) l p

unfoldable pub suffix_from : ℕ → ℕ → (ℕ → Entry) → Option ℕ → List Entry
suffix_from zero begin_gsn m a = []
suffix_from (suc fuel) begin_gsn m none = []
suffix_from (suc fuel) begin_gsn m (some a) =
    let rest = m a ∷ suffix_from fuel begin_gsn m (m a).prev in
    if begin_gsn == u64_max || ltb begin_gsn (m a).gsn then rest else []

unfoldable pub suffix : Log → Position → ℕ → List Entry
unfolding suffix_from
suffix l p begin_gsn = suffix_from l.current_entries begin_gsn l.cells p.current_entry

-- `while (auto next = current_entry_->next)`
unfoldable pub close_rest : ℕ → (ℕ → Entry) → ℕ → (ℕ → Entry) × ℕ
close_rest zero m a = (m, a)
close_rest (suc fuel) m a = elim (m a).next [
  | none ↦ (m, a)
  | some b ↦ close_rest fuel (mark m b) b
]

abbrev pub closed_at : Log → Position → (ℕ → Entry) × ℕ → Log × Position
closed_at l p (m, a) = (record l { cells = m }, record p { current_entry = some a })

-- By the current entry and the first one; a client that stands nowhere begins at its first entry.
unfoldable pub close_from : Option ℕ → Option ℕ → Log → Position → Log × Position
unfolding close_rest
close_from (some a) _ l p = closed_at l p (close_rest l.current_entries l.cells a)
close_from none (some a) l p = closed_at l p (close_rest l.current_entries (mark l.cells a) a)
close_from none none l p = (l, p)

unfoldable pub close : Log → Position → Log × Position
unfolding close_from
close l p = close_from p.current_entry (l.first p.client_id) l p

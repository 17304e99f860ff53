-- ===== src/Storage/Log/Epoch.antt =====
-- What one message of slots adds to the log: `log::add_entries` as a whole.
use zip_log_ae.Base.{
  ℕ, ◌+◌, ◌%◌, ◌^◌, ◌<◌, ◌≡◌, ◌≢◌, refl, ◌∙◌, inl, inr, List, arith, if◌then◌else◌, ◌==◌,
  Bool-cases, length, length-append, u64_max,
}
use zip_log_ae.Storage.Slots.{StorageSlots, Assignment}
use zip_log_ae.Storage.Slots.Simulation.{generate-sim}
use zip_log_ae.Storage.Slots.Sums.{total_weight, weigh, LedByMost, generate-weight}
use zip_log_ae.Storage.Log.{
  Log, Filling, num_entries_per_block, yield_slot, begin_fill, fill, add_entries, append_entry,
  grow,
}
use zip_log_ae.Storage.Log.Owned.{owned}
use zip_log_ae.Storage.Log.Links.{
  WellLinked, owner, yield_slot-WellLinked, owned-extend, append_entry-owner, append_entry-count,
  grow-WellLinked,
}

fill-WellLinked : (l : Log) (slots : StorageSlots) → WellLinked l → WellLinked (fill l slots).log
unfolding fill
fill-WellLinked l slots w =
    generate-sim yield_slot yield_slot (λ s _. WellLinked s.log)
      (λ c s _ w. yield_slot-WellLinked c s w) slots.assignments (begin_fill l slots.start_gsn)
      (begin_fill l slots.start_gsn) w

-- `add_entries` keeps the log well linked: from the first to the last entry of each client, `next`
-- and `prev` lead over exactly its entries in the order of their places, fresh entries are zeroed,
-- and the counters agree with the blocks.
pub add_entries-WellLinked :
    (l : Log) (slots : StorageSlots) → WellLinked l → WellLinked (add_entries l slots)
unfolding add_entries
add_entries-WellLinked l slots w =
    let v = fill-WellLinked l slots w in
    record {
      chained = v.chained;
      placed = record { place = v.placed.place; room = v.placed.room; blocks = v.placed.blocks };
    }

-- The number of slots that the message hands out, over all shards.
abbrev pub total_slots : List Assignment → ℕ
total_slots = total_weight (λ _. 1)

-- The related run counts the slots.
module _ (start : ℕ) where
  abbrev Reached : Filling → ℕ → Type 0
  Reached s n = s.start_gsn ≡ (start + n) % 2 ^ 64

  reach :
      (c : ℕ) (s : Filling) (n : ℕ) → Reached s n → Reached (yield_slot c s) (weigh (λ _. 1) c n)
  unfolding yield_slot
  reach c s n e = omega arith

-- After a message led by the largest client, the next GSN is the start of the message plus the
-- total of all its slots, those of other shards included, modulo 2 ^ 64.
pub fill-start_gsn :
    (l : Log) (slots : StorageSlots)
    → LedByMost slots.assignments
    → slots.start_gsn < 2 ^ 64
    → (fill l slots).start_gsn ≡ (slots.start_gsn + total_slots slots.assignments) % 2 ^ 64
unfolding fill
fill-start_gsn l slots led small = omega (
  arith,
  generate-sim yield_slot (weigh (λ _. 1)) (Reached slots.start_gsn) (reach slots.start_gsn)
      slots.assignments (begin_fill l slots.start_gsn) 0 (omega arith),
  generate-weight (λ _. 1) slots.assignments 0 led,
)

-- The entries of one client.
abbrev pub slots_of : ℕ → Log → List ℕ
slots_of c l = owned (owner l.cells) c 0 l.current_entries

slots_of-append :
    (d : ℕ) (l : Log) (gsn c : ℕ)
    → WellLinked l
    → length (slots_of d (append_entry l gsn c)) ≡ length (slots_of d l) + (if d == c then 1 else 0)
slots_of-append d l gsn c w =
    rw
      (
        append_entry-count l gsn c,
        owned-extend (owner l.cells) (owner (append_entry l gsn c).cells) c l.current_entries
            (λ x h. ground (arith, append_entry-owner l gsn c x w))
            (ground (arith, append_entry-owner l gsn c l.current_entries w)) d l.current_entries 0
            (omega arith),
        length-append,
      )
      (ground arith)

slots_of-grow : (d : ℕ) (l : Log) → slots_of d (grow l) ≡ slots_of d l
unfolding grow
slots_of-grow d l = elim (Bool-cases (l.entry_index == num_entries_per_block)) [
  | inl full ↦ rw full
  | inr space ↦ rw space
]

-- The weight that counts the slots of one client.
abbrev pub slot_of : ℕ → ℕ → ℕ
slot_of d c = if d == c then 1 else 0

module _ (d : ℕ) (real : d ≢ u64_max) where
  abbrev Holds : Filling → ℕ → Type 0
  Holds s n = WellLinked s.log × (length (slots_of d s.log) ≡ n)

  hold : (c : ℕ) (s : Filling) (n : ℕ) → Holds s n → Holds (yield_slot c s) (weigh (slot_of d) c n)
  unfolding yield_slot
  hold c s n (w, e) = (yield_slot-WellLinked c s w, counts)
    where
      counts : length (slots_of d (yield_slot c s).log) ≡ weigh (slot_of d) c n
      counts = elim (Bool-cases (c == u64_max)) [
        | inl skip ↦ rw skip (ground arith)
        | inr mine ↦
            rw
              (
                mine,
                slots_of-append d (grow s.log) s.start_gsn c (grow-WellLinked s.log w),
                slots_of-grow d s.log,
                e,
              )
              refl
      ]

  -- On a well linked log and a message led by the largest client, `add_entries` adds for each
  -- client (other than the -1 of another shard) exactly as many entries as the message assigns to
  -- it.
  pub add_entries-slots_of :
      (l : Log) (slots : StorageSlots)
      → WellLinked l
      → LedByMost slots.assignments
      → length (slots_of d (add_entries l slots))
        ≡ length (slots_of d l) + total_weight (slot_of d) slots.assignments
  unfolding add_entries fill
  add_entries-slots_of l slots w led =
      (generate-sim yield_slot (weigh (slot_of d)) Holds hold slots.assignments
        (begin_fill l slots.start_gsn) (length (slots_of d l)) (w, refl)).1
      ∙ generate-weight (slot_of d) slots.assignments (length (slots_of d l)) led

-- ===== src/Storage/Log/Order.antt =====
-- The order of the sequence numbers in the log of a storage server.
use zip_log_ae.Base.{ℕ, ◌+◌, ◌^◌, ◌≤◌, ◌<◌, ◌≡◌, ◌∙◌, inl, inr, arith, ◌==◌, Bool-cases, u64_max}
use native.Mathlib.Nat.{zero-add}
use zip_log_ae.Storage.Slots.{StorageSlots, generate}
use zip_log_ae.Storage.Slots.Simulation.{generate-sim}
use zip_log_ae.Storage.Slots.Sums.{weigh, LedByMost, generate-weight}
use zip_log_ae.Storage.Log.{
  Log, Filling, num_entries_per_block, grow, append_entry, yield_slot, begin_fill, fill,
  add_entries,
}
use zip_log_ae.Storage.Log.Links.{
  WellLinked, gsn_at, append_entry-gsn, append_entry-count, grow-WellLinked, yield_slot-WellLinked,
}
use zip_log_ae.Storage.Log.Epoch.{total_slots}

-- The sequence numbers grow with the place, and lie below `bound`.
pub record IsOrdered (l : Log) (bound : ℕ) : Type 0 where
  pub ascending : (a b : ℕ) → a < b → b < l.current_entries → gsn_at l.cells a < gsn_at l.cells b
  pub below : (a : ℕ) → a < l.current_entries → gsn_at l.cells a < bound

grow-IsOrdered : (l : Log) (bound : ℕ) → IsOrdered l bound → IsOrdered (grow l) bound
unfolding grow
grow-IsOrdered l bound o = elim (Bool-cases (l.entry_index == num_entries_per_block)) [
  | inl full ↦ rw full (record { ascending = o.ascending; below = o.below })
  | inr space ↦ rw space o
]

IsOrdered-mono :
    (l : Log) (bound bound' : ℕ) → bound ≤ bound' → IsOrdered l bound → IsOrdered l bound'
IsOrdered-mono l bound bound' h o = record {
  ascending = o.ascending;
  below = λ a lt. ground (arith, o.below a);
}

append_entry-IsOrdered :
    (l : Log) (gsn c old new : ℕ)
    → WellLinked l
    → IsOrdered l old
    → gsn ≡ old
    → old < new
    → IsOrdered (append_entry l gsn c) new
append_entry-IsOrdered l gsn c old new w o e lt_new = record {
  ascending = λ a b lt within. ground (
    arith,
    append_entry-gsn l gsn c a w,
    append_entry-gsn l gsn c b w,
    append_entry-count l gsn c,
    o.ascending a b lt,
    o.below a,
  );
  below = λ a within.
      ground (arith, append_entry-gsn l gsn c a w, append_entry-count l gsn c, o.below a);
}

module _ (start : ℕ) where
  -- As long as the numbers do not wrap.
  pub record Filled (s : Filling) (n : ℕ) : Type 0 where
    pub linked : WellLinked s.log
    pub reached : start + n < 2 ^ 64 → s.start_gsn ≡ start + n
    pub ordered : start + n < 2 ^ 64 → IsOrdered s.log (start + n)

  yield_slot-Filled :
      (c : ℕ) (s : Filling) (n : ℕ) → Filled s n → Filled (yield_slot c s) (weigh (λ _. 1) c n)
  unfolding yield_slot
  yield_slot-Filled c s n f = record {
    linked = yield_slot-WellLinked c s f.linked;
    reached = λ small. ground (arith, f.reached (omega arith));
    ordered = λ small. elim (Bool-cases (c == u64_max)) [
      | inl skip ↦
          rw skip (IsOrdered-mono s.log (start + n) _ (omega arith) (f.ordered (omega arith)))
      | inr mine ↦ rw mine (
          append_entry-IsOrdered (grow s.log) s.start_gsn c (start + n) _
            (grow-WellLinked s.log f.linked)
            (grow-IsOrdered s.log (start + n) (f.ordered (omega arith))) (f.reached (omega arith))
            (omega arith))
    ];
  }

-- If the GSNs of a well linked log grow with the place and lie below the start of a message led by
-- the largest client that does not reach 2 ^ 64, then after `add_entries` they grow with the place
-- and lie below the end of the message.
pub add_entries-IsOrdered :
    (l : Log) (slots : StorageSlots)
    → WellLinked l
    → IsOrdered l slots.start_gsn
    → LedByMost slots.assignments
    → slots.start_gsn + total_slots slots.assignments < 2 ^ 64
    → IsOrdered (add_entries l slots) (slots.start_gsn + total_slots slots.assignments)
unfolding add_entries fill
add_entries-IsOrdered l slots w o led small =
    let n = generate (weigh (λ _. 1)) slots.assignments 0 in
    let e : n ≡ total_slots slots.assignments =
      generate-weight (λ _. 1) slots.assignments 0 led ∙ zero-add _ in
    let f =
      generate-sim yield_slot (weigh (λ _. 1)) (Filled slots.start_gsn)
        (yield_slot-Filled slots.start_gsn) slots.assignments (begin_fill l slots.start_gsn) 0
        (record {
          linked = w;
          reached = λ _. omega arith;
          ordered = λ _. IsOrdered-mono l slots.start_gsn _ (omega arith) o;
        }) in
    let r = f.ordered (omega arith) in
    record { ascending = r.ascending; below = λ a h. omega (arith, r.below a h) }

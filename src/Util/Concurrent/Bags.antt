-- ===== src/Util/Concurrent/Bags.antt =====
-- The bag of src/util/concurrent.h as a first-in-first-out sequence for each reader.
use zip_log_ae.Base.{
  ◌+◌, ◌≤◌, ◌<◌, ◌≡◌, refl, ap, ◌∙◌, true, false, none, some, List, [], ◌∷◌, ◌++◌, if◌then◌else◌,
  ltb, ◌==◌, length, get_elem?, length-append, u64_max, arith, inl, inr, Bool-cases,
}
use zip_log_ae.Util.Concurrent.{
  Bag, BagReader, Step, emplace, publish, poll, new_queue, new_bag, new_reader, bag_emplace_back,
  bag_raise, get, reader_advance, queue_answers, bag_answers,
}
use zip_log_ae.Util.Concurrent.Fifo.{
  fifo_answers, Produced, get-append, length-snoc, add_last, make_ready, make_ready_first,
}
use zip_log_ae.Util.Concurrent.Queues.{queue-refines}

module _ {ℓ} {A : Type ℓ} where
  record Shows (b : Bag A) (r : BagReader) (old ready pending : List A) : Type ℓ where
    list : b.list ≡ old ++ (ready ++ pending)
    count : b.num_elements ≡ r.num_polled + length ready
    kept : length old ≡ r.num_polled
    iterator : (if r.num_polled == 0 then 0 else r.iterator + 1) ≡ r.num_polled

  reader-Shows :
      (b : Bag A) (r : BagReader) (old ready pending : List A) (x : A)
      → b.num_elements ≤ u64_max
      → Shows b r old (x ∷ ready) pending
      → Shows b (reader_advance r) (old ++ (x ∷ [])) ready pending
  reader-Shows b r old ready pending x small h = elim (Bool-cases (r.num_polled == 0)) [
    | inl e ↦ record {
      list = h.list ∙ make_ready_first old ready pending x;
      count = rw e (omega (arith, h.count, small));
      kept = rw e (omega (arith, length-snoc old x, h.kept, h.count, small));
      iterator = rw e (ground (arith, h.count, small));
    }
    | inr e ↦ record {
      list = h.list ∙ make_ready_first old ready pending x;
      count = rw e (omega (arith, h.count, small));
      kept = rw e (omega (arith, length-snoc old x, h.kept, h.count, small));
      iterator =
          let was : r.iterator + 1 ≡ r.num_polled = rw e at h.iterator in
          rw e (ground (arith, h.count, small));
    }
  ]

  reader-iterator :
      (b : Bag A) (r : BagReader) (old ready pending : List A) (x : A)
      → Shows b r old (x ∷ ready) pending
      → (reader_advance r).iterator ≡ length old
  reader-iterator b r old ready pending x h = elim (Bool-cases (r.num_polled == 0)) [
    | inl e ↦ rw e (ground (arith, h.kept))
    | inr e ↦ rw e (omega (arith, rw e at h.iterator, h.kept))
  ]

  get-empty :
      (b : Bag A) (r : BagReader) (old pending : List A)
      → Shows b r old [] pending
      → get b r ≡ (r, none)
  unfolding get
  get-empty b r old pending h =
      let e : ltb r.num_polled b.num_elements ≡ false = ground (arith, h.count) in rw e refl

  get-first :
      (b : Bag A) (r : BagReader) (old ready pending : List A) (x : A)
      → b.num_elements ≤ u64_max
      → Shows b r old (x ∷ ready) pending
      → get b r ≡ (reader_advance r, some x)
  unfolding get
  get-first b r old ready pending x small h =
      let e : ltb r.num_polled b.num_elements ≡ true = ground (arith, h.count) in
      let at = reader-iterator b r old ready pending x h in
      let got : get_elem? b.list (reader_advance r).iterator ≡ some x =
        rw (at, h.list) (get-append old (x ∷ (ready ++ pending))) in
      rw (e, got) refl

  bag_emplace_back-Shows :
      (b : Bag A) (r : BagReader) (old ready pending : List A) (x : A)
      → Shows b r old ready pending
      → Shows (bag_emplace_back b x) r old ready (pending ++ (x ∷ []))
  unfolding bag_emplace_back
  bag_emplace_back-Shows b r old ready pending x h = record {
    list = ap (λ xs. xs ++ (x ∷ [])) h.list ∙ add_last old ready pending x;
    count = h.count;
    kept = h.kept;
    iterator = h.iterator;
  }

  bag_raise-Shows :
      (b : Bag A) (r : BagReader) (old ready pending : List A) (x : A)
      → b.num_elements < u64_max
      → Shows b r old ready (x ∷ pending)
      → Shows (bag_raise b) r old (ready ++ (x ∷ [])) pending
  unfolding bag_raise
  bag_raise-Shows b r old ready pending x small h = record {
    list = h.list ∙ make_ready old ready pending x;
    count = omega (arith, h.count, length-append ready (x ∷ []));
    kept = h.kept;
    iterator = h.iterator;
  }

  bag-refines :
      (b : Bag A) (r : BagReader) (old ready pending : List A) (steps : List (Step A))
      → b.num_elements + length steps ≤ u64_max
      → Shows b r old ready pending
      → Produced (length pending) steps
      → bag_answers b r steps ≡ fifo_answers ready pending steps
  unfolding bag_answers fifo_answers bag_emplace_back bag_raise
  bag-refines b r old ready pending [] small h p = refl
  bag-refines b r old ready pending (emplace x ∷ steps) small h p =
      bag-refines (bag_emplace_back b x) r old ready (pending ++ (x ∷ [])) steps
        (omega (arith, small)) (bag_emplace_back-Shows b r old ready pending x h)
        (rw (length-snoc pending x) p)
  bag-refines b r old ready [] (publish ∷ steps) small h p = absurd p
  bag-refines b r old ready (x ∷ pending) (publish ∷ steps) small h p =
      bag-refines (bag_raise b) r old (ready ++ (x ∷ [])) pending steps (omega (arith, small))
        (bag_raise-Shows b r old ready pending x (omega arith) h) p
  bag-refines b r old [] pending (poll ∷ steps) small h p =
      rw (get-empty b r old pending h)
        (ap (◌∷◌ none) (bag-refines b r old [] pending steps (omega arith) h p))
  bag-refines b r old (x ∷ ready) pending (poll ∷ steps) small h p =
      rw (get-first b r old ready pending x (omega arith) h) (
        ap (◌∷◌ (some x)) (
          bag-refines b (reader_advance r) (old ++ (x ∷ [])) ready pending steps (omega arith)
            (reader-Shows b r old ready pending x (omega arith) h) p))

  -- As long as the counters do not wrap around and the producer publishes only what it has added,
  -- a new queue, and a new bag with a new reader, answer every interleaving of the steps of the
  -- producer and the calls of the consumer as a sequence does whose consumer takes the elements
  -- that have been published, the oldest first.
  pub answers-fifo :
      (steps : List (Step A))
      → length steps ≤ u64_max
      → Produced 0 steps
      → (queue_answers new_queue steps ≡ fifo_answers [] [] steps)
        × (bag_answers new_bag new_reader steps ≡ fifo_answers [] [] steps)
  answers-fifo steps small p = (
    queue-refines new_queue [] [] [] steps (omega arith)
        (record { list = refl; count = refl; kept = refl; iterator = refl }) p,
    bag-refines new_bag new_reader [] [] [] steps (omega arith)
        (record { list = refl; count = refl; kept = refl; iterator = refl }) p,
  )

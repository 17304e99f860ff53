-- ===== src/Util/Concurrent/Queues.antt =====
-- The queue of src/util/concurrent.h as a first-in-first-out sequence.
use zip_log_ae.Base.{
  ◌+◌, ◌≤◌, ◌<◌, ◌≡◌, refl, ap, ◌∙◌, true, false, none, some, List, [], ◌∷◌, ◌++◌, if◌then◌else◌,
  ltb, ◌==◌, length, get_elem?, length-append, u64_max, arith, inl, inr, Bool-cases,
}
use zip_log_ae.Util.Concurrent.{
  Queue, Step, emplace, publish, poll, emplace_back, raise, dequeue, advance, queue_answers,
}
use zip_log_ae.Util.Concurrent.Fifo.{fifo_answers, Produced, length-snoc, add_last, make_ready}

module _ {ℓ} {A : Type ℓ} where
  -- A state of the queue: the element that was polled last, if any, then what can be polled, then
  -- what is not published.
  pub record Holds (q : Queue A) (old ready pending : List A) : Type ℓ where
    pub list : q.list ≡ old ++ (ready ++ pending)
    pub count : q.num_enqueued ≡ q.num_polled + length ready
    pub kept : length old ≡ (if q.num_polled == 0 then 0 else 1)
    pub iterator : q.iterator ≡ 0

  take_first :
      (q : Queue A) (old ready pending : List A) (x : A)
      → q.num_enqueued ≤ u64_max
      → Holds q old (x ∷ ready) pending
      → Holds (advance q) (x ∷ []) ready pending
  take_first q [] ready pending x small h = elim (Bool-cases (q.num_polled == 0)) [
    | inr e ↦ absurd (ground (arith, rw e at h.kept))
    | inl e ↦ record {
      list = rw e h.list;
      count = rw e (omega (arith, h.count));
      kept = rw e (ground (arith, h.count));
      iterator = rw e refl;
    }
  ]
  take_first q (y ∷ []) ready pending x small h = elim (Bool-cases (q.num_polled == 0)) [
    | inl e ↦ absurd (ground (arith, rw e at h.kept))
    | inr e ↦ record {
      list = rw (e, h.iterator) (rw h.list refl);
      count = rw e (omega (arith, h.count));
      kept = rw e (ground (arith, h.count));
      iterator = rw e h.iterator;
    }
  ]
  take_first q (y ∷ z ∷ zs) ready pending x small h = absurd (ground (arith, h.kept))

  emplace_back-Holds :
      (q : Queue A) (old ready pending : List A) (x : A)
      → Holds q old ready pending
      → Holds (emplace_back q x) old ready (pending ++ (x ∷ []))
  unfolding emplace_back
  emplace_back-Holds q old ready pending x h = record {
    list = ap (λ xs. xs ++ (x ∷ [])) h.list ∙ add_last old ready pending x;
    count = h.count;
    kept = h.kept;
    iterator = h.iterator;
  }

  raise-Holds :
      (q : Queue A) (old ready pending : List A) (x : A)
      → q.num_enqueued < u64_max
      → Holds q old ready (x ∷ pending)
      → Holds (raise q) old (ready ++ (x ∷ [])) pending
  unfolding raise
  raise-Holds q old ready pending x small h = record {
    list = h.list ∙ make_ready old ready pending x;
    count = omega (arith, h.count, length-append ready (x ∷ []));
    kept = h.kept;
    iterator = h.iterator;
  }

  dequeue-empty :
      (q : Queue A) (old pending : List A) → Holds q old [] pending → dequeue q ≡ (q, none)
  unfolding dequeue
  dequeue-empty q old pending h =
      let e : ltb q.num_polled q.num_enqueued ≡ false = ground (arith, h.count) in rw e refl

  dequeue-first :
      (q : Queue A) (old ready pending : List A) (x : A)
      → q.num_enqueued ≤ u64_max
      → Holds q old (x ∷ ready) pending
      → dequeue q ≡ (advance q, some x)
  unfolding dequeue
  dequeue-first q old ready pending x small h =
      let e : ltb q.num_polled q.num_enqueued ≡ true = ground (arith, h.count) in
      let there = take_first q old ready pending x small h in
      let got : get_elem? (advance q).list (advance q).iterator ≡ some x =
        rw (there.iterator, there.list) refl in
      rw (e, got) refl

  advance-enqueued : (q : Queue A) → (advance q).num_enqueued ≡ q.num_enqueued
  advance-enqueued q = elim (Bool-cases (q.num_polled == 0)) [
    | inl e ↦ rw e refl
    | inr e ↦ rw e refl
  ]

  pub queue-refines :
      (q : Queue A) (old ready pending : List A) (steps : List (Step A))
      → q.num_enqueued + length steps ≤ u64_max
      → Holds q old ready pending
      → Produced (length pending) steps
      → queue_answers q steps ≡ fifo_answers ready pending steps
  unfolding queue_answers fifo_answers emplace_back raise
  queue-refines q old ready pending [] small h p = refl
  queue-refines q old ready pending (emplace x ∷ steps) small h p =
      queue-refines (emplace_back q x) old ready (pending ++ (x ∷ [])) steps (omega (arith, small))
        (emplace_back-Holds q old ready pending x h) (rw (length-snoc pending x) p)
  queue-refines q old ready [] (publish ∷ steps) small h p = absurd p
  queue-refines q old ready (x ∷ pending) (publish ∷ steps) small h p =
      queue-refines (raise q) old (ready ++ (x ∷ [])) pending steps (omega (arith, small))
        (raise-Holds q old ready pending x (omega arith) h) p
  queue-refines q old [] pending (poll ∷ steps) small h p =
      rw (dequeue-empty q old pending h)
        (ap (◌∷◌ none) (queue-refines q old [] pending steps (omega arith) h p))
  queue-refines q old (x ∷ ready) pending (poll ∷ steps) small h p =
      rw (dequeue-first q old ready pending x (omega arith) h) (
        ap (◌∷◌ (some x)) (
          queue-refines (advance q) (x ∷ []) ready pending steps
            (rw (advance-enqueued q) (omega arith))
            (take_first q old ready pending x (omega arith) h) p))

-- ===== src/Util/Concurrent.antt =====
-- The classes `queue`, `bag` and `bag_reader` of src/util/concurrent.h. The counter of the producer
-- is raised after the element is in the list, so an addition is two steps, between which the
-- consumer may run. An iterator is the index of its element in the list.
mod Bags
pub mod Examples
pub mod Fifo
mod Queues
use zip_log_ae.Base.{
  ℕ, zero, suc, ◌+◌, ◌≡◌, refl, Bool, true, false, Option, none, some, List, [], ◌∷◌, ◌++◌,
  if◌then◌else◌, ltb, ◌==◌, get_elem?, add64,
}

module _ {ℓ} {A : Type ℓ} where
  -- `std::list::erase`
  abbrev pub erase_at : List A → ℕ → List A
  erase_at [] i = []
  erase_at (x ∷ xs) zero = xs
  erase_at (x ∷ xs) (suc i) = x ∷ erase_at xs i

pub record Queue {ℓ} (A : Type ℓ) : Type ℓ where
  pub list : List A
  pub num_enqueued : ℕ
  pub num_polled : ℕ
  pub iterator : ℕ

pub record Bag {ℓ} (A : Type ℓ) : Type ℓ where
  pub list : List A
  pub num_elements : ℕ

pub record BagReader : Type 0 where
  pub num_polled : ℕ
  pub iterator : ℕ

abbrev pub new_reader : BagReader
new_reader = record { num_polled = 0; iterator = 0 }

abbrev pub reader_advance : BagReader → BagReader
reader_advance r =
    if r.num_polled == 0
    then record { num_polled = add64 r.num_polled 1; iterator = 0 }
    else record { num_polled = add64 r.num_polled 1; iterator = r.iterator + 1 }

pub data Step {ℓ} (A : Type ℓ) : Type ℓ where
  emplace : A → Step A
  publish poll : Step A

module _ {ℓ} {A : Type ℓ} where
  abbrev pub new_queue : Queue A
  new_queue = record { list = []; num_enqueued = 0; num_polled = 0; iterator = 0 }

  -- The two steps of `queue::enqueue`.
  unfoldable pub emplace_back : Queue A → A → Queue A
  emplace_back q x = record q { list = q.list ++ (x ∷ []) }

  unfoldable pub raise : Queue A → Queue A
  raise q = record q { num_enqueued = add64 q.num_enqueued 1 }

  -- The iterator is on the first element at the first call, and on the element behind the one that
  -- is erased at a later call.
  abbrev pub advance : Queue A → Queue A
  advance q =
      if q.num_polled == 0
      then record q { num_polled = add64 q.num_polled 1; iterator = 0 }
      else record q { num_polled = add64 q.num_polled 1; list = erase_at q.list q.iterator }

  -- `queue::dequeue`: `none` for the null pointer, and for an iterator that is on no element.
  unfoldable pub dequeue : Queue A → Queue A × Option A
  dequeue q =
      if ltb q.num_polled q.num_enqueued
      then (advance q, get_elem? (advance q).list (advance q).iterator)
      else (q, none)

  abbrev pub new_bag : Bag A
  new_bag = record { list = []; num_elements = 0 }

  -- The two steps of `bag::add`.
  unfoldable pub bag_emplace_back : Bag A → A → Bag A
  bag_emplace_back b x = record b { list = b.list ++ (x ∷ []) }

  unfoldable pub bag_raise : Bag A → Bag A
  bag_raise b = record b { num_elements = add64 b.num_elements 1 }

  -- `bag_reader::get`
  unfoldable pub get : Bag A → BagReader → BagReader × Option A
  get b r =
      if ltb r.num_polled b.num_elements
      then (reader_advance r, get_elem? b.list (reader_advance r).iterator)
      else (r, none)

  -- The answers of a queue to the calls of its consumer, and those of a bag to one reader.
  unfoldable pub queue_answers : Queue A → List (Step A) → List (Option A)
  queue_answers q [] = []
  queue_answers q (emplace x ∷ steps) = queue_answers (emplace_back q x) steps
  queue_answers q (publish ∷ steps) = queue_answers (raise q) steps
  queue_answers q (poll ∷ steps) = (dequeue q).1 ∷ queue_answers (dequeue q).0 steps

  unfoldable pub bag_answers : Bag A → BagReader → List (Step A) → List (Option A)
  bag_answers b r [] = []
  bag_answers b r (emplace x ∷ steps) = bag_answers (bag_emplace_back b x) r steps
  bag_answers b r (publish ∷ steps) = bag_answers (bag_raise b) r steps
  bag_answers b r (poll ∷ steps) = (get b r).1 ∷ bag_answers b (get b r).0 steps

-- ===== src/Subscriber/Recycling/Runs.antt =====
-- Every interleaving of the threads of src/subscriber/subscriber.cpp on the log: insertions,
-- recycling, and the iterators of the application threads.
use zip_log_ae.Base.{ℕ, ◌/◌, ◌≤◌, ◌<◌, ◌≡◌, refl, some, List, [], ◌∷◌, ◌++◌, arith, All, length}
use zip_log_ae.Storage.Log.{num_entries_per_block}
use zip_log_ae.Subscriber.Log.{Log, LogEntry, Position, new_log, recycle_blocks, insert}
use zip_log_ae.Subscriber.Iterator.{Iterator, next_entry, next_sequential, new_iterator}
use zip_log_ae.Subscriber.Recycling.{IsInside, LogInv, passed, recycle_blocks-LogInv}
use zip_log_ae.Subscriber.Recycling.Steps.{next_entry-LogInv, next_sequential-LogInv, insert-LogInv}

pub data Reaches : Log → List Iterator → Log → List Iterator → Type 0 where
  stop : (l : Log) (its : List Iterator) → Reaches l its l its
  recycled :
      (l m : Log) (its jts : List Iterator)
      → Reaches (recycle_blocks l) its m jts
      → Reaches l its m jts
  inserted :
      (l l' m : Log) (its jts : List Iterator) (p p' : Position) (e : LogEntry)
      → insert l p e ≡ some (l', p')
      → Reaches l' its m jts
      → Reaches l its m jts
  moved :
      (l m : Log) (it : Iterator) (xs ys jts : List Iterator)
      → Reaches (next_entry l it).1 (xs ++ (next_entry l it).2 ∷ ys) m jts
      → Reaches l (xs ++ it ∷ ys) m jts
  took_turn :
      (l m : Log) (index : ℕ) (it : Iterator) (xs ys jts : List Iterator)
      → Reaches (next_sequential index l it).1 (xs ++ (next_sequential index l it).2 ∷ ys) m jts
      → Reaches l (xs ++ it ∷ ys) m jts

run-LogInv :
    (l m : Log) (its jts : List Iterator) → LogInv l its → Reaches l its m jts → LogInv m jts
run-LogInv l _ its _ v (stop _ _) = v
run-LogInv l m its jts v (recycled _ _ _ _ rest) =
    run-LogInv (recycle_blocks l) m its jts (recycle_blocks-LogInv l its v) rest
run-LogInv l m its jts v (inserted _ l' _ _ _ p p' e eq rest) =
    run-LogInv l' m its jts (insert-LogInv l l' p p' e its eq v) rest
run-LogInv l m _ jts v (moved _ _ it xs ys _ rest) =
    run-LogInv (next_entry l it).1 m (xs ++ (next_entry l it).2 ∷ ys) jts
      (next_entry-LogInv l it xs ys v) rest
run-LogInv l m _ jts v (took_turn _ _ index it xs ys _ rest) =
    run-LogInv (next_sequential index l it).1 m (xs ++ (next_sequential index l it).2 ∷ ys) jts
      (next_sequential-LogInv index l it xs ys v) rest

-- The cell that an iterator considers lies in a node that is there and is not recycled.
abbrev pub IsLive : Log → Iterator → Type 0
IsLive l it =
    (a : ℕ)
    → it.entry ≡ some a
    → (l.first_block ≤ a / num_entries_per_block) × (a / num_entries_per_block < l.num_blocks)

inside-IsLive : (l : Log) (it : Iterator) → IsInside l it → IsLive l it
inside-IsLive l it h a e = let b = h.cell a e in (omega (arith, h.live), omega (arith, h.there))

All-IsLive : (l : Log) (its : List Iterator) → All (IsInside l) its → All (IsLive l) its
All-IsLive l [] h = tt
All-IsLive l (it ∷ its) (p, h) = (inside-IsLive l it p, All-IsLive l its h)

-- The iterators of a subscriber that starts, by what `current_blocks_` held and their indexes.
abbrev pub start : ℕ → List (ℕ × ℕ) → List Iterator
start stride [] = []
start stride ((unset, index) ∷ rest) = new_iterator unset index stride ∷ start stride rest

start-Inside :
    (n stride : ℕ) (xs : List (ℕ × ℕ))
    → All (λ (x : ℕ × ℕ). x.0 ≤ 2) xs
    → All (IsInside (new_log n)) (start stride xs)
unfolding new_log new_iterator
start-Inside n stride [] h = tt
start-Inside n stride ((unset, index) ∷ xs) (p, h) = (
  record { live = omega arith; there = omega arith; seen = p; cell = λ a e. absurd cc },
  start-Inside n stride xs h,
)

start-passed : (stride b : ℕ) (xs : List (ℕ × ℕ)) → passed b (start stride xs) ≡ 0
unfolding passed new_iterator
start-passed stride b [] = refl
start-passed stride b ((unset, index) ∷ xs) = ground (arith, start-passed stride b xs)

pub start-LogInv :
    (stride : ℕ) (xs : List (ℕ × ℕ))
    → All (λ (x : ℕ × ℕ). x.0 ≤ 2) xs
    → LogInv (new_log (length (start stride xs))) (start stride xs)
unfolding new_log
start-LogInv stride xs h = record {
  inside = start-Inside (length (start stride xs)) stride xs h;
  counted = λ b. omega (arith, start-passed stride b xs);
  all = refl;
  first = omega arith;
}

-- When a subscriber starts with at most two blocks in the unset member of each iterator, then
-- after any sequence of insertions, recyclings and steps of its iterators, unordered or
-- sequential, the cell that an iterator considers lies in a block that is there and that is not
-- recycled.
pub started-IsLive :
    (stride : ℕ) (xs : List (ℕ × ℕ)) (m : Log) (jts : List Iterator)
    → All (λ (x : ℕ × ℕ). x.0 ≤ 2) xs
    → Reaches (new_log (length (start stride xs))) (start stride xs) m jts
    → All (IsLive m) jts
started-IsLive stride xs m jts h run =
    All-IsLive m jts (run-LogInv _ m _ jts (start-LogInv stride xs h) run).inside

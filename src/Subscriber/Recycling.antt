-- ===== src/Subscriber/Recycling.antt =====
-- The counters of the blocks of src/subscriber/log.cpp.
pub mod Runs
pub mod Steps
use zip_log_ae.Base.{
  ℕ, suc, ◌+◌, ◌-◌, ◌*◌, ◌/◌, ◌%◌, ◌^◌, ◌≤◌, ◌<◌, ◌≡◌, ◌≢◌, ◌∙◌, sym, refl, ap, Bool, true, false,
  ◌&&◌, Option, none, some, List, [], ◌∷◌, ◌++◌, arith, All, inl, inr, Bool-cases, if◌then◌else◌,
  ltb, leb, ◌==◌, length, length-append,
}
use zip_log_ae.Storage.Log.{num_entries_per_block, update}
use zip_log_ae.Subscriber.Log.{
  Log, LogEntry, Position, new_log, recycle_blocks, advance_to, see_blocks, insert,
}
use zip_log_ae.Subscriber.Iterator.{
  Iterator, count_up, fetch, obtain, read_cell, release, next_entry, next_sequential, new_iterator,
}

-- How many iterators have left a node.
unfoldable pub passed : ℕ → List Iterator → ℕ
passed b [] = 0
passed b (it ∷ its) = let rest = passed b its in if ltb b it.block_index then rest + 1 else rest

-- An iterator stands in a node that is there, and so does the cell that it considers.
pub record IsInside (l : Log) (it : Iterator) : Type 0 where
  pub live : l.first_block ≤ it.block_index
  pub there : it.block_index < l.num_blocks
  pub seen : it.current_blocks ≤ l.num_blocks
  pub cell : (a : ℕ) → it.entry ≡ some a → a / num_entries_per_block ≡ it.block_index

pub record LogInv (l : Log) (its : List Iterator) : Type 0 where
  pub inside : All (IsInside l) its
  pub counted : (b : ℕ) → l.counters b ≡ passed b its
  pub all : l.num_iterators ≡ length its
  pub first : l.first_block < l.num_blocks

passed-le : (b : ℕ) (its : List Iterator) → passed b its ≤ length its
unfolding passed
passed-le b [] = omega arith
passed-le b (it ∷ its) = ground (arith, passed-le b its)

passed-append : (b : ℕ) (xs ys : List Iterator) → passed b (xs ++ ys) ≡ passed b xs + passed b ys
unfolding passed
passed-append b [] ys = omega arith
passed-append b (it ∷ xs) ys = ground (arith, passed-append b xs ys)

-- No iterator can leave a node that is not there, so a new node starts with no count.
passed-new :
    (l : Log) (its : List Iterator) (b : ℕ)
    → l.num_blocks ≤ b
    → All (IsInside l) its
    → passed b its ≡ 0
unfolding passed
passed-new l [] b le h = refl
passed-new l (it ∷ its) b le (p, h) = ground (arith, p.there, passed-new l its b le h)

-- If all have left the first node, each of them stands behind it.
everyone_left :
    (l l' : Log) (its : List Iterator)
    → passed l.first_block its ≡ length its
    → l'.first_block ≡ l.first_block + 1
    → l'.num_blocks ≡ l.num_blocks + 1
    → All (IsInside l) its
    → All (IsInside l') its
unfolding passed
everyone_left l l' [] e f n h = tt
everyone_left l l' (it ∷ its) e f n (p, h) =
    let some_left : l.first_block < it.block_index = ground (arith, passed-le l.first_block its) in
    (
      record {
        live = omega arith;
        there = omega (arith, p.there);
        seen = omega (arith, p.seen);
        cell = p.cell;
      },
      everyone_left l l' its (ground arith) f n h,
    )

-- Recycling keeps the invariant of a subscriber log: the counter of each block is the number of
-- iterators that have left it, and every iterator stands in a block that is there and not
-- recycled.
pub recycle_blocks-LogInv :
    (l : Log) (its : List Iterator) → LogInv l its → LogInv (recycle_blocks l) its
unfolding recycle_blocks
recycle_blocks-LogInv l its v = elim (Bool-cases (l.counters l.first_block == l.num_iterators)) [
  | inr busy ↦ rw busy v
  | inl free ↦
      let left : passed l.first_block its ≡ length its =
        sym (v.counted l.first_block) ∙ (ground arith) ∙ v.all in
      rw free (record {
        inside = everyone_left l _ its left refl refl v.inside;
        counted = λ b. ground (arith, v.counted b, passed-new l its b);
        all = v.all;
        first = omega (arith, v.first);
      })
]

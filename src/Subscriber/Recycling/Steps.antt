-- ===== src/Subscriber/Recycling/Steps.antt =====
-- The steps of the iterators and positions of src/subscriber/log.cpp.
use zip_log_ae.Base.{
  ℕ, ◌/◌, ◌≤◌, ◌≡◌, refl, Bool, true, false, Option, none, some, List, [], ◌∷◌, ◌++◌, arith, All,
  inl, inr, Bool-cases, if◌then◌else◌, leb, length-append,
}
use zip_log_ae.Storage.Log.{num_entries_per_block}
use zip_log_ae.Subscriber.Log.{Log, LogEntry, Position, advance_to, see_blocks, insert}
use zip_log_ae.Subscriber.Iterator.{
  Iterator, count_up, fetch, obtain, read_cell, release, next_entry, next_sequential,
}
use zip_log_ae.Subscriber.Recycling.{passed, passed-append, IsInside, LogInv}

module _ (P : Iterator → Type 0) (x y : Iterator) (ys : List Iterator) where
  middle : (xs : List Iterator) → All P (xs ++ x ∷ ys) → P x
  middle [] h = h.0
  middle (z ∷ xs) h = middle xs h.1

  replaced : (xs : List Iterator) → P y → All P (xs ++ x ∷ ys) → All P (xs ++ y ∷ ys)
  replaced [] p h = (p, h.1)
  replaced (z ∷ xs) p h = (h.0, replaced xs p h.1)

-- Between two logs with the same nodes.
abbrev SameNodes : Log → Log → Type 0
SameNodes l l' =
    (l'.first_block ≡ l.first_block)
    × (l'.num_blocks ≡ l.num_blocks)
    × (l'.num_iterators ≡ l.num_iterators)

same-Inside : (l l' : Log) (it : Iterator) → SameNodes l l' → IsInside l it → IsInside l' it
same-Inside l l' it (f, n, _) h = record {
  live = omega (arith, h.live);
  there = omega (arith, h.there);
  seen = omega (arith, h.seen);
  cell = h.cell;
}

All-Inside :
    (l l' : Log) (its : List Iterator)
    → SameNodes l l'
    → All (IsInside l) its
    → All (IsInside l') its
All-Inside l l' [] s h = tt
All-Inside l l' (it ∷ its) s (p, h) = (same-Inside l l' it s p, All-Inside l l' its s h)

-- What a move of one iterator keeps.
record Moved (l l' : Log) (it it' : Iterator) : Type 0 where
  nodes : SameNodes l l'
  inside : IsInside l' it'
  forward : it.block_index ≤ it'.block_index
  counters : (b : ℕ) → l'.counters b ≡ count_up it.block_index it'.block_index l.counters b

stays : (l : Log) (it : Iterator) → IsInside l it → Moved l l it it
stays l it h = record {
  nodes = (refl, refl, refl);
  inside = h;
  forward = omega arith;
  counters = λ b. ground arith;
}

advance_to-le : (block block_index : ℕ) → block_index ≤ advance_to block block_index
advance_to-le block block_index = ground arith

fetch-Moved :
    (step : ℕ) (l : Log) (it : Iterator)
    → it.entry ≡ none
    → IsInside l it
    → Moved l (fetch step l it).0 it (fetch step l it).1
unfolding fetch
fetch-Moved step l it empty h =
    let block = it.entry_index / num_entries_per_block in
    let seen = see_blocks l it.current_blocks block in
    let to = advance_to block it.block_index in
    let seen-le : seen ≤ l.num_blocks = ground (arith, h.seen) in
    elim (Bool-cases (leb seen block)) [
      | inl wait ↦ rw wait (record {
        nodes = (refl, refl, refl);
        inside = record { live = h.live; there = h.there; seen = seen-le; cell = h.cell };
        forward = omega arith;
        counters = λ b. ground arith;
      })
      | inr go ↦ rw go (record {
        nodes = (refl, refl, refl);
        inside = record {
          live = omega (arith, h.live, advance_to-le block it.block_index);
          there = ground (arith, h.there);
          seen = seen-le;
          cell = λ a e. ground arith;
        };
        forward = advance_to-le block it.block_index;
        counters = λ b. refl;
      })
    ]

obtain-Moved :
    (step : ℕ) (l : Log) (it : Iterator) (o : Option ℕ)
    → it.entry ≡ o
    → IsInside l it
    → Moved l (obtain step o l it).0 it (obtain step o l it).1
obtain-Moved step l it none e h = fetch-Moved step l it e h
obtain-Moved step l it (some a) e h = stays l it h

release-Moved :
    (l l' : Log) (it it' : Iterator) (o : Option LogEntry)
    → Moved l l' it it'
    → Moved l l' it (release o it')
release-Moved l l' it it' none m = m
release-Moved l l' it it' (some x) m = record {
  nodes = m.nodes;
  inside = record {
    live = m.inside.live;
    there = m.inside.there;
    seen = m.inside.seen;
    cell = λ a e. absurd cc;
  };
  forward = m.forward;
  counters = m.counters;
}

-- The counts, after one iterator of the list has moved.
recount :
    (l l' : Log) (it it' : Iterator) (xs ys : List Iterator) (b : ℕ)
    → Moved l l' it it'
    → l.counters b ≡ passed b (xs ++ it ∷ ys)
    → l'.counters b ≡ passed b (xs ++ it' ∷ ys)
unfolding passed
recount l l' it it' xs ys b m e =
    ground
      (arith, m.counters b, m.forward, passed-append b xs (it ∷ ys), passed-append b xs (it' ∷ ys))

Moved-LogInv :
    (l l' : Log) (it it' : Iterator) (xs ys : List Iterator)
    → LogInv l (xs ++ it ∷ ys)
    → Moved l l' it it'
    → LogInv l' (xs ++ it' ∷ ys)
Moved-LogInv l l' it it' xs ys v m = record {
  inside =
      replaced (IsInside l') it it' ys xs m.inside
        (All-Inside l l' (xs ++ it ∷ ys) m.nodes v.inside);
  counted = λ b. recount l l' it it' xs ys b m (v.counted b);
  all = omega (arith, v.all, m.nodes.2, length-append xs (it ∷ ys), length-append xs (it' ∷ ys));
  first = omega (arith, v.first, m.nodes.0, m.nodes.1);
}

-- A step of one iterator among the others keeps the invariant of the subscriber log and its
-- counters.
pub next_entry-LogInv :
    (l : Log) (it : Iterator) (xs ys : List Iterator)
    → LogInv l (xs ++ it ∷ ys)
    → LogInv (next_entry l it).1 (xs ++ (next_entry l it).2 ∷ ys)
unfolding next_entry
next_entry-LogInv l it xs ys v =
    let r = obtain it.stride it.entry l it in
    Moved-LogInv l r.0 it (release (read_cell r.0 r.1.entry) r.1) xs ys v (
      release-Moved l r.0 it r.1 (read_cell r.0 r.1.entry)
        (obtain-Moved it.stride l it it.entry refl (middle (IsInside l) it it ys xs v.inside)))

pub next_sequential-LogInv :
    (index : ℕ) (l : Log) (it : Iterator) (xs ys : List Iterator)
    → LogInv l (xs ++ it ∷ ys)
    → LogInv (next_sequential index l it).1 (xs ++ (next_sequential index l it).2 ∷ ys)
unfolding next_sequential
next_sequential-LogInv index l it xs ys v =
    let r = obtain 1 it.entry l it in
    Moved-LogInv l r.0 it (release (read_cell r.0 r.1.entry) r.1) xs ys v (
      release-Moved l r.0 it r.1 (read_cell r.0 r.1.entry)
        (obtain-Moved 1 l it it.entry refl (middle (IsInside l) it it ys xs v.inside)))

-- What holds after an insertion, if it does not wait.
abbrev Kept : List Iterator → Option (Log × Position) → Type 0
Kept its none = Unit
Kept its (some r) = LogInv r.0 its

Kept-if :
    (its : List Iterator) (b : Bool) (x y : Option (Log × Position))
    → Kept its x
    → Kept its y
    → Kept its (if b then x else y)
Kept-if its true x y p q = p
Kept-if its false x y p q = q

insert-Kept :
    (l : Log) (p : Position) (e : LogEntry) (its : List Iterator)
    → LogInv l its
    → Kept its (insert l p e)
unfolding insert
insert-Kept l p e its v =
    let block = e.gsn / num_entries_per_block in
    Kept-if its (leb (see_blocks l p.current_blocks block) block) none _ tt (record {
      inside = All-Inside l _ its (refl, refl, refl) v.inside;
      counted = v.counted;
      all = v.all;
      first = v.first;
    })

pub insert-LogInv :
    (l l' : Log) (p p' : Position) (e : LogEntry) (its : List Iterator)
    → insert l p e ≡ some (l', p')
    → LogInv l its
    → LogInv l' its
insert-LogInv l l' p p' e its eq v = rw eq at (insert-Kept l p e its v)

-- ===== src/Storage/Iterator/InOrder.antt =====
-- The places that the iterator of src/storage/log.cpp considers.
use zip_log_ae.Base.{
  ℕ, ◌+◌, ◌/◌, ◌≤◌, ◌≡◌, refl, sym, ap, Bool, true, false, Option, none, some, arith, ◌⊎◌, inl, inr,
  Bool-cases, if◌then◌else◌, leb,
}
use zip_log_ae.Storage.Log.{Entry, Log, num_entries_per_block}
use zip_log_ae.Storage.Iterator.{
  Iterator, new_iterator, advance_block, fetch, take_set, obtain, next_entry,
}

-- The next entry is that of the place `p`: it is considered, or comes next.
pub record IsNext (p : ℕ) (it : Iterator) : Type 0 where
  pub block : it.block_index ≤ it.entry_index / num_entries_per_block
  pub place :
      ((it.entry ≡ none) × (it.entry_index ≡ p))
      ⊎ ((it.entry ≡ some p) × (it.entry_index ≡ p + it.stride))

-- The entry of the place is not published, or not set.
abbrev pub IsLate : ℕ → Log → Type 0
IsLate p l = (l.num_entries ≤ p) ⊎ ((l.cells p).set ≡ false)

-- What a call yields: nothing as long as the entry is late, or the entry of the place `p`, which is set.
abbrev pub Yields : ℕ → Log → ℕ → Option Entry × Iterator → Type 0
Yields p l stride (none, it) = IsLate p l × IsNext p it × (it.stride ≡ stride)
Yields p l stride (some e, it) =
    (e ≡ l.cells p) × (e.set ≡ true) × IsNext (p + stride) it × (it.stride ≡ stride)

fetch-IsNext :
    (l : Log) (it : Iterator) (p : ℕ)
    → it.block_index ≤ it.entry_index / num_entries_per_block
    → it.entry ≡ none
    → it.entry_index ≡ p
    → IsNext p (fetch l it)
      × ((fetch l it).stride ≡ it.stride)
      × ((fetch l it).entry ≡ none → l.num_entries ≤ p)
unfolding fetch
fetch-IsNext l it p b e i =
    let seen =
      if leb it.current_entries it.entry_index then l.num_entries else it.current_entries in
    elim (Bool-cases (leb seen it.entry_index)) [
      | inl short ↦
          rw short (record { block = b; place = inl (e, i) }, refl, λ _. ground (arith, short, i))
      | inr there ↦
          let here : advance_block (it.entry_index / num_entries_per_block) it.block_index
              ≡ it.entry_index / num_entries_per_block =
            ground arith in
          rw there (
            record {
              block = rw here (le_div it.entry_index it.stride);
              place = inr (ap some (rw here (omega arith)), ap (λ n. n + it.stride) i);
            },
            refl,
            λ bad. absurd cc,
          )
    ]
  where
    le_div : (n m : ℕ) → n / num_entries_per_block ≤ (n + m) / num_entries_per_block
    le_div n m = omega arith

obtain-IsNext :
    (o : Option ℕ) (l : Log) (it : Iterator) (p : ℕ)
    → it.entry ≡ o
    → IsNext p it
    → IsNext p (obtain o l it)
      × ((obtain o l it).stride ≡ it.stride)
      × ((obtain o l it).entry ≡ none → l.num_entries ≤ p)
obtain-IsNext none l it p e n = elim n.place [
  | inl (_, i) ↦ fetch-IsNext l it p n.block e i
  | inr (here, _) ↦ absurd cc
]
obtain-IsNext (some a) l it p e n = (n, refl, λ bad. absurd cc)

-- By whether the entry at `a`, which is considered, is set.
considered-Yields :
    (b : Bool) (l : Log) (it : Iterator) (p a : ℕ)
    → (l.cells a).set ≡ b
    → it.entry ≡ some a
    → IsNext p it
    → Yields p l it.stride
        (if b then (some (l.cells a), record it { entry = none }) else (none, it))
considered-Yields false l it p a set e n = elim n.place [
  | inl (empty, _) ↦ absurd cc
  | inr (here, i) ↦ let same : a ≡ p = ground arith in (inr (rw (sym same) set), n, refl)
]
considered-Yields true l it p a set e n = elim n.place [
  | inl (empty, _) ↦ absurd cc
  | inr (here, i) ↦
      let same : a ≡ p = ground arith in
      (ap l.cells same, set, record { block = n.block; place = inl (refl, i) }, refl)
]

take_set-Yields :
    (o : Option ℕ) (l : Log) (it : Iterator) (p : ℕ)
    → it.entry ≡ o
    → IsNext p it
    → (it.entry ≡ none → l.num_entries ≤ p)
    → Yields p l it.stride (take_set o l it)
unfolding take_set
take_set-Yields none l it p e n late = (inl (late e), n, refl)
take_set-Yields (some a) l it p e n late = considered-Yields (l.cells a).set l it p a refl e n

-- When the next entry of an iterator is that of a place, a call of `next_entry` either yields
-- nothing, as long as the entry of the place is not published or not set, and the next entry stays that of the place, or yields the entry of the place, which is
-- set, and the next entry is that of the place one stride further.
pub next_entry-Yields :
    (l : Log) (it : Iterator) (p : ℕ) → IsNext p it → Yields p l it.stride (next_entry l it)
unfolding next_entry
next_entry-Yields l it p n =
    let (next, same, late) = obtain-IsNext it.entry l it p refl n in
    let it' = obtain it.entry l it in rw same at (take_set-Yields it'.entry l it' p refl next late)

pub new_iterator-IsNext : (index stride : ℕ) → IsNext index (new_iterator index stride)
unfolding new_iterator
new_iterator-IsNext index stride = record { block = omega arith; place = inl (refl, refl) }

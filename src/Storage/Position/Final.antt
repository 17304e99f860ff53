-- ===== src/Storage/Position/Final.antt =====
-- The entries of src/storage/log.cpp that are set, and the position of their client.
use zip_log_ae.Base.{
  ℕ, ◌+◌, ◌-◌, ◌≤◌, ◌<◌, ◌≡◌, ◌≢◌, ◌∙◌, sym, List, ◌∷◌, ◌++◌, arith, true, false, inl, inr,
  Bool-cases, ◌⊎◌, ℕ_discrete, dec_lt, Option, none, some,
}
use zip_log_ae.Storage.Log.{Log, Bytes}
use zip_log_ae.Storage.Log.Owned.{
  owned, has, has-append, owned-has, has-owned, owned-split, owned-split_has,
}
use zip_log_ae.Storage.Log.Links.{owner}
use zip_log_ae.Storage.Position.{Position, Stored}
use zip_log_ae.Storage.Position.Walk.{behind, Stands, StandsAt, start_of}
use zip_log_ae.Storage.Position.Insert.{Inserted}

pub record IsAt (l : Log) (p : Position) : Type 0 where
  pub stands : Stands l p
  pub passed :
      (a : ℕ)
      → a < start_of p.current_entry
      → owner l.cells a ≡ p.client_id
      → (l.cells a).set ≡ true
  pub ahead :
      (a : ℕ)
      → start_of p.current_entry ≤ a
      → a < l.current_entries
      → owner l.cells a ≡ p.client_id
      → (l.cells a).set ≡ false

pub StandsAt-ext :
    (o o' : ℕ → ℕ) (n n' c : ℕ)
    → ((a : ℕ) → o' a ≡ o a)
    → n' ≡ n
    → (cur : Option ℕ) → StandsAt o n c cur
    → StandsAt o' n' c cur
StandsAt-ext o o' n n' c same count none s = tt
StandsAt-ext o o' n n' c same count (some a) s = (ground arith, same a ∙ s.1)

module _ (l : Log) (p : Position) (buffer : Bytes) (n : ℕ) (xs : List ℕ) (d : ℕ) (ys : List ℕ)
    (s : Stored) (e : behind l p ≡ xs ++ d ∷ ys) (i : Inserted l p buffer n xs d ys s) where
  split :
      (d < l.current_entries)
      × (owner l.cells d ≡ p.client_id)
      × (ys ≡ owned (owner l.cells) p.client_id (d + 1) (l.current_entries - (d + 1)))
  split =
      owned-split (owner l.cells) p.client_id (start_of p.current_entry) l.current_entries xs d ys e

  below :
      (a : ℕ)
      → has a xs ≡ true
      → (start_of p.current_entry ≤ a) × (a < d) × (owner l.cells a ≡ p.client_id)
  below a =
      (owned-split_has (owner l.cells) p.client_id (start_of p.current_entry) l.current_entries xs d
        ys a e).1

  start-le : start_of p.current_entry ≤ d
  start-le =
      (owned-split_has (owner l.cells) p.client_id (start_of p.current_entry) l.current_entries xs d
        ys 0 e).0

  -- The client's places up to `d` are `d`, or among `xs`, or were passed before.
  placed :
      (a : ℕ)
      → start_of p.current_entry ≤ a
      → a < d
      → owner l.cells a ≡ p.client_id
      → has a xs ≡ true
  placed a lo hi mine = elim (Bool-cases (has a xs)) [
    | inl h ↦ h
    | inr h ↦ absurd (
        ground (
          arith,
          has-owned (owner l.cells) p.client_id (l.current_entries - start_of p.current_entry)
              (start_of p.current_entry) a,
          has-append a xs (d ∷ ys),
          owned-has (owner l.cells) p.client_id (l.current_entries - (d + 1)) (d + 1) a,
          e,
          split,
        ))
  ]

  -- What a cell holds afterwards.
  cell : (a : ℕ) → (s.log.cells a ≡ l.cells a) ⊎ ((a ≡ d) ⊎ (has a xs ≡ true))
  cell a = elim (ℕ_discrete a d) [
    | yes same ↦ inr (inl same)
    | no ne ↦ elim (Bool-cases (has a xs)) [ inl h ↦ inr (inr h) | inr h ↦ inl (i.others a ne h) ]
  ]

  set_cell : (a : ℕ) → (a ≡ d) ⊎ (has a xs ≡ true) → (s.log.cells a).set ≡ true
  set_cell a h = ground (arith, i.entry, i.closed a)

  owner_cell : (a : ℕ) → owner s.log.cells a ≡ owner l.cells a
  owner_cell a = ground (arith, i.entry, i.closed a, cell a)

  pub insert-final : IsAt l p → (a : ℕ) → (l.cells a).set ≡ true → s.log.cells a ≡ l.cells a
  insert-final at a set = elim (cell a) [
    | inl same ↦ same
    | inr (inl here) ↦ absurd (ground (arith, at.ahead a, split.0, split.1, start-le))
    | inr (inr h) ↦ absurd (ground (arith, at.ahead a, split.0, below a h))
  ]

  pub insert-IsAt : IsAt l p → IsAt s.log s.position
  insert-IsAt at = rw i.position (record {
    stands = rw i.position at i.stands;
    passed = λ a lt mine. elim (cell a) [
      | inr h ↦ set_cell a h
      | inl same ↦ elim (dec_lt a (start_of p.current_entry)) [
        | yes old ↦ ground (arith, same, at.passed a old, owner_cell a)
        | no new ↦ elim (dec_lt a d) [
          | yes before ↦
              set_cell a (inr (placed a (omega arith) before (sym (owner_cell a) ∙ mine)))
          | no here ↦ set_cell a (inl (omega arith))
        ]
      ]
    ];
    ahead = λ a le lt mine. elim (cell a) [
      | inr h ↦ absurd (ground (arith, below a))
      | inl same ↦ ground (arith, same, at.ahead a, owner_cell a, i.count, start-le)
    ];
  })

  pub insert-IsAt_other : (q : Position) → q.client_id ≢ p.client_id → IsAt l q → IsAt s.log q
  insert-IsAt_other q other at = record {
    stands =
        StandsAt-ext (owner l.cells) (owner s.log.cells) l.current_entries s.log.current_entries
          q.client_id owner_cell i.count q.current_entry at.stands;
    passed = λ a lt mine. ground (arith, insert_cell_other a, at.passed a, owner_cell a);
    ahead = λ a le lt mine. ground (arith, insert_cell_other a, at.ahead a, owner_cell a, i.count);
  }
    where
      insert_cell_other : (a : ℕ) → owner l.cells a ≢ p.client_id → s.log.cells a ≡ l.cells a
      insert_cell_other a ne = ground (arith, cell a, below a, split.1)

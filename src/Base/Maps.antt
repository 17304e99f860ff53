-- ===== src/Base/Maps.antt =====
-- `std::map` with 64-bit keys: association lists in the order of the keys. The same lists stand
-- for `std::unordered_map`, whose order is unspecified.
use Prim.Native.Nat.{ℕ, ◌+◌, ◌≤◌, ◌<◌}
use mathlib.Core.Path.{◌≡◌, refl, sym}
use mathlib.Core.Logic.{◌≢◌, inl, inr}
use mathlib.Core.List.{List, [], ◌∷◌}
use mathlib.Core.Option.{Option, none, some}
use native.Mathlib.Omega.{arith}
use zip_log_ae.Base.Tests.{ltb, ◌==◌, if◌then◌else◌, Bool-cases}
use zip_log_ae.Base.Lists.{length, All}

module _ {ℓ} {A : Type ℓ} where
  unfoldable pub find : ℕ → List (ℕ × A) → Option A
  find k [] = none
  find k ((j, a) ∷ xs) = let rest = find k xs in if j == k then some a else rest

  unfoldable pub assign : ℕ → A → List (ℕ × A) → List (ℕ × A)
  assign k a [] = (k, a) ∷ []
  assign k a ((j, b) ∷ xs) =
      let rest = (j, b) ∷ assign k a xs in
      if j == k then (k, a) ∷ xs else if ltb k j then (k, a) ∷ (j, b) ∷ xs else rest

  unfoldable pub erase : ℕ → List (ℕ × A) → List (ℕ × A)
  erase k [] = []
  erase k ((j, a) ∷ xs) = let rest = (j, a) ∷ erase k xs in if j == k then xs else rest

  -- The keys are at least `lo`, ascend, and lie below `hi`.
  abbrev pub Keyed : ℕ → ℕ → List (ℕ × A) → Type 0
  Keyed lo hi [] = Unit
  Keyed lo hi ((k, a) ∷ xs) = (lo ≤ k) × (k < hi) × Keyed (k + 1) hi xs

  pub Keyed-mono : (lo lo' hi : ℕ) (xs : List (ℕ × A)) → lo' ≤ lo → Keyed lo hi xs → Keyed lo' hi xs
  Keyed-mono lo lo' hi [] le h = tt
  Keyed-mono lo lo' hi ((k, a) ∷ xs) le (p, q, r) = (omega arith, q, r)

  pub assign-Keyed :
      (lo hi k : ℕ) (a : A) (xs : List (ℕ × A))
      → lo ≤ k
      → k < hi
      → Keyed lo hi xs
      → Keyed lo hi (assign k a xs)
  unfolding assign
  assign-Keyed lo hi k a [] le lt h = (le, lt, tt)
  assign-Keyed lo hi k a ((j, b) ∷ xs) le lt (p, q, r) = elim (Bool-cases (j == k)) [
    | inl e ↦ rw e (le, lt, Keyed-mono (j + 1) (k + 1) hi xs (ground arith) r)
    | inr ne ↦ rw ne (elim (Bool-cases (ltb k j)) [
      | inl below ↦ rw below (le, lt, (ground arith, q, r))
      | inr above ↦ rw above (p, q, assign-Keyed (j + 1) hi k a xs (ground arith) lt r)
    ])
  ]

  pub erase-Keyed : (lo hi k : ℕ) (xs : List (ℕ × A)) → Keyed lo hi xs → Keyed lo hi (erase k xs)
  unfolding erase
  erase-Keyed lo hi k [] h = tt
  erase-Keyed lo hi k ((j, b) ∷ xs) (p, q, r) = elim (Bool-cases (j == k)) [
    | inl e ↦ rw e (Keyed-mono (j + 1) lo hi xs (omega arith) r)
    | inr ne ↦ rw ne (p, q, erase-Keyed (j + 1) hi k xs r)
  ]

  pub length-Keyed :
      (lo hi : ℕ) (xs : List (ℕ × A)) → lo ≤ hi → Keyed lo hi xs → length xs + lo ≤ hi
  length-Keyed lo hi [] le h = omega arith
  length-Keyed lo hi ((k, a) ∷ xs) le (p, q, r) =
      omega (arith, length-Keyed (k + 1) hi xs (omega arith) r)

  pub find-below : (lo hi k : ℕ) (xs : List (ℕ × A)) → k < lo → Keyed lo hi xs → find k xs ≡ none
  unfolding find
  find-below lo hi k [] lt h = refl
  find-below lo hi k ((j, a) ∷ xs) lt (p, q, r) = elim (Bool-cases (j == k)) [
    | inl e ↦ absurd (ground arith)
    | inr ne ↦ rw ne (find-below (j + 1) hi k xs (omega arith) r)
  ]

  pub find-bound :
      (lo hi k : ℕ) (a : A) (xs : List (ℕ × A)) → Keyed lo hi xs → find k xs ≡ some a → k < hi
  unfolding find
  find-bound lo hi k a [] h e = absurd cc
  find-bound lo hi k a ((j, b) ∷ xs) (p, q, r) e = elim (Bool-cases (j == k)) [
    | inl same ↦ ground arith
    | inr ne ↦ find-bound (j + 1) hi k a xs r (rw ne at e)
  ]

  pub find-assign : (k : ℕ) (a : A) (xs : List (ℕ × A)) → find k (assign k a xs) ≡ some a
  unfolding find assign
  find-assign k a [] = ground arith
  find-assign k a ((j, b) ∷ xs) = elim (Bool-cases (j == k)) [
    | inl e ↦ rw e (ground arith)
    | inr ne ↦ rw ne (elim (Bool-cases (ltb k j)) [
      | inl below ↦ rw below (ground arith)
      | inr above ↦ rw (above, ne) (find-assign k a xs)
    ])
  ]

  pub find-assign_other :
      (k j : ℕ) (a : A) (xs : List (ℕ × A)) → k ≢ j → find k (assign j a xs) ≡ find k xs
  unfolding find assign
  find-assign_other k j a [] ne = ground arith
  find-assign_other k j a ((i, b) ∷ xs) ne = elim (Bool-cases (i == j)) [
    | inl e ↦ rw e (ground arith)
    | inr other ↦ rw other (elim (Bool-cases (ltb j i)) [
      | inl below ↦ rw below (ground arith)
      | inr above ↦ rw (above, find-assign_other k j a xs ne) refl
    ])
  ]

  pub find-erase : (lo hi k : ℕ) (xs : List (ℕ × A)) → Keyed lo hi xs → find k (erase k xs) ≡ none
  unfolding find erase
  find-erase lo hi k [] h = refl
  find-erase lo hi k ((j, b) ∷ xs) (p, q, r) = elim (Bool-cases (j == k)) [
    | inl e ↦ rw e (find-below (j + 1) hi k xs (ground arith) r)
    | inr ne ↦ rw (ne, ne) (find-erase (j + 1) hi k xs r)
  ]

  pub find-erase_other : (k j : ℕ) (xs : List (ℕ × A)) → k ≢ j → find k (erase j xs) ≡ find k xs
  unfolding find erase
  find-erase_other k j [] ne = refl
  find-erase_other k j ((i, b) ∷ xs) ne = elim (Bool-cases (i == j)) [
    | inl e ↦ rw e (ground arith)
    | inr other ↦ rw (other, find-erase_other k j xs ne) refl
  ]

  module _ {κ} (P : ℕ × A → Type κ) where
    pub All-assign :
        (k : ℕ) (a : A) (xs : List (ℕ × A)) → P (k, a) → All P xs → All P (assign k a xs)
    unfolding assign
    All-assign k a [] p h = (p, tt)
    All-assign k a ((j, b) ∷ xs) p (q, h) = elim (Bool-cases (j == k)) [
      | inl e ↦ rw e (p, h)
      | inr ne ↦ rw ne (elim (Bool-cases (ltb k j)) [
        | inl below ↦ rw below (p, (q, h))
        | inr above ↦ rw above (q, All-assign k a xs p h)
      ])
    ]

    pub All-erase : (k : ℕ) (xs : List (ℕ × A)) → All P xs → All P (erase k xs)
    unfolding erase
    All-erase k [] h = tt
    All-erase k ((j, b) ∷ xs) (q, h) = elim (Bool-cases (j == k)) [
      | inl e ↦ rw e h
      | inr ne ↦ rw ne (q, All-erase k xs h)
    ]

    pub All-find : (k : ℕ) (a : A) (xs : List (ℕ × A)) → All P xs → find k xs ≡ some a → P (k, a)
    unfolding find
    All-find k a [] h e = absurd cc
    All-find k a ((j, b) ∷ xs) (q, h) e = elim (Bool-cases (j == k)) [
      | inl same ↦
          let here : b ≡ a = ground (arith, rw same at e) in
          let there : j ≡ k = ground arith in rw (sym there, sym here) q
      | inr ne ↦ All-find k a xs h (rw ne at e)
    ]

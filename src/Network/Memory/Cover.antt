-- ===== src/Network/Memory/Cover.antt =====
-- How many buffers of the manager (src/network/manager.cpp) contain a byte, in lists that its
-- operations cut, join and change.
use zip_log_ae.Network.Transfer.{skip}
use zip_log_ae.Network.Memory.{Handle, Region, carve, huge_page_size}
use zip_log_ae.Network.Memory.Objects.{
  remove_at, replace, object, move_construct_at, move_assign_at,
}
use zip_log_ae.Base.{
  ℕ, zero, suc, ◌+◌, ◌*◌, ◌≡◌, refl, ◌&&◌, Option, none, some, List, [], ◌∷◌, ◌++◌, map,
  if◌then◌else◌, ltb, leb, arith, take, get_elem?,
}

-- 1 when a byte lies in the `size` bytes from an address on.
abbrev pub covers : ℕ → ℕ → ℕ → ℕ
covers size byte address = if leb address byte && ltb byte (address + size) then 1 else 0

module _ {ℓ} {A : Type ℓ} (w : A → ℕ) where
  abbrev pub sum : List A → ℕ
  sum [] = 0
  sum (x ∷ xs) = w x + sum xs

  pub sum-append : (xs ys : List A) → sum (xs ++ ys) ≡ sum xs + sum ys
  sum-append [] ys = omega arith
  sum-append (x ∷ xs) ys = omega (arith, sum-append xs ys)

  pub sum-take : (n : ℕ) (xs : List A) → sum (take n xs) + sum (skip n xs) ≡ sum xs
  sum-take zero xs = omega arith
  sum-take (suc n) [] = omega arith
  sum-take (suc n) (x ∷ xs) = omega (arith, sum-take n xs)

  pub sum-remove_at :
      (i : ℕ) (xs : List A) (x : A) → get_elem? xs i ≡ some x → sum (remove_at i xs) + w x ≡ sum xs
  unfolding remove_at
  sum-remove_at i [] x e = cc
  sum-remove_at zero (y ∷ ys) x e = ground (arith, e)
  sum-remove_at (suc i) (y ∷ ys) x e = omega (arith, sum-remove_at i ys x e)

  pub sum-replace :
      (i : ℕ) (xs : List A) (x y : A)
      → get_elem? xs i ≡ some x
      → sum (replace i y xs) + w x ≡ sum xs + w y
  unfolding replace
  sum-replace i [] x y e = cc
  sum-replace zero (z ∷ zs) x y e = ground (arith, e)
  sum-replace (suc i) (z ∷ zs) x y e = omega (arith, sum-replace i zs x y e)

  -- What the owner of an optional element counts.
  abbrev pub owned : Option A → ℕ
  owned none = 0
  owned (some x) = w x

pub sum-map-some {ℓ} :
    {A : Type ℓ} (w : A → ℕ) (xs : List A) → sum (owned w) (map some xs) ≡ sum w xs
sum-map-some w [] = refl
sum-map-some w (x ∷ xs) = omega (arith, sum-map-some w xs)

module _ (w : Handle → ℕ) where
  abbrev pub owned_sum : List (Option Handle) → ℕ
  owned_sum = sum (owned w)

  pub owned-destroy :
      (i : ℕ) (xs : List (Option Handle))
      → owned_sum (remove_at i xs) + owned w (object i xs) ≡ owned_sum xs
  unfolding remove_at object
  owned-destroy i [] = omega arith
  owned-destroy zero (x ∷ xs) = omega arith
  owned-destroy (suc i) (x ∷ xs) = omega (arith, owned-destroy i xs)

  take_out :
      (i : ℕ) (xs : List (Option Handle))
      → owned_sum (replace i none xs) + owned w (object i xs) ≡ owned_sum xs
  unfolding replace object
  take_out i [] = omega arith
  take_out zero (x ∷ xs) = omega arith
  take_out (suc i) (x ∷ xs) = omega (arith, take_out i xs)

  pub owned-move_construct :
      (i : ℕ) (xs : List (Option Handle)) → owned_sum (move_construct_at i xs) ≡ owned_sum xs
  unfolding move_construct_at
  owned-move_construct i xs =
      omega (arith, sum-append (owned w) (replace i none xs) (object i xs ∷ []), take_out i xs)

-- The elements of a list after one of them has been replaced.
pub get-replace {ℓ} :
    {A : Type ℓ} (i j : ℕ) (xs : List A) (x y : A)
    → get_elem? xs i ≡ some x
    → get_elem? xs j ≡ some y
    → get_elem? (replace i y xs) j ≡ some y
unfolding replace
get-replace i j [] x y e f = cc
get-replace zero zero (z ∷ zs) x y e f = refl
get-replace zero (suc j) (z ∷ zs) x y e f = f
get-replace (suc i) zero (z ∷ zs) x y e f = f
get-replace (suc i) (suc j) (z ∷ zs) x y e f = get-replace i j zs x y e f

module _ (w : Handle → ℕ) where
  swap_at :
      (i j : ℕ) (xs : List (Option Handle)) (x y : Option (Option Handle))
      → get_elem? xs i ≡ x
      → get_elem? xs j ≡ y
      → owned_sum w (move_assign_at i j xs) ≡ owned_sum w xs
  unfolding move_assign_at
  swap_at i j xs none y e f = rw (move_assign_at, e) refl
  swap_at i j xs (some x) none e f = rw (move_assign_at, e, f) refl
  swap_at i j xs (some x) (some y) e f =
      rw (move_assign_at, e, f)
        (omega (
          arith,
          sum-replace (owned w) i xs x y e,
          sum-replace (owned w) j (replace i y xs) y x (get-replace i j xs x y e f),
        ))

  pub owned-move_assign :
      (i j : ℕ) (xs : List (Option Handle)) → owned_sum w (move_assign_at i j xs) ≡ owned_sum w xs
  owned-move_assign i j xs = swap_at i j xs _ _ refl refl

-- The bytes of `count` buffers.
abbrev pub span : ℕ → ℕ → ℕ
span size zero = 0
span size (suc count) = size + span size count

pub span_lem : (size count : ℕ) → span size count ≡ count * size
span_lem size zero = omega arith
span_lem size (suc count) = grind (arith, span_lem size count)

abbrev pub count_in : ℕ → ℕ → List Handle → ℕ
count_in size byte = sum (λ h. covers size byte h.0)

-- Exactly one of the buffers that are cut from a part of a page contains a byte of that part.
pub count-carve :
    (size address key count j byte : ℕ)
    → count_in size byte (carve size address key count j)
      ≡ covers (span size count) byte (address + j)
unfolding carve
count-carve size address key zero j byte = ground arith
count-carve size address key (suc count) j byte =
    let ih = count-carve size address key count (j + size) byte in ground (arith, ih)

abbrev pub pages_in : ℕ → List Region → ℕ
pages_in byte = sum (λ r. covers huge_page_size byte r.address)

-- ===== src/Network/Memory/Receive.antt =====
-- Arrays, the bits of the free receive buffers and the loop that stores the receive buffers of a
-- page (src/network/manager.cpp).
use zip_log_ae.Network.SendQueue.{receive_buffer_size}
use zip_log_ae.Network.Memory.{Handle, Region, carve, set_at, find_first, store}
use zip_log_ae.Network.Memory.Objects.{replace}
use zip_log_ae.Base.{
  ℕ, zero, suc, ◌+◌, ◌*◌, ◌≤◌, ◌<◌, ◌≡◌, ◌≢◌, refl, sym, ◌∙◌, ap, Bool, true, false, Option, none,
  some, List, [], ◌∷◌, ◌++◌, map, arith, length, get_elem?, replicate, length-append, append_assoc,
}

module _ {ℓ} {A : Type ℓ} where
  -- An assignment within the bounds of an array.
  pub record Sets (i : ℕ) (a : A) (xs : List A) : Type ℓ where
    pub yields : set_at i a xs ≡ some (replace i a xs)
    pub long : length (replace i a xs) ≡ length xs
    pub others : (j : ℕ) → j ≢ i → get_elem? (replace i a xs) j ≡ get_elem? xs j

  pub set_at-Sets : (i : ℕ) (a : A) (xs : List A) → i < length xs → Sets i a xs
  unfolding set_at replace
  set_at-Sets i a [] h = absurd (omega arith)
  set_at-Sets zero a (x ∷ xs) h = record {
    yields = refl;
    long = refl;
    others = elim [ zero ↦ λ ne. absurd (ne refl) | suc j ↦ λ ne. refl ];
  }
  set_at-Sets (suc i) a (x ∷ xs) h =
      let rest = set_at-Sets i a xs (omega (arith, h)) in
      record {
        yields = rw (set_at, rest.yields) refl;
        long = ap suc rest.long;
        others = elim [ zero ↦ λ ne. refl | suc j ↦ λ ne. rest.others j (λ e. ne (ap suc e)) ];
      }

  pub set_at-append :
      (xs ys : List A) (a y : A) → set_at (length xs) a (xs ++ (y ∷ ys)) ≡ some (xs ++ (a ∷ ys))
  unfolding set_at
  set_at-append [] ys a y = refl
  set_at-append (x ∷ xs) ys a y = rw (set_at, set_at-append xs ys a y) refl

  pub get-append_left :
      (xs ys : List A) (i : ℕ) (x : A) → get_elem? xs i ≡ some x → get_elem? (xs ++ ys) i ≡ some x
  get-append_left [] ys i x e = cc
  get-append_left (z ∷ zs) ys zero x e = e
  get-append_left (z ∷ zs) ys (suc i) x e = get-append_left zs ys i x e

  get_past :
      (xs ys : List A) (i : ℕ) (a : A)
      → (i < length xs → get_elem? xs i ≡ some a)
      → ((j : ℕ) → i ≡ length xs + j → get_elem? ys j ≡ some a)
      → get_elem? (xs ++ ys) i ≡ some a
  get_past [] ys i a f g = g i (omega arith)
  get_past (x ∷ xs) ys zero a f g = f (omega arith)
  get_past (x ∷ xs) ys (suc i) a f g =
      get_past xs ys i a (λ h. f (omega (arith, h))) (λ j e. g j (omega (arith, e)))

  pub get-replicate : (n i : ℕ) (a : A) → i < n → get_elem? (replicate n a) i ≡ some a
  get-replicate zero i a h = absurd (omega arith)
  get-replicate (suc n) zero a h = refl
  get-replicate (suc n) (suc i) a h = get-replicate n i a (omega (arith, h))

  -- `8 * k` times the same element.
  abbrev pub blanks : ℕ → A → List A
  blanks zero a = []
  blanks (suc k) a = replicate 8 a ++ blanks k a

  pub length-blanks : (k : ℕ) (a : A) → length (blanks k a) ≡ 8 * k
  length-blanks zero a = refl
  length-blanks (suc k) a =
      omega (arith, length-append (replicate 8 a) (blanks k a), length-blanks k a)

  pub get-blanks_only : (k i : ℕ) (a : A) → i < 8 * k → get_elem? (blanks k a) i ≡ some a
  get-blanks_only zero i a h = absurd (omega arith)
  get-blanks_only (suc k) i a h =
      get_past (replicate 8 a) (blanks k a) i a (get-replicate 8 i a)
        (λ j e. get-blanks_only k j a (omega (arith, h, e)))

  pub get-blanks :
      (xs : List A) (k i : ℕ) (a : A)
      → length xs ≤ i
      → i < length xs + 8 * k
      → get_elem? (xs ++ blanks k a) i ≡ some a
  get-blanks xs k i a le lt =
      get_past xs (blanks k a) i a (λ h. absurd (omega arith))
        (λ j e. get-blanks_only k j a (omega (arith, lt, e)))

  pub get-below : (xs : List A) (i : ℕ) → i < length xs → (x : A) × (get_elem? xs i ≡ some x)
  get-below [] i h = absurd (omega arith)
  get-below (x ∷ xs) zero h = (x, refl)
  get-below (x ∷ xs) (suc i) h = get-below xs i (omega (arith, h))

  pub get-bound : (xs : List A) (i : ℕ) (x : A) → get_elem? xs i ≡ some x → i < length xs
  get-bound [] i x e = cc
  get-bound (y ∷ ys) zero x e = omega arith
  get-bound (y ∷ ys) (suc i) x e = omega (arith, get-bound ys i x e)

pub get-map {ℓ κ} :
    {A : Type ℓ} {B : Type κ} (f : A → B) (xs : List A) (i : ℕ) (x : A)
    → get_elem? xs i ≡ some x
    → get_elem? (map f xs) i ≡ some (f x)
get-map f [] i x e = cc
get-map f (y ∷ ys) zero x e = cc
get-map f (y ∷ ys) (suc i) x e = get-map f ys i x e

-- The first bit that is set, or the number of bits when none is.
pub find_first-set :
    (bs : List Bool) → find_first bs < length bs → get_elem? bs (find_first bs) ≡ some true
unfolding find_first
find_first-set [] h = absurd (omega arith)
find_first-set (true ∷ bs) h = refl
find_first-set (false ∷ bs) h = find_first-set bs (omega (arith, h))

pub find_first-le : (bs : List Bool) (i : ℕ) → get_elem? bs i ≡ some true → find_first bs ≤ i
unfolding find_first
find_first-le [] i e = cc
find_first-le (true ∷ bs) i e = omega arith
find_first-le (false ∷ bs) zero e = cc
find_first-le (false ∷ bs) (suc i) e = omega (arith, find_first-le bs i e)

pub find_first-bound : (bs : List Bool) → find_first bs ≤ length bs
unfolding find_first
find_first-bound [] = omega arith
find_first-bound (true ∷ bs) = omega arith
find_first-bound (false ∷ bs) = omega (arith, find_first-bound bs)

-- What a list of buffers puts into the two arrays.
abbrev pub address_of : Handle → Option ℕ
address_of h = some h.0

abbrev pub key_of : Handle → ℕ
key_of h = h.1

-- Stored behind the buffers that there are, the buffers of a page fill the next empty elements.
pub store_lem :
    (r : Region) (count j : ℕ) (bs us : List (Option ℕ)) (ks vs : List ℕ)
    → length ks ≡ length bs
    → store r count
        (length bs)
        j
        (bs ++ (replicate count none ++ us))
        (ks ++ (replicate count 0 ++ vs))
      ≡ some (
        bs ++ (map address_of (carve receive_buffer_size r.address r.remote_key count j) ++ us),
        ks ++ (map key_of (carve receive_buffer_size r.address r.remote_key count j) ++ vs),
      )
unfolding store carve
store_lem r zero j bs us ks vs e = refl
store_lem r (suc count) j bs us ks vs e =
    let b : Option ℕ = some (r.address + j) in
    let bs' = bs ++ (b ∷ []) in
    let more = carve receive_buffer_size r.address r.remote_key count (j + receive_buffer_size) in
    let ks' = ks ++ (r.remote_key ∷ []) in
    let first = set_at-append bs (replicate count none ++ us) b none in
    let second : set_at (length bs) r.remote_key (ks ++ (0 ∷ (replicate count 0 ++ vs)))
        ≡ some (ks ++ (r.remote_key ∷ (replicate count 0 ++ vs))) =
      rw (sym e) (set_at-append ks (replicate count 0 ++ vs) r.remote_key 0) in
    let long : length bs' ≡ length bs + 1 = length-append bs (b ∷ []) in
    let rest =
      store_lem r count (j + receive_buffer_size) bs' us ks' vs
        (length-append ks (r.remote_key ∷ []) ∙ (ap (λ n. n + 1) e ∙ sym long)) in
    let opened : store r count (length bs + 1) (j + receive_buffer_size)
          (bs ++ (b ∷ (replicate count none ++ us)))
          (ks ++ (r.remote_key ∷ (replicate count 0 ++ vs)))
        ≡ some (
          bs ++ (b ∷ (map address_of (more) ++ us)),
          ks ++ (r.remote_key ∷ (map key_of (more) ++ vs)),
        ) =
      rw
        (
          append_assoc bs (b ∷ []) (replicate count none ++ us),
          append_assoc ks (r.remote_key ∷ []) (replicate count 0 ++ vs),
          append_assoc bs (b ∷ []) (map address_of more ++ us),
          append_assoc ks (r.remote_key ∷ []) (map key_of more ++ vs),
          long,
        )
        at rest in
    rw (store, first, second) opened

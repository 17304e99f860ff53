-- ===== src/Lock/Prefixes.antt =====
-- Parts of a log, and what the lock service of src/lock_service/lock_service.cpp has after them.
use zip_log_ae.Base.{
  ℕ, ◌≤◌, ◌≡◌, ◌∙◌, sym, refl, ap, some, List, [], ◌∷◌, ◌++◌, arith, inl, inr, Bool-cases,
  Option-cases, ◌==◌, length, head?, All,
}
use zip_log_ae.Lock.{Request, Service, new_service, callback, run, is_lock}
use zip_log_ae.Lock.Fifo.{locks, run-Passes}

module _ {ℓ} {A : Type ℓ} where
  -- Two ways to cut a list, the first one earlier.
  pub record Between (xs ys zs ws : List A) : Type ℓ where
    pub middle : List A
    pub longer : zs ≡ xs ++ middle
    pub shorter : ys ≡ middle ++ ws

  pub cut :
      (xs ys zs ws : List A) → xs ++ ys ≡ zs ++ ws → length xs ≤ length zs → Between xs ys zs ws
  cut [] ys zs ws e le = record { middle = zs; longer = refl; shorter = e }
  cut (x ∷ xs) ys [] ws e le = absurd (omega arith)
  cut (x ∷ xs) ys (z ∷ zs) ws e le =
      let tails : xs ++ ys ≡ zs ++ ws = cc in
      let heads : x ≡ z = cc in
      let b = cut xs ys zs ws tails (omega (arith, le)) in
      record {
        middle = b.middle;
        longer = ap (◌∷◌ z) b.longer ∙ ap (λ y. y ∷ xs ++ b.middle) (sym heads);
        shorter = b.shorter;
      }

  same_end : (xs ys zs ws : List A) → xs ++ ys ≡ zs ++ ws → length xs ≡ length zs → ys ≡ ws
  same_end [] ys [] ws e le = e
  same_end [] ys (z ∷ zs) ws e le = absurd (omega arith)
  same_end (x ∷ xs) ys [] ws e le = absurd (omega arith)
  same_end (x ∷ xs) ys (z ∷ zs) ws e le =
      let tails : xs ++ ys ≡ zs ++ ws = cc in
      let alike : length xs ≡ length zs = omega (arith, le) in same_end xs ys zs ws tails alike

  module _ {κ} (P : A → Type κ) where
    pub All-left : (xs ys : List A) → All P (xs ++ ys) → All P xs
    All-left [] ys h = tt
    All-left (x ∷ xs) ys h = (h.0, All-left xs ys h.1)

    pub All-right : (xs ys : List A) → All P (xs ++ ys) → All P ys
    All-right [] ys h = h
    All-right (x ∷ xs) ys h = All-right xs ys h.1

    pub All-head : (xs : List A) (x : A) → All P xs → head? xs ≡ some x → P x
    All-head [] x h e = cc
    All-head (y ∷ ys) x h e = let same : y ≡ x = cc in rw (sym same) h.0

pub All-each {ℓ κ μ} :
    {A : Type ℓ} (P : A → Type κ) (Q : A → Type μ) (xs : List A)
    → ((x : A) → P x → Q x)
    → All P xs
    → All Q xs
All-each P Q [] f h = tt
All-each P Q (x ∷ xs) f h = (f x h.0, All-each P Q xs f h.1)

pub All-locks {κ} :
    (P : Request → Type κ) (k : ℕ) (rs : List Request) → All P rs → All P (locks k rs)
All-locks P k [] h = tt
All-locks P k (r ∷ rs) h = elim (Bool-cases (is_lock r.action)) [
  | inr a ↦ rw a (All-locks P k rs h.1)
  | inl a ↦ elim (Bool-cases (r.lock_key == k)) [
    | inl e ↦ rw (a, e) (h.0, All-locks P k rs h.1)
    | inr e ↦ rw (a, e) (All-locks P k rs h.1)
  ]
]

pub locks-key : (k : ℕ) (rs : List Request) → All (λ r. r.lock_key ≡ k) (locks k rs)
locks-key k [] = tt
locks-key k (r ∷ rs) = elim (Bool-cases (is_lock r.action)) [
  | inr a ↦ rw a (locks-key k rs)
  | inl a ↦ elim (Bool-cases (r.lock_key == k)) [
    | inl e ↦ rw (a, e) (ground (arith, e), locks-key k rs)
    | inr e ↦ rw (a, e) (locks-key k rs)
  ]
]

-- The queues do not depend on the client of the service.
pub queue_alike :
    (k c d n : ℕ) (rs : List Request) (s t : Service)
    → run (new_service c n) rs ≡ some s
    → run (new_service d n) rs ≡ some t
    → s.lock_queue k ≡ t.lock_queue k
queue_alike k c d n rs s t e f =
    let p = run-Passes k (new_service c n) s rs e in
    let q = run-Passes k (new_service d n) t rs f in
    same_end p.taken (s.lock_queue k) q.taken (t.lock_queue k) (sym p.order ∙ q.order)
      (p.count ∙ sym q.count)

-- What holds of all requests of the log holds of those in a queue.
pub All-queue {κ} :
    (P : Request → Type κ) (k c n : ℕ) (rs : List Request) (s : Service)
    → run (new_service c n) rs ≡ some s
    → All P (locks k rs)
    → All P (s.lock_queue k)
All-queue P k c n rs s e h =
    let p = run-Passes k (new_service c n) s rs e in
    All-right P p.taken (s.lock_queue k) (rw (sym p.order) h)

pub run-append :
    (s t : Service) (xs ys : List Request)
    → run s (xs ++ ys) ≡ some t
    → (u : Service) × (run s xs ≡ some u) × (run u ys ≡ some t)
unfolding run
run-append s t [] ys e = (s, refl, e)
run-append s t (x ∷ xs) ys e = elim (Option-cases (callback s x)) [
  | inl bad ↦ absurd (ground (arith, rw bad at e))
  | inr (u, one) ↦
      let (v, first, second) = run-append u t xs ys (rw one at e) in
      (v, rw (run, one) first, second)
]

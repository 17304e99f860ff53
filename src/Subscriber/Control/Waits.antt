-- ===== src/Subscriber/Control/Waits.antt =====
-- How many finished messages the thread `control` of src/subscriber/subscriber.cpp waits for.
use zip_log_ae.Base.{
  ℕ, ◌+◌, ◌-◌, ◌<◌, ◌≡◌, ◌≢◌, refl, ap, false, some, List, [], ◌∷◌, ◌==◌, find, erase, assign,
  find-erase_other, find-assign, find-assign_other, is_none, Keyed, All, arith, inl, inr,
  Bool-cases,
}
use zip_log_ae.Subscriber.Control.{count_of}

-- For each replica with `n` queues, those that have not finished.
abbrev pub waits : List (ℕ × ℕ) → List (ℕ × ℕ) → ℕ
waits [] f = 0
waits ((r, n) ∷ qs) f = (n - count_of (find r f)) + waits qs f

-- A replica that has not finished all its queues.
abbrev pub IsOpen : List (ℕ × ℕ) → ℕ × ℕ → Type 0
IsOpen f q = count_of (find q.0 f) < q.1

-- Counts that agree on the replicas from `lo` on.
waits-same :
    (lo hi r : ℕ) (qs f g : List (ℕ × ℕ))
    → ((k : ℕ) → k ≢ r → find k g ≡ find k f)
    → r < lo
    → Keyed lo hi qs
    → (waits qs g ≡ waits qs f) × (All (IsOpen f) qs → All (IsOpen g) qs)
waits-same lo hi r [] f g same lt h = (refl, λ o. tt)
waits-same lo hi r ((k, n) ∷ qs) f g same lt (p, q, h) =
    let (eq, open_later) = waits-same (k + 1) hi r qs f g same (omega arith) h in
    let e : find k g ≡ find k f = same k (omega arith) in
    (rw (e, eq) refl, λ o. (rw e o.0, open_later o.1))

-- One more finished message of a replica that is not the last.
pub waits-one :
    (lo hi r n : ℕ) (qs f g : List (ℕ × ℕ))
    → ((k : ℕ) → k ≢ r → find k g ≡ find k f)
    → find r g ≡ some (count_of (find r f) + 1)
    → Keyed lo hi qs
    → find r qs ≡ some n
    → All (IsOpen f) qs
    → count_of (find r f) + 1 < n
    → (waits qs g + 1 ≡ waits qs f) × All (IsOpen g) qs
unfolding find
waits-one lo hi r n [] f g same more h there o lt = absurd cc
waits-one lo hi r n ((k, m) ∷ qs) f g same more (p, q, h) there (o, os) lt =
    elim (Bool-cases (k == r)) [
      | inl e ↦
          let kr : k ≡ r = ground (arith, e) in
          let mn : m ≡ n = ground (arith, rw e at there) in
          let ck : count_of (find k g) ≡ count_of (find k f) + 1 = rw kr (ap count_of more) in
          let lt' : count_of (find k f) + 1 < m = rw (kr, mn) lt in
          let (eq, later) = waits-same (k + 1) hi r qs f g same (omega (arith, kr)) h in
          (omega (arith, ck, lt', eq), (omega (arith, ck, lt'), later os))
      | inr ne ↦
          let ek : find k g ≡ find k f = same k (ground (arith, ne)) in
          let (eq, later) = waits-one (k + 1) hi r n qs f g same more h (rw ne at there) os lt in
          (rw ek (omega (arith, eq)), (rw ek o, later))
    ]

-- The last finished message of a replica.
pub waits-last :
    (lo hi r n : ℕ) (qs f g : List (ℕ × ℕ))
    → ((k : ℕ) → k ≢ r → find k g ≡ find k f)
    → Keyed lo hi qs
    → find r qs ≡ some n
    → All (IsOpen f) qs
    → count_of (find r f) + 1 ≡ n
    → (waits (erase r qs) g + 1 ≡ waits qs f) × All (IsOpen g) (erase r qs)
unfolding find erase
waits-last lo hi r n [] f g same h there o e = absurd cc
waits-last lo hi r n ((k, m) ∷ qs) f g same (p, q, h) there (o, os) e = elim (Bool-cases (k == r)) [
  | inl here ↦
      let kr : k ≡ r = ground (arith, here) in
      let mn : m ≡ n = ground (arith, rw here at there) in
      let last : count_of (find k f) + 1 ≡ m = rw (kr, mn) e in
      let (eq, later) = waits-same (k + 1) hi r qs f g same (omega (arith, kr)) h in
      rw here (omega (arith, last, eq), later os)
  | inr ne ↦
      let ek : find k g ≡ find k f = same k (ground (arith, ne)) in
      let (eq, later) = waits-last (k + 1) hi r n qs f g same h (rw ne at there) os e in
      rw ne (rw ek (omega (arith, eq)), (rw ek o, later))
]

-- A replica that is connected.
abbrev pub IsKnown : List (ℕ × ℕ) → ℕ × ℕ → Type 0
IsKnown qs x = is_none (find x.0 qs) ≡ false

behind-IsKnown :
    (lo hi r : ℕ) (qs f : List (ℕ × ℕ))
    → r < lo
    → Keyed lo hi f
    → All (IsKnown qs) f
    → All (IsKnown (erase r qs)) f
behind-IsKnown lo hi r qs [] lt h k = tt
behind-IsKnown lo hi r qs ((j, a) ∷ f) lt (p, q, h) (k, ks) = (
  rw (find-erase_other j r qs (omega arith)) k,
  behind-IsKnown (j + 1) hi r qs f (omega arith) h ks,
)

pub erase-IsKnown :
    (lo hi r : ℕ) (qs f : List (ℕ × ℕ))
    → Keyed lo hi f
    → All (IsKnown qs) f
    → All (IsKnown (erase r qs)) (erase r f)
unfolding erase
erase-IsKnown lo hi r qs [] h k = tt
erase-IsKnown lo hi r qs ((j, a) ∷ f) (p, q, h) (k, ks) = elim (Bool-cases (j == r)) [
  | inl e ↦ rw e (behind-IsKnown (j + 1) hi r qs f (ground (arith, e)) h ks)
  | inr ne ↦
      rw ne
        (rw (find-erase_other j r qs (ground (arith, ne))) k, erase-IsKnown (j + 1) hi r qs f h ks)
]

pub assign-IsKnown :
    (r n : ℕ) (qs f : List (ℕ × ℕ)) → All (IsKnown qs) f → All (IsKnown (assign r n qs)) f
assign-IsKnown r n qs [] k = tt
assign-IsKnown r n qs ((j, a) ∷ f) (k, ks) = elim (Bool-cases (j == r)) [
  | inl e ↦
      let jr : j ≡ r = ground (arith, e) in
      (rw (jr, find-assign r n qs) refl, assign-IsKnown r n qs f ks)
  | inr ne ↦ (rw (find-assign_other j r n qs (ground (arith, ne))) k, assign-IsKnown r n qs f ks)
]

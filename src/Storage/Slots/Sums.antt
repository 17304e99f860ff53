-- ===== src/Storage/Slots/Sums.antt =====
-- The slots of the loop of `log::add_entries`, src/storage/log.cpp, for any weight of a slot.
use zip_log_ae.Base.{
  ℕ, zero, suc, ◌+◌, ◌*◌, ◌/◌, ◌≤◌, ◌<◌, ◌^◌, ◌≡◌, ◌∙◌, refl, ap, sym, List, [], ◌∷◌, map, arith,
  if◌then◌else◌, All, length, dec_lt,
}
use zip_log_ae.Storage.Slots.{
  Assignment, Secondary, is_due, next_error, secondary, advance, secondaries, rounds, generate,
}

-- How often one secondary client is due in the given number of rounds.
unfoldable pub times_due : ℕ → ℕ → Secondary → ℕ
times_due n0 zero a = 0
times_due n0 (suc k) a = (if is_due a then 1 else 0) + times_due n0 k (advance n0 a)

-- The error stays between 0 and the primary client's number of slots.
abbrev pub InRange : ℕ → Secondary → Type 0
InRange n0 a = (a.error < n0) × (a.assignment.num_slots ≤ n0)

pub advance-InRange :
    (n0 : ℕ) (a : Secondary) → n0 < 2 ^ 63 → InRange n0 a → InRange n0 (advance n0 a)
unfolding next_error is_due
advance-InRange n0 a small r = ground arith

pub next_error-balance :
    (n0 : ℕ) (a : Secondary)
    → n0 < 2 ^ 63
    → InRange n0 a
    → a.error + (if is_due a then n0 else 0) ≡ next_error n0 a + a.assignment.num_slots
unfolding next_error is_due
next_error-balance n0 a small r = ground arith

pub times_due-balance :
    (n0 k : ℕ) (a : Secondary)
    → n0 < 2 ^ 63
    → InRange n0 a
    → (e : ℕ) × (e < n0) × (a.error + times_due n0 k a * n0 ≡ e + k * a.assignment.num_slots)
unfolding times_due
times_due-balance n0 zero a small r = (a.error, r.0, omega arith)
times_due-balance n0 (suc k) a small r =
    let (e, below, rest) =
      times_due-balance n0 k (advance n0 a) small (advance-InRange n0 a small r) in
    (e, below, ground (arith, next_error-balance n0 a))

-- The rounds of one message.
pub times_due-num_slots :
    (n0 : ℕ) (a : Secondary)
    → n0 < 2 ^ 63
    → InRange n0 a
    → times_due n0 n0 a ≡ a.assignment.num_slots
times_due-num_slots n0 a small r =
    let (e, below, sum) = times_due-balance n0 n0 a small r in
    exact n0 (times_due n0 n0 a) a.assignment.num_slots a.error e r.0 below sum
  where
    exact : (n y m d e : ℕ) → d < n → e < n → d + y * n ≡ e + n * m → y ≡ m
    exact n y m d e hd he h = grind arith

-- The weight of the slots that the assignments ask for.
unfoldable pub total_weight : (ℕ → ℕ) → List Assignment → ℕ
total_weight w [] = 0
total_weight w (a ∷ xs) = a.num_slots * w a.client_id + total_weight w xs

abbrev pub weigh : (ℕ → ℕ) → ℕ → ℕ → ℕ
weigh w c n = n + w c

module _ (w : ℕ → ℕ) where
  due_weight : List Secondary → ℕ
  due_weight [] = 0
  due_weight (a ∷ xs) = (if is_due a then w a.assignment.client_id else 0) + due_weight xs

  rounds_weight : ℕ → ℕ → List Secondary → ℕ
  rounds_weight n0 k [] = 0
  rounds_weight n0 k (a ∷ xs) = times_due n0 k a * w a.assignment.client_id + rounds_weight n0 k xs

  secondaries-weight :
      (n0 : ℕ) (xs : List Secondary) (s : ℕ)
      → ((secondaries (weigh w) n0 xs s).1 ≡ s + due_weight xs)
        × ((secondaries (weigh w) n0 xs s).0 ≡ map (advance n0) xs)
  unfolding secondaries due_weight
  secondaries-weight n0 [] s = (omega arith, refl)
  secondaries-weight n0 (a ∷ xs) s =
      let (p, q) =
        secondaries-weight n0 xs (if is_due a then s + w a.assignment.client_id else s) in
      (ground (arith, p), ap (◌∷◌ (advance n0 a)) q)

  rounds_weight-suc :
      (n0 k : ℕ) (xs : List Secondary)
      → rounds_weight n0 (suc k) xs ≡ due_weight xs + rounds_weight n0 k (map (advance n0) xs)
  unfolding rounds_weight due_weight times_due
  rounds_weight-suc n0 k [] = omega arith
  rounds_weight-suc n0 k (a ∷ xs) = ground (arith, rounds_weight-suc n0 k xs)

  rounds_weight-zero : (n0 : ℕ) (xs : List Secondary) → rounds_weight n0 zero xs ≡ 0
  unfolding rounds_weight times_due
  rounds_weight-zero n0 [] = refl
  rounds_weight-zero n0 (a ∷ xs) = omega (arith, rounds_weight-zero n0 xs)

  rounds_lem :
      (n0 c k : ℕ) (xs : List Secondary) (s : ℕ)
      → rounds (weigh w) n0 c k xs s ≡ s + k * w c + rounds_weight n0 k xs
  unfolding rounds
  rounds_lem n0 c zero xs s = omega (arith, rounds_weight-zero n0 xs)
  rounds_lem n0 c (suc k) xs s =
      let (p, q) = secondaries-weight n0 xs (s + w c) in
      rw (p, q)
        (omega (
          arith,
          rounds_lem n0 c k (map (advance n0) xs) (s + w c + due_weight xs),
          rounds_weight-suc n0 k xs,
        ))

  rounds_weight-total :
      (n0 e : ℕ) (xs : List Assignment)
      → n0 < 2 ^ 63
      → e < n0
      → All (λ (a : Assignment). a.num_slots ≤ n0) xs
      → rounds_weight n0 n0 (map (secondary e) xs) ≡ total_weight w xs
  unfolding rounds_weight total_weight
  rounds_weight-total n0 e [] small he fits = refl
  rounds_weight-total n0 e (a ∷ xs) small he fits = rw (
    times_due-num_slots n0 (record { assignment = a; error = e }) small (he, fits.0),
    rounds_weight-total n0 e xs small he fits.1,
  )

  rounds_weight-none : (n : ℕ) (xs : List Secondary) → n ≡ 0 → rounds_weight n n xs ≡ 0
  rounds_weight-none n xs e = rw e (rounds_weight-zero 0 xs)

  total_weight-none :
      (n : ℕ) (xs : List Assignment)
      → n ≡ 0
      → All (λ (a : Assignment). a.num_slots ≤ n) xs
      → total_weight w xs ≡ 0
  unfolding total_weight
  total_weight-none n [] e h = refl
  total_weight-none n (a ∷ xs) e h =
      let z : a.num_slots ≡ 0 = omega arith in rw (z, total_weight-none n xs e h.1) (omega arith)

-- The first client has the most slots, as the ordering server sorts them, and fewer than 2 ^ 63.
abbrev pub LedByMost : List Assignment → Type 0
LedByMost [] = Unit
LedByMost (a ∷ xs) = (a.num_slots < 2 ^ 63) × All (λ (b : Assignment). b.num_slots ≤ a.num_slots) xs

div-lt : (n k : ℕ) → 0 < n → n / suc (suc k) < n
div-lt n k h = grind arith

generate_rest :
    (w : ℕ → ℕ) (a : Assignment) (xs : List Assignment)
    → LedByMost (a ∷ xs)
    → rounds_weight w a.num_slots a.num_slots (map (secondary (a.num_slots / length (a ∷ xs))) xs)
      ≡ total_weight w xs
unfolding total_weight rounds_weight
generate_rest w a [] l = refl
generate_rest w a (b ∷ xs) l = elim (dec_lt 0 a.num_slots) [
  | yes some_slots ↦
      rounds_weight-total w a.num_slots _ (b ∷ xs) l.0 (div-lt a.num_slots (length xs) some_slots)
        l.1
  | no none_left ↦
      rounds_weight-none w a.num_slots
        (map (secondary (a.num_slots / length (a ∷ b ∷ xs))) (b ∷ xs)) (omega arith)
      ∙ sym (total_weight-none w a.num_slots (b ∷ xs) (omega arith) l.1)
]

-- When the first client has the most slots, and fewer than 2 ^ 63, the interleaving loop performs
-- its action exactly as often for each client as the client has slots: a total of weights over the
-- performed slots is the weighted total of the assignments.
pub generate-weight :
    (w : ℕ → ℕ) (xs : List Assignment) (s : ℕ)
    → LedByMost xs
    → generate (weigh w) xs s ≡ s + total_weight w xs
unfolding generate total_weight
generate-weight w [] s l = omega arith
generate-weight w (a ∷ xs) s l =
    omega (arith, rounds_lem w a.num_slots a.client_id a.num_slots _ s, generate_rest w a xs l)

-- ===== src/Order/Epoch/Sorted.antt =====
-- The slots of an epoch of src/order/order.cpp, sorted.
use zip_log_ae.Base.{
  ℕ, ◌+◌, ◌-◌, ◌*◌, ◌^◌, ◌≤◌, ◌<◌, ◌≡◌, ◌∙◌, refl, ap, true, false, List, [], ◌∷◌, map, arith, All,
  inl, inr, Bool-cases,
}
use zip_log_ae.Storage.Slots.{Assignment}
use zip_log_ae.Storage.Slots.Sums.{LedByMost, total_weight}
use zip_log_ae.Order.{Order, Client}
use zip_log_ae.Order.Epoch.{
  Slot, active_slots, is_greater, insert_slot, sort_slots, assignment, shard_message,
}

-- No slot of the list is larger than `n`.
abbrev pub AtMost : ℕ → List Slot → Type 0
AtMost n = All (λ s. s.num_slots ≤ n)

abbrev pub Led : List Slot → Type 0
Led [] = Unit
Led (a ∷ rest) = AtMost a.num_slots rest

AtMost-mono : (n m : ℕ) (xs : List Slot) → n ≤ m → AtMost n xs → AtMost m xs
AtMost-mono n m [] le h = tt
AtMost-mono n m (a ∷ xs) le (p, q) = (omega arith, AtMost-mono n m xs le q)

is_greater-le : (a b : Slot) → is_greater a b ≡ true → b.num_slots ≤ a.num_slots
is_greater-le a b h = ground arith

not_greater-le : (a b : Slot) → is_greater a b ≡ false → a.num_slots ≤ b.num_slots
not_greater-le a b h = ground arith

insert_slot-AtMost :
    (n : ℕ) (a : Slot) (xs : List Slot)
    → a.num_slots ≤ n
    → AtMost n xs
    → AtMost n (insert_slot a xs)
unfolding insert_slot
insert_slot-AtMost n a [] le h = (le, tt)
insert_slot-AtMost n a (b ∷ xs) le (p, q) = elim (Bool-cases (is_greater a b)) [
  | inl e ↦ rw e (le, (p, q))
  | inr e ↦ rw e (p, insert_slot-AtMost n a xs le q)
]

insert_slot-Led : (a : Slot) (xs : List Slot) → Led xs → Led (insert_slot a xs)
unfolding insert_slot
insert_slot-Led a [] h = tt
insert_slot-Led a (b ∷ xs) h = elim (Bool-cases (is_greater a b)) [
  | inl e ↦ rw e (let le = is_greater-le a b e in (le, AtMost-mono b.num_slots a.num_slots xs le h))
  | inr e ↦ rw e (insert_slot-AtMost b.num_slots a xs (not_greater-le a b e) h)
]

sort_slots-Led : (xs : List Slot) → Led (sort_slots xs)
unfolding sort_slots
sort_slots-Led [] = tt
sort_slots-Led (a ∷ xs) = insert_slot-Led a (sort_slots xs) (sort_slots-Led xs)

sort_slots-AtMost : (n : ℕ) (xs : List Slot) → AtMost n xs → AtMost n (sort_slots xs)
unfolding sort_slots
sort_slots-AtMost n [] h = tt
sort_slots-AtMost n (a ∷ xs) (p, q) =
    insert_slot-AtMost n a (sort_slots xs) p (sort_slots-AtMost n xs q)

-- The sizes of the slots that clients ask for.
abbrev pub Small : List (ℕ × Client) → Type 0
Small = All (λ e. e.1.num_slots < 2 ^ 63)

active_slots-AtMost : (xs : List (ℕ × Client)) → Small xs → AtMost (2 ^ 63 - 1) (active_slots xs)
unfolding active_slots
active_slots-AtMost [] h = tt
active_slots-AtMost ((i, c) ∷ xs) (p, q) = elim (Bool-cases c.failed) [
  | inl e ↦ rw e (active_slots-AtMost xs q)
  | inr e ↦ rw e (omega arith, active_slots-AtMost xs q)
]

assignments-LedByMost :
    (sid : ℕ) (xs : List Slot)
    → Led xs
    → AtMost (2 ^ 63 - 1) xs
    → LedByMost (map (assignment sid) xs)
assignments-LedByMost sid [] l h = tt
assignments-LedByMost sid (a ∷ xs) l (p, q) = (omega arith, led xs l)
  where
    led :
        (ys : List Slot)
        → AtMost a.num_slots ys
        → All (λ (b : Assignment). b.num_slots ≤ a.num_slots) (map (assignment sid) ys)
    led [] h = tt
    led (b ∷ ys) (le, h) = (le, led ys h)

pub shard_message-LedByMost :
    (o : Order) (sid : ℕ) → Small o.clients → LedByMost (shard_message o sid).assignments
unfolding shard_message
shard_message-LedByMost o sid small =
    assignments-LedByMost sid (sort_slots (active_slots o.clients))
      (sort_slots-Led (active_slots o.clients))
      (sort_slots-AtMost _ (active_slots o.clients) (active_slots-AtMost o.clients small))

-- The weights of the slots, before they are sorted.
abbrev pub slot_weight : (ℕ → ℕ) → ℕ → List Slot → ℕ
slot_weight w sid [] = 0
slot_weight w sid (a ∷ xs) = a.num_slots * w (assignment sid a).client_id + slot_weight w sid xs

insert_slot-weight :
    (w : ℕ → ℕ) (sid : ℕ) (a : Slot) (xs : List Slot)
    → total_weight w (map (assignment sid) (insert_slot a xs))
      ≡ a.num_slots * w (assignment sid a).client_id + total_weight w (map (assignment sid) xs)
unfolding insert_slot total_weight
insert_slot-weight w sid a [] = refl
insert_slot-weight w sid a (b ∷ xs) = elim (Bool-cases (is_greater a b)) [
  | inl e ↦ rw e refl
  | inr e ↦ rw (e, insert_slot-weight w sid a xs) (omega arith)
]

pub sort_slots-weight :
    (w : ℕ → ℕ) (sid : ℕ) (xs : List Slot)
    → total_weight w (map (assignment sid) (sort_slots xs)) ≡ slot_weight w sid xs
unfolding sort_slots total_weight
sort_slots-weight w sid [] = refl
sort_slots-weight w sid (a ∷ xs) =
    insert_slot-weight w sid a (sort_slots xs)
    ∙ ap (λ t. a.num_slots * w (assignment sid a).client_id + t) (sort_slots-weight w sid xs)

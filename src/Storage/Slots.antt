-- ===== src/Storage/Slots.antt =====
-- The loop of `log::add_entries` in src/storage/log.cpp that interleaves the slots of the clients,
-- for any action that the lambda `yield` performs.
pub mod Simulation
pub mod Sums
use zip_log_ae.Base.{
  ℕ, zero, suc, ◌/◌, Bool, List, [], ◌∷◌, map, if◌then◌else◌, length, add64, sub64, negative64,
}

-- `zip::api::storage_slots::assignment`
pub record Assignment : Type 0 where
  pub client_id : ℕ
  pub num_slots : ℕ

-- `zip::api::storage_slots`; `num_clients` is the length of the list.
pub record StorageSlots : Type 0 where
  pub start_gsn : ℕ
  pub assignments : List Assignment

-- A secondary client with its entry of the vector `errors`, words that are read as `long long`.
pub record Secondary : Type 0 where
  pub assignment : Assignment
  pub error : ℕ

-- `(errors[j - 1] -= num_slots) < 0`, and the correction that a yield makes.
pub is_due : Secondary → Bool
is_due a = negative64 (sub64 a.error a.assignment.num_slots)

pub next_error : ℕ → Secondary → ℕ
next_error n0 a = let e = sub64 a.error a.assignment.num_slots in if is_due a then add64 e n0 else e

abbrev pub advance : ℕ → Secondary → Secondary
advance n0 a = record a { error = next_error n0 a }

-- `std::vector<long long> errors(slots.num_clients - 1, error)`
abbrev pub secondary : ℕ → Assignment → Secondary
secondary error b = record { assignment = b; error = error }

module _ {ℓ} {S : Type ℓ} (yield : ℕ → S → S) where
  -- The inner loop over the secondary clients; `n0` is the primary client's number of slots.
  pub secondaries : ℕ → List Secondary → S → List Secondary × S
  secondaries n0 [] s = ([], s)
  secondaries n0 (a ∷ rest) s =
      let r = secondaries n0 rest (if is_due a then yield a.assignment.client_id s else s) in
      (advance n0 a ∷ r.0, r.1)

  -- The outer loop, by the rounds that are left.
  pub rounds : ℕ → ℕ → ℕ → List Secondary → S → S
  unfolding secondaries
  rounds n0 primary zero rest s = s
  rounds n0 primary (suc k) rest s =
      let r = secondaries n0 rest (yield primary s) in rounds n0 primary k r.0 r.1

  -- All slots of one message. With no client the caller does not get here.
  unfoldable pub generate : List Assignment → S → S
  unfolding rounds is_due next_error
  generate [] s = s
  generate (a ∷ rest) s =
      let error = a.num_slots / length (a ∷ rest) in
      rounds a.num_slots a.client_id a.num_slots (map (secondary error) rest) s

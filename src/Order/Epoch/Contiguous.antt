-- ===== src/Order/Epoch/Contiguous.antt =====
-- The sequence numbers of an epoch, in src/order/order.cpp and in src/storage/log.cpp.
use zip_log_ae.Base.{
  ℕ, ◌+◌, ◌*◌, ◌%◌, ◌^◌, ◌<◌, ◌≡◌, ◌∙◌, refl, ap, Option, none, some, List, [], ◌∷◌, arith, inl,
  inr, Bool-cases, if◌then◌else◌, ◌==◌, u64_max, find, Keyed, find-below, length,
}
use zip_log_ae.Storage.Log.{Log, fill, add_entries}
use zip_log_ae.Storage.Log.Links.{WellLinked}
use zip_log_ae.Storage.Log.Epoch.{fill-start_gsn, slot_of, slots_of, add_entries-slots_of}
use zip_log_ae.Order.{Order, Client}
use zip_log_ae.Order.Epoch.{Slot, active_slots, sum_slots, shard_message, epoch}
use zip_log_ae.Order.Epoch.Sorted.{Small, shard_message-LedByMost, slot_weight, sort_slots-weight}

sum_slots-weight : (sid : ℕ) (xs : List Slot) → sum_slots xs ≡ slot_weight (λ _. 1) sid xs % 2 ^ 64
unfolding sum_slots
sum_slots-weight sid [] = refl
sum_slots-weight sid (a ∷ xs) = omega (arith, sum_slots-weight sid xs)

-- When every client has fewer than 2 ^ 63 slots and the base is a 64-bit word, a storage server
-- that fills its log with the message of an epoch stops at the GSN at which the ordering server
-- starts the next epoch, whatever shard the message is for.
pub epoch-next :
    (o : Order) (sid : ℕ) (l : Log)
    → Small o.clients
    → o.gsn_base < 2 ^ 64
    → (fill l (shard_message o sid)).start_gsn ≡ (epoch o).0.gsn_base
unfolding epoch shard_message
epoch-next o sid l small base =
    let slots = active_slots o.clients in
    let total = sort_slots-weight (λ _. 1) sid slots in
    let sum = sum_slots-weight sid slots in
    fill-start_gsn l (shard_message o sid) (shard_message-LedByMost o sid small) base
    ∙ omega (arith, total, sum)

-- What a client gets from an epoch, in a shard: nothing once it has failed.
unfoldable pub granted : ℕ → Option Client → ℕ
granted sid none = 0
granted sid (some c) = if c.failed then 0 else if c.shard_id == sid then c.num_slots else 0

slot_weight-failed :
    (sid : ℕ) (w : ℕ → ℕ) (i : ℕ) (c : Client) (xs : List (ℕ × Client))
    → slot_weight w sid (active_slots ((i, c) ∷ xs))
      ≡ (if c.failed then 0 else c.num_slots * w (if c.shard_id == sid then i else u64_max))
        + slot_weight w sid (active_slots xs)
unfolding active_slots
slot_weight-failed sid w i c xs = elim (Bool-cases c.failed) [
  | inl e ↦ rw e (omega arith)
  | inr e ↦ rw e refl
]

module _ (sid d : ℕ) (real : d < u64_max) where
  own :
      (i : ℕ) (c : Client)
      → (if c.failed then 0 else c.num_slots * slot_of d (if c.shard_id == sid then i else u64_max))
        ≡ (if i == d then granted sid (some c) else 0)
  unfolding granted
  own i c = ground arith

  active_slots-granted :
      (lo hi : ℕ) (xs : List (ℕ × Client))
      → Keyed lo hi xs
      → slot_weight (slot_of d) sid (active_slots xs) ≡ granted sid (find d xs)
  unfolding active_slots find granted
  active_slots-granted lo hi [] h = refl
  active_slots-granted lo hi ((i, c) ∷ xs) (p, q, r) =
      slot_weight-failed sid (slot_of d) i c xs ∙ (elim (Bool-cases (i == d)) [
        | inl e ↦
            let rest = active_slots-granted (i + 1) hi xs r in
            let gone : find d xs ≡ none = find-below (i + 1) hi d xs (ground arith) r in
            rw (own i c, e, rest, gone) (omega arith)
        | inr e ↦ rw (own i c, e, active_slots-granted (i + 1) hi xs r) (omega arith)
      ])

  -- When the clients are in the order of their keys and have fewer than 2 ^ 63 slots, and the log
  -- is well linked, the message of an epoch adds to the log of a shard exactly the slots that the
  -- ordering server keeps for a client that is in the shard and has not failed, and none for any
  -- other client.
  pub epoch-granted :
      (o : Order) (l : Log) (hi : ℕ)
      → WellLinked l
      → Small o.clients
      → Keyed 0 hi o.clients
      → length (slots_of d (add_entries l (shard_message o sid)))
        ≡ length (slots_of d l) + granted sid (find d o.clients)
  unfolding shard_message
  epoch-granted o l hi w small keyed =
      add_entries-slots_of d (λ e. absurd (omega arith)) l (shard_message o sid) w
        (shard_message-LedByMost o sid small)
      ∙ ap (λ n. length (slots_of d l) + n)
          (sort_slots-weight (slot_of d) sid (active_slots o.clients)
            ∙ active_slots-granted 0 hi o.clients keyed)

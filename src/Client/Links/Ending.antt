-- ===== src/Client/Links/Ending.antt =====
-- The end of the connections of a client (src/client/client.cpp) after the signal to stop.
use zip_log_ae.Client.{
  Client, Sent, storage_finished, order_finished, has_queue, remove_queue, on_storage_finished,
  on_order_finished, stop,
}
use zip_log_ae.Client.Links.{finish_all}
use zip_log_ae.Client.Links.Servers.{Distinct}
use zip_log_ae.Base.{
  ℕ, zero, suc, ◌+◌, ◌≡◌, refl, sym, ap, true, false, not, ◌||◌, List, [], ◌∷◌, ◌++◌, map, inl, inr,
  Bool-cases, if◌then◌else◌, ◌==◌, length, All, arith,
}

length-remove_queue :
    (r : ℕ) (qs : List ℕ) → has_queue r qs ≡ true → length (remove_queue r qs) + 1 ≡ length qs
unfolding has_queue remove_queue
length-remove_queue r [] h = absurd cc
length-remove_queue r (q ∷ qs) h = elim (Bool-cases (q == r)) [
  | inl e ↦ rw e (omega arith)
  | inr e ↦ rw e (omega (arith, length-remove_queue r qs (ground (arith, h, e))))
]

-- Another server than the one that is removed is still connected.
still :
    (r s : ℕ) (qs : List ℕ)
    → (r == s) ≡ false
    → has_queue s qs ≡ true
    → has_queue s (remove_queue r qs) ≡ true
unfolding has_queue remove_queue
still r s [] ne h = absurd cc
still r s (q ∷ qs) ne h = ground (arith, still r s qs ne, ne, h)

still_all :
    (r : ℕ) (rs qs : List ℕ)
    → has_queue r rs ≡ false
    → All (λ s. has_queue s qs ≡ true) rs
    → All (λ s. has_queue s (remove_queue r qs) ≡ true) rs
unfolding has_queue
still_all r [] qs fresh h = tt
still_all r (s ∷ rs) qs fresh h =
    (still r s qs (ground (arith, fresh)) h.0, still_all r rs qs (ground (arith, fresh)) h.1)

-- The message to the ordering server comes with the last answer only.
abbrev pub last_message : ℕ → List Sent
last_message zero = []
last_message (suc n) = order_finished ∷ []

one_answer :
    (c : Client) (r : ℕ)
    → has_queue r c.queues ≡ true
    → on_storage_finished c c.shard_id r ≡ (
      record c { queues = remove_queue r c.queues },
      if length (remove_queue r c.queues) == 0 then order_finished ∷ [] else [],
    )
unfolding on_storage_finished
one_answer c r h =
    let own : (not (c.shard_id == c.shard_id) || not (has_queue r c.queues)) ≡ false =
      ground (arith, h) in
    rw (on_storage_finished, own) refl

no_queues :
    (c : Client) (qs : List ℕ) → c.queues ≡ qs → length qs ≡ 0 → c ≡ record c { queues = [] }
no_queues c [] same e = ap (λ qs. record c { queues = qs }) same
no_queues c (q ∷ qs) same e = absurd (omega arith)

message_then :
    (left n : ℕ)
    → left ≡ n
    → (if left == 0 then order_finished ∷ [] else []) ++ last_message n ≡ order_finished ∷ []
message_then left zero e = rw e refl
message_then left (suc n) e = let more : (left == 0) ≡ false = ground (arith, e) in rw more refl

finish_all_lem :
    (c : Client) (rs : List ℕ)
    → Distinct rs
    → All (λ r. has_queue r c.queues ≡ true) rs
    → length rs ≡ length c.queues
    → finish_all c rs ≡ (record c { queues = [] }, last_message (length rs))
unfolding finish_all
finish_all_lem c [] d h e = ap (λ c. (c, [])) (no_queues c c.queues refl (sym e))
finish_all_lem c (r ∷ rs) d h e =
    let left = remove_queue r c.queues in
    let n : length left ≡ length rs = omega (arith, length-remove_queue r c.queues h.0, e) in
    let ih =
      finish_all_lem (record c { queues = left }) rs d.1 (still_all r rs c.queues d.0 h.1)
        (sym n) in
    rw (finish_all, one_answer c r h.0, ih, message_then (length left) (length rs) n) refl

-- The stop and the answers of the storage servers, with all messages.
abbrev pub stop_and_finish : Client → List ℕ → Client × List Sent
stop_and_finish c rs =
    let (d, told) = stop c in let (e, more) = finish_all d rs in (on_order_finished e, told ++ more)

-- A running client that has connections is told to stop and each of its storage servers answers
-- once, in any order: it has told each of them to finish, sends its last message to the ordering
-- server exactly once, after all answers, and ends with the answer to it.
pub stop-finishes :
    (c : Client) (r : ℕ) (rs : List ℕ)
    → c.stopped ≡ false
    → Distinct (r ∷ rs)
    → All (λ r. has_queue r c.queues ≡ true) (r ∷ rs)
    → length (r ∷ rs) ≡ length c.queues
    → stop_and_finish c (r ∷ rs) ≡ (
      record c { stopped = true; queues = []; ended = true },
      map storage_finished c.queues ++ order_finished ∷ [],
    )
unfolding stop on_order_finished
stop-finishes c r rs running d h e =
    let ends = finish_all_lem (record c { stopped = true }) (r ∷ rs) d h e in
    rw (stop, running, ends) refl

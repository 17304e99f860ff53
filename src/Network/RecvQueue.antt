-- ===== src/Network/RecvQueue.antt =====
-- src/network/recv_queue.h and recv_queue.cpp: the class `recv_queue`. What `ibv_poll_cq` yields
-- is an argument, a list of completions.
use Prim.Native.Nat.{bit_and}
use zip_log_ae.Base.{
  ℕ, ◌-◌, ◌/◌, Bool, ◌&&◌, Option, none, some, List, [], ◌∷◌, if◌then◌else◌, ltb, add64, sub64,
  length,
}
use zip_log_ae.Network.SendQueue.{max_queue_pairs}

-- `zip::consts::rdma::MAX_RECEIVE_REQUESTS`, `RECEIVE_BATCH_SIZE`
abbrev pub max_receive_requests : ℕ
max_receive_requests = 64

abbrev pub receive_batch_size : ℕ
receive_batch_size = 8

pub record Completion : Type 0 where
  pub is_success : Bool
  pub is_write_with_imm : Bool
  pub imm : ℕ
  pub byte_len : ℕ

-- A message: the index of its buffer, the offset in it, and the length.
pub record Received : Type 0 where
  pub index : ℕ
  pub offset : ℕ
  pub size : ℕ

unfoldable pub decode : Completion → Received
decode c = record {
  index = bit_and c.imm (max_queue_pairs - 1);
  offset = c.imm / max_queue_pairs;
  size = c.byte_len;
}

-- The loop over the completions; `none` is a failing assertion. The third assertion never fails.
unfoldable pub decode_all : List Completion → Option (List Received)
unfolding decode
decode_all [] = some []
decode_all (c ∷ cs) =
    let rest : Option (List Received) = elim (decode_all cs) [
      | none ↦ none
      | some rs ↦ some (decode c ∷ rs)
    ] in
    if c.is_success && c.is_write_with_imm then rest else none

-- `recv_queue::arm` on `num_posted_`.
unfoldable pub arm : ℕ → ℕ → ℕ
arm num_posted num_requests = add64 num_posted num_requests

unfoldable pub new_recv_queue : ℕ
unfolding arm
new_recv_queue = arm 0 max_receive_requests

-- The template `recv` on `num_posted_`, once the callbacks have returned.
unfoldable pub posted_after : ℕ → ℕ → ℕ
unfolding arm
posted_after num_posted num_polled =
    let left = sub64 num_posted num_polled in
    if ltb left (max_receive_requests / 2) then arm left (sub64 max_receive_requests left) else left

-- The messages for the callbacks, and `num_posted_`.
unfoldable pub recv : ℕ → List Completion → Option (List Received × ℕ)
unfolding decode_all posted_after
recv num_posted completions = elim (decode_all completions) [
  | none ↦ none
  | some rs ↦ some (rs, posted_after num_posted (length completions))
]

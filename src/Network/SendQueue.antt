-- ===== src/Network/SendQueue.antt =====
-- src/network/send_queue.h and send_queue.cpp: the class `send_queue`. The statuses that the verbs
-- return are an argument; the queue writes each message into a ring at its receiver.
use Prim.Native.Nat.{bit_or}
use zip_log_ae.Base.{
  ℕ, ◌*◌, ◌%◌, ◌^◌, Bool, true, ◌||◌, Option, none, some, List, if◌then◌else◌, ltb, leb, ◌==◌,
  add64, length, get_elem?,
}
use zip_log_ae.Util.Align.{align_mask}

-- `zip::consts::RECEIVE_BUFFER_SIZE`, `SEND_BUFFER_SIZE`, and those of `rdma`.
abbrev pub receive_buffer_size : ℕ
receive_buffer_size = 2 ^ 18

abbrev pub send_buffer_size : ℕ
send_buffer_size = 2 ^ 11

abbrev pub max_outstanding_requests : ℕ
max_outstanding_requests = 128

abbrev pub max_inline_data : ℕ
max_inline_data = 192

abbrev pub message_alignment : ℕ
message_alignment = 64

abbrev pub max_queue_pairs : ℕ
max_queue_pairs = 2048

-- `send_queue`, less the handles of the verbs and the manager.
pub record SendQueue : Type 0 where
  pub index : ℕ
  pub address : ℕ
  pub xrc_queue_nums : List ℕ
  pub offset : ℕ
  pub sent_messages : ℕ
  pub max_outstanding : ℕ
  pub assert_on_failure : Bool

unfoldable pub new_send_queue : ℕ → ℕ → List ℕ → SendQueue
new_send_queue index address xrc_queue_nums = record {
  index = index;
  address = address;
  xrc_queue_nums = xrc_queue_nums;
  offset = 0;
  sent_messages = 0;
  max_outstanding = max_outstanding_requests;
  assert_on_failure = true;
}

-- `none` is the failing assertion.
unfoldable pub set_max_outstanding : SendQueue → ℕ → Option SendQueue
set_max_outstanding q max_outstanding =
    if leb max_outstanding max_outstanding_requests
    then some (record q { max_outstanding = max_outstanding })
    else none

-- The work request.
pub record Request : Type 0 where
  pub address : ℕ
  pub imm : ℕ
  pub length : ℕ
  pub is_signaled : Bool
  pub is_inline : Bool
  pub receiver : Option ℕ

-- What the polls of the completion queue and `ibv_post_send` return.
pub record Verbs : Type 0 where
  pub first_poll : ℕ
  pub post : ℕ
  pub last_poll : ℕ

-- `send` returns an error number, with the request if it was built, or fails an assertion.
pub data Result : Type 0 where
  returns : SendQueue → Option Request → ℕ → Result
  aborts : Result

-- The two overloads: data that is copied into the request, or a registered buffer.
pub data Memory : Type 0 where
  plain : Memory
  registered : Memory

abbrev pub limit : Memory → ℕ
limit plain = max_inline_data
limit registered = send_buffer_size

abbrev pub goes_inline : Memory → ℕ → Bool
goes_inline plain size = true
goes_inline registered size = leb size max_inline_data

-- `HANDLE_ERROR`
unfoldable pub handle_error : SendQueue → Option Request → ℕ → Result → Result
handle_error q request err next =
    if q.assert_on_failure
    then (if err == 0 then next else aborts)
    else if err == 0
    then next
    else returns q request err

-- The place of the next message in the ring.
unfoldable pub place : SendQueue → ℕ → ℕ
place q size = if leb (add64 q.offset size) receive_buffer_size then q.offset else 0

-- `index_ | offset * MAX_QUEUE_PAIRS`, as 32 bits.
unfoldable pub encode_imm : ℕ → ℕ → ℕ
encode_imm index offset = bit_or index (offset * max_queue_pairs % 2 ^ 64) % 2 ^ 32

-- The count of messages that are not signaled, and the flag of this one.
unfoldable pub count_message : SendQueue → Bool → SendQueue
count_message q synchronize = record q {
  sent_messages = if synchronize then q.sent_messages else add64 q.sent_messages 1;
}

unfoldable pub is_due : SendQueue → Bool → Bool
unfolding count_message
is_due q synchronize =
    synchronize || leb q.max_outstanding (count_message q synchronize).sent_messages

unfoldable pub advance : SendQueue → ℕ → SendQueue
unfolding place
advance q size = record q { offset = align_mask message_alignment (add64 (place q size) size) }

abbrev pub forget_sent : SendQueue → SendQueue
forget_sent q = record q { sent_messages = 0 }

unfoldable pub request : SendQueue → Memory → ℕ → ℕ → Bool → Request
unfolding place encode_imm is_due
request q memory size destination synchronize = record {
  address = add64 q.address (place q size);
  imm = encode_imm q.index (place q size);
  length = size;
  is_signaled = is_due q synchronize;
  is_inline = goes_inline memory size;
  receiver = get_elem? q.xrc_queue_nums (destination % length q.xrc_queue_nums);
}

-- The part of `send` behind the first synchronization.
unfoldable pub post : SendQueue → Memory → ℕ → ℕ → Bool → Verbs → Result
unfolding advance request count_message handle_error
post q memory size destination synchronize v =
    let r = request q memory size destination synchronize in
    let q' = advance (count_message q synchronize) size in
    handle_error q' (some r) v.post (
      if synchronize
      then handle_error q' (some r) v.last_poll (returns (forget_sent q') (some r) 0)
      else returns q' (some r) 0)

unfoldable pub send : SendQueue → Memory → ℕ → ℕ → Bool → Verbs → Result
unfolding post
send q memory size destination synchronize v =
    if ltb (limit memory) size
    then aborts
    else if leb q.max_outstanding q.sent_messages
    then handle_error q none v.first_poll
        (post (forget_sent q) memory size destination synchronize v)
    else post q memory size destination synchronize v

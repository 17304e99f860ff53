-- ===== src/Network/Ring.antt =====
-- The ring of src/network/send_queue.cpp and recv_queue.cpp.
use zip_log_ae.Base.{
  ℕ, ◌+◌, ◌-◌, ◌*◌, ◌/◌, ◌%◌, ◌^◌, ◌≤◌, ◌<◌, ◌≡◌, ◌∙◌, refl, Bool, true, false, Option, none, some,
  arith, inl, inr, Bool-cases, if◌then◌else◌, ltb, leb, ◌==◌, add64, sub64,
}
use zip_log_ae.Util.Align.{align_mask, align_mask-cell}
use zip_log_ae.Util.Bits.{and_low, or_fields}
use zip_log_ae.Network.SendQueue.{
  SendQueue, Request, Verbs, Result, returns, aborts, Memory, plain, registered, limit, place,
  encode_imm, count_message, advance, forget_sent, request, handle_error, post, send,
  receive_buffer_size, send_buffer_size, max_outstanding_requests, message_alignment,
}
use zip_log_ae.Network.RecvQueue.{
  Completion, decode, posted_after, arm, max_receive_requests, receive_batch_size,
}

pub record SendInv (q : SendQueue) : Type 0 where
  pub index : q.index < 2048
  pub aligned : q.offset % message_alignment ≡ 0
  pub inside : q.offset ≤ receive_buffer_size
  pub limited : q.max_outstanding ≤ max_outstanding_requests
  pub positive : 0 < q.max_outstanding
  pub counted : q.sent_messages ≤ q.max_outstanding

-- A message of `size` bytes lies inside the ring at an aligned place, and its request says so.
pub record Fits (q : SendQueue) (size : ℕ) (r : Request) : Type 0 where
  pub offset : ℕ
  pub inside : offset + size ≤ receive_buffer_size
  pub aligned : offset % message_alignment ≡ 0
  pub address : r.address ≡ add64 q.address offset
  pub length : r.length ≡ size
  pub received :
      (c : Completion)
      → c.imm ≡ r.imm
      → c.byte_len ≡ size
      → decode c ≡ record { index = q.index; offset = offset; size = size }

-- For an index below the number of queue pairs and an offset in the ring, the receive queue
-- decodes an immediate value of the send queue to the index and the offset.
pub encode-decode :
    (index offset : ℕ) (c : Completion)
    → index < 2048
    → offset ≤ receive_buffer_size
    → c.imm ≡ encode_imm index offset
    → decode c ≡ record { index = index; offset = offset; size = c.byte_len }
unfolding encode_imm decode
encode-decode index offset c small inside e =
    let shifted : offset * 2048 % 2 ^ 64 ≡ offset * 2 ^ 11 = omega arith in
    let imm : c.imm ≡ index + offset * 2048 =
      e ∙ (rw (shifted, or_fields index offset small) (omega arith)) in
    let i : c.imm % 2048 ≡ index = omega arith in
    let o : c.imm / 2048 ≡ offset = omega arith in rw (and_low c.imm, i, o) refl

place-Fits :
    (q : SendQueue) (size : ℕ)
    → SendInv q
    → size ≤ send_buffer_size
    → (place q size + size ≤ receive_buffer_size) × (place q size % message_alignment ≡ 0)
unfolding place
place-Fits q size v small = ground (arith, v.inside, v.aligned)

request-Fits :
    (q : SendQueue) (memory : Memory) (size destination : ℕ) (synchronize : Bool)
    → SendInv q
    → size ≤ send_buffer_size
    → Fits q size (request q memory size destination synchronize)
unfolding request
request-Fits q memory size destination synchronize v small =
    let (inside, aligned) = place-Fits q size v small in
    record {
      offset = place q size;
      inside = inside;
      aligned = aligned;
      address = refl;
      length = refl;
      received =
          λ c e n. rw (encode-decode q.index (place q size) c v.index (omega arith) e, n) refl;
    }

next_offset :
    (p size : ℕ)
    → p + size ≤ receive_buffer_size
    → 0 < size
    → align_mask message_alignment (add64 p size) ≡ (p + size - 1) / 64 * 64 + 64
next_offset p size inside pos =
    let e : add64 p size ≡ p + size = omega arith in
    rw e (align_mask-cell (p + size) (omega arith) (omega arith))

-- A count of messages below the limit leaves room for one more.
advance-SendInv :
    (q : SendQueue) (size : ℕ) (synchronize : Bool)
    → SendInv q
    → q.sent_messages < q.max_outstanding
    → 0 < size
    → size ≤ send_buffer_size
    → SendInv (advance (count_message q synchronize) size)
unfolding advance count_message place
advance-SendInv q size synchronize v room pos small =
    let (inside, aligned) = place-Fits q size v small in
    let next = next_offset (place q size) size inside pos in
    record {
      index = v.index;
      aligned = rw next (omega arith);
      inside = rw next (omega arith);
      limited = v.limited;
      positive = v.positive;
      counted = ground arith;
    }

abbrev pub After : (SendQueue → Option Request → Type 0) → Result → Type 0
After P (returns q r err) = P q r
After P aborts = Unit

After-if :
    (P : SendQueue → Option Request → Type 0) (b : Bool) (x y : Result)
    → After P x
    → After P y
    → After P (if b then x else y)
After-if P true x y p q = p
After-if P false x y p q = q

handle_error-After :
    (P : SendQueue → Option Request → Type 0) (q : SendQueue) (r : Option Request) (err : ℕ)
    (next : Result)
    → P q r
    → After P next
    → After P (handle_error q r err next)
unfolding handle_error
handle_error-After P q r err next p h =
    After-if P q.assert_on_failure (if err == 0 then next else aborts)
      (if err == 0 then next else returns q r err) (After-if P (err == 0) next aborts h tt)
      (After-if P (err == 0) next (returns q r err) h p)

-- The queue after a message, and its request if there is one.
abbrev pub Good : SendQueue → ℕ → SendQueue → Option Request → Type 0
Good q size q' none = SendInv q'
Good q size q' (some r) = SendInv q' × Fits q size r

Fits-forget : (q : SendQueue) (size : ℕ) (r : Request) → Fits (forget_sent q) size r → Fits q size r
Fits-forget q size r f = record {
  offset = f.offset;
  inside = f.inside;
  aligned = f.aligned;
  address = f.address;
  length = f.length;
  received = f.received;
}

forget-SendInv : (q : SendQueue) → SendInv q → SendInv (forget_sent q)
forget-SendInv q v = record {
  index = v.index;
  aligned = v.aligned;
  inside = v.inside;
  limited = v.limited;
  positive = v.positive;
  counted = omega arith;
}

post-Good :
    (q : SendQueue) (memory : Memory) (size destination : ℕ) (synchronize : Bool) (v : Verbs)
    → SendInv q
    → q.sent_messages < q.max_outstanding
    → 0 < size
    → size ≤ send_buffer_size
    → After (Good q size) (post q memory size destination synchronize v)
unfolding post
post-Good q memory size destination synchronize v inv room pos small =
    let r = request q memory size destination synchronize in
    let q' = advance (count_message q synchronize) size in
    let next = advance-SendInv q size synchronize inv room pos small in
    let fits = request-Fits q memory size destination synchronize inv small in
    let done = returns (forget_sent q') (some r) 0 in
    let last = handle_error q' (some r) v.last_poll done in
    handle_error-After (Good q size) q' (some r) v.post
      (if synchronize then last else returns q' (some r) 0) (next, fits)
      (After-if (Good q size) synchronize last (returns q' (some r) 0)
        (handle_error-After (Good q size) q' (some r) v.last_poll done (next, fits)
          (forget-SendInv q' next, fits))
        (next, fits))

Good-forget :
    (q : SendQueue) (size : ℕ) (o : Result)
    → After (Good (forget_sent q) size) o
    → After (Good q size) o
Good-forget q size aborts h = tt
Good-forget q size (returns q' none err) h = h
Good-forget q size (returns q' (some r) err) h = (h.0, Fits-forget q size r h.1)

limit-small :
    (memory : Memory) (size : ℕ) → ltb (limit memory) size ≡ false → size ≤ send_buffer_size
limit-small plain size h = ground arith
limit-small registered size h = ground arith

-- From the invariant of a send queue, a message of a positive length is refused by an assertion,
-- or every outcome of `send` keeps the invariant (the offset is aligned and inside the ring, and
-- no more than the allowed messages are counted), and a request that is posted writes the message
-- inside the ring, at an aligned place, with an immediate value that the receive queue decodes to
-- the index, the offset and the length.
pub send-Good :
    (q : SendQueue) (memory : Memory) (size destination : ℕ) (synchronize : Bool) (v : Verbs)
    → SendInv q
    → 0 < size
    → After (Good q size) (send q memory size destination synchronize v)
unfolding send
send-Good q memory size destination synchronize v inv pos =
    elim (Bool-cases (ltb (limit memory) size)) [
      | inl long ↦ rw long tt
      | inr fits ↦
          let small : size ≤ send_buffer_size = limit-small memory size fits in
          rw fits (elim (Bool-cases (leb q.max_outstanding q.sent_messages)) [
            | inl full ↦ rw full (
                handle_error-After (Good q size) q none v.first_poll _ inv (
                  Good-forget q size _ (
                    post-Good (forget_sent q) memory size destination synchronize v
                      (forget-SendInv q inv) inv.positive pos small)))
            | inr room ↦
                rw room
                  (post-Good q memory size destination synchronize v inv (ground arith) pos small)
          ])
    ]

-- A receive queue with 32 to 64 posted requests that polls at most a batch has 32 to 64 posted
-- requests once it has been armed again.
pub posted_after-bounds :
    (num_posted num_polled : ℕ)
    → 32 ≤ num_posted
    → num_posted ≤ max_receive_requests
    → num_polled ≤ receive_batch_size
    → (32 ≤ posted_after num_posted num_polled)
      × (posted_after num_posted num_polled ≤ max_receive_requests)
unfolding posted_after arm
posted_after-bounds num_posted num_polled lo hi polled =
    let left : sub64 num_posted num_polled ≡ num_posted - num_polled = omega arith in
    rw left (ground arith)

-- ===== src/Network/Handshake/Arrays.antt =====
-- The words and arrays of the handshake of src/network/manager.cpp, written and read.
use native.Mathlib.Nat.{pow-suc}
use zip_log_ae.Base.{
  ℕ, zero, suc, ◌+◌, ◌-◌, ◌*◌, ◌/◌, ◌^◌, ◌≤◌, ◌<◌, ◌≡◌, refl, sym, ap, ◌∙◌, List, [], ◌∷◌, ◌++◌,
  length, take, replicate, All, length-append, arith,
}
use zip_log_ae.Network.Transfer.{skip}
use zip_log_ae.Network.Transfer.Laws.{skip-skip}
use zip_log_ae.Network.Handshake.{
  QueueInfo, put_word, word, field, put_queue, put_queues, put_nums, get_queue, get_queues,
  get_nums,
}

pub length-put_word : (width w : ℕ) → length (put_word width w) ≡ width
unfolding put_word
length-put_word zero w = refl
length-put_word (suc width) w = ap suc (length-put_word width (w / 256))

pub length-replicate : (n : ℕ) (b : ℕ) → length (replicate n b) ≡ n
length-replicate zero b = refl
length-replicate (suc n) b = ap suc (length-replicate n b)

below : (width w : ℕ) → w < 256 ^ suc width → w / 256 < 256 ^ width
below width w h =
    let e : 256 ^ suc width ≡ 256 ^ width * 256 = pow-suc _ _ in omega (arith, rw e at h)

pub word-put_word : (width w : ℕ) → w < 256 ^ width → word (put_word width w) ≡ w
unfolding word put_word
word-put_word zero w h = omega arith
word-put_word (suc width) w h =
    let ih = word-put_word width (w / 256) (below width w h) in omega (arith, ih)

pub take-append : (n : ℕ) (xs ys : List ℕ) → length xs ≡ n → take n (xs ++ ys) ≡ xs
take-append zero [] ys h = refl
take-append zero (x ∷ xs) ys h = absurd (omega arith)
take-append (suc n) [] ys h = absurd (omega arith)
take-append (suc n) (x ∷ xs) ys h = ap (◌∷◌ x) (take-append n xs ys (omega arith))

-- What stands behind the first bytes.
pub skip-append :
    (n k : ℕ) (xs ys : List ℕ) → length xs ≡ k → k ≤ n → skip n (xs ++ ys) ≡ skip (n - k) ys
skip-append n k [] ys h le = ap (λ i. skip i ys) (omega arith)
skip-append zero k (x ∷ xs) ys h le = absurd (omega arith)
skip-append (suc n) zero (x ∷ xs) ys h le = absurd (omega arith)
skip-append (suc n) (suc k) (x ∷ xs) ys h le =
    skip-append n k xs ys (omega arith) (omega arith)
    ∙ ap (λ i. skip i ys) {x = n - k} {y = suc n - suc k} (omega arith)

pub field-first :
    (width w : ℕ) (rest : List ℕ) → w < 256 ^ width → field 0 width (put_word width w ++ rest) ≡ w
unfolding field
field-first width w rest h =
    rw (take-append width (put_word width w) rest (length-put_word width w))
      (word-put_word width w h)

pub field-behind :
    (offset width k : ℕ) (xs ys : List ℕ)
    → length xs ≡ k
    → k ≤ offset
    → field offset width (xs ++ ys) ≡ field (offset - k) width ys
unfolding field
field-behind offset width k xs ys h le =
    ap (λ p. word (take width p)) (skip-append offset k xs ys h le)

-- What the types of the members say.
abbrev pub IsQueue : QueueInfo → Type 0
IsQueue q =
    (q.index < 2 ^ 64)
    × (q.address < 2 ^ 64)
    × (q.remote_key < 2 ^ 32)
    × (q.send_queue_num < 2 ^ 32)
    × (q.recv_queue_num < 2 ^ 32)

get-put_queue :
    (junk : ℕ) (q : QueueInfo) (rest : List ℕ) → IsQueue q → get_queue (put_queue junk q rest) ≡ q
unfolding get_queue put_queue
get-put_queue junk q rest (a, b, c, d, e) =
    let p4 = put_word 4 q.recv_queue_num ++ (replicate 4 junk ++ rest) in
    let p3 = put_word 4 q.send_queue_num ++ p4 in
    let p2 = put_word 4 q.remote_key ++ p3 in
    let p1 = put_word 8 q.address ++ p2 in
    let w0 = put_word 8 q.index in
    let l0 = length-put_word 8 q.index in
    let l1 = length-put_word 8 q.address in
    let l2 = length-put_word 4 q.remote_key in
    let l3 = length-put_word 4 q.send_queue_num in
    let e0 = field-first 8 q.index p1 (omega arith) in
    let e1 : field 8 8 (w0 ++ p1) ≡ q.address =
      field-behind 8 8 8 w0 p1 l0 (omega arith) ∙ field-first 8 q.address p2 (omega arith) in
    let e2 : field 16 4 (w0 ++ p1) ≡ q.remote_key =
      field-behind 16 4 8 w0 p1 l0 (omega arith)
      ∙ field-behind 8 4 8 (put_word 8 q.address) p2 l1 (omega arith)
      ∙ field-first 4 q.remote_key p3 (omega arith) in
    let e3 : field 20 4 (w0 ++ p1) ≡ q.send_queue_num =
      field-behind 20 4 8 w0 p1 l0 (omega arith)
      ∙ field-behind 12 4 8 (put_word 8 q.address) p2 l1 (omega arith)
      ∙ field-behind 4 4 4 (put_word 4 q.remote_key) p3 l2 (omega arith)
      ∙ field-first 4 q.send_queue_num p4 (omega arith) in
    let e4 : field 24 4 (w0 ++ p1) ≡ q.recv_queue_num =
      field-behind 24 4 8 w0 p1 l0 (omega arith)
      ∙ field-behind 16 4 8 (put_word 8 q.address) p2 l1 (omega arith)
      ∙ field-behind 8 4 4 (put_word 4 q.remote_key) p3 l2 (omega arith)
      ∙ field-behind 4 4 4 (put_word 4 q.send_queue_num) p4 l3 (omega arith)
      ∙ field-first 4 q.recv_queue_num (replicate 4 junk ++ rest) (omega arith) in
    rw (e0, e1, e2, e3, e4) refl

length-put_queue :
    (junk : ℕ) (q : QueueInfo) (rest : List ℕ) → length (put_queue junk q rest) ≡ 32 + length rest
unfolding put_queue put_word
length-put_queue junk q rest = omega arith

skip-put_queue :
    (n junk : ℕ) (q : QueueInfo) (rest : List ℕ)
    → skip (32 + n) (put_queue junk q rest) ≡ skip n rest
unfolding put_queue put_word
skip-put_queue n junk q rest = sym (skip-skip (put_queue junk q rest) 32 n)

pub get-put_queues :
    (junk : ℕ) (qs : List QueueInfo) (rest : List ℕ)
    → All IsQueue qs
    → get_queues (length qs) (put_queues junk qs rest) ≡ qs
unfolding get_queues put_queues
get-put_queues junk [] rest h = refl
get-put_queues junk (q ∷ qs) rest (p, h) =
    rw
      (
        get-put_queue junk q (put_queues junk qs rest) p,
        skip-put_queue 0 junk q (put_queues junk qs rest),
        get-put_queues junk qs rest h,
      )
      refl

pub length-put_queues :
    (junk : ℕ) (qs : List QueueInfo) (rest : List ℕ)
    → length (put_queues junk qs rest) ≡ length qs * 32 + length rest
unfolding put_queues
length-put_queues junk [] rest = omega arith
length-put_queues junk (q ∷ qs) rest =
    omega (arith, length-put_queue junk q (put_queues junk qs rest), length-put_queues junk qs rest)

pub skip-put_queues :
    (junk : ℕ) (qs : List QueueInfo) (rest : List ℕ)
    → skip (32 * length qs) (put_queues junk qs rest) ≡ rest
unfolding put_queues
skip-put_queues junk [] rest = refl
skip-put_queues junk (q ∷ qs) rest =
    let e : 32 * suc (length qs) ≡ 32 + 32 * length qs = omega arith in
    rw e (
      skip-put_queue (32 * length qs) junk q (put_queues junk qs rest)
      ∙ skip-put_queues junk qs rest)

abbrev pub IsNum : ℕ → Type 0
IsNum n = n < 2 ^ 32

pub get-put_nums :
    (ns : List ℕ) (rest : List ℕ) → All IsNum ns → get_nums (length ns) (put_nums ns rest) ≡ ns
unfolding get_nums put_nums
get-put_nums [] rest h = refl
get-put_nums (n ∷ ns) rest (p, h) =
    rw
      (
        field-first 4 n (put_nums ns rest) (omega arith),
        skip-append 4 4 (put_word 4 n) (put_nums ns rest) (length-put_word 4 n) (omega arith),
        get-put_nums ns rest h,
      )
      refl

pub length-put_nums : (ns rest : List ℕ) → length (put_nums ns rest) ≡ length ns * 4 + length rest
unfolding put_nums
length-put_nums [] rest = omega arith
length-put_nums (n ∷ ns) rest = omega (
  arith,
  length-put_nums ns rest,
  length-put_word 4 n,
  length-append (put_word 4 n) (put_nums ns rest),
)

pub skip-put_nums : (ns rest : List ℕ) → skip (4 * length ns) (put_nums ns rest) ≡ rest
unfolding put_nums
skip-put_nums [] rest = refl
skip-put_nums (n ∷ ns) rest =
    skip-append (4 * suc (length ns)) 4 (put_word 4 n) (put_nums ns rest) (length-put_word 4 n)
      (omega arith)
    ∙ ap (λ k. skip k (put_nums ns rest)) {x = 4 * suc (length ns) - 4} {y = 4 * length ns}
        (omega arith)
    ∙ skip-put_nums ns rest

-- ===== src/Network/Handshake/Laws.antt =====
-- The round trip of the handshake of src/network/manager.cpp.
use zip_log_ae.Base.{
  ℕ, zero, suc, ◌+◌, ◌-◌, ◌*◌, ◌%◌, ◌^◌, ◌≤◌, ◌<◌, ◌≡◌, ◌≢◌, refl, sym, ap, ◌∙◌, true, false, none,
  some, List, [], ◌∷◌, ◌++◌, ◌==◌, length, take, replicate, All, length-append, arith,
}
use zip_log_ae.Network.Transfer.{skip}
use zip_log_ae.Network.Handshake.Arrays.{
  length-put_word, length-replicate, field-first, field-behind, get-put_queues, length-put_queues,
  skip-put_queues, get-put_nums, length-put_nums, skip-put_nums, skip-append, take-append, IsQueue,
  IsNum,
}
use zip_log_ae.Network.Handshake.{
  introduce, read_peer, create_from, Side, QueueInfo, Connection, put_word, word, field, put_queues,
  put_nums, connection_length, serialize, deserialize, queues_of, nums_of, message_of, agree,
}

take_all : (xs : List ℕ) → take (length xs) xs ≡ xs
take_all [] = refl
take_all (x ∷ xs) = ap (◌∷◌ x) (take_all xs)

take-skip-take :
    (n o w : ℕ) (xs : List ℕ) → o + w ≤ n → take w (skip o (take n xs)) ≡ take w (skip o xs)
take-skip-take zero zero zero xs le = refl
take-skip-take zero zero (suc w) xs le = absurd (omega arith)
take-skip-take zero (suc o) w xs le = absurd (omega arith)
take-skip-take (suc n) zero zero xs le = refl
take-skip-take (suc n) zero (suc w) [] le = refl
take-skip-take (suc n) zero (suc w) (x ∷ xs) le =
    ap (◌∷◌ x) (take-skip-take n zero w xs (omega arith))
take-skip-take (suc n) (suc o) w [] le = refl
take-skip-take (suc n) (suc o) w (x ∷ xs) le = take-skip-take n o w xs (omega arith)

other_length : (m n : ℕ) → n < 2 ^ 64 → m ≢ n → (m == n % 2 ^ 64) ≡ false
other_length m n small ne = ground arith

-- A member in front of the arrays depends on the first 48 bytes.
same_field :
    (p q : List ℕ) (o w : ℕ) → take 48 p ≡ take 48 q → o + w ≤ 48 → field o w p ≡ field o w q
unfolding field
same_field p q o w e le = ap word (
    sym (take-skip-take 48 o w p le) ∙ ap (λ xs. take w (skip o xs)) e ∙ take-skip-take 48 o w q le)

-- What the types of the arguments say, and that the message is shorter than 2 ^ 64.
pub record IsConnection (c : Connection) : Type 0 where
  pub local_id : c.local_id < 2 ^ 16
  pub local_gid : length c.local_gid ≡ 16
  pub queue_infos : All IsQueue c.queue_infos
  pub xrc_queue_nums : All IsNum c.xrc_queue_nums
  pub small :
      48 + length c.queue_infos * 32 + length c.xrc_queue_nums * 4 + length c.message < 2 ^ 64

-- The members in front of the arrays.
module _ (junk : ℕ) (c : Connection) (v : IsConnection c) where
  abbrev arrays : List ℕ
  arrays = put_queues junk c.queue_infos (put_nums c.xrc_queue_nums c.message)

  abbrev lengths : List ℕ
  lengths =
      put_word 8 (length c.queue_infos)
      ++ (put_word 8 (length c.xrc_queue_nums) ++ (put_word 8 (length c.message) ++ arrays))

  -- Behind the identifiers, which take 24 bytes.
  skip-serialize : (n : ℕ) → 24 ≤ n → skip n (serialize junk c) ≡ skip (n - 2 - 6 - 16) lengths
  unfolding serialize
  skip-serialize n le =
      skip-append n 2 (put_word 2 c.local_id) (replicate 6 junk ++ (c.local_gid ++ lengths))
        (length-put_word 2 c.local_id) (omega arith)
      ∙ skip-append (n - 2) 6 (replicate 6 junk) (c.local_gid ++ lengths) (length-replicate 6 junk)
          (omega arith)
      ∙ skip-append (n - 2 - 6) 16 c.local_gid lengths v.local_gid (omega arith)

  field-serialize :
      (offset width : ℕ)
      → 24 ≤ offset
      → field offset width (serialize junk c) ≡ field (offset - 2 - 6 - 16) width lengths
  unfolding field
  field-serialize offset width le = ap (λ p. word (take width p)) (skip-serialize offset le)

  num_queues : field 24 8 (serialize junk c) ≡ length c.queue_infos
  num_queues =
      field-serialize 24 8 (omega arith)
      ∙ field-first 8 (length c.queue_infos) _ (omega (arith, v.small))

  num_xrc_queues : field 32 8 (serialize junk c) ≡ length c.xrc_queue_nums
  num_xrc_queues =
      field-serialize 32 8 (omega arith)
      ∙ field-behind 8 8 8 (put_word 8 (length c.queue_infos)) _
          (length-put_word 8 (length c.queue_infos)) (omega arith)
      ∙ field-first 8 (length c.xrc_queue_nums) _ (omega (arith, v.small))

  message_length : field 40 8 (serialize junk c) ≡ length c.message
  message_length =
      field-serialize 40 8 (omega arith)
      ∙ field-behind 16 8 8 (put_word 8 (length c.queue_infos)) _
          (length-put_word 8 (length c.queue_infos)) (omega arith)
      ∙ field-behind 8 8 8 (put_word 8 (length c.xrc_queue_nums)) _
          (length-put_word 8 (length c.xrc_queue_nums)) (omega arith)
      ∙ field-first 8 (length c.message) _ (omega (arith, v.small))

  queues_of-serialize : queues_of (serialize junk c) ≡ arrays
  unfolding queues_of put_word
  queues_of-serialize = skip-serialize 48 (omega arith)

  nums_of-serialize : nums_of (serialize junk c) ≡ put_nums c.xrc_queue_nums c.message
  unfolding nums_of
  nums_of-serialize =
      rw (num_queues, queues_of-serialize)
        (skip-put_queues junk c.queue_infos (put_nums c.xrc_queue_nums c.message))

  message_of-serialize : message_of (serialize junk c) ≡ c.message
  unfolding message_of
  message_of-serialize =
      rw (num_xrc_queues, nums_of-serialize) (skip-put_nums c.xrc_queue_nums c.message)

  length-serialize :
      length (serialize junk c)
      ≡ 48 + length c.queue_infos * 32 + length c.xrc_queue_nums * 4 + length c.message
  unfolding serialize put_word
  length-serialize = omega (
    arith,
    v.local_gid,
    length-append c.local_gid lengths,
    length-put_queues junk c.queue_infos (put_nums c.xrc_queue_nums c.message),
    length-put_nums c.xrc_queue_nums c.message,
  )

  id-serialize : field 0 2 (serialize junk c) ≡ c.local_id
  unfolding serialize
  id-serialize =
      field-first 2 c.local_id (replicate 6 junk ++ (c.local_gid ++ lengths))
        (omega (arith, v.local_id))

  gid-serialize : take 16 (skip 8 (serialize junk c)) ≡ c.local_gid
  unfolding serialize put_word
  gid-serialize = take-append 16 c.local_gid lengths v.local_gid

  -- A connection that a side writes is read as it is by the other.
  pub deserialize-serialize : deserialize (serialize junk c) ≡ some c
  unfolding deserialize connection_length
  deserialize-serialize =
      let l : (length (serialize junk c)
            == (48 + length c.queue_infos * 32 + length c.xrc_queue_nums * 4 + length c.message)
              % 2 ^ 64)
          ≡ true =
        ground (arith, length-serialize, v.small) in
      rw
        (
          num_queues, num_xrc_queues, message_length, queues_of-serialize, nums_of-serialize,
          message_of-serialize, l,
        )
        (rw
          (
            id-serialize,
            gid-serialize,
            get-put_queues junk c.queue_infos (put_nums c.xrc_queue_nums c.message) v.queue_infos,
            get-put_nums c.xrc_queue_nums c.message v.xrc_queue_nums,
            take_all c.message,
          )
          refl)

  -- A buffer that starts with the 48 bytes of the members of a connection, but is longer or
  -- shorter than it, is refused.
  pub deserialize-resized :
      (p : List ℕ)
      → take 48 p ≡ take 48 (serialize junk c)
      → length p ≢ length (serialize junk c)
      → deserialize p ≡ none
  unfolding deserialize connection_length
  deserialize-resized p start other =
      let l : (length p
            == (48 + length c.queue_infos * 32 + length c.xrc_queue_nums * 4 + length c.message)
              % 2 ^ 64)
          ≡ false =
        other_length (length p) _ v.small (rw length-serialize at other) in
      rw
        (
          same_field p (serialize junk c) 24 8 start (omega arith) ∙ num_queues,
          same_field p (serialize junk c) 32 8 start (omega arith) ∙ num_xrc_queues,
          same_field p (serialize junk c) 40 8 start (omega arith) ∙ message_length,
          l,
        )
        refl

agree_comm : (a b : ℕ) → agree a b ≡ agree b a
unfolding agree
agree_comm a b = ground arith

agree-positive : (a b : ℕ) → 0 < agree a b
unfolding agree
agree-positive a b = ground arith

length-create_from : (create : ℕ → QueueInfo) (n i : ℕ) → length (create_from create n i) ≡ n
length-create_from create zero i = refl
length-create_from create (suc n) i = ap suc (length-create_from create n (i + 1))

-- A side reads what its peer has introduced.
pub record Meets (junk : ℕ) (me peer : Side) : Type 0 where
  read : read_peer junk me peer ≡ some (introduce peer me.asked)
  queues :
      length (introduce peer me.asked).queue_infos ≡ length (introduce me peer.asked).queue_infos
  one : 0 < length (introduce me peer.asked).queue_infos

-- When a side is introduced by members that fit their types, and its buffer is shorter than 2 ^
-- 64, its peer reads exactly those members, with as many queues as it has itself, at least one.
pub read_peer-Meets :
    (junk : ℕ) (me peer : Side) → IsConnection (introduce peer me.asked) → Meets junk me peer
unfolding read_peer
read_peer-Meets junk me peer v =
    let mine = length-create_from me.create (agree me.asked peer.asked) 0 in
    let theirs = length-create_from peer.create (agree peer.asked me.asked) 0 in
    record {
      read = deserialize-serialize junk (introduce peer me.asked) v;
      queues = omega (arith, mine, theirs, agree_comm me.asked peer.asked);
      one = omega (arith, mine, agree-positive me.asked peer.asked);
    }

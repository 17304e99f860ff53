-- ===== src/Network/Handshake.antt =====
-- The structs `queue_info` and `destination_info` of src/network/manager.cpp and the functions that
-- write and read them, on bytes. A pointer into a buffer is what is left of the buffer from there
-- on. Words are little-endian, `ibv_gid` is 16 bytes that are aligned to 8, and `junk` is the value
-- of the bytes of padding.
pub mod Arrays
pub mod Examples
pub mod Laws
use zip_log_ae.Network.Transfer.{skip}
use zip_log_ae.Base.{
  ℕ, zero, suc, ◌+◌, ◌-◌, ◌*◌, ◌/◌, ◌%◌, ◌^◌, Bool, true, false, Option, none, some, List, [], ◌∷◌,
  ◌++◌, if◌then◌else◌, ltb, ◌==◌, length, take, replicate,
}

-- `detail::queue_info`, 32 bytes.
pub record QueueInfo : Type 0 where
  pub index : ℕ
  pub address : ℕ
  pub remote_key : ℕ
  pub send_queue_num : ℕ
  pub recv_queue_num : ℕ

-- The arguments of `serialize_connection`, which are the members of what `deserialize_connection`
-- returns.
pub record Connection : Type 0 where
  pub local_id : ℕ
  pub local_gid : List ℕ
  pub queue_infos : List QueueInfo
  pub xrc_queue_nums : List ℕ
  pub message : List ℕ

-- A word of `width` bytes, and the value of bytes.
unfoldable pub put_word : ℕ → ℕ → List ℕ
put_word zero w = []
put_word (suc width) w = w % 256 ∷ put_word width (w / 256)

unfoldable pub word : List ℕ → ℕ
word [] = 0
word (b ∷ bs) = b + 256 * word bs

-- The word of `width` bytes at an offset from a pointer.
unfoldable pub field : ℕ → ℕ → List ℕ → ℕ
field offset width p = word (take width (skip offset p))

-- Arrays of structs and of words, in front of what follows them.
unfoldable pub put_queue : ℕ → QueueInfo → List ℕ → List ℕ
put_queue junk q rest =
    put_word 8 q.index
    ++ (put_word 8 q.address
        ++ (put_word 4 q.remote_key
            ++ (put_word 4 q.send_queue_num
                ++ (put_word 4 q.recv_queue_num ++ (replicate 4 junk ++ rest)))))

unfoldable pub put_queues : ℕ → List QueueInfo → List ℕ → List ℕ
put_queues junk [] rest = rest
put_queues junk (q ∷ qs) rest = put_queue junk q (put_queues junk qs rest)

unfoldable pub put_nums : List ℕ → List ℕ → List ℕ
put_nums [] rest = rest
put_nums (n ∷ ns) rest = put_word 4 n ++ put_nums ns rest

-- `destination_info::length`, in 64 bits.
unfoldable pub connection_length : ℕ → ℕ → ℕ → ℕ
connection_length num_queues num_xrc_queues message_length =
    (48 + num_queues * 32 + num_xrc_queues * 4 + message_length) % 2 ^ 64

-- `serialize_connection`
unfoldable pub serialize : ℕ → Connection → List ℕ
serialize junk c =
    put_word 2 c.local_id
    ++ (replicate 6 junk
        ++ (c.local_gid
            ++ (put_word 8 (length c.queue_infos)
                ++ (put_word 8 (length c.xrc_queue_nums)
                    ++ (put_word 8 (length c.message)
                        ++ put_queues junk c.queue_infos (put_nums c.xrc_queue_nums c.message))))))

unfoldable pub get_queue : List ℕ → QueueInfo
get_queue p = record {
  index = field 0 8 p;
  address = field 8 8 p;
  remote_key = field 16 4 p;
  send_queue_num = field 20 4 p;
  recv_queue_num = field 24 4 p;
}

unfoldable pub get_queues : ℕ → List ℕ → List QueueInfo
get_queues zero p = []
get_queues (suc n) p = get_queue p ∷ get_queues n (skip 32 p)

unfoldable pub get_nums : ℕ → List ℕ → List ℕ
get_nums zero p = []
get_nums (suc n) p = field 0 4 p ∷ get_nums n (skip 4 p)

-- `destination_info::queue_infos`, `xrc_queue_nums` and `message`.
unfoldable pub queues_of : List ℕ → List ℕ
queues_of p = skip 48 p

unfoldable pub nums_of : List ℕ → List ℕ
nums_of p = skip (32 * field 24 8 p) (queues_of p)

unfoldable pub message_of : List ℕ → List ℕ
message_of p = skip (4 * field 32 8 p) (nums_of p)

-- `deserialize_connection`: `none` when the assertion on the length fails.
unfoldable pub deserialize : List ℕ → Option Connection
deserialize p =
    if length p == connection_length (field 24 8 p) (field 32 8 p) (field 40 8 p)
    then some record {
      local_id = field 0 2 p;
      local_gid = take 16 (skip 8 p);
      queue_infos = get_queues (field 24 8 p) (queues_of p);
      xrc_queue_nums = get_nums (field 32 8 p) (nums_of p);
      message = take (field 40 8 p) (message_of p);
    }
    else none

-- How many queues a connection has, from what the two sides ask for; 0 leaves it to the other.
unfoldable pub agree : ℕ → ℕ → ℕ
agree mine other =
    if mine == 0
    then (if other == 0 then 1 else other)
    else if other == 0
    then mine
    else if ltb other mine
    then other
    else mine

-- One side of a connection: how many queues it asks for, and what it tells the other. `create i` is
-- what the device yields for its queue `i`.
pub record Side : Type 0 where
  pub asked : ℕ
  pub create : ℕ → QueueInfo
  pub local_id : ℕ
  pub local_gid : List ℕ
  pub xrc_queue_nums : List ℕ
  pub message : List ℕ

-- The loop of `manager::accept` and `manager::connect` that creates the queues from `i` on.
abbrev pub create_from : (ℕ → QueueInfo) → ℕ → ℕ → List QueueInfo
create_from create zero i = []
create_from create (suc n) i = create i ∷ create_from create n (i + 1)

-- What a side sends once it knows how many queues the other asks for.
abbrev pub introduce : Side → ℕ → Connection
introduce s other = record {
  local_id = s.local_id;
  local_gid = s.local_gid;
  queue_infos = create_from s.create (agree s.asked other) 0;
  xrc_queue_nums = s.xrc_queue_nums;
  message = s.message;
}

-- What a side reads from its peer in `manager::accept` or `manager::connect`.
unfoldable pub read_peer : ℕ → Side → Side → Option Connection
read_peer junk me peer = deserialize (serialize junk (introduce peer me.asked))

-- ===== src/Client/Start.antt =====
-- The constructors of src/client/client.cpp: what a new client is and what it asks for.
use zip_log_ae.Order.{num_shards}
use zip_log_ae.Order.Handlers.{min_slots}
use zip_log_ae.Storage.Server.{max_clients}
use zip_log_ae.Util.Align.{align, align_lem, max_of}
use zip_log_ae.Util.Address.{split_address}
use zip_log_ae.Network.Handshake.{put_word, word}
use zip_log_ae.Api.{order_intro, tag, size_of}
use zip_log_ae.Client.{Client}
use zip_log_ae.Client.Slots.{SlotInv}
use zip_log_ae.Base.{
  ℕ, ◌+◌, ◌*◌, ◌/◌, ◌%◌, ◌^◌, ◌≤◌, ◌<◌, ◌≡◌, refl, true, false, Option, none, some, [], List, Bool,
  ◌==◌, length, take, if◌then◌else◌, ltb, u64_max, ◌&&◌, arith,
}

-- The message that introduces a client.
pub record Intro : Type 0 where
  pub client_id : ℕ
  pub shard_id : ℕ
  pub num_slots : ℕ

-- The state with which the loop starts; `FIRST_EPOCH` begins before any time.
abbrev pub new_client : ℕ → ℕ → ℕ → Client
new_client client_id shard_id failures = record {
  client_id = client_id;
  shard_id = shard_id;
  failures = failures;
  latest_gsn = u64_max;
  queues = [];
  stopped = false;
  ended = false;
  consumed = 0;
  assigned = 0;
  current = record { begin = 0; first = 0; last = 0 };
  epochs = [];
  requests = [];
  outstanding = [];
  responses = λ _. u64_max;
}

-- What the network manager answers: whether it creates a receive queue, and the first message of the
-- server at a host and a port, to which it sends the introduction, or nothing if it fails.
pub record Services : Type 0 where
  pub creates_queue : Bool
  pub connect : Intro → List ℕ → ℕ → Option (List ℕ)

-- The message of the ordering server.
abbrev pub verify : Option (List ℕ) → Bool
verify none = false
verify (some bytes) =
    (length bytes == size_of order_intro) && (word (take 8 bytes) == tag order_intro)

abbrev pub reach_order : Services → Intro → Option (List ℕ × ℕ) → Bool
reach_order s intro none = false
reach_order s intro (some (ip, port)) = verify (s.connect intro ip port)

-- `initialize_client`: false is a failing assertion, or an exception for an address that is none.
unfoldable pub initialize : Services → List ℕ → Intro → Bool
unfolding split_address
initialize s order intro = s.creates_queue && reach_order s intro (split_address order)

-- Both constructors, for the address of the ordering server; `none` is a failing assertion or an
-- exception.
unfoldable pub construct : Services → List ℕ → ℕ → ℕ → ℕ → ℕ → Option (Client × Intro)
unfolding initialize
construct s order client_id shard_id failures num_slots =
    let intro : Intro = record {
      client_id = client_id;
      shard_id = shard_id;
      num_slots = num_slots;
    } in
    if ltb client_id max_clients && ltb shard_id num_shards && initialize s order intro
    then some (new_client client_id shard_id failures, intro)
    else none

-- The slots for a rate per second: an epoch takes 5 of the 1000 milliseconds.
unfoldable pub slots_of_rate : ℕ → ℕ
slots_of_rate rate = align min_slots (max_of 1 (rate * 5 % 2 ^ 64 / 1000))

unfoldable pub construct_with_rate : Services → List ℕ → ℕ → ℕ → ℕ → ℕ → Option (Client × Intro)
construct_with_rate s order client_id shard_id failures rate =
    construct s order client_id shard_id failures (slots_of_rate rate)

unfoldable pub construct_with_pid : Services → List ℕ → ℕ → ℕ → ℕ → Option (Client × Intro)
construct_with_pid s order client_id shard_id failures =
    construct s order client_id shard_id failures min_slots

-- What a client that is constructed with a rate asks for.
pub record Asks (client_id shard_id rate : ℕ) (o : Option (Client × Intro)) : Type 0 where
  pub client : Client
  pub intro : Intro
  pub known : (intro.client_id ≡ client_id) × (intro.shard_id ≡ shard_id)
  pub constructed : o ≡ some (client, intro)
  pub inv : SlotInv client
  pub whole : intro.num_slots % min_slots ≡ 0
  pub positive : 0 < intro.num_slots
  pub enough : rate * 5 / 1000 ≤ intro.num_slots
  pub tight : intro.num_slots < rate * 5 / 1000 + 1 + min_slots

-- For identifiers in range and a rate below 2 ^ 61 per second, when the receive queue is created,
-- the address of the ordering server splits into a host and a port, and the server there answers
-- the introduction with its own message, the constructor of a client does not abort and starts
-- with the invariant of its slots; it introduces the client by its identifiers, and asks for a
-- positive multiple of the least number of slots, at least the slots of the rate in an epoch,
-- rounded down, and at most that number of slots above them.
pub construct_with_rate-Asks :
    (s : Services) (order ip : List ℕ) (port client_id shard_id failures rate : ℕ)
    → s.creates_queue ≡ true
    → split_address order ≡ some (ip, port)
    → ((intro : Intro) → s.connect intro ip port ≡ some (put_word 8 (tag order_intro)))
    → client_id < max_clients
    → shard_id < num_shards
    → rate < 2 ^ 61
    → Asks client_id shard_id rate (construct_with_rate s order client_id shard_id failures rate)
unfolding construct_with_rate construct slots_of_rate initialize put_word word
construct_with_rate-Asks s order ip port client_id shard_id failures rate created address reached
      few shard small =
    let wanted = max_of 1 (rate * 5 % 2 ^ 64 / 1000) in
    let exact : rate * 5 % 2 ^ 64 ≡ rate * 5 = omega arith in
    let least : 1 ≤ wanted = ground arith in
    let most : wanted ≤ rate * 5 / 1000 + 1 = ground (arith, exact) in
    let covers : rate * 5 / 1000 ≤ wanted = ground (arith, exact) in
    let below : wanted < 2 ^ 63 = omega (arith, most) in
    let (whole, above, tight) = align_lem min_slots wanted (omega arith) (omega arith) below in
    let one : ltb client_id max_clients ≡ true = ground arith in
    let two : ltb shard_id num_shards ≡ true = ground arith in
    let asked : Intro = record {
      client_id = client_id;
      shard_id = shard_id;
      num_slots = align min_slots wanted;
    } in
    record {
      client = new_client client_id shard_id failures;
      intro = asked;
      known = (refl, refl);
      constructed =
          rw (construct_with_rate, construct, one, two, initialize, created, address, reached asked)
            refl;
      inv = record {
        ordered = omega arith;
        within = omega arith;
        coming = refl;
        small = omega arith;
      };
      whole = whole;
      positive = omega (arith, above, least);
      enough = omega (arith, above, covers);
      tight = omega (arith, tight, most);
    }

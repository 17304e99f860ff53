-- ===== src/Client/Examples.antt =====
-- The theorems on a client, in its first epoch and with one request.
use zip_log_ae.Base.{
  ℕ, List, Option, none, true, ◌≡◌, refl, some, [], ◌∷◌, inl, arith, false, u64_max,
}
use zip_log_ae.Client.Start.{Services, Asks, construct_with_rate, construct_with_rate-Asks}
use zip_log_ae.Util.Address.{split_address, at_colon, default_port}
use zip_log_ae.Network.Handshake.{put_word}
use zip_log_ae.Api.{order_intro, tag}
use zip_log_ae.Client.Links.{StorageIntro, Event, storage_info, storage_finished, choose}
use zip_log_ae.Client.Links.Laws.{Connects, unlinked, run-Connects}
use zip_log_ae.Client.Links.Ending.{stop_and_finish, stop-finishes}
use zip_log_ae.Client.{
  storage_finished as storage_finished_sent, order_finished, has_queue, Client, waiting, respond,
  round,
}
use zip_log_ae.Client.Slots.{SlotInv, Advanced, round-Advanced}
use zip_log_ae.Client.Acks.{ack_times, ack_times_lem}

abbrev client : Client
client = record {
  client_id = 7;
  shard_id = 0;
  failures = 1;
  latest_gsn = u64_max;
  queues = 0 ∷ 1 ∷ [];
  stopped = false;
  ended = false;
  consumed = 10;
  assigned = 300;
  current = record { begin = 1000; first = 0; last = 100 };
  epochs = record { begin = 6000; first = 100; last = 300 } ∷ [];
  requests = [];
  outstanding = waiting (some 4) ∷ [];
  responses = λ _. u64_max;
}

client-SlotInv : SlotInv client
client-SlotInv = record {
  ordered = omega arith;
  within = omega arith;
  coming = (refl, omega arith, refl);
  small = omega arith;
}

-- Half a millisecond into the second epoch.
round-Advanced_example : Advanced client (round client 6000 500000)
round-Advanced_example = round-Advanced client 6000 500000 client-SlotInv

ack_times_lem_example :
    ((ack_times 1 client 42).responses ≡ client.responses)
    × (ack_times 2 client 42 ≡ record client {
      outstanding = [];
      latest_gsn = 42;
      responses = respond (some 4) 42 client.responses;
    })
ack_times_lem_example =
    ack_times_lem 1 client 42 (waiting (some 4)) []
      (record {
        head = refl;
        owner = inl refl;
        fresh = inl refl;
        word = omega arith;
        acks = omega arith;
        small = omega arith;
      })
      refl

-- The ordering server answers with its introduction.
abbrev services : Services
services = record { creates_queue = true; connect = λ _ _ _. some (put_word 8 (tag order_intro)) }

abbrev order_host : List ℕ
order_host = b'o' ∷ b'.' ∷ b'o' ∷ []

construct_with_rate-Asks_example :
    Asks 7 0 1000000 (construct_with_rate services order_host 7 0 1 1000000)
unfolding split_address at_colon
construct_with_rate-Asks_example =
    construct_with_rate-Asks services order_host order_host default_port 7 0 1 1000000 refl refl
      (λ _. refl) (omega arith) (omega arith) (omega arith)

-- The second server has the replica of the first, the third cannot be reached.
abbrev intros : List (Option StorageIntro)
intros =
    some record { valid = true; shard_id = 0; replica_id = 4; client_queues = 3 }
    ∷ some record { valid = true; shard_id = 0; replica_id = 4; client_queues = 3 }
    ∷ none
    ∷ []

abbrev meetings : List Event
meetings = storage_info intros ∷ storage_finished 0 4 ∷ []

run-Connects_example : Connects (unlinked 7 0 1 0 0) meetings
run-Connects_example =
    run-Connects 7 0 1 0 0 meetings ((omega arith, (omega arith, (tt, tt))), (tt, tt))

connected_once :
    choose
      (unlinked 7 0 1 0 0)
      (record { valid = true; shard_id = 0; replica_id = 4; client_queues = 3 })
      []
    ≡ some (record (unlinked 7 0 1 0 0) { client_queues = 3; destination = 2 })
connected_once = refl

stop-finishes_example : stop_and_finish client (1 ∷ 0 ∷ []) ≡ (
  record client { stopped = true; queues = []; ended = true },
  storage_finished_sent 0 ∷ storage_finished_sent 1 ∷ order_finished ∷ [],
)
unfolding has_queue
stop-finishes_example =
    stop-finishes client 1 (0 ∷ []) refl (refl, (refl, tt)) (refl, (refl, tt)) refl

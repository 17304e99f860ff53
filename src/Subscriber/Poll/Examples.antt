-- ===== src/Subscriber/Poll/Examples.antt =====
-- A polling thread that tolerates one failure, with the packets of two servers.
use zip_log_ae.Base.{ℕ, ◌≡◌, refl, none, some, List, [], ◌∷◌, All, arith, find, assign, erase}
use zip_log_ae.Subscriber.Log.{new_log, insert}
use zip_log_ae.Subscriber.Poll.{
  Message, Poll, Result, new_poll, run, on_log_entry, keep_copy, set_info, count_copy,
}
use zip_log_ae.Subscriber.Poll.Quorum.{HasQuorum, delivered-HasQuorum}
use zip_log_ae.Subscriber.Poll.Ascending.{Ascends, delivered-Ascends}
use zip_log_ae.Subscriber.Poll.Delivery.{DeliversIn, run-DeliversIn}

abbrev copy_of : ℕ → ℕ → Message
copy_of g replica = record {
  entry = record { client_id = 4; gsn = g; shard_id = 0; replica_id = replica; bytes = [] };
  thread_id = 1;
  data_length = 0;
}

-- The second server is behind the first one.
abbrev packets : List Message
packets = copy_of 5 0 ∷ copy_of 7 0 ∷ copy_of 5 1 ∷ copy_of 7 1 ∷ copy_of 9 0 ∷ copy_of 5 2 ∷ []

abbrev state_of : Result → Poll
state_of none = new_poll (new_log 1)
state_of (some (q, ds)) = q

abbrev last : Poll
unfolding run
last = state_of (run 1 (new_poll (new_log 1)) packets)

abbrev entries : List Message
entries = copy_of 5 2 ∷ copy_of 7 2 ∷ []

runs : run 1 (new_poll (new_log 1)) packets ≡ some (last, entries)
unfolding run last on_log_entry find keep_copy set_info count_copy assign insert new_log erase
runs = refl

delivered-HasQuorum_example : All (HasQuorum 1 [] packets) entries
delivered-HasQuorum_example =
    delivered-HasQuorum 1 (new_log 1) packets last entries (omega arith) runs

delivered-Ascends_example : Ascends 0 1 0 entries
delivered-Ascends_example =
    delivered-Ascends 1 (new_log 1) packets last entries 0 1 (omega arith) (omega arith) runs

run-DeliversIn_example : DeliversIn (copy_of 7 0) (run 1 (new_poll (new_log 1)) packets)
unfolding new_log
run-DeliversIn_example =
    run-DeliversIn 1 (new_log 1) (copy_of 7 0) packets (omega arith) (omega arith) refl refl
      (omega arith)

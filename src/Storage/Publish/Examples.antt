-- ===== src/Storage/Publish/Examples.antt =====
-- The second of two threads publishes an entry to a subscriber.
use zip_log_ae.Base.{Option, some, none, List, [], ◌∷◌, true, arith, find, assign}
use zip_log_ae.Storage.Log.{Entry, Log, new_log, zeroed, inline}
use zip_log_ae.Storage.Publish.{Thread, Change, joined, start, run, round, on_change, send_all}
use zip_log_ae.Storage.Iterator.{next_entry, new_iterator}
use zip_log_ae.Storage.Publish.Streams.{StreamsIn, AreChanges, start-Streams}

abbrev thread : Thread
thread = record { shard_id = 0; replica_id = 2; index = 1; subscriber_threads = 2 }

abbrev entry : Entry
entry = record zeroed {
  client_id = 6;
  gsn = 9;
  data_length = 2;
  payload = inline (4 ∷ 5 ∷ []);
  set = true;
}

abbrev log : Log
unfolding new_log
log = record new_log { cells = λ _. entry; num_entries = 4 }

abbrev rounds : List (Log × Option Change)
rounds = (log, some (joined 3 2)) ∷ (new_log, none) ∷ []

rounds-AreChanges : AreChanges thread (start thread) rounds
unfolding round on_change find next_entry new_iterator log send_all assign
rounds-AreChanges = (omega arith, (tt, tt))

start-Streams_example : StreamsIn thread 1 [] rounds (run thread (start thread) rounds)
start-Streams_example = start-Streams thread rounds (omega arith) rounds-AreChanges

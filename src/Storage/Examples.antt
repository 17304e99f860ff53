-- ===== src/Storage/Examples.antt =====
-- The theorems on the storage server at a small log: two clients and a client of another shard.
use zip_log_ae.Base.{
  ℕ, suc, ◌+◌, ◌<◌, ◌≡◌, ◌≢◌, ◌⊎◌, refl, Option, none, some, List, [], ◌∷◌, ◌++◌, arith, u64_max,
  length, replicate, true,
}
use zip_log_ae.Storage.Slots.{Assignment, StorageSlots, generate}
use zip_log_ae.Storage.Slots.Sums.{LedByMost, generate-weight, total_weight, weigh}
use zip_log_ae.Storage.Log.{Log, Bytes, new_log, add_entries, update}
use zip_log_ae.Storage.Log.Links.{WellLinked, new_log-WellLinked}
use zip_log_ae.Storage.Log.Epoch.{
  add_entries-WellLinked, total_slots, slots_of, slot_of, add_entries-slots_of,
}
use zip_log_ae.Storage.Log.Order.{IsOrdered, add_entries-IsOrdered}
use zip_log_ae.Storage.Position.{Position, Stored, insert, close}
use zip_log_ae.Storage.Position.Walk.{behind}
use zip_log_ae.Storage.Position.Insert.{Inserted}
use zip_log_ae.Storage.Position.Stable.{insert_lem}
use zip_log_ae.Storage.Position.Final.{IsAt}
use zip_log_ae.Storage.Position.Close.{Closed, close-Closed}
use zip_log_ae.Storage.Position.Added.{Extends, add_entries-Extends}
use zip_log_ae.Storage.Server.{
  Server, new_server, Message, done, on_storage_slots, on_client_freeze, add_client,
  order_client_cut,
}
use zip_log_ae.Storage.Server.Events.{handle, slots}
use zip_log_ae.Storage.Server.Invariant.{ServerInv, Keeps, new_server-ServerInv}
use zip_log_ae.Storage.Server.Runs.{Reaches, stop, step, run-Keeps, started-ServerInv}
use zip_log_ae.Storage.Server.Frozen.{freeze-stable}

-- Client 7 has four slots, client 5 has two, and one belongs to another shard.
abbrev assigned : List Assignment
assigned =
    record { client_id = 7; num_slots = 4 }
    ∷ record { client_id = 5; num_slots = 2 }
    ∷ record { client_id = u64_max; num_slots = 1 }
    ∷ []

abbrev message : StorageSlots
message = record { start_gsn = 10; assignments = assigned }

assigned-LedByMost : LedByMost assigned
assigned-LedByMost = (omega arith, (omega arith, (omega arith, tt)))

abbrev log : Log
log = add_entries new_log message

log-WellLinked : WellLinked log
log-WellLinked = add_entries-WellLinked new_log message new_log-WellLinked

abbrev start : Position
start = record { client_id = 7; current_entry = none }

new_log-IsAt : IsAt new_log start
unfolding new_log
new_log-IsAt = record {
  stands = tt;
  passed = λ a h. absurd (omega arith);
  ahead = λ a h lt. absurd (omega arith);
}

log-IsAt : IsAt log start
log-IsAt = (add_entries-Extends new_log message new_log-WellLinked).positions start new_log-IsAt

new_log-IsOrdered : IsOrdered new_log 10
unfolding new_log
new_log-IsOrdered = record {
  ascending = λ a b h lt. absurd (omega arith);
  below = λ a lt. absurd (omega arith);
}

abbrev payload : Bytes
payload = replicate 8 65

abbrev server : Server
server = add_client (new_server 0 1) 7

log_entries : log.num_entries ≡ 6
unfolding add_entries new_log generate
log_entries = refl

abbrev summary : Option Stored → Option (ℕ × ℕ)
summary none = none
summary (some s) = some (s.gsn, s.log.current_entries)

-- Client 7 closes one slot and stores at the next one, of GSN 12; client 5 has the one between.
insert_result : summary (insert log start payload 8 2) ≡ some (12, 6)
unfolding add_entries new_log generate insert
insert_result = refl

generate-weight_example :
    generate (weigh (slot_of 5)) assigned 0 ≡ 0 + total_weight (slot_of 5) assigned
generate-weight_example = generate-weight (slot_of 5) assigned 0 assigned-LedByMost

add_entries-WellLinked_example : WellLinked (add_entries log message)
add_entries-WellLinked_example = add_entries-WellLinked log message log-WellLinked

five : 5 ≢ u64_max
five = λ e. absurd (omega arith)

add_entries-slots_of_example :
    length (slots_of 5 (add_entries log message))
    ≡ length (slots_of 5 log) + total_weight (slot_of 5) assigned
add_entries-slots_of_example =
    add_entries-slots_of 5 five log message log-WellLinked assigned-LedByMost

add_entries-IsOrdered_example : IsOrdered log (10 + total_slots assigned)
unfolding total_weight
add_entries-IsOrdered_example =
    add_entries-IsOrdered new_log message new_log-WellLinked new_log-IsOrdered assigned-LedByMost
      (omega arith)

add_entries-Extends_example : Extends log (add_entries log message)
add_entries-Extends_example = add_entries-Extends log message log-WellLinked

insert_lem_example :
    ((length (behind log start) < 2) × (insert log start payload 8 2 ≡ none))
    ⊎ ((xs : List ℕ) × (d : ℕ) × (ys : List ℕ) × (s : Stored) × (behind log start ≡ xs ++ d ∷ ys)
        × (2 ≡ suc (length xs))
        × (insert log start payload 8 2 ≡ some s)
        × Inserted log start payload 8 xs d ys s)
insert_lem_example =
    insert_lem log start payload 8 2 log-WellLinked log-IsAt.stands (omega arith) (omega arith)

close-Closed_example : Closed log start (close log start)
close-Closed_example = close-Closed log start log-WellLinked log-IsAt

abbrev filled : Server
filled = record (new_server 0 1) { log = add_entries (new_server 0 1).log message }

run : Reaches (new_server 0 1) filled
unfolding handle on_storage_slots
run = step (new_server 0 1) filled filled (slots message) [] tt refl (stop filled)

run-Keeps_example : Keeps (new_server 0 1) filled
run-Keeps_example = run-Keeps (new_server 0 1) filled (new_server-ServerInv 0 1) run

started-ServerInv_example : ServerInv filled
started-ServerInv_example = started-ServerInv 0 1 filled run

abbrev message_cut : List Message
message_cut = order_client_cut 7 0 1 u64_max ∷ []

abbrev frozen_server : Server
frozen_server = record server {
  clients = update server.clients 7 (record (server.clients 7) { disconnected = true });
}

frozen : on_client_freeze server 7 ≡ done frozen_server message_cut
unfolding on_client_freeze new_server add_client
frozen = refl

freeze-stable_example :
    message_cut
    ≡ order_client_cut 7 server.shard_id server.replica_id (frozen_server.clients 7).latest_gsn ∷ []
freeze-stable_example =
    freeze-stable server frozen_server frozen_server 7 message_cut frozen (stop frozen_server)

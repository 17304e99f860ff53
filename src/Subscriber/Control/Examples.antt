-- ===== src/Subscriber/Control/Examples.antt =====
-- The end of a thread that is connected with one storage server by two queues.
use zip_log_ae.Base.{
  refl, Bool, true, false, Option, none, some, List, [], ◌∷◌, arith, find, assign, erase,
}
use zip_log_ae.Subscriber.Log.{new_log}
use zip_log_ae.Subscriber.Control.{
  Control, Event, Intro, new_control, storage_info, order_bye, storage_bye, handle, handle_all,
  begin_round, round, loop, on_order_finished, on_storage_finished, count_finished,
}
use zip_log_ae.Subscriber.Control.Taken.{ControlInv}
use zip_log_ae.Subscriber.Control.Ending.{Left, Expected, loop-Left}

abbrev connected : Control
connected = record (new_control (new_log 1)) { storage_queues = λ s. (5, 2) ∷ [] }

connected-ControlInv : ControlInv connected
unfolding find
connected-ControlInv = record {
  counted = tt;
  known = tt;
  keyed = omega arith;
  small = omega arith;
  open_queues = omega arith;
  ended = refl;
  running = refl;
}

abbrev rounds : List (Bool × List Event)
rounds = (true, storage_bye 0 5 ∷ []) ∷ (false, []) ∷ (false, order_bye ∷ storage_bye 0 5 ∷ []) ∷ []

rounds-Expected : Expected connected rounds
unfolding round begin_round handle_all handle on_order_finished on_storage_finished count_finished
    find assign erase
rounds-Expected = (((omega arith, refl), tt), (tt, ((refl, ((omega arith, refl), tt)), tt)))

loop-Left_example : Left 3 3 (loop connected rounds)
unfolding find
loop-Left_example = loop-Left connected rounds connected-ControlInv rounds-Expected

abbrev storage_server : Option Intro
storage_server = some record { is_valid = true; shard_id = 0; replica_id = 5; num_queues = 2 }

abbrev all_rounds : List (Bool × List Event)
all_rounds = (false, storage_info (storage_server ∷ none ∷ []) ∷ []) ∷ rounds

-- ===== src/Network/Examples.antt =====
-- The theorems on the network queues, at small messages.
use zip_log_ae.Base.{◌≡◌, refl, true, false, [], ◌∷◌, arith}
use zip_log_ae.Network.SendQueue.{SendQueue, new_send_queue, Verbs, send, registered, encode_imm}
use zip_log_ae.Network.RecvQueue.{Completion}
use zip_log_ae.Network.Ring.{SendInv, After, Good, send-Good}

abbrev queue : SendQueue
queue = new_send_queue 3 4096 (17 ∷ 18 ∷ [])

queue-SendInv : SendInv queue
unfolding new_send_queue
queue-SendInv = record {
  index = omega arith;
  aligned = omega arith;
  inside = omega arith;
  limited = omega arith;
  positive = omega arith;
  counted = omega arith;
}

abbrev verbs : Verbs
verbs = record { first_poll = 0; post = 0; last_poll = 0 }

send-Good_example : After (Good queue 100) (send queue registered 100 1 false verbs)
send-Good_example = send-Good queue registered 100 1 false verbs queue-SendInv (omega arith)

abbrev completion : Completion
completion = record {
  is_success = true;
  is_write_with_imm = true;
  imm = encode_imm 3 128;
  byte_len = 100;
}

encode_result : encode_imm 3 128 ≡ 262147
unfolding encode_imm
encode_result = refl

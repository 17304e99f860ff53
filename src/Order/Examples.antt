-- ===== src/Order/Examples.antt =====
-- The theorems on the ordering server at two replicas and two clients.
use zip_log_ae.Base.{◌+◌, ◌≤◌, ◌≡◌, refl, [], ◌∷◌, arith, length, find, assign, Keyed}
use zip_log_ae.Storage.Log.{new_log, fill, add_entries}
use zip_log_ae.Storage.Log.Links.{new_log-WellLinked}
use zip_log_ae.Storage.Log.Epoch.{slots_of}
use zip_log_ae.Order.{Order, new_order, new_client, add_client}
use zip_log_ae.Order.Handlers.{decide, settle, finish_client, on_client_freeze}
use zip_log_ae.Order.Epoch.{epoch, shard_message}
use zip_log_ae.Order.Epoch.Sorted.{Small}
use zip_log_ae.Order.Epoch.Contiguous.{epoch-next, epoch-granted, granted}
use zip_log_ae.Order.Events.{
  connect_client, freeze, next_epoch, handle, IsValid, Reaches, stop, step,
}
use zip_log_ae.Order.Invariant.{
  OrderInv, handle-OrderInv, started-OrderInv, message_length, send_buffer_size, shard_message-fits,
}
use zip_log_ae.Order.Failed.{IsOut, Leaves, failed-granted}

abbrev order : Order
order = record {
  gsn_base = 40;
  replicas = λ _. (0, 10) ∷ (1, 11) ∷ [];
  clients = (5, new_client 0 200) ∷ (7, new_client 0 400) ∷ [];
  subscribers = [];
  suspicious = [];
  heartbeat_id = 0;
}

order-Small : Small order.clients
order-Small = (omega arith, (omega arith, tt))

order-Keyed : Keyed 0 126 order.clients
order-Keyed = (omega arith, omega arith, (omega arith, omega arith, tt))

order-OrderInv : OrderInv order
order-OrderInv = record {
  clients = (
    order-Keyed,
    (
      record { shard = omega arith; small = omega arith; asked = λ h. absurd cc },
      (record { shard = omega arith; small = omega arith; asked = λ h. absurd cc }, tt),
    ),
  );
  base = omega arith;
}

epoch-next_example : (fill new_log (shard_message order 0)).start_gsn ≡ (epoch order).0.gsn_base
epoch-next_example = epoch-next order 0 new_log order-Small (omega arith)

epoch-granted_example :
    length (slots_of 7 (add_entries new_log (shard_message order 0)))
    ≡ length (slots_of 7 new_log) + granted 0 (find 7 order.clients)
epoch-granted_example =
    epoch-granted 0 7 (omega arith) order new_log 126 new_log-WellLinked order-Small order-Keyed

abbrev one_client : Order
one_client = (add_client new_order 7 0 400).0

run : Reaches IsValid new_order one_client
unfolding handle
run =
    step new_order one_client one_client (connect_client 7 0 400) (add_client new_order 7 0 400).1
      (omega arith) refl (stop one_client)

started-OrderInv_example : OrderInv one_client
started-OrderInv_example = started-OrderInv one_client run

shard_message-fits_example : message_length (shard_message one_client 0) ≤ send_buffer_size
shard_message-fits_example = shard_message-fits one_client 0 run

abbrev failed_order : Order
failed_order = (on_client_freeze order 7).0

failed_order-OrderInv : OrderInv failed_order
unfolding handle
failed_order-OrderInv = handle-OrderInv order (freeze 7) order-OrderInv tt

failed_order-IsOut : IsOut (find 7 failed_order.clients)
unfolding on_client_freeze find assign
failed_order-IsOut = refl

abbrev last_order : Order
last_order = (epoch failed_order).0

last_run : Reaches (Leaves 7) failed_order last_order
unfolding handle
last_run =
    step failed_order last_order last_order next_epoch (epoch failed_order).1 (tt, tt) refl
      (stop last_order)

failed-granted_example :
    length (slots_of 7 (add_entries new_log (shard_message last_order 0)))
    ≡ length (slots_of 7 new_log)
failed-granted_example =
    failed-granted 7 failed_order last_order 0 new_log (omega arith) failed_order-OrderInv
      failed_order-IsOut last_run new_log-WellLinked

-- The highest and the lowest replica agree, and the one between them has more.
uneven_cuts :
    decide order 7 (new_client 0 400) 5 (5 ∷ 9 ∷ 5 ∷ []) ≡ finish_client order 7 (new_client 0 400)
unfolding decide settle
uneven_cuts = refl

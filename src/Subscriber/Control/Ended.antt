-- ===== src/Subscriber/Control/Ended.antt =====
-- The thread `control` of src/subscriber/subscriber.cpp behind its last message.
use zip_log_ae.Base.{
  add64, erase, ℕ, ◌≡◌, refl, Bool, true, false, Option, none, some, not, ◌&&◌, ◌||◌, is_none, List,
  [], ◌∷◌, if◌then◌else◌, leb, ◌==◌, find, assign,
}
use zip_log_ae.Storage.Log.{update}
use zip_log_ae.Order.{num_shards}
use zip_log_ae.Subscriber.Control.{
  all_empty, check_end, count_finished, Control, Intro, count_of, finish_replica, on_storage_info,
  connect_storage,
}

-- A state in which the thread ends: the ordering server has finished.
pub record Ended (c : Control) : Type 0 where
  pub end : c.end ≡ true
  pub order : c.order_finished ≡ true
  pub process : c.process ≡ false

-- What ends the thread is not undone by the messages behind it.
pub record_if-Ended : (c d : Control) (b : Bool) → Ended c → Ended d → Ended (if b then c else d)
record_if-Ended c d true h k = h
record_if-Ended c d false h k = k

connect_storage-Ended : (c : Control) (o : Option Intro) → Ended c → Ended (connect_storage c o)
unfolding connect_storage
connect_storage-Ended c none h = h
connect_storage-Ended c (some intro) h =
    record_if-Ended c
      (record c {
        storage_queues =
            update c.storage_queues intro.shard_id
              (assign intro.replica_id intro.num_queues (c.storage_queues intro.shard_id));
      })
      (not intro.is_valid
        || (leb num_shards intro.shard_id
            || not (is_none (find intro.replica_id (c.storage_queues intro.shard_id)))))
      h (record { end = h.end; order = h.order; process = h.process })

pub on_storage_info-Ended :
    (c : Control) (intros : List (Option Intro)) → Ended c → Ended (on_storage_info c intros)
unfolding on_storage_info
on_storage_info-Ended c [] h = h
on_storage_info-Ended c (intro ∷ intros) h =
    on_storage_info-Ended (connect_storage c intro) intros (connect_storage-Ended c intro h)

check_end-Ended : (c : Control) → Ended c → Ended (check_end c)
check_end-Ended c h =
    record_if-Ended (record c { process = false; end = true }) c
      (c.order_finished && all_empty c.storage_queues num_shards 0)
      (record { end = refl; order = h.order; process = refl }) h

count_finished-Ended : (c : Control) (sid rid n : ℕ) → Ended c → Ended (count_finished c sid rid n)
unfolding count_finished
count_finished-Ended c sid rid n h =
    let count = add64 (count_of (find rid (c.storage_finished sid))) 1 in
    let counts = assign rid count (c.storage_finished sid) in
    record_if-Ended
      (record c {
        storage_finished = update c.storage_finished sid (erase rid counts);
        storage_queues = update c.storage_queues sid (erase rid (c.storage_queues sid));
      })
      (record c { storage_finished = update c.storage_finished sid counts }) (count == n)
      (record { end = h.end; order = h.order; process = h.process })
      (record { end = h.end; order = h.order; process = h.process })

pub finish_replica-Ended :
    (c : Control) (sid rid : ℕ) (o : Option ℕ) → Ended c → Ended (finish_replica c sid rid o)
finish_replica-Ended c sid rid none h = h
finish_replica-Ended c sid rid (some n) h =
    check_end-Ended (count_finished c sid rid n) (count_finished-Ended c sid rid n h)

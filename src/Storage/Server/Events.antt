-- ===== src/Storage/Server/Events.antt =====
-- The messages that the threads of src/storage/storage.cpp handle, each with its handler.
use zip_log_ae.Base.{ℕ, ◌<◌, ◌^◌, Bool, true, false, [], if◌then◌else◌}
use zip_log_ae.Storage.Slots.{StorageSlots}
use zip_log_ae.Storage.Log.{Bytes}
use zip_log_ae.Storage.Server.{
  Server, Outcome, done, waits, aborts, add_client, on_storage_slots, on_failure, on_client_freeze,
  on_client_cut, on_client_patch, on_client_finalize, on_storage_insert, on_client_finished,
}

-- The messages that a server handles, and a connection.
pub data Event : Type 0 where
  slots : StorageSlots → Event
  failure : ℕ → Event
  freeze : ℕ → Event
  cut : ℕ → ℕ → Event
  patch : ℕ → ℕ → Bytes → ℕ → Event
  finalize : ℕ → Event
  request : ℕ → ℕ → Bytes → ℕ → Event
  finished : ℕ → Event
  connect : ℕ → Event

unfoldable pub handle : Server → Event → Outcome
unfolding on_storage_slots on_failure on_client_freeze on_client_cut on_client_patch
    on_client_finalize on_storage_insert on_client_finished add_client
handle s (slots m) = on_storage_slots s m
handle s (failure c) = on_failure s c
handle s (freeze c) = on_client_freeze s c
handle s (cut c gsn) = on_client_cut s c gsn
handle s (patch c gsn buffer n) = on_client_patch s c gsn buffer n
handle s (finalize c) = on_client_finalize s c
handle s (request c num_slots buffer n) = on_storage_insert s c num_slots buffer n
handle s (finished c) = on_client_finished s c
handle s (connect c) = done (add_client s c) []

-- A client closes at least one slot, and the numbers are 64-bit words.
abbrev pub IsValid : Event → Type 0
IsValid (patch c gsn buffer n) = gsn < 2 ^ 64
IsValid (request c num_slots buffer n) = (0 < num_slots) × (num_slots < 2 ^ 64)
IsValid _ = Unit

-- What holds of the state after a handler, if it ends.
abbrev pub After : (Server → Type 0) → Outcome → Type 0
After P (done s ms) = P s
After P waits = Unit
After P aborts = Unit

pub After-if :
    (P : Server → Type 0) (b : Bool) (x y : Outcome)
    → After P x
    → After P y
    → After P (if b then x else y)
After-if P true x y p q = p
After-if P false x y p q = q

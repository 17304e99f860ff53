-- ===== src/Lock/Sender.antt =====
-- `request`, `acquire` and `release` of src/lock_service/lock_service.cpp up to the point where they
-- wait for their flag. Every request goes through the buffers of client 0, which are used in turn,
-- and the client of the log is given the buffer, not what it holds.
use zip_log_ae.Storage.Log.{update}
use zip_log_ae.Base.{ℕ, ◌+◌, ◌-◌, ◌%◌, ◌≤◌, ◌<◌, ◌≡◌, List, [], ◌∷◌, ◌++◌, length, arith}
use zip_log_ae.Lock.{lock, unlock, Request}

-- `kNumBuffers`
abbrev pub num_buffers : ℕ
num_buffers = 10

pub record Sender : Type 0 where
  pub buffer_idx : ℕ
  pub buffers : ℕ → Request
  pub inserted : List ℕ

-- `request`
unfoldable pub send_request : Sender → Request → Sender
send_request s r = record {
  buffer_idx = (s.buffer_idx + 1) % num_buffers;
  buffers = update s.buffers s.buffer_idx r;
  inserted = s.inserted ++ s.buffer_idx ∷ [];
}

-- `acquire` and `release`, with the address of the flag.
abbrev pub send_acquire : Sender → ℕ → ℕ → ℕ → Sender
send_acquire s client lock_key flag =
    send_request s record { action = lock; client = client; lock_key = lock_key; flag = flag }

abbrev pub send_release : Sender → ℕ → ℕ → ℕ → Sender
send_release s client lock_key flag =
    send_request s record { action = unlock; client = client; lock_key = lock_key; flag = flag }

unfoldable pub send_requests : Sender → List Request → Sender
send_requests s [] = s
send_requests s (r ∷ rs) = send_requests (send_request s r) rs

-- Fewer than ten requests later the buffer of a request still holds it.
untouched :
    (s : Sender) (rs : List Request) (i : ℕ) (r : Request)
    → s.buffer_idx < num_buffers
    → i < num_buffers
    → s.buffers i ≡ r
    → length rs ≤ (i + num_buffers - s.buffer_idx) % num_buffers
    → (send_requests s rs).buffers i ≡ r
unfolding send_requests send_request
untouched s [] i r small lt e le = e
untouched s (q ∷ rs) i r small lt e le =
    untouched (send_request s q) rs i r (omega arith) lt (ground (arith, e, le))
      (omega (arith, le, small, lt))

pub request-survives :
    (s : Sender) (r : Request) (rs : List Request)
    → s.buffer_idx < num_buffers
    → length rs < num_buffers
    → (send_requests s (r ∷ rs)).buffers s.buffer_idx ≡ r
unfolding send_requests send_request
request-survives s r rs small few =
    untouched (send_request s r) rs s.buffer_idx r (omega arith) small (ground arith)
      (omega (arith, few, small))

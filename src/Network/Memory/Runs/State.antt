-- ===== src/Network/Memory/Runs/State.antt =====
-- What holds of the holders of the memory of the manager (src/network/manager.cpp), and a step that
-- keeps it.
use zip_log_ae.Network.SendQueue.{receive_buffer_size, send_buffer_size}
use zip_log_ae.Network.Memory.{Handle, Region, find_first}
use zip_log_ae.Network.Memory.Objects.{
  Holders, QueuePair, Event, get, move_construct, move_assign, destroy, connect, disconnect,
  remove_at, step,
}
use zip_log_ae.Network.Memory.Cover.{sum, count_in, owned, covers, pages_in}
use zip_log_ae.Network.Memory.Send.{first_pages}
use zip_log_ae.Network.Memory.Shares.{total, idle}
use zip_log_ae.Network.Memory.Account.{Laid}
use zip_log_ae.Base.{
  ℕ, zero, suc, ◌+◌, ◌-◌, ◌≤◌, ◌<◌, ◌≡◌, refl, sym, Bool, true, false, none, some, List, [], ◌∷◌,
  if◌then◌else◌, ltb, arith, length, get_elem?, All,
}

-- A queue pair has the receive buffer at its index, and its peer has the same index for it.
abbrev pub IsAgreed : List Handle → QueuePair → Type 0
IsAgreed rooms q = (get_elem? rooms q.index ≡ some q.handle) × (q.remote_index ≡ q.index)

-- The bytes of the pages are those of the free send buffers, of the objects and of the receive
-- buffers, and each receive buffer belongs to a queue pair or has its bit set.
pub record Accounts (page : ℕ → Region) (s : Holders) : Type 0 where
  pub rooms : List Handle
  pub left : ℕ
  pub laid : Laid s.pools rooms left
  pub made : s.pools.page_list ≡ first_pages page (length s.pools.page_list)
  pub memory :
      (byte : ℕ)
      → count_in send_buffer_size byte s.pools.free_list
          + sum (owned (λ h. covers send_buffer_size byte h.0)) s.objects
          + count_in receive_buffer_size byte rooms
        ≡ pages_in byte s.pools.page_list
  pub known : All (IsAgreed rooms) s.queue_pairs
  pub shared :
      (w : ℕ → Handle → ℕ)
      → sum (λ q. w q.index q.handle) s.queue_pairs + idle w 0 s.pools.free_receive_buffers rooms
        ≡ total w 0 rooms

-- The number of queue pairs after a step.
abbrev pub pairs_after : Event → ℕ → ℕ
pairs_after (connect answer) n = n + 1
pairs_after (disconnect i) n = if ltb i n then n - 1 else n
pairs_after (get m) n = n
pairs_after (move_construct i) n = n
pairs_after (move_assign i j) n = n
pairs_after (destroy i) n = n

-- A step that does not abort.
pub record Proceeds (page : ℕ → Region) (s : Holders) (e : Event) : Type 0 where
  pub result : Holders
  pub yields : step page s e ≡ some result
  pub pairs : length result.queue_pairs ≡ pairs_after e (length s.queue_pairs)
  pub accounts : Accounts page result

module _ {ℓ κ} {A : Type ℓ} (P : A → Type κ) where
  pub All-get : (xs : List A) (i : ℕ) (x : A) → All P xs → get_elem? xs i ≡ some x → P x
  All-get [] i x h e = cc
  All-get (y ∷ ys) zero x h e = let same : y ≡ x = cc in rw (sym same) h.0
  All-get (y ∷ ys) (suc i) x h e = All-get ys i x h.1 e

  pub All-remove_at : (i : ℕ) (xs : List A) → All P xs → All P (remove_at i xs)
  unfolding remove_at
  All-remove_at i [] h = tt
  All-remove_at zero (x ∷ xs) h = h.1
  All-remove_at (suc i) (x ∷ xs) h = (h.0, All-remove_at i xs h.1)

  pub All-weaken {μ} : (Q : A → Type μ) (xs : List A) → ((x : A) → P x → Q x) → All P xs → All Q xs
  All-weaken Q [] f h = tt
  All-weaken Q (x ∷ xs) f h = (f x h.0, All-weaken Q xs f h.1)

pub length-remove_at {ℓ} :
    {A : Type ℓ} (xs : List A) (i : ℕ) (x : A)
    → get_elem? xs i ≡ some x
    → length (remove_at i xs) + 1 ≡ length xs
unfolding remove_at
length-remove_at [] i x e = cc
length-remove_at (y ∷ ys) zero x e = omega arith
length-remove_at (y ∷ ys) (suc i) x e = omega (arith, length-remove_at ys i x e)

pub get_none {ℓ} : {A : Type ℓ} (xs : List A) (i : ℕ) → get_elem? xs i ≡ none → length xs ≤ i
get_none [] i e = omega arith
get_none (y ∷ ys) zero e = cc
get_none (y ∷ ys) (suc i) e = omega (arith, get_none ys i e)

pub sum_one {ℓ} : {A : Type ℓ} (xs : List A) → sum (λ _. 1) xs ≡ length xs
sum_one [] = refl
sum_one (x ∷ xs) = omega (arith, sum_one xs)

pub find_first-before : (bs : List Bool) (i : ℕ) → i < find_first bs → get_elem? bs i ≡ some false
unfolding find_first
find_first-before [] i h = absurd (omega arith)
find_first-before (true ∷ bs) i h = absurd (omega arith)
find_first-before (false ∷ bs) zero h = refl
find_first-before (false ∷ bs) (suc i) h = find_first-before bs i (omega (arith, h))

-- ===== src/Network/Memory/Runs.antt =====
-- Runs of the holders of the memory of the manager (src/network/manager.cpp, src/network/buffer.h).
mod State
mod Buffers
mod Steps
use zip_log_ae.Network.SendQueue.{max_queue_pairs, receive_buffer_size, send_buffer_size}
use zip_log_ae.Network.Memory.{Handle, Region, Pools, new_pools, huge_page_size}
use zip_log_ae.Network.Memory.Objects.{
  Holders, Event, get, move_construct, move_assign, destroy, connect, disconnect, remove_at, step,
  run,
}
use zip_log_ae.Network.Memory.Cover.{sum, sum-append, count_in, owned, owned_sum, covers, pages_in}
use zip_log_ae.Network.Memory.Send.{first_pages}
use zip_log_ae.Network.Memory.Receive.{get-replicate}
use zip_log_ae.Network.Memory.Shares.{idle, total-sum, total-is_index, is_index}
use State.{Accounts, pairs_after}
use Steps.{step-Proceeds, HasRoom}
use zip_log_ae.Base.{
  ℕ, zero, suc, ◌+◌, ◌-◌, ◌*◌, ◌≤◌, ◌<◌, ◌≡◌, ◌≢◌, refl, sym, ◌∙◌, ap, Bool, true, false, Option,
  none, some, List, [], ◌∷◌, ◌++◌, ◌⊎◌, inl, inr, Bool-cases, if◌then◌else◌, ltb, leb, arith,
  length, get_elem?, All, map,
}

abbrev pub new_holders : Holders
new_holders = record { pools = new_pools; objects = []; queue_pairs = [] }

-- Never more than `max_queue_pairs` queue pairs at a time, from a number of them on, and every peer
-- has the same index for a connection.
unfoldable pub Fits : ℕ → List Event → Type 0
Fits n [] = Unit
Fits n (connect answer ∷ es) =
    ((n < max_queue_pairs) × ((i : ℕ) → answer i ≡ i)) × Fits (pairs_after (connect answer) n) es
Fits n (disconnect i ∷ es) = Fits (pairs_after (disconnect i) n) es
Fits n (get m ∷ es) = Fits n es
Fits n (move_construct i ∷ es) = Fits n es
Fits n (move_assign i j ∷ es) = Fits n es
Fits n (destroy i ∷ es) = Fits n es

-- Pages that do not overlap.
abbrev pub Apart : (ℕ → Region) → Type 0
Apart page =
    (i j : ℕ)
    → i < j
    → ((page i).address + huge_page_size ≤ (page j).address)
      ⊎ ((page j).address + huge_page_size ≤ (page i).address)

module _ (page : ℕ → Region) (apart : Apart page) where
  earlier :
      (n k byte : ℕ)
      → k ≤ n
      → covers huge_page_size byte (page n).address ≡ 1
      → pages_in byte (first_pages page k) ≡ 0
  earlier n zero byte le e = refl
  earlier n (suc k) byte le e = ground (
    arith,
    sum-append (λ r. covers huge_page_size byte r.address) (first_pages page k) (page k ∷ []),
    earlier n k byte (omega arith) e,
    apart k n (omega arith),
    e,
  )

  pub pages-apart : (n byte : ℕ) → pages_in byte (first_pages page n) ≤ 1
  pages-apart zero byte = omega arith
  pages-apart (suc n) byte = ground (
    arith,
    sum-append (λ r. covers huge_page_size byte r.address) (first_pages page n) (page n ∷ []),
    pages-apart n byte,
    earlier n n byte (omega arith),
  )

first-HasRoom :
    (page : ℕ → Region) (s : Holders) (a : Accounts page s) (e : Event) (es : List Event)
    → Fits (length s.queue_pairs) (e ∷ es)
    → HasRoom page s a e × Fits (pairs_after e (length s.queue_pairs)) es
unfolding Fits
first-HasRoom page s a (get n) es f = (tt, f)
first-HasRoom page s a (move_construct i) es f = (tt, f)
first-HasRoom page s a (move_assign i j) es f = (tt, f)
first-HasRoom page s a (destroy i) es f = (tt, f)
first-HasRoom page s a (connect answer) es f = f
first-HasRoom page s a (disconnect i) es f = (tt, f)

record Runs (page : ℕ → Region) (s : Holders) (es : List Event) : Type 0 where
  result : Holders
  yields : run page s es ≡ some result
  accounts : Accounts page result

run-Runs :
    (page : ℕ → Region) (s : Holders) (es : List Event)
    → Accounts page s
    → Fits (length s.queue_pairs) es
    → Runs page s es
unfolding run
run-Runs page s [] a f = record { result = s; yields = refl; accounts = a }
run-Runs page s (e ∷ es) a f =
    let (room, f') = first-HasRoom page s a e es f in
    let t = step-Proceeds page s a e room in
    let rest = run-Runs page t.result es t.accounts (rw t.pairs f') in
    record {
      result = rest.result;
      yields = rw (run, t.yields) rest.yields;
      accounts = rest.accounts;
    }

pub new-Accounts : (page : ℕ → Region) → Accounts page new_holders
unfolding idle
new-Accounts page = record {
  rooms = [];
  left = 256;
  laid = record {
    buffers = refl;
    keys = refl;
    long = refl;
    bits = refl;
    unused = λ i le lt. get-replicate max_queue_pairs i true lt;
  };
  made = refl;
  memory = λ byte. refl;
  known = tt;
  shared = λ w. refl;
}

-- Each byte belongs to one holder at most, and each index to one queue pair.
pub record Divided (page : ℕ → Region) (es : List Event) : Type 0 where
  pub result : Holders
  pub yields : run page new_holders es ≡ some result
  pub apart :
      (byte : ℕ)
      → count_in send_buffer_size byte result.pools.free_list
          + sum (owned (λ h. covers send_buffer_size byte h.0)) result.objects
          + sum (λ q. covers receive_buffer_size byte q.handle.0) result.queue_pairs
        ≤ 1
  pub unique : (i : ℕ) → sum (λ q. is_index i q.index q.handle) result.queue_pairs ≤ 1

at_most_one : (k : ℕ) → (if leb 0 k then 1 else 0) ≤ 1
at_most_one k = ground arith

-- When the huge pages do not overlap, there are never more than 2048 queue pairs, and every peer
-- has the same index for a connection as this side, no sequence of getting send buffers, moving
-- and destroying their objects, connecting and disconnecting aborts; and after it every byte lies
-- in one at most of the free send buffers, the send buffers that objects own and the receive
-- buffers of the queue pairs, and no two queue pairs have the same index.
pub run-Divided : (page : ℕ → Region) (es : List Event) → Apart page → Fits 0 es → Divided page es
run-Divided page es apart f =
    let r = run-Runs page new_holders es (new-Accounts page) f in
    let a = r.accounts in
    record {
      result = r.result;
      yields = r.yields;
      apart = λ byte.
          let few : pages_in byte r.result.pools.page_list ≤ 1 =
            rw a.made (pages-apart page apart (length r.result.pools.page_list) byte) in
          omega (
            arith,
            few,
            a.memory byte,
            a.shared (λ i h. covers receive_buffer_size byte h.0),
            total-sum (λ h. covers receive_buffer_size byte h.0) 0 a.rooms,
          );
      unique = λ i. omega (arith, a.shared (is_index i), total-is_index i 0 a.rooms, at_most_one i);
    }

-- ===== src/Network/Memory/Shares.antt =====
-- How the receive buffers of the manager (src/network/manager.cpp) divide into those of the queue
-- pairs and those whose bit in `free_receive_buffers_` is set.
use zip_log_ae.Network.Memory.{Handle}
use zip_log_ae.Network.Memory.Objects.{replace}
use zip_log_ae.Network.Memory.Cover.{sum}
use zip_log_ae.Base.{
  ℕ, zero, suc, ◌+◌, ◌≤◌, ◌<◌, ◌≡◌, refl, Bool, true, false, some, List, [], ◌∷◌, ◌++◌,
  if◌then◌else◌, leb, ◌==◌, arith, length, get_elem?,
}

module _ (w : ℕ → Handle → ℕ) where
  -- The weights of all receive buffers, and of those whose bit is set, from an index on.
  abbrev pub total : ℕ → List Handle → ℕ
  total i [] = 0
  total i (h ∷ hs) = w i h + total (i + 1) hs

  unfoldable pub idle : ℕ → List Bool → List Handle → ℕ
  idle i bits [] = 0
  idle i [] (h ∷ hs) = 0
  idle i (true ∷ bits) (h ∷ hs) = w i h + idle (i + 1) bits hs
  idle i (false ∷ bits) (h ∷ hs) = idle (i + 1) bits hs

  abbrev weight_if : Bool → ℕ → Handle → ℕ
  weight_if b i h = if b then w i h else 0

  idle_cons :
      (i : ℕ) (b : Bool) (bits : List Bool) (h : Handle) (hs : List Handle)
      → idle i (b ∷ bits) (h ∷ hs) ≡ weight_if b i h + idle (i + 1) bits hs
  unfolding idle
  idle_cons i true bits h hs = refl
  idle_cons i false bits h hs = omega arith

  pub idle-replace :
      (i k : ℕ) (bits : List Bool) (hs : List Handle) (u v : Bool) (h : Handle)
      → get_elem? bits k ≡ some u
      → get_elem? hs k ≡ some h
      → idle i (replace k v bits) hs + weight_if u (i + k) h
        ≡ idle i bits hs + weight_if v (i + k) h
  unfolding replace
  idle-replace i k [] hs u v h e f = cc
  idle-replace i k (b ∷ bits) [] u v h e f = cc
  idle-replace i zero (b ∷ bits) (g ∷ gs) u v h e f =
      let eu : b ≡ u = cc in
      let eh : g ≡ h = cc in
      let at : i + 0 ≡ i = omega arith in
      rw (eu, eh, at) (omega (arith, idle_cons i v bits h gs, idle_cons i u bits h gs))
  idle-replace i (suc k) (b ∷ bits) (g ∷ gs) u v h e f =
      let at : i + suc k ≡ i + 1 + k = omega arith in
      rw at (
        omega (
          arith,
          idle_cons i b (replace k v bits) g gs,
          idle_cons i b bits g gs,
          idle-replace (i + 1) k bits gs u v h e f,
        ))

  pub total-append :
      (i : ℕ) (hs gs : List Handle) → total i (hs ++ gs) ≡ total i hs + total (i + length hs) gs
  total-append i [] gs = let at : i + 0 ≡ i = omega arith in rw at (omega arith)
  total-append i (h ∷ hs) gs =
      let at : i + suc (length hs) ≡ i + 1 + length hs = omega arith in
      rw at (omega (arith, total-append (i + 1) hs gs))

  all_idle :
      (i : ℕ) (bits : List Bool) (hs : List Handle)
      → ((j : ℕ) → j < length hs → get_elem? bits j ≡ some true)
      → idle i bits hs ≡ total i hs
  unfolding idle
  all_idle i bits [] h = refl
  all_idle i [] (g ∷ gs) h = let e = h 0 (omega arith) in cc
  all_idle i (true ∷ bits) (g ∷ gs) h =
      omega (arith, all_idle (i + 1) bits gs (λ j lt. h (suc j) (omega (arith, lt))))
  all_idle i (false ∷ bits) (g ∷ gs) h = let e = h 0 (omega arith) in cc

  pub idle-append :
      (i : ℕ) (bits : List Bool) (hs gs : List Handle)
      → ((j : ℕ) → length hs ≤ j → j < length hs + length gs → get_elem? bits j ≡ some true)
      → length hs ≤ length bits
      → idle i bits (hs ++ gs) ≡ idle i bits hs + total (i + length hs) gs
  unfolding idle
  idle-append i bits [] gs h le =
      let at : i + 0 ≡ i = omega arith in
      rw at (omega (arith, all_idle i bits gs (λ j lt. h j (omega arith) (omega (arith, lt)))))
  idle-append i [] (x ∷ xs) gs h le = absurd (omega arith)
  idle-append i (b ∷ bits) (x ∷ xs) gs h le =
      let at : i + suc (length xs) ≡ i + 1 + length xs = omega arith in
      let rest =
        idle-append (i + 1) bits xs gs (λ j l lt. h (suc j) (omega (arith, l)) (omega (arith, lt)))
          (omega (arith, le)) in
      rw at (omega (arith, idle_cons i b bits x (xs ++ gs), idle_cons i b bits x xs, rest))

  pub idle_none :
      (i : ℕ) (bits : List Bool) (hs : List Handle)
      → ((j : ℕ) → j < length hs → get_elem? bits j ≡ some false)
      → idle i bits hs ≡ 0
  unfolding idle
  idle_none i bits [] h = refl
  idle_none i [] (g ∷ gs) h = refl
  idle_none i (false ∷ bits) (g ∷ gs) h =
      idle_none (i + 1) bits gs (λ j lt. h (suc j) (omega (arith, lt)))
  idle_none i (true ∷ bits) (g ∷ gs) h = let e = h 0 (omega arith) in cc

  idle_at :
      (i k : ℕ) (bits : List Bool) (hs : List Handle) (h : Handle)
      → get_elem? bits k ≡ some true
      → get_elem? hs k ≡ some h
      → w (i + k) h ≤ idle i bits hs
  unfolding idle
  idle_at i k [] hs h e f = cc
  idle_at i k (b ∷ bits) [] h e f = cc
  idle_at i zero (b ∷ bits) (g ∷ gs) h e f =
      let eb : b ≡ true = cc in
      let eh : g ≡ h = cc in
      let at : i + 0 ≡ i = omega arith in
      rw (eb, eh, at) (omega (arith, idle_cons i true bits h gs))
  idle_at i (suc k) (b ∷ bits) (g ∷ gs) h e f =
      let at : i + suc k ≡ i + 1 + k = omega arith in
      rw at (omega (arith, idle_cons i b bits g gs, idle_at (i + 1) k bits gs h e f))

  pub idle_use :
      (k : ℕ) (bits : List Bool) (hs : List Handle) (h : Handle)
      → get_elem? bits k ≡ some true
      → get_elem? hs k ≡ some h
      → idle 0 (replace k false bits) hs + w k h ≡ idle 0 bits hs
  idle_use k bits hs h e f =
      let zero_add : 0 + k ≡ k = omega arith in
      let r : idle 0 (replace k false bits) hs + w (0 + k) h ≡ idle 0 bits hs + 0 =
        idle-replace 0 k bits hs true false h e f in
      omega (arith, rw zero_add at r)

  pub idle_free :
      (k : ℕ) (bits : List Bool) (hs : List Handle) (h : Handle)
      → get_elem? bits k ≡ some false
      → get_elem? hs k ≡ some h
      → idle 0 (replace k true bits) hs ≡ idle 0 bits hs + w k h
  idle_free k bits hs h e f =
      let zero_add : 0 + k ≡ k = omega arith in
      let r : idle 0 (replace k true bits) hs + 0 ≡ idle 0 bits hs + w (0 + k) h =
        idle-replace 0 k bits hs false true h e f in
      omega (arith, rw zero_add at r)

  pub idle_first :
      (k : ℕ) (bits : List Bool) (hs : List Handle) (h : Handle)
      → get_elem? bits k ≡ some true
      → get_elem? hs k ≡ some h
      → w k h ≤ idle 0 bits hs
  idle_first k bits hs h e f =
      let zero_add : 0 + k ≡ k = omega arith in rw zero_add at (idle_at 0 k bits hs h e f)

pub total-sum : (f : Handle → ℕ) (i : ℕ) (hs : List Handle) → total (λ _ h. f h) i hs ≡ sum f hs
total-sum f i [] = refl
total-sum f i (h ∷ hs) = omega (arith, total-sum f (i + 1) hs)

-- 1 for the receive buffer of one index.
abbrev pub is_index : ℕ → ℕ → Handle → ℕ
is_index k i h = if i == k then 1 else 0

pub total-is_index :
    (k i : ℕ) (hs : List Handle) → total (is_index k) i hs ≤ (if leb i k then 1 else 0)
total-is_index k i [] = omega arith
total-is_index k i (h ∷ hs) = ground (arith, total-is_index k (i + 1) hs)

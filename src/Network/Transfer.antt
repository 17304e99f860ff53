-- ===== src/Network/Transfer.antt =====
-- The functions `detail::send` and `detail::recv` of src/network/manager.cpp. The socket calls of
-- the system are the parameters `sys_send` and `sys_recv`; a socket has a state, since it keeps
-- the bytes that it has taken and those that have arrived.
pub mod Laws
pub mod Receiving
use zip_log_ae.Base.{
  ℕ, zero, suc, ◌+◌, ◌-◌, Bool, true, false, Option, none, some, List, [], ◌∷◌, ◌++◌, if◌then◌else◌,
  ltb, length,
}

-- What a system call returns: -1 and `errno`, or a result and the socket after the call.
pub data Outcome (S A : Type 0) : Type 0 where
  failed : ℕ → Outcome S A
  done : S → A → Outcome S A

abbrev pub skip {ℓ} : {A : Type ℓ} → ℕ → List A → List A
skip zero xs = xs
skip (suc n) [] = []
skip (suc n) (x ∷ xs) = skip n xs

module _ {S : Type 0} (sys_send : S → List ℕ → Outcome S ℕ) where
  -- The loop of `detail::send`; `none` when the fuel is used up.
  unfoldable pub send_from : ℕ → S → List ℕ → ℕ → Option (Outcome S (Unit))
  send_from zero s buffer offset = none
  send_from (suc fuel) s buffer offset = elim (ltb offset (length buffer)) [
    | false ↦ some (done s tt)
    | true ↦ elim (sys_send s (skip offset buffer)) [
      | failed errno ↦ some (failed errno)
      | done t sent ↦ send_from fuel t buffer (offset + sent)
    ]
  ]

  -- `detail::send`
  unfoldable pub send : ℕ → S → List ℕ → Option (Outcome S (Unit))
  send fuel s buffer = send_from fuel s buffer 0

module _ {S : Type 0} (sys_recv : S → ℕ → Outcome S (List ℕ)) where
  -- The loop of `detail::recv`: `got` is what stands in the buffer before `offset`.
  unfoldable pub recv_from : ℕ → S → ℕ → List ℕ → Option (Outcome S (List ℕ))
  recv_from zero s count got = none
  recv_from (suc fuel) s count got = elim (ltb (length got) count) [
    | false ↦ some (done s got)
    | true ↦ elim (sys_recv s (count - length got)) [
      | failed errno ↦ some (failed errno)
      | done t received ↦ recv_from fuel t count (got ++ received)
    ]
  ]

  -- `detail::recv`
  unfoldable pub recv : ℕ → S → ℕ → Option (Outcome S (List ℕ))
  recv fuel s count = recv_from fuel s count []

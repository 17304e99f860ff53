-- ===== src/Network/Transfer/Receiving.antt =====
-- What `detail::recv` of src/network/manager.cpp does on a socket that yields bytes until the peer has
-- closed its side.
use zip_log_ae.Base.{
  append_assoc, ℕ, zero, suc, ◌+◌, ◌-◌, ◌≤◌, ◌<◌, ◌≡◌, refl, sym, ap, ◌∙◌, true, Option, none, some,
  List, [], ◌++◌, ltb, leb, ◌⊎◌, length, length-append, arith, inl, inr, Bool-cases,
}
use zip_log_ae.Network.Transfer.{Outcome, failed, done, recv, recv_from}

module _ {S : Type 0} (waiting : S → List ℕ) where
  -- A call for `n` bytes yields some of those that come next when it does not fail, and none only
  -- when the peer has closed its side and none is left.
  abbrev pub Yields : S → ℕ → Outcome S (List ℕ) → Type 0
  Yields s n (failed errno) = Unit
  Yields s n (done t xs) =
      (length xs ≤ n) × (waiting s ≡ xs ++ waiting t) × (length xs ≡ 0 → length (waiting s) ≡ 0)

  abbrev pub Receives : S → ℕ → Option (Outcome S (List ℕ)) → Type 0
  Receives s n none = ⊥
  Receives s n (some (failed errno)) = Unit
  Receives s n (some (done t xs)) = (length xs ≡ n) × (waiting s ≡ xs ++ waiting t)

  -- The loop goes on, or a call fails.
  abbrev pub Starves : Option (Outcome S (List ℕ)) → Type 0
  Starves none = Unit
  Starves (some (failed errno)) = Unit
  Starves (some (done t xs)) = ⊥

  -- What the peer sends before it closes its side is enough, or it is not.
  abbrev pub Ends : S → ℕ → ℕ → (ℕ → Option (Outcome S (List ℕ))) → Type 0
  Ends s count fuel run =
      ((count ≤ length (waiting s)) × Receives s count (run fuel))
      ⊎ ((length (waiting s) < count) × ((n : ℕ) → Starves (run n)))

module _ {S : Type 0} (sys_recv : S → ℕ → Outcome S (List ℕ)) (waiting : S → List ℕ)
    (yields : (s : S) (n : ℕ) → 0 < n → Yields waiting s n (sys_recv s n)) where
  -- The bytes in the buffer and those that wait are `stream`.
  abbrev Collects : List ℕ → ℕ → Option (Outcome S (List ℕ)) → Type 0
  Collects stream count none = ⊥
  Collects stream count (some (failed errno)) = Unit
  Collects stream count (some (done t xs)) = (length xs ≡ count) × (stream ≡ xs ++ waiting t)

  recv_round :
      (rest : S → List ℕ → Option (Outcome S (List ℕ))) (s : S) (got : List ℕ) (count : ℕ)
      (o : Outcome S (List ℕ))
      → ((t : S) (xs : List ℕ)
          → Yields waiting s (count - length got) (done t xs)
          → Collects ((got ++ xs) ++ waiting t) count (rest t xs))
      → Yields waiting s (count - length got) o
      → Collects
          (got ++ waiting s)
          count
          (elim o [ failed errno ↦ some (failed errno) | done t xs ↦ rest t xs ])
  recv_round rest s got count (failed errno) ih h = tt
  recv_round rest s got count (done t xs) ih h =
      let (small, next, last) = h in rw (next, sym (append_assoc got xs (waiting t))) (ih t xs h)

  -- The bytes that are left after a call.
  length-waiting :
      (s t : S) (xs : List ℕ)
      → waiting s ≡ xs ++ waiting t
      → length (waiting s) ≡ length xs + length (waiting t)
  length-waiting s t xs e = ap length e ∙ length-append xs (waiting t)

  recv_from-Collects :
      (fuel : ℕ) (s : S) (count : ℕ) (got : List ℕ)
      → length got ≤ count
      → count ≤ length got + length (waiting s)
      → count < fuel + length got
      → Collects (got ++ waiting s) count (recv_from sys_recv fuel s count got)
  unfolding recv_from
  recv_from-Collects zero s count got le there enough = absurd (omega arith)
  recv_from-Collects (suc fuel) s count got le there enough =
      elim (Bool-cases (ltb (length got) count)) [
        | inr e ↦ rw (e, recv_from) (ground arith, refl)
        | inl e ↦
            rw (e, recv_from)
              (recv_round (λ t xs. recv_from sys_recv fuel t count (got ++ xs)) s got count
                (sys_recv s (count - length got))
                (λ t xs (small, next, last).
                  let l = length-append got xs in
                  let w = length-waiting s t xs next in
                  let pos : 0 < length xs = ground (arith, last, there, e) in
                  recv_from-Collects fuel t count (got ++ xs) (omega (arith, l))
                    (omega (arith, l, w)) (omega (arith, l, pos)))
                (yields s (count - length got) (ground arith)))
      ]

  starve_round :
      (rest : S → List ℕ → Option (Outcome S (List ℕ))) (s : S) (n : ℕ) (o : Outcome S (List ℕ))
      → ((t : S) (xs : List ℕ) → waiting s ≡ xs ++ waiting t → Starves waiting (rest t xs))
      → Yields waiting s n o
      → Starves waiting (elim o [ failed errno ↦ some (failed errno) | done t xs ↦ rest t xs ])
  starve_round rest s n (failed errno) ih h = tt
  starve_round rest s n (done t xs) ih (small, next, last) = ih t xs next

  recv_from-Starves :
      (fuel : ℕ) (s : S) (count : ℕ) (got : List ℕ)
      → length got + length (waiting s) < count
      → Starves waiting (recv_from sys_recv fuel s count got)
  unfolding recv_from
  recv_from-Starves zero s count got short = tt
  recv_from-Starves (suc fuel) s count got short =
      let e : ltb (length got) count ≡ true = ground arith in
      rw (e, recv_from)
        (starve_round (λ t xs. recv_from sys_recv fuel t count (got ++ xs)) s (count - length got)
          (sys_recv s (count - length got))
          (λ t xs next.
            recv_from-Starves fuel t count (got ++ xs)
              (omega (arith, length-append got xs, length-waiting s t xs next)))
          (yields s (count - length got) (ground arith)))

  to_Receives :
      (s : S) (count : ℕ) (r : Option (Outcome S (List ℕ)))
      → Collects (waiting s) count r
      → Receives waiting s count r
  to_Receives s count none h = h
  to_Receives s count (some (failed errno)) h = h
  to_Receives s count (some (done t xs)) h = h

  -- `recv` ends when the peer sends as many bytes as are asked for, and only then.
  pub recv-Ends :
      (fuel : ℕ) (s : S) (count : ℕ)
      → count < fuel
      → Ends waiting s count fuel (λ n. recv sys_recv n s count)
  unfolding recv
  recv-Ends fuel s count enough = elim (Bool-cases (leb count (length (waiting s)))) [
    | inl e ↦
        let there : count ≤ length (waiting s) = ground (arith, e) in
        inl (
          there,
          to_Receives s count (recv_from sys_recv fuel s count []) (
              recv_from-Collects fuel s count [] (omega arith) (omega (arith, there))
                (omega arith)),
        )
    | inr e ↦
        let short : length (waiting s) < count = ground (arith, e) in
        inr (short, λ n. recv_from-Starves n s count [] (omega (arith, short)))
  ]

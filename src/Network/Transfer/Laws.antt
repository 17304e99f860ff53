-- ===== src/Network/Transfer/Laws.antt =====
-- What `detail::send` and `detail::recv` of src/network/manager.cpp promise of a socket whose calls
-- make progress.
use zip_log_ae.Base.{
  append_assoc, append-nil, ℕ, zero, suc, ◌+◌, ◌-◌, ◌≤◌, ◌<◌, ◌≡◌, refl, sym, ap, ◌∙◌, Option, none,
  some, List, [], ◌∷◌, ◌++◌, ltb, length, take, arith, inl, inr, Bool-cases,
}
use zip_log_ae.Network.Transfer.{Outcome, failed, done, skip, send, send_from}

skip_all : (xs : List ℕ) (n : ℕ) → length xs ≤ n → skip n xs ≡ []
skip_all [] zero h = refl
skip_all [] (suc n) h = refl
skip_all (x ∷ xs) zero h = absurd (omega arith)
skip_all (x ∷ xs) (suc n) h = skip_all xs n (omega arith)

take-skip : (xs : List ℕ) (n : ℕ) → take n xs ++ skip n xs ≡ xs
take-skip xs zero = refl
take-skip [] (suc n) = refl
take-skip (x ∷ xs) (suc n) = ap (◌∷◌ x) (take-skip xs n)

skip_empty : (n : ℕ) → skip {A = ℕ} n [] ≡ []
skip_empty zero = refl
skip_empty (suc n) = refl

pub skip-skip : (xs : List ℕ) (m n : ℕ) → skip n (skip m xs) ≡ skip (m + n) xs
skip-skip xs zero n = ap (λ k. skip k xs) (omega arith)
skip-skip [] (suc m) n = skip_empty n ∙ sym (skip_empty (suc m + n))
skip-skip (x ∷ xs) (suc m) n =
    skip-skip xs m n ∙ ap (λ k. skip k (x ∷ xs)) {x = suc (m + n)} {y = suc m + n} (omega arith)

length-skip : (xs : List ℕ) (n : ℕ) → length (skip n xs) ≡ length xs - n
length-skip xs zero = omega arith
length-skip [] (suc n) = omega arith
length-skip (x ∷ xs) (suc n) = omega (arith, length-skip xs n)

module _ {S : Type 0} (sent : S → List ℕ) where
  -- A call with data takes some of it, in order, when it does not fail.
  abbrev pub Takes : S → List ℕ → Outcome S ℕ → Type 0
  Takes s bytes (failed errno) = Unit
  Takes s bytes (done t n) = (0 < n) × (n ≤ length bytes) × (sent t ≡ sent s ++ take n bytes)

  -- The loop ends: it fails, or everything was taken.
  abbrev pub Delivers : S → List ℕ → Option (Outcome S (Unit)) → Type 0
  Delivers s bytes none = ⊥
  Delivers s bytes (some (failed errno)) = Unit
  Delivers s bytes (some (done t u)) = sent t ≡ sent s ++ bytes

module _ {S : Type 0} (sys_send : S → List ℕ → Outcome S ℕ) (sent : S → List ℕ)
    (takes : (s : S) (bytes : List ℕ)
      → 0 < length bytes
      → Takes sent s bytes (sys_send s bytes)) where
  -- What was taken, and then the rest.
  send_more :
      (s t : S) (bytes : List ℕ) (n : ℕ) (r : Option (Outcome S Unit))
      → sent t ≡ sent s ++ take n bytes
      → Delivers sent t (skip n bytes) r
      → Delivers sent s bytes r
  send_more s t bytes n none e d = d
  send_more s t bytes n (some (failed errno)) e d = tt
  send_more s t bytes n (some (done u v)) e d =
      d
      ∙ ap (λ xs. xs ++ skip n bytes) e
      ∙ append_assoc (sent s) (take n bytes) (skip n bytes)
      ∙ ap (◌++◌ (sent s)) (take-skip bytes n)

  send_round :
      (rest : S → ℕ → Option (Outcome S Unit)) (s : S) (bytes : List ℕ) (o : Outcome S ℕ)
      → ((t : S) (n : ℕ) → 0 < n → n ≤ length bytes → Delivers sent t (skip n bytes) (rest t n))
      → Takes sent s bytes o
      → Delivers sent s bytes (elim o [ failed errno ↦ some (failed errno) | done t n ↦ rest t n ])
  send_round rest s bytes (failed errno) ih h = tt
  send_round rest s bytes (done t n) ih (pos, le, e) =
      send_more s t bytes n (rest t n) e (ih t n pos le)

  send_from-Delivers :
      (fuel : ℕ) (s : S) (buffer : List ℕ) (offset : ℕ)
      → offset ≤ length buffer
      → length buffer < fuel + offset
      → Delivers sent s (skip offset buffer) (send_from sys_send fuel s buffer offset)
  unfolding send_from
  send_from-Delivers zero s buffer offset le enough = absurd (omega arith)
  send_from-Delivers (suc fuel) s buffer offset le enough =
      elim (Bool-cases (ltb offset (length buffer))) [
        | inr e ↦
            rw (e, send_from, skip_all buffer offset (ground arith)) (sym (append-nil (sent s)))
        | inl e ↦
            let l = length-skip buffer offset in
            rw (e, send_from)
              (send_round (λ t n. send_from sys_send fuel t buffer (offset + n)) s
                (skip offset buffer) (sys_send s (skip offset buffer))
                (λ t n pos small.
                  rw (skip-skip buffer offset n) (
                    send_from-Delivers fuel t buffer (offset + n) (omega (arith, l)) (omega arith)))
                (takes s (skip offset buffer) (ground (arith, l))))
      ]

  -- When every call of the system that has data to send fails or takes some of it, in order, and at
  -- most all of it, then `send` ends within as many rounds as there are bytes and one, and either
  -- fails or has sent exactly the bytes of the buffer, in order.
  pub send-Delivers :
      (fuel : ℕ) (s : S) (buffer : List ℕ)
      → length buffer < fuel
      → Delivers sent s buffer (send sys_send fuel s buffer)
  unfolding send
  send-Delivers fuel s buffer enough =
      send_from-Delivers fuel s buffer 0 (omega arith) (omega arith)

-- ===== src/Util/Concurrent/Fifo.antt =====
-- A first-in-first-out sequence with a producer that adds an element in two steps, as the queue and
-- the bag of src/util/concurrent.h do.
use zip_log_ae.Base.{
  append_assoc, ℕ, zero, suc, ◌≡◌, refl, sym, ap, ◌∙◌, Option, List, [], ◌∷◌, ◌++◌, length,
  get_elem?, head?, length-append, arith,
}
use zip_log_ae.Util.Concurrent.{Step, emplace, publish, poll}

module _ {ℓ} {A : Type ℓ} where
  abbrev pub tail : List A → List A
  tail [] = []
  tail (x ∷ xs) = xs

  -- A pure sequence: what the producer has added but not published, and what the consumer can take.
  unfoldable pub fifo_answers : List A → List A → List (Step A) → List (Option A)
  fifo_answers ready pending [] = []
  fifo_answers ready pending (emplace x ∷ steps) = fifo_answers ready (pending ++ (x ∷ [])) steps
  fifo_answers ready [] (publish ∷ steps) = fifo_answers ready [] steps
  fifo_answers ready (x ∷ pending) (publish ∷ steps) =
      fifo_answers (ready ++ (x ∷ [])) pending steps
  fifo_answers ready pending (poll ∷ steps) = head? ready ∷ fifo_answers (tail ready) pending steps

  -- A producer publishes what it has added: `n` elements are added and not published.
  abbrev pub Produced : ℕ → List (Step A) → Type 0
  Produced n [] = Unit
  Produced n (emplace x ∷ steps) = Produced (suc n) steps
  Produced zero (publish ∷ steps) = ⊥
  Produced (suc n) (publish ∷ steps) = Produced n steps
  Produced n (poll ∷ steps) = Produced n steps

  pub get-append : (xs ys : List A) → get_elem? (xs ++ ys) (length xs) ≡ head? ys
  get-append [] [] = refl
  get-append [] (y ∷ ys) = refl
  get-append (x ∷ xs) ys = get-append xs ys

  pub length-snoc : (xs : List A) (x : A) → length (xs ++ (x ∷ [])) ≡ suc (length xs)
  length-snoc xs x = omega (arith, length-append xs (x ∷ []))

  pub add_last :
      (old ready pending : List A) (x : A)
      → (old ++ (ready ++ pending)) ++ (x ∷ []) ≡ old ++ (ready ++ (pending ++ (x ∷ [])))
  add_last old ready pending x =
      append_assoc old (ready ++ pending) (x ∷ [])
      ∙ ap (◌++◌ old) (append_assoc ready pending (x ∷ []))

  pub make_ready :
      (old ready pending : List A) (x : A)
      → old ++ (ready ++ (x ∷ pending)) ≡ old ++ ((ready ++ (x ∷ [])) ++ pending)
  make_ready old ready pending x = ap (◌++◌ old) (sym (append_assoc ready (x ∷ []) pending))

  pub make_ready_first :
      (old ready pending : List A) (x : A)
      → old ++ (x ∷ (ready ++ pending)) ≡ (old ++ (x ∷ [])) ++ (ready ++ pending)
  make_ready_first old ready pending x = sym (append_assoc old (x ∷ []) (ready ++ pending))

-- ===== src/Storage/Slots/Simulation.antt =====
-- Two runs of the interleaving loop of src/storage/log.cpp, with different actions.
use zip_log_ae.Base.{ℕ, zero, suc, ◌≡◌, refl, ap, inl, inr, List, [], ◌∷◌, Bool-cases}
use zip_log_ae.Storage.Slots.{Assignment, Secondary, is_due, advance, secondaries, rounds, generate}

module _ {ℓ κ μ} {S : Type ℓ} {T : Type κ} (f : ℕ → S → S) (g : ℕ → T → T) (R : S → T → Type μ)
    (keep : (c : ℕ) (s : S) (t : T) → R s t → R (f c s) (g c t)) where
  secondaries-sim :
      (n0 : ℕ) (xs : List Secondary) (s : S) (t : T)
      → R s t
      → R (secondaries f n0 xs s).1 (secondaries g n0 xs t).1
        × ((secondaries f n0 xs s).0 ≡ (secondaries g n0 xs t).0)
  unfolding secondaries
  secondaries-sim n0 [] s t r = (r, refl)
  secondaries-sim n0 (a ∷ xs) s t r = elim (Bool-cases (is_due a)) [
    | inl e ↦ rw e (
        let (p, q) = secondaries-sim n0 xs _ _ (keep a.assignment.client_id s t r) in
        (p, ap (◌∷◌ (advance n0 a)) q))
    | inr e ↦ rw e (let (p, q) = secondaries-sim n0 xs s t r in (p, ap (◌∷◌ (advance n0 a)) q))
  ]

  rounds-sim :
      (n0 c k : ℕ) (xs : List Secondary) (s : S) (t : T)
      → R s t
      → R (rounds f n0 c k xs s) (rounds g n0 c k xs t)
  unfolding rounds
  rounds-sim n0 c zero xs s t r = r
  rounds-sim n0 c (suc k) xs s t r =
      let (p, q) = secondaries-sim n0 xs (f c s) (g c t) (keep c s t r) in
      rw q (rounds-sim n0 c k _ _ _ p)

  pub generate-sim :
      (xs : List Assignment) (s : S) (t : T) → R s t → R (generate f xs s) (generate g xs t)
  unfolding generate
  generate-sim [] s t r = r
  generate-sim (a ∷ xs) s t r = rounds-sim a.num_slots a.client_id a.num_slots _ s t r

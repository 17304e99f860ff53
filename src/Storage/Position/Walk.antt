-- ===== src/Storage/Position/Walk.antt =====
-- The entries of a client behind its position in src/storage/log.cpp, and the loop over them.
use native.Mathlib.Nat.{sub-zero}
use zip_log_ae.Base.{
  ℕ, ◌+◌, ◌-◌, ◌<◌, ◌≡◌, ◌≢◌, ◌∙◌, sym, ap, Option, none, some, List, [], ◌∷◌, ◌++◌, arith, head?,
  length,
}
use zip_log_ae.Storage.Log.{Log, Entry}
use zip_log_ae.Storage.Log.Owned.{owned, owned-cons}
use zip_log_ae.Storage.Log.Links.{WellLinked, owner}
use zip_log_ae.Storage.Position.{Position, next_slot, mark, close_slots}

-- The first place that the client has not used.
abbrev pub start_of : Option ℕ → ℕ
start_of none = 0
start_of (some a) = a + 1

abbrev pub behind : Log → Position → List ℕ
behind l p =
    owned (owner l.cells) p.client_id (start_of p.current_entry)
      (l.current_entries - start_of p.current_entry)

-- A position stands nowhere yet, or at an entry of its client.
abbrev pub StandsAt : (ℕ → ℕ) → ℕ → ℕ → Option ℕ → Type 0
StandsAt o n c none = Unit
StandsAt o n c (some a) = (a < n) × (o a ≡ c)

abbrev pub Stands : Log → Position → Type 0
Stands l p = StandsAt (owner l.cells) l.current_entries p.client_id p.current_entry

pub next_slot-behind :
    (l : Log) (p : Position) (cur : Option ℕ)
    → WellLinked l
    → StandsAt (owner l.cells) l.current_entries p.client_id cur
    → next_slot l (record p { current_entry = cur })
      ≡ head? (behind l (record p { current_entry = cur }))
next_slot-behind l p none w s = rw sub-zero (w.chained.firsts p.client_id)
next_slot-behind l p (some a) w s =
    w.chained.nexts a _ (omega arith)
    ∙ ap (λ c. head? (owned (owner l.cells) c (a + 1) (l.current_entries - (a + 1)))) s.1

tail_of : {b x : ℕ} {xs : List ℕ} → b ∷ [] ≡ x ∷ xs → xs ≡ []
tail_of e = ground arith

append-ne-nil : (xs : List ℕ) (d : ℕ) (ys : List ℕ) → xs ++ d ∷ ys ≢ []
append-ne-nil [] d ys e = cc
append-ne-nil (x ∷ xs) d ys e = cc

-- What the loop over the links relies on.
abbrev pub Linked : (ℕ → Entry) → (ℕ → ℕ) → ℕ → Type 0
Linked m o n = (a k : ℕ) → a + 1 + k ≡ n → (m a).next ≡ head? (owned o (o a) (a + 1) k)

unfoldable pub mark_all : List ℕ → (ℕ → Entry) → ℕ → Entry
mark_all [] m = m
mark_all (x ∷ xs) m = mark_all xs (mark m x)

mark-next : (m : ℕ → Entry) (x a : ℕ) → (mark m x a).next ≡ (m a).next
mark-next m x a = ground arith

module _ (o : ℕ → ℕ) (n : ℕ) where
  pub mark-Linked : (m : ℕ → Entry) (x : ℕ) → Linked m o n → Linked (mark m x) o n
  mark-Linked m x h a k e = mark-next m x a ∙ h a k e

  -- The loop marks the entries that it steps over, and stops at the one behind them.
  pub close_slots-append :
      (xs : List ℕ) (m : ℕ → Entry) (b d : ℕ) (rest ys : List ℕ)
      → Linked m o n
      → b < n
      → rest ≡ owned o (o b) (b + 1) (n - (b + 1))
      → b ∷ rest ≡ xs ++ d ∷ ys
      → close_slots (length xs) m b ≡ some (mark_all xs m, d)
  unfolding close_slots mark_all
  close_slots-append [] m b d rest ys h lt r e = ground arith
  close_slots-append (x ∷ xs) m b d [] ys h lt r e = absurd (append-ne-nil xs d ys (tail_of e))
  close_slots-append (x ∷ xs) m b d (c ∷ rest) ys h lt r e =
      let (_, below, same, r') = owned-cons o (o b) (n - (b + 1)) (b + 1) c rest (sym r) in
      let size : b + 1 + (n - (b + 1)) - (c + 1) ≡ n - (c + 1) = omega arith in
      let e' : (m b).next ≡ some c = h b (n - (b + 1)) (omega arith) ∙ ap head? (sym r) in
      let at : x ≡ b = ground arith in
      rw (e', close_slots, at)
        (close_slots-append xs (mark m b) c d rest ys (mark-Linked m b h) (omega arith)
          (rw same (rw size at r')) (ground arith))

-- ===== src/Client/Slots.antt =====
-- The slots of src/client/client.cpp.
use zip_log_ae.Base.{
  ℕ, ◌+◌, ◌-◌, ◌*◌, ◌/◌, ◌%◌, ◌^◌, ◌≤◌, ◌<◌, ◌≡◌, sym, refl, Option, none, some, List, [], ◌∷◌,
  ◌++◌, map, arith, All, inl, inr, Bool-cases, leb, add64, sub64,
}
use zip_log_ae.Client.{
  Client, Request, Epoch, Outstanding, Sent, Step, storage_insert, storage_finished, order_finished,
  epoch_duration, time_in_us, begin_epoch, switch_epoch, ideal, may_send, send_insert, send_next,
  send_slots, on_new_epoch, round,
}

-- The epochs to come follow each other from `from` to `to`.
abbrev pub Consecutive : ℕ → List Epoch → ℕ → Type 0
Consecutive from [] to = from ≡ to
Consecutive from (e ∷ es) to = (e.first ≡ from) × (from ≤ e.last) × Consecutive e.last es to

pub record SlotInv (c : Client) : Type 0 where
  pub ordered : c.current.first ≤ c.current.last
  pub within : c.consumed ≤ c.current.last
  pub coming : Consecutive c.current.last c.epochs c.assigned
  pub small : c.assigned < 2 ^ 64

Consecutive-le : (from to : ℕ) (es : List Epoch) → Consecutive from es to → from ≤ to
Consecutive-le from to [] h = omega arith
Consecutive-le from to (e ∷ es) h = omega (arith, h.1, Consecutive-le e.last to es h.2)

div-bound : (n t p : ℕ) → t ≤ 5000 → p ≤ n * t → p / 5000 ≤ n
div-bound n t p le h = omega (arith, times n t le)
  where
    times : (n t : ℕ) → t ≤ 5000 → n * t ≤ n * 5000
    times n t le = grind arith

ideal-le :
    (e : Epoch) (elapsed : ℕ)
    → e.first ≤ e.last
    → e.last < 2 ^ 64
    → elapsed ≤ epoch_duration * 1000
    → ideal e elapsed ≤ e.last
unfolding ideal time_in_us
ideal-le e elapsed le small short =
    let width : sub64 e.last e.first ≡ e.last - e.first = omega arith in
    let part =
      div-bound (e.last - e.first) (time_in_us elapsed)
        ((e.last - e.first) * time_in_us elapsed % 2 ^ 64) (omega (arith, short)) (omega arith) in
    rw width (omega (arith, part))

begun-SlotInv :
    (c : Client) (es : List Epoch) (now : ℕ)
    → c.epochs ≡ es
    → SlotInv c
    → SlotInv (begin_epoch c es now)
begun-SlotInv c [] now same v = v
begun-SlotInv c (e ∷ es) now same v =
    let h : Consecutive c.current.last (e ∷ es) c.assigned = rw same at v.coming in
    elim (Bool-cases (leb e.begin now)) [
      | inl yes_now ↦ rw yes_now (record {
        ordered = omega (arith, h.0, h.1);
        within = omega (arith, h.1, v.within);
        coming = h.2;
        small = v.small;
      })
      | inr later ↦ rw later v
    ]

-- The switch to the next epoch keeps the epochs of a client in sequence and what it has consumed
-- within the current one.
pub switch_epoch-SlotInv : (c : Client) (now : ℕ) → SlotInv c → SlotInv (switch_epoch c now)
unfolding switch_epoch
switch_epoch-SlotInv c now v = begun-SlotInv c c.epochs now refl v

-- A message to a replica advances the client by at least one slot, and the client by as many.
abbrev pub IsAdvance : ℕ → ℕ → Sent → Type 0
IsAdvance before after (storage_insert q n r) = (0 < n) × (after ≡ before + n)
IsAdvance before after (storage_finished q) = Unit
IsAdvance before after order_finished = Unit

pub record Advanced (c : Client) (r : Step) : Type 0 where
  pub inv : SlotInv r.0
  pub messages : All (IsAdvance c.consumed r.0.consumed) r.1
  pub bound : r.0.consumed ≤ r.0.assigned

inserts :
    (before after n : ℕ) (r : Option Request) (qs : List ℕ)
    → 0 < n
    → after ≡ before + n
    → All (IsAdvance before after) (map (λ q. storage_insert q n r) qs)
inserts before after n r [] pos e = tt
inserts before after n r (q ∷ qs) pos e = ((pos, e), inserts before after n r qs pos e)

nothing-Advanced : (c : Client) → SlotInv c → Advanced c (c, [])
nothing-Advanced c v = record {
  inv = v;
  messages = tt;
  bound = omega (arith, v.within, Consecutive-le c.current.last c.assigned c.epochs v.coming);
}

insert-Advanced :
    (c d : Client) (r : Option Request) (response : Option ℕ) (n : ℕ)
    → SlotInv c
    → d.current ≡ c.current
    → d.epochs ≡ c.epochs
    → d.assigned ≡ c.assigned
    → d.consumed ≡ c.consumed
    → 0 < n
    → c.consumed + n ≤ c.current.last
    → Advanced c (send_insert d r response n)
insert-Advanced c d r response n v e1 e2 e3 e4 pos fits =
    let last-le = Consecutive-le c.current.last c.assigned c.epochs v.coming in
    let sum : add64 d.consumed n ≡ c.consumed + n = omega (arith, v.small) in
    record {
      inv = record {
        ordered = rw e1 v.ordered;
        within = rw (sum, e1) fits;
        coming = rw (e1, e2, e3) v.coming;
        small = rw e3 v.small;
      };
      messages = inserts c.consumed (add64 d.consumed n) n r d.queues pos sum;
      bound = rw (sum, e3) (omega arith);
    }

next-Advanced :
    (c : Client) (rs : List Request) (os : List Outstanding) (n : ℕ)
    → SlotInv c
    → 0 < n
    → c.consumed + n ≤ c.current.last
    → Advanced c (send_next c rs os n)
unfolding send_next
next-Advanced c (r ∷ rs) os n v pos fits =
    insert-Advanced c (record c { requests = rs }) (some r) (some r.response) n v refl refl refl
      refl pos fits
next-Advanced c [] [] n v pos fits = insert-Advanced c c none none n v refl refl refl refl pos fits
next-Advanced c [] (o ∷ os) n v pos fits = nothing-Advanced c v

-- The slots of a round, after the switch.
send_slots-Advanced : (c : Client) (elapsed : ℕ) → SlotInv c → Advanced c (send_slots c elapsed)
unfolding send_slots may_send
send_slots-Advanced c elapsed v = elim (Bool-cases (may_send c elapsed)) [
  | inr no_slot ↦ rw no_slot (nothing-Advanced c v)
  | inl ready ↦
      let last-le = Consecutive-le c.current.last c.assigned c.epochs v.coming in
      let short : elapsed ≤ epoch_duration * 1000 = ground arith in
      let ahead : c.consumed < ideal c.current elapsed = ground arith in
      let le = ideal-le c.current elapsed v.ordered (omega (arith, v.small)) short in
      let gap : sub64 (ideal c.current elapsed) c.consumed ≡ ideal c.current elapsed - c.consumed =
        omega (arith, v.small) in
      rw (ready, gap)
        (next-Advanced c c.requests c.outstanding (ideal c.current elapsed - c.consumed) v
          (omega arith) (omega arith))
]

switch_epoch-consumed : (c : Client) (now : ℕ) → (switch_epoch c now).consumed ≡ c.consumed
unfolding switch_epoch
switch_epoch-consumed c now = begun c.epochs
  where
    begun : (es : List Epoch) → (begin_epoch c es now).consumed ≡ c.consumed
    begun [] = refl
    begun (e ∷ es) = ground arith

from_switch : (c d : Client) (r : Step) → d.consumed ≡ c.consumed → Advanced d r → Advanced c r
from_switch c d r e a = record { inv = a.inv; messages = rw (sym e) a.messages; bound = a.bound }

-- When the epochs of a client follow each other up to the slots that it was assigned, and it has
-- consumed no more than the current epoch holds, a round, with the switch to the next epoch, keeps
-- this, never consumes a slot that was not assigned, and every request that it sends closes at
-- least one slot and exactly those that it consumes.
pub round-Advanced : (c : Client) (now elapsed : ℕ) → SlotInv c → Advanced c (round c now elapsed)
unfolding round
round-Advanced c now elapsed v =
    let d = switch_epoch c now in
    from_switch c d (send_slots d elapsed) (switch_epoch-consumed c now)
      (send_slots-Advanced d elapsed (switch_epoch-SlotInv c now v))

-- While the assigned slots fit a 64-bit word, a new epoch keeps the epochs of a client in sequence
-- up to the assigned slots.
pub on_new_epoch-SlotInv :
    (c : Client) (begin n : ℕ)
    → c.assigned + n < 2 ^ 64
    → SlotInv c
    → SlotInv (on_new_epoch c begin n)
unfolding on_new_epoch
on_new_epoch-SlotInv c begin n small v =
    let sum : add64 c.assigned n ≡ c.assigned + n = omega arith in
    rw sum (record {
      ordered = v.ordered;
      within = v.within;
      coming = extend c.current.last c.epochs v.coming;
      small = small;
    })
  where
    extend :
        (from : ℕ) (es : List Epoch)
        → Consecutive from es c.assigned
        → Consecutive from
            (es ++ record { begin = begin; first = c.assigned; last = c.assigned + n } ∷ [])
            (c.assigned + n)
    extend from [] h = (sym h, omega arith, refl)
    extend from (e ∷ es) (p, q, h) = (p, q, extend e.last es h)

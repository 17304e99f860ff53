-- ===== src/Order/Changes.antt =====
-- How the handlers of src/order/order.cpp change the map of the clients.
use zip_log_ae.Base.{
  ℕ, ◌<◌, ◌^◌, ◌≡◌, refl, Bool, true, false, not, ◌&&◌, ◌||◌, Option, none, some, List, [], ◌∷◌,
  arith, inl, inr, Bool-cases, if◌then◌else◌, ◌==◌, u64_max, find, assign, erase, length,
  find-assign,
}
use zip_log_ae.Order.{Order, Client, Patch, Step, set_client, has_key}
use zip_log_ae.Order.Handlers.{
  mark_failed, request_data, finish_client, on_client_freeze, on_client_rate, on_client_finished,
  from_back, settle, decide, save_cut, client_cut, on_client_cut, save_data, on_client_data,
  min_slots, with_client,
}
use zip_log_ae.Util.Align.{align, max_of, align_lem}

-- What a change of a client's state keeps.
pub record Evolves (c c' : Client) : Type 0 where
  pub shard : c'.shard_id ≡ c.shard_id
  pub failed : c.failed ≡ true → c'.failed ≡ true
  pub small : c.num_slots < 2 ^ 63 → c'.num_slots < 2 ^ 63
  pub asked : (c.requested ≡ true → c.failed ≡ true) → c'.requested ≡ true → c'.failed ≡ true

pub data Changes : List (ℕ × Client) → List (ℕ × Client) → Type 0 where
  no_more : (xs : List (ℕ × Client)) → Changes xs xs
  updated :
      (xs ys : List (ℕ × Client)) (i : ℕ) (c c' : Client)
      → find i xs ≡ some c
      → Evolves c c'
      → Changes (assign i c' xs) ys
      → Changes xs ys
  removed : (xs ys : List (ℕ × Client)) (i : ℕ) → Changes (erase i xs) ys → Changes xs ys

updated_once :
    (xs : List (ℕ × Client)) (i : ℕ) (c c' : Client)
    → find i xs ≡ some c
    → Evolves c c'
    → Changes xs (assign i c' xs)
updated_once xs i c c' e v = updated xs (assign i c' xs) i c c' e v (no_more (assign i c' xs))

removed_once : (xs : List (ℕ × Client)) (i : ℕ) → Changes xs (erase i xs)
removed_once xs i = removed xs (erase i xs) i (no_more (erase i xs))

-- Of a step: its clients, and that the base of the sequence numbers stays.
pub record Moves (o : Order) (r : Step) : Type 0 where
  pub clients : Changes o.clients r.0.clients
  pub base : r.0.gsn_base ≡ o.gsn_base

stays : (o : Order) → Moves o (o, [])
stays o = record { clients = no_more o.clients; base = refl }

Moves-if :
    (o : Order) (b : Bool) (x y : Step) → Moves o x → Moves o y → Moves o (if b then x else y)
Moves-if o true x y p q = p
Moves-if o false x y p q = q

with_client-Moves :
    (o : Order) (i : ℕ) (k : Option Client) (next : Client → Step)
    → find i o.clients ≡ k
    → ((c : Client) → find i o.clients ≡ some c → Moves o (next c))
    → Moves o (with_client o k next)
with_client-Moves o i none next e h = stays o
with_client-Moves o i (some c) next e h = h c e

pub freeze-Moves : (o : Order) (i : ℕ) → Moves o (on_client_freeze o i)
unfolding on_client_freeze mark_failed
freeze-Moves o i = with_client-Moves o i (find i o.clients) _ refl (λ c e.
    Moves-if o c.failed (o, []) (mark_failed o i c) (stays o)
      (record {
        clients =
            updated_once o.clients i c (record c { failed = true }) e
              (record { shard = refl; failed = λ h. refl; small = λ h. h; asked = λ h k. refl });
        base = refl;
      }))

pub rate-Moves : (o : Order) (i n : ℕ) → n < 2 ^ 62 → Moves o (on_client_rate o i n)
unfolding on_client_rate
rate-Moves o i n lt = with_client-Moves o i (find i o.clients) _ refl (λ c e.
    let m : max_of 1 n < 2 ^ 62 = ground arith in
    let (_, _, close) =
      align_lem min_slots (max_of 1 n) (omega arith) (omega arith) (omega arith) in
    record {
      clients =
          updated_once o.clients i c (record c { num_slots = align min_slots (max_of 1 n) }) e
            (record { shard = refl; failed = λ h. h; small = λ h. omega arith; asked = λ h. h });
      base = refl;
    })

finish-Moves : (o : Order) (i : ℕ) (c : Client) → Moves o (finish_client o i c)
unfolding finish_client
finish-Moves o i c = record { clients = removed_once o.clients i; base = refl }

pub finished-Moves : (o : Order) (i : ℕ) → Moves o (on_client_finished o i)
unfolding on_client_finished
finished-Moves o i =
    with_client-Moves o i (find i o.clients) _ refl
      (λ c e. let m = finish-Moves o i c in record { clients = m.clients; base = m.base })

-- A step behind the change of one client's state.
after :
    (o : Order) (i : ℕ) (c c' : Client) (r : Step)
    → find i o.clients ≡ some c
    → Evolves c c'
    → Moves (set_client o i c') r
    → Moves o r
after o i c c' r e v m = record {
  clients = updated o.clients r.0.clients i c c' e v m.clients;
  base = m.base;
}

decide-Moves :
    (o : Order) (i : ℕ) (c : Client) (min : ℕ) (cuts : List ℕ)
    → find i o.clients ≡ some c
    → c.failed ≡ true
    → Moves o (decide o i c min cuts)
unfolding decide request_data
decide-Moves o i c min [] e f = stays o
decide-Moves o i c min (max ∷ others) e f =
    Moves-if o (min == settle min max others) (finish_client o i c) (request_data o i c min)
      (finish-Moves o i c)
      (record {
        clients =
            updated_once o.clients i c (record c { requested = true }) e
              (record { shard = refl; failed = λ h. h; small = λ h. h; asked = λ h k. f });
        base = refl;
      })

save_cut-Moves :
    (o : Order) (i : ℕ) (c : Client) (cuts : List (ℕ × ℕ))
    → find i o.clients ≡ some c
    → c.failed ≡ true
    → Moves o (save_cut o i c cuts)
unfolding save_cut
save_cut-Moves o i c [] e f = stays o
save_cut-Moves o i c (first ∷ rest) e f =
    let go = not c.requested && (length (first ∷ rest) == length (o.replicas c.shard_id)) in
    let r = decide o i c first.1 (from_back (first ∷ rest)) in
    Moves-if o go r (o, []) (decide-Moves o i c first.1 (from_back (first ∷ rest)) e f) (stays o)

client_cut-Moves :
    (o : Order) (i : ℕ) (c : Client) (shard replica gsn : ℕ)
    → find i o.clients ≡ some c
    → Moves o (client_cut o i c shard replica gsn)
unfolding client_cut
client_cut-Moves o i c shard replica gsn e =
    let c' : Client = record c { cuts = assign replica gsn c.cuts } in
    let o' = set_client o i c' in
    elim (Bool-cases (not c.failed || not (c.shard_id == shard) || has_key replica c.cuts)) [
      | inl skip ↦ rw skip (stays o)
      | inr go ↦
          let f : c.failed ≡ true = ground arith in
          rw go (
            after o i c c' (save_cut o' i c' c'.cuts) e
              (record { shard = refl; failed = λ h. h; small = λ h. h; asked = λ h. h })
              (save_cut-Moves o' i c' c'.cuts (find-assign i c' o.clients) f))
    ]

pub cut-Moves :
    (o : Order) (i shard replica gsn : ℕ) → Moves o (on_client_cut o i shard replica gsn)
unfolding on_client_cut
cut-Moves o i shard replica gsn =
    with_client-Moves o i (find i o.clients) _ refl
      (λ c e. client_cut-Moves o i c shard replica gsn e)

save_data-Moves :
    (o : Order) (i : ℕ) (c : Client) (replica gsn : ℕ) (p : Patch)
    → find i o.clients ≡ some c
    → Moves o (save_data o i c replica gsn p)
unfolding save_data
save_data-Moves o i c replica gsn p e =
    let c1 : Client = record c { flushed = assign replica tt c.flushed } in
    let c2 : Client = record c { patches = assign gsn p c.patches } in
    let o1 = set_client o i c1 in
    let o2 = set_client o i c2 in
    let v1 : Evolves c c1 = record {
      shard = refl;
      failed = λ h. h;
      small = λ h. h;
      asked = λ h. h;
    } in
    let v2 : Evolves c c2 = record {
      shard = refl;
      failed = λ h. h;
      small = λ h. h;
      asked = λ h. h;
    } in
    let all = length c1.flushed == length (o.replicas c.shard_id) in
    Moves-if o (gsn == u64_max) (if all then finish_client o1 i c1 else (o1, []))
      (if has_key gsn c.patches then (o, []) else (o2, []))
      (Moves-if o all (finish_client o1 i c1) (o1, [])
        (after o i c c1 (finish_client o1 i c1) e v1 (finish-Moves o1 i c1))
        (after o i c c1 (o1, []) e v1 (stays o1)))
      (Moves-if o (has_key gsn c.patches) (o, []) (o2, []) (stays o)
        (after o i c c2 (o2, []) e v2 (stays o2)))

pub data-Moves :
    (o : Order) (i shard replica gsn : ℕ) (p : Patch)
    → Moves o (on_client_data o i shard replica gsn p)
unfolding on_client_data
data-Moves o i shard replica gsn p = with_client-Moves o i (find i o.clients) _ refl (λ c e.
    Moves-if o (not c.requested || not (c.shard_id == shard) || has_key replica c.flushed) (o, [])
      (save_data o i c replica gsn p) (stays o) (save_data-Moves o i c replica gsn p e))

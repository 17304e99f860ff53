-- ===== src/Network/Memory/Runs/Steps.antt =====
-- The steps on the receive buffers of src/network/manager.cpp, and all steps together.
use zip_log_ae.Network.SendQueue.{max_queue_pairs, receive_buffer_size}
use zip_log_ae.Network.Memory.{Handle, Region, find_first}
use zip_log_ae.Network.Memory.Objects.{
  Holders, QueuePair, Event, get, move_construct, move_assign, destroy, connect, disconnect, step,
  leave,
}
use zip_log_ae.Network.Memory.Cover.{
  sum-append, sum-remove_at, owned-move_construct, owned-move_assign, covers,
}
use zip_log_ae.Network.Memory.Receive.{
  get-bound, get-below, find_first-set, find_first-le, get-append_left,
}
use zip_log_ae.Network.Memory.Shares.{
  idle_use, idle_free, total-append, idle-append, idle_none, idle_first, total-sum, is_index,
  total-is_index,
}
use zip_log_ae.Network.Memory.Account.{set_bit-Laid, free_recv_buffer_lem}
use zip_log_ae.Network.Memory.Create.{create_receive_buffer-Creates}
use zip_log_ae.Base.{
  ℕ, ◌≤◌, ◌<◌, ◌≡◌, refl, Bool, true, false, Option, none, some, [], ◌∷◌, ◌++◌, inl, inr,
  Bool-cases, if◌then◌else◌, ltb, leb, arith, length, get_elem?, All-append, length-append,
}
use zip_log_ae.Network.Memory.Runs.State.{
  IsAgreed, Accounts, Proceeds, All-get, All-remove_at, All-weaken, length-remove_at, get_none,
  sum_one, find_first-before,
}
use zip_log_ae.Network.Memory.Runs.Buffers.{get-Proceeds, object-Proceeds, destroy-Proceeds}

module _ (page : ℕ → Region) (s : Holders) (a : Accounts page s) where
  -- With fewer queue pairs than indices some bit is set.
  some_free :
      length s.queue_pairs < max_queue_pairs
      → find_first s.pools.free_receive_buffers < max_queue_pairs
  some_free lt = elim (Bool-cases (ltb (find_first s.pools.free_receive_buffers) max_queue_pairs)) [
    | inl e ↦ ground (arith, e)
    | inr e ↦
        let full : max_queue_pairs ≤ find_first s.pools.free_receive_buffers = ground (arith, e) in
        let none_idle =
          idle_none (λ _ _. 1) 0 s.pools.free_receive_buffers a.rooms
            (λ j below.
              find_first-before s.pools.free_receive_buffers j
                (omega (arith, below, a.laid.long, full))) in
        let all_rooms : length a.rooms ≡ max_queue_pairs =
          elim (Bool-cases (ltb (length a.rooms) max_queue_pairs)) [
            | inl f ↦ absurd (
                omega (
                  arith,
                  full,
                  ltb_lt f,
                  find_first-le s.pools.free_receive_buffers (length a.rooms)
                      (a.laid.unused (length a.rooms) (omega arith) (ltb_lt f)),
                ))
            | inr f ↦ ground (arith, f, a.laid.long)
          ] in
        absurd (
          omega (
            arith,
            a.shared (λ _ _. 1),
            total-sum (λ _. 1) 0 a.rooms,
            sum_one a.rooms,
            sum_one s.queue_pairs,
            none_idle,
            all_rooms,
          ))
  ]
    where
      ltb_lt : ltb (length a.rooms) max_queue_pairs ≡ true → length a.rooms < max_queue_pairs
      ltb_lt f = ground (arith, f)

  connect-Proceeds :
      (answer : ℕ → ℕ)
      → length s.queue_pairs < max_queue_pairs
      → ((i : ℕ) → answer i ≡ i)
      → Proceeds page s (connect answer)
  unfolding step
  connect-Proceeds answer lt same =
      let c = create_receive_buffer-Creates page s.pools a.rooms a.left a.laid (some_free lt) in
      let i = find_first s.pools.free_receive_buffers in
      let q : QueuePair = record { index = i; handle = c.handle; remote_index = answer i } in
      let rooms' = a.rooms ++ c.added in
      record {
        result = record s { pools = c.result; queue_pairs = s.queue_pairs ++ (q ∷ []) };
        yields = rw (step, c.yields) refl;
        pairs = length-append s.queue_pairs (q ∷ []);
        accounts = record {
          rooms = rooms';
          left = c.left;
          laid = c.laid;
          made = c.made a.made;
          memory = λ byte. rw c.free_list (
              omega (
                arith,
                a.memory byte,
                c.memory byte,
                sum-append (λ (h : Handle). covers receive_buffer_size byte h.0) a.rooms c.added,
              ));
          known =
              All-append (IsAgreed rooms') s.queue_pairs (q ∷ [])
                (All-weaken (IsAgreed a.rooms) (IsAgreed rooms') s.queue_pairs
                  (λ q e. (get-append_left a.rooms c.added q.index q.handle e.0, e.1)) a.known)
                ((c.found, same i), tt);
          shared = λ w.
              let bit =
                find_first-set s.pools.free_receive_buffers
                  (omega (arith, some_free lt, a.laid.bits)) in
              rw c.cleared (
                omega (
                  arith,
                  a.shared w,
                  sum-append (λ (q : QueuePair). w q.index q.handle) s.queue_pairs (q ∷ []),
                  idle_use w i s.pools.free_receive_buffers rooms' c.handle bit c.found,
                  idle-append w 0 s.pools.free_receive_buffers a.rooms c.added
                      (λ j le below.
                        a.laid.unused j le
                          (omega (arith, below, length-append a.rooms c.added, c.laid.long)))
                      (omega (arith, a.laid.long, a.laid.bits)),
                  total-append w 0 a.rooms c.added,
                ));
        };
      }

  -- The bit of a queue pair is not set.
  taken_bit :
      (j : ℕ) (q : QueuePair)
      → get_elem? s.queue_pairs j ≡ some q
      → get_elem? a.rooms q.index ≡ some q.handle
      → get_elem? s.pools.free_receive_buffers q.index ≡ some false
  taken_bit j q e f =
      let (u, bit) =
        get-below s.pools.free_receive_buffers q.index
          (omega (arith, get-bound a.rooms q.index q.handle f, a.laid.long, a.laid.bits)) in
      by_value u bit
    where
      one_at_most : (k : ℕ) → (if leb 0 k then 1 else 0) ≤ 1
      one_at_most k = ground arith

      by_value :
          (u : Bool)
          → get_elem? s.pools.free_receive_buffers q.index ≡ some u
          → get_elem? s.pools.free_receive_buffers q.index ≡ some false
      by_value false bit = bit
      by_value true bit =
          let w = is_index q.index in
          let one : w q.index q.handle ≡ 1 = ground arith in
          absurd (
            omega (
              arith,
              a.shared w,
              total-is_index q.index 0 a.rooms,
              one_at_most q.index,
              sum-remove_at (λ (q : QueuePair). w q.index q.handle) j s.queue_pairs q e,
              idle_first w q.index s.pools.free_receive_buffers a.rooms q.handle bit f,
              one,
            ))

  disconnect-Proceeds : (j : ℕ) → Proceeds page s (disconnect j)
  unfolding step
  disconnect-Proceeds j = by_pair (get_elem? s.queue_pairs j) refl
    where
      by_pair :
          (o : Option QueuePair) → get_elem? s.queue_pairs j ≡ o → Proceeds page s (disconnect j)
      by_pair none e = record {
        result = s;
        yields = rw (step, leave, e) refl;
        pairs = ground (arith, get_none s.queue_pairs j e);
        accounts = a;
      }
      by_pair (some q) e =
          let (f, agreed) = All-get (IsAgreed a.rooms) s.queue_pairs j q a.known e in
          let lt = get-bound a.rooms q.index q.handle f in
          let freed = free_recv_buffer_lem s.pools a.rooms a.left a.laid q.index lt in
          record {
            result = _;
            yields = rw (step, leave, e, agreed, freed) refl;
            pairs =
                ground (arith, length-remove_at s.queue_pairs j q e, get-bound s.queue_pairs j q e);
            accounts = record {
              rooms = a.rooms;
              left = a.left;
              laid = set_bit-Laid s.pools a.rooms a.left a.laid q.index true lt;
              made = a.made;
              memory = a.memory;
              known = All-remove_at (IsAgreed a.rooms) j s.queue_pairs a.known;
              shared = λ w. omega (
                arith,
                a.shared w,
                sum-remove_at (λ (q : QueuePair). w q.index q.handle) j s.queue_pairs q e,
                idle_free w q.index s.pools.free_receive_buffers a.rooms q.handle
                    (taken_bit j q e f) f,
              );
            };
          }

  -- Room for one more queue pair where the event asks for one.
  abbrev pub HasRoom : Event → Type 0
  HasRoom (connect answer) = (length s.queue_pairs < max_queue_pairs) × ((i : ℕ) → answer i ≡ i)
  HasRoom (get n) = Unit
  HasRoom (move_construct i) = Unit
  HasRoom (move_assign i j) = Unit
  HasRoom (destroy i) = Unit
  HasRoom (disconnect i) = Unit

  pub step-Proceeds : (e : Event) → HasRoom e → Proceeds page s e
  unfolding step
  step-Proceeds (get n) h = get-Proceeds page s a n
  step-Proceeds (move_construct i) h =
      object-Proceeds page s a (move_construct i) _ refl refl
        (λ w. owned-move_construct w i s.objects)
  step-Proceeds (move_assign i j) h =
      object-Proceeds page s a (move_assign i j) _ refl refl
        (λ w. owned-move_assign w i j s.objects)
  step-Proceeds (destroy i) h = destroy-Proceeds page s a i
  step-Proceeds (connect answer) h = connect-Proceeds answer h.0 h.1
  step-Proceeds (disconnect i) h = disconnect-Proceeds i

-- ===== src/Lock/Exclusion.antt =====
-- Lock services of several clients, src/lock_service/lock_service.cpp, that have received the same
-- log, each some part of it.
use zip_log_ae.Base.{
  append_assoc, ℕ, ◌≤◌, ◌≡◌, ◌≢◌, ◌∙◌, sym, refl, ap, true, some, List, [], ◌∷◌, ◌++◌, arith, inl,
  inr, Bool-cases, ltb, length, length-append, head?, All, All-append,
}
use zip_log_ae.Lock.{Request, Service, new_service, run}
use zip_log_ae.Lock.Front.{front, Fronted, run-Fronted, Spares, run-front}
use zip_log_ae.Lock.Prefixes.{
  cut, All-left, All-right, All-head, All-each, All-locks, locks-key, queue_alike, All-queue,
  run-append,
}

-- Not a request of the client with the flag.
abbrev pub IsOther : ℕ → ℕ → Request → Type 0
IsOther client flag r = r.client ≡ client → r.flag ≢ flag

-- The client holds the lock of the key: its service, which has received the part `seen` of the log,
-- has set the flag of its request, so that `acquire` has returned, and the log has no request of
-- the client that unlocks the key after it. No other request of the client has this flag.
pub record Holds (num_keys client key : ℕ) (log : List Request) : Type 0 where
  pub before : List Request
  pub request : Request
  pub after : List Request
  pub stands : log ≡ before ++ request ∷ after
  pub mine : request.client ≡ client
  pub locks_key : request.lock_key ≡ key
  pub alone_before : All (IsOther client request.flag) before
  pub alone_after : All (IsOther client request.flag) after
  pub spared : All (Spares key client) after
  pub seen : List Request
  pub unseen : List Request
  pub received : log ≡ seen ++ unseen
  pub state : Service
  pub ran : run (new_service client num_keys) seen ≡ some state
  pub returned : state.flags request.flag ≡ true

-- From some part of the log on the client is at the front of the queue of the key.
record Leads (num_keys client key : ℕ) (log : List Request) : Type 0 where
  early : List Request
  late : List Request
  parts : log ≡ early ++ late
  middle : Service
  ran : run (new_service client num_keys) early ≡ some middle
  leader : Request
  first : front key middle ≡ some leader
  mine : leader.client ≡ client
  spared : All (Spares key client) late

module _ (n c k : ℕ) (log : List Request) (h : Holds n c k log) where
  abbrev IsIt : Request → Type 0
  IsIt r = r.client ≡ c → r.flag ≡ h.request.flag → r ≡ h.request

  every-IsIt : All IsIt (h.before ++ h.request ∷ h.after)
  every-IsIt =
      All-append IsIt h.before (h.request ∷ h.after)
        (All-each (IsOther c h.request.flag) IsIt h.before (λ r o e f. absurd (o e f))
          h.alone_before)
        (
          λ _ _. refl,
          All-each (IsOther c h.request.flag) IsIt h.after (λ r o e f. absurd (o e f))
              h.alone_after,
        )

  lead : Fronted h.request.flag (new_service c n) h.state h.seen → Leads n c k log
  lead f =
      let whole : log ≡ f.early ++ (f.late ++ h.unseen) =
        h.received ∙ ap (λ xs. xs ++ h.unseen) f.log ∙ append_assoc f.early f.late h.unseen in
      let queue = f.middle.lock_queue f.key in
      let among : (P : Request → Type 0) → All P f.early → P f.request = λ P all.
        All-head P queue f.request
          (All-queue P f.key c n f.early f.middle f.begins (All-locks P f.key f.early all))
          f.first in
      let same_key : f.request.lock_key ≡ f.key =
        All-head (λ r. r.lock_key ≡ f.key) queue f.request
          (All-queue (λ r. r.lock_key ≡ f.key) f.key c n f.early f.middle f.begins
            (locks-key f.key f.early))
          f.first in
      let cuts : f.early ++ (f.late ++ h.unseen) ≡ h.before ++ h.request ∷ h.after =
        sym whole ∙ h.stands in
      let it : f.request ≡ h.request =
        among IsIt (All-left IsIt f.early (f.late ++ h.unseen) (rw cuts every-IsIt)) f.client
          f.flag in
      let key : f.key ≡ k = sym same_key ∙ ap (λ (r : Request). r.lock_key) it ∙ h.locks_key in
      elim (Bool-cases (ltb (length h.before) (length f.early))) [
        | inr short ↦
            let b =
              cut f.early (f.late ++ h.unseen) h.before (h.request ∷ h.after) cuts
                (ground (arith, short)) in
            let other = among (IsOther c h.request.flag) (
              All-left (IsOther c h.request.flag) f.early b.middle
                (rw (sym b.longer) h.alone_before)) in
            absurd (other f.client f.flag)
        | inl long ↦
            let b =
              cut (h.before ++ h.request ∷ []) h.after f.early (f.late ++ h.unseen)
                (append_assoc h.before (h.request ∷ []) h.after ∙ sym cuts)
                (ground (arith, long, length-append h.before (h.request ∷ []))) in
            record {
              early = f.early;
              late = f.late ++ h.unseen;
              parts = whole;
              middle = f.middle;
              ran = f.begins;
              leader = f.request;
              first = rw (sym key) f.first;
              mine = f.client;
              spared =
                  All-right (Spares k c) b.middle (f.late ++ h.unseen)
                    (rw (sym b.shorter) h.spared);
            }
      ]

  holds-Leads : Leads n c k log
  holds-Leads =
      lead (run-Fronted h.request.flag (new_service c n) h.state h.seen h.ran refl h.returned)

-- The one that leads first still leads when the other does.
same_leader :
    (n k c d : ℕ) (log : List Request) (p : Leads n c k log) (q : Leads n d k log)
    → length p.early ≤ length q.early
    → c ≡ d
same_leader n k c d log p q le =
    let b = cut p.early p.late q.early q.late (sym p.parts ∙ q.parts) le in
    let ran : run (new_service d n) (p.early ++ b.middle) ≡ some q.middle =
      rw (sym b.longer) q.ran in
    let (u, first, second) = run-append (new_service d n) q.middle p.early b.middle ran in
    let there : front k u ≡ some p.leader =
      ap head? (queue_alike k d c n p.early u p.middle first p.ran) ∙ p.first in
    let spared : All (Spares k p.leader.client) b.middle =
      rw p.mine (All-left (Spares k c) b.middle q.late (rw (sym b.shorter) p.spared)) in
    let still = run-front k u q.middle p.leader b.middle second spared there in
    let same : some p.leader ≡ some q.leader = sym still ∙ q.first in
    let leader : p.leader ≡ q.leader = cc in
    sym p.mine ∙ ap (λ (r : Request). r.client) leader ∙ q.mine

-- When two clients hold the lock of a key (the service of each has received some part of one log
-- and set the flag of its request, which no other of its requests has, and the log has no request
-- of the client that unlocks the key after it), they are the same client.
pub holds-exclusive :
    (num_keys key c d : ℕ) (log : List Request)
    → Holds num_keys c key log
    → Holds num_keys d key log
    → c ≡ d
holds-exclusive n k c d log h g =
    let p = holds-Leads n c k log h in
    let q = holds-Leads n d k log g in
    elim (Bool-cases (ltb (length q.early) (length p.early))) [
      | inl more ↦ sym (same_leader n k d c log q p (ground (arith, more)))
      | inr less ↦ same_leader n k c d log p q (ground (arith, less))
    ]

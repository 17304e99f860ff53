-- ===== src/Lock/Fifo.antt =====
-- The queues of the lock service, src/lock_service/lock_service.cpp, over a sequence of entries.
use zip_log_ae.Base.{
  append_assoc, append-nil, ℕ, ◌+◌, ◌≡◌, ◌∙◌, sym, refl, ap, Bool, true, false, some, List, [], ◌∷◌,
  ◌++◌, arith, inl, inr, Bool-cases, Option-cases, if◌then◌else◌, ltb, ◌==◌, length, length-append,
}
use zip_log_ae.Lock.{
  Action, lock, unlock, Request, Service, notify, set_queue, acquire, release, notify_next, serve,
  callback, run, is_lock,
}

-- The requests to lock a key, and how many requests unlock it.
abbrev pub locks : ℕ → List Request → List Request
locks k [] = []
locks k (r ∷ rs) =
    let rest = locks k rs in
    if is_lock r.action then (if r.lock_key == k then r ∷ rest else rest) else rest

abbrev pub unlocks : ℕ → List Request → ℕ
unlocks k [] = 0
unlocks k (r ∷ rs) =
    let rest = unlocks k rs in
    if is_lock r.action then rest else if r.lock_key == k then rest + 1 else rest

pub notify-queue : (s : Service) (r : Request) → (notify s r).lock_queue ≡ s.lock_queue
notify-queue s r = elim (Bool-cases (r.client == s.cid)) [ inl e ↦ rw e refl | inr e ↦ rw e refl ]

pub notify_next-queue :
    (s : Service) (rs : List Request) → (notify_next s rs).lock_queue ≡ s.lock_queue
notify_next-queue s [] = refl
notify_next-queue s (r ∷ rs) = notify-queue s r

pub acquire-queue :
    (s : Service) (r : Request) (queue : List Request) (k : ℕ)
    → (acquire s r queue).lock_queue k
      ≡ (if k == r.lock_key then queue ++ r ∷ [] else s.lock_queue k)
unfolding acquire
acquire-queue s r [] k = ap (λ q. if k == r.lock_key then r ∷ [] else q k) (notify-queue s r)
acquire-queue s r (first ∷ rest) k = refl

-- What a release does, if it ends.
pub record Released (s t : Service) (r : Request) (queue : List Request) : Type 0 where
  pub holder : Request
  pub waiting : List Request
  pub eq : queue ≡ holder ∷ waiting
  pub client : holder.client ≡ r.client
  pub others : (k : ℕ) → t.lock_queue k ≡ (if k == r.lock_key then waiting else s.lock_queue k)

pub release-Released :
    (s t : Service) (r : Request) (queue : List Request)
    → release s r queue ≡ some t
    → Released s t r queue
unfolding release
release-Released s t r [] e = absurd cc
release-Released s t r (top ∷ rest) e =
    let end = notify_next (notify (set_queue s r.lock_key rest) top) rest in
    let queues : end.lock_queue ≡ (set_queue s r.lock_key rest).lock_queue =
      notify_next-queue _ rest ∙ notify-queue _ top in
    elim (Bool-cases (is_lock top.action)) [
      | inr bad ↦ absurd (ground (arith, rw bad at e))
      | inl good ↦ elim (Bool-cases (top.client == r.client)) [
        | inr bad ↦ absurd (ground (arith, rw (good, bad) at e))
        | inl mine ↦ elim (Bool-cases (top.lock_key == r.lock_key)) [
          | inr bad ↦ absurd (ground (arith, rw (good, mine, bad) at e))
          | inl key ↦
              let same : end ≡ t = ground (arith, rw (good, mine, key) at e) in
              record {
                holder = top;
                waiting = rest;
                eq = refl;
                client = ground arith;
                others = λ k. rw (sym same) (ap (λ q. q k) queues);
              }
        ]
      ]
    ]

-- From one queue of a key to the next: the requests `taken` leave it at the front.
pub record Passes (k : ℕ) (s t : Service) (rs : List Request) : Type 0 where
  pub taken : List Request
  pub order : s.lock_queue k ++ locks k rs ≡ taken ++ t.lock_queue k
  pub count : length taken ≡ unlocks k rs

-- One request to lock.
locks_one :
    (k : ℕ) (r : Request) (b : Bool)
    → r.action ≡ lock
    → (r.lock_key == k) ≡ b
    → locks k (r ∷ []) ≡ (if b then r ∷ [] else [])
locks_one k r b a e =
    ap (λ x. if is_lock x then (if r.lock_key == k then r ∷ [] else []) else []) a
    ∙ ap (λ x. if x then r ∷ [] else []) e

unlocks_one : (k : ℕ) (r : Request) → r.action ≡ lock → unlocks k (r ∷ []) ≡ 0
unlocks_one k r a = ap (λ x. if is_lock x then 0 else if r.lock_key == k then 1 else 0) a

acquire-Passes :
    (k : ℕ) (s : Service) (r : Request) (queue : List Request)
    → s.lock_queue r.lock_key ≡ queue
    → r.action ≡ lock
    → Passes k s (acquire s r queue) (r ∷ [])
acquire-Passes k s r queue same a = elim (Bool-cases (r.lock_key == k)) [
  | inl e ↦
      let key : r.lock_key ≡ k = ground arith in
      let back : (k == r.lock_key) ≡ true = ground arith in
      record {
        taken = [];
        order =
            ap (λ q. s.lock_queue k ++ q) (locks_one k r true a e)
            ∙ ap (λ q. q ++ r ∷ []) (rw key at same)
            ∙ sym (ap (λ b. if b then queue ++ r ∷ [] else s.lock_queue k) back)
            ∙ sym (acquire-queue s r queue k);
        count = sym (unlocks_one k r a);
      }
  | inr e ↦
      let back : (k == r.lock_key) ≡ false = ground arith in
      record {
        taken = [];
        order =
            ap (λ q. s.lock_queue k ++ q) (locks_one k r false a e)
            ∙ append-nil (s.lock_queue k)
            ∙ sym (ap (λ b. if b then queue ++ r ∷ [] else s.lock_queue k) back)
            ∙ sym (acquire-queue s r queue k);
        count = sym (unlocks_one k r a);
      }
]

release-Passes :
    (k : ℕ) (s t : Service) (r : Request) (queue : List Request)
    → s.lock_queue r.lock_key ≡ queue
    → r.action ≡ unlock
    → release s r queue ≡ some t
    → Passes k s t (r ∷ [])
release-Passes k s t r queue same a e =
    let d = release-Released s t r queue e in
    elim (Bool-cases (r.lock_key == k)) [
      | inl mine ↦
          let key : r.lock_key ≡ k = ground arith in
          let back : (k == r.lock_key) ≡ true = ground arith in
          record {
            taken = d.holder ∷ [];
            order =
                rw (a, d.others k, back) (append-nil (s.lock_queue k) ∙ (rw key at same) ∙ d.eq);
            count = rw (a, mine) refl;
          }
      | inr other ↦
          let back : (k == r.lock_key) ≡ false = ground arith in
          record {
            taken = [];
            order = rw (a, d.others k, back) (append-nil (s.lock_queue k));
            count = rw (a, other) refl;
          }
    ]

serve-Passes :
    (k : ℕ) (s t : Service) (r : Request) (a : Action)
    → r.action ≡ a
    → serve s r a ≡ some t
    → Passes k s t (r ∷ [])
unfolding serve
serve-Passes k s t r lock a e =
    let same : acquire s r (s.lock_queue r.lock_key) ≡ t = ground (arith, e) in
    rw (sym same) (acquire-Passes k s r (s.lock_queue r.lock_key) refl a)
serve-Passes k s t r unlock a e = release-Passes k s t r (s.lock_queue r.lock_key) refl a e

callback-Passes :
    (k : ℕ) (s t : Service) (r : Request) → callback s r ≡ some t → Passes k s t (r ∷ [])
unfolding callback
callback-Passes k s t r e = elim (Bool-cases (ltb r.lock_key s.num_keys)) [
  | inl key ↦ serve-Passes k s t r r.action refl (rw key at e)
  | inr bad ↦ absurd (ground (arith, rw bad at e))
]

locks-split :
    (k : ℕ) (r : Request) (rs : List Request) → locks k (r ∷ rs) ≡ locks k (r ∷ []) ++ locks k rs
locks-split k r rs = elim (Bool-cases (is_lock r.action)) [
  | inl a ↦ rw a (elim (Bool-cases (r.lock_key == k)) [ inl e ↦ rw e refl | inr e ↦ rw e refl ])
  | inr a ↦ rw a refl
]

unlocks-split :
    (k : ℕ) (r : Request) (rs : List Request)
    → unlocks k (r ∷ rs) ≡ unlocks k (r ∷ []) + unlocks k rs
unlocks-split k r rs = elim (Bool-cases (is_lock r.action)) [
  | inl a ↦ rw a (omega arith)
  | inr a ↦ rw a (elim (Bool-cases (r.lock_key == k)) [
    | inl e ↦ rw e (omega arith)
    | inr e ↦ rw e (omega arith)
  ])
]

-- When the lock service ends a sequence of entries, then for every key the queue before and the
-- requests to lock the key, in their order, are the requests that were unlocked followed by the
-- queue after, and there are as many of the former as requests to unlock the key.
pub run-Passes : (k : ℕ) (s t : Service) (rs : List Request) → run s rs ≡ some t → Passes k s t rs
unfolding run
run-Passes k s t [] e =
    let same : s ≡ t = ground (arith, e) in
    record {
      taken = [];
      order = append-nil (s.lock_queue k) ∙ ap (λ (u : Service). u.lock_queue k) same;
      count = refl;
    }
run-Passes k s t (r ∷ rs) e = elim (Option-cases (callback s r)) [
  | inl bad ↦ absurd (ground (arith, rw bad at e))
  | inr (u, good) ↦
      let one = callback-Passes k s u r good in
      let rest = run-Passes k u t rs (rw good at e) in
      record {
        taken = one.taken ++ rest.taken;
        order =
            ap (λ q. s.lock_queue k ++ q) (locks-split k r rs)
            ∙ sym (append_assoc (s.lock_queue k) (locks k (r ∷ [])) (locks k rs))
            ∙ ap (λ q. q ++ locks k rs) one.order
            ∙ append_assoc one.taken (u.lock_queue k) (locks k rs)
            ∙ ap (λ q. one.taken ++ q) rest.order
            ∙ sym (append_assoc one.taken rest.taken (t.lock_queue k));
        count = omega (
          arith,
          length-append one.taken rest.taken,
          one.count,
          rest.count,
          unlocks-split k r rs,
        );
      }
]

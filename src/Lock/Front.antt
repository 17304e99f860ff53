-- ===== src/Lock/Front.antt =====
-- Which request is at the front of a queue of the lock service, src/lock_service/lock_service.cpp,
-- when a flag is set, and how long it stays there.
use zip_log_ae.Base.{
  ℕ, ◌≡◌, ◌≢◌, ◌∙◌, sym, refl, ap, true, false, Option, some, List, [], ◌∷◌, ◌++◌, arith, inl, inr,
  ◌⊎◌, Bool-cases, Option-cases, if◌then◌else◌, ltb, ◌==◌, head?, All,
}
use zip_log_ae.Lock.{
  Action, lock, unlock, Request, Service, notify, set_queue, acquire, release, notify_next, serve,
  callback, run, is_lock,
}
use zip_log_ae.Lock.Fifo.{release-Released, acquire-queue, notify-queue, notify_next-queue}

abbrev pub front : ℕ → Service → Option Request
front k s = head? (s.lock_queue k)

-- A step that sets the flag `f`: a request with this flag is first in a queue, before or after.
pub record Sets (f : ℕ) (s t : Service) : Type 0 where
  pub request : Request
  pub key : ℕ
  pub client : request.client ≡ s.cid
  pub flag : request.flag ≡ f
  pub first : (front key s ≡ some request) ⊎ (front key t ≡ some request)

notify-cid : (s : Service) (r : Request) → (notify s r).cid ≡ s.cid
notify-cid s r = elim (Bool-cases (r.client == s.cid)) [ inl e ↦ rw e refl | inr e ↦ rw e refl ]

notify_next-cid : (s : Service) (rs : List Request) → (notify_next s rs).cid ≡ s.cid
notify_next-cid s [] = refl
notify_next-cid s (r ∷ rs) = notify-cid s r

-- A notification sets no flag but that of a request of this service's client.
notify-flags :
    (s : Service) (r : Request) (f : ℕ)
    → (notify s r).flags f ≡ true
    → (s.flags f ≡ true) ⊎ ((r.client ≡ s.cid) × (r.flag ≡ f))
notify-flags s r f e = elim (Bool-cases (r.client == s.cid)) [
  | inr other ↦ inl (rw other at e)
  | inl mine ↦ elim (Bool-cases (f == r.flag)) [
    | inl hit ↦ inr (ground (arith, mine), ground (arith, hit))
    | inr miss ↦ inl (rw (mine, miss) at e)
  ]
]

acquire-Sets :
    (f : ℕ) (s : Service) (r : Request) (queue : List Request)
    → s.flags f ≡ false
    → (acquire s r queue).flags f ≡ true
    → Sets f s (acquire s r queue)
unfolding acquire
acquire-Sets f s r [] unset e = elim (notify-flags s r f e) [
  | inl was ↦ absurd (ground (arith, unset, was))
  | inr (mine, flag) ↦ record {
    request = r;
    key = r.lock_key;
    client = mine;
    flag = flag;
    first = inr (ground arith);
  }
]
acquire-Sets f s r (first ∷ rest) unset e = absurd (ground (arith, unset, e))

-- What a release notifies: the request that leaves the queue, and the next one.
notify_next-flags :
    (s : Service) (rest : List Request) (f : ℕ)
    → (notify_next s rest).flags f ≡ true
    → (s.flags f ≡ true)
      ⊎ ((r : Request) × (head? rest ≡ some r) × (r.client ≡ s.cid) × (r.flag ≡ f))
notify_next-flags s [] f e = inl e
notify_next-flags s (r ∷ rest) f e = elim (notify-flags s r f e) [
  | inl was ↦ inl was
  | inr (mine, flag) ↦ inr (r, refl, mine, flag)
]

-- A release that ends leaves the service in this state.
release-ends :
    (s t : Service) (r top : Request) (rest : List Request)
    → release s r (top ∷ rest) ≡ some t
    → notify_next (notify (set_queue s r.lock_key rest) top) rest ≡ t
unfolding release
release-ends s t r top rest e = elim (Bool-cases (is_lock top.action)) [
  | inr bad ↦ absurd (ground (arith, rw bad at e))
  | inl good ↦ elim (Bool-cases (top.client == r.client)) [
    | inr bad ↦ absurd (ground (arith, rw (good, bad) at e))
    | inl mine ↦ elim (Bool-cases (top.lock_key == r.lock_key)) [
      | inr bad ↦ absurd (ground (arith, rw (good, mine, bad) at e))
      | inl key ↦ ground (arith, rw (good, mine, key) at e)
    ]
  ]
]

release-Sets :
    (f : ℕ) (s t : Service) (r : Request) (queue : List Request)
    → s.lock_queue r.lock_key ≡ queue
    → release s r queue ≡ some t
    → s.flags f ≡ false
    → t.flags f ≡ true
    → Sets f s t
unfolding release
release-Sets f s t r [] same e unset hit = absurd cc
release-Sets f s t r (top ∷ rest) same e unset hit =
    let ends = release-ends s t r top rest e in
    let s1 = set_queue s r.lock_key rest in
    let s2 = notify s1 top in
    let queues : t.lock_queue ≡ s1.lock_queue =
      ap (λ (u : Service). u.lock_queue) (sym ends)
      ∙ notify_next-queue s2 rest
      ∙ notify-queue s1 top in
    let cid : s2.cid ≡ s.cid = notify-cid s1 top in
    elim (notify_next-flags s2 rest f (rw ends hit)) [
      | inr (q, at, mine, flag) ↦ record {
        request = q;
        key = r.lock_key;
        client = mine ∙ cid;
        flag = flag;
        first =
            let here : s1.lock_queue r.lock_key ≡ rest = ground arith in
            inr (ap (λ l. head? (l r.lock_key)) queues ∙ ap head? here ∙ at);
      }
      | inl before ↦ elim (notify-flags s1 top f before) [
        | inl was ↦ absurd (ground (arith, unset, was))
        | inr (mine, flag) ↦ record {
          request = top;
          key = r.lock_key;
          client = mine;
          flag = flag;
          first = inl (ap head? same);
        }
      ]
    ]

serve-Sets :
    (f : ℕ) (s t : Service) (r : Request) (a : Action)
    → serve s r a ≡ some t
    → s.flags f ≡ false
    → t.flags f ≡ true
    → Sets f s t
unfolding serve
serve-Sets f s t r lock e unset hit =
    let same : acquire s r (s.lock_queue r.lock_key) ≡ t = ground (arith, e) in
    rw (sym same) (acquire-Sets f s r (s.lock_queue r.lock_key) unset (rw same hit))
serve-Sets f s t r unlock e unset hit =
    release-Sets f s t r (s.lock_queue r.lock_key) refl e unset hit

pub callback-Sets :
    (f : ℕ) (s t : Service) (r : Request)
    → callback s r ≡ some t
    → s.flags f ≡ false
    → t.flags f ≡ true
    → Sets f s t
unfolding callback
callback-Sets f s t r e unset hit = elim (Bool-cases (ltb r.lock_key s.num_keys)) [
  | inl key ↦ serve-Sets f s t r r.action (rw key at e) unset hit
  | inr bad ↦ absurd (ground (arith, rw bad at e))
]

serve-cid : (s t : Service) (r : Request) (a : Action) → serve s r a ≡ some t → t.cid ≡ s.cid
unfolding serve acquire release
serve-cid s t r lock e =
    let same : acquire s r (s.lock_queue r.lock_key) ≡ t = ground (arith, e) in
    rw (sym same) (by_queue (s.lock_queue r.lock_key))
  where
    by_queue : (queue : List Request) → (acquire s r queue).cid ≡ s.cid
    by_queue [] = notify-cid s r
    by_queue (first ∷ rest) = refl
serve-cid s t r unlock e = by_queue (s.lock_queue r.lock_key) e
  where
    by_queue : (queue : List Request) → release s r queue ≡ some t → t.cid ≡ s.cid
    by_queue [] bad = absurd cc
    by_queue (top ∷ rest) good =
        ap (λ (u : Service). u.cid) (sym (release-ends s t r top rest good))
        ∙ notify_next-cid (notify (set_queue s r.lock_key rest) top) rest
        ∙ notify-cid (set_queue s r.lock_key rest) top

callback-cid : (s t : Service) (r : Request) → callback s r ≡ some t → t.cid ≡ s.cid
unfolding callback
callback-cid s t r e = elim (Bool-cases (ltb r.lock_key s.num_keys)) [
  | inl key ↦ serve-cid s t r r.action (rw key at e)
  | inr bad ↦ absurd (ground (arith, rw bad at e))
]

-- A run that sets the flag `f`: at some point a request with this flag is first in a queue.
pub record Fronted (f : ℕ) (s t : Service) (rs : List Request) : Type 0 where
  pub early : List Request
  pub late : List Request
  pub middle : Service
  pub request : Request
  pub key : ℕ
  pub log : rs ≡ early ++ late
  pub begins : run s early ≡ some middle
  pub ends : run middle late ≡ some t
  pub client : request.client ≡ s.cid
  pub flag : request.flag ≡ f
  pub first : front key middle ≡ some request

pub run-Fronted :
    (f : ℕ) (s t : Service) (rs : List Request)
    → run s rs ≡ some t
    → s.flags f ≡ false
    → t.flags f ≡ true
    → Fronted f s t rs
unfolding run
run-Fronted f s t [] e unset hit =
    let same : s ≡ t = ground (arith, e) in
    let set : s.flags f ≡ true = rw same hit in absurd (ground (arith, unset, set))
run-Fronted f s t (r ∷ rs) e unset hit = elim (Option-cases (callback s r)) [
  | inl bad ↦ absurd (ground (arith, rw bad at e))
  | inr (u, good) ↦
      let rest : run u rs ≡ some t = rw good at e in
      elim (Bool-cases (u.flags f)) [
        | inr later ↦
            let more = run-Fronted f u t rs rest later hit in
            record {
              early = r ∷ more.early;
              late = more.late;
              middle = more.middle;
              request = more.request;
              key = more.key;
              log = ap (◌∷◌ r) more.log;
              begins = rw (run, good) more.begins;
              ends = more.ends;
              client = more.client ∙ callback-cid s u r good;
              flag = more.flag;
              first = more.first;
            }
        | inl now ↦
            let set = callback-Sets f s u r good unset now in
            elim set.first [
              | inl before ↦ record {
                early = [];
                late = r ∷ rs;
                middle = s;
                request = set.request;
                key = set.key;
                log = refl;
                begins = refl;
                ends = e;
                client = set.client;
                flag = set.flag;
                first = before;
              }
              | inr after ↦ record {
                early = r ∷ [];
                late = rs;
                middle = u;
                request = set.request;
                key = set.key;
                log = refl;
                begins = rw (run, good) refl;
                ends = rest;
                client = set.client;
                flag = set.flag;
                first = after;
              }
            ]
      ]
]

-- A request that unlocks a key is not by a client.
abbrev pub Spares : ℕ → ℕ → Request → Type 0
Spares k client r = r.action ≡ unlock → r.lock_key ≡ k → r.client ≢ client

acquire-front :
    (k : ℕ) (s : Service) (x r : Request) (queue : List Request)
    → s.lock_queue x.lock_key ≡ queue
    → front k s ≡ some r
    → front k (acquire s x queue) ≡ some r
acquire-front k s x r queue same e = elim (Bool-cases (k == x.lock_key)) [
  | inl hit ↦
      let key : k ≡ x.lock_key = ground arith in
      let there : head? queue ≡ some r = ap head? (sym same) ∙ rw key at e in
      ap head?
        (acquire-queue s x queue k ∙ ap (λ b. if b then queue ++ x ∷ [] else s.lock_queue k) hit)
      ∙ head-append queue there
  | inr miss ↦
      ap head?
        (acquire-queue s x queue k ∙ ap (λ b. if b then queue ++ x ∷ [] else s.lock_queue k) miss)
      ∙ e
]
  where
    head-append : (q : List Request) → head? q ≡ some r → head? (q ++ x ∷ []) ≡ some r
    head-append [] h = cc
    head-append (y ∷ q) h = h

release-front :
    (k : ℕ) (s t : Service) (x r : Request) (queue : List Request)
    → s.lock_queue x.lock_key ≡ queue
    → x.action ≡ unlock
    → Spares k r.client x
    → front k s ≡ some r
    → release s x queue ≡ some t
    → front k t ≡ some r
release-front k s t x r queue same a spares e good =
    let d = release-Released s t x queue good in
    elim (Bool-cases (k == x.lock_key)) [
      | inr miss ↦ rw (d.others k, miss) e
      | inl hit ↦
          let key : x.lock_key ≡ k = ground arith in
          let top : some d.holder ≡ some r =
            ap head? (sym d.eq) ∙ ap head? (sym same) ∙ rw (sym key) at e in
          let holder : d.holder ≡ r = cc in
          absurd (spares a key (sym d.client ∙ ap (λ (q : Request). q.client) holder))
    ]

serve-front :
    (k : ℕ) (s t : Service) (x r : Request) (a : Action)
    → x.action ≡ a
    → Spares k r.client x
    → front k s ≡ some r
    → serve s x a ≡ some t
    → front k t ≡ some r
unfolding serve
serve-front k s t x r lock a spares e good =
    let same : acquire s x (s.lock_queue x.lock_key) ≡ t = ground (arith, good) in
    rw (sym same) (acquire-front k s x r (s.lock_queue x.lock_key) refl e)
serve-front k s t x r unlock a spares e good =
    release-front k s t x r (s.lock_queue x.lock_key) refl a spares e good

-- The request at the front of a queue stays there until its client unlocks the key.
pub run-front :
    (k : ℕ) (s t : Service) (r : Request) (rs : List Request)
    → run s rs ≡ some t
    → All (Spares k r.client) rs
    → front k s ≡ some r
    → front k t ≡ some r
unfolding run callback
run-front k s t r [] good spares e = let same : s ≡ t = ground (arith, good) in rw (sym same) e
run-front k s t r (x ∷ xs) good spares e = elim (Option-cases (callback s x)) [
  | inl bad ↦ absurd (ground (arith, rw bad at good))
  | inr (u, one) ↦
      run-front k u t r xs (rw one at good) spares.1
        (elim (Bool-cases (ltb x.lock_key s.num_keys)) [
          | inl key ↦ serve-front k s u x r x.action refl spares.0 e (rw key at one)
          | inr bad ↦ absurd (ground (arith, rw bad at one))
        ])
]

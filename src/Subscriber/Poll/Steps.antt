-- ===== src/Subscriber/Poll/Steps.antt =====
-- What the handler of src/subscriber/subscriber.cpp, `poll`, does on each of its branches.
use zip_log_ae.Base.{
  ℕ, ◌≡◌, ◌≢◌, ◌⊎◌, refl, sym, ap, ◌∙◌, Option, none, some, Bool, true, false, ◌&&◌, List, [], ◌∷◌,
  if◌then◌else◌, ltb, leb, ◌==◌, add64, find, assign, erase, find-assign, find-assign_other, inl,
  inr, arith, Bool-cases,
}
use zip_log_ae.Order.{num_shards}
use zip_log_ae.Subscriber.Log.{insert, Log, Position}
use zip_log_ae.Subscriber.Poll.{
  Message, Poll, Latest, gsn_of, num_acks, set_acks, or_new, info_of, set_info, is_same, is_old,
  Result, deliver_entry, count_copy, keep_copy, on_log_entry,
}

-- The latest GSN of a thread of a shard, 2 ^ 64 - 1 for none.
abbrev pub latest : Poll → ℕ → ℕ → ℕ
latest p s t = (or_new (find t (p.shard_info s))).gsn

abbrev pub is_of : ℕ → ℕ → Message → Bool
is_of s t m = (s == m.entry.shard_id) && (t == m.thread_id)

latest-set_info :
    (p : Poll) (m : Message) (info : Latest) (s t : ℕ)
    → latest (set_info p m info) s t ≡ (if is_of s t m then info.gsn else latest p s t)
unfolding set_info
latest-set_info p m info s t = elim (Bool-cases (s == m.entry.shard_id)) [
  | inr other ↦ rw (latest, other) refl
  | inl here ↦
      let shard : s ≡ m.entry.shard_id = ground (arith, here) in
      elim (Bool-cases (t == m.thread_id)) [
        | inl mine ↦
            let thread : t ≡ m.thread_id = ground (arith, mine) in
            rw (latest, here, mine, thread)
              (ap (λ o. (or_new o).gsn)
                (find-assign m.thread_id info (p.shard_info m.entry.shard_id)))
        | inr other ↦
            let thread : t ≢ m.thread_id = ground (arith, other) in
            rw (latest, here, other, shard)
              (ap (λ o. (or_new o).gsn)
                (find-assign_other t m.thread_id info (p.shard_info m.entry.shard_id) thread))
      ]
]

-- The entry that is kept for a copy: the copy itself, or the one that it agrees with.
abbrev pub Kept : Option Message → Message → Message → Type 0
Kept none m e = e ≡ set_acks m 0
Kept (some kept) m e = (e ≡ kept) × (is_same kept m ≡ true)

abbrev pub bump : Message → Message
bump e = set_acks e (add64 (num_acks e) 1)

-- The copy changes nothing: it is old, or does not agree with the one that is kept.
abbrev pub Refused : Poll → Message → Type 0
Refused p m =
    (is_old (latest p m.entry.shard_id m.thread_id) m ≡ true)
    ⊎ ((kept : Message) × (find (gsn_of m) p.current_requests ≡ some kept)
        × (is_same kept m ≡ false))

-- What a step does with the entry that is kept.
pub data Effect (failures : ℕ) (p : Poll) (m : Message) (q : Poll) (ds : List Message)
    : Type 0 where
  refused :
      Refused p m
      → q.current_requests ≡ p.current_requests
      → ((s t : ℕ) → latest q s t ≡ latest p s t)
      → ds ≡ []
      → Effect failures p m q ds
  counted :
      (e : Message)
      → Kept (find (gsn_of m) p.current_requests) m e
      → ltb failures (num_acks (bump e)) ≡ false
      → q.current_requests ≡ assign (gsn_of m) (bump e) p.current_requests
      → ((s t : ℕ) → latest q s t ≡ latest p s t)
      → ds ≡ []
      → Effect failures p m q ds
  delivered :
      (e : Message)
      → is_old (latest p m.entry.shard_id m.thread_id) m ≡ false
      → Kept (find (gsn_of m) p.current_requests) m e
      → ltb failures (num_acks (bump e)) ≡ true
      → q.current_requests ≡ erase (gsn_of m) (assign (gsn_of m) (bump e) p.current_requests)
      → ((s t : ℕ) → latest q s t ≡ (if is_of s t m then gsn_of m else latest p s t))
      → ds ≡ bump e ∷ []
      → Effect failures p m q ds

-- The thread's own entry in the map is there from the first copy on.
latest-own :
    (p : Poll) (m : Message) (s t : ℕ) → latest (set_info p m (info_of p m)) s t ≡ latest p s t
latest-own p m s t = elim (Bool-cases (s == m.entry.shard_id)) [
  | inr other ↦ latest-set_info p m (info_of p m) s t ∙ rw other refl
  | inl here ↦ elim (Bool-cases (t == m.thread_id)) [
    | inr other ↦ latest-set_info p m (info_of p m) s t ∙ rw (here, other) refl
    | inl mine ↦
        let shard : s ≡ m.entry.shard_id = ground (arith, here) in
        let thread : t ≡ m.thread_id = ground (arith, mine) in
        latest-set_info p m (info_of p m) s t ∙ rw (here, mine) (rw (shard, thread) refl)
  ]
]

ends :
    (p q : Poll) (ds es : List Message)
    → ◌≡◌ {A = Result} (some (p, ds)) (some (q, es))
    → (p ≡ q) × (ds ≡ es)
ends p q ds es r = (cc, cc)

deliver_entry-Effect :
    (failures : ℕ) (p p' : Poll) (m e : Message) (o : Option (Log × Position)) (q : Poll)
    (ds : List Message)
    → is_old (latest p m.entry.shard_id m.thread_id) m ≡ false
    → Kept (find (gsn_of m) p.current_requests) m e
    → ltb failures (num_acks (bump e)) ≡ true
    → p'.current_requests ≡ assign (gsn_of m) (bump e) p.current_requests
    → ((s t : ℕ) → latest p' s t ≡ latest p s t)
    → deliver_entry p' m (bump e) o ≡ some (q, ds)
    → Effect failures p m q ds
unfolding set_info
deliver_entry-Effect failures p p' m e none q ds fresh kept more reqs same r = absurd cc
deliver_entry-Effect failures p p' m e (some (l, position)) q ds fresh kept more reqs same r =
    let p1 : Poll = record p' {
      log = l;
      current_requests = erase (gsn_of m) p'.current_requests;
    } in
    let info : Latest = record { gsn = gsn_of m; position = position } in
    let (state, out) = ends (set_info p1 m info) q (bump e ∷ []) ds r in
    delivered e fresh kept more
      (ap (λ x. x.current_requests) (sym state) ∙ ap (erase (gsn_of m)) reqs)
      (λ s t.
        ap (λ x. latest x s t) (sym state)
        ∙ latest-set_info p1 m info s t
        ∙ ap (λ n. if is_of s t m then gsn_of m else n) (same s t))
      (sym out)

count_copy-Effect :
    (failures : ℕ) (p p' : Poll) (m e : Message) (q : Poll) (ds : List Message)
    → is_old (latest p m.entry.shard_id m.thread_id) m ≡ false
    → Kept (find (gsn_of m) p.current_requests) m e
    → p'.current_requests ≡ p.current_requests
    → ((s t : ℕ) → latest p' s t ≡ latest p s t)
    → count_copy failures p' m e ≡ some (q, ds)
    → Effect failures p m q ds
unfolding count_copy
count_copy-Effect failures p p' m e q ds fresh kept reqs same r =
    let q' = record p' { current_requests = assign (gsn_of m) (bump e) p'.current_requests } in
    let reqs' = ap (assign (gsn_of m) (bump e)) reqs in
    elim (Bool-cases (ltb failures (num_acks (bump e)))) [
      | inl more ↦
          deliver_entry-Effect failures p q' m e
            (insert q'.log (info_of p' m).position (bump e).entry) q ds fresh kept more reqs' same
            (rw more at r)
      | inr less ↦
          let (state, out) = ends q' q [] ds (rw less at r) in
          counted e kept less (ap (λ x. x.current_requests) (sym state) ∙ reqs')
            (λ s t. ap (λ x. latest x s t) (sym state) ∙ same s t) (sym out)
    ]

keep_copy-Effect :
    (failures : ℕ) (p p' : Poll) (m : Message) (o : Option Message) (q : Poll) (ds : List Message)
    → is_old (latest p m.entry.shard_id m.thread_id) m ≡ false
    → find (gsn_of m) p.current_requests ≡ o
    → p'.current_requests ≡ p.current_requests
    → ((s t : ℕ) → latest p' s t ≡ latest p s t)
    → keep_copy failures p' m o ≡ some (q, ds)
    → Effect failures p m q ds
unfolding keep_copy
keep_copy-Effect failures p p' m none q ds fresh there reqs same r =
    count_copy-Effect failures p p' m (set_acks m 0) q ds fresh (rw there refl) reqs same r
keep_copy-Effect failures p p' m (some e) q ds fresh there reqs same r =
    elim (Bool-cases (is_same e m)) [
      | inl agrees ↦
          count_copy-Effect failures p p' m e q ds fresh (rw there (refl, agrees)) reqs same
            (rw agrees at r)
      | inr differs ↦
          let (state, out) = ends p' q [] ds (rw differs at r) in
          refused (inr (e, there, differs)) (ap (λ x. x.current_requests) (sym state) ∙ reqs)
            (λ s t. ap (λ x. latest x s t) (sym state) ∙ same s t) (sym out)
    ]

-- Every step that ends has one of the three effects.
pub on_log_entry-Effect :
    (failures : ℕ) (p : Poll) (m : Message) (q : Poll) (ds : List Message)
    → on_log_entry failures p m ≡ some (q, ds)
    → Effect failures p m q ds
unfolding on_log_entry set_info
on_log_entry-Effect failures p m q ds r =
    let p' = set_info p m (info_of p m) in
    let same = latest-own p m in
    elim (Bool-cases (leb num_shards m.entry.shard_id)) [
      | inl bad ↦ absurd (ground (arith, rw bad at r))
      | inr good ↦ elim (Bool-cases (is_old (info_of p m).gsn m)) [
        | inl old ↦
            let (state, out) = ends p' q [] ds (rw (good, old) at r) in
            refused (inl old) (ap (λ x. x.current_requests) (sym state) ∙ refl)
              (λ s t. ap (λ x. latest x s t) (sym state) ∙ same s t) (sym out)
        | inr fresh ↦
            keep_copy-Effect failures p p' m (find (gsn_of m) p.current_requests) q ds fresh refl
              refl same (rw (good, fresh) at r)
      ]
    ]

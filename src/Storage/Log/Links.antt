-- ===== src/Storage/Log/Links.antt =====
-- The links between the entries of a client in src/storage/log.cpp.
use native.Mathlib.Numerals.{add-one}
use mathlib.Core.List.{append-nil}
use zip_log_ae.Base.{
  ℕ, zero, suc, ◌+◌, ◌*◌, ◌≤◌, ◌<◌, ◌≡◌, ◌≢◌, ◌∙◌, sym, refl, ap, Option, none, some, List, [], ◌∷◌,
  ◌++◌, arith, if◌then◌else◌, ◌==◌, head?, inl, inr, Bool-cases, ℕ_discrete, u64_max,
}
use zip_log_ae.Storage.Log.{
  Log, Entry, zeroed, new_log, num_entries_per_block, update, grow, link, write_slot, count_entry,
  append_at, append_entry, yield_slot, Filling,
}
use zip_log_ae.Storage.Log.Owned.{
  owned, last_before, owned-snoc, owned-zero, last_before-lt, owned-last, owned-not_last,
  owned-none, owned-some, owned-ext, last_before-ext,
}

abbrev pub owner : (ℕ → Entry) → ℕ → ℕ
owner m a = (m a).client_id

-- The first `n` places are linked to their client's places before and after, the first and the last
-- place of every client are known, and the other cells are as they were allocated.
pub record Chained (m : ℕ → Entry) (first last : ℕ → Option ℕ) (n : ℕ) : Type 0 where
  pub firsts : (c : ℕ) → first c ≡ head? (owned (owner m) c 0 n)
  pub lasts : (c : ℕ) → last c ≡ last_before (owner m) c n
  pub nexts : (a k : ℕ) → a + 1 + k ≡ n → (m a).next ≡ head? (owned (owner m) (owner m a) (a + 1) k)
  pub prevs : (a : ℕ) → a < n → (m a).prev ≡ last_before (owner m) (owner m a) a
  pub fresh : (a : ℕ) → n ≤ a → m a ≡ zeroed

-- The number of entries is the place behind the last one in use.
pub record IsPlaced (l : Log) : Type 0 where
  pub place : l.block_index * num_entries_per_block + l.entry_index ≡ l.current_entries
  pub room : l.entry_index ≤ num_entries_per_block
  pub blocks : l.blocks ≡ l.block_index + 1

pub record WellLinked (l : Log) : Type 0 where
  pub chained : Chained l.cells l.first l.last l.current_entries
  pub placed : IsPlaced l

pub new_log-WellLinked : WellLinked new_log
unfolding new_log owned last_before
new_log-WellLinked = record {
  chained = record {
    firsts = λ c. refl;
    lasts = λ c. refl;
    nexts = λ a k e. absurd (omega arith);
    prevs = λ a h. absurd (omega arith);
    fresh = λ a h. refl;
  };
  placed = record { place = omega arith; room = omega arith; blocks = omega arith };
}

grow-IsPlaced :
    (l : Log) → IsPlaced l → IsPlaced (grow l) × ((grow l).entry_index < num_entries_per_block)
unfolding grow
grow-IsPlaced l w = ground arith

grow-Chained :
    (l : Log)
    → Chained l.cells l.first l.last l.current_entries
    → Chained (grow l).cells (grow l).first (grow l).last (grow l).current_entries
unfolding grow
grow-Chained l w = elim (Bool-cases (l.entry_index == num_entries_per_block)) [
  | inl full ↦ rw full w
  | inr space ↦ rw space w
]

head?-append-cons : (xs ys : List ℕ) → xs ≢ [] → head? (xs ++ ys) ≡ head? xs
head?-append-cons [] ys h = absurd (h refl)
head?-append-cons (x ∷ xs) ys h = refl

-- One more place, `n`, for the client `c`; the cells before it keep their owners.
module _ (o o' : ℕ → ℕ) (c n : ℕ) (same : (x : ℕ) → x < n → o' x ≡ o x) (mine : o' n ≡ c) where
  last_before-extend :
      (d : ℕ) → last_before o' d (suc n) ≡ (if d == c then some n else last_before o d n)
  unfolding last_before
  last_before-extend d = ground (arith, last_before-ext o o' d n same)

  pub owned-extend :
      (d k lo : ℕ)
      → lo + k ≡ n
      → owned o' d lo (suc k) ≡ owned o d lo k ++ (if d == c then n ∷ [] else [])
  owned-extend d k lo e =
      owned-snoc o' d k lo n e
      ∙ rw (owned-ext o o' d k lo (λ x h. same x (omega arith)), mine)
          (ap (◌++◌ (owned o d lo k)) (ground arith))

  owned-hit : (k lo : ℕ) → lo + k ≡ n → owned o' c lo (suc k) ≡ owned o c lo k ++ n ∷ []
  owned-hit k lo e = ground (arith, owned-extend c k lo e)

  owned-miss : (d k lo : ℕ) → lo + k ≡ n → d ≢ c → owned o' d lo (suc k) ≡ owned o d lo k
  owned-miss d k lo e other = ground (arith, owned-extend d k lo e, append-nil (owned o d lo k))

  next-new :
      (a k : ℕ)
      → a + 1 + k ≡ n
      → last_before o c n ≡ some a
      → head? (owned o' (o a) (a + 1) (suc k)) ≡ some n
  next-new a k e l =
      let was = last_before-lt o c n a l in
      rw (was.1, owned-hit k (a + 1) e, owned-last o c k n a e l)

  next-old :
      (a k : ℕ)
      → a + 1 + k ≡ n
      → last_before o c n ≢ some a
      → head? (owned o' (o a) (a + 1) (suc k)) ≡ head? (owned o (o a) (a + 1) k)
  next-old a k e l = elim (ℕ_discrete (o a) c) [
    | yes hit ↦
        rw (hit, owned-hit k (a + 1) e)
          (head?-append-cons (owned o c (a + 1) k) _ (owned-not_last o c k n a e hit l))
    | no miss ↦ rw (owned-miss (o a) k (a + 1) e miss)
  ]

  first-new : last_before o c n ≡ none → head? (owned o' c 0 (suc n)) ≡ some n
  first-new l = rw (owned-hit n 0 (omega arith), owned-none o c n l)

  first-kept :
      (b : ℕ) → last_before o c n ≡ some b → head? (owned o' c 0 (suc n)) ≡ head? (owned o c 0 n)
  first-kept b l =
      rw (owned-hit n 0 (omega arith)) (head?-append-cons (owned o c 0 n) _ (owned-some o c n b l))

  first-other : (d : ℕ) → d ≢ c → head? (owned o' d 0 (suc n)) ≡ head? (owned o d 0 n)
  first-other d other = rw (owned-miss d n 0 (omega arith) other)

-- What `yield` makes of the cells, by whether the client had an entry.
module _ (m : ℕ → Entry) (first last : ℕ → Option ℕ) (n gsn c : ℕ)
    (w : Chained m first last n) where
  abbrev written : ℕ → Entry
  written = update m n (record (m n) { gsn = gsn; client_id = c })

  abbrev linked : ℕ → ℕ → Entry
  linked b =
      let back = update written n (record (written n) { prev = some b }) in
      update back b (record (back b) { next = some n })

  module _ (m' : ℕ → Entry) (same : (x : ℕ) → x < n → owner m' x ≡ owner m x)
      (mine : owner m' n ≡ c) where
    lasts-extend : (d : ℕ) → update last c (some n) d ≡ last_before (owner m') d (suc n)
    lasts-extend d =
        ground (arith, last_before-extend (owner m) (owner m') c n same mine d, w.lasts d)

    prev-old : (a : ℕ) → a < n → last_before (owner m') (owner m' a) a ≡ (m a).prev
    prev-old a h = rw (same a h) (
        last_before-ext (owner m) (owner m') (owner m a) a (λ x lt. same x (omega arith))
        ∙ sym (w.prevs a h))

    prev-new : last_before (owner m') (owner m' n) n ≡ last c
    prev-new = rw mine (last_before-ext (owner m) (owner m') c n same ∙ sym (w.lasts c))

    next-end : (a : ℕ) → head? (owned (owner m') (owner m' a) (a + 1) zero) ≡ none
    next-end a = rw (owned-zero (owner m') (owner m' a) (a + 1))

    next-kept :
        (a k : ℕ)
        → a + 1 + k ≡ n
        → last c ≢ some a
        → head? (owned (owner m') (owner m' a) (a + 1) (suc k)) ≡ (m a).next
    next-kept a k e other = rw (same a (omega arith)) (
        next-old (owner m) (owner m') c n same mine a k e (λ l. other (w.lasts c ∙ l))
        ∙ sym (w.nexts a k e))

    first-same : (d : ℕ) → d ≢ c → head? (owned (owner m') d 0 (suc n)) ≡ first d
    first-same d other = first-other (owner m) (owner m') c n same mine d other ∙ sym (w.firsts d)

  written-next : (a : ℕ) → (written a).next ≡ (m a).next
  written-next a = ground arith

  extend-none :
      last c ≡ none → Chained written (update first c (some n)) (update last c (some n)) (suc n)
  extend-none l = record {
    firsts = λ d. elim (ℕ_discrete d c) [
      | yes hit ↦
          ground (arith, first-new (owner m) (owner written) c n same mine (sym (w.lasts c) ∙ l))
      | no miss ↦ ground (arith, first-same written same mine d miss)
    ];
    lasts = lasts-extend written same mine;
    nexts = links;
    prevs = λ a h. elim (ℕ_discrete a n) [
      | yes new ↦ ground (arith, prev-new written same mine, w.fresh n)
      | no old ↦ ground (arith, prev-old written same mine a)
    ];
    fresh = λ a h. ground (arith, w.fresh a);
  }
    where
      same : (x : ℕ) → x < n → owner written x ≡ owner m x
      same x h = ground arith

      mine : owner written n ≡ c
      mine = ground arith

      links :
          (a k : ℕ)
          → a + 1 + k ≡ suc n
          → (written a).next ≡ head? (owned (owner written) (owner written a) (a + 1) k)
      links a zero e = ground (arith, next-end written same mine a, w.fresh a)
      links a (suc k) e =
          written-next a ∙ sym (next-kept written same mine a k (omega arith) (λ s. cc))

  extend-some :
      (b : ℕ) → last c ≡ some b → Chained (linked b) first (update last c (some n)) (suc n)
  extend-some b l = record {
    firsts = λ d. elim (ℕ_discrete d c) [
      | yes hit ↦
          rw hit (w.firsts c ∙ sym (first-kept (owner m) (owner (linked b)) c n same mine b tip))
      | no miss ↦ sym (first-same (linked b) same mine d miss)
    ];
    lasts = lasts-extend (linked b) same mine;
    nexts = links;
    prevs = λ a h. elim (ℕ_discrete a n) [
      | yes new ↦ ground (arith, prev-new (linked b) same mine, was.0)
      | no old ↦ ground (arith, prev-old (linked b) same mine a, was.0)
    ];
    fresh = λ a h. ground (arith, w.fresh a, was.0);
  }
    where
      tip : last_before (owner m) c n ≡ some b
      tip = sym (w.lasts c) ∙ l

      was : (b < n) × (owner m b ≡ c)
      was = last_before-lt (owner m) c n b tip

      same : (x : ℕ) → x < n → owner (linked b) x ≡ owner m x
      same x h = ground (arith, was.0)

      mine : owner (linked b) n ≡ c
      mine = ground (arith, was.0)

      to_new :
          (a k : ℕ)
          → a + 1 + k ≡ n
          → a ≡ b
          → head? (owned (owner (linked b)) (owner (linked b) a) (a + 1) (suc k)) ≡ some n
      to_new a k e hit =
          rw (same a (omega arith))
            (next-new (owner m) (owner (linked b)) c n same mine a k e (tip ∙ ap some (sym hit)))

      next-tip : (a : ℕ) → a ≡ b → (linked b a).next ≡ some n
      next-tip a hit = ground arith

      links :
          (a k : ℕ)
          → a + 1 + k ≡ suc n
          → (linked b a).next ≡ head? (owned (owner (linked b)) (owner (linked b) a) (a + 1) k)
      links a zero e = ground (arith, next-end (linked b) same mine a, w.fresh a, was.0)
      links a (suc k) e = elim (ℕ_discrete a b) [
        | yes hit ↦ next-tip a hit ∙ sym (to_new a k (omega arith) hit)
        | no miss ↦ ground (arith, next-kept (linked b) same mine a k)
      ]

abbrev IsChained : Log → Type 0
IsChained l = Chained l.cells l.first l.last l.current_entries

link-Chained :
    (o : Option ℕ) (a : ℕ) (l : Log) (gsn c : ℕ)
    → IsChained l
    → a ≡ l.current_entries
    → l.last c ≡ o
    → IsChained (count_entry (link o (write_slot l a gsn c) a c))
unfolding link
link-Chained none a l gsn c w here e =
    rw (add-one, here) (extend-none l.cells l.first l.last l.current_entries gsn c w e)
link-Chained (some b) a l gsn c w here e =
    rw (add-one, here) (extend-some l.cells l.first l.last l.current_entries gsn c w b e)

append_at-Chained :
    (a : ℕ) (l : Log) (gsn c : ℕ)
    → IsChained l
    → a ≡ l.current_entries
    → IsChained (append_at a l gsn c)
unfolding append_at
append_at-Chained a l gsn c w here = link-Chained (l.last c) a l gsn c w here refl

append_at-IsPlaced :
    (a : ℕ) (l : Log) (gsn c : ℕ)
    → IsPlaced l
    → l.entry_index < num_entries_per_block
    → IsPlaced (append_at a l gsn c)
unfolding append_at
append_at-IsPlaced a l gsn c w space = ground arith

append_entry-WellLinked :
    (l : Log) (gsn c : ℕ)
    → WellLinked l
    → l.entry_index < num_entries_per_block
    → WellLinked (append_entry l gsn c)
unfolding append_entry
append_entry-WellLinked l gsn c w space = record {
  chained = append_at-Chained _ l gsn c w.chained w.placed.place;
  placed = append_at-IsPlaced _ l gsn c w.placed space;
}

pub grow-WellLinked : (l : Log) → WellLinked l → WellLinked (grow l)
grow-WellLinked l w = record {
  chained = grow-Chained l w.chained;
  placed = (grow-IsPlaced l w.placed).0;
}

pub grow_append-WellLinked :
    (l : Log) (gsn c : ℕ) → WellLinked l → WellLinked (append_entry (grow l) gsn c)
grow_append-WellLinked l gsn c w =
    append_entry-WellLinked (grow l) gsn c (grow-WellLinked l w) (grow-IsPlaced l w.placed).1

-- A slot of another shard leaves the log; one of this shard's clients adds an entry.
pub yield_slot-WellLinked :
    (c : ℕ) (s : Filling) → WellLinked s.log → WellLinked (yield_slot c s).log
unfolding yield_slot
yield_slot-WellLinked c s w = elim (Bool-cases (c == u64_max)) [
  | inl skip ↦ rw skip w
  | inr mine ↦ rw mine (grow_append-WellLinked s.log s.start_gsn c w)
]

link-owner :
    (o : Option ℕ) (a : ℕ) (l : Log) (gsn c x : ℕ)
    → owner (link o (write_slot l a gsn c) a c).cells x ≡ (if x == a then c else owner l.cells x)
unfolding link
link-owner none a l gsn c x = ground arith
link-owner (some b) a l gsn c x = ground arith

pub append_entry-owner :
    (l : Log) (gsn c x : ℕ)
    → WellLinked l
    → owner (append_entry l gsn c).cells x ≡ (if x == l.current_entries then c else owner l.cells x)
unfolding append_entry
append_entry-owner l gsn c x w =
    let a = l.block_index * num_entries_per_block + l.entry_index in
    link-owner (l.last c) a l gsn c x
    ∙ ap (λ (k : ℕ). if x == k then c else owner l.cells x) w.placed.place

link-count :
    (o : Option ℕ) (a : ℕ) (l : Log) (gsn c : ℕ)
    → (link o (write_slot l a gsn c) a c).current_entries ≡ l.current_entries
unfolding link
link-count none a l gsn c = refl
link-count (some b) a l gsn c = refl

pub append_entry-count :
    (l : Log) (gsn c : ℕ) → (append_entry l gsn c).current_entries ≡ suc l.current_entries
unfolding append_entry
append_entry-count l gsn c =
    omega
      (arith, link-count (l.last c) (l.block_index * num_entries_per_block + l.entry_index) l gsn c)

abbrev pub gsn_at : (ℕ → Entry) → ℕ → ℕ
gsn_at m a = (m a).gsn

link-gsn :
    (o : Option ℕ) (a : ℕ) (l : Log) (gsn c x : ℕ)
    → gsn_at (link o (write_slot l a gsn c) a c).cells x
      ≡ (if x == a then gsn else gsn_at l.cells x)
unfolding link
link-gsn none a l gsn c x = ground arith
link-gsn (some b) a l gsn c x = ground arith

pub append_entry-gsn :
    (l : Log) (gsn c x : ℕ)
    → WellLinked l
    → gsn_at (append_entry l gsn c).cells x
      ≡ (if x == l.current_entries then gsn else gsn_at l.cells x)
unfolding append_entry
append_entry-gsn l gsn c x w =
    let a = l.block_index * num_entries_per_block + l.entry_index in
    link-gsn (l.last c) a l gsn c x
    ∙ ap (λ (k : ℕ). if x == k then gsn else gsn_at l.cells x) w.placed.place

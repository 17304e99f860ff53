-- ===== src/Subscriber/Poll/Pending.antt =====
-- A log entry that src/subscriber/subscriber.cpp has not delivered yet, and a copy that comes in.
use zip_log_ae.Base.{
  ℕ, ◌≡◌, ◌≢◌, ◌≤◌, ◌<◌, ◌⊎◌, refl, sym, ap, ◌∙◌, Option, none, some, Bool, true, false, ◌&&◌, List,
  [], ◌∷◌, ◌++◌, if◌then◌else◌, ltb, ◌==◌, u64_max, find, assign, find-assign, find-assign_other,
  find-erase_other, All-find, inl, inr, arith, Bool-cases,
}
use zip_log_ae.Subscriber.Poll.{Message, Poll, gsn_of, num_acks, is_same, is_old}
use zip_log_ae.Subscriber.Poll.Steps.{
  latest, is_of, Kept, bump, Effect, refused, counted, delivered,
}
use zip_log_ae.Subscriber.Poll.Quorum.{copies, Sound, IsSound, keep-Raised, on_log_entry-Sound}

-- Whether the copies with the GSN of `t` are copies of it.
abbrev pub agrees : Message → List Message → Bool
agrees t [] = true
agrees t (m ∷ ms) =
    let rest = agrees t ms in if gsn_of m == gsn_of t then is_same t m && rest else rest

-- Whether no later GSN of the thread of `t` has come as often as that of `t`, but after it: `seen`
-- are the packets before. Servers that send in the order of the GSNs, each on a queue that keeps the
-- order, see to that.
abbrev pub leads : Message → List Message → List Message → Bool
leads t seen [] = true
leads t seen (m ∷ ms) =
    let rest = leads t (m ∷ seen) ms in
    if is_of t.entry.shard_id t.thread_id m && ltb (gsn_of t) (gsn_of m)
    then ltb (copies (gsn_of m) seen) (copies (gsn_of t) seen) && rest
    else rest

-- What is counted for `t`: what is kept under its GSN.
abbrev pub Tally : Message → List Message → Option Message → Type 0
Tally t seen none = copies (gsn_of t) seen ≡ 0
Tally t seen (some e) = (num_acks e ≡ copies (gsn_of t) seen) × (is_same e t ≡ true)

-- The state while `t` has not been delivered.
pub record Pending (failures : ℕ) (t : Message) (seen : List Message) (p : Poll) : Type 0 where
  pub sound : Sound failures seen p
  pub fresh : is_old (latest p t.entry.shard_id t.thread_id) t ≡ false
  pub tally : Tally t seen (find (gsn_of t) p.current_requests)

-- An entry with the GSN of `t` that is a copy of it is among those delivered.
abbrev pub Delivers : Message → List Message → Type 0
Delivers t [] = ⊥
Delivers t (d ∷ ds) = ((gsn_of d ≡ gsn_of t) × (is_same d t ≡ true)) ⊎ Delivers t ds

pub same_sym : (a b : Message) → is_same a b ≡ true → is_same b a ≡ true
same_sym a b h = ground arith

pub same_trans : (a b c : Message) → is_same a b ≡ true → is_same b c ≡ true → is_same a c ≡ true
same_trans a b c h k = ground arith

-- A copy of another GSN leaves what is counted for `t`.
other_copy-Tally :
    (t m : Message) (seen : List Message) (o : Option Message)
    → (gsn_of m == gsn_of t) ≡ false
    → Tally t seen o
    → Tally t (m ∷ seen) o
other_copy-Tally t m seen none other h = rw other h
other_copy-Tally t m seen (some e) other (h, k) = (rw other h, k)

pub Delivers-append : (t : Message) (xs ys : List Message) → Delivers t ys → Delivers t (xs ++ ys)
Delivers-append t [] ys h = h
Delivers-append t (x ∷ xs) ys h = inr (Delivers-append t xs ys h)

pub Delivers-first : (t : Message) (xs ys : List Message) → Delivers t xs → Delivers t (xs ++ ys)
Delivers-first t [] ys h = absurd h
Delivers-first t (x ∷ xs) ys (inl h) = inl h
Delivers-first t (x ∷ xs) ys (inr h) = inr (Delivers-first t xs ys h)

-- What is counted for `t` is within the failures.
pub tallied-le :
    (failures : ℕ) (t : Message) (seen : List Message) (p : Poll) (o : Option Message)
    → Sound failures seen p
    → find (gsn_of t) p.current_requests ≡ o
    → Tally t seen o
    → copies (gsn_of t) seen ≤ failures
unfolding Sound
tallied-le failures t seen p none h there e = omega (arith, e)
tallied-le failures t seen p (some k) h there (e, same) =
    let (gsn, few, held, all) =
      All-find (IsSound failures seen) (gsn_of t) k p.current_requests h there in
    omega (arith, e, few)

keep-Tally :
    (t m e : Message) (seen : List Message) (o : Option Message)
    → is_same t m ≡ true
    → Kept o m e
    → Tally t seen o
    → (num_acks e ≡ copies (gsn_of t) seen) × (is_same e t ≡ true)
keep-Tally t m e seen none same kept h = rw kept (sym h, same_sym t m same)
keep-Tally t m e seen (some old) same (kept, like) h = rw kept h

same_is_old :
    (p : Poll) (t m : Message)
    → is_same t m ≡ true
    → gsn_of m ≡ gsn_of t
    → is_old (latest p m.entry.shard_id m.thread_id) m
      ≡ is_old (latest p t.entry.shard_id t.thread_id) t
same_is_old p t m same g =
    let shard : m.entry.shard_id ≡ t.entry.shard_id = ground arith in
    let thread : m.thread_id ≡ t.thread_id = ground arith in rw (shard, thread, g) refl

at_key-Tally :
    (t : Message) (seen : List Message) (k : ℕ) (xs : List (ℕ × Message))
    → k ≡ gsn_of t
    → Tally t seen (find (gsn_of t) xs)
    → Tally t seen (find k xs)
at_key-Tally t seen k xs e h = rw e h

same_kept-Tally :
    (t : Message) (seen : List Message) (o r : Option Message)
    → o ≡ r
    → Tally t seen o
    → Tally t seen r
same_kept-Tally t seen o r e h = rw (sym e) h

-- A copy of `t`.
pub own-step :
    (failures : ℕ) (t : Message) (seen : List Message) (p : Poll) (m : Message) (q : Poll)
    (out : List Message)
    → failures < u64_max
    → Pending failures t seen p
    → gsn_of m ≡ gsn_of t
    → is_same t m ≡ true
    → Effect failures p m q out
    → Delivers t out ⊎ Pending failures t (m ∷ seen) q
own-step failures t seen p m q out small h g same (refused (inl old) reqs now nil) =
    absurd (cc (same_is_old p t m same g, old, h.fresh))
own-step failures t seen p m q out small h g same
      (refused (inr (kept, there, differs)) reqs now nil) =
    let there' = at_key-Tally t seen (gsn_of m) p.current_requests g h.tally in
    let (n, like) =
      same_kept-Tally t seen (find (gsn_of m) p.current_requests) (some kept) there there' in
    absurd (cc (same_trans kept t m like same, differs))
own-step failures t seen p m q out small h g same (counted e kept few reqs now nil) =
    let r = keep-Raised failures seen p m e _ small h.sound refl kept in
    let tallied = at_key-Tally t seen (gsn_of m) p.current_requests g h.tally in
    let (n, like) = keep-Tally t m e seen (find (gsn_of m) p.current_requests) same kept tallied in
    let own : (gsn_of m == gsn_of t) ≡ true = ground arith in
    let there : find (gsn_of t) q.current_requests ≡ some (bump e) =
      ap (find (gsn_of t)) reqs ∙ rw (sym g) (find-assign (gsn_of m) (bump e) p.current_requests) in
    inr record {
      sound =
          on_log_entry-Sound failures seen p m q out small h.sound
            (counted e kept few reqs now nil);
      fresh = ap (λ l. is_old l t) (now t.entry.shard_id t.thread_id) ∙ h.fresh;
      tally =
          same_kept-Tally t (m ∷ seen) (some (bump e)) (find (gsn_of t) q.current_requests)
            (sym there) (rw own (omega (arith, r.more, n)), like);
    }
own-step failures t seen p m q out small h g same (delivered e fresh kept many reqs now one) =
    let r = keep-Raised failures seen p m e _ small h.sound refl kept in
    let tallied = at_key-Tally t seen (gsn_of m) p.current_requests g h.tally in
    let (n, like) = keep-Tally t m e seen (find (gsn_of m) p.current_requests) same kept tallied in
    inl (rw one (inl (r.gsn ∙ g, like)))

not_overtaken :
    (t m : Message) (i j : ℕ)
    → ((is_of t.entry.shard_id t.thread_id m && ltb (gsn_of t) (gsn_of m)) ≡ false) ⊎ (i < j)
    → j ≤ i
    → (is_of t.entry.shard_id t.thread_id m && ltb (gsn_of t) (gsn_of m)) ≡ false
not_overtaken t m i j (inl e) le = e
not_overtaken t m i j (inr lt) le = absurd (omega arith)

-- What is delivered for another GSN does not make `t` old.
still_fresh :
    (t m : Message) (l : ℕ)
    → (gsn_of m == gsn_of t) ≡ false
    → (is_of t.entry.shard_id t.thread_id m && ltb (gsn_of t) (gsn_of m)) ≡ false
    → is_old l t ≡ false
    → is_old (if is_of t.entry.shard_id t.thread_id m then gsn_of m else l) t ≡ false
still_fresh t m l other early fresh = elim (Bool-cases (is_of t.entry.shard_id t.thread_id m)) [
  | inr out ↦ rw out fresh
  | inl mine ↦
      let below : ltb (gsn_of t) (gsn_of m) ≡ false = rw mine at early in
      rw mine (ground (arith, below, other))
]

-- A copy with another GSN, which is not that of a later entry of the thread that overtakes `t`.
pub other-step :
    (failures : ℕ) (t : Message) (seen : List Message) (p : Poll) (m : Message) (q : Poll)
    (out : List Message)
    → failures < u64_max
    → Pending failures t seen p
    → (gsn_of m == gsn_of t) ≡ false
    → ((is_of t.entry.shard_id t.thread_id m && ltb (gsn_of t) (gsn_of m)) ≡ false)
      ⊎ (copies (gsn_of m) seen < copies (gsn_of t) seen)
    → Effect failures p m q out
    → Pending failures t (m ∷ seen) q
other-step failures t seen p m q out small h other order (refused why reqs now nil) = record {
  sound = on_log_entry-Sound failures seen p m q out small h.sound (refused why reqs now nil);
  fresh = ap (λ l. is_old l t) (now t.entry.shard_id t.thread_id) ∙ h.fresh;
  tally = other_copy-Tally t m seen (find (gsn_of t) q.current_requests) other (
      same_kept-Tally t seen (find (gsn_of t) p.current_requests)
        (find (gsn_of t) q.current_requests) (ap (find (gsn_of t)) (sym reqs)) h.tally);
}
other-step failures t seen p m q out small h other order (counted e kept few reqs now nil) =
    let apart : gsn_of t ≢ gsn_of m = ground (arith, other) in
    let there : find (gsn_of t) q.current_requests ≡ find (gsn_of t) p.current_requests =
      ap (find (gsn_of t)) reqs
      ∙ find-assign_other (gsn_of t) (gsn_of m) (bump e) p.current_requests apart in
    record {
      sound =
          on_log_entry-Sound failures seen p m q out small h.sound
            (counted e kept few reqs now nil);
      fresh = ap (λ l. is_old l t) (now t.entry.shard_id t.thread_id) ∙ h.fresh;
      tally = other_copy-Tally t m seen (find (gsn_of t) q.current_requests) other (
          same_kept-Tally t seen (find (gsn_of t) p.current_requests)
            (find (gsn_of t) q.current_requests) (sym there) h.tally);
    }
other-step failures t seen p m q out small h other order
      (delivered e fresh kept many reqs now one) =
    let apart : gsn_of t ≢ gsn_of m = ground (arith, other) in
    let there : find (gsn_of t) q.current_requests ≡ find (gsn_of t) p.current_requests =
      ap (find (gsn_of t)) reqs
      ∙ find-erase_other (gsn_of t) (gsn_of m) (assign (gsn_of m) (bump e) p.current_requests) apart
      ∙ find-assign_other (gsn_of t) (gsn_of m) (bump e) p.current_requests apart in
    let r =
      keep-Raised failures seen p m e (find (gsn_of m) p.current_requests) small h.sound refl
        kept in
    let le =
      tallied-le failures t seen p (find (gsn_of t) p.current_requests) h.sound refl h.tally in
    let early =
      not_overtaken t m (copies (gsn_of m) seen) (copies (gsn_of t) seen) order
        (ground (arith, many, r.more, r.held, le)) in
    record {
      sound =
          on_log_entry-Sound failures seen p m q out small h.sound
            (delivered e fresh kept many reqs now one);
      fresh =
          ap (λ l. is_old l t) (now t.entry.shard_id t.thread_id)
          ∙ still_fresh t m (latest p t.entry.shard_id t.thread_id) other early h.fresh;
      tally = other_copy-Tally t m seen (find (gsn_of t) q.current_requests) other (
          same_kept-Tally t seen (find (gsn_of t) p.current_requests)
            (find (gsn_of t) q.current_requests) (sym there) h.tally);
    }

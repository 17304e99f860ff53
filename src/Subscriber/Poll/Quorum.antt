-- ===== src/Subscriber/Poll/Quorum.antt =====
-- How many copies stand behind an entry that src/subscriber/subscriber.cpp delivers.
use zip_log_ae.Base.{
  All-append, ℕ, suc, ◌+◌, ◌≡◌, ◌≤◌, ◌<◌, refl, sym, ap, Option, none, some, true, ◌&&◌, List, [],
  ◌∷◌, if◌then◌else◌, ltb, ◌==◌, u64_max, find, assign, erase, All, All-assign, All-find, inl, inr,
  arith, Bool-cases,
}
use zip_log_ae.Subscriber.Log.{Log}
use zip_log_ae.Subscriber.Poll.{Message, Poll, gsn_of, num_acks, is_same, run, new_poll}
use zip_log_ae.Subscriber.Poll.Steps.{Kept, bump, Effect, refused, counted, delivered}
use zip_log_ae.Subscriber.Poll.Runs.{run-Splits}

-- How many of the messages have a GSN.
abbrev pub copies : ℕ → List Message → ℕ
copies g [] = 0
copies g (m ∷ ms) = let rest = copies g ms in if gsn_of m == g then suc rest else rest

-- How many of the messages are copies of an entry.
abbrev pub copies_of : Message → List Message → ℕ
copies_of e [] = 0
copies_of e (m ∷ ms) =
    let rest = copies_of e ms in if (gsn_of m == gsn_of e) && is_same e m then suc rest else rest

copies_of-bump : (e : Message) (ms : List Message) → copies_of (bump e) ms ≡ copies_of e ms
copies_of-bump e [] = refl
copies_of-bump e (m ∷ ms) =
    ap (λ n. if (gsn_of m == gsn_of e) && is_same e m then suc n else n) (copies_of-bump e ms)

-- The entry that is kept under a GSN after the copies `seen`.
abbrev pub IsSound : ℕ → List Message → ℕ × Message → Type 0
IsSound failures seen kept =
    (gsn_of kept.1 ≡ kept.0)
    × (num_acks kept.1 ≤ failures)
    × (num_acks kept.1 ≤ copies kept.0 seen)
    × (num_acks kept.1 ≤ copies_of kept.1 seen)

unfoldable pub Sound : ℕ → List Message → Poll → Type 0
Sound failures seen p = All (IsSound failures seen) p.current_requests

All-more :
    (failures : ℕ) (seen : List Message) (m : Message) (xs : List (ℕ × Message))
    → All (IsSound failures seen) xs
    → All (IsSound failures (m ∷ seen)) xs
All-more failures seen m [] h = tt
All-more failures seen m ((k, e) ∷ xs) ((a, b, c, d), h) =
    ((a, b, ground (arith, c), ground (arith, d)), All-more failures seen m xs h)

-- What is assigned and erased again leaves no trace.
All-erase_assigned :
    (P : ℕ × Message → Type 0) (k : ℕ) (e : Message) (xs : List (ℕ × Message))
    → All P xs
    → All P (erase k (assign k e xs))
unfolding erase assign
All-erase_assigned P k e [] h = let kk : (k == k) ≡ true = ground arith in rw kk tt
All-erase_assigned P k e ((j, b) ∷ xs) (q, h) =
    let kk : (k == k) ≡ true = ground arith in
    elim (Bool-cases (j == k)) [
      | inl same ↦ rw (same, kk) h
      | inr ne ↦ elim (Bool-cases (ltb k j)) [
        | inl below ↦ rw (ne, below, kk) (q, h)
        | inr above ↦ rw (ne, above, ne) (q, All-erase_assigned P k e xs h)
      ]
    ]

-- What the kept entry counts once it has been raised.
pub record Raised (failures : ℕ) (seen : List Message) (m e : Message) : Type 0 where
  pub gsn : gsn_of e ≡ gsn_of m
  pub more : num_acks (bump e) ≡ num_acks e + 1
  pub small : num_acks e ≤ failures
  pub held : num_acks e ≤ copies (gsn_of m) seen
  pub same : num_acks e ≤ copies_of e seen
  pub agrees : ((gsn_of m == gsn_of e) && is_same e m) ≡ true

pub keep-Raised :
    (failures : ℕ) (seen : List Message) (p : Poll) (m e : Message) (o : Option Message)
    → failures < u64_max
    → Sound failures seen p
    → find (gsn_of m) p.current_requests ≡ o
    → Kept o m e
    → Raised failures seen m e
unfolding Sound
keep-Raised failures seen p m e none small h there kept = rw kept record {
  gsn = refl;
  more = refl;
  small = omega arith;
  held = omega arith;
  same = omega arith;
  agrees = ground arith;
}
keep-Raised failures seen p m e (some old) small h there (kept, same) =
    let (gsn, few, held, all) =
      All-find (IsSound failures seen) (gsn_of m) old p.current_requests h there in
    rw kept record {
      gsn = gsn;
      more = omega (arith, few);
      small = few;
      held = held;
      same = all;
      agrees = rw (gsn, same) (ground arith);
    }

bump-copies_of :
    (failures : ℕ) (seen : List Message) (m e : Message)
    → Raised failures seen m e
    → num_acks (bump e) ≤ copies_of (bump e) (m ∷ seen)
bump-copies_of failures seen m e r =
    rw (r.agrees, copies_of-bump e seen) (omega (arith, r.more, r.same))

-- A step keeps the entries sound, for the copies and the one of the step.
pub on_log_entry-Sound :
    (failures : ℕ) (seen : List Message) (p : Poll) (m : Message) (q : Poll) (ds : List Message)
    → failures < u64_max
    → Sound failures seen p
    → Effect failures p m q ds
    → Sound failures (m ∷ seen) q
unfolding Sound
on_log_entry-Sound failures seen p m q ds small h (refused why reqs same out) =
    rw reqs (All-more failures seen m p.current_requests h)
on_log_entry-Sound failures seen p m q ds small h (counted e kept few reqs same out) =
    let r = keep-Raised failures seen p m e _ small h refl kept in
    rw reqs (
      All-assign (IsSound failures (m ∷ seen)) (gsn_of m) (bump e) p.current_requests
        (
          r.gsn,
          ground (arith, few),
          ground (arith, r.more, r.held),
          bump-copies_of failures seen m e r,
        )
        (All-more failures seen m p.current_requests h))
on_log_entry-Sound failures seen p m q ds small h (delivered e fresh kept many reqs same out) =
    rw reqs (
      All-erase_assigned (IsSound failures (m ∷ seen)) (gsn_of m) (bump e) p.current_requests
        (All-more failures seen m p.current_requests h))

-- Enough copies with the GSN of an entry.
abbrev pub HasQuorum : ℕ → List Message → List Message → Message → Type 0
HasQuorum failures seen ms d = failures < copies_of d seen + copies_of d ms

All-moved :
    (failures : ℕ) (seen : List Message) (m : Message) (ms ds : List Message)
    → All (HasQuorum failures (m ∷ seen) ms) ds
    → All (HasQuorum failures seen (m ∷ ms)) ds
All-moved failures seen m ms [] h = tt
All-moved failures seen m ms (d ∷ ds) (p, h) =
    (ground (arith, p), All-moved failures seen m ms ds h)

step-HasQuorum :
    (failures : ℕ) (seen : List Message) (p : Poll) (m : Message) (ms : List Message) (q : Poll)
    (ds : List Message)
    → failures < u64_max
    → Sound failures seen p
    → Effect failures p m q ds
    → All (HasQuorum failures seen (m ∷ ms)) ds
step-HasQuorum failures seen p m ms q ds small h (refused why reqs same out) = rw out tt
step-HasQuorum failures seen p m ms q ds small h (counted e kept few reqs same out) = rw out tt
step-HasQuorum failures seen p m ms q ds small h (delivered e fresh kept many reqs same out) =
    let r = keep-Raised failures seen p m e _ small h refl kept in
    rw out (rw r.agrees ground (arith, many, r.more, r.same, copies_of-bump e seen), tt)

run-HasQuorum :
    (failures : ℕ) (seen : List Message) (p : Poll) (ms : List Message) (q : Poll)
    (ds : List Message)
    → failures < u64_max
    → Sound failures seen p
    → run failures p ms ≡ some (q, ds)
    → All (HasQuorum failures seen ms) ds
unfolding run
run-HasQuorum failures seen p [] q ds small h e = let out : [] ≡ ds = cc in rw (sym out) tt
run-HasQuorum failures seen p (m ∷ ms) q ds small h e =
    let s = run-Splits failures p m ms q ds e in
    rw s.all (
      All-append (HasQuorum failures seen (m ∷ ms)) s.out s.rest
        (step-HasQuorum failures seen p m ms s.state s.out small h s.first)
        (All-moved failures seen m ms s.rest (
          run-HasQuorum failures (m ∷ seen) s.state ms q s.rest small
            (on_log_entry-Sound failures seen p m s.state s.out small h s.first) s.later)))

-- Every entry that a new polling thread delivers has come in more copies of the same GSN, shard,
-- client, thread and length than the number of failures that it tolerates.
pub delivered-HasQuorum :
    (failures : ℕ) (l : Log) (ms : List Message) (q : Poll) (ds : List Message)
    → failures < u64_max
    → run failures (new_poll l) ms ≡ some (q, ds)
    → All (HasQuorum failures [] ms) ds
unfolding Sound
delivered-HasQuorum failures l ms q ds small e =
    run-HasQuorum failures [] (new_poll l) ms q ds small tt e

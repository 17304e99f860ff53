-- ===== src/Subscriber/Poll/Ascending.antt =====
-- The order in which src/subscriber/subscriber.cpp delivers the entries of a thread of a shard.
use zip_log_ae.Base.{
  ℕ, ◌+◌, ◌≡◌, ◌≤◌, ◌<◌, refl, sym, ap, ◌∙◌, Option, none, some, false, List, [], ◌∷◌, ◌++◌,
  if◌then◌else◌, ◌==◌, u64_max, find, All, inl, inr, arith, Bool-cases,
}
use zip_log_ae.Subscriber.Log.{Log}
use zip_log_ae.Subscriber.Poll.{Message, Poll, gsn_of, is_old, run, new_poll}
use zip_log_ae.Subscriber.Poll.Steps.{
  latest, is_of, Kept, bump, Effect, refused, counted, delivered,
}
use zip_log_ae.Subscriber.Poll.Quorum.{Sound, keep-Raised, on_log_entry-Sound}
use zip_log_ae.Subscriber.Poll.Runs.{run-Splits}

-- The entries of a thread `t` of a shard `s` have GSNs that ascend strictly, from `lo` on.
abbrev pub Ascends : ℕ → ℕ → ℕ → List Message → Type 0
Ascends s t lo [] = Unit
Ascends s t lo (d ∷ ds) =
    if is_of s t d then (lo ≤ gsn_of d) × Ascends s t (gsn_of d + 1) ds else Ascends s t lo ds

-- The least GSN that is not old.
abbrev next_of : ℕ → ℕ
next_of l = if l == u64_max then 0 else l + 1

abbrev pub IsWord : Message → Type 0
IsWord m = gsn_of m < u64_max

is_of_own : (o : Option Message) (m e : Message) (s t : ℕ) → Kept o m e → is_of s t e ≡ is_of s t m
is_of_own none m e s t kept = rw kept refl
is_of_own (some old) m e s t (kept, same) =
    let shard : old.entry.shard_id ≡ m.entry.shard_id = ground arith in
    let thread : old.thread_id ≡ m.thread_id = ground arith in rw (kept, shard, thread) refl

-- A copy that is not old is at least the next one of its thread.
fresh-next : (latest : ℕ) (m : Message) → is_old latest m ≡ false → next_of latest ≤ gsn_of m
fresh-next latest m fresh = ground arith

next_of-word : (g : ℕ) → g < u64_max → next_of g ≡ g + 1
next_of-word g small = ground arith

-- The delivered entry, and what ascends after it.
entry-Ascends :
    (p q : Poll) (m d : Message) (rest : List Message) (s t : ℕ)
    → IsWord m
    → is_of s t d ≡ is_of s t m
    → gsn_of d ≡ gsn_of m
    → is_old (latest p m.entry.shard_id m.thread_id) m ≡ false
    → latest q s t ≡ (if is_of s t m then gsn_of m else latest p s t)
    → Ascends s t (next_of (latest q s t)) rest
    → Ascends s t (next_of (latest p s t)) (d ∷ rest)
entry-Ascends p q m d rest s t small of gsn fresh now h = elim (Bool-cases (is_of s t m)) [
  | inr other ↦ let e : latest q s t ≡ latest p s t = rw other at now in rw (of, other) (rw e at h)
  | inl mine ↦
      let e : latest q s t ≡ gsn_of m = rw mine at now in
      let shard : s ≡ m.entry.shard_id = ground (arith, mine) in
      let thread : t ≡ m.thread_id = ground (arith, mine) in
      let after : next_of (latest q s t) ≡ gsn_of d + 1 =
        ap next_of e ∙ next_of-word (gsn_of m) small ∙ ap (λ n. n + 1) (sym gsn) in
      rw (of, mine)
        (
          rw (gsn, shard, thread) (fresh-next (latest p m.entry.shard_id m.thread_id) m fresh),
          rw after at h,
        )
]

step-Ascends :
    (failures : ℕ) (seen : List Message) (p : Poll) (m : Message) (q : Poll)
    (out rest : List Message) (s t : ℕ)
    → failures < u64_max
    → Sound failures seen p
    → IsWord m
    → Effect failures p m q out
    → Ascends s t (next_of (latest q s t)) rest
    → Ascends s t (next_of (latest p s t)) (out ++ rest)
step-Ascends failures seen p m q out rest s t small h word (refused why reqs same nil) ih =
    rw (nil, sym (same s t)) ih
step-Ascends failures seen p m q out rest s t small h word (counted e kept few reqs same nil) ih =
    rw (nil, sym (same s t)) ih
step-Ascends failures seen p m q out rest s t small h word
      (delivered e fresh kept many reqs now one) ih =
    let r = keep-Raised failures seen p m e _ small h refl kept in
    rw one (
      entry-Ascends p q m (bump e) rest s t word (is_of_own _ m e s t kept) r.gsn fresh (now s t)
        ih)

run-Ascends :
    (failures : ℕ) (seen : List Message) (p : Poll) (ms : List Message) (q : Poll)
    (ds : List Message) (s t : ℕ)
    → failures < u64_max
    → Sound failures seen p
    → All IsWord ms
    → run failures p ms ≡ some (q, ds)
    → Ascends s t (next_of (latest p s t)) ds
unfolding run
run-Ascends failures seen p [] q ds s t small h w e = let out : [] ≡ ds = cc in rw (sym out) tt
run-Ascends failures seen p (m ∷ ms) q ds s t small h (word, w) e =
    let c = run-Splits failures p m ms q ds e in
    let ih =
      run-Ascends failures (m ∷ seen) c.state ms q c.rest s t small
        (on_log_entry-Sound failures seen p m c.state c.out small h c.first) w c.later in
    rw c.all (step-Ascends failures seen p m c.state c.out c.rest s t small h word c.first ih)

-- When no GSN is 2 ^ 64 - 1, the entries that a new polling thread delivers for a thread of a
-- shard have GSNs that ascend strictly: none is delivered twice.
pub delivered-Ascends :
    (failures : ℕ) (l : Log) (ms : List Message) (q : Poll) (ds : List Message) (s t : ℕ)
    → failures < u64_max
    → All IsWord ms
    → run failures (new_poll l) ms ≡ some (q, ds)
    → Ascends s t 0 ds
unfolding Sound find
delivered-Ascends failures l ms q ds s t small w e =
    run-Ascends failures [] (new_poll l) ms q ds s t small tt w e

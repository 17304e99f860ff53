-- ===== src/Subscriber/Poll/Delivery.antt =====
-- When src/subscriber/subscriber.cpp delivers an entry.
use zip_log_ae.Base.{
  ℕ, ◌+◌, ◌≡◌, ◌<◌, ◌⊎◌, refl, none, some, Bool, true, false, ◌&&◌, List, [], ◌∷◌, if◌then◌else◌,
  ltb, ◌==◌, u64_max, find, All, inl, inr, arith, Bool-cases,
}
use zip_log_ae.Subscriber.Log.{Log}
use zip_log_ae.Subscriber.Poll.{Message, Poll, gsn_of, is_same, Result, run, new_poll}
use zip_log_ae.Subscriber.Poll.Steps.{is_of, Effect}
use zip_log_ae.Subscriber.Poll.Quorum.{copies, Sound}
use zip_log_ae.Subscriber.Poll.Runs.{run-Splits}
use zip_log_ae.Subscriber.Poll.Pending.{
  agrees, leads, Pending, Delivers, tallied-le, own-step, other-step, Delivers-append,
  Delivers-first,
}
use zip_log_ae.Subscriber.Poll.Ends.{HasRoom, Ends, run-Ends}

and_left : (a b : Bool) → (a && b) ≡ true → a ≡ true
and_left true b h = refl
and_left false b h = absurd cc

guarded_first : (c a b : Bool) → (if c then a && b else b) ≡ true → c ≡ true → a ≡ true
guarded_first true a b h e = and_left a b h
guarded_first false a b h e = absurd cc

guarded_rest : (c a b : Bool) → (if c then a && b else b) ≡ true → b ≡ true
guarded_rest true true b h = h
guarded_rest true false b h = absurd cc
guarded_rest false a b h = h

-- The conditions on a packet, and those on the packets after it.
agrees-first :
    (t m : Message) (ms : List Message)
    → agrees t (m ∷ ms) ≡ true
    → (gsn_of m == gsn_of t) ≡ true
    → is_same t m ≡ true
agrees-first t m ms h e = guarded_first (gsn_of m == gsn_of t) (is_same t m) (agrees t ms) h e

agrees-rest : (t m : Message) (ms : List Message) → agrees t (m ∷ ms) ≡ true → agrees t ms ≡ true
agrees-rest t m ms h = guarded_rest (gsn_of m == gsn_of t) (is_same t m) (agrees t ms) h

before : (a b : ℕ) → ltb a b ≡ true → a < b
before a b h = ground arith

leads-first :
    (t m : Message) (seen ms : List Message)
    → leads t seen (m ∷ ms) ≡ true
    → ((is_of t.entry.shard_id t.thread_id m && ltb (gsn_of t) (gsn_of m)) ≡ false)
      ⊎ (copies (gsn_of m) seen < copies (gsn_of t) seen)
leads-first t m seen ms h =
    elim (Bool-cases (is_of t.entry.shard_id t.thread_id m && ltb (gsn_of t) (gsn_of m))) [
      | inr e ↦ inl e
      | inl e ↦ inr (
          before (copies (gsn_of m) seen) (copies (gsn_of t) seen) (
            guarded_first (is_of t.entry.shard_id t.thread_id m && ltb (gsn_of t) (gsn_of m))
              (ltb (copies (gsn_of m) seen) (copies (gsn_of t) seen)) (leads t (m ∷ seen) ms) h e))
    ]

leads-rest :
    (t m : Message) (seen ms : List Message)
    → leads t seen (m ∷ ms) ≡ true
    → leads t (m ∷ seen) ms ≡ true
leads-rest t m seen ms h =
    guarded_rest (is_of t.entry.shard_id t.thread_id m && ltb (gsn_of t) (gsn_of m))
      (ltb (copies (gsn_of m) seen) (copies (gsn_of t) seen)) (leads t (m ∷ seen) ms) h

packet-step :
    (failures : ℕ) (t : Message) (seen : List Message) (p : Poll) (m : Message) (ms : List Message)
    (q : Poll) (out : List Message)
    → failures < u64_max
    → Pending failures t seen p
    → agrees t (m ∷ ms) ≡ true
    → leads t seen (m ∷ ms) ≡ true
    → Effect failures p m q out
    → Delivers t out ⊎ Pending failures t (m ∷ seen) q
packet-step failures t seen p m ms q out small h a l first =
    elim (Bool-cases (gsn_of m == gsn_of t)) [
      | inl own ↦
          own-step failures t seen p m q out small h (ground (arith, own))
            (agrees-first t m ms a own) first
      | inr other ↦
          inr (other-step failures t seen p m q out small h other (leads-first t m seen ms l) first)
    ]

run-Delivers :
    (failures : ℕ) (t : Message) (seen : List Message) (p : Poll) (ms : List Message) (q : Poll)
    (ds : List Message)
    → failures < u64_max
    → Pending failures t seen p
    → agrees t ms ≡ true
    → leads t seen ms ≡ true
    → failures < copies (gsn_of t) seen + copies (gsn_of t) ms
    → run failures p ms ≡ some (q, ds)
    → Delivers t ds
run-Delivers failures t seen p [] q ds small h a l enough e = absurd (
    omega (
      arith,
      tallied-le failures t seen p (find (gsn_of t) p.current_requests) h.sound refl h.tally,
    ))
run-Delivers failures t seen p (m ∷ ms) q ds small h a l enough e =
    let c = run-Splits failures p m ms q ds e in
    elim (packet-step failures t seen p m ms c.state c.out small h a l c.first) [
      | inl now ↦ rw c.all (Delivers-first t c.out c.rest now)
      | inr later ↦ rw c.all (
          Delivers-append t c.out c.rest (
            run-Delivers failures t (m ∷ seen) c.state ms q c.rest small later
              (agrees-rest t m ms a) (leads-rest t m seen ms l) (ground (arith, enough)) c.later))
    ]

-- The thread takes all packets, and the entry is among those that it has inserted into the log.
abbrev pub DeliversIn : Message → Result → Type 0
DeliversIn t none = ⊥
DeliversIn t (some (q, ds)) = Delivers t ds

delivers_in :
    (n : ℕ) (t : Message) (r : Result)
    → ((q : Poll) (ds : List Message) → r ≡ some (q, ds) → Delivers t ds)
    → Ends n r
    → DeliversIn t r
delivers_in n t none h ends = ends
delivers_in n t (some (q, ds)) h ends = h q ds refl

-- When the log has the blocks of all packets and the array their shards, the packets with the GSN
-- of an entry are copies of it and more than the failures that are tolerated, and no later GSN of
-- its thread has come as often before, a new polling thread takes all packets and delivers the
-- entry.
pub run-DeliversIn :
    (failures : ℕ) (l : Log) (t : Message) (ms : List Message)
    → failures < u64_max
    → All (HasRoom l.num_blocks) ms
    → agrees t ms ≡ true
    → leads t [] ms ≡ true
    → failures < copies (gsn_of t) ms
    → DeliversIn t (run failures (new_poll l) ms)
unfolding Sound find
run-DeliversIn failures l t ms small rooms a o enough =
    delivers_in l.num_blocks t (run failures (new_poll l) ms)
      (λ q ds e.
        run-Delivers failures t [] (new_poll l) ms q ds small
          (record { sound = tt; fresh = refl; tally = refl }) a o (omega (arith, enough)) e)
      (run-Ends l.num_blocks failures [] (new_poll l) ms small tt refl rooms)

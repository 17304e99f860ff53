-- ===== src/Subscriber/Poll/Ends.antt =====
-- That src/subscriber/subscriber.cpp takes every packet when its log has the blocks.
use zip_log_ae.Base.{
  ℕ, ◌/◌, ◌≡◌, ◌<◌, refl, sym, Option, none, some, false, List, [], ◌∷◌, ltb, leb, u64_max, find,
  assign, All, All-find, inl, inr, arith, Bool-cases,
}
use zip_log_ae.Subscriber.Log.{Log, LogEntry, Position, insert, see_blocks}
use zip_log_ae.Subscriber.Poll.{
  Message, Poll, gsn_of, num_acks, set_acks, is_same, is_old, Result, on_log_entry, run, run_rest,
  add_delivered, deliver_entry, set_info, count_copy, keep_copy, info_of,
}
use zip_log_ae.Subscriber.Poll.Steps.{bump, on_log_entry-Effect}
use zip_log_ae.Storage.Log.{num_entries_per_block}
use zip_log_ae.Order.{num_shards}
use zip_log_ae.Subscriber.Poll.Quorum.{Sound, IsSound, on_log_entry-Sound}

-- A log has the block of a packet, and the array its shard.
abbrev pub HasRoom : ℕ → Message → Type 0
HasRoom n m = (m.entry.shard_id < num_shards) × (gsn_of m / num_entries_per_block < n)

abbrev Fits : ℕ → Option (Log × Position) → Type 0
Fits n none = ⊥
Fits n (some (l, position)) = l.num_blocks ≡ n

abbrev pub Ends : ℕ → Result → Type 0
Ends n none = ⊥
Ends n (some (q, ds)) = q.log.num_blocks ≡ n

seen_room : (l : Log) (seen b : ℕ) → b < l.num_blocks → leb (see_blocks l seen b) b ≡ false
seen_room l seen b room = ground arith

insert-Fits :
    (l : Log) (position : Position) (e : LogEntry)
    → e.gsn / num_entries_per_block < l.num_blocks
    → Fits l.num_blocks (insert l position e)
unfolding insert
insert-Fits l position e room =
    let seen : leb (see_blocks l position.current_blocks (e.gsn / num_entries_per_block))
          (e.gsn / num_entries_per_block)
        ≡ false =
      seen_room l position.current_blocks (e.gsn / num_entries_per_block) room in
    rw seen refl

deliver_entry-Ends :
    (n : ℕ) (p : Poll) (m e : Message) (o : Option (Log × Position))
    → Fits n o
    → Ends n (deliver_entry p m e o)
unfolding set_info
deliver_entry-Ends n p m e none h = h
deliver_entry-Ends n p m e (some (l, position)) h = h

count_copy-Ends :
    (failures : ℕ) (p : Poll) (m e : Message)
    → gsn_of e / num_entries_per_block < p.log.num_blocks
    → Ends p.log.num_blocks (count_copy failures p m e)
unfolding count_copy
count_copy-Ends failures p m e room = elim (Bool-cases (ltb failures (num_acks (bump e)))) [
  | inr less ↦ rw less refl
  | inl more ↦ rw more (
      deliver_entry-Ends p.log.num_blocks
        (record p { current_requests = assign (gsn_of m) (bump e) p.current_requests }) m (bump e)
        (insert p.log (info_of p m).position (bump e).entry)
        (insert-Fits p.log (info_of p m).position (bump e).entry room))
]

keep_copy-Ends :
    (failures : ℕ) (seen : List Message) (p p' : Poll) (m : Message) (o : Option Message)
    → Sound failures seen p
    → find (gsn_of m) p.current_requests ≡ o
    → gsn_of m / num_entries_per_block < p'.log.num_blocks
    → Ends p'.log.num_blocks (keep_copy failures p' m o)
unfolding keep_copy Sound
keep_copy-Ends failures seen p p' m none h there room =
    count_copy-Ends failures p' m (set_acks m 0) room
keep_copy-Ends failures seen p p' m (some e) h there room =
    let (gsn, few, held, all) =
      All-find (IsSound failures seen) (gsn_of m) e p.current_requests h there in
    elim (Bool-cases (is_same e m)) [
      | inl same ↦ rw same (count_copy-Ends failures p' m e (rw gsn room))
      | inr differs ↦ rw differs refl
    ]

on_log_entry-Ends :
    (failures : ℕ) (seen : List Message) (p : Poll) (m : Message)
    → Sound failures seen p
    → HasRoom p.log.num_blocks m
    → Ends p.log.num_blocks (on_log_entry failures p m)
unfolding on_log_entry set_info
on_log_entry-Ends failures seen p m h (shard, room) =
    let there : leb num_shards m.entry.shard_id ≡ false = ground (arith, shard) in
    rw there (elim (Bool-cases (is_old (info_of p m).gsn m)) [
      | inl old ↦ rw old refl
      | inr fresh ↦ rw fresh (
          keep_copy-Ends failures seen p (set_info p m (info_of p m)) m
            (find (gsn_of m) p.current_requests) h refl room)
    ])

add_delivered-Ends :
    (n : ℕ) (ds : List Message) (r : Result) → Ends n r → Ends n (add_delivered ds r)
add_delivered-Ends n ds none h = h
add_delivered-Ends n ds (some (q, es)) h = h

rest-Ends :
    (n failures : ℕ) (seen : List Message) (p : Poll) (m : Message) (ms : List Message) (r : Result)
    → failures < u64_max
    → Sound failures seen p
    → on_log_entry failures p m ≡ r
    → Ends n r
    → ((q : Poll) → Sound failures (m ∷ seen) q → q.log.num_blocks ≡ n → Ends n (run failures q ms))
    → Ends n (run_rest (λ q. run failures q ms) r)
rest-Ends n failures seen p m ms none small h e ends ih = ends
rest-Ends n failures seen p m ms (some (q, out)) small h e ends ih =
    let sound =
      on_log_entry-Sound failures seen p m q out small h
        (on_log_entry-Effect failures p m q out e) in
    add_delivered-Ends n out (run failures q ms) (ih q sound ends)

at_blocks : (n k : ℕ) (r : Result) → k ≡ n → Ends k r → Ends n r
at_blocks n k r e h = rw (sym e) h

room_at : (n k : ℕ) (m : Message) → k ≡ n → HasRoom n m → HasRoom k m
room_at n k m e h = rw e h

pub run-Ends :
    (n failures : ℕ) (seen : List Message) (p : Poll) (ms : List Message)
    → failures < u64_max
    → Sound failures seen p
    → p.log.num_blocks ≡ n
    → All (HasRoom n) ms
    → Ends n (run failures p ms)
unfolding run
run-Ends n failures seen p [] small h blocks rooms = blocks
run-Ends n failures seen p (m ∷ ms) small h blocks (room, rooms) =
    rest-Ends n failures seen p m ms (on_log_entry failures p m) small h refl
      (at_blocks n p.log.num_blocks (on_log_entry failures p m) blocks
        (on_log_entry-Ends failures seen p m h (room_at n p.log.num_blocks m blocks room)))
      (λ q sound same. run-Ends n failures (m ∷ seen) q ms small sound same rooms)

-- ===== src/Subscriber/Control/Connect.antt =====
-- How storage servers join the thread `control` of src/subscriber/subscriber.cpp.
use zip_log_ae.Base.{
  ℕ, ◌^◌, ◌<◌, ◌≡◌, refl, sym, ap, ◌∙◌, Bool, true, false, Option, none, some, not, ◌&&◌, ◌||◌,
  is_none, List, [], ◌∷◌, if◌then◌else◌, leb, ltb, ◌==◌, find, assign, assign-Keyed, All,
  All-assign, All-find, arith, inl, inr, Bool-cases, Option-cases,
}
use zip_log_ae.Storage.Log.{update}
use zip_log_ae.Order.{num_shards}
use zip_log_ae.Subscriber.Control.{
  Control, Intro, count_of, on_storage_info, connect_storage, is_empty,
}
use zip_log_ae.Subscriber.Control.Waits.{IsOpen, IsKnown, assign-IsKnown}
use zip_log_ae.Subscriber.Control.Taken.{ControlInv, queues, finished, IsSmall, at_zero}

-- A server connects by at least one queue; identifiers are 64-bit words.
abbrev pub IsIntro : Option Intro → Type 0
IsIntro none = Unit
IsIntro (some intro) =
    (intro.replica_id < 2 ^ 64) × (0 < intro.num_queues) × (intro.num_queues < 2 ^ 64)

abbrev pub Runs : Control → Type 0
Runs c = ControlInv c × (c.end ≡ false)

-- A replica that is not connected has no finished message.
not_counted :
    (rid : ℕ) (qs f : List (ℕ × ℕ))
    → find rid qs ≡ none
    → All (IsKnown qs) f
    → count_of (find rid f) ≡ 0
not_counted rid qs f there known = elim (Option-cases (find rid f)) [
  | inl e ↦ rw e refl
  | inr (n, e) ↦ absurd (cc (All-find (IsKnown qs) rid n f known e, there))
]

is_empty-assign : (k n : ℕ) (qs : List (ℕ × ℕ)) → is_empty (assign k n qs) ≡ false
unfolding assign
is_empty-assign k n [] = refl
is_empty-assign k n ((j, m) ∷ qs) = elim (Bool-cases (j == k)) [
  | inl e ↦ rw e refl
  | inr ne ↦ elim (Bool-cases (ltb k j)) [ inl e ↦ rw (ne, e) refl | inr e ↦ rw (ne, e) refl ]
]

and_false : (b : Bool) → (b && false) ≡ false
and_false true = refl
and_false false = refl

connected-Runs :
    (c : Control) (rid n : ℕ)
    → Runs c
    → find rid (queues c) ≡ none
    → rid < 2 ^ 64
    → 0 < n
    → n < 2 ^ 64
    → Runs (record c { storage_queues = update c.storage_queues 0 (assign rid n (queues c)) })
connected-Runs c rid n (h, going) there word pos small = (
  record {
    keyed = assign-Keyed 0 (2 ^ 64) rid n (queues c) (omega arith) word h.keyed;
    small = All-assign IsSmall rid n (queues c) small h.small;
    open_queues =
        All-assign (IsOpen (finished c)) rid n (queues c)
          (rw (not_counted rid (queues c) (finished c) there h.known) pos) h.open_queues;
    counted = h.counted;
    known = assign-IsKnown rid n (queues c) (finished c) h.known;
    ended =
        going
        ∙ sym (
            ap (◌&&◌ c.order_finished) (is_empty-assign rid n (queues c))
            ∙ and_false c.order_finished);
    running = h.running;
  },
  going,
)

at_shard-Runs :
    (c : Control) (sid rid n : ℕ)
    → Runs c
    → 0 ≡ sid
    → find rid (c.storage_queues sid) ≡ none
    → rid < 2 ^ 64
    → 0 < n
    → n < 2 ^ 64
    → Runs (record c {
      storage_queues = update c.storage_queues sid (assign rid n (c.storage_queues sid));
    })
at_shard-Runs c sid rid n h zero there word pos small =
    rw (sym zero) (connected-Runs c rid n h (rw (sym zero) at there) word pos small)

or_false : (a b : Bool) → (a || b) ≡ false → (a ≡ false) × (b ≡ false)
or_false true b h = absurd cc
or_false false b h = (refl, h)

is_new : (o : Option ℕ) → not (is_none o) ≡ false → o ≡ none
is_new none h = refl
is_new (some n) h = absurd cc

joined-Runs :
    (c : Control) (intro : Intro) (bad : Bool)
    → Runs c
    → IsIntro (some intro)
    → (not intro.is_valid
        || (leb num_shards intro.shard_id
            || not (is_none (find intro.replica_id (c.storage_queues intro.shard_id)))))
      ≡ bad
    → Runs (
        if bad then c else record c {
          storage_queues =
              update c.storage_queues intro.shard_id
                (assign intro.replica_id intro.num_queues (c.storage_queues intro.shard_id));
        })
joined-Runs c intro true h v e = h
joined-Runs c intro false h (word, pos, small) e =
    let (valid, rest) = or_false (not intro.is_valid) _ e in
    let (shard, new) = or_false (leb num_shards intro.shard_id) _ rest in
    at_shard-Runs c intro.shard_id intro.replica_id intro.num_queues h
      (at_zero intro.shard_id (ground (arith, shard)))
      (is_new (find intro.replica_id (c.storage_queues intro.shard_id)) new) word pos small

connect_storage-Runs :
    (c : Control) (o : Option Intro) → Runs c → IsIntro o → Runs (connect_storage c o)
unfolding connect_storage
connect_storage-Runs c none h v = h
connect_storage-Runs c (some intro) h v = joined-Runs c intro _ h v refl

pub on_storage_info-Runs :
    (c : Control) (intros : List (Option Intro))
    → Runs c
    → All IsIntro intros
    → Runs (on_storage_info c intros)
unfolding on_storage_info
on_storage_info-Runs c [] h v = h
on_storage_info-Runs c (intro ∷ intros) h (v, vs) =
    on_storage_info-Runs (connect_storage c intro) intros (connect_storage-Runs c intro h v) vs

-- ===== src/Subscriber/Control/Taken.antt =====
-- What each message does to the thread `control` of src/subscriber/subscriber.cpp.
use zip_log_ae.Base.{
  ℕ, ◌+◌, ◌^◌, ◌<◌, ◌≡◌, refl, sym, ap, ◌∙◌, Bool, true, false, Option, none, some, not, ◌&&◌,
  is_none, List, [], ◌∷◌, if◌then◌else◌, ◌==◌, add64, find, assign, erase, find-assign,
  find-assign_other, find-erase_other, Keyed, erase-Keyed, assign-Keyed, find-bound, All, All-erase,
  All-assign, All-find, arith,
}
use zip_log_ae.Storage.Log.{update}
use zip_log_ae.Order.{num_shards}
use zip_log_ae.Subscriber.Control.{
  Control, Event, storage_info, order_bye, storage_bye, count_of, count_finished, check_end,
  finish_replica, on_order_finished, on_storage_finished, handle, is_empty,
}
use zip_log_ae.Subscriber.Control.Waits.{
  waits, IsOpen, waits-one, waits-last, IsKnown, erase-IsKnown,
}

abbrev pub queues : Control → List (ℕ × ℕ)
queues c = c.storage_queues 0

abbrev pub finished : Control → List (ℕ × ℕ)
finished c = c.storage_finished 0

abbrev pub IsSmall : ℕ × ℕ → Type 0
IsSmall q = q.1 < 2 ^ 64

-- The replicas of the one shard, none of which has finished all its queues; the thread has ended if
-- and only if the ordering server has finished and no replica is left.
pub record ControlInv (c : Control) : Type 0 where
  pub keyed : Keyed 0 (2 ^ 64) (queues c)
  pub small : All IsSmall (queues c)
  pub open_queues : All (IsOpen (finished c)) (queues c)
  pub counted : Keyed 0 (2 ^ 64) (finished c)
  pub known : All (IsKnown (queues c)) (finished c)
  pub ended : c.end ≡ (c.order_finished && is_empty (queues c))
  pub running : c.process ≡ not c.end

-- How many messages the thread waits for.
abbrev pub left : Control → ℕ
left c = (if c.order_finished then 0 else 1) + waits (queues c) (finished c)

-- A message that is waited for.
abbrev pub IsExpected : Control → Event → Type 0
IsExpected c (storage_info intros) = ⊥
IsExpected c order_bye = c.order_finished ≡ false
IsExpected c (storage_bye sid rid) = (sid < num_shards) × (is_none (find rid (queues c)) ≡ false)

-- After one of them.
abbrev pub OneLess : Control → Option Control → Type 0
OneLess c none = ⊥
OneLess c (some d) = ControlInv d × (left d + 1 ≡ left c)

-- The state before the check of the end.
record Unchecked (c : Control) : Type 0 where
  keyed : Keyed 0 (2 ^ 64) (queues c)
  small : All IsSmall (queues c)
  open_queues : All (IsOpen (finished c)) (queues c)
  counted : Keyed 0 (2 ^ 64) (finished c)
  known : All (IsKnown (queues c)) (finished c)
  goes_on : c.end ≡ false
  running : c.process ≡ true

and_true : (b : Bool) → (b && true) ≡ b
and_true true = refl
and_true false = refl

checked-ControlInv :
    (c : Control) (b : Bool)
    → Unchecked c
    → (c.order_finished && (is_empty (queues c) && true)) ≡ b
    → ControlInv (if b then record c { process = false; end = true } else c)
      × (left (if b then record c { process = false; end = true } else c) ≡ left c)
checked-ControlInv c true u e = (
  record {
    keyed = u.keyed;
    small = u.small;
    open_queues = u.open_queues;
    counted = u.counted;
    known = u.known;
    ended = sym e ∙ ap (◌&&◌ c.order_finished) (and_true (is_empty (queues c)));
    running = refl;
  },
  refl,
)
checked-ControlInv c false u e = (
  record {
    keyed = u.keyed;
    small = u.small;
    open_queues = u.open_queues;
    counted = u.counted;
    known = u.known;
    ended = u.goes_on ∙ sym e ∙ ap (◌&&◌ c.order_finished) (and_true (is_empty (queues c)));
    running = u.running ∙ ap not (sym u.goes_on);
  },
  refl,
)

check_end-ControlInv :
    (c : Control) → Unchecked c → ControlInv (check_end c) × (left (check_end c) ≡ left c)
check_end-ControlInv c u =
    checked-ControlInv c (c.order_finished && (is_empty (queues c) && true)) u refl

pub on_order_finished-OneLess :
    (c : Control)
    → ControlInv c
    → c.end ≡ false
    → c.order_finished ≡ false
    → OneLess c (on_order_finished c)
unfolding on_order_finished
on_order_finished-OneLess c h going e =
    let d : Control = record c { order_finished = true } in
    let (inv, same) = check_end-ControlInv d record {
      keyed = h.keyed;
      small = h.small;
      open_queues = h.open_queues;
      counted = h.counted;
      known = h.known;
      goes_on = going;
      running = h.running ∙ ap not going;
    } in
    rw e (inv, omega (arith, same))

counted-Unchecked :
    (c : Control) (rid n count : ℕ) (b : Bool)
    → ControlInv c
    → c.end ≡ false
    → find rid (queues c) ≡ some n
    → count ≡ count_of (find rid (finished c)) + 1
    → (count == n) ≡ b
    → let counts = assign rid count (finished c) in
      let d : Control =
        if b
        then record c {
          storage_finished = update c.storage_finished 0 (erase rid counts);
          storage_queues = update c.storage_queues 0 (erase rid (queues c));
        }
        else record c { storage_finished = update c.storage_finished 0 counts } in
      Unchecked d × (left d + 1 ≡ left c)
counted-Unchecked c rid n count true h going there e test =
    let counts = assign rid count (finished c) in
    let keyed =
      assign-Keyed 0 (2 ^ 64) rid count (finished c) (omega arith)
        (find-bound 0 (2 ^ 64) rid n (queues c) h.keyed there) h.counted in
    let known : All (IsKnown (queues c)) counts =
      All-assign (IsKnown (queues c)) rid count (finished c) (rw there refl) h.known in
    let (less, opened) =
      waits-last 0 (2 ^ 64) rid n (queues c) (finished c) (erase rid counts)
        (λ k ne. find-erase_other k rid counts ne ∙ find-assign_other k rid count (finished c) ne)
        h.keyed there h.open_queues (ground (arith, e, test)) in
    (
      record {
        keyed = erase-Keyed 0 (2 ^ 64) rid (queues c) h.keyed;
        small = All-erase IsSmall rid (queues c) h.small;
        open_queues = opened;
        counted = erase-Keyed 0 (2 ^ 64) rid counts keyed;
        known = erase-IsKnown 0 (2 ^ 64) rid (queues c) counts keyed known;
        goes_on = going;
        running = h.running ∙ ap not going;
      },
      omega (arith, less),
    )
counted-Unchecked c rid n count false h going there e test =
    let counts = assign rid count (finished c) in
    let keyed =
      assign-Keyed 0 (2 ^ 64) rid count (finished c) (omega arith)
        (find-bound 0 (2 ^ 64) rid n (queues c) h.keyed there) h.counted in
    let known : All (IsKnown (queues c)) counts =
      All-assign (IsKnown (queues c)) rid count (finished c) (rw there refl) h.known in
    let below = All-find (IsOpen (finished c)) rid n (queues c) h.open_queues there in
    let (less, opened) =
      waits-one 0 (2 ^ 64) rid n (queues c) (finished c) counts
        (λ k ne. find-assign_other k rid count (finished c) ne)
        (find-assign rid count (finished c) ∙ ap some e) h.keyed there h.open_queues
        (ground (arith, e, test, below)) in
    (
      record {
        keyed = h.keyed;
        small = h.small;
        open_queues = opened;
        counted = keyed;
        known = known;
        goes_on = going;
        running = h.running ∙ ap not going;
      },
      omega (arith, less),
    )

count_finished-Unchecked :
    (c : Control) (rid n : ℕ)
    → ControlInv c
    → c.end ≡ false
    → find rid (queues c) ≡ some n
    → Unchecked (count_finished c 0 rid n) × (left (count_finished c 0 rid n) + 1 ≡ left c)
unfolding count_finished
count_finished-Unchecked c rid n h going there =
    let count = count_of (find rid (finished c)) in
    let below : count < n = All-find (IsOpen (finished c)) rid n (queues c) h.open_queues there in
    let word : n < 2 ^ 64 = All-find IsSmall rid n (queues c) h.small there in
    counted-Unchecked c rid n (add64 count 1) (add64 count 1 == n) h going there
      (omega (arith, below, word)) refl

pub finish_replica-OneLess :
    (c : Control) (rid : ℕ) (o : Option ℕ)
    → ControlInv c
    → c.end ≡ false
    → find rid (queues c) ≡ o
    → is_none o ≡ false
    → OneLess c (some (finish_replica c 0 rid o))
finish_replica-OneLess c rid none h going there known = absurd cc
finish_replica-OneLess c rid (some n) h going there known =
    let (unchecked, less) = count_finished-Unchecked c rid n h going there in
    let (inv, same) = check_end-ControlInv (count_finished c 0 rid n) unchecked in
    (inv, omega (arith, same, less))

pub at_zero : (sid : ℕ) → sid < num_shards → 0 ≡ sid
at_zero sid lt = omega arith

-- Every message that is waited for is taken, and one less is left.
pub handle-OneLess :
    (c : Control) (e : Event)
    → ControlInv c
    → c.end ≡ false
    → IsExpected c e
    → OneLess c (handle c e)
unfolding handle on_storage_finished
handle-OneLess c (storage_info intros) h going x = absurd x
handle-OneLess c order_bye h going x = on_order_finished-OneLess c h going x
handle-OneLess c (storage_bye sid rid) h going (lt, known) =
    rw (sym (at_zero sid lt))
      (finish_replica-OneLess c rid (find rid (queues c)) h going refl known)

is_empty-waits : (qs f : List (ℕ × ℕ)) → All (IsOpen f) qs → is_empty qs ≡ (waits qs f == 0)
is_empty-waits [] f h = refl
is_empty-waits ((r, n) ∷ qs) f (p, h) = ground (arith, p)

both_zero :
    (o : Bool) (n : ℕ) (b : Bool) → b ≡ (n == 0) → (o && b) ≡ (((if o then 0 else 1) + n) == 0)
both_zero true n b e = ground (arith, e)
both_zero false n b e = ground arith

pub end-left : (c : Control) → ControlInv c → c.end ≡ (left c == 0)
end-left c h =
    h.ended
    ∙ both_zero c.order_finished (waits (queues c) (finished c)) (is_empty (queues c))
        (is_empty-waits (queues c) (finished c) h.open_queues)

and_second : (a b : Bool) → (a && b) ≡ true → b ≡ true
and_second true b h = h
and_second false b h = absurd cc

find_empty : (rid : ℕ) (qs : List (ℕ × ℕ)) → is_empty qs ≡ true → is_none (find rid qs) ≡ true
unfolding find
find_empty rid [] h = refl
find_empty rid (q ∷ qs) h = absurd cc

pub no_more : (c : Control) (e : Event) → ControlInv c → c.end ≡ true → IsExpected c e → ⊥
no_more c (storage_info intros) h ended x = x
no_more c order_bye h ended x = absurd (cc (rw x at h.ended, ended))
no_more c (storage_bye sid rid) h ended (lt, known) =
    let empty = and_second c.order_finished (is_empty (queues c)) (sym h.ended ∙ ended) in
    absurd (cc (find_empty rid (queues c) empty, known))

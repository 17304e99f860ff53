-- ===== src/Storage/Publish/Queues.antt =====
-- Which entry the thread `subscriber` of src/storage/storage.cpp sends, and through which queue.
use zip_log_ae.Base.{
  ℕ, ◌+◌, ◌%◌, ◌^◌, ◌<◌, ◌≡◌, ◌⊎◌, refl, sym, ap, ◌∙◌, true, false, Option, none, some, is_none,
  List, [], ◌∷◌, ◌++◌, ◌==◌, find, if◌then◌else◌, assign, erase, All, All-assign, All-erase, arith,
  inl, inr,
}
use zip_log_ae.Storage.Log.{Entry, Log}
use zip_log_ae.Storage.Iterator.{Iterator, next_entry, new_iterator}
use zip_log_ae.Storage.Iterator.InOrder.{
  IsNext, IsLate, Yields, next_entry-Yields, new_iterator-IsNext,
}
use zip_log_ae.Storage.Publish.{
  Change, joined, gone, Out, finished, Thread, State, start, try_emplace, drop_subscriber,
  on_change, message, send_all, Result, publish, after_change, round,
}

abbrev pub HasQueue : ℕ × ℕ → Type 0
HasQueue q = 0 < q.1

-- The next entry is that of the place `p`, which is also what the thread counts.
pub record PublishInv (t : Thread) (p : ℕ) (s : State) : Type 0 where
  pub next : IsNext p s.log
  pub stride : s.log.stride ≡ t.subscriber_threads
  pub count : s.num_sent ≡ p
  pub queues : All HasQueue s.subscribers

-- A subscriber has a queue, and is gone only if the thread has it.
abbrev pub IsChange : State → Option Change → Type 0
IsChange s none = Unit
IsChange s (some (joined id n)) = 0 < n
IsChange s (some (gone id)) = is_none (find id s.subscribers) ≡ false

-- The subscribers after a change: one that joins comes with its queues, unless there is one with its
-- identifier, and one that is gone leaves.
abbrev pub next_subscribers : List (ℕ × ℕ) → Option Change → List (ℕ × ℕ)
next_subscribers subscribers none = subscribers
next_subscribers subscribers (some (joined id n)) =
    if is_none (find id subscribers) then assign id n subscribers else subscribers
next_subscribers subscribers (some (gone id)) = erase id subscribers

-- What is sent for an entry: one message for each subscriber, by the queue of the place.
abbrev pub messages : Thread → Entry → ℕ → List (ℕ × ℕ) → List Out
messages t e place [] = []
messages t e place ((id, n) ∷ subscribers) =
    message t e id (1 + place % n) ∷ messages t e place subscribers

-- The messages about the changes, which are no entries.
abbrev pub Notices : List Out → Type 0
Notices [] = Unit
Notices (finished id ∷ outs) = Notices outs
Notices (o ∷ outs) = ⊥

abbrev pub Publishes : Thread → ℕ → Log → List (ℕ × ℕ) → Result → Type 0
Publishes t p l subscribers none = ⊥
Publishes t p l subscribers (some (s, out)) =
    (s.subscribers ≡ subscribers)
    × ((PublishInv t p s × IsLate p l × Notices out)
        ⊎ (PublishInv t (p + t.subscriber_threads) s
            × ((l.cells p).set ≡ true)
            × ((before : List Out) × Notices before
                × (out ≡ before ++ messages t (l.cells p) p subscribers))))

send_all-messages :
    (t : Thread) (e : Entry) (p : ℕ) (subscribers : List (ℕ × ℕ))
    → All HasQueue subscribers
    → send_all t e p subscribers ≡ some (messages t e p subscribers)
unfolding send_all
send_all-messages t e p [] h = refl
send_all-messages t e p ((id, n) ∷ subscribers) (pos, h) =
    let nonzero : (n == 0) ≡ false = ground (arith, pos) in
    rw (nonzero, send_all-messages t e p subscribers h) refl

-- A change leaves the place.
abbrev Changed : Thread → ℕ → List (ℕ × ℕ) → Result → Type 0
Changed t p subscribers none = ⊥
Changed t p subscribers (some (s, out)) =
    PublishInv t p s × (s.subscribers ≡ subscribers) × Notices out

joined-queues :
    (id n : ℕ) (subscribers : List (ℕ × ℕ)) (o : Option ℕ)
    → 0 < n
    → All HasQueue subscribers
    → All HasQueue (try_emplace id n subscribers o)
joined-queues id n subscribers none pos h = All-assign HasQueue id n subscribers pos h
joined-queues id n subscribers (some m) pos h = h

joined-next :
    (id n : ℕ) (subscribers : List (ℕ × ℕ)) (o : Option ℕ)
    → try_emplace id n subscribers o ≡ (if is_none o then assign id n subscribers else subscribers)
joined-next id n subscribers none = refl
joined-next id n subscribers (some m) = refl

gone-Changed :
    (t : Thread) (p : ℕ) (s : State) (id : ℕ) (o : Option ℕ)
    → PublishInv t p s
    → is_none o ≡ false
    → Changed t p (erase id s.subscribers) (drop_subscriber s id o)
gone-Changed t p s id none h known = absurd cc
gone-Changed t p s id (some n) h known = (
  record {
    next = h.next;
    stride = h.stride;
    count = h.count;
    queues = All-erase HasQueue id s.subscribers h.queues;
  },
  refl,
  tt,
)

on_change-Changed :
    (t : Thread) (p : ℕ) (s : State) (change : Option Change)
    → PublishInv t p s
    → IsChange s change
    → Changed t p (next_subscribers s.subscribers change) (on_change s change)
unfolding on_change
on_change-Changed t p s none h v = (h, refl, tt)
on_change-Changed t p s (some (joined id n)) h v = (
  record {
    next = h.next;
    stride = h.stride;
    count = h.count;
    queues = joined-queues id n s.subscribers (find id s.subscribers) v h.queues;
  },
  joined-next id n s.subscribers (find id s.subscribers),
  tt,
)
on_change-Changed t p s (some (gone id)) h v = gone-Changed t p s id (find id s.subscribers) h v

moved-IsNext : (p q : ℕ) (it : Iterator) → p ≡ q → IsNext p it → IsNext q it
moved-IsNext p q it e h = rw (sym e) h

publish-Publishes :
    (t : Thread) (p : ℕ) (l : Log) (s : State) (before : List Out) (r : Option Entry × Iterator)
    → p + t.subscriber_threads < 2 ^ 64
    → PublishInv t p s
    → Notices before
    → Yields p l s.log.stride r
    → Publishes t p l s.subscribers (publish t s before r)
publish-Publishes t p l s before (none, it) small h quiet (late, next, stride) = (
  refl,
  inl (
    record { next = next; stride = stride ∙ h.stride; count = h.count; queues = h.queues },
    late,
    quiet,
  ),
)
publish-Publishes t p l s before (some e, it) small h quiet (same, set, next, stride) =
    let out : send_all t e s.num_sent s.subscribers
        ≡ some (messages t (l.cells p) p s.subscribers) =
      ap (λ x. send_all t x s.num_sent s.subscribers) same
      ∙ ap (λ k. send_all t (l.cells p) k s.subscribers) h.count
      ∙ send_all-messages t (l.cells p) p s.subscribers h.queues in
    rw out (
      refl,
      inr (
        record {
          next =
              moved-IsNext (p + s.log.stride) (p + t.subscriber_threads) it
                (ap (λ k. p + k) h.stride) next;
          stride = stride ∙ h.stride;
          count = omega (arith, h.count, small);
          queues = h.queues;
        },
        rw (sym same) set,
        (before, quiet, refl),
      ),
    )

after_change-Publishes :
    (t : Thread) (p : ℕ) (l : Log) (subscribers : List (ℕ × ℕ)) (r : Result)
    → p + t.subscriber_threads < 2 ^ 64
    → Changed t p subscribers r
    → Publishes t p l subscribers (after_change t l r)
after_change-Publishes t p l subscribers none small h = h
after_change-Publishes t p l subscribers (some (s, out)) small (h, same, quiet) = rw (sym same) (
    publish-Publishes t p l s out (next_entry l s.log) small h quiet
      (next_entry-Yields l s.log p h.next))

-- A round.
pub round-Publishes :
    (t : Thread) (p : ℕ) (l : Log) (s : State) (change : Option Change)
    → p + t.subscriber_threads < 2 ^ 64
    → PublishInv t p s
    → IsChange s change
    → Publishes t p l (next_subscribers s.subscribers change) (round t l s change)
unfolding round
round-Publishes t p l s change small h v =
    after_change-Publishes t p l (next_subscribers s.subscribers change) (on_change s change) small
      (on_change-Changed t p s change h v)

-- The state in which a thread starts.
pub start-PublishInv : (t : Thread) → PublishInv t t.index (start t)
unfolding new_iterator
start-PublishInv t = record {
  next = new_iterator-IsNext t.index t.subscriber_threads;
  stride = refl;
  count = refl;
  queues = tt;
}

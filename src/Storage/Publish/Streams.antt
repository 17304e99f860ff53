-- ===== src/Storage/Publish/Streams.antt =====
-- The entries that the thread `subscriber` of src/storage/storage.cpp sends one after the other.
use zip_log_ae.Base.{
  ℕ, suc, ◌+◌, ◌*◌, ◌^◌, ◌<◌, ◌≡◌, ◌⊎◌, refl, sym, inl, inr, true, Option, none, some, List, [],
  ◌∷◌, ◌++◌, length, arith,
}
use zip_log_ae.Storage.Log.{Log}
use zip_log_ae.Storage.Iterator.InOrder.{IsLate}
use zip_log_ae.Storage.Publish.{
  Change, Out, Thread, State, start, Result, round, run, run_rest, add_round,
}
use zip_log_ae.Storage.Publish.Queues.{
  PublishInv, IsChange, next_subscribers, Publishes, Notices, messages, round-Publishes,
  start-PublishInv,
}

-- The changes of the rounds fit the state when they come.
abbrev pub If : (State → Type 0) → Result → Type 0
If P none = Unit
If P (some (s, out)) = P s

abbrev pub AreChanges : Thread → State → List (Log × Option Change) → Type 0
AreChanges t s [] = Unit
AreChanges t s ((l, change) ∷ rounds) =
    IsChange s change × If (λ s'. AreChanges t s' rounds) (round t l s change)

-- An entry of a log that is set, in one message for each subscriber.
pub record SendsEntry (t : Thread) (p : ℕ) (l : Log) (subscribers : List (ℕ × ℕ)) (out : List Out)
    : Type 0 where
  pub set : (l.cells p).set ≡ true
  pub before : List Out
  pub quiet : Notices before
  pub all : out ≡ before ++ messages t (l.cells p) p subscribers

-- Each round sends no entry, as long as that of the place `p` is not in the log, or else this entry
-- to the subscribers that the changes have left, after which it is the turn of the place that is
-- one stride further.
abbrev pub Streams :
    Thread → ℕ → List (ℕ × ℕ) → List (Log × Option Change) → List (List Out) → Type 0
Streams t p subscribers [] [] = Unit
Streams t p subscribers [] (out ∷ outs) = ⊥
Streams t p subscribers (r ∷ rounds) [] = ⊥
Streams t p subscribers ((l, change) ∷ rounds) (out ∷ outs) =
    (IsLate p l × Notices out × Streams t p (next_subscribers subscribers change) rounds outs)
    ⊎ (SendsEntry t p l (next_subscribers subscribers change) out
        × Streams t (p + t.subscriber_threads) (next_subscribers subscribers change) rounds outs)

abbrev pub StreamsIn :
    Thread → ℕ → List (ℕ × ℕ) → List (Log × Option Change) → Option (List (List Out)) → Type 0
StreamsIn t p subscribers rounds none = ⊥
StreamsIn t p subscribers rounds (some outs) = Streams t p subscribers rounds outs

quiet-Streams :
    (t : Thread) (p : ℕ) (l : Log) (subscribers : List (ℕ × ℕ)) (change : Option Change)
    (rounds : List (Log × Option Change)) (out : List Out) (outs : Option (List (List Out)))
    → IsLate p l
    → Notices out
    → StreamsIn t p (next_subscribers subscribers change) rounds outs
    → StreamsIn t p subscribers ((l, change) ∷ rounds) (add_round out outs)
quiet-Streams t p l subscribers change rounds out none late quiet h = h
quiet-Streams t p l subscribers change rounds out (some outs) late quiet h = inl (late, quiet, h)

entry-Streams :
    (t : Thread) (p : ℕ) (l : Log) (subscribers : List (ℕ × ℕ)) (change : Option Change)
    (rounds : List (Log × Option Change)) (out : List Out) (outs : Option (List (List Out)))
    → SendsEntry t p l (next_subscribers subscribers change) out
    → StreamsIn t (p + t.subscriber_threads) (next_subscribers subscribers change) rounds outs
    → StreamsIn t p subscribers ((l, change) ∷ rounds) (add_round out outs)
entry-Streams t p l subscribers change rounds out none e h = h
entry-Streams t p l subscribers change rounds out (some outs) e h = inr (e, h)

moved :
    {a b : List (ℕ × ℕ)} (t : Thread) (p : ℕ) (rounds : List (Log × Option Change))
    (outs : Option (List (List Out)))
    → a ≡ b
    → StreamsIn t p a rounds outs
    → StreamsIn t p b rounds outs
moved t p rounds outs same h = rw (sym same) h

round-Streams :
    (t : Thread) (p : ℕ) (l : Log) (subscribers : List (ℕ × ℕ)) (change : Option Change)
    (rounds : List (Log × Option Change)) (r : Result)
    → Publishes t p l (next_subscribers subscribers change) r
    → If (λ s. AreChanges t s rounds) r
    → ((q : ℕ) (s : State)
        → q ≡ p ⊎ (q ≡ p + t.subscriber_threads)
        → PublishInv t q s
        → AreChanges t s rounds
        → StreamsIn t q s.subscribers rounds (run t s rounds))
    → StreamsIn t p subscribers ((l, change) ∷ rounds) (run_rest (λ s. run t s rounds) r)
round-Streams t p l subscribers change rounds none h v ih = h
round-Streams t p l subscribers change rounds (some (s, out)) (same, inl (inv, late, quiet)) v ih =
    quiet-Streams t p l subscribers change rounds out (run t s rounds) late quiet
      (moved t p rounds (run t s rounds) same (ih p s (inl refl) inv v))
round-Streams t p l subscribers change rounds (some (s, out))
      (same, inr (inv, set, (before, quiet, all))) v ih =
    entry-Streams t p l subscribers change rounds out (run t s rounds)
      (record { set = set; before = before; quiet = quiet; all = all })
      (moved t (p + t.subscriber_threads) rounds (run t s rounds) same
        (ih (p + t.subscriber_threads) s (inr refl) inv v))

room :
    (p k n : ℕ)
    → p + suc n * k < 2 ^ 64
    → (p + k < 2 ^ 64) × (p + n * k < 2 ^ 64) × ((p + k) + n * k < 2 ^ 64)
room p k n h = let e : suc n * k ≡ k + n * k = grind arith in omega (arith, e)

chosen :
    (p q k n : ℕ)
    → q ≡ p ⊎ (q ≡ p + k)
    → p + n * k < 2 ^ 64
    → (p + k) + n * k < 2 ^ 64
    → q + n * k < 2 ^ 64
chosen p q k n (inl e) same next = rw e same
chosen p q k n (inr e) same next = rw e next

run-Streams :
    (t : Thread) (p : ℕ) (s : State) (rounds : List (Log × Option Change))
    → p + length rounds * t.subscriber_threads < 2 ^ 64
    → PublishInv t p s
    → AreChanges t s rounds
    → StreamsIn t p s.subscribers rounds (run t s rounds)
unfolding run
run-Streams t p s [] small h v = tt
run-Streams t p s ((l, change) ∷ rounds) small h (v, vs) =
    let (first, same, next) = room p t.subscriber_threads (length rounds) small in
    round-Streams t p l s.subscribers change rounds (round t l s change)
      (round-Publishes t p l s change first h v) vs
      (λ q s' which inv changes.
        run-Streams t q s' rounds (chosen p q t.subscriber_threads (length rounds) which same next)
          inv changes)

-- When every subscriber has a queue and leaves only while the thread has it, and the places stay
-- below 2 ^ 64, a thread that starts with no subscriber sends in each round either no entry, as
-- long as the entry of the next place of its stride is not published or not set in the log that
-- the round finds, or, after any end messages, exactly this entry, which is set, in one message
-- for each subscriber that has joined and not left, by its queue 1 + place % num_queues: no entry
-- is skipped or sent twice, and the queue depends on the place only.
pub start-Streams :
    (t : Thread) (rounds : List (Log × Option Change))
    → t.index + length rounds * t.subscriber_threads < 2 ^ 64
    → AreChanges t (start t) rounds
    → StreamsIn t t.index [] rounds (run t (start t) rounds)
start-Streams t rounds small v = run-Streams t t.index (start t) rounds small (start-PublishInv t) v

-- ===== src/Subscriber/Control/Ending.antt =====
-- When the thread `control` of src/subscriber/subscriber.cpp ends.
use zip_log_ae.Base.{
  Bool-cases, inl, inr, ℕ, suc, ◌+◌, ◌≡◌, refl, Bool, true, false, Option, none, some, not, List,
  [], ◌∷◌, if◌then◌else◌, ◌==◌, length, arith,
}
use zip_log_ae.Subscriber.Control.{
  Control, Event, handle, begin_round, round, loop, next_round, handle_all, then_all,
}
use zip_log_ae.Subscriber.Control.Taken.{
  ControlInv, left, IsExpected, OneLess, handle-OneLess, end-left, no_more,
}

-- The messages of the rounds are waited for when they come.
abbrev pub If : (Control → Type 0) → Option Control → Type 0
If P none = Unit
If P (some c) = P c

abbrev pub AllExpected : Control → List Event → Type 0
AllExpected c [] = Unit
AllExpected c (e ∷ es) = IsExpected c e × If (λ d. AllExpected d es) (handle c e)

abbrev pub Expected : Control → List (Bool × List Event) → Type 0
Expected c [] = Unit
Expected c ((stop, es) ∷ rounds) =
    AllExpected (begin_round stop c).0 es × If (λ d. Expected d rounds) (round c stop es).0

abbrev pub total : List (Bool × List Event) → ℕ
total [] = 0
total ((stop, es) ∷ rounds) = length es + total rounds

-- After as many messages as were taken.
abbrev Less : ℕ → ℕ → Option Control → Type 0
Less n taken none = ⊥
Less n taken (some d) = ControlInv d × (left d + taken ≡ n)

abbrev pub Left : ℕ → ℕ → Option Control → Type 0
Left n taken none = ⊥
Left n taken (some d) = (left d + taken ≡ n) × (d.end ≡ (left d == 0)) × (d.process ≡ not d.end)

pub begin_round-ControlInv :
    (c : Control) (stop : Bool) → ControlInv c → ControlInv (begin_round stop c).0
unfolding begin_round
begin_round-ControlInv c stop h = record {
  keyed = h.keyed;
  small = h.small;
  open_queues = h.open_queues;
  counted = h.counted;
  known = h.known;
  ended = h.ended;
  running = h.running;
}

one_more-Less : (m n k : ℕ) (r : Option Control) → m + 1 ≡ n → Less m k r → Less n (suc k) r
one_more-Less m n k none e h = h
one_more-Less m n k (some d) e (inv, sum) = (inv, omega (arith, sum, e))

then_all-Less :
    (c : Control) (es : List Event) (r : Option Control)
    → OneLess c r
    → If (λ d. AllExpected d es) r
    → ((d : Control)
        → ControlInv d
        → AllExpected d es
        → Less (left d) (length es) (handle_all d es))
    → Less (left c) (suc (length es)) (then_all (λ d. handle_all d es) r)
then_all-Less c es none h x ih = h
then_all-Less c es (some d) (inv, less) x ih =
    one_more-Less (left d) (left c) (length es) (handle_all d es) less (ih d inv x)

-- The end comes with the last message that is waited for.
goes_on : (c : Control) (e : Event) → ControlInv c → IsExpected c e → c.end ≡ false
goes_on c e h x = elim (Bool-cases c.end) [
  | inr going ↦ going
  | inl ended ↦ absurd (no_more c e h ended x)
]

handle_all-Less :
    (c : Control) (es : List Event)
    → ControlInv c
    → AllExpected c es
    → Less (left c) (length es) (handle_all c es)
unfolding handle_all
handle_all-Less c [] h x = (h, omega arith)
handle_all-Less c (e ∷ es) h (first, later) =
    then_all-Less c es (handle c e) (handle-OneLess c e h (goes_on c e h first) first) later
      (λ d inv x. handle_all-Less d es inv x)

round-Less :
    (c : Control) (stop : Bool) (es : List Event)
    → ControlInv c
    → AllExpected (begin_round stop c).0 es
    → Less (left c) (length es) (round c stop es).0
unfolding round begin_round
round-Less c stop es h x =
    handle_all-Less (begin_round stop c).0 es (begin_round-ControlInv c stop h) x

nothing_left :
    (c : Control) (rounds : List (Bool × List Event))
    → ControlInv c
    → c.end ≡ true
    → Expected c rounds
    → total rounds ≡ 0
unfolding round handle_all begin_round
nothing_left c [] h ended x = refl
nothing_left c ((stop, []) ∷ rounds) h ended (x, xs) =
    omega
      (arith, nothing_left (begin_round stop c).0 rounds (begin_round-ControlInv c stop h) ended xs)
nothing_left c ((stop, e ∷ es) ∷ rounds) h ended ((x, later), xs) =
    absurd (no_more (begin_round stop c).0 e (begin_round-ControlInv c stop h) ended x)

more-Left : (m n k j : ℕ) (r : Option Control) → m + j ≡ n → Left m k r → Left n (j + k) r
more-Left m n k j none e h = h
more-Left m n k j (some d) e (sum, ended, running) = (omega (arith, sum, e), ended, running)

ended-Left :
    (n j : ℕ) (d : Control) (rounds : List (Bool × List Event)) (b : Bool)
    → ControlInv d
    → left d + j ≡ n
    → Expected d rounds
    → d.end ≡ b
    → (d.end ≡ false → Left (left d) (total rounds) (loop d rounds))
    → Left n (j + total rounds) (if b then some d else loop d rounds)
ended-Left n j d rounds false h less x e ih =
    more-Left (left d) n (total rounds) j (loop d rounds) less (ih e)
ended-Left n j d rounds true h less x e ih =
    (omega (arith, less, nothing_left d rounds h e x), end-left d h, h.running)

next_round-Left :
    (c : Control) (j : ℕ) (rounds : List (Bool × List Event)) (r : Option Control)
    → Less (left c) j r
    → If (λ d. Expected d rounds) r
    → ((d : Control)
        → ControlInv d
        → Expected d rounds
        → Left (left d) (total rounds) (loop d rounds))
    → Left (left c) (j + total rounds) (next_round (λ d. loop d rounds) r)
next_round-Left c j rounds none h x ih = h
next_round-Left c j rounds (some d) (inv, less) x ih =
    ended-Left (left c) j d rounds d.end inv less x refl (λ going. ih d inv x)

-- From the invariant, when every message of the rounds is one that the thread waits for, the loop
-- takes them all, each makes those that are left one less, and the loop and the threads that
-- process end exactly when none is left.
pub loop-Left :
    (c : Control) (rounds : List (Bool × List Event))
    → ControlInv c
    → Expected c rounds
    → Left (left c) (total rounds) (loop c rounds)
unfolding loop
loop-Left c [] h x = (omega arith, end-left c h, h.running)
loop-Left c ((stop, es) ∷ rounds) h (first, later) =
    next_round-Left c (length es) rounds (round c stop es).0 (round-Less c stop es h first) later
      (λ d inv x. loop-Left d rounds inv x)

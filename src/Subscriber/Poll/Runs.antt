-- ===== src/Subscriber/Poll/Runs.antt =====
-- The runs of the thread `poll` of src/subscriber/subscriber.cpp, step by step.
use zip_log_ae.Base.{ℕ, ◌≡◌, refl, sym, none, some, List, ◌∷◌, ◌++◌}
use zip_log_ae.Subscriber.Poll.{Message, Poll, Result, on_log_entry, run, run_rest, add_delivered}
use zip_log_ae.Subscriber.Poll.Steps.{Effect, on_log_entry-Effect}

-- A run that ends, by its first packet.
pub record Splits (failures : ℕ) (p : Poll) (m : Message) (ms : List Message) (q : Poll)
    (ds : List Message) : Type 0 where
  pub state : Poll
  pub out : List Message
  pub rest : List Message
  pub first : Effect failures p m state out
  pub later : run failures state ms ≡ some (q, rest)
  pub all : ds ≡ out ++ rest

rest-Splits :
    (failures : ℕ) (p : Poll) (m : Message) (ms : List Message) (state : Poll) (out : List Message)
    (r : Result) (q : Poll) (ds : List Message)
    → Effect failures p m state out
    → run failures state ms ≡ r
    → add_delivered out r ≡ some (q, ds)
    → Splits failures p m ms q ds
rest-Splits failures p m ms state out none q ds first later e = absurd cc
rest-Splits failures p m ms state out (some (q', rest)) q ds first later e =
    let same : q' ≡ q = cc in
    record {
      state = state;
      out = out;
      rest = rest;
      first = first;
      later = rw (sym same) later;
      all = cc;
    }

step-Splits :
    (failures : ℕ) (p : Poll) (m : Message) (ms : List Message) (r : Result) (q : Poll)
    (ds : List Message)
    → on_log_entry failures p m ≡ r
    → run_rest (λ x. run failures x ms) r ≡ some (q, ds)
    → Splits failures p m ms q ds
step-Splits failures p m ms none q ds first e = absurd cc
step-Splits failures p m ms (some (state, out)) q ds first e =
    rest-Splits failures p m ms state out (run failures state ms) q ds
      (on_log_entry-Effect failures p m state out first) refl e

pub run-Splits :
    (failures : ℕ) (p : Poll) (m : Message) (ms : List Message) (q : Poll) (ds : List Message)
    → run failures p (m ∷ ms) ≡ some (q, ds)
    → Splits failures p m ms q ds
unfolding run
run-Splits failures p m ms q ds e =
    step-Splits failures p m ms (on_log_entry failures p m) q ds refl e

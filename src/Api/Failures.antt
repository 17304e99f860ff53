-- ===== src/Api/Failures.antt =====
-- `process_failure` of src/network/manager.h and `failure_apply` of src/util/switch.h: a queue pair
-- that fails is reported as the message with which its peer has introduced itself.
use zip_log_ae.Api.{Kind, Message, to_bytes, Handler, Outcome, apply}
use zip_log_ae.Api.Codec.{IsMessage}
use zip_log_ae.Api.Dispatch.{Answers, apply-Answers}
use zip_log_ae.Base.{ℕ, zero, suc, ◌≡◌, refl, Option, none, some, List, [], ◌∷◌, length, All, map}

-- The events of the device that are told apart.
pub data EventType : Type 0 where
  qp_fatal qp_req_err qp_access_err path_mig_err other : EventType

-- An event, with the handshake message that is the context of its queue pair, if it has one.
pub record AsyncEvent : Type 0 where
  pub event_type : EventType
  pub context : Option (List ℕ)

abbrev pub context_of : AsyncEvent → EventType → Option (List ℕ)
context_of e qp_fatal = e.context
context_of e qp_req_err = e.context
context_of e qp_access_err = e.context
context_of e path_mig_err = e.context
context_of e other = none

-- One call: what is left of the events, and what the callback is called with.
unfoldable pub process_failure : List AsyncEvent → List AsyncEvent × Option (List ℕ)
process_failure [] = ([], none)
process_failure (e ∷ es) = (es, context_of e e.event_type)

module _ {R : Type 0} where
  abbrev pub apply_to : List (Handler R) → Option (List ℕ) → Option (Outcome R)
  apply_to hs none = none
  apply_to hs (some message) = some (apply hs message (length message))

  unfoldable pub failure_apply :
      List (Handler R) → List AsyncEvent → List AsyncEvent × Option (Outcome R)
  unfolding process_failure
  failure_apply hs es = let (rest, message) = process_failure es in (rest, apply_to hs message)

  -- So many calls.
  unfoldable pub failures : List (Handler R) → ℕ → List AsyncEvent → List (Option (Outcome R))
  failures hs zero es = []
  failures hs (suc n) es = let (rest, answer) = failure_apply hs es in answer ∷ failures hs n rest

-- A failure of a connection whose peer has introduced itself with a message.
pub record Failure : Type 0 where
  pub event_type : EventType
  pub kind : Kind
  pub message : Message kind

abbrev pub IsFailure : EventType → Type 0
IsFailure other = ⊥
IsFailure qp_fatal = Unit
IsFailure qp_req_err = Unit
IsFailure qp_access_err = Unit
IsFailure path_mig_err = Unit

abbrev pub event_of : Failure → AsyncEvent
event_of f = record { event_type = f.event_type; context = some (to_bytes f.kind f.message) }

-- The event of a connection, or one that is no failure of a connection.
pub data Report : Type 0 where
  failed : Failure → Report
  noise : Option (List ℕ) → Report

abbrev pub report_event : Report → AsyncEvent
report_event (failed f) = event_of f
report_event (noise context) = record { event_type = other; context = context }

abbrev pub IsValid : Report → Type 0
IsValid (failed f) = IsFailure f.event_type × IsMessage f.kind f.message
IsValid (noise context) = Unit

module _ {R : Type 0} where
  -- What one call should come to.
  abbrev pub IsAnswered : List (Handler R) → Report → Option (Outcome R) → Type 0
  IsAnswered hs (failed f) none = ⊥
  IsAnswered hs (failed f) (some o) = Answers f.kind f.message hs o
  IsAnswered hs (noise context) answer = answer ≡ none

  abbrev pub AllAnswered : List (Handler R) → List Report → List (Option (Outcome R)) → Type 0
  AllAnswered hs [] [] = Unit
  AllAnswered hs [] (a ∷ answers) = ⊥
  AllAnswered hs (r ∷ rs) [] = ⊥
  AllAnswered hs (r ∷ rs) (a ∷ answers) = IsAnswered hs r a × AllAnswered hs rs answers

  one-IsAnswered :
      (hs : List (Handler R)) (e : EventType) (k : Kind) (m : Message k)
      → IsFailure e
      → IsMessage k m
      → IsAnswered hs
          (failed (record { event_type = e; kind = k; message = m }))
          (apply_to hs (context_of (event_of (record { event_type = e; kind = k; message = m })) e))
  one-IsAnswered hs qp_fatal k m h v = apply-Answers k m hs v
  one-IsAnswered hs qp_req_err k m h v = apply-Answers k m hs v
  one-IsAnswered hs qp_access_err k m h v = apply-Answers k m hs v
  one-IsAnswered hs path_mig_err k m h v = apply-Answers k m hs v
  one-IsAnswered hs other k m h v = absurd h

  -- When the queue pairs that fail have as their contexts messages with which the peers introduced
  -- themselves, one call of `failure_apply` for each event answers the failures in their order as
  -- the typed dispatch answers the messages, and answers no other event.
  pub failures-AllAnswered :
      (hs : List (Handler R)) (rs : List Report)
      → All IsValid rs
      → AllAnswered hs rs (failures hs (length rs) (map report_event rs))
  unfolding failures failure_apply
  failures-AllAnswered hs [] h = tt
  failures-AllAnswered hs (failed f ∷ rs) h =
      (one-IsAnswered hs f.event_type f.kind f.message h.0.0 h.0.1, failures-AllAnswered hs rs h.1)
  failures-AllAnswered hs (noise context ∷ rs) h = (refl, failures-AllAnswered hs rs h.1)

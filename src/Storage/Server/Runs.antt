-- ===== src/Storage/Server/Runs.antt =====
-- Sequences of the handlers of src/storage/storage.cpp.
use zip_log_ae.Base.{ℕ, ◌<◌, ◌≡◌, ◌∙◌, List, arith, true, dec_lt}
use zip_log_ae.Storage.Position.Added.{SameContent-trans}
use zip_log_ae.Storage.Server.{Server, Message, done, new_server}
use zip_log_ae.Storage.Server.Events.{Event, handle, IsValid}
use zip_log_ae.Storage.Server.Invariant.{
  ServerInv, Keeps, handle-Keeps, unchanged, new_server-ServerInv,
}

-- A server gets from one state to another by handlers that end, for valid messages.
pub data Reaches : Server → Server → Type 0 where
  stop : (s : Server) → Reaches s s
  step :
      (s t u : Server) (e : Event) (ms : List Message)
      → IsValid e
      → handle s e ≡ done t ms
      → Reaches t u
      → Reaches s u

set-below :
    (s : Server) (a : ℕ) → ServerInv s → (s.log.cells a).set ≡ true → a < s.log.current_entries
set-below s a v set = elim (dec_lt a s.log.current_entries) [
  | yes lt ↦ lt
  | no ge ↦ absurd (ground (arith, v.linked.chained.fresh a))
]

handled :
    (s t : Server) (e : Event) (ms : List Message)
    → ServerInv s
    → IsValid e
    → handle s e ≡ done t ms
    → Keeps s t
handled s t e ms v h eq = rw eq at (handle-Keeps s e v h)

Keeps-trans : (s t u : Server) → ServerInv s → Keeps s t → Keeps t u → Keeps s u
Keeps-trans s t u v p q = record {
  inv = q.inv;
  final = λ a lt set.
      let first = p.final a lt set in
      let set' = first.set ∙ set in
      SameContent-trans (q.final a (set-below t a p.inv set') set') first;
}

-- From a state with the server invariant (the log is well linked and every client stands at its
-- entries), every sequence of handlers that end, for valid messages and in whatever order the
-- threads run them, keeps the invariant and leaves the client, the GSN and the data of every entry
-- that is set as they were.
pub run-Keeps : (s t : Server) → ServerInv s → Reaches s t → Keeps s t
run-Keeps s _ v (stop _) = unchanged s v
run-Keeps s u v (step _ t _ e ms h eq rest) =
    let first = handled s t e ms v h eq in Keeps-trans s t u v first (run-Keeps t u first.inv rest)

-- Every state that a started server reaches by handlers that end, for valid messages, has the
-- server invariant.
pub started-ServerInv :
    (shard replica : ℕ) (t : Server) → Reaches (new_server shard replica) t → ServerInv t
started-ServerInv shard replica t run =
    (run-Keeps (new_server shard replica) t (new_server-ServerInv shard replica) run).inv

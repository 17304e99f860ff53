-- ===== src/Client/Links/Laws.antt =====
-- What the connections of a client (src/client/client.cpp) keep.
use zip_log_ae.Client.Links.Steps.{Linked, IsValid, run-Goes}
use zip_log_ae.Client.Links.Servers.{Distinct, connected, replicas_of}
use zip_log_ae.Client.Start.{new_client}
use zip_log_ae.Client.Links.{StorageIntro, Links, is_empty, Event, run}
use zip_log_ae.Base.{ℕ, ◌≤◌, ◌≡◌, refl, ap, true, some, List, [], ◌∷◌, inl, inr, All, arith}

-- A client without connections.
abbrev pub unlinked : ℕ → ℕ → ℕ → ℕ → ℕ → Links
unlinked client_id shard_id failures client_queues destination = record {
  client = new_client client_id shard_id failures;
  client_queues = client_queues;
  destination = destination;
}

-- What a run comes to.
pub record Connects (start : Links) (es : List Event) : Type 0 where
  pub result : Links
  pub yields : run start es ≡ some result
  pub distinct : Distinct result.client.queues
  pub servers : replicas_of (connected start es []) ≡ result.client.queues
  pub destination :
      All
        (λ i. (1 ≤ result.destination) × (result.destination ≤ i.client_queues))
        (connected start es [])

-- The queue to which the client sends is one of every server that is connected.
destination-within :
    (l : Links) (met : List StorageIntro)
    → Linked l met
    → All (λ i. (1 ≤ l.destination) × (l.destination ≤ i.client_queues)) met
destination-within l met v = elim v.destination [
  | inl empty ↦ unmet met (v.servers) empty
  | inr (pos, e) ↦ within met v.agreed (rw e (omega arith)) (rw e (grind (arith, pos)))
]
  where
    unmet :
        (is : List StorageIntro)
        → replicas_of is ≡ l.client.queues
        → is_empty l.client.queues ≡ true
        → All (λ i. (1 ≤ l.destination) × (l.destination ≤ i.client_queues)) is
    unmet [] same empty = tt
    unmet (i ∷ is) same empty = absurd (ground (arith, ap is_empty same, empty))

    within :
        (is : List StorageIntro)
        → All (λ i. i.client_queues ≡ l.client_queues) is
        → 1 ≤ l.destination
        → l.destination ≤ l.client_queues
        → All (λ i. (1 ≤ l.destination) × (l.destination ≤ i.client_queues)) is
    within [] h low high = tt
    within (i ∷ is) h low high = ((low, omega (arith, h.0, high)), within is h.1 low high)

-- When every storage server that can be reached has a queue for clients, a new client never
-- divides by 0 while it connects and ends its connections in any order; it never has two
-- connections with one replica, its connections are those of the introductions that it accepted
-- and whose servers have not finished, and the queue that it sends to is one from 1 to the number
-- of queues that each of these introductions tells.
pub run-Connects :
    (client_id shard_id failures junk junk' : ℕ) (es : List Event)
    → All IsValid es
    → Connects (unlinked client_id shard_id failures junk junk') es
run-Connects client_id shard_id failures junk junk' es h =
    let g =
      run-Goes (unlinked client_id shard_id failures junk junk') es [] h
        (record { distinct = tt; servers = refl; agreed = tt; destination = inl refl }) in
    record {
      result = g.result;
      yields = g.yields;
      distinct = g.linked.distinct;
      servers = g.linked.servers;
      destination = destination-within g.result _ g.linked;
    }

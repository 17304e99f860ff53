-- ===== src/Client/Links/Steps.antt =====
-- What each message keeps of the connections of a client (src/client/client.cpp).
use zip_log_ae.Order.{num_shards}
use zip_log_ae.Client.{has_queue, remove_queue, on_storage_finished}
use zip_log_ae.Client.Links.Servers.{
  Distinct, Distinct-append, remove_queue-Distinct, meet, meet_all, meet_event, connected,
  replicas_of, agreed-append, agreed-forget, replicas_of-forget, remove_missing,
}
use zip_log_ae.Client.Links.{
  StorageIntro, Links, is_empty, is_accepted, choose, add_queue, connect, on_storage_info, Event,
  storage_info, storage_finished, handle, run,
}
use mathlib.Core.List.{map-append}
use zip_log_ae.Base.{
  ◌∙◌, ℕ, ◌+◌, ◌/◌, ◌%◌, ◌<◌, ◌≡◌, refl, ap, true, false, Option, none, some, List, [], ◌∷◌, ◌++◌,
  ◌⊎◌, inl, inr, Bool-cases, ◌==◌, All, arith,
}

-- The servers are distinct, they are those of the introductions, which agree on the number of
-- queues, and the queue to which the client sends is one that they have.
pub record Linked (l : Links) (met : List StorageIntro) : Type 0 where
  pub distinct : Distinct l.client.queues
  pub servers : replicas_of met ≡ l.client.queues
  pub agreed : All (λ i. i.client_queues ≡ l.client_queues) met
  pub destination :
      (is_empty l.client.queues ≡ true)
      ⊎ ((0 < l.client_queues)
          × (l.destination ≡ 1 + (l.client.client_id / num_shards) % l.client_queues))

-- A server that connects has a queue for clients.
abbrev pub IsServing : Option StorageIntro → Type 0
IsServing none = Unit
IsServing (some i) = 0 < i.client_queues

abbrev pub IsValid : Event → Type 0
IsValid (storage_info is) = All IsServing is
IsValid (storage_finished shard_id replica_id) = Unit

pub record Goes (l : Links) (o : Option Links) (met : List StorageIntro) : Type 0 where
  pub result : Links
  pub yields : o ≡ some result
  pub linked : Linked result met

fresh_replica :
    (l : Links) (i : StorageIntro)
    → is_accepted l i ≡ true
    → has_queue i.replica_id l.client.queues ≡ false
unfolding is_accepted
fresh_replica l i e = ground (arith, e)

is_empty-append : (q : ℕ) (qs : List ℕ) → is_empty (qs ++ q ∷ []) ≡ false
is_empty-append q [] = refl
is_empty-append q (r ∷ qs) = refl

same_queues :
    (l : Links) (i : StorageIntro)
    → is_empty l.client.queues ≡ false
    → is_accepted l i ≡ true
    → i.client_queues ≡ l.client_queues
unfolding is_accepted
same_queues l i some_queue e = ground (arith, e, some_queue)

servers-append :
    (l : Links) (met : List StorageIntro) (i : StorageIntro)
    → replicas_of met ≡ l.client.queues
    → replicas_of (met ++ i ∷ []) ≡ l.client.queues ++ i.replica_id ∷ []
servers-append l met i e =
    map-append (λ i. i.replica_id) met (i ∷ []) ∙ ap (λ qs. qs ++ i.replica_id ∷ []) e

accept-Goes :
    (l : Links) (i : StorageIntro) (qs : List ℕ) (met : List StorageIntro)
    → l.client.queues ≡ qs
    → 0 < i.client_queues
    → is_accepted l i ≡ true
    → Linked l met
    → Goes l
        (elim (choose l i qs) [ none ↦ none | some l ↦ some (add_queue i.replica_id l) ])
        (met ++ i ∷ [])
accept-Goes l i (q ∷ qs) met same serving e v = record {
  result = add_queue i.replica_id l;
  yields = refl;
  linked = record {
    distinct = Distinct-append i.replica_id l.client.queues (fresh_replica l i e) v.distinct;
    servers = servers-append l met i v.servers;
    agreed = agreed-append l.client_queues met i v.agreed (same_queues l i (ap is_empty same) e);
    destination = elim v.destination [
      | inl bad ↦ absurd (ground (arith, bad, ap is_empty same))
      | inr h ↦ inr h
    ];
  };
}
accept-Goes l i [] (j ∷ met) same serving e v = absurd (no_member (v.servers ∙ same))
  where
    no_member : {q : ℕ} {qs : List ℕ} → q ∷ qs ≡ [] → ⊥
    no_member bad = absurd cc
accept-Goes l i [] [] same serving e v =
    let some_queue : (i.client_queues == 0) ≡ false = ground arith in
    record {
      result = add_queue i.replica_id (record l {
        client_queues = i.client_queues;
        destination = 1 + (l.client.client_id / num_shards) % i.client_queues;
      });
      yields = rw some_queue refl;
      linked = record {
        distinct = Distinct-append i.replica_id l.client.queues (fresh_replica l i e) v.distinct;
        servers = servers-append l [] i v.servers;
        agreed = (refl, tt);
        destination = inr (serving, refl);
      };
    }

connect-Goes :
    (l : Links) (i : Option StorageIntro) (met : List StorageIntro)
    → IsServing i
    → Linked l met
    → Goes l (connect l i) (meet l i met)
unfolding connect
connect-Goes l none met h v = record { result = l; yields = refl; linked = v }
connect-Goes l (some i) met h v = elim (Bool-cases (is_accepted l i)) [
  | inr e ↦ record { result = l; yields = rw (connect, e) refl; linked = rw e v }
  | inl e ↦
      let g = accept-Goes l i l.client.queues met refl h e v in
      record { result = g.result; yields = rw (connect, e) g.yields; linked = rw e g.linked }
]

storage_info-Goes :
    (l : Links) (is : List (Option StorageIntro)) (met : List StorageIntro)
    → All IsServing is
    → Linked l met
    → Goes l (on_storage_info l is) (meet_all l is met)
unfolding on_storage_info
storage_info-Goes l [] met h v = record { result = l; yields = refl; linked = v }
storage_info-Goes l (i ∷ is) met h v =
    let first = connect-Goes l i met h.0 v in
    let rest = storage_info-Goes first.result is (meet l i met) h.1 first.linked in
    record {
      result = rest.result;
      yields = rw (on_storage_info, first.yields) rest.yields;
      linked = rw (meet_all, first.yields) rest.linked;
    }

-- A server of another shard, one that is not connected, and one that is.
finished-Linked :
    (l : Links) (shard_id replica_id : ℕ) (met : List StorageIntro)
    → Linked l met
    → Linked
        (record l { client = (on_storage_finished l.client shard_id replica_id).0 })
        (meet_event l (storage_finished shard_id replica_id) met)
unfolding on_storage_finished
finished-Linked l shard_id replica_id met v = elim (Bool-cases (l.client.shard_id == shard_id)) [
  | inr e ↦ rw e (record {
    distinct = v.distinct;
    servers = v.servers;
    agreed = v.agreed;
    destination = v.destination;
  })
  | inl e ↦ rw e (elim (Bool-cases (has_queue replica_id l.client.queues)) [
    | inr f ↦ rw f (record {
      distinct = v.distinct;
      servers =
          replicas_of-forget replica_id met
          ∙ ap (remove_queue replica_id) v.servers
          ∙ remove_missing replica_id l.client.queues f;
      agreed = agreed-forget l.client_queues replica_id met v.agreed;
      destination = v.destination;
    })
    | inl f ↦ rw f (record {
      distinct = remove_queue-Distinct replica_id l.client.queues v.distinct;
      servers = replicas_of-forget replica_id met ∙ ap (remove_queue replica_id) v.servers;
      agreed = agreed-forget l.client_queues replica_id met v.agreed;
      destination = elim v.destination [
        | inl empty ↦ inl (still_empty l.client.queues empty)
        | inr h ↦ inr h
      ];
    })
  ])
]
  where
    still_empty : (qs : List ℕ) → is_empty qs ≡ true → is_empty (remove_queue replica_id qs) ≡ true
    still_empty [] h = refl
    still_empty (q ∷ qs) h = absurd cc

handle-Goes :
    (l : Links) (e : Event) (met : List StorageIntro)
    → IsValid e
    → Linked l met
    → Goes l (handle l e) (meet_event l e met)
unfolding handle
handle-Goes l (storage_info is) met h v = storage_info-Goes l is met h v
handle-Goes l (storage_finished shard_id replica_id) met h v = record {
  result = _;
  yields = refl;
  linked = finished-Linked l shard_id replica_id met v;
}

pub run-Goes :
    (l : Links) (es : List Event) (met : List StorageIntro)
    → All IsValid es
    → Linked l met
    → Goes l (run l es) (connected l es met)
unfolding run
run-Goes l [] met h v = record { result = l; yields = refl; linked = v }
run-Goes l (e ∷ es) met h v =
    let first = handle-Goes l e met h.0 v in
    let rest = run-Goes first.result es (meet_event l e met) h.1 first.linked in
    record {
      result = rest.result;
      yields = rw (run, first.yields) rest.yields;
      linked = rw (connected, first.yields) rest.linked;
    }

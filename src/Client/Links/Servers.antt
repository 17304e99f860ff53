-- ===== src/Client/Links/Servers.antt =====
-- The servers with which a client is connected (src/client/client.cpp), and their introductions.
use zip_log_ae.Client.{has_queue, remove_queue}
use zip_log_ae.Client.Links.{
  StorageIntro, Links, is_accepted, connect, Event, storage_info, storage_finished, handle,
}
use zip_log_ae.Base.{
  map, if◌then◌else◌, ℕ, ◌≡◌, refl, ap, false, ◌||◌, Option, none, some, List, [], ◌∷◌, ◌++◌, inl,
  inr, Bool-cases, ◌==◌, All, arith,
}

-- No replica twice.
abbrev pub Distinct : List ℕ → Type 0
Distinct [] = Unit
Distinct (q ∷ qs) = (has_queue q qs ≡ false) × Distinct qs

pub has_queue-append :
    (q r : ℕ) (qs : List ℕ) → has_queue q (qs ++ r ∷ []) ≡ (has_queue q qs || (r == q))
unfolding has_queue
has_queue-append q r [] = ground arith
has_queue-append q r (s ∷ qs) = ground (arith, has_queue-append q r qs)

pub Distinct-append :
    (r : ℕ) (qs : List ℕ) → has_queue r qs ≡ false → Distinct qs → Distinct (qs ++ r ∷ [])
unfolding has_queue
Distinct-append r [] fresh d = (refl, tt)
Distinct-append r (q ∷ qs) fresh d =
    (ground (arith, has_queue-append q r qs, d.0), Distinct-append r qs (ground (arith, fresh)) d.1)

pub has_queue-remove_queue :
    (q r : ℕ) (qs : List ℕ) → has_queue q qs ≡ false → has_queue q (remove_queue r qs) ≡ false
unfolding has_queue remove_queue
has_queue-remove_queue q r [] h = refl
has_queue-remove_queue q r (s ∷ qs) h = ground (arith, has_queue-remove_queue q r qs, h)

pub remove_queue-Distinct : (r : ℕ) (qs : List ℕ) → Distinct qs → Distinct (remove_queue r qs)
unfolding remove_queue
remove_queue-Distinct r [] d = tt
remove_queue-Distinct r (q ∷ qs) d = elim (Bool-cases (q == r)) [
  | inl e ↦ rw e d.1
  | inr e ↦ rw e (has_queue-remove_queue q r qs d.0, remove_queue-Distinct r qs d.1)
]

-- The introductions of the servers that are connected: one comes with each that is accepted, and
-- goes when its server finishes.
abbrev pub forget : ℕ → List StorageIntro → List StorageIntro
forget r [] = []
forget r (i ∷ is) = let rest = i ∷ forget r is in if i.replica_id == r then is else rest

abbrev pub meet : Links → Option StorageIntro → List StorageIntro → List StorageIntro
meet l none met = met
meet l (some i) met = if is_accepted l i then met ++ i ∷ [] else met

abbrev pub meet_all : Links → List (Option StorageIntro) → List StorageIntro → List StorageIntro
meet_all l [] met = met
meet_all l (i ∷ is) met = elim (connect l i) [
  | none ↦ met
  | some l' ↦ meet_all l' is (meet l i met)
]

abbrev pub meet_event : Links → Event → List StorageIntro → List StorageIntro
meet_event l (storage_info is) met = meet_all l is met
meet_event l (storage_finished shard_id replica_id) met =
    if l.client.shard_id == shard_id then forget replica_id met else met

abbrev pub connected : Links → List Event → List StorageIntro → List StorageIntro
connected l [] met = met
connected l (e ∷ es) met = elim (handle l e) [
  | none ↦ met
  | some l' ↦ connected l' es (meet_event l e met)
]

abbrev pub replicas_of : List StorageIntro → List ℕ
replicas_of is = map (λ i. i.replica_id) is

pub agreed-append :
    (n : ℕ) (met : List StorageIntro) (i : StorageIntro)
    → All (λ j. j.client_queues ≡ n) met
    → i.client_queues ≡ n
    → All (λ j. j.client_queues ≡ n) (met ++ i ∷ [])
agreed-append n [] i h e = (e, tt)
agreed-append n (j ∷ met) i h e = (h.0, agreed-append n met i h.1 e)

pub agreed-forget :
    (n r : ℕ) (met : List StorageIntro)
    → All (λ j. j.client_queues ≡ n) met
    → All (λ j. j.client_queues ≡ n) (forget r met)
agreed-forget n r [] h = tt
agreed-forget n r (j ∷ met) h = elim (Bool-cases (j.replica_id == r)) [
  | inl e ↦ rw e h.1
  | inr e ↦ rw e (h.0, agreed-forget n r met h.1)
]

pub replicas_of-forget :
    (r : ℕ) (met : List StorageIntro)
    → replicas_of (forget r met) ≡ remove_queue r (replicas_of met)
unfolding remove_queue
replicas_of-forget r [] = refl
replicas_of-forget r (j ∷ met) = elim (Bool-cases (j.replica_id == r)) [
  | inl e ↦ rw e refl
  | inr e ↦ rw e (ap (◌∷◌ j.replica_id) (replicas_of-forget r met))
]

pub remove_missing : (r : ℕ) (qs : List ℕ) → has_queue r qs ≡ false → remove_queue r qs ≡ qs
unfolding remove_queue has_queue
remove_missing r [] h = refl
remove_missing r (q ∷ qs) h =
    let e : (q == r) ≡ false = ground (arith, h) in
    rw e (ap (◌∷◌ q) (remove_missing r qs (ground (arith, h))))

-- ===== src/Network/Memory/Attempts/Laws.antt =====
-- What a call of `accept` or `connect` of src/network/manager.cpp leaves behind.
use zip_log_ae.Network.Handshake.{QueueInfo, Connection, agree, deserialize}
use zip_log_ae.Network.Memory.{Handle, Pools, Region, find_first}
use zip_log_ae.Network.Memory.Objects.{QueuePair, Holders}
use zip_log_ae.Network.Memory.Cover.{sum, sum-replace}
use zip_log_ae.Network.Memory.Receive.{find_first-set}
use zip_log_ae.Network.Memory.Account.{Laid}
use zip_log_ae.Network.Memory.Create.{create_receive_buffer-Creates}
use zip_log_ae.Network.Memory.Attempts.{
  Device, Exchange, no_counts, fails, succeeds, create_rooms, pairs_of, join, attempt,
}
use mathlib.Core.List.{map-append}
use zip_log_ae.Base.{
  ℕ, zero, suc, ◌+◌, ◌≤◌, ◌<◌, ◌≡◌, ◌∙◌, sym, refl, ap, Bool, true, false, some, List, [], ◌∷◌,
  ◌++◌, map, append-nil, Option, none, length, length-append, if◌then◌else◌, arith,
}

-- The number of receive buffers that are free.
abbrev pub bit : Bool → ℕ
bit b = if b then 1 else 0

abbrev pub num_free : Pools → ℕ
num_free m = sum bit m.free_receive_buffers

some_bit : (bs : List Bool) → 0 < sum bit bs → find_first bs < length bs
unfolding find_first
some_bit [] h = absurd (omega arith)
some_bit (true ∷ bs) h = omega arith
some_bit (false ∷ bs) h = omega (arith, some_bit bs (omega (arith, h)))

-- All calls of the device succeed.
pub record IsWorking (d : Device) : Type 0 where
  pub creates : (i : ℕ) → d.creates i ≡ true
  pub activates : (i : ℕ) (info : QueueInfo) → d.activates i info ≡ true
  pub destroys : d.destroys ≡ true

-- Queues that are created take as many free receive buffers.
record Takes (d : Device) (page : ℕ → Region) (i n : ℕ) (m : Pools) : Type 0 where
  result : Pools
  created : List (ℕ × Handle)
  rooms : List Handle
  left : ℕ
  yields : create_rooms d page i n m ≡ some (result, created)
  many : length created ≡ n
  laid : Laid result rooms left
  taken : num_free result + n ≡ num_free m

create_rooms-Takes :
    (d : Device) (page : ℕ → Region) (i n : ℕ) (m : Pools) (rooms : List Handle) (left : ℕ)
    → IsWorking d
    → Laid m rooms left
    → n ≤ num_free m
    → Takes d page i n m
unfolding create_rooms
create_rooms-Takes d page i zero m rooms left works laid enough = record {
  result = m;
  created = [];
  rooms = rooms;
  left = left;
  yields = refl;
  many = refl;
  laid = laid;
  taken = omega arith;
}
create_rooms-Takes d page i (suc n) m rooms left works laid enough =
    let bs = m.free_receive_buffers in
    let below = some_bit bs (omega (arith, enough)) in
    let c =
      create_receive_buffer-Creates page m rooms left laid (omega (arith, below, laid.bits)) in
    let one : num_free c.result + 1 ≡ num_free m =
      rw c.cleared
        (omega (arith, sum-replace bit (find_first bs) bs true false (find_first-set bs below))) in
    let rest =
      create_rooms-Takes d page (i + 1) n c.result (rooms ++ c.added) c.left works c.laid
        (omega (arith, enough, one)) in
    record {
      result = rest.result;
      created = (find_first bs, c.handle) ∷ rest.created;
      rooms = rest.rooms;
      left = rest.left;
      yields = rw (create_rooms, works.creates i, c.yields, rest.yields) refl;
      many = ap suc rest.many;
      laid = rest.laid;
      taken = omega (arith, rest.taken, one);
    }

-- The peer's index of each connection is kept with it.
record Tells (d : Device) (i : ℕ) (rooms : List (ℕ × Handle)) (infos : List QueueInfo)
    : Type 0 where
  result : List QueuePair
  yields : pairs_of d i rooms infos ≡ some result
  many : length result ≡ length rooms
  remote : map (λ q. q.remote_index) result ≡ map (λ q. q.index) infos

pairs_of-Tells :
    (d : Device) (i : ℕ) (rooms : List (ℕ × Handle)) (infos : List QueueInfo)
    → IsWorking d
    → length infos ≡ length rooms
    → Tells d i rooms infos
unfolding pairs_of
pairs_of-Tells d i [] [] works e = record { result = []; yields = refl; many = refl; remote = refl }
pairs_of-Tells d i [] (info ∷ infos) works e = absurd (omega arith)
pairs_of-Tells d i (room ∷ rooms) [] works e = absurd (omega arith)
pairs_of-Tells d i ((j, h) ∷ rooms) (info ∷ infos) works e =
    let rest = pairs_of-Tells d (i + 1) rooms infos works (omega (arith, e)) in
    record {
      result = record { index = j; handle = h; remote_index = info.index } ∷ rest.result;
      yields = rw (pairs_of, works.activates i info, rest.yields) refl;
      many = ap suc rest.many;
      remote = ap (◌∷◌ info.index) rest.remote;
    }

-- The queues of an attempt, and the indices that the peer tells.
abbrev pub wanted : ℕ → Exchange → ℕ
wanted mine no_counts = 0
wanted mine (fails other) = agree mine other
wanted mine (succeeds other bytes) = agree mine other

abbrev pub queue_infos_of : Option Connection → List QueueInfo
queue_infos_of none = []
queue_infos_of (some c) = c.queue_infos

abbrev pub told : Exchange → List QueueInfo
told no_counts = []
told (fails other) = []
told (succeeds other bytes) = queue_infos_of (deserialize bytes)

-- The bytes that have come are those of a connection with the queues that were agreed on.
abbrev pub IsComplete : ℕ → Exchange → Type 0
IsComplete mine no_counts = Unit
IsComplete mine (fails other) = Unit
IsComplete mine (succeeds other bytes) =
    (c : Connection) × (deserialize bytes ≡ some c) × (length c.queue_infos ≡ agree mine other)

abbrev pub connects : Exchange → Bool
connects no_counts = false
connects (fails other) = false
connects (succeeds other bytes) = true

-- An attempt takes the receive buffers of its queues, and adds their send queues if it connects,
-- each with the index that the peer has told.
pub record Leaves (d : Device) (page : ℕ → Region) (mine : ℕ) (s : Holders) (x : Exchange)
    : Type 0 where
  pub result : Holders
  pub yields : attempt d page mine s x ≡ some (result, connects x)
  pub taken : num_free result.pools + wanted mine x ≡ num_free s.pools
  pub remote :
      map (λ q. q.remote_index) result.queue_pairs
      ≡ map (λ q. q.remote_index) s.queue_pairs ++ map (λ q. q.index) (told x)
  pub added :
      length result.queue_pairs ≡ length s.queue_pairs + (if connects x then wanted mine x else 0)

-- Once the socket is connected, and when the calls of the device succeed and memory is granted,
-- there are free receive buffers for the queues that the two sides agree on, and the bytes that
-- come are those of a connection with that many queues, a call of `accept` or `connect` whose
-- exchange ends does not abort. It makes as many receive buffers unavailable as queues were
-- created, whether the exchange after that succeeds or fails; and only if it succeeds it adds as
-- many send queues, with the indices that the peer has told.
pub attempt-Leaves :
    (d : Device) (page : ℕ → Region) (mine : ℕ) (s : Holders) (x : Exchange) (rooms : List Handle)
    (left : ℕ)
    → IsWorking d
    → Laid s.pools rooms left
    → IsComplete mine x
    → wanted mine x ≤ num_free s.pools
    → Leaves d page mine s x
unfolding attempt
attempt-Leaves d page mine s no_counts rooms left works laid complete enough = record {
  result = s;
  yields = refl;
  taken = omega arith;
  remote = sym (append-nil (map (λ q. q.remote_index) s.queue_pairs));
  added = omega arith;
}
attempt-Leaves d page mine s (fails other) rooms left works laid complete enough =
    let t = create_rooms-Takes d page 0 (agree mine other) s.pools rooms left works laid enough in
    record {
      result = record s { pools = t.result };
      yields = rw (attempt, t.yields, works.destroys) refl;
      taken = t.taken;
      remote = sym (append-nil (map (λ q. q.remote_index) s.queue_pairs));
      added = omega arith;
    }
attempt-Leaves d page mine s (succeeds other bytes) rooms left works laid (c, read, many) enough =
    let t = create_rooms-Takes d page 0 (agree mine other) s.pools rooms left works laid enough in
    let p = pairs_of-Tells d 0 t.created c.queue_infos works (many ∙ sym t.many) in
    record {
      result = record s { pools = t.result; queue_pairs = s.queue_pairs ++ p.result };
      yields = rw (attempt, t.yields, read, join, p.yields) refl;
      taken = t.taken;
      remote = rw read (
          map-append (λ q. q.remote_index) s.queue_pairs p.result
          ∙ ap (◌++◌ (map (λ q. q.remote_index) s.queue_pairs)) p.remote);
      added = omega (arith, length-append s.queue_pairs p.result, p.many, t.many);
    }

-- ===== src/Lock/Examples.antt =====
-- The lock service on a lock, a second one that waits, and an unlock.
use zip_log_ae.Base.{ℕ, ◌≡◌, ◌≢◌, refl, some, List, [], ◌∷◌, false, arith}
use zip_log_ae.Lock.{lock, unlock, Request, Service, run, notify, set_queue, new_service}
use zip_log_ae.Lock.Fifo.{Passes, run-Passes}
use zip_log_ae.Lock.Exclusion.{Holds, holds-exclusive}

abbrev service : Service
service = record { cid = 3; num_keys = 5; lock_queue = λ _. []; flags = λ _. false }

abbrev by_three : Request
by_three = record { action = lock; client = 3; lock_key = 2; flag = 0 }

abbrev by_four : Request
by_four = record { action = lock; client = 4; lock_key = 2; flag = 1 }

abbrev back : Request
back = record { action = unlock; client = 3; lock_key = 2; flag = 2 }

abbrev requests : List Request
requests = by_three ∷ by_four ∷ back ∷ []

abbrev held : Service
held = set_queue (notify service by_three) 2 (by_three ∷ [])

abbrev both : Service
both = set_queue held 2 (by_three ∷ by_four ∷ [])

abbrev final : Service
final = notify (set_queue both 2 (by_four ∷ [])) by_three

ends : run service requests ≡ some final
unfolding run
ends = refl

run-Passes_example : Passes 2 service final requests
run-Passes_example = run-Passes 2 service final requests ends

lock-unlock : lock ≢ unlock
lock-unlock e = cc

ran_first :
    run (new_service 3 5) (by_three ∷ [])
    ≡ some (set_queue (notify (new_service 3 5) by_three) 2 (by_three ∷ []))
unfolding run
ran_first = refl

abbrev holding : Holds 5 3 2 (by_three ∷ by_four ∷ [])
holding = record {
  before = [];
  request = by_three;
  after = by_four ∷ [];
  stands = refl;
  mine = refl;
  locks_key = refl;
  alone_before = tt;
  alone_after = (λ same. absurd (omega arith), tt);
  spared = (λ same. absurd (lock-unlock same), tt);
  seen = by_three ∷ [];
  unseen = by_four ∷ [];
  received = refl;
  state = set_queue (notify (new_service 3 5) by_three) 2 (by_three ∷ []);
  ran = ran_first;
  returned = refl;
}

holds-exclusive_example : ◌≡◌ {A = ℕ} 3 3
holds-exclusive_example = holds-exclusive 5 2 3 3 (by_three ∷ by_four ∷ []) holding holding

-- ===== src/Network/Memory/Examples.antt =====
-- The memory of the manager with pages in a row.
use zip_log_ae.Network.Memory.{
  Region, new_pools, find_first, huge_page_size, create_receive_buffer, create_at, store, set_at,
  free_recv_buffer,
}
use zip_log_ae.Network.Memory.Objects.{
  Holders, Event, run, step, remove_at, get, move_construct, move_assign, destroy, connect,
  disconnect, move_construct_at, move_assign_at, replace, object,
}
use zip_log_ae.Network.Handshake.{QueueInfo, Side, agree, introduce, serialize}
use zip_log_ae.Network.Handshake.Laws.{IsConnection, deserialize-serialize}
use zip_log_ae.Network.Memory.Attempts.{Device, Exchange, succeeds}
use zip_log_ae.Network.Memory.Attempts.Laws.{Leaves, attempt-Leaves}
use zip_log_ae.Network.Memory.Send.{Gets, get_buffers-Gets}
use zip_log_ae.Network.Memory.Runs.{Fits, Apart, new_holders, new-Accounts, Divided, run-Divided}
use zip_log_ae.Base.{
  ℕ, ◌+◌, ◌*◌, ◌≡◌, refl, inl, true, false, none, some, Option, List, map, [], ◌∷◌, arith,
  replicate,
}

abbrev in_a_row : ℕ → Region
in_a_row i = record { address = i * huge_page_size; local_key = i; remote_key = i + 100 }

in_a_row-Apart : Apart in_a_row
in_a_row-Apart i j lt = inl (omega arith)

-- Two queue pairs share a page; buffers are moved between objects and given back.
abbrev events : List Event
events =
    connect (λ i. i)
    ∷ get 3
    ∷ connect (λ i. i)
    ∷ move_construct 1
    ∷ move_assign 0 3
    ∷ destroy 0
    ∷ disconnect 0
    ∷ get 1100
    ∷ connect (λ i. i)
    ∷ []

events-Fits : Fits 0 events
unfolding Fits
events-Fits = ((omega arith, λ i. refl), ((omega arith, λ i. refl), ((omega arith, λ i. refl), tt)))

run-Divided_example : Divided in_a_row events
run-Divided_example = run-Divided in_a_row events in_a_row-Apart events-Fits

get_buffers-Gets_example : Gets in_a_row 3000 new_pools
get_buffers-Gets_example = get_buffers-Gets in_a_row 3000 new_pools

first_bit : find_first (false ∷ true ∷ true ∷ []) ≡ 1
unfolding find_first
first_bit = refl

no_bit : find_first (false ∷ false ∷ []) ≡ 2
unfolding find_first
no_bit = refl

-- The object that is moved from owns nothing.
moved : move_construct_at 0 (some (7, 8) ∷ []) ≡ none ∷ some (7, 8) ∷ []
unfolding move_construct_at replace object
moved = refl

swapped : move_assign_at 0 1 (some (7, 8) ∷ none ∷ []) ≡ none ∷ some (7, 8) ∷ []
unfolding move_assign_at replace
swapped = refl

assigned_to_itself : move_assign_at 0 0 (some (7, 8) ∷ []) ≡ some (7, 8) ∷ []
unfolding move_assign_at replace
assigned_to_itself = refl

-- A peer that has index 1 for the connection with index 0 makes the end of that connection free the
-- buffer of another one, which the next connection then shares.
abbrev indices : Option Holders → List ℕ
indices none = []
indices (some s) = map (λ q. q.index) s.queue_pairs

abbrev crossed : List Event
crossed = connect (λ i. 1) ∷ connect (λ i. i) ∷ disconnect 0 ∷ connect (λ i. i) ∷ []

shared_buffer : indices (run in_a_row new_holders crossed) ≡ 1 ∷ 1 ∷ []
unfolding run step create_receive_buffer create_at find_first set_at store free_recv_buffer
    remove_at
shared_buffer = refl

-- A peer that asks for three queues, and a device that does what it is told.
abbrev peer_queue : ℕ → QueueInfo
peer_queue i = record {
  index = i + 5;
  address = 4096;
  remote_key = 7;
  send_queue_num = 20;
  recv_queue_num = 30;
}

abbrev peer : Side
peer = record {
  asked = 3;
  create = peer_queue;
  local_id = 1;
  local_gid = replicate 16 0;
  xrc_queue_nums = 5 ∷ [];
  message = 1 ∷ [];
}

peer-IsConnection : IsConnection (introduce peer 4)
unfolding agree
peer-IsConnection = record {
  local_id = omega arith;
  local_gid = refl;
  queue_infos = omega arith;
  xrc_queue_nums = omega arith;
  small = omega arith;
}

abbrev device : Device
device = record { creates = λ _. true; activates = λ _ _. true; destroys = true }

abbrev met : Exchange
met = succeeds 3 (serialize 0 (introduce peer 4))

-- Three of four queues are created and connected.
attempt-Leaves_example : Leaves device in_a_row 4 new_holders met
unfolding agree
attempt-Leaves_example =
    let start = new-Accounts in_a_row in
    attempt-Leaves device in_a_row 4 new_holders met start.rooms start.left
      (record { creates = λ _. refl; activates = λ _ _. refl; destroys = refl }) start.laid
      (introduce peer 4, deserialize-serialize 0 (introduce peer 4) peer-IsConnection, refl)
      (omega arith)

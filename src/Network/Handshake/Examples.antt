-- ===== src/Network/Handshake/Examples.antt =====
-- The handshake between two sides, and a transfer over a socket, at small inputs.
use zip_log_ae.Base.{ℕ, refl, List, [], ◌∷◌, ◌++◌, replicate, arith}
use zip_log_ae.Network.Transfer.{Outcome, done}
use zip_log_ae.Network.Handshake.{QueueInfo, Side, introduce, agree}
use zip_log_ae.Network.Handshake.Laws.{Meets, read_peer-Meets, IsConnection}

-- A socket that takes one byte at a time, and one that yields one, or none when none is left.
abbrev take_one : List ℕ → List ℕ → Outcome (List ℕ) ℕ
take_one s [] = done s 0
take_one s (b ∷ bs) = done (s ++ b ∷ []) 1

abbrev yield_one : List ℕ → ℕ → Outcome (List ℕ) (List ℕ)
yield_one [] n = done [] []
yield_one (b ∷ bs) n = done bs (b ∷ [])

abbrev queue_at : ℕ → QueueInfo
queue_at i = record {
  index = i;
  address = 4096;
  remote_key = 7;
  send_queue_num = 20;
  recv_queue_num = 30;
}

abbrev client_side : Side
client_side = record {
  asked = 2;
  create = queue_at;
  local_id = 1;
  local_gid = replicate 16 0;
  xrc_queue_nums = 5 ∷ [];
  message = 1 ∷ 2 ∷ 3 ∷ [];
}

abbrev server_side : Side
server_side = record client_side { asked = 0; local_id = 2; message = [] }

introduced : IsConnection (introduce server_side 2)
unfolding agree
introduced = record {
  local_id = omega arith;
  local_gid = refl;
  queue_infos = omega arith;
  xrc_queue_nums = omega arith;
  small = omega arith;
}

read_peer-Meets_example : Meets 0 client_side server_side
read_peer-Meets_example = read_peer-Meets 0 client_side server_side introduced

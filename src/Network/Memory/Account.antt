-- ===== src/Network/Memory/Account.antt =====
-- `create_receive_buffer` and `free_recv_buffer` of src/network/manager.cpp on the arrays of the
-- receive buffers.
use zip_log_ae.Network.SendQueue.{max_queue_pairs, receive_buffer_size}
use zip_log_ae.Network.Memory.{
  Handle, Region, Pools, carve, store_page, use_index, free_recv_buffer,
}
use zip_log_ae.Network.Memory.Objects.{replace}
use zip_log_ae.Network.Memory.Send.{length-carve}
use zip_log_ae.Network.Memory.Receive.{
  set_at-Sets, address_of, key_of, blanks, get-bound, get-map, get-append_left, store_lem,
}
use zip_log_ae.Base.{
  ℕ, suc, ◌+◌, ◌*◌, ◌≤◌, ◌<◌, ◌≡◌, refl, sym, ◌∙◌, ap, Bool, true, false, none, some, List, [], ◌∷◌,
  ◌++◌, map, arith, length, get_elem?, length-append, append_assoc, length-map,
}

-- The receive buffers are laid out from the first index on, those of a page at eight indices in a
-- row, and no index behind them is in use.
pub record Laid (m : Pools) (rooms : List Handle) (left : ℕ) : Type 0 where
  pub buffers : m.receive_buffers ≡ map address_of rooms ++ blanks left none
  pub keys : m.receive_keys ≡ map key_of rooms ++ blanks left 0
  pub long : length rooms + 8 * left ≡ max_queue_pairs
  pub bits : length m.free_receive_buffers ≡ max_queue_pairs
  pub unused :
      (i : ℕ)
      → length rooms ≤ i
      → i < max_queue_pairs
      → get_elem? m.free_receive_buffers i ≡ some true

module _ (m : Pools) (rooms : List Handle) (left : ℕ) (laid : Laid m rooms left) where
  pub set_bit-Laid :
      (i : ℕ) (b : Bool)
      → i < length rooms
      → Laid (record m { free_receive_buffers = replace i b m.free_receive_buffers }) rooms left
  set_bit-Laid i b lt =
      let s = set_at-Sets i b m.free_receive_buffers (omega (arith, lt, laid.long, laid.bits)) in
      record {
        buffers = laid.buffers;
        keys = laid.keys;
        long = laid.long;
        bits = s.long ∙ laid.bits;
        unused = λ j le below. s.others j (λ e. absurd (omega arith)) ∙ laid.unused j le below;
      }

  pub use_index_lem :
      (i : ℕ) (h : Handle)
      → get_elem? rooms i ≡ some h
      → use_index i m
        ≡ some (record m { free_receive_buffers = replace i false m.free_receive_buffers }, (i, h))
  use_index_lem i h e =
      let lt = get-bound rooms i h e in
      let s =
        set_at-Sets i false m.free_receive_buffers (omega (arith, lt, laid.long, laid.bits)) in
      let at : get_elem? m.receive_buffers i ≡ some (address_of h) = rw laid.buffers (
        get-append_left (map address_of rooms) (blanks left none) i (address_of h)
          (get-map address_of rooms i h e)) in
      let key : get_elem? m.receive_keys i ≡ some (key_of h) = rw laid.keys (
        get-append_left (map key_of rooms) (blanks left 0) i (key_of h)
          (get-map key_of rooms i h e)) in
      rw (use_index, at, key, s.yields) refl

  pub free_recv_buffer_lem :
      (i : ℕ)
      → i < length rooms
      → free_recv_buffer i m
        ≡ some (record m { free_receive_buffers = replace i true m.free_receive_buffers })
  unfolding free_recv_buffer
  free_recv_buffer_lem i lt =
      let s = set_at-Sets i true m.free_receive_buffers (omega (arith, lt, laid.long, laid.bits)) in
      rw (free_recv_buffer, s.yields) refl

-- The receive buffers of a page.
abbrev pub rooms_of : Region → List Handle
rooms_of r = carve receive_buffer_size r.address r.remote_key 8 0

abbrev pub filled : Region → List Handle → ℕ → Pools → Pools
filled r rooms left m = record m {
  page_list = m.page_list ++ (r ∷ []);
  receive_buffers = map address_of rooms ++ (map address_of (rooms_of r) ++ blanks left none);
  receive_keys = map key_of rooms ++ (map key_of (rooms_of r) ++ blanks left 0);
}

map-append {ℓ κ} :
    {A : Type ℓ} {B : Type κ} (f : A → B) (xs ys : List A) → map f (xs ++ ys) ≡ map f xs ++ map f ys
map-append f [] ys = refl
map-append f (x ∷ xs) ys = ap (◌∷◌ (f x)) (map-append f xs ys)

module _ (r : Region) (m : Pools) (rooms : List Handle) (left : ℕ)
    (laid : Laid m rooms (suc left)) where
  pub store_page_lem : store_page r (length rooms) m ≡ some (filled r rooms left m)
  store_page_lem =
      let stored =
        store_lem r 8 0 (map address_of rooms) (blanks left none) (map key_of rooms) (blanks left 0)
          (length-map rooms key_of ∙ sym (length-map rooms address_of)) in
      rw (store_page, laid.buffers, laid.keys, sym (length-map rooms address_of), stored) refl

  pub filled-Laid : Laid (filled r rooms left m) (rooms ++ rooms_of r) left
  filled-Laid =
      let more : length (rooms ++ rooms_of r) ≡ length rooms + 8 =
        length-append rooms (rooms_of r)
        ∙ ap (λ n. length rooms + n)
            (length-carve receive_buffer_size r.address r.remote_key 8 0) in
      record {
        buffers = rw (map-append address_of rooms (rooms_of r)) (
            sym (
              append_assoc (map address_of rooms) (map address_of (rooms_of r))
                (blanks left none)));
        keys =
            rw (map-append key_of rooms (rooms_of r))
              (sym (append_assoc (map key_of rooms) (map key_of (rooms_of r)) (blanks left 0)));
        long = omega (arith, more, laid.long);
        bits = laid.bits;
        unused = λ i le below. laid.unused i (omega (arith, le, more)) below;
      }

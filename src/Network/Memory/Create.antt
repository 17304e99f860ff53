-- ===== src/Network/Memory/Create.antt =====
-- `create_receive_buffer` of src/network/manager.cpp.
use zip_log_ae.Network.SendQueue.{max_queue_pairs, receive_buffer_size}
use zip_log_ae.Network.Memory.{
  Handle, Region, Pools, find_first, create_at, create_receive_buffer, huge_page_size,
}
use zip_log_ae.Network.Memory.Objects.{replace}
use zip_log_ae.Network.Memory.Cover.{
  sum-append, count_in, count-carve, covers, span, span_lem, pages_in,
}
use zip_log_ae.Network.Memory.Send.{first_pages, next_made, length-carve}
use zip_log_ae.Network.Memory.Receive.{
  address_of, blanks, get-blanks, get-below, get-map, find_first-le, get-append_left,
}
use zip_log_ae.Network.Memory.Account.{
  Laid, set_bit-Laid, use_index_lem, rooms_of, store_page_lem, filled, filled-Laid,
}
use zip_log_ae.Base.{
  ℕ, zero, suc, ◌+◌, ◌≤◌, ◌<◌, ◌≡◌, refl, false, none, some, List, [], ◌∷◌, ◌++◌, map, inl, inr,
  Bool-cases, ltb, ◌==◌, arith, length, get_elem?, append-nil, length-append, length-map,
}

-- What it yields: the first index whose bit is set, with the buffer that is laid out there.
pub record Creates (page : ℕ → Region) (m : Pools) (rooms : List Handle) : Type 0 where
  pub result : Pools
  pub added : List Handle
  pub left : ℕ
  pub handle : Handle
  pub yields :
      create_receive_buffer page m ≡ some (result, (find_first m.free_receive_buffers, handle))
  pub laid : Laid result (rooms ++ added) left
  pub cleared :
      result.free_receive_buffers
      ≡ replace (find_first m.free_receive_buffers) false m.free_receive_buffers
  pub found : get_elem? (rooms ++ added) (find_first m.free_receive_buffers) ≡ some handle
  pub free_list : result.free_list ≡ m.free_list
  pub made :
      m.page_list ≡ first_pages page (length m.page_list)
      → result.page_list ≡ first_pages page (length result.page_list)
  pub memory :
      (byte : ℕ)
      → pages_in byte m.page_list + count_in receive_buffer_size byte added
        ≡ pages_in byte result.page_list

rooms_in :
    (r : Region) (byte : ℕ)
    → count_in receive_buffer_size byte (rooms_of r) ≡ covers huge_page_size byte r.address
rooms_in r byte =
    let e : span receive_buffer_size 8 ≡ huge_page_size = span_lem receive_buffer_size 8 in
    rw (count-carve receive_buffer_size r.address r.remote_key 8 0 byte, e) (ground arith)

more_rooms : (r : Region) (rooms : List Handle) → length rooms < length (rooms ++ rooms_of r)
more_rooms r rooms = omega (
  arith,
  length-append rooms (rooms_of r),
  length-carve receive_buffer_size r.address r.remote_key 8 0,
)

module _ (page : ℕ → Region) (m : Pools) (rooms : List Handle) (left : ℕ) (laid : Laid m rooms left)
    (free : find_first m.free_receive_buffers < max_queue_pairs) where
  some_left : (find_first m.free_receive_buffers == max_queue_pairs) ≡ false
  some_left = ground (arith, free)

  reuse : find_first m.free_receive_buffers < length rooms → Creates page m rooms
  unfolding create_receive_buffer create_at
  reuse lt =
      let index = find_first m.free_receive_buffers in
      let (h, e) = get-below rooms index lt in
      let at : get_elem? m.receive_buffers index ≡ some (some h.0) = rw laid.buffers (
        get-append_left (map address_of rooms) (blanks left none) index (some h.0)
          (get-map address_of rooms index h e)) in
      let same = append-nil rooms in
      record {
        result = record m { free_receive_buffers = replace index false m.free_receive_buffers };
        added = [];
        left = left;
        handle = h;
        yields =
            rw (create_receive_buffer, create_at, some_left, at)
              (use_index_lem m rooms left laid index h e);
        laid = rw same (set_bit-Laid m rooms left laid index false lt);
        cleared = refl;
        found = rw same e;
        free_list = refl;
        made = λ e. e;
        memory = λ byte. omega arith;
      }

  first_free : find_first m.free_receive_buffers ≤ length rooms
  first_free = elim (Bool-cases (ltb (length rooms) max_queue_pairs)) [
    | inl e ↦
        find_first-le m.free_receive_buffers (length rooms)
          (laid.unused (length rooms) (omega arith) (ground arith))
    | inr e ↦ ground (arith, free)
  ]

module _ (page : ℕ → Region) (m : Pools) (rooms : List Handle) (left : ℕ)
    (laid : Laid m rooms (suc left)) where
  fresh_at :
      (h : Handle)
      → get_elem? (rooms ++ rooms_of (page (length m.page_list))) (length rooms) ≡ some h
      → create_at page (length rooms) m
        ≡ some (
          record (filled (page (length m.page_list)) rooms left m) {
            free_receive_buffers = replace (length rooms) false m.free_receive_buffers;
          },
          (length rooms, h),
        )
  unfolding create_at
  fresh_at h e =
      let r = page (length m.page_list) in
      let none_yet : get_elem? m.receive_buffers (length rooms) ≡ some none = rw laid.buffers (
        get-blanks (map address_of rooms) (suc left) (length rooms) none
          (omega (arith, length-map rooms address_of))
          (omega (arith, length-map rooms address_of))) in
      let below : (length rooms == max_queue_pairs) ≡ false = ground (arith, laid.long) in
      rw (create_at, below, none_yet, store_page_lem r m rooms left laid)
        (use_index_lem _ (rooms ++ rooms_of r) left (filled-Laid r m rooms left laid) (length rooms)
          h e)

  fresh : find_first m.free_receive_buffers ≡ length rooms → Creates page m rooms
  unfolding create_receive_buffer
  fresh at =
      let r = page (length m.page_list) in
      let full = filled-Laid r m rooms left laid in
      let (h, e) = get-below (rooms ++ rooms_of r) (length rooms) (more_rooms r rooms) in
      record {
        result = _;
        added = rooms_of r;
        left = left;
        handle = h;
        yields = rw at (fresh_at h e);
        laid =
            set_bit-Laid _ (rooms ++ rooms_of r) left full (length rooms) false
              (more_rooms r rooms);
        cleared = rw at refl;
        found = rw at e;
        free_list = refl;
        made = next_made page m.page_list;
        memory = λ byte. omega (
          arith,
          sum-append (λ r. covers huge_page_size byte r.address) m.page_list (r ∷ []),
          rooms_in r byte,
        );
      }

pub create_receive_buffer-Creates :
    (page : ℕ → Region) (m : Pools) (rooms : List Handle) (left : ℕ)
    → Laid m rooms left
    → find_first m.free_receive_buffers < max_queue_pairs
    → Creates page m rooms
create_receive_buffer-Creates page m rooms left laid free =
    elim (Bool-cases (ltb (find_first m.free_receive_buffers) (length rooms))) [
      | inl e ↦ reuse page m rooms left laid free (ground (arith, e))
      | inr e ↦ behind left laid (ground (arith, e, first_free page m rooms left laid free))
    ]
  where
    behind :
        (left : ℕ)
        → Laid m rooms left
        → find_first m.free_receive_buffers ≡ length rooms
        → Creates page m rooms
    behind zero l at = absurd (omega (arith, l.long, free, at))
    behind (suc k) l at = fresh page m rooms k l at

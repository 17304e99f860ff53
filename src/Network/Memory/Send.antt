-- ===== src/Network/Memory/Send.antt =====
-- `get_buffers` and `put_buffer` of src/network/manager.cpp.
use zip_log_ae.Network.SendQueue.{send_buffer_size}
use zip_log_ae.Network.Memory.{
  Handle, Region, Pools, carve, add_page, split, grow, get_buffers, huge_page_size,
}
use zip_log_ae.Network.Memory.Cover.{
  sum-append, sum-take, count_in, count-carve, span, span_lem, pages_in, covers,
}
use zip_log_ae.Base.{
  ℕ, zero, suc, ◌+◌, ◌/◌, ◌≤◌, ◌≡◌, refl, ◌∙◌, ap, false, some, List, [], ◌∷◌, ◌++◌, inl, inr,
  Bool-cases, ltb, arith, take, length, length-append,
}

pub length-carve : (size address key count j : ℕ) → length (carve size address key count j) ≡ count
unfolding carve
length-carve size address key zero j = refl
length-carve size address key (suc count) j =
    ap suc (length-carve size address key count (j + size))

length-take {ℓ} : {A : Type ℓ} (n : ℕ) (xs : List A) → n ≤ length xs → length (take n xs) ≡ n
length-take zero xs h = refl
length-take (suc n) [] h = absurd (omega arith)
length-take (suc n) (x ∷ xs) h = ap suc (length-take n xs (omega arith))

module _ (page : ℕ → Region) where
  -- The first pages, in the order in which they are allocated.
  abbrev pub first_pages : ℕ → List Region
  first_pages zero = []
  first_pages (suc n) = first_pages n ++ (page n ∷ [])

  -- `m'` follows `m` by allocations of send buffers.
  pub record Grown (m m' : Pools) : Type 0 where
    pub made :
        m.page_list ≡ first_pages (length m.page_list)
        → m'.page_list ≡ first_pages (length m'.page_list)
    pub memory :
        (byte : ℕ)
        → count_in send_buffer_size byte m'.free_list + pages_in byte m.page_list
          ≡ count_in send_buffer_size byte m.free_list + pages_in byte m'.page_list
    pub receive_buffers : m'.receive_buffers ≡ m.receive_buffers
    pub receive_keys : m'.receive_keys ≡ m.receive_keys
    pub free_receive_buffers : m'.free_receive_buffers ≡ m.free_receive_buffers

  pub next_made :
      (ps : List Region)
      → ps ≡ first_pages (length ps)
      → ps ++ (page (length ps) ∷ []) ≡ first_pages (length (ps ++ (page (length ps) ∷ [])))
  next_made ps e =
      let one : length (ps ++ (page (length ps) ∷ [])) ≡ suc (length ps) =
        omega (arith, length-append ps (page (length ps) ∷ [])) in
      rw one (ap (λ qs. qs ++ (page (length ps) ∷ [])) e)

  page_in :
      (r : Region) (byte : ℕ)
      → count_in send_buffer_size byte
          (carve send_buffer_size r.address r.local_key (huge_page_size / send_buffer_size) 0)
        ≡ covers huge_page_size byte r.address
  page_in r byte =
      let e : span send_buffer_size (huge_page_size / send_buffer_size) ≡ huge_page_size =
        span_lem send_buffer_size 1024 in
      rw (count-carve send_buffer_size r.address r.local_key 1024 0 byte, e) (ground arith)

  add_page-Grown : (m : Pools) → Grown m (add_page (page (length m.page_list)) m)
  add_page-Grown m =
      let r = page (length m.page_list) in
      record {
        made = next_made m.page_list;
        memory = λ byte. omega (
          arith,
          sum-append (λ h. covers send_buffer_size byte h.0) m.free_list
              (carve send_buffer_size r.address r.local_key (huge_page_size / send_buffer_size) 0),
          sum-append (λ r. covers huge_page_size byte r.address) m.page_list (r ∷ []),
          page_in r byte,
        );
        receive_buffers = refl;
        receive_keys = refl;
        free_receive_buffers = refl;
      }

  Grown-trans : (m m' m'' : Pools) → Grown m m' → Grown m' m'' → Grown m m''
  Grown-trans m m' m'' g h = record {
    made = λ e. h.made (g.made e);
    memory = λ byte. omega (arith, g.memory byte, h.memory byte);
    receive_buffers = h.receive_buffers ∙ g.receive_buffers;
    receive_keys = h.receive_keys ∙ g.receive_keys;
    free_receive_buffers = h.free_receive_buffers ∙ g.free_receive_buffers;
  }

  Grown-refl : (m : Pools) → Grown m m
  Grown-refl m = record {
    made = λ e. e;
    memory = λ byte. refl;
    receive_buffers = refl;
    receive_keys = refl;
    free_receive_buffers = refl;
  }

  length-add_page :
      (r : Region) (m : Pools) → length (add_page r m).free_list ≡ length m.free_list + 1024
  length-add_page r m =
      length-append m.free_list (carve send_buffer_size r.address r.local_key 1024 0)
      ∙ ap (λ n. length m.free_list + n)
          (length-carve send_buffer_size r.address r.local_key 1024 0)

  record Grows (fuel n : ℕ) (m : Pools) : Type 0 where
    result : Pools
    yields : grow page fuel n m ≡ some result
    grown : Grown m result
    enough : n ≤ length result.free_list

  grow-Grows : (fuel n : ℕ) (m : Pools) → n ≤ length m.free_list + fuel → Grows fuel n m
  unfolding grow
  grow-Grows zero n m h = record {
    result = m;
    yields = let e : ltb (length m.free_list) n ≡ false = ground (arith, h) in rw (grow, e) refl;
    grown = Grown-refl m;
    enough = omega (arith, h);
  }
  grow-Grows (suc fuel) n m h = elim (Bool-cases (ltb (length m.free_list) n)) [
    | inr e ↦ record {
      result = m;
      yields = rw (grow, e) refl;
      grown = Grown-refl m;
      enough = ground (arith, e);
    }
    | inl e ↦
        let r = page (length m.page_list) in
        let rest = grow-Grows fuel n (add_page r m) (omega (arith, h, length-add_page r m)) in
        record {
          result = rest.result;
          yields = rw (grow, e) rest.yields;
          grown = Grown-trans m (add_page r m) rest.result (add_page-Grown m) rest.grown;
          enough = rest.enough;
        }
  ]

  -- `get_buffers` yields the number of buffers that it is asked for.
  pub record Gets (n : ℕ) (m : Pools) : Type 0 where
    pub result : Pools
    pub buffers : List Handle
    pub yields : get_buffers page n m ≡ some (result, buffers)
    pub many : length buffers ≡ n
    pub made :
        m.page_list ≡ first_pages (length m.page_list)
        → result.page_list ≡ first_pages (length result.page_list)
    pub memory :
        (byte : ℕ)
        → count_in send_buffer_size byte result.free_list
            + count_in send_buffer_size byte buffers
            + pages_in byte m.page_list
          ≡ count_in send_buffer_size byte m.free_list + pages_in byte result.page_list
    pub receive_buffers : result.receive_buffers ≡ m.receive_buffers
    pub receive_keys : result.receive_keys ≡ m.receive_keys
    pub free_receive_buffers : result.free_receive_buffers ≡ m.free_receive_buffers

  -- Whatever the free list holds, the loop of `get_buffers` ends within as many rounds as buffers
  -- are asked for, and it yields exactly that many; the bytes of the free list and the new pages
  -- are those of the buffers and the free list that is left, and the receive buffers stay as they
  -- are.
  pub get_buffers-Gets : (n : ℕ) (m : Pools) → Gets n m
  unfolding get_buffers
  get_buffers-Gets n m =
      let g = grow-Grows n n m (omega arith) in
      let t = split n g.result in
      record {
        result = t.0;
        buffers = t.1;
        yields = rw (get_buffers, g.yields) refl;
        many = length-take n g.result.free_list g.enough;
        made = g.grown.made;
        memory = λ byte. omega (
          arith,
          g.grown.memory byte,
          sum-take (λ h. covers send_buffer_size byte h.0) n g.result.free_list,
        );
        receive_buffers = g.grown.receive_buffers;
        receive_keys = g.grown.receive_keys;
        free_receive_buffers = g.grown.free_receive_buffers;
      }

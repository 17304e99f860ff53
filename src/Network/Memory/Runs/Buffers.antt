-- ===== src/Network/Memory/Runs/Buffers.antt =====
-- The steps on the objects of src/network/buffer.h.
use zip_log_ae.Network.SendQueue.{send_buffer_size}
use zip_log_ae.Network.Memory.{Handle, Region}
use zip_log_ae.Network.Memory.Objects.{
  Holders, Event, get, destroy, remove_at, step, release, object,
}
use zip_log_ae.Network.Memory.Cover.{
  sum-append, sum-map-some, owned, owned_sum, owned-destroy, covers,
}
use zip_log_ae.Network.Memory.Send.{get_buffers-Gets}
use zip_log_ae.Base.{
  ℕ, ◌+◌, ◌≡◌, refl, sym, ◌∙◌, ap, Option, none, some, List, [], ◌∷◌, ◌++◌, arith, length,
  get_elem?, map,
}
use zip_log_ae.Network.Memory.Runs.State.{Accounts, Proceeds, pairs_after}

module _ (page : ℕ → Region) (s : Holders) (a : Accounts page s) where
  pub get-Proceeds : (n : ℕ) → Proceeds page s (get n)
  unfolding step
  get-Proceeds n =
      let g = get_buffers-Gets page n s.pools in
      record {
        result = record s { pools = g.result; objects = s.objects ++ map some g.buffers };
        yields = rw (step, g.yields) refl;
        pairs = refl;
        accounts = record {
          rooms = a.rooms;
          left = a.left;
          laid = record {
            buffers = g.receive_buffers ∙ a.laid.buffers;
            keys = g.receive_keys ∙ a.laid.keys;
            long = a.laid.long;
            bits = ap length g.free_receive_buffers ∙ a.laid.bits;
            unused =
                λ i le lt. ap (λ bs. get_elem? bs i) g.free_receive_buffers ∙ a.laid.unused i le lt;
          };
          made = g.made a.made;
          memory = λ byte.
              let w = λ (h : Handle). covers send_buffer_size byte h.0 in
              omega (
                arith,
                a.memory byte,
                g.memory byte,
                sum-append (owned w) s.objects (map some g.buffers),
                sum-map-some w g.buffers,
              );
          known = a.known;
          shared = λ w. rw g.free_receive_buffers (a.shared w);
        };
      }

  pub object-Proceeds :
      (e : Event) (objects : List (Option Handle))
      → pairs_after e (length s.queue_pairs) ≡ length s.queue_pairs
      → step page s e ≡ some (record s { objects = objects })
      → ((w : Handle → ℕ) → owned_sum w objects ≡ owned_sum w s.objects)
      → Proceeds page s e
  object-Proceeds e objects alike yields same = record {
    result = record s { objects = objects };
    yields = yields;
    pairs = sym alike;
    accounts = record {
      rooms = a.rooms;
      left = a.left;
      laid = a.laid;
      made = a.made;
      memory = λ byte. omega (arith, a.memory byte, same (λ h. covers send_buffer_size byte h.0));
      known = a.known;
      shared = a.shared;
    };
  }

  pub destroy-Proceeds : (i : ℕ) → Proceeds page s (destroy i)
  unfolding step
  destroy-Proceeds i = record {
    result = _;
    yields = refl;
    pairs = refl;
    accounts =
        elim (object i s.objects)
            as (λ o.
              ((w : Handle → ℕ)
                → owned_sum w (remove_at i s.objects) + owned w o ≡ owned_sum w s.objects)
              → Accounts page
                  (record s { pools = release o s.pools; objects = remove_at i s.objects })) [
                    | none ↦ λ same. record {
                      rooms = a.rooms;
                      left = a.left;
                      laid = a.laid;
                      made = a.made;
                      memory = λ byte.
                          omega
                            (arith, a.memory byte, same (λ h. covers send_buffer_size byte h.0));
                      known = a.known;
                      shared = a.shared;
                    }
                    | some h ↦ λ same. record {
                      rooms = a.rooms;
                      left = a.left;
                      laid = record {
                        buffers = a.laid.buffers;
                        keys = a.laid.keys;
                        long = a.laid.long;
                        bits = a.laid.bits;
                        unused = a.laid.unused;
                      };
                      made = a.made;
                      memory = λ byte. omega (
                        arith,
                        a.memory byte,
                        same (λ h. covers send_buffer_size byte h.0),
                        sum-append (λ (h : Handle). covers send_buffer_size byte h.0)
                            s.pools.free_list (h ∷ []),
                      );
                      known = a.known;
                      shared = a.shared;
                    }
                  ]
          (λ w. owned-destroy w i s.objects);
  }

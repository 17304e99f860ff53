-- ===== src/Api/Dispatch.antt =====
-- The dispatch of src/util/switch.h on the messages of src/api/api.h.
use mathlib.Core.List.{Mem, mem-cons_self, mem-cons_of_mem}
use mathlib.Core.Path.{subst}
use zip_log_ae.Network.Handshake.{field}
use zip_log_ae.Api.{
  Kind, tag, Message, length_of, to_bytes, cast, Handler, Outcome, called, aborted, warned, apply,
}
use zip_log_ae.Api.Codec.{IsMessage, tag-injective, cast-to_bytes, length-to_bytes, tag-to_bytes}
use zip_log_ae.Base.{
  ℕ, ◌≡◌, ◌≢◌, sym, ap, true, false, List, [], ◌∷◌, All, ◌==◌, inl, inr, Bool-cases, length, arith,
}

same_tag : (k j : Kind) → j ≢ k → (tag k == tag j) ≡ false
same_tag k j ne = elim (Bool-cases (tag k == tag j)) [
  | inl e ↦ absurd (ne (sym (tag-injective k j (ground (arith, e)))))
  | inr e ↦ e
]

self_equal : (n : ℕ) → (n == n) ≡ true
self_equal n = ground arith

module _ {R : Type 0} where
  -- What a typed dispatch does with a message: the first function for its type is called with it.
  pub data Answers (k : Kind) (m : Message k) : List (Handler R) → Outcome R → Type 0 where
    unheard : Answers k m [] (warned (tag k))
    matches :
        (f : Message k → R) (hs : List (Handler R))
        → Answers k m (record { kind = k; call = f } ∷ hs) (called (f m))
    passes :
        (h : Handler R) (hs : List (Handler R)) (o : Outcome R)
        → h.kind ≢ k
        → Answers k m hs o
        → Answers k m (h ∷ hs) o

  apply_answer :
      (k : Kind) (m : Message k) (hs : List (Handler R)) (o : Outcome R)
      → IsMessage k m
      → Answers k m hs o
      → apply hs (to_bytes k m) (length (to_bytes k m)) ≡ o
  unfolding apply
  apply_answer k m [] o v unheard = ap warned (tag-to_bytes k m)
  apply_answer k m (_ ∷ _) o v (matches f hs) =
      rw
        (
          apply,
          tag-to_bytes k m,
          self_equal (tag k),
          length-to_bytes k m v,
          cast-to_bytes k m v,
          self_equal (length_of k m),
        )
        (ap (λ x. called (f x)) (cast-to_bytes k m v))
  apply_answer k m (_ ∷ _) o v (passes h hs _ ne rest) =
      rw (apply, tag-to_bytes k m, same_tag k h.kind ne) (apply_answer k m hs o v rest)

  -- Every message has an answer.
  answer_of :
      (k : Kind) (m : Message k) (hs : List (Handler R)) → (o : Outcome R) × Answers k m hs o
  answer_of k m [] = (warned (tag k), unheard)
  answer_of k m (h ∷ hs) = elim (Bool-cases (tag k == tag h.kind)) [
    | inl e ↦
        let same : k ≡ h.kind = tag-injective k h.kind (ground (arith, e)) in
        subst
          (λ j.
            (f : Message j → R)
            → (o : Outcome R) × Answers k m (record { kind = j; call = f } ∷ hs) o)
          same (λ f. (called (f m), matches f hs)) h.call
    | inr e ↦
        let (o, rest) = answer_of k m hs in
        (o, passes h hs o (λ same. absurd (ground (arith, e, ap tag same))) rest)
  ]

  -- A message of any of the 24 types whose members fit their bytes and whose array is as long as
  -- its count says, written to a buffer, is answered by the dispatch as the typed message is: the
  -- first function for its type is called with exactly the message, a function for another type
  -- never is, and without one the warning has its tag.
  pub apply-Answers :
      (k : Kind) (m : Message k) (hs : List (Handler R))
      → IsMessage k m
      → Answers k m hs (apply hs (to_bytes k m) (length (to_bytes k m)))
  apply-Answers k m hs v =
      let (o, answer) = answer_of k m hs in rw (apply_answer k m hs o v answer) answer

  -- What the dispatch makes of any bytes: a call of a function for the tag that they begin with,
  -- whose length is what the members say.
  pub data Explains (hs : List (Handler R)) (buffer : List ℕ) (received : ℕ)
      : Outcome R → Type 0 where
    calls :
        (h : Handler R)
        → Mem h hs
        → field 0 8 buffer ≡ tag h.kind
        → received ≡ length_of h.kind (cast h.kind buffer)
        → Explains hs buffer received (called (h.call (cast h.kind buffer)))
    refuses :
        (h : Handler R)
        → Mem h hs
        → field 0 8 buffer ≡ tag h.kind
        → received ≢ length_of h.kind (cast h.kind buffer)
        → Explains hs buffer received aborted
    ignores :
        All (λ h. field 0 8 buffer ≢ tag h.kind) hs
        → Explains hs buffer received (warned (field 0 8 buffer))

  pass :
      (h : Handler R) (hs : List (Handler R)) (buffer : List ℕ) (received : ℕ) (o : Outcome R)
      → field 0 8 buffer ≢ tag h.kind
      → Explains hs buffer received o
      → Explains (h ∷ hs) buffer received o
  pass h hs buffer received _ ne (calls g at e len) = calls g (mem-cons_of_mem h at) e len
  pass h hs buffer received _ ne (refuses g at e len) = refuses g (mem-cons_of_mem h at) e len
  pass h hs buffer received _ ne (ignores all) = ignores (ne, all)

  -- On any bytes and any received length the dispatch calls a function only when the bytes begin
  -- with the tag of its type and the length is that of the message, aborts only when a function
  -- has the tag and the length differs, and warns only when no function has the tag.
  pub apply-Explains :
      (hs : List (Handler R)) (buffer : List ℕ) (received : ℕ)
      → Explains hs buffer received (apply hs buffer received)
  unfolding apply
  apply-Explains [] buffer received = ignores tt
  apply-Explains (h ∷ hs) buffer received = elim (Bool-cases (field 0 8 buffer == tag h.kind)) [
    | inr e ↦
        rw (apply, e)
          (pass h hs buffer received _ (λ same. absurd (ground (arith, e, same)))
            (apply-Explains hs buffer received))
    | inl e ↦ elim (Bool-cases (received == length_of h.kind (cast h.kind buffer))) [
      | inl len ↦
          rw (apply, e, len) (calls h mem-cons_self (ground (arith, e)) (ground (arith, len)))
      | inr len ↦
          rw (apply, e, len)
            (refuses h mem-cons_self (ground (arith, e))
              (λ same. absurd (ground (arith, len, same))))
    ]
  ]

-- ===== src/Client/Acks.antt =====
-- The acknowledgements of src/client/client.cpp.
use zip_log_ae.Base.{
  ℕ, zero, suc, ◌+◌, ◌≤◌, ◌<◌, ◌≡◌, ◌∙◌, refl, ap, true, false, not, ◌&&◌, ◌||◌, none, some, List,
  ◌∷◌, arith, ◌⊎◌, inl, inr, if◌then◌else◌, ltb, leb, ◌==◌, u64_max,
}
use zip_log_ae.Client.{Client, Outstanding, acknowledge, push_front, match_ack, respond, on_ack}

-- The ACKs of as many replicas.
abbrev pub ack_times : ℕ → Client → ℕ → Client
ack_times zero c gsn = c
ack_times (suc k) c gsn = ack_times k (on_ack c gsn) gsn

-- The ACK of a GSN is for the first outstanding request, `o`, and not for one already answered.
pub record IsFor (c : Client) (gsn : ℕ) (o : Outstanding) (os : List Outstanding) : Type 0 where
  pub head : c.outstanding ≡ o ∷ os
  pub owner : (o.gsn ≡ u64_max) ⊎ (o.gsn ≡ gsn)
  pub fresh : (c.latest_gsn ≡ u64_max) ⊎ (c.latest_gsn < gsn)
  pub word : gsn < u64_max
  pub acks : o.num_acks ≤ c.failures
  pub small : c.failures < u64_max

acknowledge-gsn :
    (o : Outstanding) (gsn : ℕ)
    → (o.gsn ≡ u64_max) ⊎ (o.gsn ≡ gsn)
    → gsn < u64_max
    → (acknowledge o gsn).gsn ≡ gsn
acknowledge-gsn o gsn (inl unset) word = ground arith
acknowledge-gsn o gsn (inr mine) word = ground arith

match-head :
    (failures gsn : ℕ) (o : Outstanding) (os : List Outstanding)
    → (o.gsn ≡ u64_max) ⊎ (o.gsn ≡ gsn)
    → match_ack failures gsn (o ∷ os) ≡ (
        if ltb failures (acknowledge o gsn).num_acks
        then record { complete = some (acknowledge o gsn); outstanding = os }
        else record { complete = none; outstanding = acknowledge o gsn ∷ os })
unfolding match_ack
match-head failures gsn o os owner =
    let found : ((o.gsn == u64_max) || (gsn == o.gsn)) ≡ true = ground arith in
    ap
      (λ b.
        if b
        then (if ltb failures (acknowledge o gsn).num_acks
            then record { complete = some (acknowledge o gsn); outstanding = os }
            else record { complete = none; outstanding = acknowledge o gsn ∷ os })
        else push_front o (match_ack failures gsn os))
      found

fresh_ack :
    (c : Client) (gsn : ℕ)
    → (c.latest_gsn ≡ u64_max) ⊎ (c.latest_gsn < gsn)
    → (not (c.latest_gsn == u64_max) && leb gsn c.latest_gsn) ≡ false
fresh_ack c gsn (inl unset) = ground arith
fresh_ack c gsn (inr later) = ground arith

on_ack-early :
    (c : Client) (gsn : ℕ) (o : Outstanding) (os : List Outstanding)
    → IsFor c gsn o os
    → o.num_acks < c.failures
    → on_ack c gsn ≡ record c { outstanding = acknowledge o gsn ∷ os }
unfolding on_ack
on_ack-early c gsn o os f few =
    let more : ltb c.failures (acknowledge o gsn).num_acks ≡ false = ground (arith, f.small) in
    rw (fresh_ack c gsn f.fresh, f.head, match-head c.failures gsn o os f.owner, more) refl

on_ack-last :
    (c : Client) (gsn : ℕ) (o : Outstanding) (os : List Outstanding)
    → IsFor c gsn o os
    → o.num_acks ≡ c.failures
    → on_ack c gsn ≡ record c {
      outstanding = os;
      latest_gsn = gsn;
      responses = respond o.response gsn c.responses;
    }
unfolding on_ack
on_ack-last c gsn o os f enough =
    let more : ltb c.failures (acknowledge o gsn).num_acks ≡ true = ground (arith, f.small) in
    rw (fresh_ack c gsn f.fresh, f.head, match-head c.failures gsn o os f.owner, more)
      (rw (acknowledge-gsn o gsn f.owner f.word) refl)

still-IsFor :
    (c : Client) (gsn : ℕ) (o : Outstanding) (os : List Outstanding)
    → IsFor c gsn o os
    → o.num_acks < c.failures
    → IsFor (record c { outstanding = acknowledge o gsn ∷ os }) gsn (acknowledge o gsn) os
still-IsFor c gsn o os f few = record {
  head = refl;
  owner = inr (acknowledge-gsn o gsn f.owner f.word);
  fresh = f.fresh;
  word = f.word;
  acks = ground (arith, f.small);
  small = f.small;
}

-- When the first outstanding request of a client is the one of a new GSN and needs k further ACKs
-- besides the last, then k ACKs of the GSN store no response, and one more stores the GSN as its
-- response, removes the request and makes the GSN the latest one.
pub ack_times_lem :
    (k : ℕ) (c : Client) (gsn : ℕ) (o : Outstanding) (os : List Outstanding)
    → IsFor c gsn o os
    → o.num_acks + k ≡ c.failures
    → ((ack_times k c gsn).responses ≡ c.responses)
      × (ack_times (suc k) c gsn ≡ record c {
        outstanding = os;
        latest_gsn = gsn;
        responses = respond o.response gsn c.responses;
      })
ack_times_lem zero c gsn o os f e = (refl, on_ack-last c gsn o os f (omega arith))
ack_times_lem (suc k) c gsn o os f e =
    let few : o.num_acks < c.failures = omega arith in
    let one : (acknowledge o gsn).num_acks ≡ o.num_acks + 1 = omega (arith, f.small) in
    let (early, last) =
      ack_times_lem k (record c { outstanding = acknowledge o gsn ∷ os }) gsn (acknowledge o gsn) os
        (still-IsFor c gsn o os f few) (omega arith) in
    let step = on_ack-early c gsn o os f few in
    (
      ap (λ d. (ack_times k d gsn).responses) step ∙ early,
      ap (λ d. ack_times (suc k) d gsn) step ∙ last,
    )

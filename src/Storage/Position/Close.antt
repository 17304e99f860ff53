-- ===== src/Storage/Position/Close.antt =====
-- The log of src/storage/log.cpp after `position::close`.
use native.Mathlib.Nat.{sub-zero}
use zip_log_ae.Base.{
  ℕ, zero, suc, ◌+◌, ◌-◌, ◌≤◌, ◌<◌, ◌≡◌, ◌∙◌, sym, ap, refl, Option, none, some, List, [], ◌∷◌,
  arith, true, head?, length, dec_lt, All, ◌≢◌,
}
use zip_log_ae.Storage.Log.{Log, Entry}
use zip_log_ae.Storage.Log.Owned.{owned, owned-tail, has, owned-has, has-owned}
use zip_log_ae.Storage.Log.Links.{WellLinked, owner}
use zip_log_ae.Storage.Position.{
  Position, mark, close, close_from, close_rest, closed_at, closed_at,
}
use zip_log_ae.Storage.Position.Walk.{
  mark_all, behind, StandsAt, Stands, start_of, Linked, mark-Linked,
}
use zip_log_ae.Storage.Position.Marks.{
  SameLinks, mark_all_lem, mark_all-Relinked, WellLinked-cells, owned-below, All-has,
}
use zip_log_ae.Storage.Position.Final.{StandsAt-ext, IsAt, StandsAt-ext}

unfoldable pub last_or : ℕ → List ℕ → ℕ
last_or a [] = a
last_or a (x ∷ xs) = last_or x xs

module _ (o : ℕ → ℕ) (n : ℕ) where
  close_rest_lem :
      (fuel : ℕ) (m : ℕ → Entry) (a : ℕ) (rest : List ℕ)
      → Linked m o n
      → a < n
      → rest ≡ owned o (o a) (a + 1) (n - (a + 1))
      → length rest ≤ fuel
      → close_rest fuel m a ≡ (mark_all rest m, last_or a rest)
  unfolding close_rest mark_all last_or
  close_rest_lem zero m a [] h lt r f = refl
  close_rest_lem zero m a (b ∷ rest) h lt r f = absurd (omega arith)
  close_rest_lem (suc fuel) m a [] h lt r f =
      let e : (m a).next ≡ none = h a (n - (a + 1)) (omega arith) ∙ ap head? (sym r) in
      rw (e, close_rest)
  close_rest_lem (suc fuel) m a (b ∷ rest) h lt r f =
      let (below, same, r') = owned-tail o (o a) (a + 1) n b rest (sym r) in
      let e : (m a).next ≡ some b = h a (n - (a + 1)) (omega arith) ∙ ap head? (sym r) in
      rw (e, close_rest)
        (close_rest_lem fuel (mark m b) b rest (mark-Linked o n m b h) below (rw same r')
          (omega arith))

  length-owned : (c k lo : ℕ) → length (owned o c lo k) ≤ k
  unfolding owned
  length-owned c zero lo = omega arith
  length-owned c (suc k) lo = ground (arith, length-owned c k (lo + 1))

  -- The last place behind `a`, or `a` itself.
  last_or_lem :
      (a : ℕ) (rest : List ℕ)
      → a < n
      → rest ≡ owned o (o a) (a + 1) (n - (a + 1))
      → (a ≤ last_or a rest)
        × (last_or a rest < n)
        × (o (last_or a rest) ≡ o a)
        × ((x : ℕ) → has x rest ≡ true → x ≤ last_or a rest)
  unfolding last_or
  last_or_lem a [] lt r = (omega arith, lt, refl, λ x h. cc)
  last_or_lem a (b ∷ rest) lt r =
      let (below, same, r') = owned-tail o (o a) (a + 1) n b rest (sym r) in
      let (le, lt', mine, all) = last_or_lem b rest below (rw same r') in
      let (lo, _, _) = owned-has o (o a) (n - (a + 1)) (a + 1) b (ground (arith, r)) in
      (omega arith, lt', mine ∙ same, λ x h. ground (arith, all x))

short : (o : ℕ → ℕ) (c n lo : ℕ) (xs : List ℕ) → xs ≡ owned o c lo (n - lo) → length xs ≤ n
short o c n lo xs e = omega (arith, length-owned o n c (n - lo) lo, ap length e)

-- The state after the slots that are left, `slots`, are closed.
abbrev pub closed_slots : List ℕ → Log → Position → Log × Position
closed_slots [] l p = (l, p)
closed_slots (b ∷ rest) l p = (
  record l { cells = mark_all (b ∷ rest) l.cells },
  record p { current_entry = some (last_or b rest) },
)

close_from_lem :
    (cur : Option ℕ) (slots : List ℕ) (l : Log) (c : ℕ)
    → WellLinked l
    → StandsAt (owner l.cells) l.current_entries c cur
    → behind l (record { client_id = c; current_entry = cur }) ≡ slots
    → close_from cur (l.first c) l (record { client_id = c; current_entry = cur })
      ≡ closed_slots slots l (record { client_id = c; current_entry = cur })
unfolding close_from mark_all last_or
close_from_lem none [] l c w s e =
    let e' : l.first c ≡ none = w.chained.firsts c ∙ ap head? (rw sub-zero at e) in
    rw (e', close_from)
close_from_lem none (b ∷ rest) l c w s e =
    let e' : l.first c ≡ some b = w.chained.firsts c ∙ ap head? (rw sub-zero at e) in
    let (below, same, r) = owned-tail (owner l.cells) c 0 l.current_entries b rest e in
    rw (e', close_from)
      (ap (closed_at l (record { client_id = c; current_entry = none })) (
        close_rest_lem (owner l.cells) l.current_entries l.current_entries (mark l.cells b) b rest
          (mark-Linked (owner l.cells) l.current_entries l.cells b w.chained.nexts) below
          (rw same r) (short (owner l.cells) c l.current_entries (b + 1) rest r)))
close_from_lem (some a) [] l c w s e =
    ap (closed_at l (record { client_id = c; current_entry = some a })) (
      close_rest_lem (owner l.cells) l.current_entries l.current_entries l.cells a []
        w.chained.nexts s.0 (rw s.1 (sym e)) (omega arith))
close_from_lem (some a) (b ∷ rest) l c w s e =
    ap (closed_at l (record { client_id = c; current_entry = some a })) (
      close_rest_lem (owner l.cells) l.current_entries l.current_entries l.cells a (b ∷ rest)
        w.chained.nexts s.0 (rw s.1 (sym e))
        (short (owner l.cells) c l.current_entries (a + 1) (b ∷ rest) (sym e)))

pub close_lem :
    (l : Log) (p : Position) → WellLinked l → Stands l p → close l p ≡ closed_slots (behind l p) l p
unfolding close
close_lem l p w s = close_from_lem p.current_entry (behind l p) l p.client_id w s refl

-- Of the two results, everything that the server relies on.
pub record Closed (l : Log) (p : Position) (r : Log × Position) : Type 0 where
  pub client : r.1.client_id ≡ p.client_id
  pub linked : WellLinked r.0
  pub count : r.0.current_entries ≡ l.current_entries
  pub numbered : r.0.num_entries ≡ l.num_entries
  pub owners : (a : ℕ) → owner r.0.cells a ≡ owner l.cells a
  pub all_set :
      (a : ℕ) → a < l.current_entries → owner l.cells a ≡ p.client_id → (r.0.cells a).set ≡ true
  pub others : (a : ℕ) → owner l.cells a ≢ p.client_id → r.0.cells a ≡ l.cells a
  pub final : (a : ℕ) → (l.cells a).set ≡ true → r.0.cells a ≡ l.cells a
  pub at : IsAt r.0 r.1

closed_slots-Closed :
    (slots : List ℕ) (l : Log) (p : Position)
    → WellLinked l
    → IsAt l p
    → behind l p ≡ slots
    → Closed l p (closed_slots slots l p)
closed_slots-Closed [] l p w at e = record {
  client = refl;
  linked = w;
  count = refl;
  numbered = refl;
  owners = λ a. refl;
  all_set = λ a lt mine. elim (dec_lt a (start_of p.current_entry)) [
    | yes old ↦ at.passed a old mine
    | no new ↦ absurd (
        ground (
          arith,
          e,
          has-owned (owner l.cells) p.client_id (l.current_entries - start_of p.current_entry)
              (start_of p.current_entry) a,
        ))
  ];
  others = λ a ne. refl;
  final = λ a set. refl;
  at = at;
}
closed_slots-Closed (b ∷ rest) l p w at e = record {
  client = refl;
  linked = WellLinked-cells l after relinked fresh w;
  count = refl;
  numbered = refl;
  owners = λ a. ground (arith, relinked a);
  all_set = closed;
  others = λ a ne. ground (arith, mark_all_lem (b ∷ rest) l.cells a, mine a);
  final = λ a set. ground (arith, mark_all_lem (b ∷ rest) l.cells a);
  at = record {
    stands = (tip.1, owners_at _ ∙ tip.2 ∙ mine b (ground arith));
    passed = λ a lt own. closed a (omega (arith, tip.1)) (sym (owners_at a) ∙ own);
    ahead = λ a le lt own. absurd (none_ahead a le lt (sym (owners_at a) ∙ own));
  };
}
  where
    after : ℕ → Entry
    after = mark_all (b ∷ rest) l.cells

    relinked : (a : ℕ) → SameLinks (after a) (l.cells a)
    relinked = mark_all-Relinked (b ∷ rest) l.cells

    below : All (λ x. x < l.current_entries) (b ∷ rest)
    below = rw e at (
        owned-below (owner l.cells) p.client_id (l.current_entries - start_of p.current_entry)
          (start_of p.current_entry) l.current_entries (omega arith))

    fresh : (a : ℕ) → l.current_entries ≤ a → after a ≡ l.cells a
    fresh a h =
        ground
          (arith, mark_all_lem (b ∷ rest) l.cells a, All-has (b ∷ rest) l.current_entries a below h)

    mine : (a : ℕ) → has a (b ∷ rest) ≡ true → owner l.cells a ≡ p.client_id
    mine a h =
        (owned-has (owner l.cells) p.client_id (l.current_entries - start_of p.current_entry)
          (start_of p.current_entry) a (rw e h)).2

    closed : (a : ℕ) → a < l.current_entries → owner l.cells a ≡ p.client_id → (after a).set ≡ true
    closed a lt own = elim (dec_lt a (start_of p.current_entry)) [
      | yes old ↦ ground (arith, mark_all_lem (b ∷ rest) l.cells a, at.passed a old own)
      | no new ↦ ground (
        arith,
        e,
        mark_all_lem (b ∷ rest) l.cells a,
        has-owned (owner l.cells) p.client_id (l.current_entries - start_of p.current_entry)
            (start_of p.current_entry) a,
      )
    ]

    owners_at : (a : ℕ) → owner after a ≡ owner l.cells a
    owners_at a = (relinked a).client

    tail :
        (b < l.current_entries)
        × (owner l.cells b ≡ p.client_id)
        × (rest ≡ owned (owner l.cells) p.client_id (b + 1) (l.current_entries - (b + 1)))
    tail =
        owned-tail (owner l.cells) p.client_id (start_of p.current_entry) l.current_entries b rest e

    tip :
        (b ≤ last_or b rest)
        × (last_or b rest < l.current_entries)
        × (owner l.cells (last_or b rest) ≡ owner l.cells b)
        × ((x : ℕ) → has x rest ≡ true → x ≤ last_or b rest)
    tip = last_or_lem (owner l.cells) l.current_entries b rest tail.0 (rw tail.1 tail.2)

    head_above : start_of p.current_entry ≤ b
    head_above =
        (owned-has (owner l.cells) p.client_id (l.current_entries - start_of p.current_entry)
          (start_of p.current_entry) b (rw e (ground arith))).0

    none_ahead :
        (a : ℕ) → last_or b rest + 1 ≤ a → a < l.current_entries → owner l.cells a ≡ p.client_id → ⊥
    none_ahead a le lt own = ground (
      arith,
      e,
      head_above,
      tip.0,
      tip.3 a,
      has-owned (owner l.cells) p.client_id (l.current_entries - start_of p.current_entry)
          (start_of p.current_entry) a,
    )

-- In a well linked log, `close` of a client whose position is right sets all of its entries and no
-- entry of another client, changes no entry that was set, keeps the links, and leaves the position
-- right.
pub close-Closed : (l : Log) (p : Position) → WellLinked l → IsAt l p → Closed l p (close l p)
close-Closed l p w at =
    rw (close_lem l p w at.stands) (closed_slots-Closed (behind l p) l p w at refl)

pub close-IsAt_other :
    (l : Log) (p q : Position) (r : Log × Position)
    → Closed l p r
    → q.client_id ≢ p.client_id
    → IsAt l q
    → IsAt r.0 q
close-IsAt_other l p q r x other at = record {
  stands =
      StandsAt-ext (owner l.cells) (owner r.0.cells) l.current_entries r.0.current_entries
        q.client_id x.owners x.count q.current_entry at.stands;
  passed = λ a lt mine.
      let same = x.others a (λ e. other (sym mine ∙ x.owners a ∙ e)) in
      rw same (at.passed a lt (sym (x.owners a) ∙ mine));
  ahead = λ a le lt mine.
      let same = x.others a (λ e. other (sym mine ∙ x.owners a ∙ e)) in
      rw same (at.ahead a le (rw x.count at lt) (sym (x.owners a) ∙ mine));
}

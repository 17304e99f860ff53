-- ===== src/Storage/Position/Insert.antt =====
-- The log of src/storage/log.cpp after `position::insert`.
use zip_log_ae.Base.{
  ℕ, suc, ◌+◌, ◌-◌, ◌≤◌, ◌<◌, ◌^◌, ◌≡◌, ◌≢◌, ◌∙◌, sym, ap, refl, some, List, [], ◌∷◌, ◌++◌, arith,
  true, false, All, length, sub64, head?,
}
use zip_log_ae.Storage.Log.{Log, Entry, Bytes}
use zip_log_ae.Storage.Log.Owned.{has, owned, owned-tail, owned-split}
use zip_log_ae.Storage.Log.Links.{WellLinked, owner, gsn_at}
use zip_log_ae.Storage.Position.{
  Position, Stored, store, insert, insert_from, store_at, next_slot, alloc_copy,
}
use zip_log_ae.Storage.Position.Walk.{
  mark_all, behind, Stands, start_of, next_slot-behind, close_slots-append,
}
use zip_log_ae.Storage.Position.Marks.{
  Relinked, owner-Relinked, WellLinked-cells, mark_all_lem, mark_all-Relinked, All-has, owned-below,
  All-append_left,
}

-- The outcome of an insert whose client has the unused entries `xs`, then `d`, then `ys`.
pub record Inserted (l : Log) (p : Position) (buffer : Bytes) (n : ℕ) (xs : List ℕ) (d : ℕ)
    (ys : List ℕ) (s : Stored) : Type 0 where
  pub gsn : s.gsn ≡ gsn_at l.cells d
  pub position : s.position ≡ record p { current_entry = some d }
  pub entry :
      s.log.cells d
      ≡ record (l.cells d) { payload = alloc_copy buffer n; data_length = n; set = true }
  pub closed : (a : ℕ) → a ≢ d → has a xs ≡ true → s.log.cells a ≡ record (l.cells a) { set = true }
  pub others : (a : ℕ) → a ≢ d → has a xs ≡ false → s.log.cells a ≡ l.cells a
  pub behind : behind s.log s.position ≡ ys
  pub linked : WellLinked s.log
  pub count : s.log.current_entries ≡ l.current_entries
  pub numbered : s.log.num_entries ≡ l.num_entries
  pub stands : Stands s.log s.position

sub64-one : (n close : ℕ) → close ≡ suc n → close < 2 ^ 64 → sub64 close 1 ≡ n
sub64-one n close c small = omega arith

insert_step :
    (l : Log) (p : Position) (buffer : Bytes) (n close b : ℕ) (rest xs : List ℕ) (d : ℕ)
    (ys : List ℕ)
    → WellLinked l
    → Stands l p
    → behind l p ≡ b ∷ rest
    → b ∷ rest ≡ xs ++ d ∷ ys
    → close ≡ suc (length xs)
    → close < 2 ^ 64
    → insert l p buffer n close ≡ some (store l p (mark_all xs l.cells) d buffer n)
unfolding insert insert_from store_at
insert_step l p buffer n close b rest xs d ys w s e e' c small =
    let (below, same, r) =
      owned-tail (owner l.cells) p.client_id (start_of p.current_entry) l.current_entries b rest
        e in
    let head : next_slot l p ≡ some b = next_slot-behind l p p.current_entry w s ∙ ap head? e in
    let loop =
      close_slots-append (owner l.cells) l.current_entries xs l.cells b d rest ys w.chained.nexts
        below (rw same r) e' in
    rw (head, sub64-one (length xs) close c small, loop)

pub insert-behind :
    (l : Log) (p : Position) (buffer : Bytes) (n close : ℕ) (xs : List ℕ) (d : ℕ) (ys : List ℕ)
    → WellLinked l
    → Stands l p
    → behind l p ≡ xs ++ d ∷ ys
    → close ≡ suc (length xs)
    → close < 2 ^ 64
    → insert l p buffer n close ≡ some (store l p (mark_all xs l.cells) d buffer n)
insert-behind l p buffer n close [] d ys w s e c small =
    insert_step l p buffer n close d ys [] d ys w s e refl c small
insert-behind l p buffer n close (x ∷ xs) d ys w s e c small =
    insert_step l p buffer n close x (xs ++ d ∷ ys) (x ∷ xs) d ys w s e refl c small

pub store-Inserted :
    (l : Log) (p : Position) (buffer : Bytes) (n : ℕ) (xs : List ℕ) (d : ℕ) (ys : List ℕ)
    → WellLinked l
    → behind l p ≡ xs ++ d ∷ ys
    → Inserted l p buffer n xs d ys (store l p (mark_all xs l.cells) d buffer n)
unfolding store
store-Inserted l p buffer n xs d ys w e = record {
  gsn = (mark_all-Relinked xs l.cells d).gsn;
  position = refl;
  entry = ground (arith, mark_all_lem xs l.cells d);
  closed = λ a ne i. ground (arith, mark_all_lem xs l.cells a);
  others = λ a ne o. ground (arith, mark_all_lem xs l.cells a);
  behind = rw owners (sym split.2);
  linked = WellLinked-cells l _ relinked fresh w;
  count = refl;
  numbered = refl;
  stands = (split.0, rw owners split.1);
}
  where
    split :
        (d < l.current_entries)
        × (owner l.cells d ≡ p.client_id)
        × (ys ≡ owned (owner l.cells) p.client_id (d + 1) (l.current_entries - (d + 1)))
    split =
        owned-split (owner l.cells) p.client_id (start_of p.current_entry) l.current_entries xs d ys
          e

    after : ℕ → Entry
    after = (store l p (mark_all xs l.cells) d buffer n).log.cells

    relinked : Relinked after l.cells
    relinked a = ground (arith, mark_all_lem xs l.cells a)

    owners : owner after ≡ owner l.cells
    owners = owner-Relinked after l.cells relinked

    marked : All (λ x. x < l.current_entries) xs
    marked =
        All-append_left (λ x. x < l.current_entries) xs (d ∷ ys)
          (rw e at (
            owned-below (owner l.cells) p.client_id (l.current_entries - start_of p.current_entry)
              (start_of p.current_entry) l.current_entries (omega arith)))

    fresh : (a : ℕ) → l.current_entries ≤ a → after a ≡ l.cells a
    fresh a h =
        ground (arith, mark_all_lem xs l.cells a, All-has xs l.current_entries a marked h, split.0)

-- ===== src/Storage/Position/Stable.antt =====
-- The branches of `position::insert` of src/storage/log.cpp.
use zip_log_ae.Base.{
  ℕ, zero, suc, ◌+◌, ◌-◌, ◌<◌, ◌^◌, ◌≡◌, ◌∙◌, sym, ap, refl, none, some, List, [], ◌∷◌, ◌++◌, arith,
  ◌⊎◌, inl, inr, length, head?, sub64, dec_lt,
}
use zip_log_ae.Storage.Log.{Log, Entry, Bytes}
use zip_log_ae.Storage.Log.Owned.{owned, owned-tail}
use zip_log_ae.Storage.Log.Links.{WellLinked, owner}
use zip_log_ae.Storage.Position.{
  Position, Stored, insert, insert_from, store, store_at, next_slot, close_slots, mark,
}
use zip_log_ae.Storage.Position.Walk.{
  mark_all, behind, Stands, start_of, Linked, mark-Linked, next_slot-behind,
}
use zip_log_ae.Storage.Position.Insert.{Inserted, insert-behind, store-Inserted}

close_slots-none :
    (o : ℕ → ℕ) (n : ℕ) (k : ℕ) (m : ℕ → Entry) (b : ℕ) (rest : List ℕ)
    → Linked m o n
    → b < n
    → rest ≡ owned o (o b) (b + 1) (n - (b + 1))
    → length rest < k
    → close_slots k m b ≡ none
unfolding close_slots
close_slots-none o n zero m b rest h lt r short = absurd (omega arith)
close_slots-none o n (suc k) m b [] h lt r short =
    let e : (m b).next ≡ none = h b (n - (b + 1)) (omega arith) ∙ ap head? (sym r) in
    rw (e, close_slots)
close_slots-none o n (suc k) m b (c ∷ rest) h lt r short =
    let (below, same, r') = owned-tail o (o b) (b + 1) n c rest (sym r) in
    let e : (m b).next ≡ some c = h b (n - (b + 1)) (omega arith) ∙ ap head? (sym r) in
    rw (e, close_slots)
      (close_slots-none o n k (mark m b) c rest (mark-Linked o n m b h) below (rw same r')
        (omega arith))

insert-short :
    (l : Log) (p : Position) (buffer : Bytes) (n close : ℕ) (slots : List ℕ)
    → WellLinked l
    → Stands l p
    → behind l p ≡ slots
    → length slots < close
    → close < 2 ^ 64
    → insert l p buffer n close ≡ none
unfolding insert insert_from store_at
insert-short l p buffer n close [] w s e short small =
    let head : next_slot l p ≡ none = next_slot-behind l p p.current_entry w s ∙ ap head? e in
    rw head
insert-short l p buffer n close (b ∷ rest) w s e short small =
    let head : next_slot l p ≡ some b = next_slot-behind l p p.current_entry w s ∙ ap head? e in
    let (below, same, r) =
      owned-tail (owner l.cells) p.client_id (start_of p.current_entry) l.current_entries b rest
        e in
    rw (
      head,
      close_slots-none (owner l.cells) l.current_entries (sub64 close 1) l.cells b rest
          w.chained.nexts below (rw same r) (omega arith),
    )

-- A list with more than `k` elements, at its element `k`.
pub record Split (xs : List ℕ) (k : ℕ) : Type 0 where
  pub before : List ℕ
  pub here : ℕ
  pub after : List ℕ
  pub eq : xs ≡ before ++ here ∷ after
  pub size : length before ≡ k

pub split_lem : (xs : List ℕ) (k : ℕ) → k < length xs → Split xs k
split_lem [] k h = absurd (omega arith)
split_lem (x ∷ xs) zero h = record { before = []; here = x; after = xs; eq = refl; size = refl }
split_lem (x ∷ xs) (suc k) h =
    let s = split_lem xs k (omega arith) in
    record {
      before = x ∷ s.before;
      here = s.here;
      after = s.after;
      eq = ap (◌∷◌ x) s.eq;
      size = omega (arith, s.size);
    }

-- In a well linked log where the client stands, `insert` with a number of slots to close between 1
-- and 2 ^ 64 - 1 aborts if the client has fewer slots left; otherwise it ends, marks the passed
-- slots as set, stores the data at the last one, returns its GSN, leaves every other entry as it
-- was, and leaves exactly the further slots behind the new position.
pub insert_lem :
    (l : Log) (p : Position) (buffer : Bytes) (n close : ℕ)
    → WellLinked l
    → Stands l p
    → 0 < close
    → close < 2 ^ 64
    → ((length (behind l p) < close) × (insert l p buffer n close ≡ none))
      ⊎ ((xs : List ℕ) × (d : ℕ) × (ys : List ℕ) × (s : Stored) × (behind l p ≡ xs ++ d ∷ ys)
          × (close ≡ suc (length xs))
          × (insert l p buffer n close ≡ some s)
          × Inserted l p buffer n xs d ys s)
insert_lem l p buffer n close w s pos small = elim (dec_lt (length (behind l p)) close) [
  | yes short ↦ inl (short, insert-short l p buffer n close (behind l p) w s refl short small)
  | no enough ↦
      let t = split_lem (behind l p) (close - 1) (omega arith) in
      let c : close ≡ suc (length t.before) = omega (arith, t.size) in
      inr (
        t.before,
        t.here,
        t.after,
        store l p (mark_all t.before l.cells) t.here buffer n,
        t.eq,
        c,
        insert-behind l p buffer n close t.before t.here t.after w s t.eq c small,
        store-Inserted l p buffer n t.before t.here t.after w t.eq,
      )
]

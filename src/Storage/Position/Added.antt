-- ===== src/Storage/Position/Added.antt =====
-- The positions of the clients when `log::add_entries` of src/storage/log.cpp adds slots.
use zip_log_ae.Base.{
  ℕ, suc, ◌≤◌, ◌<◌, ◌≡◌, ◌∙◌, sym, refl, Option, none, some, arith, inl, inr, Bool-cases, ◌==◌,
  u64_max, ℕ_discrete,
}
use zip_log_ae.Storage.Slots.{StorageSlots}
use zip_log_ae.Storage.Slots.Simulation.{generate-sim}
use zip_log_ae.Storage.Log.{
  Log, Entry, Filling, num_entries_per_block, grow, link, write_slot, append_at, append_entry,
  yield_slot, begin_fill, fill, add_entries,
}
use zip_log_ae.Storage.Log.Links.{
  WellLinked, owner, append_entry-owner, append_entry-count, grow-WellLinked,
  grow_append-WellLinked,
}
use zip_log_ae.Storage.Position.{Position}
use zip_log_ae.Storage.Position.Walk.{StandsAt, start_of}
use zip_log_ae.Storage.Position.Final.{IsAt}

-- The fields that a subscriber is sent.
pub record SameContent (x y : Entry) : Type 0 where
  pub client : x.client_id ≡ y.client_id
  pub gsn : x.gsn ≡ y.gsn
  pub size : x.data_length ≡ y.data_length
  pub payload : x.payload ≡ y.payload
  pub set : x.set ≡ y.set

link-set :
    (o : Option ℕ) (a : ℕ) (l : Log) (gsn c x : ℕ)
    → ((link o (write_slot l a gsn c) a c).cells x).set ≡ (l.cells x).set
unfolding link
link-set none a l gsn c x = ground arith
link-set (some b) a l gsn c x = ground arith

link-content :
    (o : Option ℕ) (a : ℕ) (l : Log) (gsn c x : ℕ)
    → x < a
    → SameContent ((link o (write_slot l a gsn c) a c).cells x) (l.cells x)
unfolding link
link-content none a l gsn c x h = ground arith
link-content (some b) a l gsn c x h = ground arith

append_entry-set : (l : Log) (gsn c x : ℕ) → ((append_entry l gsn c).cells x).set ≡ (l.cells x).set
unfolding append_entry append_at
append_entry-set l gsn c x = link-set (l.last c) _ l gsn c x

append_entry-content :
    (l : Log) (gsn c x : ℕ)
    → WellLinked l
    → x < l.current_entries
    → SameContent ((append_entry l gsn c).cells x) (l.cells x)
unfolding append_entry append_at
append_entry-content l gsn c x w h =
    link-content (l.last c) _ l gsn c x (omega (arith, w.placed.place))

start_of-le : (o : ℕ → ℕ) (n c : ℕ) (cur : Option ℕ) → StandsAt o n c cur → start_of cur ≤ n
start_of-le o n c none s = omega arith
start_of-le o n c (some a) s = omega arith

StandsAt-mono :
    (o o' : ℕ → ℕ) (n c : ℕ)
    → ((a : ℕ) → a < n → o' a ≡ o a)
    → (cur : Option ℕ) → StandsAt o n c cur
    → StandsAt o' (suc n) c cur
StandsAt-mono o o' n c same none s = tt
StandsAt-mono o o' n c same (some a) s = (omega arith, same a s.0 ∙ s.1)

module _ (l : Log) (gsn c : ℕ) (w : WellLinked l) where
  owner_before :
      (a : ℕ) → a < l.current_entries → owner (append_entry l gsn c).cells a ≡ owner l.cells a
  owner_before a h = ground (arith, append_entry-owner l gsn c a w)

  append_entry-IsAt : (p : Position) → IsAt l p → IsAt (append_entry l gsn c) p
  append_entry-IsAt p at = record {
    stands = rw (append_entry-count l gsn c) (
        StandsAt-mono (owner l.cells) (owner (append_entry l gsn c).cells) l.current_entries
          p.client_id owner_before p.current_entry at.stands);
    passed = λ a lt mine.
        append_entry-set l gsn c a
        ∙ at.passed a lt (sym (owner_before a (omega (arith, le))) ∙ mine);
    ahead = λ a from lt mine. append_entry-set l gsn c a ∙ (elim (ℕ_discrete a l.current_entries) [
      | yes new ↦ ground (arith, w.chained.fresh a)
      | no old ↦ at.ahead a from (inside a lt old) (sym (owner_before a (inside a lt old)) ∙ mine)
    ]);
  }
    where
      le : start_of p.current_entry ≤ l.current_entries
      le = start_of-le (owner l.cells) l.current_entries p.client_id p.current_entry at.stands

      inside :
          (a : ℕ)
          → a < (append_entry l gsn c).current_entries
          → ¬ (a ≡ l.current_entries)
          → a < l.current_entries
      inside a lt ne = omega (arith, append_entry-count l gsn c)

grow-IsAt : (l : Log) (p : Position) → IsAt l p → IsAt (grow l) p
unfolding grow
grow-IsAt l p at = elim (Bool-cases (l.entry_index == num_entries_per_block)) [
  | inl full ↦ rw full (record { stands = at.stands; passed = at.passed; ahead = at.ahead })
  | inr space ↦ rw space at
]

grow-cells : (l : Log) → (grow l).cells ≡ l.cells
unfolding grow
grow-cells l = ground arith

grow-count : (l : Log) → (grow l).current_entries ≡ l.current_entries
unfolding grow
grow-count l = ground arith

-- What the added slots keep of a log `old`.
pub record Extends (old l : Log) : Type 0 where
  pub linked : WellLinked l
  pub count : old.current_entries ≤ l.current_entries
  pub content : (a : ℕ) → a < old.current_entries → SameContent (l.cells a) (old.cells a)
  pub positions : (p : Position) → IsAt old p → IsAt l p

pub SameContent-trans : {x y z : Entry} → SameContent x y → SameContent y z → SameContent x z
SameContent-trans p q = record {
  client = p.client ∙ q.client;
  gsn = p.gsn ∙ q.gsn;
  size = p.size ∙ q.size;
  payload = p.payload ∙ q.payload;
  set = p.set ∙ q.set;
}

append_entry-Extends :
    (old l : Log) (gsn c : ℕ) → Extends old l → Extends old (append_entry (grow l) gsn c)
append_entry-Extends old l gsn c x =
    let w = grow-WellLinked l x.linked in
    record {
      linked = grow_append-WellLinked l gsn c x.linked;
      count = omega (arith, append_entry-count (grow l) gsn c, grow-count l, x.count);
      content = λ a h.
          SameContent-trans
            (append_entry-content (grow l) gsn c a w (omega (arith, grow-count l, x.count)))
            (rw (grow-cells l) (x.content a h));
      positions = λ p at. append_entry-IsAt (grow l) gsn c w p (grow-IsAt l p (x.positions p at));
    }

yield_slot-Extends :
    (old : Log) (c : ℕ) (s : Filling) → Extends old s.log → Extends old (yield_slot c s).log
unfolding yield_slot
yield_slot-Extends old c s x = elim (Bool-cases (c == u64_max)) [
  | inl skip ↦ rw skip x
  | inr mine ↦ rw mine (append_entry-Extends old s.log s.start_gsn c x)
]

Extends-self : (l : Log) → WellLinked l → Extends l l
Extends-self l w = record {
  linked = w;
  count = omega arith;
  content = λ a h. record { client = refl; gsn = refl; size = refl; payload = refl; set = refl };
  positions = λ p at. at;
}

-- The published number of entries plays no part in these.
numbered : (l : Log) (n : ℕ) → WellLinked l → WellLinked (record l { num_entries = n })
numbered l n w = record {
  chained = w.chained;
  placed = record { place = w.placed.place; room = w.placed.room; blocks = w.placed.blocks };
}

stay : (l : Log) (n : ℕ) (p : Position) → IsAt l p → IsAt (record l { num_entries = n }) p
stay l n p at = record { stands = at.stands; passed = at.passed; ahead = at.ahead }

-- On a well linked log `add_entries` removes no entry, changes the client, GSN, data or mark of
-- none, and leaves every position that was right right.
pub add_entries-Extends :
    (l : Log) (slots : StorageSlots) → WellLinked l → Extends l (add_entries l slots)
unfolding add_entries fill
add_entries-Extends l slots w =
    let x =
      generate-sim yield_slot yield_slot (λ s _. Extends l s.log)
        (λ c s _ x. yield_slot-Extends l c s x) slots.assignments (begin_fill l slots.start_gsn)
        (begin_fill l slots.start_gsn) (Extends-self l w) in
    record {
      linked = numbered _ _ x.linked;
      count = x.count;
      content = x.content;
      positions = λ p at. stay _ _ p (x.positions p at);
    }

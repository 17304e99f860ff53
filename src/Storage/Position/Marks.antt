-- ===== src/Storage/Position/Marks.antt =====
-- Writes to the log of src/storage/log.cpp that leave the links of its entries alone.
use mathlib.Core.Path.{fun_ext}
use zip_log_ae.Base.{
  ℕ, ◌+◌, ◌-◌, ◌≤◌, ◌<◌, ◌≡◌, ◌∙◌, refl, List, [], ◌∷◌, ◌++◌, arith, true, false, ◌==◌,
  if◌then◌else◌, All, inl, inr, Bool-cases, zero, suc,
}
use zip_log_ae.Storage.Log.{Log, Entry}
use zip_log_ae.Storage.Log.Owned.{owned, has}
use zip_log_ae.Storage.Log.Links.{WellLinked, owner}
use zip_log_ae.Storage.Position.{mark}
use zip_log_ae.Storage.Position.Walk.{mark_all}

pub record SameLinks (x y : Entry) : Type 0 where
  pub client : x.client_id ≡ y.client_id
  pub gsn : x.gsn ≡ y.gsn
  pub next : x.next ≡ y.next
  pub prev : x.prev ≡ y.prev

abbrev pub Relinked : (ℕ → Entry) → (ℕ → Entry) → Type 0
Relinked m' m = (a : ℕ) → SameLinks (m' a) (m a)

pub owner-Relinked : (m' m : ℕ → Entry) → Relinked m' m → owner m' ≡ owner m
owner-Relinked m' m r = fun_ext (λ a. (r a).client)

pub WellLinked-cells :
    (l : Log) (m : ℕ → Entry)
    → Relinked m l.cells
    → ((a : ℕ) → l.current_entries ≤ a → m a ≡ l.cells a)
    → WellLinked l
    → WellLinked (record l { cells = m })
WellLinked-cells l m r fresh w = record {
  chained = record {
    firsts = λ c. rw (owner-Relinked m l.cells r) (w.chained.firsts c);
    lasts = λ c. rw (owner-Relinked m l.cells r) (w.chained.lasts c);
    nexts =
        λ a k e. (r a).next ∙ rw ((r a).client, owner-Relinked m l.cells r) (w.chained.nexts a k e);
    prevs = λ a h. (r a).prev ∙ rw ((r a).client, owner-Relinked m l.cells r) (w.chained.prevs a h);
    fresh = λ a h. fresh a h ∙ w.chained.fresh a h;
  };
  placed = record { place = w.placed.place; room = w.placed.room; blocks = w.placed.blocks };
}

pub mark_all_lem :
    (xs : List ℕ) (m : ℕ → Entry) (a : ℕ)
    → mark_all xs m a ≡ (if has a xs then record (m a) { set = true } else m a)
unfolding mark_all
mark_all_lem [] m a = refl
mark_all_lem (x ∷ xs) m a = ground (arith, mark_all_lem xs (mark m x) a)

pub mark_all-Relinked : (xs : List ℕ) (m : ℕ → Entry) → Relinked (mark_all xs m) m
mark_all-Relinked xs m a = ground (arith, mark_all_lem xs m a)

pub All-has : (xs : List ℕ) (n a : ℕ) → All (λ x. x < n) xs → n ≤ a → has a xs ≡ false
All-has [] n a h le = refl
All-has (x ∷ xs) n a h le = ground (arith, All-has xs n a h.1 le)

pub owned-below : (o : ℕ → ℕ) (c k lo n : ℕ) → k ≤ n - lo → All (λ x. x < n) (owned o c lo k)
unfolding owned
owned-below o c zero lo n h = tt
owned-below o c (suc k) lo n h = elim (Bool-cases (o lo == c)) [
  | inl hit ↦ rw hit (omega arith, owned-below o c k (lo + 1) n (omega arith))
  | inr miss ↦ rw miss (owned-below o c k (lo + 1) n (omega arith))
]

pub All-append_left : (P : ℕ → Type 0) (xs ys : List ℕ) → All P (xs ++ ys) → All P xs
All-append_left P [] ys h = tt
All-append_left P (x ∷ xs) ys h = (h.0, All-append_left P xs ys h.1)

pub All-append_right : (P : ℕ → Type 0) (xs ys : List ℕ) → All P (xs ++ ys) → All P ys
All-append_right P [] ys h = h
All-append_right P (x ∷ xs) ys h = All-append_right P xs ys h.1

-- ===== src/Storage/Log/Owned.antt =====
-- The places of one client in a range of the log, in order, and the last one before a place.
use mathlib.Core.List.{append-nil}
use zip_log_ae.Base.{
  ℕ, zero, suc, ◌+◌, ◌-◌, ◌≤◌, ◌<◌, ◌≡◌, ◌≢◌, refl, ap, Option, none, some, List, [], ◌∷◌, ◌++◌,
  arith, if◌then◌else◌, ◌==◌, inl, inr, Bool-cases, Bool, ◌||◌, true, false, ℕ_discrete, sym, ◌∙◌,
}

append-ne-nil : (xs : List ℕ) (n : ℕ) → xs ++ n ∷ [] ≢ []
append-ne-nil [] n e = cc
append-ne-nil (x ∷ xs) n e = cc

module _ (owner : ℕ → ℕ) (c : ℕ) where
  unfoldable pub owned : ℕ → ℕ → List ℕ
  owned lo zero = []
  owned lo (suc k) = if owner lo == c then lo ∷ owned (lo + 1) k else owned (lo + 1) k

  unfoldable pub last_before : ℕ → Option ℕ
  last_before zero = none
  last_before (suc n) = if owner n == c then some n else last_before n

  abbrev pub one : ℕ → List ℕ
  one a = if owner a == c then a ∷ [] else []

  pub owned-snoc : (k lo n : ℕ) → lo + k ≡ n → owned lo (suc k) ≡ owned lo k ++ one n
  unfolding owned
  owned-snoc zero lo n e = let e' : lo ≡ n = omega arith in rw e'
  owned-snoc (suc k) lo n e = elim (Bool-cases (owner lo == c)) [
    | inl hit ↦ rw hit (ap (◌∷◌ lo) (owned-snoc k (lo + 1) n (omega arith)))
    | inr miss ↦ rw miss (owned-snoc k (lo + 1) n (omega arith))
  ]

  owned-snoc_hit : (k lo n : ℕ) → lo + k ≡ n → owner n ≡ c → owned lo (suc k) ≡ owned lo k ++ n ∷ []
  owned-snoc_hit k lo n e hit = ground (arith, owned-snoc k lo n e)

  owned-snoc_miss : (k lo n : ℕ) → lo + k ≡ n → owner n ≢ c → owned lo (suc k) ≡ owned lo k
  owned-snoc_miss k lo n e miss = ground (arith, owned-snoc k lo n e, append-nil (owned lo k))

  pub last_before-lt : (n a : ℕ) → last_before n ≡ some a → (a < n) × (owner a ≡ c)
  unfolding last_before
  last_before-lt zero a e = cc
  last_before-lt (suc n) a e = ground (arith, last_before-lt n a)

  pub owned-zero : (lo : ℕ) → owned lo zero ≡ []
  unfolding owned
  owned-zero lo = refl

  -- Nothing of the client lies behind its last place.
  pub owned-last : (k n a : ℕ) → a + 1 + k ≡ n → last_before n ≡ some a → owned (a + 1) k ≡ []
  unfolding last_before
  owned-last zero n a e l = owned-zero (a + 1)
  owned-last (suc k) zero a e l = absurd (omega arith)
  owned-last (suc k) (suc n) a e l = elim (ℕ_discrete (owner n) c) [
    | yes hit ↦ absurd (ground arith)
    | no miss ↦
        owned-snoc_miss k (a + 1) n (omega arith) miss
        ∙ owned-last k n a (omega arith) (ground arith)
  ]

  -- Behind any other place of the client lies one more.
  pub owned-not_last :
      (k n a : ℕ) → a + 1 + k ≡ n → owner a ≡ c → last_before n ≢ some a → owned (a + 1) k ≢ []
  unfolding last_before
  owned-not_last zero zero a e mine l = absurd (omega arith)
  owned-not_last zero (suc n) a e mine l =
      let e' : n ≡ a = omega arith in absurd (l (rw e' (ground arith)))
  owned-not_last (suc k) zero a e mine l = absurd (omega arith)
  owned-not_last (suc k) (suc n) a e mine l = elim (ℕ_discrete (owner n) c) [
    | yes hit ↦ λ empty.
        append-ne-nil (owned (a + 1) k) n
          (sym (owned-snoc_hit k (a + 1) n (omega arith) hit) ∙ empty)
    | no miss ↦ λ empty.
        owned-not_last k n a (omega arith) mine (ground arith)
          (sym (owned-snoc_miss k (a + 1) n (omega arith) miss) ∙ empty)
  ]

  pub owned-none : (n : ℕ) → last_before n ≡ none → owned 0 n ≡ []
  unfolding last_before
  owned-none zero l = owned-zero 0
  owned-none (suc n) l = elim (ℕ_discrete (owner n) c) [
    | yes hit ↦ absurd (ground arith)
    | no miss ↦ owned-snoc_miss n 0 n (omega arith) miss ∙ owned-none n (ground arith)
  ]

  pub owned-some : (n a : ℕ) → last_before n ≡ some a → owned 0 n ≢ []
  unfolding last_before
  owned-some zero a l = cc
  owned-some (suc n) a l = elim (ℕ_discrete (owner n) c) [
    | yes hit ↦
        λ empty. append-ne-nil (owned 0 n) n (sym (owned-snoc_hit n 0 n (omega arith) hit) ∙ empty)
    | no miss ↦ λ empty.
        owned-some n a (ground arith) (sym (owned-snoc_miss n 0 n (omega arith) miss) ∙ empty)
  ]

-- Only the owners in the range matter.
module _ (o o' : ℕ → ℕ) (c : ℕ) where
  pub owned-ext :
      (k lo : ℕ) → ((x : ℕ) → x < lo + k → o' x ≡ o x) → owned o' c lo k ≡ owned o c lo k
  unfolding owned
  owned-ext zero lo same = refl
  owned-ext (suc k) lo same =
      rw (same lo (omega arith), owned-ext k (lo + 1) (λ x h. same x (omega arith)))

  pub last_before-ext :
      (n : ℕ) → ((x : ℕ) → x < n → o' x ≡ o x) → last_before o' c n ≡ last_before o c n
  unfolding last_before
  last_before-ext zero same = refl
  last_before-ext (suc n) same =
      rw (same n (omega arith), last_before-ext n (λ x h. same x (omega arith)))

-- The head of the list is the next place, and the tail goes on behind it.
pub owned-cons :
    (o : ℕ → ℕ) (c k lo b : ℕ) (rest : List ℕ)
    → owned o c lo k ≡ b ∷ rest
    → (lo ≤ b) × (b < lo + k) × (o b ≡ c) × (rest ≡ owned o c (b + 1) (lo + k - (b + 1)))
unfolding owned
owned-cons o c zero lo b rest e = cc
owned-cons o c (suc k) lo b rest e = elim (ℕ_discrete (o lo) c) [
  | yes hit ↦
      let at : lo ≡ b = ground arith in
      let tail : rest ≡ owned o c (lo + 1) k = ground arith in
      let size : lo + suc k - (b + 1) ≡ k = omega arith in
      (omega arith, omega arith, rw (← at) hit, rw size (rw at at tail))
  | no miss ↦
      let (p, q, r, s) = owned-cons o c k (lo + 1) b rest (ground arith) in
      let same : lo + 1 + k ≡ lo + suc k = omega arith in
      (omega arith, omega arith, r, rw same at s)
]

-- The same for a range that ends at `n`, and behind any of its places.
pub owned-tail :
    (o : ℕ → ℕ) (c lo n b : ℕ) (rest : List ℕ)
    → owned o c lo (n - lo) ≡ b ∷ rest
    → (b < n) × (o b ≡ c) × (rest ≡ owned o c (b + 1) (n - (b + 1)))
owned-tail o c lo n b rest e =
    let (p, q, r, s) = owned-cons o c (n - lo) lo b rest e in
    let size : lo + (n - lo) - (b + 1) ≡ n - (b + 1) = omega arith in (omega arith, r, rw size at s)

pub owned-split :
    (o : ℕ → ℕ) (c lo n : ℕ) (xs : List ℕ) (d : ℕ) (ys : List ℕ)
    → owned o c lo (n - lo) ≡ xs ++ d ∷ ys
    → (d < n) × (o d ≡ c) × (ys ≡ owned o c (d + 1) (n - (d + 1)))
owned-split o c lo n [] d ys e = owned-tail o c lo n d ys e
owned-split o c lo n (x ∷ xs) d ys e =
    owned-split o c (x + 1) n xs d ys (sym (owned-tail o c lo n x (xs ++ d ∷ ys) e).2)

abbrev pub has : ℕ → List ℕ → Bool
has a [] = false
has a (x ∷ xs) = (a == x) || has a xs

pub has-append : (a : ℕ) (xs ys : List ℕ) → has a (xs ++ ys) ≡ (has a xs || has a ys)
has-append a [] ys = refl
has-append a (x ∷ xs) ys = ground (arith, has-append a xs ys)

-- The list holds the client's places in the range, and no other.
pub owned-has :
    (o : ℕ → ℕ) (c k lo a : ℕ) → has a (owned o c lo k) ≡ true → (lo ≤ a) × (a < lo + k) × (o a ≡ c)
unfolding owned
owned-has o c zero lo a h = cc
owned-has o c (suc k) lo a h = ground (arith, owned-has o c k (lo + 1) a)

pub has-owned :
    (o : ℕ → ℕ) (c k lo a : ℕ) → lo ≤ a → a < lo + k → o a ≡ c → has a (owned o c lo k) ≡ true
unfolding owned
has-owned o c zero lo a h lt e = absurd (omega arith)
has-owned o c (suc k) lo a h lt e = ground (arith, has-owned o c k (lo + 1) a)

-- Of two parts, the first lies below the place between them.
pub owned-split_has :
    (o : ℕ → ℕ) (c lo n : ℕ) (xs : List ℕ) (d : ℕ) (ys : List ℕ) (a : ℕ)
    → owned o c lo (n - lo) ≡ xs ++ d ∷ ys
    → (lo ≤ d) × (has a xs ≡ true → (lo ≤ a) × (a < d) × (o a ≡ c))
owned-split_has o c lo n [] d ys a e =
    let (p, q, r, s) = owned-cons o c (n - lo) lo d ys e in (p, λ h. cc)
owned-split_has o c lo n (x ∷ xs) d ys a e =
    let (p, q, r, s) = owned-cons o c (n - lo) lo x (xs ++ d ∷ ys) e in
    let (le, rest) =
      owned-split_has o c (x + 1) n xs d ys a (sym (owned-tail o c lo n x (xs ++ d ∷ ys) e).2) in
    (omega arith, λ h. ground (arith, rest))

-- ===== src/Util/Align.antt =====
-- `zip::util::align` of src/util/util.h, for a number that is not a power of 2 and for one that is.
use Prim.Native.Nat.{bit_and}
use zip_log_ae.Util.Bits.{and_high}
use zip_log_ae.Base.{
  ℕ, ◌+◌, ◌-◌, ◌*◌, ◌/◌, ◌%◌, ◌^◌, ◌≤◌, ◌<◌, ◌≡◌, arith, add64, sub64, ltb, if◌then◌else◌,
}

-- On 64-bit words, `N * ((v + N - 1) / N)`.
unfoldable pub align : ℕ → ℕ → ℕ
align n v = n * (sub64 (add64 v n) 1 / n) % 2 ^ 64

-- `std::max`
abbrev pub max_of : ℕ → ℕ → ℕ
max_of a b = if ltb a b then b else a

-- The product is at most the number, so it does not wrap around.
round_down :
    (n w : ℕ)
    → 0 < n
    → w < 2 ^ 64
    → (n * (w / n) % 2 ^ 64 % n ≡ 0) × (n * (w / n) % 2 ^ 64 ≤ w) × (w < n * (w / n) % 2 ^ 64 + n)
round_down n w pos small = (grind arith, grind arith, grind arith)

-- For N from 1 to 2 ^ 32 and a number below 2 ^ 63, `align` yields the multiple of N that is at
-- least the number and less than N above it.
pub align_lem :
    (n v : ℕ)
    → 0 < n
    → n ≤ 2 ^ 32
    → v < 2 ^ 63
    → (align n v % n ≡ 0) × (v ≤ align n v) × (align n v < v + n)
unfolding align
align_lem n v pos small below =
    let e : sub64 (add64 v n) 1 ≡ v + n - 1 = omega arith in
    let (zero_mod, le, gt) = round_down n (v + n - 1) pos (omega arith) in
    rw e (zero_mod, omega arith, omega arith)

-- For a power of 2, `((v - 1) & ~(N - 1)) + N`, where `~(N - 1)` is `2 ^ 64 - N`.
unfoldable pub align_mask : ℕ → ℕ → ℕ
align_mask n v = add64 (bit_and (sub64 v 1) (2 ^ 64 - n)) n

pub align_mask-cell : (v : ℕ) → 0 < v → v < 2 ^ 63 → align_mask 64 v ≡ (v - 1) / 64 * 64 + 64
unfolding align_mask
align_mask-cell v pos small =
    let e : sub64 v 1 ≡ v - 1 = omega arith in rw (e, and_high (v - 1) (omega arith)) (omega arith)

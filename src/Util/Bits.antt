-- ===== src/Util/Bits.antt =====
-- The bit operations of src/util/util.h and src/network as arithmetic: `|` of a low field and a
-- high one, `&` with a mask of low bits, and `&` with its complement.
use Prim.Native.Nat.{min, max, digits, bit_and, bit_or, bit_and-bitwise, bit_or-bitwise}
use native.Mathlib.Nat.{pow-suc, one-le-pow}
use zip_log_ae.Base.{
  ℕ, zero, suc, ◌+◌, ◌-◌, ◌*◌, ◌/◌, ◌%◌, ◌^◌, ◌≤◌, ◌<◌, ◌≡◌, ◌∙◌, sym, refl, ap, arith,
}

-- Twice a multiple of a power is a multiple of the next one.
next_power : (q k : ℕ) → q * 2 ^ suc k ≡ q * 2 ^ k + q * 2 ^ k
next_power q k = omega (arith, ap (λ (t : ℕ). q * t) (pow-suc 2 k))

next_multiple : (q k : ℕ) → suc q * 2 ^ k ≡ q * 2 ^ k + 2 ^ k
next_multiple q k = grind arith

abbrev all_and : ℕ → ℕ → ℕ → ℕ
all_and = digits (λ _. 0) min

abbrev all_or : ℕ → ℕ → ℕ → ℕ
all_or = digits (λ b. b) max

low_bits : (n a k q r : ℕ) → a ≤ n → a ≡ q * 2 ^ k + r → r < 2 ^ k → all_and n a (2 ^ k - 1) ≡ r
low_bits zero a k q r le e lt = omega arith
low_bits (suc n) zero k q r le e lt = omega arith
low_bits (suc n) (suc a) zero q r le e lt =
    omega
      (arith, low_bits n (suc a / 2) zero (suc a / 2) 0 (omega arith) (omega arith) (omega arith))
low_bits (suc n) (suc a) (suc k) q r le e lt =
    let half : (2 ^ suc k - 1) / 2 ≡ 2 ^ k - 1 = omega (arith, pow-suc 2 k) in
    let odd : (2 ^ suc k - 1) % 2 ≡ 1 = omega (arith, pow-suc 2 k, one-le-pow k 2) in
    rw (half, odd)
      (omega (
        arith,
        next_power q k,
        pow-suc 2 k,
        low_bits n (suc a / 2) k q (r / 2) (omega arith) (omega (arith, next_power q k))
            (omega (arith, pow-suc 2 k)),
      ))

-- With no bit left in the first number, the result has none.
none_left :
    (a j q r b v : ℕ)
    → a ≡ 0
    → a ≡ q * 2 ^ j + r
    → ((m : ℕ) → q ≤ m → all_and m q b ≡ v)
    → 0 ≡ v * 2 ^ j
none_left a j zero r b v z e h = let v0 : v ≡ 0 = sym (h 0 (omega arith)) in rw v0 (omega arith)
none_left a j (suc q) r b v z e h = absurd (omega (arith, one-le-pow j 2, next_multiple q j))

high_bits :
    (n a j q r b v : ℕ)
    → a ≤ n
    → a ≡ q * 2 ^ j + r
    → r < 2 ^ j
    → ((m : ℕ) → q ≤ m → all_and m q b ≡ v)
    → all_and n a (b * 2 ^ j) ≡ v * 2 ^ j
high_bits n a zero q r b v le e lt h =
    let same : a ≡ q = omega arith in
    let one : b * 2 ^ 0 ≡ b = omega arith in rw (same, one) (h n (omega arith) ∙ omega arith)
high_bits zero a (suc j) q r b v le e lt h = none_left a (suc j) q r b v (omega arith) e h
high_bits (suc n) zero (suc j) q r b v le e lt h = none_left zero (suc j) q r b v refl e h
high_bits (suc n) (suc a) (suc j) q r b v le e lt h =
    let half : b * 2 ^ suc j / 2 ≡ b * 2 ^ j = omega (arith, next_power b j) in
    let even : b * 2 ^ suc j % 2 ≡ 0 = omega (arith, next_power b j) in
    rw (half, even)
      (omega (
        arith,
        next_power v j,
        high_bits n (suc a / 2) j q (r / 2) b v (omega arith) (omega (arith, next_power q j))
            (omega (arith, pow-suc 2 j)) h,
      ))

high_field : (n x k q : ℕ) → x ≤ n → x < 2 ^ k → all_or n x (q * 2 ^ k) ≡ x + q * 2 ^ k
high_field zero x k q le lt = omega arith
high_field (suc n) zero k q le lt = omega arith
high_field (suc n) (suc x) zero q le lt = absurd (omega arith)
high_field (suc n) (suc x) (suc k) q le lt =
    let half : q * 2 ^ suc k / 2 ≡ q * 2 ^ k = omega (arith, next_power q k) in
    let even : q * 2 ^ suc k % 2 ≡ 0 = omega (arith, next_power q k) in
    rw (half, even)
      (omega (
        arith,
        next_power q k,
        high_field n (suc x / 2) k q (omega arith) (omega (arith, pow-suc 2 k)),
      ))

-- The highest 58 bits of a 64-bit word.
pub and_high : (a : ℕ) → a < 2 ^ 64 → bit_and a (2 ^ 64 - 2 ^ 6) ≡ a / 2 ^ 6 * 2 ^ 6
and_high a lt =
    bit_and-bitwise a (2 ^ 64 - 2 ^ 6)
    ∙ high_bits a a 6 (a / 2 ^ 6) (a % 2 ^ 6) (2 ^ 58 - 1) (a / 2 ^ 6) (omega arith) (omega arith)
        (omega arith)
        (λ m le. low_bits m (a / 2 ^ 6) 58 0 (a / 2 ^ 6) le (omega arith) (omega arith))

pub and_low : (a : ℕ) → bit_and a (2 ^ 11 - 1) ≡ a % 2 ^ 11
and_low a =
    bit_and-bitwise a (2 ^ 11 - 1)
    ∙ low_bits a a 11 (a / 2 ^ 11) (a % 2 ^ 11) (omega arith) (omega arith) (omega arith)

pub or_fields : (x q : ℕ) → x < 2 ^ 11 → bit_or x (q * 2 ^ 11) ≡ x + q * 2 ^ 11
or_fields x q lt = bit_or-bitwise x (q * 2 ^ 11) ∙ high_field x x 11 q (omega arith) lt

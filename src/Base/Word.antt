-- ===== src/Base/Word.antt =====
-- Unsigned 64-bit words as numbers below 2 ^ 64, with the wrap-around of the source written out.
use Prim.Native.Nat.{ℕ, ◌+◌, ◌-◌, ◌%◌, ◌^◌}
use mathlib.Core.Bool.{Bool}
use zip_log_ae.Base.Tests.{leb}

-- `std::numeric_limits<uint64_t>::max()`, which the source also writes -1.
abbrev pub u64_max : ℕ
u64_max = 2 ^ 64 - 1

abbrev pub add64 : ℕ → ℕ → ℕ
add64 a b = (a + b) % 2 ^ 64

abbrev pub sub64 : ℕ → ℕ → ℕ
sub64 a b = (a + 2 ^ 64 - b) % 2 ^ 64

-- Whether the word is negative when it is read as a `long long`.
abbrev pub negative64 : ℕ → Bool
negative64 w = leb (2 ^ 63) w

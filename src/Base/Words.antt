-- ===== src/Base/Words.antt =====
-- Fixed-width unsigned arithmetic, with its wrap-around.
use Prim.Native.Nat.{ℕ, ◌*◌, ◌/◌, ◌%◌, ◌^◌}

abbrev pub u8 : ℕ → ℕ
u8 n = n % 256

abbrev pub u32 : ℕ → ℕ
u32 n = n % 4294967296

abbrev pub u64 : ℕ → ℕ
u64 n = n % 18446744073709551616

-- x << k and x >> k on a uint64_t.
abbrev pub shl64 : ℕ → ℕ → ℕ
shl64 x k = x * 2 ^ k % 18446744073709551616

abbrev pub shr : ℕ → ℕ → ℕ
shr x k = x / 2 ^ k

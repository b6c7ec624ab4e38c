-- ===== src/Prelude/Words.antt =====
-- Go's `uint64`: a number below 2 ^ 64, with the wrap-around of each operation written out.
use type_type_downloader.Prelude.{arith, if◌then◌else◌, ltb, ℕ, ◌%◌, ◌+◌, ◌-◌, ◌<◌, ◌^◌, ◌≡◌}
use type_type_downloader.Prelude.Int.{negsuc, pos, ℤ}

abbrev pub max_u64 : ℕ
max_u64 = 2 ^ 64 - 1

abbrev pub u64 : ℕ → ℕ
u64 n = n % 2 ^ 64

-- a - b in uint64
abbrev pub sub_u64 : ℕ → ℕ → ℕ
sub_u64 a b = (a + 2 ^ 64 - b) % 2 ^ 64

-- Go's `int` and `int64`: the integer that the low 64 bits stand for.
abbrev pub signed_64 : ℕ → ℤ
signed_64 w = if ltb w (2 ^ 63) then pos w else negsuc (2 ^ 64 - w - 1)

unfoldable pub i64 : ℤ → ℤ
i64 (pos n) = signed_64 (n % 2 ^ 64)
i64 (negsuc n) = signed_64 (2 ^ 64 - 1 - n % 2 ^ 64)

abbrev pub IsI64 : ℤ → Type 0
IsI64 (pos n) = n < 2 ^ 63
IsI64 (negsuc n) = n < 2 ^ 63

-- A value in range is kept.
pub i64_lem : (a : ℤ) → IsI64 a → i64 a ≡ a
unfolding i64
i64_lem (pos n) h = ground arith
i64_lem (negsuc n) h = ground arith

pub i64-IsI64 : (a : ℤ) → IsI64 (i64 a)
unfolding i64
i64-IsI64 (pos n) = ground arith
i64-IsI64 (negsuc n) = ground arith

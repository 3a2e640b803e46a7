-- ===== src/Prelude/Int64.antt =====
-- Go's `int64`: integers whose sums and differences wrap around.
use chantools.Prelude.{ℕ, ◌-◌, ◌+◌, ◌^◌, ◌<◌, ◌≤◌, ltb, if◌then◌else◌, ◌≡◌, arith}
use chantools.Prelude.Int.{ℤ, pos, negsuc, ◌+ℤ◌, ◌-ℤ◌}
use chantools.Prelude.Text.Decimal.{to_uint}

-- `int64(n)` of a `uint64`.
unfoldable pub to_int64 : ℕ → ℤ
to_int64 n = if ltb n (2 ^ 63) then pos n else negsuc (2 ^ 64 - 1 - n)

unfoldable pub sub64 : ℤ → ℤ → ℤ
unfolding to_int64 to_uint ◌-ℤ◌
sub64 a b = to_int64 (to_uint 64 (a -ℤ b))

unfoldable pub add64 : ℤ → ℤ → ℤ
unfolding to_int64 to_uint ◌+ℤ◌
add64 a b = to_int64 (to_uint 64 (a +ℤ b))

pub to_int64-pos : (n : ℕ) → n < 2 ^ 63 → to_int64 n ≡ pos n
unfolding to_int64
to_int64-pos n h = ground arith

pub sub64-pos : (c n : ℕ) → c < 2 ^ 63 → n ≤ c → sub64 (pos c) (pos n) ≡ pos (c - n)
unfolding sub64
sub64-pos c n h k = ground arith

pub add64-pos : (a b : ℕ) → a + b < 2 ^ 63 → add64 (pos a) (pos b) ≡ pos (a + b)
unfolding add64
add64-pos a b h = ground arith

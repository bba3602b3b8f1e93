-- ===== src/GoTime/Bounds.antt =====
-- Where the int64 arithmetic of `time.Duration` does not wrap around.
use shearix_platform.Shared.{
  ℕ, ◌+◌, ◌*◌, ◌≤◌, ◌<◌, ◌^◌, ◌≡◌, ℤ, pos, negsuc, pos_part, neg_part, ◌+ℤ◌, ◌-ℤ◌, ◌*ℤ◌, arith,
}
use shearix_platform.GoTime.{wrap64, add_int, minutes, minus_minutes, negate}

-- An int64.
abbrev pub IsInt64 : ℤ → Type 0
IsInt64 a = (pos_part a < 2 ^ 63) × (neg_part a ≤ 2 ^ 63)

pub wrap64-eq_of_IsInt64 : (a : ℤ) → IsInt64 a → wrap64 a ≡ a
unfolding wrap64
wrap64-eq_of_IsInt64 (pos n) h = ground arith
wrap64-eq_of_IsInt64 (negsuc n) h = ground arith

-- A count of minutes below 2 ^ 27 (255 years) makes a duration with no wrap-around.
pub minutes-eq : (n : ℕ) → n ≤ 2 ^ 27 → minutes (pos n) ≡ pos (n * 60000000000)
unfolding minutes wrap64 ◌*ℤ◌
minutes-eq n h = ground arith

pub minus_minutes-eq : (n : ℕ) → n ≤ 2 ^ 27 → minus_minutes (pos n) ≡ pos 0 -ℤ pos (n * 60000000000)
unfolding minus_minutes negate wrap64 ◌*ℤ◌ ◌-ℤ◌
minus_minutes-eq n h = ground arith

pub add_int-eq : (a b : ℕ) → a + b < 2 ^ 63 → add_int (pos a) (pos b) ≡ pos (a + b)
unfolding add_int wrap64 ◌+ℤ◌
add_int-eq a b h = ground arith

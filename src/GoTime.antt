-- ===== src/GoTime.antt =====
-- Go's `time` as the services use it: an instant is a count of nanoseconds from the zero time,
-- and a `time.Duration` is an int64 count of nanoseconds, whose arithmetic wraps around.
pub mod Bounds
use shearix_platform.Shared.{
  ℕ, ◌-◌, ◌%◌, ◌^◌, Bool, ℤ, pos, negsuc, ◌+ℤ◌, ◌-ℤ◌, ◌*ℤ◌, ltb_ℤ, eqb_ℤ, ltb, if◌then◌else◌,
}

-- time.Time
abbrev pub Time : Type 0
Time = ℤ

-- The bit pattern of the low 64 bits of an integer.
unfoldable pub to_u64 : ℤ → ℕ
to_u64 (pos n) = n % 2 ^ 64
to_u64 (negsuc n) = 2 ^ 64 - 1 - n % 2 ^ 64

-- The int64 with a given bit pattern.
unfoldable pub of_u64 : ℕ → ℤ
of_u64 n = if ltb n (2 ^ 63) then pos n else negsuc (2 ^ 64 - 1 - n)

unfoldable pub wrap64 : ℤ → ℤ
unfolding to_u64 of_u64
wrap64 a = of_u64 (to_u64 a)

-- `a + b` on the machine's 64-bit `int`.
unfoldable pub add_int : ℤ → ℤ → ℤ
add_int a b = wrap64 (a +ℤ b)

-- time.Minute
abbrev pub minute : ℤ
minute = pos 60000000000

-- `time.Duration(n) * time.Minute`
unfoldable pub minutes : ℤ → ℤ
minutes n = wrap64 (n *ℤ minute)

-- `-d` on a `time.Duration`.
unfoldable pub negate : ℤ → ℤ
negate d = wrap64 (pos 0 -ℤ d)

-- `-time.Duration(n) * time.Minute`: the sign is taken before the product.
unfoldable pub minus_minutes : ℤ → ℤ
minus_minutes n = wrap64 (negate n *ℤ minute)

-- t.Add(d)
abbrev pub add : Time → ℤ → Time
add t d = t +ℤ d

-- t.IsZero()
abbrev pub is_zero : Time → Bool
is_zero t = eqb_ℤ t (pos 0)

-- t.Before(u), t.After(u)
abbrev pub before : Time → Time → Bool
before t u = ltb_ℤ t u

abbrev pub after : Time → Time → Bool
after t u = ltb_ℤ u t

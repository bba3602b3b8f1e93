-- ===== src/Shared/Texts.antt =====
-- A Go string by its characters and by the bytes of its UTF-8 form.
use Prim.Native.Nat.{ℕ, ◌+◌}
use Prim.Native.String.{String}
use Prim.Native.Char.{code}
use mathlib.Core.List.{List, [], ◌∷◌}
use shearix_platform.Shared.Tests.{ltb, if◌then◌else◌}

-- The code points of a text.
abbrev pub codes : String → List ℕ
codes String.[] = []
codes (String.◌∷◌ c s) = code c ∷ codes s

-- The bytes of a code point.
unfoldable pub byte_count : ℕ → ℕ
byte_count c = if ltb c 128 then 1 else if ltb c 2048 then 2 else if ltb c 65536 then 3 else 4

-- len(s)
unfoldable pub byte_length : String → ℕ
unfolding byte_count
byte_length String.[] = 0
byte_length (String.◌∷◌ c s) = byte_count (code c) + byte_length s

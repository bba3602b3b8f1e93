-- ===== src/Platform/Ids.antt =====
-- github.com/google/uuid as the services use it: a UUID is its 128-bit number.
use shearix_platform.Shared.{ℕ, Bool, ◌==◌}

abbrev pub Uuid : Type 0
Uuid = ℕ

-- uuid.Nil
abbrev pub nil : Uuid
nil = 0

abbrev pub is_nil : Uuid → Bool
is_nil id = id == nil

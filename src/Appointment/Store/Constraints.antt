-- ===== src/Appointment/Store/Constraints.antt =====
-- services/appointment-service/migrations/000002 and 000004: CHECK, UNIQUE and EXCLUDE constraints.
use shearix_platform.Shared.{ℕ, String, Bool, ◌&&◌, ◌||◌, ◌==◌, leb, codes, length, all}
use shearix_platform.GoTime.{Time, before}
use shearix_platform.Appointment.Store.{Row, KeyRow}
use text.Mathlib.Text.{◌==◌ as str_eq}

-- CHECK(status IN (...))
unfoldable pub is_status : String → Bool
is_status s =
    str_eq s "pending"
    || str_eq s "confirmed"
    || str_eq s "cancelled"
    || str_eq s "completed"
    || str_eq s "no_show"

-- WHERE (status IN ('pending','confirmed'))
unfoldable pub is_active : String → Bool
is_active s = str_eq s "pending" || str_eq s "confirmed"

-- The CHECK constraints of an appointment.
unfoldable pub row_checks : Row → Bool
row_checks r =
    is_status r.status && before r.start_at r.end_at && before r.occupied_start_at r.occupied_end_at

-- tstzrange(a, b, '[)') && tstzrange(c, d, '[)'), for ranges that are not empty.
unfoldable pub ranges_meet : Time → Time → Time → Time → Bool
ranges_meet a b c d = before a d && before c b

-- appointments_no_overlap: two active appointments of one barber with occupied ranges that meet.
unfoldable pub excludes : Row → Row → Bool
unfolding is_active ranges_meet
excludes r s =
    is_active r.status
    && is_active s.status
    && r.tenant_id == s.tenant_id
    && r.barber_id == s.barber_id
    && ranges_meet r.occupied_start_at r.occupied_end_at s.occupied_start_at s.occupied_end_at

-- [A-Za-z0-9._:-]
abbrev pub is_key_char : ℕ → Bool
is_key_char c =
    leb b'A' c && leb c b'Z'
    || leb b'a' c && leb c b'z'
    || leb b'0' c && leb c b'9'
    || c == b'.'
    || c == b'_'
    || c == b':'
    || c == b'-'

-- length(key) BETWEEN 1 AND 128 AND key ~ '^[A-Za-z0-9._:-]+$'
unfoldable pub key_check : String → Bool
key_check key = let cs = codes key in leb 1 (length cs) && leb (length cs) 128 && all is_key_char cs

abbrev is_hex_char : ℕ → Bool
is_hex_char c = leb b'0' c && leb c b'9' || leb b'a' c && leb c b'f'

-- fingerprint ~ '^[0-9a-f]{64}$'
unfoldable pub fingerprint_check : String → Bool
fingerprint_check f = let cs = codes f in length cs == 64 && all is_hex_char cs

-- PRIMARY KEY (tenant_id, principal_scope, operation, key)
unfoldable pub is_key_row : ℕ → String → String → String → KeyRow → Bool
is_key_row tenant scope operation key k =
    k.tenant_id == tenant
    && str_eq k.principal_scope scope
    && str_eq k.operation operation
    && str_eq k.key key

-- WHERE tenant_id=$1 AND id=$2
unfoldable pub is_row : ℕ → ℕ → Row → Bool
is_row tenant id r = r.tenant_id == tenant && r.id == id

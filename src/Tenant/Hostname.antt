-- ===== src/Tenant/Hostname.antt =====
-- services/tenant-service/internal/service/service.go, NormalizeHostname: a host name by its
-- characters, which are bytes if it is accepted. `is_ip` is net.ParseIP.
pub mod Labels
use shearix_platform.Shared.{
  ℕ, String, Bool, true, false, ◌&&◌, ◌||◌, not, List, [], ◌∷◌, ◌++◌, ◌==◌, leb, ltb, length, any,
  all, codes, byte_count, ◌+◌, Result, ok, err, if◌then◌else◌,
}
use shearix_platform.Platform.Library.{Library}
use shearix_platform.Tenant.Settings.{InputError, invalid_input}

-- The two texts are the same.
unfoldable pub is_text : List ℕ → List ℕ → Bool
is_text [] [] = true
is_text (a ∷ s) (b ∷ t) = a == b && is_text s t
is_text _ _ = false

-- len(s) of the text with these characters.
unfoldable pub bytes : List ℕ → ℕ
bytes [] = 0
bytes (c ∷ cs) = byte_count c + bytes cs

-- strings.TrimSuffix(s, ".")
unfoldable pub without_last_dot : List ℕ → List ℕ
without_last_dot [] = []
without_last_dot (c ∷ []) = if c == b'.' then [] else c ∷ []
without_last_dot (c ∷ d ∷ rest) = c ∷ without_last_dot (d ∷ rest)

-- strings.Split(s, "."): the first label, and the others.
unfoldable pub split : List ℕ → List ℕ × List (List ℕ)
split [] = ([], [])
split (c ∷ rest) =
    let (label, labels) = split rest in
    if c == b'.' then ([], label ∷ labels) else (c ∷ label, labels)

-- One of the characters :/?#@*\\
unfoldable pub is_banned : ℕ → Bool
is_banned c = c == b':' || c == b'/' || c == b'?' || c == b'#' || c == b'@' || c == b'*' || c == 92

unfoldable pub is_label_char : ℕ → Bool
is_label_char c = leb b'a' c && leb c b'z' || leb b'0' c && leb c b'9' || c == b'-'

unfoldable pub ends_in_dash : List ℕ → Bool
ends_in_dash [] = false
ends_in_dash (c ∷ []) = c == b'-'
ends_in_dash (c ∷ d ∷ rest) = ends_in_dash (d ∷ rest)

unfoldable pub starts_with_dash : List ℕ → Bool
starts_with_dash [] = false
starts_with_dash (c ∷ rest) = c == b'-'

-- The tests of one label.
unfoldable pub is_label : List ℕ → Bool
unfolding starts_with_dash ends_in_dash is_label_char
is_label [] = false
is_label (c ∷ rest) =
    leb (bytes (c ∷ rest)) 63
    && not (starts_with_dash (c ∷ rest))
    && not (ends_in_dash (c ∷ rest))
    && all is_label_char (c ∷ rest)

abbrev localhost : List ℕ
localhost = codes "localhost"

-- strings.HasSuffix(s, ".localhost")
unfoldable pub ends_in_localhost : List ℕ → Bool
unfolding is_text
ends_in_localhost [] = false
ends_in_localhost (c ∷ rest) = is_text (c ∷ rest) (codes ".localhost") || ends_in_localhost rest

module _ (lib : Library) (is_ip : List ℕ → Bool) (allow_localhost : Bool) where
  -- The tests of NormalizeHostname, in their order.
  unfoldable pub is_hostname : List ℕ → Bool
  unfolding bytes is_text is_banned ends_in_localhost split is_label
  is_hostname h =
      let (label, labels) = split h in
      not (length h == 0)
      && leb (bytes h) 253
      && not (any is_banned h)
      && not (is_ip h)
      && (allow_localhost || not (is_text h localhost || ends_in_localhost h))
      && (not (length labels == 0) || is_text h localhost)
      && is_label label
      && all is_label labels

  -- NormalizeHostname
  unfoldable pub normalize_hostname : String → Result InputError (List ℕ)
  unfolding without_last_dot is_hostname
  normalize_hostname input =
      let h = without_last_dot (codes (lib.to_lower (lib.trim_space input))) in
      if is_hostname h then ok h else err invalid_input

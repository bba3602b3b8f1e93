-- ===== src/Platform/Library.antt =====
-- The functions of Go's packages strings, net/mail, crypto, encoding and time, and of
-- github.com/google/uuid, that the services call: the definitions take them as an argument.
use shearix_platform.Shared.{String, Option, List}
use shearix_platform.GoTime.{Time}
use shearix_platform.Platform.Ids.{Uuid}

pub record Library : Type 0 where
  -- strings.TrimSpace, strings.ToLower
  pub trim_space : String → String
  pub to_lower : String → String
  -- The address that mail.ParseAddress finds; `none` is an error.
  pub parse_address : String → Option String
  -- hex.EncodeToString of sha256.Sum256
  pub sha256_hex : String → String
  -- id.String() and uuid.Parse
  pub uuid_text : Uuid → String
  pub parse_uuid : String → Option Uuid
  -- t.UTC().Format(time.RFC3339Nano)
  pub rfc3339_nano : Time → String
  -- json.Marshal of a struct of texts
  pub marshal_texts : List String → String

-- ===== src/Content/Ids.antt =====
-- internal/domain/ID.go: identifiers of posts, users, revisions and assets. They are UUIDs, whose
-- package is a parameter.
use lets_go.Prelude.{ℕ, Option, none, some, Bool, ◌==◌, if◌then◌else◌}
use lets_go.Sql.{Result, ok, err}
use lets_go.Content.Errors.{Sentinel, Error}
use lets_go.Content.Tables.{Ident}

-- A UUID by the number that its bytes are: 0 is `uuid.Nil`.
abbrev pub Uuid : Type 0
Uuid = ℕ

-- `uuid.Parse` and `UUID.String`.
pub record UuidCodec : Type 0 where
  pub parse : Ident → Option Uuid
  pub text : Uuid → Ident

abbrev pub is_zero : Uuid → Bool
is_zero id = id == 0

abbrev pub check_uuid : Sentinel → Option Uuid → Result Error Uuid
check_uuid invalid none = err (Error.wrapped (Error.sentinel invalid))
check_uuid invalid (some id) = if is_zero id then err (Error.sentinel invalid) else ok id

-- `parseUUID`
abbrev pub parse_uuid : UuidCodec → Ident → Sentinel → Result Error Uuid
parse_uuid codec value invalid = check_uuid invalid (codec.parse value)

abbrev pub parse_post_id : UuidCodec → Ident → Result Error Uuid
parse_post_id codec value = parse_uuid codec value Sentinel.invalid_post_id

abbrev pub parse_user_id : UuidCodec → Ident → Result Error Uuid
parse_user_id codec value = parse_uuid codec value Sentinel.invalid_user_id

abbrev pub parse_revision_id : UuidCodec → Ident → Result Error Uuid
parse_revision_id codec value = parse_uuid codec value Sentinel.invalid_revision_id

abbrev pub parse_asset_id : UuidCodec → Ident → Result Error Uuid
parse_asset_id codec value = parse_uuid codec value Sentinel.invalid_asset_id

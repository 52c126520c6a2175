-- ===== src/Content/Publication.antt =====
-- What `PublishPost` (internal/respository/publication.go) reads: the mapping of drafts and
-- revisions of publication_mapping.go, and `checkPublicationAssets` with its statements.
pub mod Tags
pub mod Rows
pub mod Checks
pub mod Resolving
pub mod Tagging
pub mod Body
pub mod Written
pub mod Outcome
pub mod Effects
pub mod Callback
pub mod Shown
use lets_go.Prelude.{
  ℕ, ◌+◌, Bool, true, false, not, ◌&&◌, ◌||◌, Option, none, some, is_none, holds, List, [], ◌∷◌,
  ◌++◌, ltb, leb, ◌==◌, if◌then◌else◌, length, select,
}
use lets_go.Strings.{eq_text}
use lets_go.Sql.{Session, Result, ok, err, Tx, ◌>>=◌, ◌>>◌, pure, fail, call}
use lets_go.Sql.Table.{find_row, update_where, affected}
use lets_go.Sql.Order.{order_by}
use lets_go.Sql.Insert.{insert_unique}
use lets_go.Content.Errors.{error_driver, Text, Sentinel, Message, Error, errors_is}
use lets_go.Content.Tables.{
  Ident, Time, PostRow, DraftRow, RevisionRow, MediaAsset, ContentAssetRef, Tag, PostRevisionTag,
  OutboxEvent, Tables,
}
use lets_go.Content.Delivery.{lift_result, or_not_found}
use lets_go.Content.Ids.{Uuid, UuidCodec, is_zero, parse_post_id, parse_asset_id}
use lets_go.Content.Tasks.{Database, TaskTx, replace_error}
use lets_go.Content.Tags.{TagName, prepare_tag_names}
use lets_go.Content.Post.{Post, publish}
use lets_go.Content.Post.Draft.{Cover, PostDraft, PostRevision, contains, add}
use lets_go.Content.Cards.{post_key, revision_key, find_post, raise}
use lets_go.Content.Removal.{and_then, restore_post, read_current}
use lets_go.Content.Drafts.{
  draft_key, focus_of, crop_style_of, put_posts, put_refs, refs_of, insert_ref, asset_rows,
  find_assets, same_ref,
}

-- The payload of a PostPublished event; its `schemaVersion` is 1.
pub record Publication : Type 0 where
  pub post_id : Ident
  pub author_id : Ident
  pub revision_id : Ident
  pub revision_number : ℕ
  pub source_draft_version : ℕ
  pub post_version : ℕ
  pub tag_names : List Text

-- What a publication uses of other packages: UUIDs and new ones (none where the random source
-- fails; one for the event, and one for each tag in turn), JSON, and the Unicode tables.
pub record PublishInputs : Type 0 where
  pub codec : UuidCodec
  pub event_id : Option Uuid
  pub tag_ids : ℕ → Option Uuid
  pub decode_tags : Text → Option (List Text)
  pub encode : Publication → Text
  pub nfkc : Text → Text
  pub fold : Text → Text
  pub post_published : Ident

pub record PublicationResult : Type 0 where
  pub post_id : Uuid
  pub revision_id : Uuid
  pub revision_number : ℕ
  pub post_version : ℕ
  pub published_at : Time

abbrev pub or_zero : Option ℕ → ℕ
or_zero none = 0
or_zero (some n) = n

abbrev pub restore_cover : UuidCodec → DraftRow → Option Ident → Result Error (Option Cover)
restore_cover codec row none = ok none
restore_cover codec row (some text) = and_then (parse_asset_id codec text) λ id. ok (
    some (record {
      asset_id = id;
      focus_x = or_zero row.cover_focus_x;
      focus_y = or_zero row.cover_focus_y;
      crop_style = row.cover_crop_style;
    }))

abbrev pub or_undecoded : {A : Type 0} → Option A → Result Error A
or_undecoded none = err (Error.message Message.decode_tags)
or_undecoded (some a) = ok a

abbrev pub restored_draft : DraftRow → Uuid → Option Cover → List Text → PostDraft
restored_draft row id cover tag_names = record {
  post_id = id;
  title = row.title;
  summary = row.summary;
  cover = cover;
  document = row.document_json;
  document_schema_version = row.document_schema_version;
  plain_text = row.plain_text;
  block_count = row.block_count;
  image_count = row.image_count;
  tag_names = tag_names;
  asset_refs = [];
  version = row.draft_version;
  created_at = row.created_at;
  updated_at = row.updated_at;
}

-- `restoreDraft`
abbrev pub restore_draft : PublishInputs → DraftRow → Result Error PostDraft
restore_draft inputs row = and_then (parse_post_id inputs.codec row.post_id) λ id.
    and_then (restore_cover inputs.codec row row.cover_asset_id) λ cover.
      and_then (or_undecoded (inputs.decode_tags row.tag_names_json))
        λ tag_names. ok (restored_draft row id cover tag_names)

-- `revisionRow`
abbrev pub revision_row : UuidCodec → PostRevision → RevisionRow
revision_row codec revision = record {
  revision_id = codec.text revision.revision_id;
  post_id = codec.text revision.post_id;
  revision_number = revision.revision_number;
  source_draft_version = revision.source_draft_version;
  title = revision.title;
  summary = revision.summary;
  cover_asset_id = focus_of (λ (c : Cover). codec.text c.asset_id) revision.cover;
  cover_focus_x = focus_of (λ (c : Cover). c.focus_x) revision.cover;
  cover_focus_y = focus_of (λ (c : Cover). c.focus_y) revision.cover;
  cover_crop_style = crop_style_of revision.cover;
  document_schema_version = revision.document_schema_version;
  document_json = revision.document;
  plain_text = revision.plain_text;
  block_count = revision.block_count;
  image_count = revision.image_count;
  published_at = revision.published_at;
}

-- `FindOneForUpdate` of the drafts
unfoldable pub find_draft : Ident → TaskTx DraftRow
find_draft id = do
  found ← call Error.driver λ now t. (find_row (draft_key id) t.drafts, t)
  lift_result (or_not_found found)

abbrev pub is_image_of : Ident → ContentAssetRef → Bool
is_image_of id r = r.owner_type == 1 && r.owner_id == id && r.usage_type == 2

abbrev pub image_refs_of : Ident → Tables → List ContentAssetRef
image_refs_of id t = select (is_image_of id) t.refs

unfoldable pub find_image_refs : Ident → TaskTx (List ContentAssetRef)
find_image_refs id = call Error.driver λ now t. (image_refs_of id t, t)

-- The keys of the map `unique`
abbrev pub unique_assets : List Ident → List ContentAssetRef → List Ident
unique_assets ids [] = ids
unique_assets ids (ref ∷ refs) = unique_assets (add ids ref.asset_id) refs

abbrev pub with_cover : UuidCodec → Option Cover → List Ident → List Ident
with_cover codec none ids = ids
with_cover codec (some cover) ids = add ids (codec.text cover.asset_id)

abbrev pub all_of_version : ℕ → List ContentAssetRef → Bool
all_of_version version [] = true
all_of_version version (ref ∷ refs) = ref.source_version == version && all_of_version version refs

abbrev pub is_ready_asset : Ident → MediaAsset → Bool
is_ready_asset author_id asset =
    asset.owner_id == author_id && asset.status == 3 && is_none asset.deleted_at

abbrev pub all_ready : Ident → List MediaAsset → Bool
all_ready author_id [] = true
all_ready author_id (asset ∷ assets) = is_ready_asset author_id asset && all_ready author_id assets

-- The two checks of the rows that were found
abbrev pub check_found : Ident → List Ident → List MediaAsset → TaskTx (Unit {0})
check_found author_id ids assets =
    if not (length assets == length ids) || not (all_ready author_id assets)
    then fail (Error.sentinel Sentinel.media_asset_not_ready)
    else pure tt

abbrev pub check_assets : Ident → List Ident → TaskTx (Unit {0})
check_assets author_id ids =
    if length ids == 0 then pure tt else (find_assets ids >>= check_found author_id ids)

abbrev pub check_refs : UuidCodec → Ident → PostRevision → List ContentAssetRef → TaskTx (Unit {0})
check_refs codec author_id revision refs =
    if not (length refs == revision.image_count)
      || not (all_of_version revision.source_draft_version refs)
    then fail (Error.sentinel Sentinel.draft_content_invalid)
    else check_assets author_id (with_cover codec revision.cover (unique_assets [] refs))

-- `checkPublicationAssets`
unfoldable pub check_publication_assets :
    UuidCodec → Ident → Ident → PostRevision → TaskTx (Unit {0})
check_publication_assets codec post_id author_id revision = do
  refs ← find_image_refs post_id
  check_refs codec author_id revision refs

abbrev pub put_revisions : List RevisionRow → Tables → Tables
put_revisions rows t = record t { revisions = rows }

abbrev pub revisions_of : Tables → List RevisionRow
revisions_of t = t.revisions

abbrev pub put_outbox : List OutboxEvent → Tables → Tables
put_outbox rows t = record t { outbox = rows }

abbrev pub outbox_of : Tables → List OutboxEvent
outbox_of t = t.outbox

-- ===== src/Content/Drafts.antt =====
-- How drafts are stored: `validateDraftAssets` and `replaceDraftRefs` of
-- internal/respository/post.go, the mapping of postDraft.go, and the statements of internal/model
-- that they use.
pub mod Body
pub mod Refs
pub mod Assets
pub mod Save
pub mod Create
use lets_go.Prelude.{
  ℕ, ◌+◌, Bool, true, false, not, ◌&&◌, ◌||◌, Option, none, some, List, [], ◌∷◌, ◌++◌, leb, ◌==◌,
  if◌then◌else◌, length, select,
}
use lets_go.Strings.{eq_text}
use lets_go.Sql.{Session, Result, ok, err, Tx, ◌>>=◌, ◌>>◌, pure, fail, call}
use lets_go.Sql.Table.{find_row, update_where, delete_where, affected}
use lets_go.Sql.Order.{order_by}
use lets_go.Sql.Insert.{insert_unique}
use lets_go.Content.Errors.{Text, Sentinel, Message, Error, errors_is}
use lets_go.Content.Tables.{Ident, Time, PostRow, DraftRow, MediaAsset, ContentAssetRef, Tables}
use lets_go.Content.Delivery.{lift_result, or_not_found}
use lets_go.Content.Ids.{Uuid, UuidCodec, is_zero, parse_asset_id, parse_user_id}
use lets_go.Content.Tasks.{Database, TaskTx, replace_error}
use lets_go.Content.Post.{Post}
use lets_go.Content.Post.Draft.{
  Cover, DraftAssetRef, PostDraft, DraftMediaAssetState, contains, referenced_asset_ids,
  validate_asset_states,
}
use lets_go.Content.Cards.{post_key, find_post, raise}
use lets_go.Content.Removal.{and_then, restore_post, read_current}

-- UUIDs, and `json.Marshal` of the names of tags, which does not fail.
pub record DraftInputs : Type 0 where
  pub codec : UuidCodec
  pub encode_tags : List Text → Text

abbrev pub draft_key : Ident → DraftRow → Bool
draft_key id r = r.post_id == id

abbrev pub focus_of : (Cover → ℕ) → Option Cover → Option ℕ
focus_of f none = none
focus_of f (some cover) = some (f cover)

abbrev pub crop_style_of : Option Cover → Text
crop_style_of none = []
crop_style_of (some cover) = cover.crop_style

-- `draftRow`, with the times that the server fills
abbrev pub draft_row : DraftInputs → PostDraft → Time → DraftRow
draft_row inputs draft now = record {
  post_id = inputs.codec.text draft.post_id;
  draft_version = draft.version;
  title = draft.title;
  summary = draft.summary;
  cover_asset_id = focus_of (λ (c : Cover). inputs.codec.text c.asset_id) draft.cover;
  cover_focus_x = focus_of (λ (c : Cover). c.focus_x) draft.cover;
  cover_focus_y = focus_of (λ (c : Cover). c.focus_y) draft.cover;
  cover_crop_style = crop_style_of draft.cover;
  document_schema_version = draft.document_schema_version;
  document_json = draft.document;
  tag_names_json = inputs.encode_tags draft.tag_names;
  plain_text = draft.plain_text;
  block_count = draft.block_count;
  image_count = draft.image_count;
  created_at = now;
  updated_at = now;
}

abbrev pub put_posts : List PostRow → Tables → Tables
put_posts rows t = record t { posts = rows }

abbrev pub put_drafts : List DraftRow → Tables → Tables
put_drafts rows t = record t { drafts = rows }

abbrev pub put_refs : List ContentAssetRef → Tables → Tables
put_refs rows t = record t { refs = rows }

abbrev pub posts_of : Tables → List PostRow
posts_of t = t.posts

abbrev pub drafts_of : Tables → List DraftRow
drafts_of t = t.drafts

abbrev pub refs_of : Tables → List ContentAssetRef
refs_of t = t.refs

-- `Insert` of the drafts
abbrev pub insert_draft : DraftInputs → PostDraft → TaskTx (Unit {0})
insert_draft inputs draft =
    insert_unique Error.driver drafts_of put_drafts (draft_key (inputs.codec.text draft.post_id))
      (draft_row inputs draft)

-- `FindVersionForUpdate`
abbrev pub version_of : Option DraftRow → Option ℕ
version_of none = none
version_of (some r) = some r.draft_version

unfoldable pub find_draft_version : Ident → TaskTx ℕ
find_draft_version id = do
  found ← call Error.driver λ now t. (version_of (find_row (draft_key id) t.drafts), t)
  lift_result (or_not_found found)

-- `FindUpdatedAt`
unfoldable pub find_updated_at : Ident → TaskTx Time
find_updated_at id = do
  found ← call Error.driver λ now t.
      (elim (find_row (draft_key id) t.drafts) [ none ↦ none | some r ↦ some r.updated_at ], t)
  lift_result (or_not_found found)

abbrev pub has_version : Ident → ℕ → DraftRow → Bool
has_version id version r = r.post_id == id && r.draft_version == version

-- The SET clause of `UpdateWithVersion`; `updated_at` is filled by the server.
abbrev pub next_draft : DraftRow → Time → DraftRow → DraftRow
next_draft new now r = record new {
  post_id = r.post_id;
  draft_version = r.draft_version + 1;
  created_at = r.created_at;
  updated_at = now;
}

-- `UpdateWithVersion`, up to the number of rows
unfoldable pub update_with_version : DraftRow → ℕ → TaskTx ℕ
update_with_version new version = call Error.driver λ now t. (
  affected (has_version new.post_id version) t.drafts,
  record t {
    drafts = update_where (has_version new.post_id version) (next_draft new now) t.drafts;
  },
)

abbrev pub by_asset : MediaAsset → MediaAsset → Bool
by_asset a b = leb a.asset_id b.asset_id

abbrev pub asset_rows : List Ident → List MediaAsset → List MediaAsset
asset_rows ids rows = order_by by_asset (select (λ (r : MediaAsset). contains r.asset_id ids) rows)

-- `FindByIDsForShare` of at least one id. The order of the ids, which the caller sorts, does not
-- matter to the statement.
unfoldable pub find_assets : List Ident → TaskTx (List MediaAsset)
find_assets ids = call Error.driver λ now t. (asset_rows ids t.assets, t)

abbrev pub texts : UuidCodec → List Uuid → List Ident
texts codec [] = []
texts codec (id ∷ ids) = codec.text id ∷ texts codec ids

abbrev pub state_of : MediaAsset → Uuid → Uuid → DraftMediaAssetState
state_of row id owner = record {
  id = id;
  owner_id = owner;
  status = row.status;
  is_deleted = elim row.deleted_at [ none ↦ false | some t ↦ true ];
}

-- The loop that makes states of rows
abbrev pub asset_states : UuidCodec → List MediaAsset → Result Error (List DraftMediaAssetState)
asset_states codec [] = ok []
asset_states codec (row ∷ rows) = and_then (parse_asset_id codec row.asset_id) λ id.
    and_then (parse_user_id codec row.owner_id)
      λ owner. and_then (asset_states codec rows) λ states. ok (state_of row id owner ∷ states)

-- `validateDraftAssets`
unfoldable pub validate_draft_assets : UuidCodec → PostDraft → Uuid → TaskTx (Unit {0})
validate_draft_assets codec draft author_id =
    if length (referenced_asset_ids draft) == 0 then pure tt else do
      rows ← find_assets (texts codec (referenced_asset_ids draft))
      states ← lift_result (asset_states codec rows)
      raise (validate_asset_states draft author_id states)

abbrev pub owner_key : ℕ → Ident → ContentAssetRef → Bool
owner_key owner_type id r = r.owner_type == owner_type && r.owner_id == id

-- The primary key of content_asset_ref
abbrev pub same_ref : ContentAssetRef → ContentAssetRef → Bool
same_ref a r =
    r.owner_type == a.owner_type
    && r.owner_id == a.owner_id
    && r.usage_type == a.usage_type
    && eq_text r.block_id a.block_id
    && r.sort_order == a.sort_order

-- `Insert` of the references
abbrev pub insert_ref : ContentAssetRef → TaskTx (Unit {0})
insert_ref ref = insert_unique Error.driver refs_of put_refs (same_ref ref) λ now. ref

-- `DeleteByOwner`
unfoldable pub delete_refs : ℕ → Ident → TaskTx (Unit {0})
delete_refs owner_type id =
    call Error.driver
      λ now t. (tt, record t { refs = delete_where (owner_key owner_type id) t.refs })

abbrev pub cover_ref : UuidCodec → PostDraft → Cover → ContentAssetRef
cover_ref codec draft cover = record {
  owner_type = 1;
  owner_id = codec.text draft.post_id;
  usage_type = 1;
  block_id = [];
  asset_id = codec.text cover.asset_id;
  sort_order = 0;
  source_version = draft.version;
}

abbrev pub image_ref : UuidCodec → PostDraft → DraftAssetRef → ContentAssetRef
image_ref codec draft ref = record {
  owner_type = 1;
  owner_id = codec.text draft.post_id;
  usage_type = 2;
  block_id = ref.block_id;
  asset_id = codec.text ref.asset_id;
  sort_order = ref.sort_order;
  source_version = draft.version;
}

pub insert_images : UuidCodec → PostDraft → List DraftAssetRef → TaskTx (Unit {0})
insert_images codec draft [] = pure tt
insert_images codec draft (ref ∷ refs) = do
  insert_ref (image_ref codec draft ref)
  insert_images codec draft refs

abbrev pub insert_cover : UuidCodec → PostDraft → Option Cover → TaskTx (Unit {0})
insert_cover codec draft none = pure tt
insert_cover codec draft (some cover) = insert_ref (cover_ref codec draft cover)

-- `replaceDraftRefs`
unfoldable pub replace_draft_refs : UuidCodec → PostDraft → TaskTx (Unit {0})
unfolding insert_images
replace_draft_refs codec draft = do
  delete_refs 1 (codec.text draft.post_id)
  insert_cover codec draft draft.cover
  insert_images codec draft draft.asset_refs

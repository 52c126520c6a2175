-- ===== src/Content/Post/Draft.antt =====
-- internal/domain/postDraft.go, postRevision.go and draft_assets.go: drafts, revisions and the
-- assets that a draft refers to. `CreateNewPostRevision` and the fields that `Publish` sets after
-- it are one definition.
use lets_go.Prelude.{
  ℕ, Bool, true, false, not, ◌&&◌, ◌||◌, Option, none, some, List, [], ◌∷◌, ◌++◌, ltb, ◌==◌,
  if◌then◌else◌, length,
}
use lets_go.Strings.{is_space}
use lets_go.Sql.{Result, ok, err}
use lets_go.Content.Errors.{Text, Sentinel, Error}
use lets_go.Content.Tables.{Time}
use lets_go.Content.Ids.{Uuid, is_zero}

-- `Cover`. Its focus coordinates are carried along only: the bits of each float64.
pub record Cover : Type 0 where
  pub asset_id : Uuid
  pub focus_x : ℕ
  pub focus_y : ℕ
  pub crop_style : Text

pub record DraftAssetRef : Type 0 where
  pub block_id : Text
  pub asset_id : Uuid
  pub sort_order : ℕ

pub record DraftContent : Type 0 where
  pub title : Text
  pub summary : Text
  pub cover : Option Cover
  pub document : Text
  pub document_schema_version : ℕ
  pub plain_text : Text
  pub block_count : ℕ
  pub image_count : ℕ
  pub tag_names : List Text
  pub asset_refs : List DraftAssetRef

pub record PostDraft : Type 0 where
  pub post_id : Uuid
  pub title : Text
  pub summary : Text
  pub cover : Option Cover
  pub document : Text
  pub document_schema_version : ℕ
  pub plain_text : Text
  pub block_count : ℕ
  pub image_count : ℕ
  pub tag_names : List Text
  pub asset_refs : List DraftAssetRef
  pub version : ℕ
  pub created_at : Time
  pub updated_at : Time

pub record PostRevision : Type 0 where
  pub revision_id : Uuid
  pub post_id : Uuid
  pub revision_number : ℕ
  pub source_draft_version : ℕ
  pub document_schema_version : ℕ
  pub plain_text : Text
  pub block_count : ℕ
  pub image_count : ℕ
  pub tag_names : List Text
  pub title : Text
  pub summary : Text
  pub cover : Option Cover
  pub document : Text
  pub published_at : Time

abbrev pub draft_of : Uuid → DraftContent → Time → PostDraft
draft_of id content now = record {
  post_id = id;
  title = content.title;
  summary = content.summary;
  cover = content.cover;
  document = content.document;
  document_schema_version = content.document_schema_version;
  plain_text = content.plain_text;
  block_count = content.block_count;
  image_count = content.image_count;
  tag_names = content.tag_names;
  asset_refs = content.asset_refs;
  version = 1;
  created_at = now;
  updated_at = now;
}

unfoldable pub create_new_post_draft : Uuid → Option DraftContent → Time → Result Error PostDraft
create_new_post_draft id content now =
    if is_zero id then err (Error.sentinel Sentinel.invalid_post_id) else elim content [
      | none ↦ err (Error.sentinel Sentinel.draft_content_invalid)
      | some content ↦ ok (draft_of id content now)
    ]

-- `strings.TrimSpace(s) == ""`
abbrev pub is_blank_text : Text → Bool
is_blank_text [] = true
is_blank_text (r ∷ text) = is_space r && is_blank_text text

-- `ValidateForPublish`: none where it returns nil.
unfoldable pub validate_for_publish : PostDraft → Option Error
validate_for_publish draft =
    if draft.version == 0
    then some (Error.sentinel Sentinel.invalid_version)
    else if elim draft.cover [ none ↦ true | some cover ↦ is_zero cover.asset_id ]
    then some (Error.sentinel Sentinel.draft_content_invalid)
    else if is_blank_text draft.document || draft.document_schema_version == 0
    then some (Error.sentinel Sentinel.draft_content_invalid)
    else none

abbrev pub create_new_post_revision : Uuid → Uuid → ℕ → PostDraft → Time → PostRevision
create_new_post_revision id post_id revision_number draft now = record {
  revision_id = id;
  post_id = post_id;
  revision_number = revision_number;
  source_draft_version = draft.version;
  document_schema_version = draft.document_schema_version;
  plain_text = draft.plain_text;
  block_count = draft.block_count;
  image_count = draft.image_count;
  tag_names = draft.tag_names;
  title = draft.title;
  summary = draft.summary;
  cover = draft.cover;
  document = draft.document;
  published_at = now;
}

-- `seen[id]` and `expected[id]`, of a map to true.
abbrev pub contains : Uuid → List Uuid → Bool
contains id [] = false
contains id (x ∷ xs) = x == id || contains id xs

-- The closure `add`: the ids that have been seen are the ids of the result.
abbrev pub add : List Uuid → Uuid → List Uuid
add ids id = if contains id ids then ids else ids ++ id ∷ []

abbrev pub add_refs : List Uuid → List DraftAssetRef → List Uuid
add_refs ids [] = ids
add_refs ids (ref ∷ refs) = add_refs (add ids ref.asset_id) refs

abbrev pub cover_ids : Option Cover → List Uuid
cover_ids none = []
cover_ids (some cover) = add [] cover.asset_id

-- `ReferencedAssetIDs`
unfoldable pub referenced_asset_ids : PostDraft → List Uuid
referenced_asset_ids draft = add_refs (cover_ids draft.cover) draft.asset_refs

pub record DraftMediaAssetState : Type 0 where
  pub id : Uuid
  pub owner_id : Uuid
  pub status : ℕ
  pub is_deleted : Bool

-- `delete(expected, id)`
abbrev pub without : Uuid → List Uuid → List Uuid
without id [] = []
without id (x ∷ xs) = if x == id then without id xs else x ∷ without id xs

-- The loop over the states, with the ids that are still expected.
abbrev pub check_states : Uuid → List Uuid → List DraftMediaAssetState → Option Error
check_states author_id expected [] =
    if length expected == 0 then none else some (Error.sentinel Sentinel.media_asset_not_found)
check_states author_id expected (state ∷ states) =
    let rest = check_states author_id (without state.id expected) states in
    if not (contains state.id expected) || not (state.owner_id == author_id)
    then some (Error.sentinel Sentinel.media_asset_not_found)
    else if state.is_deleted || ltb state.status 1 || ltb 3 state.status
    then some (Error.sentinel Sentinel.media_asset_not_ready)
    else rest

-- `ValidateAssetStates`: none where it returns nil.
unfoldable pub validate_asset_states : PostDraft → Uuid → List DraftMediaAssetState → Option Error
validate_asset_states draft author_id states =
    let expected = referenced_asset_ids draft in
    if not (length states == length expected)
    then some (Error.sentinel Sentinel.media_asset_not_found)
    else check_states author_id expected states

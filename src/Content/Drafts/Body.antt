-- ===== src/Content/Drafts/Body.antt =====
-- `CreatePost` and `SavePostDraft` of internal/respository/post.go, each with its transaction.
use lets_go.Prelude.{ℕ, ◌+◌, Bool, not, ◌&&◌, ◌||◌, Option, none, some, ◌==◌, if◌then◌else◌, length}
use lets_go.Sql.{Result, ◌>>=◌, ◌>>◌, pure, fail}
use lets_go.Sql.Insert.{insert_unique}
use lets_go.Content.Errors.{Sentinel, Message, Error, errors_is}
use lets_go.Content.Tables.{Time, PostRow}
use lets_go.Content.Delivery.{lift_result}
use lets_go.Content.Ids.{Uuid, UuidCodec, is_zero}
use lets_go.Content.Tasks.{Database, TaskTx, replace_error}
use lets_go.Content.Post.{Post}
use lets_go.Content.Post.Draft.{PostDraft}
use lets_go.Content.Cards.{post_key, find_post}
use lets_go.Content.Removal.{restore_post, read_current}
use lets_go.Content.Drafts.{
  DraftInputs, draft_row, put_posts, posts_of, insert_draft, find_draft_version, find_updated_at,
  update_with_version, validate_draft_assets, replace_draft_refs,
}

-- The version, schema and number of images that a stored draft must have.
abbrev pub is_sound : ℕ → PostDraft → Bool
is_sound version draft =
    draft.version == version
    && draft.document_schema_version == 1
    && draft.image_count == length draft.asset_refs

abbrev pub new_post_row : UuidCodec → Post → Time → PostRow
new_post_row codec post now = record {
  post_id = codec.text post.post_id;
  author_id = codec.text post.author_id;
  lifecycle_status = post.lifecycle_status;
  visibility = post.visibility;
  availability_status = post.availability_status;
  published_revision_id = none;
  revision_sequence = 0;
  post_version = post.version;
  first_published_at = none;
  last_published_at = none;
  created_at = now;
  updated_at = now;
  deleted_at = none;
}

-- `Insert` of the posts
abbrev pub insert_post : UuidCodec → Post → TaskTx (Unit {0})
insert_post codec post =
    insert_unique Error.driver posts_of put_posts (post_key (codec.text post.post_id))
      (new_post_row codec post)

abbrev pub SaveCallback : Type 0
SaveCallback = Post → ℕ → Result Error (Option PostDraft)

module _ (inputs : DraftInputs) where
  abbrev pub read_created : Post → TaskTx Post
  read_created post = do
    stored ← find_post (inputs.codec.text post.post_id)
    pure (record post { created_at = stored.created_at })

  abbrev pub finish_create : Post → PostDraft → TaskTx Post
  finish_create post draft = do replace_draft_refs inputs.codec draft; read_created post

  abbrev pub insert_both : Post → PostDraft → TaskTx Post
  insert_both post draft = do
    insert_post inputs.codec post
    insert_draft inputs draft
    finish_create post draft

  -- The transaction of `CreatePost`. It returns the post that it leaves.
  unfoldable pub create_body : Post → PostDraft → TaskTx Post
  create_body post draft = do
    validate_draft_assets inputs.codec draft post.author_id
    insert_both post draft

  -- What `CreatePost` asks of a post and a draft that are not nil: none where they fit.
  abbrev pub create_fault : Post → PostDraft → Option Error
  create_fault post draft =
      if not (post.post_id == draft.post_id)
      then some (Error.sentinel Sentinel.draft_post_mismatch)
      else if is_zero post.post_id
          || is_zero post.author_id
          || not (post.version == 1)
          || not (post.lifecycle_status == 1)
          || not (is_sound 1 draft)
      then some (Error.sentinel Sentinel.invalid_post)
      else none

  abbrev pub create_checked : Database → Post → PostDraft → Option Error → TaskTx Post
  create_checked db post draft none = db.transact Post (create_body post draft)
  create_checked db post draft (some e) = fail e

  -- `CreatePost`. None is nil.
  unfoldable pub create_post : Database → Option Post → Option PostDraft → TaskTx Post
  unfolding create_body
  create_post db none draft = fail (Error.sentinel Sentinel.invalid_post)
  create_post db (some post) none = fail (Error.sentinel Sentinel.invalid_post)
  create_post db (some post) (some draft) = create_checked db post draft (create_fault post draft)

  unfoldable pub finish_draft : PostDraft → TaskTx PostDraft
  unfolding replace_draft_refs
  finish_draft draft = do
    replace_draft_refs inputs.codec draft
    updated_at ← find_updated_at (inputs.codec.text draft.post_id)
    pure (record draft { updated_at = updated_at })

  abbrev pub finish_updated : PostDraft → ℕ → TaskTx PostDraft
  finish_updated draft n =
      if n == 0 then fail (Error.sentinel Sentinel.draft_version_conflict) else finish_draft draft

  -- From the check of the assets on
  unfoldable pub write_draft : Post → ℕ → PostDraft → TaskTx PostDraft
  unfolding finish_draft validate_draft_assets
  write_draft post version draft = do
    validate_draft_assets inputs.codec draft post.author_id
    n ← update_with_version (draft_row inputs draft 0) version
    finish_updated draft n

  -- The check of the callback's draft, where none is nil
  abbrev pub check_draft : Uuid → Post → ℕ → Option PostDraft → TaskTx PostDraft
  check_draft id post version none = fail (Error.message Message.callback_result)
  check_draft id post version (some draft) =
      if not (draft.post_id == id) || not (is_sound (version + 1) draft)
      then fail (Error.message Message.callback_result)
      else write_draft post version draft

  abbrev pub read_version : Uuid → TaskTx ℕ
  read_version id =
      replace_error Sentinel.not_found (Error.sentinel Sentinel.draft_not_found)
        (find_draft_version (inputs.codec.text id))

  -- From `restorePost` on
  abbrev pub apply_save : Uuid → SaveCallback → PostRow → ℕ → TaskTx PostDraft
  apply_save id apply row version = do
    post ← lift_result (restore_post inputs.codec row)
    draft ← lift_result (apply post version)
    check_draft id post version draft

  abbrev pub save_row : Uuid → SaveCallback → PostRow → TaskTx PostDraft
  save_row id apply row = do version ← read_version id; apply_save id apply row version

  unfoldable pub save_body : Uuid → SaveCallback → TaskTx PostDraft
  unfolding write_draft errors_is
  save_body id apply = do row ← read_current inputs.codec id; save_row id apply row

  -- `SavePostDraft`, with a callback that is not nil, works in memory and leaves the post alone.
  unfoldable pub save_post_draft : Database → Uuid → SaveCallback → TaskTx PostDraft
  unfolding save_body
  save_post_draft db id apply =
      if is_zero id
      then fail (Error.sentinel Sentinel.invalid_post_id)
      else db.transact PostDraft (save_body id apply)

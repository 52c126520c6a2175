-- ===== src/Content/Post.antt =====
-- internal/domain/post.go, post_read.go: the rules of a post, on the row that the repository has
-- loaded and locked. A method that changes its post returns the post it leaves.
pub mod Draft
pub mod Rules
pub mod Life
pub mod Assets
use lets_go.Prelude.{
  ℕ, ◌+◌, Bool, true, false, not, ◌&&◌, ◌||◌, Option, none, some, is_none, List, [], ◌∷◌, ltb, leb,
  ◌==◌, if◌then◌else◌,
}
use lets_go.Sql.{Result, ok, err}
use lets_go.Content.Errors.{Text, Sentinel, Error}
use lets_go.Content.Tables.{Time}
use lets_go.Content.Ids.{Uuid, is_zero}
use Draft.{
  PostDraft, DraftContent, PostRevision, create_new_post_draft, validate_for_publish,
  create_new_post_revision,
}

-- `^uint64(0)`. Every version stays at or below it, so `++` does not wrap.
abbrev pub max_uint64 : ℕ
max_uint64 = 18_446_744_073_709_551_615

-- `LifecycleStatus`: 1 draft, 2 publishing, 3 published, 4 deleted; `Visibility`: 1 public, 2
-- followers, 3 private; availability: 1 normal, 2 pending, 3 hidden.
pub record Post : Type 0 where
  pub post_id : Uuid
  pub author_id : Uuid
  pub lifecycle_status : ℕ
  pub visibility : ℕ
  pub availability_status : ℕ
  pub published_revision_id : Option Uuid
  pub revision_sequence : ℕ
  pub version : ℕ
  pub first_published_at : Option Time
  pub last_published_at : Option Time
  pub created_at : Time
  pub updated_at : Time
  pub deleted_at : Option Time

abbrev pub visibility_valid : ℕ → Bool
visibility_valid v = leb 1 v && leb v 3

abbrev pub draft_post : Uuid → Uuid → ℕ → Time → Post
draft_post id author_id visibility now = record {
  post_id = id;
  author_id = author_id;
  lifecycle_status = 1;
  visibility = visibility;
  availability_status = 1;
  published_revision_id = none;
  revision_sequence = 0;
  version = 1;
  first_published_at = none;
  last_published_at = none;
  created_at = now;
  updated_at = now;
  deleted_at = none;
}

-- `NewPost`. `id` is what `NewPostID` gives: none where the random source fails.
abbrev pub new_post : Option Uuid → Uuid → ℕ → Time → Result Error Post
new_post none author_id visibility now = err Error.driver
new_post (some id) author_id visibility now =
    if not (visibility_valid visibility)
    then err (Error.sentinel Sentinel.invalid_visibility)
    else if is_zero author_id
    then err (Error.sentinel Sentinel.invalid_user_id)
    else ok (draft_post id author_id visibility now)

-- The rules that `Delete`, `ReplaceDraft` and `Publish` begin with: who may change the post, and
-- when. `closed` is what a post between its states answers.
abbrev pub change_fault : Sentinel → Uuid → Post → Option Error
change_fault closed actor_id post =
    if is_zero actor_id
    then some (Error.sentinel Sentinel.invalid_user_id)
    else if not (post.author_id == actor_id)
    then some (Error.sentinel Sentinel.post_operation_not_allowed)
    else if post.lifecycle_status == 4 || not (is_none post.deleted_at)
    then some (Error.sentinel Sentinel.post_already_deleted)
    else if not (post.lifecycle_status == 1) && not (post.lifecycle_status == 3)
    then some (Error.sentinel closed)
    else none

-- The version that the caller has seen must be the stored one. `conflict` is the answer if not.
abbrev pub version_fault : Sentinel → ℕ → ℕ → Option Error
version_fault conflict current expected =
    if expected == 0 || current == max_uint64
    then some (Error.sentinel Sentinel.invalid_version)
    else if not (current == expected)
    then some (Error.sentinel conflict)
    else none

-- `if fault != nil { return fault }`
abbrev pub unless : {A : Type 0} → Option Error → Result Error A → Result Error A
unless none r = r
unless (some e) r = err e

abbrev pub deleted_post : Time → Post → Post
deleted_post now post = record post {
  lifecycle_status = 4;
  version = post.version + 1;
  deleted_at = some now;
  updated_at = now;
}

-- `Delete`. None is a nil post.
abbrev pub delete : Option Post → Uuid → ℕ → Time → Result Error Post
delete none actor_id expected now = err (Error.sentinel Sentinel.post_not_found)
delete (some post) actor_id expected now =
    unless (change_fault Sentinel.post_operation_not_allowed actor_id post) (
      unless (version_fault Sentinel.post_version_conflict post.version expected)
        (ok (deleted_post now post)))

abbrev pub with_version : ℕ → Result Error PostDraft → Result Error PostDraft
with_version v (ok draft) = ok (record draft { version = v })
with_version v (err e) = err e

-- `ReplaceDraft`. None is nil content.
abbrev pub replace_draft : Post → Uuid → ℕ → ℕ → Option DraftContent → Time → Result Error PostDraft
replace_draft post actor_id current expected content now =
    unless (change_fault Sentinel.post_operation_not_allowed actor_id post) (
      unless (version_fault Sentinel.draft_version_conflict current expected)
        (with_version (current + 1) (create_new_post_draft post.post_id content now)))

abbrev pub published_post : Uuid → Time → Post → Post
published_post revision_id now post = record post {
  lifecycle_status = 3;
  published_revision_id = some revision_id;
  revision_sequence = post.revision_sequence + 1;
  version = post.version + 1;
  first_published_at = elim post.first_published_at [ none ↦ some now | some t ↦ some t ];
  last_published_at = some now;
  updated_at = now;
}

-- From `!post.Visibility.Valid()` on, up to the checks of the draft.
abbrev pub state_fault : Post → Option Error
state_fault post =
    if not (visibility_valid post.visibility) || not (post.availability_status == 1)
    then some (Error.sentinel Sentinel.publish_not_allowed)
    else none

abbrev pub draft_fault : Post → PostDraft → Option Error
draft_fault post draft =
    if not (draft.post_id == post.post_id)
    then some (Error.sentinel Sentinel.draft_post_mismatch)
    else validate_for_publish draft

abbrev pub revision_id_fault : Post → Uuid → Option Error
revision_id_fault post revision_id =
    if is_zero revision_id
    then some (Error.sentinel Sentinel.invalid_revision_id)
    else if post.version == max_uint64 || post.revision_sequence == max_uint64
    then some (Error.sentinel Sentinel.invalid_version)
    else none

abbrev pub publish_draft :
    Post → Option PostDraft → Uuid → Time → Result Error (PostRevision × Post)
publish_draft post none revision_id now = err (Error.sentinel Sentinel.draft_not_found)
publish_draft post (some draft) revision_id now = unless (draft_fault post draft) (
    unless (revision_id_fault post revision_id) (
      ok (
        create_new_post_revision revision_id post.post_id (post.revision_sequence + 1) draft now,
        published_post revision_id now post,
      )))

-- `Publish`. None is a nil draft.
abbrev pub publish :
    Post → Uuid → Option PostDraft → Uuid → Time → Result Error (PostRevision × Post)
publish post actor_id draft revision_id now =
    unless (change_fault Sentinel.publish_not_allowed actor_id post)
      (unless (state_fault post) (publish_draft post draft revision_id now))

-- `CurrentPublicRevision`. None is a nil post.
abbrev pub current_public_revision : Option Post → Result Error Uuid
current_public_revision none = err (Error.sentinel Sentinel.post_not_found)
current_public_revision (some post) =
    if post.lifecycle_status == 4 || not (is_none post.deleted_at)
    then err (Error.sentinel Sentinel.post_not_found)
    else if not (post.lifecycle_status == 3)
    then err (Error.sentinel Sentinel.post_not_published)
    else elim post.published_revision_id [
      | none ↦ err (Error.sentinel Sentinel.post_not_published)
      | some revision_id ↦
          if not (post.visibility == 1) || not (post.availability_status == 1)
          then err (Error.sentinel Sentinel.post_not_visible)
          else ok revision_id
    ]

-- `BelongsTo`. None is a nil revision.
abbrev pub belongs_to : Option PostRevision → Uuid → Bool
belongs_to none post_id = false
belongs_to (some revision) post_id = revision.post_id == post_id

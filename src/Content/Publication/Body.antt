-- ===== src/Content/Publication/Body.antt =====
-- The transaction of `PublishPost` (internal/respository/publication.go), and the request that calls
-- it (internal/logic/publish_post_logic.go).
use lets_go.Prelude.{
  ℕ, ◌+◌, ◌%◌, ◌^◌, Bool, not, ◌&&◌, ◌||◌, Option, none, some, holds, ◌==◌, if◌then◌else◌,
}
use lets_go.Sql.{Result, ok, err, ◌>>=◌, ◌>>◌, pure, fail}
use lets_go.Sql.Insert.{insert_unique}
use lets_go.Content.Errors.{Sentinel, Message, Error, errors_is}
use lets_go.Content.Tables.{Ident, Time, PostRow, DraftRow, OutboxEvent}
use lets_go.Content.Delivery.{lift_result}
use lets_go.Content.Ids.{Uuid, is_zero, parse_post_id, parse_user_id}
use lets_go.Content.Tasks.{Database, TaskTx, replace_error}
use lets_go.Content.Post.{Post, publish}
use lets_go.Content.Post.Draft.{PostDraft, PostRevision}
use lets_go.Content.Removal.{restore_post, read_current}
use lets_go.Content.Publication.{
  Publication, PublishInputs, PublicationResult, restore_draft, revision_row, find_draft,
  check_publication_assets, put_outbox, outbox_of,
}
use lets_go.Content.Publication.Tags.{publish_revision_tags}
use lets_go.Content.Publication.Rows.{
  insert_revision, published_row, update_post, copy_refs, insert_revision_cover,
}

-- The revision (none is nil) and the post that the callback leaves.
abbrev pub PublishCallback : Type 0
PublishCallback = Post → PostDraft → Result Error (Option PostRevision × Post)

-- The check of the callback's output: none where it is refused, else both times of publication.
abbrev pub both_times : Option Time → Option Time → Option (Time × Time)
both_times none last = none
both_times (some first) none = none
both_times (some first) (some last) = some (first, last)

module _ (inputs : PublishInputs) (id : Uuid) where
  abbrev pub fits_rows : PostRow → DraftRow → PostRevision → Post → Bool
  fits_rows row draft revision post =
      holds post.published_revision_id revision.revision_id
      && revision.post_id == id
      && post.post_id == id
      && inputs.codec.text post.author_id == row.author_id
      && not (is_zero revision.revision_id)
      && revision.revision_number == (row.revision_sequence + 1) % 2 ^ 64
      && post.revision_sequence == revision.revision_number
      && post.version == (row.post_version + 1) % 2 ^ 64
      && post.lifecycle_status == 3
      && revision.source_draft_version == draft.draft_version

  abbrev pub publication_times : PostRow → DraftRow → PostRevision → Post → Option (Time × Time)
  publication_times row draft revision post =
      if fits_rows row draft revision post
      then both_times post.first_published_at post.last_published_at
      else none

  abbrev pub payload_of : Post → PostRevision → Publication
  payload_of post revision = record {
    post_id = inputs.codec.text id;
    author_id = inputs.codec.text post.author_id;
    revision_id = inputs.codec.text revision.revision_id;
    revision_number = revision.revision_number;
    source_draft_version = revision.source_draft_version;
    post_version = post.version;
    tag_names = revision.tag_names;
  }

  -- The columns that the statement leaves out have their defaults.
  abbrev pub event_row : Uuid → Post → PostRevision → Time → OutboxEvent
  event_row event_id post revision now = record {
    event_id = inputs.codec.text event_id;
    aggregate_id = inputs.codec.text id;
    event_type = inputs.post_published;
    payload_json = inputs.encode (payload_of post revision);
    status = 1;
    attempt_count = 0;
    next_attempt_at = now;
    occurred_at = revision.published_at;
    published_at = none;
  }

  abbrev pub insert_event : Uuid → Post → PostRevision → TaskTx (Unit {0})
  insert_event event_id post revision =
      insert_unique Error.driver outbox_of put_outbox
        (λ (r : OutboxEvent). r.event_id == inputs.codec.text event_id)
        (event_row event_id post revision)

  abbrev pub result_of : Post → PostRevision → PublicationResult
  result_of post revision = record {
    post_id = id;
    revision_id = revision.revision_id;
    revision_number = revision.revision_number;
    post_version = post.version;
    published_at = revision.published_at;
  }

  -- The writes, from the last to the first
  abbrev pub announce : Uuid → Post → PostRevision → TaskTx PublicationResult
  announce event_id post revision = do
    insert_event event_id post revision
    pure (result_of post revision)

  abbrev pub keep_cover : Uuid → Post → PostRevision → TaskTx PublicationResult
  keep_cover event_id post revision = do
    insert_revision_cover inputs.codec revision post.version revision.cover
    announce event_id post revision

  abbrev pub keep_refs : Uuid → Post → PostRevision → TaskTx PublicationResult
  keep_refs event_id post revision = do
    copy_refs (inputs.codec.text id) (inputs.codec.text revision.revision_id) post.version
    keep_cover event_id post revision

  abbrev pub store_post :
      Uuid → PostRow → Post → PostRevision → Time × Time → TaskTx PublicationResult
  store_post event_id row post revision (first, last) = do
    update_post (published_row inputs.codec post revision.revision_id first last row)
    keep_refs event_id post revision

  abbrev pub store_tags :
      Uuid → PostRow → Post → PostRevision → Time × Time → TaskTx PublicationResult
  store_tags event_id row post revision times = do
    publish_revision_tags inputs revision row.author_id
    store_post event_id row post revision times

  abbrev pub store_revision :
      Uuid → PostRow → Post → PostRevision → Time × Time → TaskTx PublicationResult
  store_revision event_id row post revision times = do
    insert_revision (revision_row inputs.codec revision)
    store_tags event_id row post revision times

  unfoldable pub write_publication :
      Uuid → PostRow → Post → PostRevision → Time × Time → TaskTx PublicationResult
  write_publication event_id row post revision times = do
    check_publication_assets inputs.codec (inputs.codec.text id) row.author_id revision
    store_revision event_id row post revision times

  abbrev pub check_times :
      Uuid → PostRow → Post → PostRevision → Option (Time × Time) → TaskTx PublicationResult
  check_times event_id row post revision none = fail (Error.message Message.callback_result)
  check_times event_id row post revision (some times) =
      write_publication event_id row post revision times

  abbrev pub check_publication :
      Uuid → PostRow → DraftRow → Option PostRevision × Post → TaskTx PublicationResult
  check_publication event_id row draft (none, post) = fail (Error.message Message.callback_result)
  check_publication event_id row draft (some revision, post) =
      check_times event_id row post revision (publication_times row draft revision post)

  -- From `restorePost` on
  abbrev pub apply_publish : PublishCallback → Uuid → PostRow → DraftRow → TaskTx PublicationResult
  apply_publish apply event_id row draft_row = do
    post ← lift_result (restore_post inputs.codec row)
    draft ← lift_result (restore_draft inputs draft_row)
    output ← lift_result (apply post draft)
    check_publication event_id row draft_row output

  abbrev pub read_draft : TaskTx DraftRow
  read_draft =
      replace_error Sentinel.not_found (Error.sentinel Sentinel.draft_not_found)
        (find_draft (inputs.codec.text id))

  abbrev pub publish_row : PublishCallback → Uuid → PostRow → TaskTx PublicationResult
  publish_row apply event_id row = do draft ← read_draft; apply_publish apply event_id row draft

  unfoldable pub publish_body : PublishCallback → Uuid → TaskTx PublicationResult
  unfolding write_publication errors_is
  publish_body apply event_id = do
    row ← read_current inputs.codec id
    publish_row apply event_id row

  abbrev pub publish_event : Database → PublishCallback → Option Uuid → TaskTx PublicationResult
  publish_event db apply none = fail Error.driver
  publish_event db apply (some event_id) =
      db.transact PublicationResult (publish_body apply event_id)

  -- `PublishPost`, with a callback that is not nil and works in memory only.
  unfoldable pub publish_post : Database → PublishCallback → TaskTx PublicationResult
  unfolding publish_body
  publish_post db apply =
      if is_zero id
      then fail (Error.sentinel Sentinel.invalid_post_id)
      else publish_event db apply inputs.event_id

abbrev pub with_revision :
    Result Error (PostRevision × Post) → Result Error (Option PostRevision × Post)
with_revision (ok (revision, post)) = ok (some revision, post)
with_revision (err e) = err e

-- The callback of `PublishPostLogic.PublishPost`
abbrev pub publish_callback : Uuid → ℕ → ℕ → Uuid → Time → PublishCallback
publish_callback actor_id expected_post expected_draft revision_id now post draft =
    if not (post.author_id == actor_id)
    then err (Error.sentinel Sentinel.post_operation_not_allowed)
    else if not (post.version == expected_post)
    then err (Error.sentinel Sentinel.post_version_conflict)
    else if not (draft.version == expected_draft)
    then err (Error.sentinel Sentinel.draft_version_conflict)
    else with_revision (publish post actor_id (some draft) revision_id now)

abbrev pub publish_named :
    PublishInputs → Database → Time → Option Uuid → ℕ → ℕ → Uuid → Uuid → TaskTx PublicationResult
publish_named inputs db now none expected_post expected_draft actor_id post_id = fail Error.driver
publish_named inputs db now (some revision_id) expected_post expected_draft actor_id post_id =
    publish_post inputs post_id db
      (publish_callback actor_id expected_post expected_draft revision_id now)

-- `PublishPostLogic.PublishPost`, from the user's identity on. `revision_id` is what `NewRevisionID`
-- gives. The notification after it is a wake-up only.
abbrev pub publish_request :
    PublishInputs → Database → Time → Option Uuid → Ident → Ident → ℕ → ℕ → TaskTx PublicationResult
publish_request inputs db now revision_id user post expected_post expected_draft = do
  actor_id ← lift_result (parse_user_id inputs.codec user)
  post_id ← lift_result (parse_post_id inputs.codec post)
  if expected_post == 0 || expected_draft == 0
      then fail (Error.sentinel Sentinel.invalid_version)
      else publish_named inputs db now revision_id expected_post expected_draft actor_id post_id

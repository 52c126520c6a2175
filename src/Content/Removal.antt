-- ===== src/Content/Removal.antt =====
-- The deletion of a post: `DeletePost` of internal/respository/post.go with the statements of
-- internal/model/post_model.go, `restorePost` of publication_mapping.go, and the request in
-- internal/logic/delete_post_logic.go.
pub mod Outcome
use lets_go.Prelude.{
  ℕ, suc, ◌+◌, Bool, true, false, not, ◌&&◌, ◌||◌, Option, none, some, is_none, List, ◌==◌,
  if◌then◌else◌,
}
use lets_go.Sql.{Session, Result, ok, err, ◌>>=◌, ◌>>◌, pure, fail, call}
use lets_go.Sql.Table.{update_where, delete_where, affected}
use lets_go.Content.Errors.{error_driver, Sentinel, Message, Error, errors_is}
use lets_go.Content.Tables.{Ident, Time, PostRow, PostCard, Tables}
use lets_go.Content.Delivery.{lift_result}
use lets_go.Content.Ids.{Uuid, UuidCodec, is_zero, parse_post_id, parse_user_id, parse_revision_id}
use lets_go.Content.Tasks.{Database, TaskTx, replace_error}
use lets_go.Content.Post.{Post, delete}
use lets_go.Content.Cards.{card_key, find_post, raise}

pub record PostDeletionResult : Type 0 where
  pub post_id : Uuid
  pub post_version : ℕ
  pub deleted_at : Time

abbrev pub restored : PostRow → Uuid → Uuid → Option Uuid → Post
restored row id author revision_id = record {
  post_id = id;
  author_id = author;
  lifecycle_status = row.lifecycle_status;
  visibility = row.visibility;
  availability_status = row.availability_status;
  published_revision_id = revision_id;
  revision_sequence = row.revision_sequence;
  version = row.post_version;
  first_published_at = row.first_published_at;
  last_published_at = row.last_published_at;
  created_at = row.created_at;
  updated_at = row.updated_at;
  deleted_at = row.deleted_at;
}

abbrev pub and_then : {A B : Type 0} → Result Error A → (A → Result Error B) → Result Error B
and_then (ok a) f = f a
and_then (err e) f = err e

abbrev pub restore_revision : UuidCodec → Option Ident → Result Error (Option Uuid)
restore_revision codec none = ok none
restore_revision codec (some text) = and_then (parse_revision_id codec text) λ id. ok (some id)

-- `restorePost`
abbrev pub restore_post : UuidCodec → PostRow → Result Error Post
restore_post codec row = and_then (parse_post_id codec row.post_id) λ id.
    and_then (parse_user_id codec row.author_id) λ author.
      and_then (restore_revision codec row.published_revision_id)
        λ revision_id. ok (restored row id author revision_id)

-- The WHERE clause of `UpdateForDelete`.
abbrev pub may_delete : Ident → Ident → ℕ → PostRow → Bool
may_delete author_id id expected r =
    r.post_id == id
    && (r.author_id == author_id
        && (r.post_version == expected && (not (r.lifecycle_status == 4) && is_none r.deleted_at)))

abbrev pub deleted_row : Time → PostRow → PostRow
deleted_row at_time r = record r {
  lifecycle_status = 4;
  deleted_at = some at_time;
  updated_at = at_time;
  post_version = r.post_version + 1;
}

unfoldable pub update_for_delete : Ident → Ident → ℕ → Time → TaskTx ℕ
update_for_delete author_id id expected at_time = call Error.driver λ now t. (
  affected (may_delete author_id id expected) t.posts,
  record t {
    posts = update_where (may_delete author_id id expected) (deleted_row at_time) t.posts;
  },
)

-- `Delete` of the cards
unfoldable pub delete_card : Ident → TaskTx (Unit {0})
delete_card id =
    call Error.driver λ now t. (tt, record t { cards = delete_where (card_key id) t.cards })

-- The check of what the callback left: none where it is a deletion.
abbrev pub deletion_time : UuidCodec → Uuid → PostRow → Post → Option Time
deletion_time codec id current post =
    if not (post.post_id == id)
      || not (codec.text post.author_id == current.author_id)
      || not (post.version == current.post_version + 1)
      || not (post.lifecycle_status == 4)
    then none
    else post.deleted_at

module _ (codec : UuidCodec) (id : Uuid) where
  abbrev pub remove_row : PostRow → Post → Time → TaskTx PostDeletionResult
  remove_row current post at_time = do
    n ← update_for_delete current.author_id (codec.text id) current.post_version at_time
    if n == 0 then fail (Error.sentinel Sentinel.post_version_conflict) else pure tt
    delete_card (codec.text id)
    pure (record { post_id = id; post_version = post.version; deleted_at = at_time })

  abbrev pub check_removal : PostRow → Post → Option Time → TaskTx PostDeletionResult
  check_removal current post none = fail (Error.message Message.callback_result)
  check_removal current post (some at_time) = remove_row current post at_time

  abbrev pub after_callback : PostRow → Result Error Post → TaskTx PostDeletionResult
  after_callback current (err e) = fail e
  after_callback current (ok post) =
      check_removal current post (deletion_time codec id current post)

  abbrev pub apply_removal :
      (Post → Result Error Post) → PostRow → Result Error Post → TaskTx PostDeletionResult
  apply_removal apply current (err e) = fail e
  apply_removal apply current (ok post) = after_callback current (apply post)

  abbrev pub read_current : TaskTx PostRow
  read_current =
      replace_error Sentinel.not_found (Error.sentinel Sentinel.post_not_found)
        (find_post (codec.text id))

  pub removal_body : (Post → Result Error Post) → TaskTx PostDeletionResult
  unfolding errors_is
  removal_body apply = do
    current ← read_current
    apply_removal apply current (restore_post codec current)

  -- `DeletePost`, with a callback that is not nil and does in-memory work only: it gives the post
  -- that it leaves.
  unfoldable pub delete_post : Database → (Post → Result Error Post) → TaskTx PostDeletionResult
  unfolding removal_body
  delete_post db apply =
      if is_zero id
      then fail (Error.sentinel Sentinel.invalid_post_id)
      else db.transact PostDeletionResult (removal_body apply)

-- `DeletePostLogic.DeletePost`, from the user's identity on.
abbrev pub delete_request :
    UuidCodec → Database → Time → Ident → Ident → ℕ → TaskTx PostDeletionResult
delete_request codec db now user post expected = do
  actor_id ← lift_result (parse_user_id codec user)
  post_id ← lift_result (parse_post_id codec post)
  if expected == 0 then fail (Error.sentinel Sentinel.invalid_version) else pure tt
  delete_post codec post_id db (λ p. delete (some p) actor_id expected now)

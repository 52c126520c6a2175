-- ===== src/Content/Examples/Removals.antt =====
-- The theorems on deletions at one post.
use lets_go.Prelude.{◌≡◌, ◌≢◌, refl, some, [], ◌∷◌}
use lets_go.Sql.{Session, Result, ok, err}
use lets_go.Sql.Outcome.{Holds, Outcome}
use lets_go.Sql.Plain.{plain}
use lets_go.Content.Errors.{error_driver, Error}
use lets_go.Content.Tables.{Tables}
use lets_go.Content.Tasks.{Database}
use lets_go.Content.Post.{Post, delete}
use lets_go.Content.Cards.{handle_card}
use lets_go.Content.Cards.Handle.{HandlerError, Applied}
use lets_go.Content.Removal.{PostDeletionResult, deleted_row, delete_post}
use lets_go.Content.Removal.Outcome.{
  DeletionError, Removed, delete_post-Outcome, handle_card-Removed,
}
use lets_go.Content.Examples.Posts.{inputs, task, database}

abbrev plain_database : Database
plain_database = plain Tables Error Error.driver

-- Post 1, at version 2, and its card.
abbrev carded : Session Tables
carded = record database {
  tables = record database.tables {
    cards =
        record {
          post_id = 1;
          revision_id = 30;
          author_id = 7;
          title = 84 ∷ [];
          summary = [];
          cover_asset_id = some 20;
          visibility = 1;
          availability_status = 1;
          published_at = 120;
          source_post_version = 2;
        }
        ∷ [];
  };
}

abbrev by_author : Post → Result Error Post
by_author p = delete (some p) 7 2 300

delete_post-Outcome_example :
    Outcome
      (λ result t. Removed inputs.codec 1 7 2 300 carded.tables t result)
      (DeletionError inputs.codec 1 7 2 300 carded.tables)
      carded.tables
      (delete_post inputs.codec 1 plain_database by_author carded)
delete_post-Outcome_example = delete_post-Outcome inputs.codec 1 7 2 300 plain_database carded

abbrev answer : PostDeletionResult
answer = record { post_id = 1; post_version = 3; deleted_at = 300 }

abbrev after : Session Tables
after = (delete_post inputs.codec 1 plain_database by_author carded).1

deletes : delete_post inputs.codec 1 plain_database by_author carded ≡ (ok answer, after)
unfolding delete_post lets_go.Content.Cards.find_post lets_go.Sql.call
    lets_go.Content.Removal.update_for_delete lets_go.Content.Removal.delete_card
deletes = refl

removed : Removed inputs.codec 1 7 2 300 carded.tables after.tables answer
removed = rw deletes at (delete_post-Outcome inputs.codec 1 7 2 300 plain_database carded)

handle_card-Removed_example :
    Holds
      (λ _ s'. (a : Applied inputs task after.tables s'.tables) × (a.publication.post_id ≢ 1))
      HandlerError
      (handle_card inputs task after)
handle_card-Removed_example =
    handle_card-Removed inputs 1 7 2 300 carded.tables answer task after removed

-- ===== src/Content/Examples/Publications.antt =====
-- The theorems on publications at the saved draft of one post.
use lets_go.Prelude.{ℕ, ◌+◌, ◌≡◌, refl, Option, none, some, [], ◌∷◌, ◌++◌, arith}
use lets_go.Sql.{Session, Result, ok, err}
use lets_go.Sql.Outcome.{Holds, Outcome}
use lets_go.Content.Errors.{error_driver, Text}
use lets_go.Content.Tables.{ContentAssetRef, Tag, PostRevisionTag, OutboxEvent, Tables}
use lets_go.Content.Tasks.{TaskContext}
use lets_go.Content.Cards.{PostPublishedPayload, handle_card}
use lets_go.Content.Cards.Newer.{HasCard}
use lets_go.Content.Cards.Sure.{IsDriver}
use lets_go.Content.Publication.{Publication, PublishInputs, PublicationResult}
use lets_go.Content.Publication.Body.{PublishCallback, publish_callback, publish_post}
use lets_go.Content.Publication.Outcome.{Published, publish_post-Outcome}
use lets_go.Content.Publication.Shown.{card_inputs, handle_card-Published}
use lets_go.Content.Examples.Drafts.{codec, plain_database, saved}

abbrev encode : Publication → Text
encode q = q.post_id ∷ q.author_id ∷ q.revision_id ∷ q.post_version ∷ []

abbrev decode : Text → Option PostPublishedPayload
decode (post_id ∷ author_id ∷ revision_id ∷ post_version ∷ []) = some (record {
  schema_version = 1;
  post_id = post_id;
  author_id = author_id;
  revision_id = revision_id;
  post_version = post_version;
})
decode text = none

-- The event is 40, new tags are 50 and on, and the draft names the tags `go` and `db`.
abbrev inputs : PublishInputs
inputs = record {
  codec = codec;
  event_id = some 40;
  tag_ids = λ i. some (50 + i);
  decode_tags = λ text. some ((103 ∷ 111 ∷ []) ∷ (100 ∷ 98 ∷ []) ∷ []);
  encode = encode;
  nfkc = λ text. text;
  fold = λ text. text;
  post_published = 5;
}

abbrev callback : PublishCallback
callback = publish_callback 7 1 2 30 300

abbrev answer : PublicationResult
answer = record {
  post_id = 1;
  revision_id = 30;
  revision_number = 1;
  post_version = 2;
  published_at = 300;
}

abbrev event : OutboxEvent
event = record {
  event_id = 41;
  aggregate_id = 2;
  event_type = 5;
  payload_json = 2 ∷ 8 ∷ 31 ∷ 2 ∷ [];
  status = 1;
  attempt_count = 0;
  next_attempt_at = 200;
  occurred_at = 300;
  published_at = none;
}

abbrev tag : ℕ → Text → Tag
tag id name = record {
  tag_id = id;
  normalized_name = name;
  display_name = name;
  status = 1;
  created_by = 8;
}

abbrev tagged : ℕ → Text → ℕ → PostRevisionTag
tagged id name i = record {
  revision_id = 31;
  tag_id = id;
  tag_name_snapshot = name;
  sort_order = i;
}

abbrev shown : ℕ → Text → ℕ → ℕ → ContentAssetRef
shown usage_type block_id asset_id i = record {
  owner_type = 2;
  owner_id = 31;
  usage_type = usage_type;
  block_id = block_id;
  asset_id = asset_id;
  sort_order = i;
  source_version = 2;
}

-- The tags were made in the order of their names, and are numbered in the order of the draft.
abbrev after : Session Tables
after = record saved {
  tables = record saved.tables {
    posts =
        record {
          post_id = 2;
          author_id = 8;
          lifecycle_status = 3;
          visibility = 1;
          availability_status = 1;
          published_revision_id = some 31;
          revision_sequence = 1;
          post_version = 2;
          first_published_at = some 300;
          last_published_at = some 300;
          created_at = 200;
          updated_at = 200;
          deleted_at = none;
        }
        ∷ [];
    revisions =
        record {
          revision_id = 31;
          post_id = 2;
          revision_number = 1;
          source_draft_version = 2;
          title = 84 ∷ [];
          summary = [];
          cover_asset_id = some 21;
          cover_focus_x = some 0;
          cover_focus_y = some 0;
          cover_crop_style = [];
          document_schema_version = 1;
          document_json = 123 ∷ 125 ∷ [];
          plain_text = [];
          block_count = 2;
          image_count = 2;
          published_at = 300;
        }
        ∷ [];
    outbox = event ∷ [];
    tags = tag 51 (100 ∷ 98 ∷ []) ∷ tag 52 (103 ∷ 111 ∷ []) ∷ [];
    revision_tags = tagged 52 (103 ∷ 111 ∷ []) 0 ∷ tagged 51 (100 ∷ 98 ∷ []) 1 ∷ [];
    refs =
        saved.tables.refs ++ shown 2 (98 ∷ []) 22 0 ∷ shown 2 (99 ∷ []) 21 1 ∷ shown 1 [] 21 0 ∷ [];
  };
}

publishes : publish_post inputs 1 plain_database callback saved ≡ (ok answer, after)
unfolding publish_post lets_go.Content.Cards.find_post lets_go.Sql.call
    lets_go.Content.Drafts.Body.save_post_draft lets_go.Content.Drafts.Body.create_post
    lets_go.Content.Post.Draft.referenced_asset_ids lets_go.Content.Drafts.find_assets
    lets_go.Content.Post.Draft.validate_asset_states lets_go.Sql.Insert.insert_unique
    lets_go.Content.Drafts.delete_refs lets_go.Content.Drafts.find_draft_version
    lets_go.Content.Drafts.update_with_version lets_go.Content.Drafts.find_updated_at
    lets_go.Content.Drafts.validate_draft_assets lets_go.Content.Drafts.replace_draft_refs
    lets_go.Content.Publication.find_draft lets_go.Content.Post.Draft.validate_for_publish
    lets_go.Content.Publication.find_image_refs lets_go.Content.Publication.Tags.find_or_create
    lets_go.Content.Publication.Rows.update_post lets_go.Content.Publication.Rows.copy_refs
    lets_go.Content.Tags.prepare_tag_names lets_go.Content.Publication.check_publication_assets
    lets_go.Content.Publication.Tags.insert_tags lets_go.Content.Publication.Tags.resolve_tags
    lets_go.Content.Publication.Tags.publish_revision_tags
publishes = refl

committed : Published inputs 1 callback 40 saved.tables after.tables answer
committed =
    let (event_id, same, p) =
      rw publishes at (publish_post-Outcome inputs 1 callback plain_database saved) in
    let named : event_id ≡ 40 = cc in rw named at p

-- The task that the event becomes for its consumer
abbrev task : TaskContext
task = record {
  event_id = 41;
  consumer_name = 10;
  event_type = 5;
  schema_version = 1;
  payload = event.payload_json;
}

handle_card-Published_example :
    Holds
      (λ _ s'. HasCard 2 2 s'.tables)
      IsDriver
      (handle_card (card_inputs inputs decode) task after)
handle_card-Published_example =
    handle_card-Published inputs 1 7 1 2 30 300 40 saved.tables after.tables answer committed
      (λ e. ground arith) (λ u e. ground arith) decode (λ u e. refl) (λ q. refl) event refl task
      (refl, refl, refl) after refl

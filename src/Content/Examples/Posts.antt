-- ===== src/Content/Examples/Posts.antt =====
-- The theorems on posts and cards at small posts.
use lets_go.Prelude.{ℕ, ◌≤◌, ◌≡◌, ◌≢◌, refl, ◌↔◌, false, none, some, [], ◌∷◌, All}
use lets_go.Sql.{Session, Result, ok, err}
use lets_go.Sql.Outcome.{Holds}
use lets_go.Content.Errors.{Sentinel, Error}
use lets_go.Content.Tables.{Tables}
use lets_go.Content.Ids.{Uuid}
use lets_go.Content.Post.{
  Post, new_post, draft_post, delete, deleted_post, publish, published_post, replace_draft,
  current_public_revision, belongs_to,
}
use lets_go.Content.Post.Draft.{
  Cover, DraftAssetRef, DraftContent, PostDraft, PostRevision, DraftMediaAssetState, draft_of,
  create_new_post_revision, contains, referenced_asset_ids, validate_asset_states,
}
use lets_go.Content.Post.Rules.{MayChange, Publishable, publish-Publishable}
use lets_go.Content.Post.Life.{
  IsValidPost, Action, act, Progress, born, acted, act-Progress, Life-IsValidPost, delete_final,
}
use lets_go.Content.Post.Assets.{
  count, states_of, shows, Usable, referenced_asset_ids-shows, validate_asset_states-Usable,
}
use lets_go.Content.Tasks.{TaskContext}
use lets_go.Content.History.{IsApart}
use lets_go.Content.Cards.{CardInputs, PostPublishedPayload, handle_card}
use lets_go.Content.Cards.Handle.{HandlerError, Applied, handle_card-Holds}
use lets_go.Content.Cards.Apart.{handle_card-IsApart}
use lets_go.Content.Cards.Newer.{NoOlder, HasCard, handle_card-NoOlder}

-- Author 7 has made post 1 at time 100.
abbrev pub fresh : Post
fresh = draft_post 1 7 1 100

abbrev pub content : DraftContent
content = record {
  title = 84 ∷ [];
  summary = [];
  cover = some (record { asset_id = 20; focus_x = 0; focus_y = 0; crop_style = [] });
  document = 123 ∷ 125 ∷ [];
  document_schema_version = 1;
  plain_text = [];
  block_count = 2;
  image_count = 2;
  tag_names = [];
  asset_refs =
      record { block_id = 98 ∷ []; asset_id = 21; sort_order = 0 }
      ∷ record { block_id = 99 ∷ []; asset_id = 20; sort_order = 1 }
      ∷ [];
}

abbrev pub draft : PostDraft
draft = draft_of 1 content 110

abbrev revision : PostRevision
revision = create_new_post_revision 30 1 1 draft 120

abbrev published : Post
published = published_post 30 120 fresh

abbrev made : PostRevision × Post
made = (revision, published)

abbrev removed : Post
removed = deleted_post 130 published

publishing : publish fresh 7 (some draft) 30 120 ≡ ok (revision, published)
unfolding lets_go.Content.Post.Draft.validate_for_publish
publishing = refl

abbrev publication : Action
publication = Action.publishes 7 (some draft) 30

published_life : act publication 120 fresh ≡ ok published
unfolding lets_go.Content.Post.Draft.validate_for_publish
published_life = refl

publish-Publishable_example :
    (publish fresh 7 (some draft) 30 120 ≡ ok made)
    ↔ (MayChange 7 fresh × Publishable fresh draft 30 × (made ≡ made))
publish-Publishable_example = publish-Publishable fresh 7 draft 30 120 made

act-Progress_example : Progress fresh published
act-Progress_example = act-Progress publication 120 fresh published published_life

Life-IsValidPost_example : IsValidPost published
Life-IsValidPost_example =
    Life-IsValidPost published
      (acted publication 120 fresh published (born (some 1) 7 1 100 fresh refl) published_life)

delete_final_example :
    ((action : Action) (later : ℕ) (x : Post) → act action later removed ≢ ok x)
    × ((actor : Uuid) (current version : ℕ) (content : DraftContent) (later : ℕ) (x : PostDraft)
        → replace_draft removed actor current version (some content) later ≢ ok x)
    × (current_public_revision (some removed) ≡ err (Error.sentinel Sentinel.post_not_found))
delete_final_example = delete_final published 7 2 130 removed refl

referenced_asset_ids-shows_example :
    (count 20 (referenced_asset_ids draft) ≤ 1)
    × (contains 20 (referenced_asset_ids draft) ≡ shows draft 20)
referenced_asset_ids-shows_example = referenced_asset_ids-shows draft 20

abbrev ready : Uuid → DraftMediaAssetState
ready id = record { id = id; owner_id = 7; status = 3; is_deleted = false }

validate_asset_states-Usable_example :
    (validate_asset_states draft 7 (ready 21 ∷ ready 20 ∷ []) ≡ none) ↔ (
      ((id : Uuid)
        → states_of id (ready 21 ∷ ready 20 ∷ []) ≡ count id (referenced_asset_ids draft))
      × All (Usable 7) (ready 21 ∷ ready 20 ∷ []))
validate_asset_states-Usable_example =
    validate_asset_states-Usable draft 7 (ready 21 ∷ ready 20 ∷ [])

-- A database where post 1 is published with revision 30, and the task that tells of it.
abbrev pub inputs : CardInputs
inputs = record {
  codec = record { parse = λ value. some value; text = λ id. id };
  decode = λ text. some (record {
    schema_version = 1;
    post_id = 1;
    author_id = 7;
    revision_id = 30;
    post_version = 2;
  });
  post_published = 5;
}

abbrev pub task : TaskContext
task = record { event_id = 2; consumer_name = 10; event_type = 5; schema_version = 1; payload = [] }

abbrev pub database : Session Tables
database = record {
  tables = record {
    deliveries = [];
    outbox = [];
    posts =
        record {
          post_id = 1;
          author_id = 7;
          lifecycle_status = 3;
          visibility = 1;
          availability_status = 1;
          published_revision_id = some 30;
          revision_sequence = 1;
          post_version = 2;
          first_published_at = some 120;
          last_published_at = some 120;
          created_at = 100;
          updated_at = 120;
          deleted_at = none;
        }
        ∷ [];
    revisions =
        record {
          revision_id = 30;
          post_id = 1;
          revision_number = 1;
          source_draft_version = 1;
          title = 84 ∷ [];
          summary = [];
          cover_asset_id = some 20;
          cover_focus_x = some 0;
          cover_focus_y = some 0;
          cover_crop_style = [];
          document_schema_version = 1;
          document_json = 123 ∷ 125 ∷ [];
          plain_text = [];
          block_count = 0;
          image_count = 0;
          published_at = 120;
        }
        ∷ [];
    cards = [];
    drafts = [];
    assets = [];
    refs = [];
    tags = [];
    revision_tags = [];
  };
  now = 200;
  script = [];
}

handle_card-Holds_example :
    Holds
      (λ _ s'. Applied inputs task database.tables s'.tables)
      HandlerError
      (handle_card inputs task database)
handle_card-Holds_example = handle_card-Holds inputs task database

handle_card-NoOlder_example :
    Holds
      (λ _ s'.
        NoOlder database.tables s'.tables
        × ((a : Applied inputs task database.tables s'.tables) × HasCard
              (inputs.codec.text a.publication.post_id)
              a.publication.post_version
              s'.tables))
      HandlerError
      (handle_card inputs task database)
handle_card-NoOlder_example = handle_card-NoOlder inputs task database

handle_card-IsApart_example : IsApart (handle_card inputs)
handle_card-IsApart_example = handle_card-IsApart inputs

-- The run writes the card.
card_written : (handle_card inputs task database).0 ≡ ok tt
unfolding handle_card lets_go.Content.Cards.apply_publication lets_go.Content.Cards.find_post
    lets_go.Sql.call lets_go.Content.Cards.find_card_snapshot lets_go.Content.Cards.find_card
    lets_go.Content.Cards.insert_card
card_written = refl

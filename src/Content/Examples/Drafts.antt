-- ===== src/Content/Examples/Drafts.antt =====
-- The theorems on drafts and tags at the first draft of one post.
use lets_go.Prelude.{
  ℕ, zero, suc, ◌+◌, ◌≤◌, ◌≡◌, refl, Option, none, some, List, [], ◌∷◌, All, length,
}
use lets_go.Sql.{Session, Result, ok, err}
use lets_go.Sql.Outcome.{Outcome}
use lets_go.Sql.Plain.{plain}
use lets_go.Content.Errors.{error_driver, Text, Error}
use lets_go.Content.Tables.{Ident, ContentAssetRef, Tables}
use lets_go.Content.Ids.{Uuid, UuidCodec}
use lets_go.Content.Tasks.{Database}
use lets_go.Content.Tags.{TagName, prepare_tag_names}
use lets_go.Content.Tags.Prepared.{IsValidName, Prepared, prepare_tag_names-Prepared}
use lets_go.Content.Post.{Post}
use lets_go.Content.Post.Draft.{PostDraft}
use lets_go.Content.Drafts.{DraftInputs}
use lets_go.Content.Drafts.Body.{SaveCallback, create_post, save_post_draft}
use lets_go.Content.Drafts.Create.{CreateError, Created, create_post-Outcome}
use lets_go.Content.Drafts.Save.{SaveError, Saved, save_post_draft-Outcome}
use lets_go.Content.Examples.Posts.{database, draft, fresh}

-- The text of a UUID is its successor: 0 spells none.
abbrev parse : Ident → Option Uuid
parse zero = none
parse (suc n) = some n

abbrev pub codec : UuidCodec
codec = record { parse = parse; text = λ u. suc u }

abbrev inputs : DraftInputs
inputs = record { codec = codec; encode_tags = λ names. [] }

abbrev pub plain_database : Database
plain_database = plain Tables Error Error.driver

-- The author's two assets, and nothing else.
abbrev start : Session Tables
start = record database {
  tables = record database.tables {
    posts = [];
    revisions = [];
    assets =
        record { asset_id = 21; owner_id = 8; status = 3; deleted_at = none }
        ∷ record { asset_id = 22; owner_id = 8; status = 3; deleted_at = none }
        ∷ [];
  };
}

create_post-Outcome_example :
    Outcome
      (λ result t. Created inputs fresh draft start.tables t result)
      (CreateError inputs fresh draft start.tables)
      start.tables
      (create_post inputs plain_database (some fresh) (some draft) start)
create_post-Outcome_example = create_post-Outcome inputs fresh draft plain_database start

abbrev created : Session Tables
created = (create_post inputs plain_database (some fresh) (some draft) start).1

-- The run commits.
creates :
    create_post inputs plain_database (some fresh) (some draft) start
    ≡ (ok (record fresh { created_at = 200 }), created)
unfolding create_post lets_go.Content.Cards.find_post lets_go.Sql.call
    lets_go.Content.Drafts.find_assets lets_go.Content.Drafts.validate_draft_assets
    lets_go.Content.Drafts.replace_draft_refs lets_go.Content.Drafts.delete_refs
    lets_go.Sql.Insert.insert_unique lets_go.Content.Post.Draft.referenced_asset_ids
    lets_go.Content.Post.Draft.validate_asset_states
creates = refl

-- The author saves the same content again.
abbrev again : SaveCallback
again post version = ok (some (record draft { version = version + 1 }))

save_post_draft-Outcome_example :
    Outcome
      (λ result t. Saved inputs 1 again created.tables t result)
      (SaveError inputs 1 again created.tables)
      created.tables
      (save_post_draft inputs plain_database 1 again created)
save_post_draft-Outcome_example = save_post_draft-Outcome inputs 1 again plain_database created

abbrev ref : ℕ → Text → ℕ → ℕ → ContentAssetRef
ref usage_type block_id asset_id i = record {
  owner_type = 1;
  owner_id = 2;
  usage_type = usage_type;
  block_id = block_id;
  asset_id = asset_id;
  sort_order = i;
  source_version = 2;
}

abbrev pub saved : Session Tables
saved = record start {
  tables = record start.tables {
    posts =
        record {
          post_id = 2;
          author_id = 8;
          lifecycle_status = 1;
          visibility = 1;
          availability_status = 1;
          published_revision_id = none;
          revision_sequence = 0;
          post_version = 1;
          first_published_at = none;
          last_published_at = none;
          created_at = 200;
          updated_at = 200;
          deleted_at = none;
        }
        ∷ [];
    drafts =
        record {
          post_id = 2;
          draft_version = 2;
          title = 84 ∷ [];
          summary = [];
          cover_asset_id = some 21;
          cover_focus_x = some 0;
          cover_focus_y = some 0;
          cover_crop_style = [];
          document_schema_version = 1;
          document_json = 123 ∷ 125 ∷ [];
          tag_names_json = [];
          plain_text = [];
          block_count = 2;
          image_count = 2;
          created_at = 200;
          updated_at = 200;
        }
        ∷ [];
    refs = ref 1 [] 21 0 ∷ ref 2 (98 ∷ []) 22 0 ∷ ref 2 (99 ∷ []) 21 1 ∷ [];
  };
}

saves :
    save_post_draft inputs plain_database 1 again created
    ≡ (ok (record draft { version = 2; updated_at = 200 }), saved)
unfolding save_post_draft create_post lets_go.Content.Cards.find_post lets_go.Sql.call
    lets_go.Content.Drafts.find_draft_version lets_go.Content.Drafts.find_updated_at
    lets_go.Content.Drafts.update_with_version lets_go.Content.Drafts.find_assets
    lets_go.Content.Drafts.validate_draft_assets lets_go.Content.Drafts.replace_draft_refs
    lets_go.Content.Drafts.delete_refs lets_go.Sql.Insert.insert_unique
    lets_go.Content.Post.Draft.referenced_asset_ids lets_go.Content.Post.Draft.validate_asset_states
saves = refl

-- `go`, once more as ` #go `, and `db`, where nothing is to be normalised or folded.
abbrev same : Text → Text
same text = text

abbrev names : List Text
names = (103 ∷ 111 ∷ []) ∷ (32 ∷ 35 ∷ 103 ∷ 111 ∷ 32 ∷ []) ∷ (100 ∷ 98 ∷ []) ∷ []

prepare_tag_names-Prepared_example :
    ((tags : List TagName)
      → prepare_tag_names same same names ≡ ok tags
      → (length names ≤ 10) × Prepared same same [] names tags)
    × (length names ≤ 10
        → All (IsValidName same same) names
        → (tags : List TagName) × (prepare_tag_names same same names ≡ ok tags))
prepare_tag_names-Prepared_example = prepare_tag_names-Prepared same same names

prepares :
    prepare_tag_names same same names
    ≡ ok (
        record { normalized = 103 ∷ 111 ∷ []; display = 103 ∷ 111 ∷ [] }
        ∷ record { normalized = 100 ∷ 98 ∷ []; display = 100 ∷ 98 ∷ [] }
        ∷ [])
unfolding prepare_tag_names
prepares = refl

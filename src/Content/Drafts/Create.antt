-- ===== src/Content/Drafts/Create.antt =====
-- `CreatePost`: the post, its draft and the draft's references come into being together.
use lets_go.Prelude.{inl, ◌≡◌, refl, ◌∙◌, ◌≢◌, Option, none, some, [], ◌∷◌, ◌++◌, arith, length}
use lets_go.Sql.{Session, ◌>>◌, pure}
use lets_go.Sql.Table.{find_row, find_none_of_affected}
use lets_go.Sql.Insert.{insert_unique-Holds, find-snoc}
use lets_go.Sql.Outcome.{Holds, Outcome, bind-Holds, call_then, transact-Outcome}
use lets_go.Content.Errors.{error_driver, Error}
use lets_go.Content.Tables.{Time, Tables}
use lets_go.Content.Delivery.{lift_result, or_not_found}
use lets_go.Content.Tasks.{Database}
use lets_go.Content.Post.{Post}
use lets_go.Content.Post.Draft.{PostDraft}
use lets_go.Content.Cards.{post_key, find_post}
use lets_go.Content.Drafts.{
  DraftInputs, draft_key, draft_row, put_posts, put_drafts, posts_of, drafts_of, insert_draft,
  validate_draft_assets, replace_draft_refs,
}
use lets_go.Content.Drafts.Body.{
  insert_post, new_post_row, read_created, finish_create, insert_both, create_body, create_fault,
  create_checked, create_post,
}
use lets_go.Content.Drafts.Refs.{Replaced, replace_draft_refs-Holds}
use lets_go.Content.Drafts.Assets.{AssetsFit, AssetError, validate_draft_assets-then}

module _ (inputs : DraftInputs) (post : Post) (draft : PostDraft) where
  -- A post that was created.
  pub record Created (before after : Tables) (result : Post) : Type 0 where
    pub own : draft.post_id ≡ post.post_id
    pub known : (post.post_id ≢ 0) × (post.author_id ≢ 0)
    pub fresh : (post.version ≡ 1) × (post.lifecycle_status ≡ 1) × (draft.version ≡ 1)
    pub schema : draft.document_schema_version ≡ 1
    pub images : draft.image_count ≡ length draft.asset_refs
    pub assets : AssetsFit inputs.codec draft post.author_id before
    pub no_post : find_row (post_key (inputs.codec.text post.post_id)) before.posts ≡ none
    pub no_draft : find_row (draft_key (inputs.codec.text post.post_id)) before.drafts ≡ none
    pub now : Time
    pub later : Time
    pub posts : after.posts ≡ before.posts ++ new_post_row inputs.codec post now ∷ []
    pub drafts : after.drafts ≡ before.drafts ++ draft_row inputs draft later ∷ []
    pub references :
        Replaced inputs.codec draft (put_drafts after.drafts (put_posts after.posts before)) after
    pub answer : result ≡ record post { created_at = now }

  pub data CreateError (before : Tables) (e : Error) : Type 0 where
    refused : e ≡ Error.driver → CreateError before e
    invalid : create_fault inputs post draft ≡ some e → CreateError before e
    unfit : AssetError inputs.codec draft post.author_id before e → CreateError before e

  abbrev Made : Tables → Post → Session Tables → Type 0
  Made before result s' = Created before s'.tables result

  -- The tables with both rows.
  abbrev inserted : Time → Time → Tables → Tables
  inserted now later t =
      put_drafts (t.drafts ++ draft_row inputs draft later ∷ [])
        (put_posts (t.posts ++ new_post_row inputs.codec post now ∷ []) t)

  module _ (t : Tables) (valid : create_fault inputs post draft ≡ none)
      (fit : AssetsFit inputs.codec draft post.author_id t)
      (no_post : find_row (post_key (inputs.codec.text post.post_id)) t.posts ≡ none)
      (no_draft : find_row (draft_key (inputs.codec.text post.post_id)) t.drafts ≡ none)
      (now later : Time) where
    found_again :
        find_row (post_key (inputs.codec.text post.post_id)) (inserted now later t).posts
        ≡ some (new_post_row inputs.codec post now)
    found_again =
        find-snoc (post_key (inputs.codec.text post.post_id)) t.posts
          (new_post_row inputs.codec post now) no_post (ground arith)

    read_created-Holds :
        (s : Session Tables)
        → Replaced inputs.codec draft (inserted now later t) s.tables
        → Holds (Made t) (CreateError t) (read_created inputs post s)
    unfolding find_post
    read_created-Holds s replaced =
        bind-Holds (CreateError t) (find_post (inputs.codec.text post.post_id))
          (λ stored. pure (record post { created_at = stored.created_at }))
          (λ row s'. (row ≡ new_post_row inputs.codec post now) × (s'.tables ≡ s.tables)) (Made t) s
          (call_then (CreateError t) Error.driver _ (λ found. lift_result (or_not_found found))
            (λ row s'. (row ≡ new_post_row inputs.codec post now) × (s'.tables ≡ s.tables)) s
            (refused refl) λ now' ms later'. rw (replaced, found_again) (refl, refl))
          λ row s' (found, same).
            rw (found, same ∙ replaced)
              (record {
                own = ground arith;
                known = (ground arith, ground arith);
                fresh = (ground arith, ground arith, ground arith);
                schema = ground arith;
                images = ground arith;
                assets = fit;
                no_post = no_post;
                no_draft = no_draft;
                now = now;
                later = later;
                posts = refl;
                drafts = refl;
                references = refl;
                answer = refl;
              })

    finish_create-Holds :
        (s : Session Tables)
        → s.tables ≡ inserted now later t
        → Holds (Made t) (CreateError t) (finish_create inputs post draft s)
    finish_create-Holds s same =
        bind-Holds (CreateError t) (replace_draft_refs inputs.codec draft)
          (λ _. read_created inputs post) (λ _ s'. Replaced inputs.codec draft s.tables s'.tables)
          (Made t) s (replace_draft_refs-Holds (CreateError t) (refused refl) inputs.codec draft s)
          λ done s' replaced. read_created-Holds s' (rw same at replaced)

  insert_both-Holds :
      (t : Tables) (s : Session Tables)
      → create_fault inputs post draft ≡ none
      → AssetsFit inputs.codec draft post.author_id t
      → s.tables ≡ t
      → Holds (Made t) (CreateError t) (insert_both inputs post draft s)
  insert_both-Holds t s valid fit same =
      bind-Holds (CreateError t) (insert_post inputs.codec post)
        (λ _. insert_draft inputs draft >> finish_create inputs post draft) _ (Made t) s
        (insert_unique-Holds Error.driver posts_of put_posts (CreateError t)
          (post_key (inputs.codec.text post.post_id)) (new_post_row inputs.codec post) s
          (refused refl))
        λ done s1 (free, (now, first)).
          bind-Holds (CreateError t) (insert_draft inputs draft)
            (λ _. finish_create inputs post draft) _ (Made t) s1
            (insert_unique-Holds Error.driver drafts_of put_drafts (CreateError t)
              (draft_key (inputs.codec.text draft.post_id)) (draft_row inputs draft) s1
              (refused refl))
            λ done' s2 (free', (later, second)).
              finish_create-Holds t valid fit
                (find_none_of_affected (post_key (inputs.codec.text post.post_id)) t.posts
                  (rw same at free))
                (find_none_of_affected (draft_key (inputs.codec.text post.post_id)) t.drafts
                  (rw (own, first, same) at free'))
                now later s2 (second ∙ rw (first, same) refl)
    where
      own : draft.post_id ≡ post.post_id
      own = ground arith

  create_body-Holds :
      (s : Session Tables)
      → create_fault inputs post draft ≡ none
      → Holds (Made s.tables) (CreateError s.tables) (create_body inputs post draft s)
  unfolding create_body
  create_body-Holds s valid =
      bind-Holds (CreateError s.tables) (validate_draft_assets inputs.codec draft post.author_id)
        (λ _. insert_both inputs post draft)
        (λ _ s'. (s'.tables ≡ s.tables) × AssetsFit inputs.codec draft post.author_id s.tables)
        (Made s.tables) s
        (validate_draft_assets-then inputs.codec draft post.author_id (CreateError s.tables) s
          (λ e h. unfit h))
        λ done s' (same, fit). insert_both-Holds s.tables s' valid fit same

  create_checked-Outcome :
      (db : Database) (s : Session Tables) (fault : Option Error)
      → create_fault inputs post draft ≡ fault
      → Outcome
          (λ result t. Created s.tables t result)
          (CreateError s.tables)
          s.tables
          (create_checked inputs db post draft fault s)
  create_checked-Outcome db s none valid =
      transact-Outcome db (λ result t. Created s.tables t result) (CreateError s.tables)
        (create_body inputs post draft) s (refused refl) (create_body-Holds s valid)
  create_checked-Outcome db s (some e) wrong = (invalid wrong, inl refl)

  -- `CreatePost` of a post and a draft either fails, with the driver's error, for what they are, or
  -- for the assets, and changes no table; or it commits. Then both are of one post that is known,
  -- of version 1, a draft, and of schema 1 with its images counted; neither was stored before; the
  -- assets that the draft shows are stored, each once, usable and the author's; the post and the
  -- draft are added, the draft's references are exactly its cover and its images, the rest is as
  -- before; and the answer is the post with the time of its row.
  -- The exception is a commit that is stored and whose answer is lost: the driver's error comes
  -- back, with the tables of the commit.
  pub create_post-Outcome :
      (db : Database) (s : Session Tables)
      → Outcome
          (λ result t. Created s.tables t result)
          (CreateError s.tables)
          s.tables
          (create_post inputs db (some post) (some draft) s)
  unfolding create_post
  create_post-Outcome db s = create_checked-Outcome db s (create_fault inputs post draft) refl

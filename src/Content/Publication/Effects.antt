-- ===== src/Content/Publication/Effects.antt =====
-- What a committed publication has changed, table by table, and for whom.
use lets_go.Prelude.{◌≡◌, refl, ◌∙◌, ap, ◌≢◌, true, some, [], ◌∷◌, ◌++◌, ◌==◌, arith}
use lets_go.Sql.Table.{find_row, update_where, find-fits, find-update, find-update_other}
use lets_go.Sql.Insert.{find-snoc, find-none_wider}
use lets_go.Content.Tables.{Ident, Time, Tables}
use lets_go.Content.Ids.{Uuid}
use lets_go.Content.Cards.{post_key, revision_key}
use lets_go.Content.Publication.{PublishInputs, PublicationResult, revision_row}
use lets_go.Content.Publication.Rows.{same_revision, published_row, overwritten}
use lets_go.Content.Publication.Body.{PublishCallback, event_row, result_of}
use lets_go.Content.Publication.Outcome.{Published}

module _ (inputs : PublishInputs) (id : Uuid) (apply : PublishCallback) (event_id : Uuid)
    (before after : Tables) (result : PublicationResult)
    (p : Published inputs id apply event_id before after result) where
  -- The tables after a publication, by what a search finds.
  pub record Effects : Type 0 where
    pub now : Time
    pub post :
        find_row (post_key (inputs.codec.text id)) after.posts
        ≡ some (
            overwritten
              (published_row inputs.codec p.post p.revision.revision_id p.first p.last p.read.row)
              now
              p.read.row)
    pub other_posts :
        (x : Ident)
        → x ≢ inputs.codec.text id
        → find_row (post_key x) after.posts ≡ find_row (post_key x) before.posts
    pub revision :
        find_row (revision_key (inputs.codec.text p.revision.revision_id)) after.revisions
        ≡ some (revision_row inputs.codec p.revision)
    pub due : Time
    pub outbox :
        after.outbox ≡ before.outbox ++ event_row inputs id event_id p.post p.revision due ∷ []
    pub deliveries : after.deliveries ≡ before.deliveries
    pub cards : after.cards ≡ before.cards
    pub drafts : after.drafts ≡ before.drafts
    pub assets : after.assets ≡ before.assets
    pub answer : result ≡ result_of inputs id p.post p.revision

  own : p.read.row.post_id ≡ inputs.codec.text id
  own =
      let fits = find-fits (post_key (inputs.codec.text id)) before.posts p.read.row p.read.held in
      ground arith

  posts_after :
      after.posts
      ≡ update_where
          (post_key p.read.row.post_id)
          (overwritten
            (published_row inputs.codec p.post p.revision.revision_id p.first p.last p.read.row)
            p.written.now)
          before.posts
  posts_after =
      ap (λ (t : Tables). t.posts) p.written.announced.outbox
      ∙ ap
          (λ (t : Tables).
            update_where (post_key p.read.row.post_id)
              (overwritten
                (published_row inputs.codec p.post p.revision.revision_id p.first p.last p.read.row)
                p.written.now)
              t.posts)
          p.written.tagged.kept

  pub Published-Effects : Effects
  Published-Effects = record {
    now = p.written.now;
    post = rw posts_after (
        find-update (post_key (inputs.codec.text id)) (post_key p.read.row.post_id)
          (overwritten
            (published_row inputs.codec p.post p.revision.revision_id p.first p.last p.read.row)
            p.written.now)
          (λ r. refl) before.posts
        ∙ rw p.read.held (rw hit refl));
    other_posts = λ x apart. rw posts_after (
        find-update_other (post_key x) (post_key p.read.row.post_id)
          (overwritten
            (published_row inputs.codec p.post p.revision.revision_id p.first p.last p.read.row)
            p.written.now)
          (λ r. refl) (λ r h. ground (arith, own, apart)) before.posts);
    revision =
        ap
          (λ (t : Tables).
            find_row (revision_key (inputs.codec.text p.revision.revision_id)) t.revisions)
          p.written.announced.outbox
        ∙ ap
            (λ (t : Tables).
              find_row (revision_key (inputs.codec.text p.revision.revision_id)) t.revisions)
            p.written.tagged.kept
        ∙ find-snoc (revision_key (inputs.codec.text p.revision.revision_id)) before.revisions
            (revision_row inputs.codec p.revision)
            (find-none_wider (revision_key (inputs.codec.text p.revision.revision_id))
              (same_revision (revision_row inputs.codec p.revision)) (λ r h. ground arith)
              before.revisions p.written.fresh)
            (ground arith);
    due = p.written.announced.now;
    outbox =
        ap (λ (t : Tables). t.outbox) p.written.announced.outbox
        ∙ ap
            (λ (t : Tables).
              t.outbox
              ++ event_row inputs id event_id p.post p.revision p.written.announced.now ∷ [])
            p.written.tagged.kept;
    deliveries =
        ap (λ (t : Tables). t.deliveries) p.written.announced.outbox
        ∙ ap (λ (t : Tables). t.deliveries) p.written.tagged.kept;
    cards =
        ap (λ (t : Tables). t.cards) p.written.announced.outbox
        ∙ ap (λ (t : Tables). t.cards) p.written.tagged.kept;
    drafts =
        ap (λ (t : Tables). t.drafts) p.written.announced.outbox
        ∙ ap (λ (t : Tables). t.drafts) p.written.tagged.kept;
    assets =
        ap (λ (t : Tables). t.assets) p.written.announced.outbox
        ∙ ap (λ (t : Tables). t.assets) p.written.tagged.kept;
    answer = p.written.announced.answer;
  }
    where
      hit : (p.read.row.post_id == p.read.row.post_id) ≡ true
      hit = ground arith

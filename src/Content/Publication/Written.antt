-- ===== src/Content/Publication/Written.antt =====
-- The writes of `PublishPost`, one after another, and the tables that they leave.
use lets_go.Prelude.{
  ℕ, ◌≡◌, refl, inl, inr, Option, none, some, List, [], ◌∷◌, ◌++◌, ◌==◌, if◌then◌else◌, Bool-cases,
  append-nil,
}
use lets_go.Sql.{Session, pure, fail}
use lets_go.Sql.Table.{update_where, affected}
use lets_go.Sql.Insert.{insert_unique-Holds}
use lets_go.Sql.Outcome.{Holds, bind-Holds, call_then, call-Holds, Holds-mono}
use lets_go.Content.Errors.{Error}
use lets_go.Content.Tables.{Time, PostRow, ContentAssetRef, OutboxEvent, Tables}
use lets_go.Content.Ids.{Uuid, UuidCodec}
use lets_go.Content.Post.{Post}
use lets_go.Content.Post.Draft.{Cover, PostRevision}
use lets_go.Content.Cards.{post_key}
use lets_go.Content.Drafts.{put_posts, put_refs}
use lets_go.Content.Drafts.Refs.{insert_ref-Holds}
use lets_go.Content.Publication.{
  PublishInputs, PublicationResult, revision_row, image_refs_of, check_publication_assets,
  put_revisions, revisions_of, put_outbox, outbox_of,
}
use lets_go.Content.Publication.Tags.{publish_revision_tags}
use lets_go.Content.Publication.Rows.{
  same_revision, insert_revision, published_row, overwritten, update_post, copies, clashes,
  copy_refs, revision_cover, insert_revision_cover,
}
use lets_go.Content.Publication.Checks.{Complete, CheckError, check_publication_assets-Holds}
use lets_go.Content.Publication.Tagging.{TagError, Tagged, publish_revision_tags-Holds}
use lets_go.Content.Publication.Body.{
  event_row, insert_event, result_of, announce, keep_cover, keep_refs, store_post, store_tags,
  store_revision, write_publication,
}

abbrev pub cover_rows : UuidCodec → PostRevision → ℕ → Option Cover → List ContentAssetRef
cover_rows codec revision version none = []
cover_rows codec revision version (some cover) = revision_cover codec revision version cover ∷ []

-- The errors of the writes and of the checks before them.
pub data WriteError (inputs : PublishInputs) (id : Uuid) (row : PostRow) (revision : PostRevision)
    (e : Error) : Type 0 where
  refused : e ≡ Error.driver → WriteError inputs id row revision e
  unfit :
      CheckError inputs.codec (inputs.codec.text id) row.author_id revision e
      → WriteError inputs id row revision e
  untagged : TagError inputs revision.tag_names e → WriteError inputs id row revision e

module _ (inputs : PublishInputs) (id event_id : Uuid) (row : PostRow) (post : Post)
    (revision : PostRevision) where
  -- The references of the revision: the draft's images, and the cover.
  abbrev pub add_copies : Tables → Tables
  add_copies t =
      put_refs
        (t.refs
          ++ copies (inputs.codec.text revision.revision_id) post.version
              (image_refs_of (inputs.codec.text id) t))
        t

  abbrev pub add_cover : Tables → Tables
  add_cover t = put_refs (t.refs ++ cover_rows inputs.codec revision post.version revision.cover) t

  abbrev pub set_post : Time → Time → Time → Tables → Tables
  set_post first last now t =
      put_posts
        (update_where (post_key row.post_id)
          (overwritten (published_row inputs.codec post revision.revision_id first last row) now)
          t.posts)
        t

  abbrev pub add_revision : Tables → Tables
  add_revision t = put_revisions (t.revisions ++ revision_row inputs.codec revision ∷ []) t

  -- The event, which no event of its id stood before, is added behind the others.
  pub record Announced (before after : Tables) (result : PublicationResult) : Type 0 where
    pub fresh :
        affected (λ (r : OutboxEvent). r.event_id == inputs.codec.text event_id) before.outbox ≡ 0
    pub now : Time
    pub outbox :
        after
        ≡ put_outbox (before.outbox ++ event_row inputs id event_id post revision now ∷ []) before
    pub answer : result ≡ result_of inputs id post revision

  -- All writes, from the tables that were checked.
  pub record Written (first last : Time) (before after : Tables) (result : PublicationResult)
      : Type 0 where
    pub fresh : affected (same_revision (revision_row inputs.codec revision)) before.revisions ≡ 0
    pub middle : Tables
    pub tagged : Tagged inputs revision (add_revision before) middle
    pub now : Time
    pub announced : Announced (add_cover (add_copies (set_post first last now middle))) after result

  module _ (R : Error → Type 0)
      (fails : (e : Error) → WriteError inputs id row revision e → R e) where
    driver : R Error.driver
    driver = fails Error.driver (refused refl)

    announce-Holds :
        (s : Session Tables)
        → Holds
            (λ r s'. Announced s.tables s'.tables r)
            R
            (announce inputs id event_id post revision s)
    announce-Holds s =
        bind-Holds R (insert_event inputs id event_id post revision)
          (λ _. pure (result_of inputs id post revision)) _ (λ r s'. Announced s.tables s'.tables r)
          s
          (insert_unique-Holds Error.driver outbox_of put_outbox R
            (λ (r : OutboxEvent). r.event_id == inputs.codec.text event_id)
            (event_row inputs id event_id post revision) s driver)
          λ d s' (free, (now, same)). record {
            fresh = free;
            now = now;
            outbox = same;
            answer = refl;
          }

    insert_revision_cover-Holds :
        (cover : Option Cover) (s : Session Tables)
        → Holds
            (λ _ s'.
              s'.tables
              ≡ put_refs
                  (s.tables.refs ++ cover_rows inputs.codec revision post.version cover)
                  s.tables)
            R
            (insert_revision_cover inputs.codec revision post.version cover s)
    insert_revision_cover-Holds none s = rw (append-nil s.tables.refs) refl
    insert_revision_cover-Holds (some cover) s =
        insert_ref-Holds R driver (revision_cover inputs.codec revision post.version cover) s

    keep_cover-Holds :
        (s : Session Tables)
        → Holds
            (λ r s'. Announced (add_cover s.tables) s'.tables r)
            R
            (keep_cover inputs id event_id post revision s)
    keep_cover-Holds s =
        bind-Holds R (insert_revision_cover inputs.codec revision post.version revision.cover)
          (λ _. announce inputs id event_id post revision) (λ _ s'. s'.tables ≡ add_cover s.tables)
          (λ r s'. Announced (add_cover s.tables) s'.tables r) s
          (insert_revision_cover-Holds revision.cover s)
          λ d s' same. rw (← same) (announce-Holds s')

    copy_refs-Holds :
        (s : Session Tables)
        → Holds
            (λ _ s'. s'.tables ≡ add_copies s.tables)
            R
            (copy_refs
              (inputs.codec.text id)
              (inputs.codec.text revision.revision_id)
              post.version
              s)
    unfolding copy_refs
    copy_refs-Holds s =
        elim (Bool-cases (
          clashes
            (copies (inputs.codec.text revision.revision_id) post.version
              (image_refs_of (inputs.codec.text id) s.tables))
            s.tables.refs
          == 0)) [
            | inl free ↦
                call_then R Error.driver _ (λ n. if n == 0 then pure tt else fail Error.driver)
                  (λ _ s'. s'.tables ≡ add_copies s.tables) s driver λ now ms later. rw free refl
            | inr clash ↦
                call_then R Error.driver _ (λ n. if n == 0 then pure tt else fail Error.driver)
                  (λ _ s'. s'.tables ≡ add_copies s.tables) s driver λ now ms later. rw clash driver
          ]

    keep_refs-Holds :
        (s : Session Tables)
        → Holds
            (λ r s'. Announced (add_cover (add_copies s.tables)) s'.tables r)
            R
            (keep_refs inputs id event_id post revision s)
    keep_refs-Holds s =
        bind-Holds R
          (copy_refs (inputs.codec.text id) (inputs.codec.text revision.revision_id) post.version)
          (λ _. keep_cover inputs id event_id post revision)
          (λ _ s'. s'.tables ≡ add_copies s.tables)
          (λ r s'. Announced (add_cover (add_copies s.tables)) s'.tables r) s (copy_refs-Holds s)
          λ d s' same.
            Holds-mono (λ r s''. Announced (add_cover s'.tables) s''.tables r)
              (λ r s''. Announced (add_cover (add_copies s.tables)) s''.tables r) R R
              (keep_cover inputs id event_id post revision s') (λ r s'' h. rw same at h) (λ e h. h)
              (keep_cover-Holds s')

    module _ (first last : Time) where
      store_post-Holds :
          (s : Session Tables)
          → Holds
              (λ r s'.
                (now : Time) × Announced
                  (add_cover (add_copies (set_post first last now s.tables)))
                  s'.tables
                  r)
              R
              (store_post inputs id event_id row post revision (first, last) s)
      unfolding update_post
      store_post-Holds s =
          bind-Holds R
            (update_post (published_row inputs.codec post revision.revision_id first last row))
            (λ _. keep_refs inputs id event_id post revision)
            (λ _ s'. (now : Time) × (s'.tables ≡ set_post first last now s.tables))
            (λ r s'.
              (now : Time) × Announced (add_cover (add_copies (set_post first last now s.tables)))
                s'.tables r)
            s
            (call-Holds R Error.driver _
              (λ _ s'. (now : Time) × (s'.tables ≡ set_post first last now s.tables)) s
              (λ now ms later. (now, refl)) driver)
            λ d s' (now, same).
              Holds-mono (λ r s''. Announced (add_cover (add_copies s'.tables)) s''.tables r)
                (λ r s''.
                  (now : Time) × Announced
                    (add_cover (add_copies (set_post first last now s.tables))) s''.tables r)
                R R (keep_refs inputs id event_id post revision s') (λ r s'' h. (now, rw same at h))
                (λ e h. h) (keep_refs-Holds s')

      store_tags-Holds :
          (s : Session Tables)
          → Holds
              (λ r s'.
                (middle : Tables) × Tagged inputs revision s.tables middle
                × ((now : Time) × Announced
                      (add_cover (add_copies (set_post first last now middle)))
                      s'.tables
                      r))
              R
              (store_tags inputs id event_id row post revision (first, last) s)
      store_tags-Holds s =
          bind-Holds R (publish_revision_tags inputs revision row.author_id)
            (λ _. store_post inputs id event_id row post revision (first, last))
            (λ _ s'. Tagged inputs revision s.tables s'.tables)
            (λ r s'.
              (middle : Tables) × Tagged inputs revision s.tables middle
              × ((now : Time) × Announced (add_cover (add_copies (set_post first last now middle)))
                    s'.tables r))
            s
            (publish_revision_tags-Holds inputs revision R (λ e h. fails e (untagged h))
              row.author_id s)
            λ d s' tagged.
              Holds-mono
                (λ r s''.
                  (now : Time) × Announced
                    (add_cover (add_copies (set_post first last now s'.tables))) s''.tables r)
                (λ r s''.
                  (middle : Tables) × Tagged inputs revision s.tables middle
                  × ((now : Time) × Announced
                        (add_cover (add_copies (set_post first last now middle))) s''.tables r))
                R R (store_post inputs id event_id row post revision (first, last) s')
                (λ r s'' h. (s'.tables, tagged, h)) (λ e h. h) (store_post-Holds s')

      store_revision-Holds :
          (s : Session Tables)
          → Holds
              (λ r s'. Written first last s.tables s'.tables r)
              R
              (store_revision inputs id event_id row post revision (first, last) s)
      store_revision-Holds s =
          bind-Holds R (insert_revision (revision_row inputs.codec revision))
            (λ _. store_tags inputs id event_id row post revision (first, last)) _
            (λ r s'. Written first last s.tables s'.tables r) s
            (insert_unique-Holds Error.driver revisions_of put_revisions R
              (same_revision (revision_row inputs.codec revision))
              (λ now. revision_row inputs.codec revision) s driver)
            λ d s1 (free, (when, same)).
              Holds-mono
                (λ r s2.
                  (middle : Tables) × Tagged inputs revision s1.tables middle
                  × ((now : Time) × Announced
                        (add_cover (add_copies (set_post first last now middle))) s2.tables r))
                (λ r s2. Written first last s.tables s2.tables r) R R
                (store_tags inputs id event_id row post revision (first, last) s1)
                (λ r s2 (middle, tagged, (now, announced)). record {
                  fresh = free;
                  middle = middle;
                  tagged = rw same at tagged;
                  now = now;
                  announced = announced;
                })
                (λ e h. h) (store_tags-Holds s1)

      pub write_publication-Holds :
          (s : Session Tables)
          → Holds
              (λ r s'.
                Complete inputs.codec (inputs.codec.text id) row.author_id revision s.tables
                × Written first last s.tables s'.tables r)
              R
              (write_publication inputs id event_id row post revision (first, last) s)
      unfolding write_publication
      write_publication-Holds s =
          bind-Holds R
            (check_publication_assets inputs.codec (inputs.codec.text id) row.author_id revision)
            (λ _. store_revision inputs id event_id row post revision (first, last))
            (λ _ s'.
              (s'.tables ≡ s.tables)
              × Complete inputs.codec (inputs.codec.text id) row.author_id revision s.tables)
            (λ r s'.
              Complete inputs.codec (inputs.codec.text id) row.author_id revision s.tables
              × Written first last s.tables s'.tables r)
            s
            (check_publication_assets-Holds inputs.codec (inputs.codec.text id) row.author_id
              revision R (λ e h. fails e (unfit h)) s)
            λ d s' (same, complete).
              Holds-mono (λ r s''. Written first last s'.tables s''.tables r)
                (λ r s''.
                  Complete inputs.codec (inputs.codec.text id) row.author_id revision s.tables
                  × Written first last s.tables s''.tables r)
                R R (store_revision inputs id event_id row post revision (first, last) s')
                (λ r s'' h. (complete, rw same at h)) (λ e h. h) (store_revision-Holds s')

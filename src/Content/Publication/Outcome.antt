-- ===== src/Content/Publication/Outcome.antt =====
-- `PublishPost`: the post, its revision, tags, references and event are stored together or not at
-- all.
use lets_go.Prelude.{◌≡◌, refl, ◌∙◌, inl, inr, true, Option, none, some, Bool-cases}
use lets_go.Sql.{Session, Result, ok, err, ◌>>=◌}
use lets_go.Sql.Table.{find_row}
use lets_go.Sql.Outcome.{Holds, Outcome, bind-Holds, transact-Outcome, Holds-mono}
use lets_go.Content.Errors.{error_driver, Sentinel, Message, Error}
use lets_go.Content.Tables.{Time, PostRow, DraftRow, Tables}
use lets_go.Content.Delivery.{lift_result}
use lets_go.Content.Ids.{Uuid, is_zero}
use lets_go.Content.Tasks.{Database}
use lets_go.Content.Tasks.Rules.{read-Holds}
use lets_go.Content.Post.{Post}
use lets_go.Content.Post.Draft.{PostDraft, PostRevision}
use lets_go.Content.Cards.{post_key, find_post}
use lets_go.Content.Removal.{restore_post, read_current}
use lets_go.Content.Drafts.{draft_key}
use lets_go.Content.Publication.{PublishInputs, PublicationResult, restore_draft, find_draft}
use lets_go.Content.Publication.Checks.{Complete}
use lets_go.Content.Publication.Body.{
  PublishCallback, both_times, fits_rows, publication_times, check_times, check_publication,
  apply_publish, read_draft, publish_row, publish_body, publish_event, publish_post,
}
use lets_go.Content.Publication.Written.{Written, WriteError, write_publication-Holds}

both_times-some :
    (first last : Option Time) (a b : Time)
    → both_times first last ≡ some (a, b)
    → (first ≡ some a) × (last ≡ some b)
both_times-some none last a b h = cc
both_times-some (some x) none a b h = cc
both_times-some (some x) (some y) a b h = (cc, cc)

module _ (inputs : PublishInputs) (id : Uuid) (apply : PublishCallback) where
  -- What was read and what the callback made of it.
  pub record Prepared (t : Tables) : Type 0 where
    pub row : PostRow
    pub draft_row : DraftRow
    pub post : Post
    pub draft : PostDraft
    pub held : find_row (post_key (inputs.codec.text id)) t.posts ≡ some row
    pub held_draft : find_row (draft_key (inputs.codec.text id)) t.drafts ≡ some draft_row
    pub restored : restore_post inputs.codec row ≡ ok post
    pub restored_draft : restore_draft inputs draft_row ≡ ok draft

  -- A publication that was committed.
  pub record Published (event_id : Uuid) (before after : Tables) (result : PublicationResult)
      : Type 0 where
    pub read : Prepared before
    pub revision : PostRevision
    pub post : Post
    pub applied : apply read.post read.draft ≡ ok (some revision, post)
    pub fits : fits_rows inputs id read.row read.draft_row revision post ≡ true
    pub first : Time
    pub last : Time
    pub times : (post.first_published_at ≡ some first) × (post.last_published_at ≡ some last)
    pub complete : Complete inputs.codec (inputs.codec.text id) read.row.author_id revision before
    pub written : Written inputs id event_id read.row post revision first last before after result

  pub data PublishError (before : Tables) (e : Error) : Type 0 where
    nobody : e ≡ Error.sentinel Sentinel.invalid_post_id → PublishError before e
    refused : e ≡ Error.driver → PublishError before e
    no_post : e ≡ Error.sentinel Sentinel.post_not_found → PublishError before e
    no_draft : e ≡ Error.sentinel Sentinel.draft_not_found → PublishError before e
    unreadable :
        (row : PostRow)
        → find_row (post_key (inputs.codec.text id)) before.posts ≡ some row
        → restore_post inputs.codec row ≡ err e
        → PublishError before e
    unreadable_draft :
        (row : DraftRow)
        → find_row (draft_key (inputs.codec.text id)) before.drafts ≡ some row
        → restore_draft inputs row ≡ err e
        → PublishError before e
    forbidden :
        (read : Prepared before) → apply read.post read.draft ≡ err e → PublishError before e
    mismatch : e ≡ Error.message Message.callback_result → PublishError before e
    unwritten :
        (row : PostRow) (revision : PostRevision)
        → WriteError inputs id row revision e
        → PublishError before e

  module _ (event_id : Uuid) (t : Tables) where
    abbrev Made : PublicationResult → Session Tables → Type 0
    Made result s' = Published event_id t s'.tables result

    check_times-Holds :
        (read : Prepared t) (revision : PostRevision) (post : Post) (s : Session Tables)
        (times : Option (Time × Time))
        → apply read.post read.draft ≡ ok (some revision, post)
        → publication_times inputs id read.row read.draft_row revision post ≡ times
        → s.tables ≡ t
        → Holds Made
            (PublishError t)
            (check_times inputs id event_id read.row post revision times s)
    check_times-Holds read revision post s none applied e same = mismatch refl
    check_times-Holds read revision post s (some (first, last)) applied e same =
        elim (Bool-cases (fits_rows inputs id read.row read.draft_row revision post)) [
          | inr wrong ↦ let e' = rw wrong at e in cc
          | inl right ↦
              let times = both_times-some _ _ first last (rw right at e) in
              Holds-mono
                (λ r s'.
                  Complete inputs.codec (inputs.codec.text id) read.row.author_id revision s.tables
                  × Written inputs id event_id read.row post revision first last s.tables s'.tables
                      r)
                Made (PublishError t) (PublishError t) _
                (λ r s' (complete, written). record {
                  read = read;
                  revision = revision;
                  post = post;
                  applied = applied;
                  fits = right;
                  first = first;
                  last = last;
                  times = times;
                  complete = rw same at complete;
                  written = rw same at written;
                })
                (λ x h. h)
                (write_publication-Holds inputs id event_id read.row post revision (PublishError t)
                  (λ x h. unwritten read.row revision h) first last s)
        ]

    checking :
        (read : Prepared t) (s : Session Tables) (r : Result Error (Option PostRevision × Post))
        → apply read.post read.draft ≡ r
        → s.tables ≡ t
        → Holds Made
            (PublishError t)
            ((lift_result r >>= check_publication inputs id event_id read.row read.draft_row) s)
    checking read s (err e) applied same = forbidden read applied
    checking read s (ok (none, post)) applied same = mismatch refl
    checking read s (ok (some revision, post)) applied same =
        check_times-Holds read revision post s _ applied refl same

    restoring_draft :
        (row : PostRow) (draft_row : DraftRow) (post : Post) (s : Session Tables)
        (r : Result Error PostDraft)
        → find_row (post_key (inputs.codec.text id)) t.posts ≡ some row
        → find_row (draft_key (inputs.codec.text id)) t.drafts ≡ some draft_row
        → restore_post inputs.codec row ≡ ok post
        → restore_draft inputs draft_row ≡ r
        → s.tables ≡ t
        → Holds Made (PublishError t) (
            (lift_result r >>= λ draft.
            lift_result (apply post draft) >>= check_publication inputs id event_id row draft_row)
              s)
    restoring_draft row draft_row post s (err e) held held_draft restored e' same =
        unreadable_draft draft_row held_draft e'
    restoring_draft row draft_row post s (ok draft) held held_draft restored e' same =
        checking
          (record {
            row = row;
            draft_row = draft_row;
            post = post;
            draft = draft;
            held = held;
            held_draft = held_draft;
            restored = restored;
            restored_draft = e';
          })
          s (apply post draft) refl same

    restoring :
        (row : PostRow) (draft_row : DraftRow) (s : Session Tables) (r : Result Error Post)
        → find_row (post_key (inputs.codec.text id)) t.posts ≡ some row
        → find_row (draft_key (inputs.codec.text id)) t.drafts ≡ some draft_row
        → restore_post inputs.codec row ≡ r
        → s.tables ≡ t
        → Holds Made (PublishError t) (
            (lift_result r >>= λ post. lift_result (restore_draft inputs draft_row) >>= λ draft.
            lift_result (apply post draft) >>= check_publication inputs id event_id row draft_row)
              s)
    restoring row draft_row s (err e) held held_draft restored same = unreadable row held restored
    restoring row draft_row s (ok post) held held_draft restored same =
        restoring_draft row draft_row post s (restore_draft inputs draft_row) held held_draft
          restored refl same

  publish_body-Holds :
      (event_id : Uuid) (s : Session Tables)
      → Holds
          (Made event_id s.tables)
          (PublishError s.tables)
          (publish_body inputs id apply event_id s)
  unfolding publish_body find_post find_draft
  publish_body-Holds event_id s =
      bind-Holds (PublishError s.tables) (read_current inputs.codec id)
        (publish_row inputs id apply event_id)
        (λ row s'.
          (find_row (post_key (inputs.codec.text id)) s.tables.posts ≡ some row)
          × (s'.tables ≡ s.tables))
        (Made event_id s.tables) s
        (read-Holds (PublishError s.tables) (Error.sentinel Sentinel.post_not_found)
          (λ t. find_row (post_key (inputs.codec.text id)) t.posts) s (refused refl) (no_post refl))
        λ row s1 (held, same).
          bind-Holds (PublishError s.tables) (read_draft inputs id)
            (apply_publish inputs id apply event_id row)
            (λ draft s'.
              (find_row (draft_key (inputs.codec.text id)) s1.tables.drafts ≡ some draft)
              × (s'.tables ≡ s1.tables))
            (Made event_id s.tables) s1
            (read-Holds (PublishError s.tables) (Error.sentinel Sentinel.draft_not_found)
              (λ t. find_row (draft_key (inputs.codec.text id)) t.drafts) s1 (refused refl)
              (no_draft refl))
            λ draft_row s2 (held_draft, as_before).
              restoring event_id s.tables row draft_row s2 (restore_post inputs.codec row) held
                (rw same at held_draft) refl (as_before ∙ same)

  publish_event-Outcome :
      (db : Database) (s : Session Tables) (event : Option Uuid)
      → Outcome
          (λ result t.
            (event_id : Uuid) × (event ≡ some event_id) × Published event_id s.tables t result)
          (PublishError s.tables)
          s.tables
          (publish_event inputs id db apply event s)
  publish_event-Outcome db s none = (refused refl, inl refl)
  publish_event-Outcome db s (some event_id) =
      transact-Outcome db
        (λ result t. (x : Uuid) × (some event_id ≡ some x) × Published x s.tables t result)
        (PublishError s.tables) (publish_body inputs id apply event_id) s (refused refl)
        (Holds-mono (Made event_id s.tables)
          (λ result s'.
            (x : Uuid) × (some event_id ≡ some x) × Published x s.tables s'.tables result)
          (PublishError s.tables) (PublishError s.tables) (publish_body inputs id apply event_id s)
          (λ r s' h. (event_id, refl, h)) (λ e h. h) (publish_body-Holds event_id s))

  pub publish_post-Outcome :
      (db : Database) (s : Session Tables)
      → Outcome
          (λ result t.
            (event_id : Uuid) × (inputs.event_id ≡ some event_id)
            × Published event_id s.tables t result)
          (PublishError s.tables)
          s.tables
          (publish_post inputs id db apply s)
  unfolding publish_post
  publish_post-Outcome db s = elim (Bool-cases (is_zero id)) [
    | inl zero ↦ rw zero (nobody refl, inl refl)
    | inr known ↦ rw known (publish_event-Outcome db s inputs.event_id)
  ]

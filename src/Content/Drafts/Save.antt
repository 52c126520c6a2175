-- ===== src/Content/Drafts/Save.antt =====
-- `SavePostDraft`: the draft, its version and its references change together, or nothing does.
use lets_go.Prelude.{
  ℕ, ◌+◌, ◌≡◌, refl, ◌∙◌, ap, ◌≢◌, inl, inr, true, not, ◌||◌, Option, none, some, ◌++◌, ◌==◌, arith,
  Bool-cases, length,
}
use lets_go.Sql.{Session, Result, ok, err, ◌>>=◌, pure}
use lets_go.Sql.Table.{
  find_row, update_where, delete_where, affected, find-update, find-update_other, find-fits,
}
use lets_go.Sql.Outcome.{Holds, Outcome, bind-Holds, call_then, transact-Outcome}
use lets_go.Content.Errors.{error_driver, Sentinel, Message, Error}
use lets_go.Content.Tables.{Ident, Time, PostRow, DraftRow, Tables}
use lets_go.Content.Delivery.{lift_result, or_not_found}
use lets_go.Content.Ids.{Uuid, is_zero}
use lets_go.Content.Tasks.{Database}
use lets_go.Content.Tasks.Rules.{read-Holds}
use lets_go.Content.Post.{Post}
use lets_go.Content.Post.Draft.{PostDraft}
use lets_go.Content.Cards.{post_key, find_post}
use lets_go.Content.Removal.{restore_post, read_current}
use lets_go.Content.Drafts.{
  DraftInputs, draft_key, draft_row, has_version, next_draft, update_with_version, version_of,
  find_draft_version, find_updated_at, validate_draft_assets, replace_draft_refs, put_drafts,
  put_refs, owner_key,
}
use lets_go.Content.Drafts.Body.{
  is_sound, finish_draft, finish_updated, write_draft, check_draft, SaveCallback, read_version,
  apply_save, save_row, save_body, save_post_draft,
}
use lets_go.Content.Drafts.Refs.{Replaced, cover_refs, image_refs, replace_draft_refs-Holds}
use lets_go.Content.Drafts.Assets.{AssetsFit, AssetError, validate_draft_assets-then}

module _ (inputs : DraftInputs) (id : Uuid) (apply : SaveCallback) where
  -- A save that was committed: the rows it was made from, and what it wrote.
  pub record Saved (before after : Tables) (result : PostDraft) : Type 0 where
    pub row : PostRow
    pub old : DraftRow
    pub post : Post
    pub draft : PostDraft
    pub held : find_row (post_key (inputs.codec.text id)) before.posts ≡ some row
    pub held_draft : find_row (draft_key (inputs.codec.text id)) before.drafts ≡ some old
    pub restored : restore_post inputs.codec row ≡ ok post
    pub applied : apply post old.draft_version ≡ ok (some draft)
    pub own : draft.post_id ≡ id
    pub version : draft.version ≡ old.draft_version + 1
    pub schema : draft.document_schema_version ≡ 1
    pub images : draft.image_count ≡ length draft.asset_refs
    pub assets : AssetsFit inputs.codec draft post.author_id before
    pub now : Time
    pub stored :
        find_row (draft_key (inputs.codec.text id)) after.drafts
        ≡ some (next_draft (draft_row inputs draft 0) now old)
    pub other_drafts :
        (x : Ident)
        → x ≢ inputs.codec.text id
        → find_row (draft_key x) after.drafts ≡ find_row (draft_key x) before.drafts
    pub references : Replaced inputs.codec draft (put_drafts after.drafts before) after
    pub answer : result ≡ record draft { updated_at = now }

  -- The errors of a save.
  pub data SaveError (before : Tables) (e : Error) : Type 0 where
    nobody : e ≡ Error.sentinel Sentinel.invalid_post_id → SaveError before e
    refused : e ≡ Error.driver → SaveError before e
    no_post : e ≡ Error.sentinel Sentinel.post_not_found → SaveError before e
    no_draft : e ≡ Error.sentinel Sentinel.draft_not_found → SaveError before e
    unreadable : (row : PostRow) → restore_post inputs.codec row ≡ err e → SaveError before e
    forbidden : (post : Post) (version : ℕ) → apply post version ≡ err e → SaveError before e
    mismatch : e ≡ Error.message Message.callback_result → SaveError before e
    unfit :
        (post : Post) (draft : PostDraft)
        → AssetError inputs.codec draft post.author_id before e
        → SaveError before e
    conflict : e ≡ Error.sentinel Sentinel.draft_version_conflict → SaveError before e

  -- What has been read when the callback has returned.
  record Ready (t : Tables) (post : Post) (version : ℕ) (draft : PostDraft) : Type 0 where
    row : PostRow
    old : DraftRow
    held : find_row (post_key (inputs.codec.text id)) t.posts ≡ some row
    held_draft : find_row (draft_key (inputs.codec.text id)) t.drafts ≡ some old
    is_version : old.draft_version ≡ version
    restored : restore_post inputs.codec row ≡ ok post
    applied : apply post version ≡ ok (some draft)
    own : draft.post_id ≡ id
    sound : is_sound (version + 1) draft ≡ true

  abbrev Written : Tables → PostDraft → Session Tables → Type 0
  Written before result s' = Saved before s'.tables result

  updated_at-Holds :
      (before : Tables) (x : Ident) (r : DraftRow) (s : Session Tables)
      → find_row (draft_key x) s.tables.drafts ≡ some r
      → Holds
          (λ u s'. (u ≡ r.updated_at) × (s'.tables ≡ s.tables))
          (SaveError before)
          (find_updated_at x s)
  unfolding find_updated_at
  updated_at-Holds before x r s h =
      call_then (SaveError before) Error.driver _ (λ found. lift_result (or_not_found found)) _ s
        (refused refl) λ now ms later. rw h (refl, refl)

  -- The table of drafts after the update.
  abbrev written : PostDraft → ℕ → Time → Tables → Tables
  written draft version now t =
      put_drafts
        (update_where (has_version (inputs.codec.text draft.post_id) version)
          (next_draft (draft_row inputs draft 0) now) t.drafts)
        t

  module _ (t : Tables) (post : Post) (version : ℕ) (draft : PostDraft)
      (ready : Ready t post version draft) (now : Time) where
    found_again :
        find_row (draft_key (inputs.codec.text id)) (written draft version now t).drafts
        ≡ some (next_draft (draft_row inputs draft 0) now ready.old)
    found_again =
        find-update (draft_key (inputs.codec.text id))
          (has_version (inputs.codec.text draft.post_id) version)
          (next_draft (draft_row inputs draft 0) now) (λ r. refl) t.drafts
        ∙ rw ready.held_draft (rw hit refl)
      where
        hit : has_version (inputs.codec.text draft.post_id) version ready.old ≡ true
        hit =
            let key =
              find-fits (draft_key (inputs.codec.text id)) t.drafts ready.old ready.held_draft in
            rw ready.own (ground (arith, key, ready.is_version))

    finish_draft-Holds :
        (s : Session Tables)
        → s.tables ≡ written draft version now t
        → AssetsFit inputs.codec draft post.author_id t
        → Holds (Written t) (SaveError t) (finish_draft inputs draft s)
    unfolding finish_draft
    finish_draft-Holds s same fit =
        bind-Holds (SaveError t) (replace_draft_refs inputs.codec draft)
          (λ _. find_updated_at (inputs.codec.text draft.post_id) >>= λ u.
            pure (record draft { updated_at = u }))
          (λ _ s'. Replaced inputs.codec draft s.tables s'.tables) (Written t) s
          (replace_draft_refs-Holds (SaveError t) (refused refl) inputs.codec draft s)
          λ done s' replaced.
            let final : s'.tables ≡ kept_refs = rw same at replaced in
            bind-Holds (SaveError t) (find_updated_at (inputs.codec.text draft.post_id))
              (λ u. pure (record draft { updated_at = u }))
              (λ u s''. (u ≡ now) × (s''.tables ≡ s'.tables)) (Written t) s'
              (updated_at-Holds t (inputs.codec.text draft.post_id)
                (next_draft (draft_row inputs draft 0) now ready.old) s'
                (rw final (
                  ap
                    (λ x.
                      find_row (draft_key (inputs.codec.text x))
                        (written draft version now t).drafts)
                    ready.own
                  ∙ found_again)))
              λ u s'' (stamp, as_before). rw (as_before ∙ final, stamp) saved
      where
        kept_refs : Tables
        kept_refs =
            put_refs
              (delete_where (owner_key 1 (inputs.codec.text draft.post_id)) t.refs
                ++ (cover_refs inputs.codec draft draft.cover
                    ++ image_refs inputs.codec draft draft.asset_refs))
              (written draft version now t)

        saved : Saved t kept_refs (record draft { updated_at = now })
        saved = record {
          row = ready.row;
          old = ready.old;
          post = post;
          draft = draft;
          held = ready.held;
          held_draft = ready.held_draft;
          restored = ready.restored;
          applied = rw ready.is_version ready.applied;
          own = ready.own;
          version = ground (arith, ready.sound, ready.is_version);
          schema = ground (arith, ready.sound);
          images = ground (arith, ready.sound);
          assets = fit;
          now = now;
          stored = found_again;
          other_drafts = λ x p.
              find-update_other (draft_key x)
                (has_version (inputs.codec.text draft.post_id) version)
                (next_draft (draft_row inputs draft 0) now) (λ r. refl)
                (λ r h. rw ready.own (ground (arith, p))) t.drafts;
          references = refl;
          answer = refl;
        }

  write_draft-Holds :
      (s : Session Tables) (post : Post) (version : ℕ) (draft : PostDraft)
      → Ready s.tables post version draft
      → Holds (Written s.tables) (SaveError s.tables) (write_draft inputs post version draft s)
  unfolding write_draft update_with_version
  write_draft-Holds s post version draft ready =
      bind-Holds (SaveError s.tables) (validate_draft_assets inputs.codec draft post.author_id) _
        (λ _ s'. (s'.tables ≡ s.tables) × AssetsFit inputs.codec draft post.author_id s.tables)
        (Written s.tables) s
        (validate_draft_assets-then inputs.codec draft post.author_id (SaveError s.tables) s
          (λ e h. unfit post draft h))
        λ done s1 (same, fit).
          call_then (SaveError s.tables) Error.driver
            (λ now t. (
              affected (has_version (inputs.codec.text draft.post_id) version) t.drafts,
              written draft version now t,
            ))
            (finish_updated inputs draft) (Written s.tables) s1 (refused refl)
            λ now ms later.
              elim (Bool-cases (
                affected (has_version (inputs.codec.text draft.post_id) version) s1.tables.drafts
                == 0)) [
                  | inl raced ↦ rw raced (conflict refl)
                  | inr one ↦ rw one (
                      finish_draft-Holds s.tables post version draft ready now
                        (record {
                          tables = written draft version now s1.tables;
                          now = now;
                          script = ms;
                        })
                        (rw same refl) fit)
                ]

  check_draft-Holds :
      (s : Session Tables) (row : PostRow) (old : DraftRow) (post : Post) (draft : Option PostDraft)
      → find_row (post_key (inputs.codec.text id)) s.tables.posts ≡ some row
      → find_row (draft_key (inputs.codec.text id)) s.tables.drafts ≡ some old
      → restore_post inputs.codec row ≡ ok post
      → apply post old.draft_version ≡ ok draft
      → Holds
          (Written s.tables)
          (SaveError s.tables)
          (check_draft inputs id post old.draft_version draft s)
  check_draft-Holds s row old post none held held_draft restored applied = mismatch refl
  check_draft-Holds s row old post (some draft) held held_draft restored applied =
      elim (Bool-cases
        (not (draft.post_id == id) || not (is_sound (old.draft_version + 1) draft))) [
          | inl wrong ↦ rw wrong (mismatch refl)
          | inr right ↦ rw right (
              write_draft-Holds s post old.draft_version draft (record {
                row = row;
                old = old;
                held = held;
                held_draft = held_draft;
                is_version = refl;
                restored = restored;
                applied = applied;
                own = ground arith;
                sound = ground arith;
              }))
        ]

  applying :
      (s : Session Tables) (row : PostRow) (old : DraftRow) (post : Post)
      (r : Result Error (Option PostDraft))
      → find_row (post_key (inputs.codec.text id)) s.tables.posts ≡ some row
      → find_row (draft_key (inputs.codec.text id)) s.tables.drafts ≡ some old
      → restore_post inputs.codec row ≡ ok post
      → apply post old.draft_version ≡ r
      → Holds
          (Written s.tables)
          (SaveError s.tables)
          ((lift_result r >>= check_draft inputs id post old.draft_version) s)
  applying s row old post (ok draft) held held_draft restored applied =
      check_draft-Holds s row old post draft held held_draft restored applied
  applying s row old post (err e) held held_draft restored applied =
      forbidden post old.draft_version applied

  restoring :
      (s : Session Tables) (row : PostRow) (old : DraftRow) (r : Result Error Post)
      → find_row (post_key (inputs.codec.text id)) s.tables.posts ≡ some row
      → find_row (draft_key (inputs.codec.text id)) s.tables.drafts ≡ some old
      → restore_post inputs.codec row ≡ r
      → Holds (Written s.tables) (SaveError s.tables) (
          (lift_result r >>= λ post.
          lift_result (apply post old.draft_version)
          >>= check_draft inputs id post old.draft_version)
            s)
  restoring s row old (ok post) held held_draft restored =
      applying s row old post (apply post old.draft_version) held held_draft restored refl
  restoring s row old (err e) held held_draft restored = unreadable row restored

  reading :
      (s : Session Tables) (row : PostRow) (found : Option DraftRow) (version : ℕ)
      → find_row (post_key (inputs.codec.text id)) s.tables.posts ≡ some row
      → find_row (draft_key (inputs.codec.text id)) s.tables.drafts ≡ found
      → version_of found ≡ some version
      → Holds (Written s.tables) (SaveError s.tables) (apply_save inputs id apply row version s)
  reading s row none version held held_draft is_version = cc
  reading s row (some old) version held held_draft is_version =
      let same : version ≡ old.draft_version = cc in
      rw same (restoring s row old (restore_post inputs.codec row) held held_draft refl)

  save_body-Holds :
      (s : Session Tables)
      → Holds (Written s.tables) (SaveError s.tables) (save_body inputs id apply s)
  unfolding save_body find_post find_draft_version
  save_body-Holds s =
      bind-Holds (SaveError s.tables) (read_current inputs.codec id) (save_row inputs id apply)
        (λ row s'.
          (find_row (post_key (inputs.codec.text id)) s.tables.posts ≡ some row)
          × (s'.tables ≡ s.tables))
        (Written s.tables) s
        (read-Holds (SaveError s.tables) (Error.sentinel Sentinel.post_not_found)
          (λ t. find_row (post_key (inputs.codec.text id)) t.posts) s (refused refl) (no_post refl))
        λ row s1 (held, same).
          bind-Holds (SaveError s.tables) (read_version inputs id) (apply_save inputs id apply row)
            (λ version s'.
              (version_of (find_row (draft_key (inputs.codec.text id)) s1.tables.drafts)
                ≡ some version)
              × (s'.tables ≡ s1.tables))
            (Written s.tables) s1
            (read-Holds (SaveError s.tables) (Error.sentinel Sentinel.draft_not_found)
              (λ t. version_of (find_row (draft_key (inputs.codec.text id)) t.drafts)) s1
              (refused refl) (no_draft refl))
            λ version s2 (found, as_before).
              let kept : s2.tables ≡ s.tables = as_before ∙ same in
              rw (← kept) (reading s2 row _ version (rw kept held) refl (rw as_before found))

  -- `SavePostDraft` either fails, with the driver's error or for one of the reasons of SaveError, and
  -- changes no table; or it commits. Then the stored post could be restored and the callback
  -- accepted the stored version with a draft of this post, of the next version and of schema 1, that
  -- counts its images; the assets that the draft shows are stored, each once, usable and the
  -- author's; the stored draft is that draft, the other drafts are as before; its references are
  -- exactly its cover and its images; the other tables are as before; and the answer is
  -- the draft with the time of the update.
  -- The exception is a commit that is stored and whose answer is lost: the driver's error comes
  -- back, with the tables of the commit.
  pub save_post_draft-Outcome :
      (db : Database) (s : Session Tables)
      → Outcome
          (λ result t. Saved s.tables t result)
          (SaveError s.tables)
          s.tables
          (save_post_draft inputs db id apply s)
  unfolding save_post_draft
  save_post_draft-Outcome db s = elim (Bool-cases (is_zero id)) [
    | inl zero ↦ rw zero (nobody refl, inl refl)
    | inr known ↦ rw known (
        transact-Outcome db (λ result t. Saved s.tables t result) (SaveError s.tables)
          (save_body inputs id apply) s (refused refl) (save_body-Holds s))
  ]

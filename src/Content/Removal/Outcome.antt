-- ===== src/Content/Removal/Outcome.antt =====
-- What a deletion has done when it returns, and that it is for good.
use lets_go.Prelude.{
  ℕ, ◌+◌, ◌≡◌, refl, sym, ap, ◌∙◌, ◌≢◌, inl, inr, Bool, true, false, Option, none, some, List, [],
  ◌∷◌, ◌==◌, arith, if◌then◌else◌, Bool-cases, All,
}
use lets_go.Sql.{Session, Result, ok, err, ◌>>◌, pure, fail}
use lets_go.Sql.Table.{
  find_row, affected, find-update, find-update_other, find-delete, find-delete_other, find-All,
}
use lets_go.Sql.Outcome.{Holds, Outcome, bind-Holds, call_then, transact-Outcome, Holds-mono}
use lets_go.Content.Errors.{error_driver, Sentinel, Message, Error}
use lets_go.Content.Tables.{Ident, Time, PostRow, Tables}
use lets_go.Content.Ids.{Uuid, UuidCodec, is_zero, parse_post_id, parse_user_id}
use lets_go.Content.Tasks.{Database}
use lets_go.Content.Tasks.Rules.{read-Holds}
use lets_go.Content.Post.{Post, delete, deleted_post}
use lets_go.Content.Post.Rules.{MayChange, Matches, delete-MayChange}
use lets_go.Content.Tasks.{TaskContext}
use lets_go.Content.Cards.{
  PostCardPublication, CardInputs, post_key, card_key, find_post, post_fault, handle_card,
}
use lets_go.Content.Cards.Handle.{HandlerError, Applied, handle_card-Holds}
use lets_go.Content.Removal.{
  PostDeletionResult, restored, and_then, restore_revision, restore_post, may_delete, deleted_row,
  update_for_delete, delete_card, remove_row, check_removal, after_callback, apply_removal,
  read_current, removal_body, delete_post,
}

-- The row of a post that is deleted: the status 4, the times and the next version.
abbrev gone_row : Time → PostRow → PostRow
gone_row now row = record row {
  lifecycle_status = 4;
  deleted_at = some now;
  updated_at = now;
  post_version = row.post_version + 1;
}

-- The columns that a restored post has from its row.
pub restore-same :
    (codec : UuidCodec) (row : PostRow) (post : Post)
    → restore_post codec row ≡ ok post
    → (post.lifecycle_status ≡ row.lifecycle_status)
      × (post.version ≡ row.post_version)
      × (post.deleted_at ≡ row.deleted_at)
restore-same codec row post h = first (parse_post_id codec row.post_id) h
  where
    Same : Type 0
    Same =
        (post.lifecycle_status ≡ row.lifecycle_status)
        × (post.version ≡ row.post_version)
        × (post.deleted_at ≡ row.deleted_at)

    third :
        (id author : Uuid) (r : Result Error (Option Uuid))
        → and_then r (λ revision_id. ok (restored row id author revision_id)) ≡ ok post
        → Same
    third id author (err e) k = cc
    third id author (ok revision_id) k =
        let same : restored row id author revision_id ≡ post = cc in
        (
          sym (ap (λ (p : Post). p.lifecycle_status) same),
          sym (ap (λ (p : Post). p.version) same),
          sym (ap (λ (p : Post). p.deleted_at) same),
        )

    second :
        (id : Uuid) (r : Result Error Uuid)
        → and_then r (λ author.
          and_then
            (restore_revision codec row.published_revision_id)
            (λ revision_id. ok (restored row id author revision_id)))
          ≡ ok post
        → Same
    second id (err e) k = cc
    second id (ok author) k = third id author (restore_revision codec row.published_revision_id) k

    first :
        (r : Result Error Uuid)
        → and_then r (λ id. and_then (parse_user_id codec row.author_id) (λ author.
          and_then
            (restore_revision codec row.published_revision_id)
            (λ revision_id. ok (restored row id author revision_id))))
          ≡ ok post
        → Same
    first (err e) k = cc
    first (ok id) k = second id (parse_user_id codec row.author_id) k

module _ (codec : UuidCodec) (id actor_id : Uuid) (expected : ℕ) (now : Time) where
  -- A deletion that was committed.
  pub record Removed (before after : Tables) (result : PostDeletionResult) : Type 0 where
    pub row : PostRow
    pub post : Post
    pub held : find_row (post_key (codec.text id)) before.posts ≡ some row
    pub stored : restore_post codec row ≡ ok post
    pub may : MayChange actor_id post
    pub fits : Matches expected row.post_version
    pub deleted : find_row (post_key (codec.text id)) after.posts ≡ some (gone_row now row)
    pub no_card : find_row (card_key (codec.text id)) after.cards ≡ none
    pub other_posts :
        (x : Ident)
        → x ≢ codec.text id
        → find_row (post_key x) after.posts ≡ find_row (post_key x) before.posts
    pub other_cards :
        (x : Ident)
        → x ≢ codec.text id
        → find_row (card_key x) after.cards ≡ find_row (card_key x) before.cards
    pub frame : after ≡ record before { posts = after.posts; cards = after.cards }
    pub answer :
        (result.post_id ≡ id) × (result.post_version ≡ expected + 1) × (result.deleted_at ≡ now)

  abbrev Stored : Tables → PostDeletionResult → Session Tables → Type 0
  Stored before result s' = Removed before s'.tables result

  abbrev by_actor : Post → Result Error Post
  by_actor p = delete (some p) actor_id expected now

  -- The errors of a deletion: of the stored row, of the rules of posts, and of the statements.
  pub data DeletionError (before : Tables) (e : Error) : Type 0 where
    nobody :
        is_zero id ≡ true → e ≡ Error.sentinel Sentinel.invalid_post_id → DeletionError before e
    refused : e ≡ Error.driver → DeletionError before e
    missing : e ≡ Error.sentinel Sentinel.post_not_found → DeletionError before e
    unreadable :
        (row : PostRow)
        → find_row (post_key (codec.text id)) before.posts ≡ some row
        → restore_post codec row ≡ err e
        → DeletionError before e
    forbidden :
        (row : PostRow) (post : Post)
        → find_row (post_key (codec.text id)) before.posts ≡ some row
        → restore_post codec row ≡ ok post
        → delete (some post) actor_id expected now ≡ err e
        → DeletionError before e
    mismatch : e ≡ Error.message Message.callback_result → DeletionError before e
    conflict : e ≡ Error.sentinel Sentinel.post_version_conflict → DeletionError before e

  remove_row-Holds :
      (row : PostRow) (post : Post) (s : Session Tables)
      → find_row (post_key (codec.text id)) s.tables.posts ≡ some row
      → restore_post codec row ≡ ok post
      → MayChange actor_id post
      → Matches expected post.version
      → Holds
          (Stored s.tables)
          (DeletionError s.tables)
          (remove_row codec id row (deleted_post now post) now s)
  unfolding update_for_delete delete_card
  remove_row-Holds row post s held stored may fits =
      call_then (DeletionError s.tables) Error.driver _
        (λ n.
          (if n == 0 then fail (Error.sentinel Sentinel.post_version_conflict) else pure tt)
          >> (delete_card (codec.text id) >> pure answer))
        (Stored s.tables) s (refused refl)
        λ now1 ms1 later1.
          elim (Bool-cases (
            affected (may_delete row.author_id (codec.text id) row.post_version) s.tables.posts
            == 0)) [
              | inl raced ↦ rw raced (conflict refl)
              | inr one ↦ rw one (
                  call_then (DeletionError s.tables) Error.driver _ (λ _. pure answer)
                    (Stored s.tables) _ (refused refl)
                    λ now2 ms2 later2. record {
                      row = row;
                      post = post;
                      held = held;
                      stored = stored;
                      may = may;
                      fits = rw (← same.1) fits;
                      deleted =
                          find-update (post_key (codec.text id)) removable (deleted_row now)
                            (λ r. refl) s.tables.posts
                          ∙ rw held (rw hit refl);
                      no_card = find-delete (card_key (codec.text id)) s.tables.cards;
                      other_posts = λ x p.
                          find-update_other (post_key x) removable (deleted_row now) (λ r. refl)
                            (λ r h. ground (arith, p)) s.tables.posts;
                      other_cards = λ x p.
                          find-delete_other (card_key x) (card_key (codec.text id))
                            (λ r h. ground (arith, p)) s.tables.cards;
                      frame = refl;
                      answer = (refl, omega (arith, fits.same), refl);
                    })
            ]
    where
      answer : PostDeletionResult
      answer = record { post_id = id; post_version = post.version + 1; deleted_at = now }

      removable : PostRow → Bool
      removable = may_delete row.author_id (codec.text id) row.post_version

      same :
          (post.lifecycle_status ≡ row.lifecycle_status)
          × (post.version ≡ row.post_version)
          × (post.deleted_at ≡ row.deleted_at)
      same = restore-same codec row post stored

      own : row.post_id ≡ codec.text id
      own =
          let (none_asked, fit) =
            find-All (λ (r : PostRow). Unit {0}) (post_key (codec.text id)) s.tables.posts row
              (everywhere s.tables.posts) held in
          ground arith
        where
          everywhere : (rows : List PostRow) → All (λ r. Unit {0}) rows
          everywhere [] = tt
          everywhere (x ∷ rows) = (tt, everywhere rows)

      hit : removable row ≡ true
      hit =
          let alive : row.deleted_at ≡ none = sym same.2 ∙ may.present in
          let open_row : (row.lifecycle_status == 4) ≡ false = ground (arith, same.0, may.status) in
          rw (alive, open_row) (ground (arith, own))

  removal_body-Holds :
      (s : Session Tables)
      → Holds (Stored s.tables) (DeletionError s.tables) (removal_body codec id by_actor s)
  unfolding removal_body find_post
  removal_body-Holds s =
      bind-Holds (DeletionError s.tables) (read_current codec id)
        (λ current. apply_removal codec id by_actor current (restore_post codec current))
        (λ row s'.
          (find_row (post_key (codec.text id)) s.tables.posts ≡ some row) × (s'.tables ≡ s.tables))
        (Stored s.tables) s
        (read-Holds (DeletionError s.tables) (Error.sentinel Sentinel.post_not_found)
          (λ t. find_row (post_key (codec.text id)) t.posts) s (refused refl) (missing refl))
        λ row s' (held, kept).
          rw (← kept) (restoring row s' (rw kept held) (restore_post codec row) refl)
    where
      checking :
          (row : PostRow) (post : Post) (s' : Session Tables)
          → find_row (post_key (codec.text id)) s'.tables.posts ≡ some row
          → restore_post codec row ≡ ok post
          → MayChange actor_id post
          → Matches expected post.version
          → (wrong : Bool)
          → Holds (Stored s'.tables) (DeletionError s'.tables) (
              check_removal codec id row
                (deleted_post now post)
                (if wrong then none else some now)
                s')
      checking row post s' held stored may fits true = mismatch refl
      checking row post s' held stored may fits false =
          remove_row-Holds row post s' held stored may fits

      deleting :
          (row : PostRow) (post : Post) (s' : Session Tables) (after : Result Error Post)
          → find_row (post_key (codec.text id)) s'.tables.posts ≡ some row
          → restore_post codec row ≡ ok post
          → by_actor post ≡ after
          → Holds
              (Stored s'.tables)
              (DeletionError s'.tables)
              (after_callback codec id row after s')
      deleting row post s' (err e) held stored done = forbidden row post held stored done
      deleting row post s' (ok after) held stored done =
          let (may, fits, made) = (delete-MayChange post actor_id expected now after).0 done in
          rw made (checking row post s' held stored may fits _)

      restoring :
          (row : PostRow) (s' : Session Tables)
          → find_row (post_key (codec.text id)) s'.tables.posts ≡ some row
          → (r : Result Error Post) → restore_post codec row ≡ r
          → Holds
              (Stored s'.tables)
              (DeletionError s'.tables)
              (apply_removal codec id by_actor row r s')
      restoring row s' held (err e) stored = unreadable row held stored
      restoring row s' held (ok post) stored = deleting row post s' (by_actor post) held stored refl

  -- `DeletePost` with the callback of a deletion by an actor who expects a version either fails and
  -- leaves every table as it was; or it commits. Then the stored post was one that the actor may
  -- change, at the expected version, which can be counted up; the post's row has the status 4, the
  -- time as that of its deletion and of its update, and one version more; the post has no card any
  -- more; the other posts, the other cards and the other tables are as before; and the answer says
  -- so. It fails with the driver's error, for an id that is zero, for a post that is missing or
  -- changed meanwhile, for a stored row that cannot be restored, with the error by which the rules
  -- refuse the stored post, or for a callback whose result does not fit the row. The exception is a
  -- commit that is stored and whose answer is lost: the driver's error comes back, with the tables
  -- of the commit.
  pub delete_post-Outcome :
      (db : Database) (s : Session Tables)
      → Outcome
          (λ result t. Removed s.tables t result)
          (DeletionError s.tables)
          s.tables
          (delete_post codec id db by_actor s)
  unfolding delete_post
  delete_post-Outcome db s = elim (Bool-cases (is_zero id)) [
    | inl zero ↦ rw zero (nobody zero refl, inl refl)
    | inr known ↦ rw known (
        transact-Outcome db (λ result t. Removed s.tables t result) (DeletionError s.tables)
          (removal_body codec id by_actor) s (refused refl) (removal_body-Holds s))
  ]

-- A deleted post gets no card again: on the tables that a committed deletion has left, the handler
-- of cards returns no error only for a task whose payload names another post.
pub handle_card-Removed :
    (inputs : CardInputs) (id actor_id : Uuid) (expected : ℕ) (now : Time) (before : Tables)
    (result : PostDeletionResult) (task : TaskContext) (s : Session Tables)
    → Removed inputs.codec id actor_id expected now before s.tables result
    → Holds
        (λ _ s'. (a : Applied inputs task s.tables s'.tables) × (a.publication.post_id ≢ id))
        HandlerError
        (handle_card inputs task s)
handle_card-Removed inputs id actor_id expected now before result task s removed =
    Holds-mono (λ _ s'. Applied inputs task s.tables s'.tables) _ HandlerError HandlerError _
      (λ _ s' a. (a, λ same. never a.projected.post (rw same at a.projected.held) (fits a same)))
      (λ e h. h) (handle_card-Holds inputs task s)
  where
    fits :
        {after : Tables} (a : Applied inputs task s.tables after)
        → a.publication.post_id ≡ id
        → a.projected.post.lifecycle_status ≡ 3
    fits a same = published inputs.codec a.publication a.projected.post a.projected.fits
      where
        published :
            (codec : UuidCodec) (p : PostCardPublication) (post : PostRow)
            → post_fault codec p post ≡ none
            → post.lifecycle_status ≡ 3
        published codec p post h = ground arith

    never :
        (post : PostRow)
        → find_row (post_key (inputs.codec.text id)) s.tables.posts ≡ some post
        → post.lifecycle_status ≡ 3
        → ⊥
    never post held published =
        let same : some post ≡ some (gone_row now removed.row) = sym held ∙ removed.deleted in
        let eq : post ≡ gone_row now removed.row = cc in
        let gone : post.lifecycle_status ≡ 4 = ap (λ (r : PostRow). r.lifecycle_status) eq in
        omega (arith, gone, published)

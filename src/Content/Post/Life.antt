-- ===== src/Content/Post/Life.antt =====
-- The life of a post under `Publish` and `Delete` (internal/domain/post.go), by any actors with
-- any arguments: what holds of every post, and what a reader sees of it.
use lets_go.Prelude.{
  ℕ, ◌+◌, ◌≤◌, ◌<◌, ◌≡◌, refl, ap, ◌∙◌, ◌≢◌, ◌⊎◌, inl, inr, true, not, Option, none, some, is_some,
  arith, Bool-cases,
}
use lets_go.Sql.{Result, ok, err}
use lets_go.Content.Errors.{Sentinel, Error}
use lets_go.Content.Tables.{Time}
use lets_go.Content.Ids.{Uuid, is_zero}
use lets_go.Content.Post.Draft.{PostDraft, DraftContent, PostRevision, create_new_post_revision}
use lets_go.Content.Post.{
  Post, max_uint64, visibility_valid, new_post, change_fault, draft_post, state_fault, unless,
  delete, replace_draft, published_post, publish, current_public_revision, belongs_to,
}
use lets_go.Content.Post.Rules.{
  MayChange, Publishable, unless-ok, delete-MayChange, publish-Publishable, replace-MayChange,
}

-- A post that the methods have made: it is a draft, published or deleted, and its other fields fit.
pub record IsValidPost (post : Post) : Type 0 where
  pub known : (post.author_id ≢ 0) × ((1 ≤ post.visibility) × (post.visibility ≤ 3))
  pub status :
      (post.lifecycle_status ≡ 1) ⊎ ((post.lifecycle_status ≡ 3) ⊎ (post.lifecycle_status ≡ 4))
  pub deleted :
      ((post.lifecycle_status ≡ 4) × (is_some post.deleted_at ≡ true))
      ⊎ ((post.lifecycle_status ≢ 4) × (post.deleted_at ≡ none))
  pub revised :
      ((post.revision_sequence ≡ 0)
        × (post.lifecycle_status ≢ 3)
        × (post.published_revision_id ≡ none)
        × (post.first_published_at ≡ none)
        × (post.last_published_at ≡ none))
      ⊎ ((0 < post.revision_sequence)
          × (post.lifecycle_status ≢ 1)
          × (is_some post.published_revision_id ≡ true)
          × (is_some post.first_published_at ≡ true)
          × (is_some post.last_published_at ≡ true))
  pub counted :
      (0 < post.version) × (post.version ≤ max_uint64) × (post.revision_sequence ≤ max_uint64)
  pub ahead : post.revision_sequence < post.version

pub data Action : Type 0 where
  publishes : Uuid → Option PostDraft → Uuid → Action
  deletes : Uuid → ℕ → Action

abbrev pub revised_post : Result Error (PostRevision × Post) → Result Error Post
revised_post (ok (revision, post)) = ok post
revised_post (err e) = err e

abbrev pub act : Action → Time → Post → Result Error Post
act (Action.publishes actor_id draft revision_id) now post =
    revised_post (publish post actor_id draft revision_id now)
act (Action.deletes actor_id expected) now post = delete (some post) actor_id expected now

-- One accepted action on a post.
pub record Progress (before after : Post) : Type 0 where
  pub valid : IsValidPost before → IsValidPost after
  pub version : after.version ≡ before.version + 1
  pub revisions : before.revision_sequence ≤ after.revision_sequence
  pub alive : before.lifecycle_status ≢ 4
  pub same :
      (after.post_id ≡ before.post_id)
      × (after.author_id ≡ before.author_id)
      × (after.created_at ≡ before.created_at)
  pub first :
      is_some before.first_published_at ≡ true
      → after.first_published_at ≡ before.first_published_at

kept_time :
    (now : Time) (t : Option Time)
    → is_some t ≡ true
    → (elim t [ none ↦ some now | some t ↦ some t ]) ≡ t
kept_time now none e = cc
kept_time now (some t) e = refl

revised_post-ok :
    (r : Result Error (PostRevision × Post)) (post : Post)
    → revised_post r ≡ ok post
    → (revision : PostRevision) × (r ≡ ok (revision, post))
revised_post-ok (ok (revision, x)) post h = let p : x ≡ post = cc in (revision, rw p refl)
revised_post-ok (err e) post h = cc

apart : {A : Type 0} {e : Error} {a : A} → err e ≡ ok a → ⊥
apart h = cc

published-IsValidPost :
    (draft : PostDraft) (actor_id revision_id : Uuid) (now : Time) (post : Post)
    → MayChange actor_id post
    → Publishable post draft revision_id
    → IsValidPost post
    → IsValidPost (published_post revision_id now post)
published-IsValidPost draft actor_id revision_id now post may fit v = record {
  known = v.known;
  status = inr (inl refl);
  deleted = inr (ground arith, may.present);
  revised = inr (omega arith, ground arith, refl, first post.first_published_at, refl);
  counted = ground (arith, v.counted, fit.room);
  ahead = omega (arith, v.ahead);
}
  where
    first : (t : Option Time) → is_some (elim t [ none ↦ some now | some t ↦ some t ]) ≡ true
    first none = refl
    first (some t) = refl

-- `Publish` and `Delete`, where they succeed: they act on a post that is not deleted, count its
-- version up by one, never count its revisions down, keep its id, author, time of creation and
-- time of first publication, and keep a valid post valid.
pub act-Progress :
    (action : Action) (now : Time) (before after : Post)
    → act action now before ≡ ok after
    → Progress before after
act-Progress (Action.publishes actor_id none revision_id) now before after h =
    let (revision, made) = revised_post-ok _ after h in
    let (open_post, rest) =
      unless-ok (change_fault Sentinel.publish_not_allowed actor_id before)
        (unless (state_fault before) (err (Error.sentinel Sentinel.draft_not_found)))
        (revision, after) made in
    let (state, done) =
      unless-ok (state_fault before) (err (Error.sentinel Sentinel.draft_not_found))
        (revision, after) rest in
    let absurd : err (Error.sentinel Sentinel.draft_not_found) ≡ ok (revision, after) = done in
    elim (apart absurd) [ ]
act-Progress (Action.publishes actor_id (some draft) revision_id) now before after h =
    let (revision, made) = revised_post-ok _ after h in
    let (may, fit, pair) =
      (publish-Publishable before actor_id draft revision_id now (revision, after)).0 made in
    let same : after ≡ published_post revision_id now before =
      ap (λ (r : PostRevision × Post). r.1) pair in
    rw same (record {
      valid = published-IsValidPost draft actor_id revision_id now before may fit;
      version = refl;
      revisions = omega arith;
      alive = ground (arith, may.status);
      same = (refl, refl, refl);
      first = kept_time now before.first_published_at;
    })
act-Progress (Action.deletes actor_id expected) now before after h =
    let (may, fits, made) = (delete-MayChange before actor_id expected now after).0 h in
    rw made (record {
      valid = λ v. record {
        known = v.known;
        status = inr (inr refl);
        deleted = inl (refl, refl);
        revised = ground (arith, v.revised);
        counted = ground (arith, v.counted, fits.below);
        ahead = omega (arith, v.ahead);
      };
      version = refl;
      revisions = omega arith;
      alive = ground (arith, may.status);
      same = (refl, refl, refl);
      first = λ e. refl;
    })

new_post-IsValidPost :
    (id : Option Uuid) (author_id : Uuid) (visibility : ℕ) (now : Time) (post : Post)
    → new_post id author_id visibility now ≡ ok post
    → IsValidPost post
new_post-IsValidPost none author_id visibility now post h = cc
new_post-IsValidPost (some id) author_id visibility now post h =
    elim (Bool-cases (not (visibility_valid visibility))) [
      | inl wrong ↦ let h' = rw wrong at h in cc
      | inr right ↦ elim (Bool-cases (is_zero author_id)) [
        | inl nobody ↦ let h' = rw (right, nobody) at h in cc
        | inr author ↦
            let h' = rw (right, author) at h in
            let same : draft_post id author_id visibility now ≡ post = cc in
            rw (← same) (record {
              known = ground arith;
              status = inl refl;
              deleted = inr (ground arith, refl);
              revised = inl (refl, ground arith, refl, refl, refl);
              counted = ground arith;
              ahead = ground arith;
            })
      ]
    ]

-- A post that `NewPost` has made and accepted actions have changed.
pub data Life : Post → Type 0 where
  born :
      (id : Option Uuid) (author_id : Uuid) (visibility : ℕ) (now : Time) (post : Post)
      → new_post id author_id visibility now ≡ ok post
      → Life post
  acted :
      (action : Action) (now : Time) (before after : Post)
      → Life before
      → act action now before ≡ ok after
      → Life after

-- Every post that `NewPost` makes and any accepted calls of `Publish` and `Delete` change, by
-- whomever and whenever, is valid: it has an author and a known visibility, it is a draft,
-- published or deleted, it has a time of deletion exactly when deleted, it has a revision
-- and the times of publication exactly when it was published once, and its counters fit in 64
-- bits.
pub Life-IsValidPost : (post : Post) → Life post → IsValidPost post
Life-IsValidPost post (born id author_id visibility now _ made) =
    new_post-IsValidPost id author_id visibility now post made
Life-IsValidPost post (acted action now before _ life done) =
    (act-Progress action now before post done).valid (Life-IsValidPost before life)

-- What `Publish` made of a public post is what a reader is shown: `CurrentPublicRevision` returns
-- the new revision, which belongs to the post and carries the post's revision number.
pub current_public_revision-publish :
    (post : Post) (actor_id : Uuid) (draft : PostDraft) (revision_id : Uuid) (now : Time)
    (revision : PostRevision) (after : Post)
    → post.visibility ≡ 1
    → publish post actor_id (some draft) revision_id now ≡ ok (revision, after)
    → (current_public_revision (some after) ≡ ok revision.revision_id)
      × (belongs_to (some revision) after.post_id ≡ true)
      × (revision.revision_number ≡ after.revision_sequence)
current_public_revision-publish post actor_id draft revision_id now revision after public done =
    let (may, fit, pair) =
      (publish-Publishable post actor_id draft revision_id now (revision, after)).0 done in
    let p : revision
        ≡ create_new_post_revision revision_id post.post_id (post.revision_sequence + 1) draft now =
      ap (λ (r : PostRevision × Post). r.0) pair in
    let q : after ≡ published_post revision_id now post =
      ap (λ (r : PostRevision × Post). r.1) pair in
    (
      ap (λ (x : Post). current_public_revision (some x)) q
          ∙ shown may.present fit.available
          ∙ rw p refl,
      rw (p, q) (ground arith),
      rw (p, q) refl,
    )
  where
    shown :
        post.deleted_at ≡ none
        → post.availability_status ≡ 1
        → current_public_revision (some (published_post revision_id now post)) ≡ ok revision_id
    shown alive available = rw (alive, public, available) refl

-- A deletion is for good: once `Delete` has succeeded, no call of `Publish`, `Delete` or
-- `ReplaceDraft` on that post succeeds, whoever makes it, and a reader gets `ErrPostNotFound`.
pub delete_final :
    (post : Post) (actor_id : Uuid) (expected : ℕ) (now : Time) (after : Post)
    → delete (some post) actor_id expected now ≡ ok after
    → ((action : Action) (later : Time) (x : Post) → act action later after ≢ ok x)
      × ((actor : Uuid) (current version : ℕ) (content : DraftContent) (later : Time)
            (x : PostDraft)
          → replace_draft after actor current version (some content) later ≢ ok x)
      × (current_public_revision (some after) ≡ err (Error.sentinel Sentinel.post_not_found))
delete_final post actor_id expected now after done =
    let (may, fits, made) = (delete-MayChange post actor_id expected now after).0 done in
    let gone : after.lifecycle_status ≡ 4 = ap (λ (p : Post). p.lifecycle_status) made in
    (
      (λ action later x h. (act-Progress action later after x h).alive gone),
      (λ actor current version content later x h.
          let open_post = ((replace-MayChange after actor current version content later x).0 h).0 in
          let status = open_post.status in
          elim status [ inl p ↦ ground (arith, p, gone) | inr p ↦ ground (arith, p, gone) ]),
      rw made refl,
    )

-- A caller that has not seen the last change cannot delete: once `Publish` or `Delete` has
-- succeeded on a post, a deletion that expects the version before it fails.
pub delete_stale :
    (action : Action) (now : Time) (before after : Post) (actor_id : Uuid) (later : Time) (x : Post)
    → act action now before ≡ ok after
    → delete (some after) actor_id before.version later ≢ ok x
delete_stale action now before after actor_id later x done h =
    let (may, fits, made) = (delete-MayChange after actor_id before.version later x).0 h in
    omega (arith, fits.same, (act-Progress action now before after done).version)

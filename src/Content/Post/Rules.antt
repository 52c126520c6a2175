-- ===== src/Content/Post/Rules.antt =====
-- When exactly a post may be deleted, its draft replaced and the draft published.
use lets_go.Prelude.{
  ℕ, ◌+◌, ◌≤◌, ◌<◌, ◌≡◌, refl, ◌≢◌, ◌⊎◌, ◌↔◌, inl, inr, Bool, true, false, not, Option, none, some,
  ◌==◌, arith, if◌then◌else◌, Bool-cases, Option-cases,
}
use lets_go.Sql.{Result, ok}
use lets_go.Content.Errors.{Sentinel, Error}
use lets_go.Content.Tables.{Time}
use lets_go.Content.Ids.{Uuid, is_zero}
use lets_go.Content.Post.Draft.{
  PostDraft, DraftContent, PostRevision, draft_of, create_new_post_draft, create_new_post_revision,
  validate_for_publish,
}
use lets_go.Content.Post.{
  Post, max_uint64, change_fault, version_fault, unless, deleted_post, delete, with_version,
  replace_draft, published_post, state_fault, draft_fault, revision_id_fault, publish_draft,
  publish,
}

-- The actor is the author, and the post is a draft or published and not deleted.
pub record MayChange (actor_id : Uuid) (post : Post) : Type 0 where
  pub known : actor_id ≢ 0
  pub author : post.author_id ≡ actor_id
  pub status : (post.lifecycle_status ≡ 1) ⊎ (post.lifecycle_status ≡ 3)
  pub present : post.deleted_at ≡ none

-- The expected version is the stored one and can be counted up.
pub record Matches (expected current : ℕ) : Type 0 where
  pub same : expected ≡ current
  pub positive : 0 < expected
  pub below : current ≢ max_uint64

module _ {A : Type 0} where
  pub unless-ok :
      (fault : Option Error) (r : Result Error A) (a : A)
      → unless fault r ≡ ok a
      → (fault ≡ none) × (r ≡ ok a)
  unless-ok none r a h = (refl, h)
  unless-ok (some e) r a h = cc

  pub unless-none : (fault : Option Error) (r : Result Error A) → fault ≡ none → unless fault r ≡ r
  unless-none fault r h = rw h refl

pub change_fault-none :
    (closed : Sentinel) (actor_id : Uuid) (post : Post)
    → change_fault closed actor_id post ≡ none
    → MayChange actor_id post
change_fault-none closed actor_id post h = elim (Option-cases post.deleted_at) [
  | inl alive ↦ record {
    known = ground arith;
    author = ground arith;
    status = ground arith;
    present = alive;
  }
  | inr (t, gone) ↦ let h' = rw gone at h in ground arith
]

pub MayChange-fault :
    (closed : Sentinel) (actor_id : Uuid) (post : Post)
    → MayChange actor_id post
    → change_fault closed actor_id post ≡ none
MayChange-fault closed actor_id post h = rw h.present (ground (arith, h.known, h.author, h.status))

version_fault-none :
    (conflict : Sentinel) (current expected : ℕ)
    → version_fault conflict current expected ≡ none
    → Matches expected current
version_fault-none conflict current expected h = record {
  same = ground arith;
  positive = ground arith;
  below = ground arith;
}

Matches-fault :
    (conflict : Sentinel) (current expected : ℕ)
    → Matches expected current
    → version_fault conflict current expected ≡ none
Matches-fault conflict current expected h = ground (arith, h.same, h.positive, h.below)

-- `Delete` of a post succeeds exactly where the actor may change the post and expects its version,
-- and then returns the post as deleted now, with the next version and no other change.
pub delete-MayChange :
    (post : Post) (actor_id : Uuid) (expected : ℕ) (now : Time) (after : Post)
    → (delete (some post) actor_id expected now ≡ ok after)
      ↔ (MayChange actor_id post × Matches expected post.version × (after ≡ deleted_post now post))
delete-MayChange post actor_id expected now after = (to, from)
  where
    to :
        delete (some post) actor_id expected now ≡ ok after
        → MayChange actor_id post × Matches expected post.version × (after ≡ deleted_post now post)
    to h =
        let (open_post, rest) = unless-ok _ _ after h in
        let (fits, done) = unless-ok _ _ after rest in
        (
          change_fault-none Sentinel.post_operation_not_allowed actor_id post open_post,
          version_fault-none Sentinel.post_version_conflict post.version expected fits,
          cc,
        )

    from :
        MayChange actor_id post × Matches expected post.version × (after ≡ deleted_post now post)
        → delete (some post) actor_id expected now ≡ ok after
    from (may, fits, same) =
        rw
          (
            MayChange-fault Sentinel.post_operation_not_allowed actor_id post may,
            Matches-fault Sentinel.post_version_conflict post.version expected fits,
            same,
          )
          refl

-- What a publication asks beside the right to change the post.
pub record Publishable (post : Post) (draft : PostDraft) (revision_id : Uuid) : Type 0 where
  pub visibility : (1 ≤ post.visibility) × (post.visibility ≤ 3)
  pub available : post.availability_status ≡ 1
  pub own : draft.post_id ≡ post.post_id
  pub ready : validate_for_publish draft ≡ none
  pub revision : revision_id ≢ 0
  pub room : (post.version ≢ max_uint64) × (post.revision_sequence ≢ max_uint64)

publish_draft-ok :
    (post : Post) (draft : PostDraft) (revision_id : Uuid) (now : Time) (r : PostRevision × Post)
    → state_fault post ≡ none
    → publish_draft post (some draft) revision_id now ≡ ok r
    → Publishable post draft revision_id
      × (r ≡ (
        create_new_post_revision revision_id post.post_id (post.revision_sequence + 1) draft now,
        published_post revision_id now post,
      ))
publish_draft-ok post draft revision_id now r state h =
    let (fits, rest) = unless-ok (draft_fault post draft) _ r h in
    let (fresh, done) = unless-ok (revision_id_fault post revision_id) _ r rest in
    (
      record {
        visibility = ground arith;
        available = ground arith;
        own = ground arith;
        ready = ready (draft.post_id == post.post_id) fits;
        revision = ground arith;
        room = ground arith;
      },
      cc,
    )
  where
    ready :
        (own : Bool)
        → (if not own
            then some (Error.sentinel Sentinel.draft_post_mismatch)
            else validate_for_publish draft)
          ≡ none
        → validate_for_publish draft ≡ none
    ready true h = h
    ready false h = cc

-- `Publish` succeeds exactly where the actor may change the post, the post is visible to somebody
-- and available, the draft is the post's own and complete, the revision has an id, and both
-- counters can be counted up. It then returns the revision made of the draft under the next number,
-- and the post as published now with that revision and the next version.
pub publish-Publishable :
    (post : Post) (actor_id : Uuid) (draft : PostDraft) (revision_id : Uuid) (now : Time)
    (r : PostRevision × Post)
    → (publish post actor_id (some draft) revision_id now ≡ ok r) ↔ (
        MayChange actor_id post
        × Publishable post draft revision_id
        × (r ≡ (
          create_new_post_revision revision_id post.post_id (post.revision_sequence + 1) draft now,
          published_post revision_id now post,
        )))
publish-Publishable post actor_id draft revision_id now r = (to, from)
  where
    Made : Type 0
    Made = r ≡ (
      create_new_post_revision revision_id post.post_id (post.revision_sequence + 1) draft now,
      published_post revision_id now post,
    )

    to :
        publish post actor_id (some draft) revision_id now ≡ ok r
        → MayChange actor_id post × Publishable post draft revision_id × Made
    to h =
        let (open_post, rest) = unless-ok _ _ r h in
        let (state, done) = unless-ok (state_fault post) _ r rest in
        let (fit, made) = publish_draft-ok post draft revision_id now r state done in
        (change_fault-none Sentinel.publish_not_allowed actor_id post open_post, fit, made)

    from :
        MayChange actor_id post × Publishable post draft revision_id × Made
        → publish post actor_id (some draft) revision_id now ≡ ok r
    from (may, fit, made) =
        let state : state_fault post ≡ none = ground (arith, fit.visibility, fit.available) in
        let own : draft_fault post draft ≡ none = rw fit.own (ground (arith, fit.ready)) in
        let fresh : revision_id_fault post revision_id ≡ none =
          ground (arith, fit.revision, fit.room) in
        rw (MayChange-fault Sentinel.publish_not_allowed actor_id post may, state, own, fresh, made)
          refl

-- `ReplaceDraft` succeeds exactly where the actor may change the post and expects the version of
-- the stored draft, the post has an id and there is content. The new draft has the content given,
-- is made now, and has the next version.
pub replace-MayChange :
    (post : Post) (actor_id : Uuid) (current expected : ℕ) (content : DraftContent) (now : Time)
    (after : PostDraft)
    → (replace_draft post actor_id current expected (some content) now ≡ ok after) ↔ (
        MayChange actor_id post
        × Matches expected current
        × (post.post_id ≢ 0)
        × (after ≡ record (draft_of post.post_id content now) { version = current + 1 }))
unfolding create_new_post_draft
replace-MayChange post actor_id current expected content now after = (to, from)
  where
    Made : Type 0
    Made = after ≡ record (draft_of post.post_id content now) { version = current + 1 }

    named :
        with_version (current + 1) (create_new_post_draft post.post_id (some content) now)
          ≡ ok after
        → (post.post_id ≢ 0) × Made
    named h = elim (Bool-cases (is_zero post.post_id)) [
      | inl zero_id ↦ let h' = rw zero_id at h in cc
      | inr id ↦ let h' = rw id at h in (ground arith, cc)
    ]

    to :
        replace_draft post actor_id current expected (some content) now ≡ ok after
        → MayChange actor_id post × Matches expected current × (post.post_id ≢ 0) × Made
    to h =
        let (open_post, rest) = unless-ok _ _ after h in
        let (fits, done) = unless-ok _ _ after rest in
        let (id, made) = named done in
        (
          change_fault-none Sentinel.post_operation_not_allowed actor_id post open_post,
          version_fault-none Sentinel.draft_version_conflict current expected fits,
          id,
          made,
        )

    from :
        MayChange actor_id post × Matches expected current × (post.post_id ≢ 0) × Made
        → replace_draft post actor_id current expected (some content) now ≡ ok after
    from (may, fits, id, made) =
        let named : is_zero post.post_id ≡ false = ground (arith, id) in
        rw
          (
            MayChange-fault Sentinel.post_operation_not_allowed actor_id post may,
            Matches-fault Sentinel.draft_version_conflict current expected fits,
            named,
            made,
          )
          refl

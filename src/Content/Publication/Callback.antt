-- ===== src/Content/Publication/Callback.antt =====
-- The callback of `PublishPostLogic.PublishPost` (internal/logic/publish_post_logic.go).
use lets_go.Prelude.{
  ℕ, ◌+◌, ◌≡◌, refl, ◌≢◌, inl, inr, Bool, true, false, not, ◌||◌, Option, none, some, ◌==◌, arith,
  if◌then◌else◌, Bool-cases,
}
use lets_go.Sql.{Result, ok, err}
use lets_go.Content.Errors.{Sentinel, Error}
use lets_go.Content.Tables.{Time}
use lets_go.Content.Ids.{Uuid, is_zero}
use lets_go.Content.Post.{Post, published_post}
use lets_go.Content.Post.Draft.{
  Cover, PostDraft, PostRevision, create_new_post_revision, validate_for_publish, is_blank_text,
}
use lets_go.Content.Post.Rules.{MayChange, Publishable, publish-Publishable}
use lets_go.Content.Publication.Body.{with_revision, publish_callback}

-- What the callback asked, and what it has made.
pub record Permitted (actor_id : Uuid) (expected_post expected_draft : ℕ) (revision_id : Uuid)
    (now : Time) (post : Post) (draft : PostDraft) (revision : PostRevision) (after : Post)
    : Type 0 where
  pub may : MayChange actor_id post
  pub fit : Publishable post draft revision_id
  pub versions : (post.version ≡ expected_post) × (draft.version ≡ expected_draft)
  pub made :
      revision
      ≡ create_new_post_revision revision_id post.post_id (post.revision_sequence + 1) draft now
  pub left : after ≡ published_post revision_id now post

guard-ok :
    {A : Type 0} (wrong : Bool) (e : Error) (r : Result Error A) (a : A)
    → (if wrong then err e else r) ≡ ok a
    → (wrong ≡ false) × (r ≡ ok a)
guard-ok true e r a h = cc
guard-ok false e r a h = (refl, h)

with_revision-ok :
    (r : Result Error (PostRevision × Post)) (revision : PostRevision) (after : Post)
    → with_revision r ≡ ok (some revision, after)
    → r ≡ ok (revision, after)
with_revision-ok (ok (a, b)) revision after h = cc
with_revision-ok (err e) revision after h = cc

-- A draft that may be published has a cover.
pub ready-cover :
    (draft : PostDraft)
    → validate_for_publish draft ≡ none
    → (cover : Cover) × (draft.cover ≡ some cover) × (cover.asset_id ≢ 0)
unfolding validate_for_publish
ready-cover draft h = elim (Bool-cases (draft.version == 0)) [
  | inl zero ↦ let absurd = rw zero at h in cc
  | inr set ↦ go draft.cover refl (rw set at h)
]
  where
    go :
        (cover : Option Cover)
        → draft.cover ≡ cover
        → (if elim cover [ none ↦ true | some c ↦ is_zero c.asset_id ]
            then some (Error.sentinel Sentinel.draft_content_invalid)
            else if is_blank_text draft.document || draft.document_schema_version == 0
            then some (Error.sentinel Sentinel.draft_content_invalid)
            else none)
          ≡ none
        → (c : Cover) × (draft.cover ≡ some c) × (c.asset_id ≢ 0)
    go none e k = cc
    go (some c) e k = (c, e, ground arith)

pub publish_callback-Permitted :
    (actor_id : Uuid) (expected_post expected_draft : ℕ) (revision_id : Uuid) (now : Time)
    (post : Post) (draft : PostDraft) (revision : PostRevision) (after : Post)
    → publish_callback actor_id expected_post expected_draft revision_id now post draft
      ≡ ok (some revision, after)
    → Permitted actor_id expected_post expected_draft revision_id now post draft revision after
publish_callback-Permitted actor_id expected_post expected_draft revision_id now post draft revision
      after h =
    let (own, rest) = guard-ok (not (post.author_id == actor_id)) _ _ _ h in
    let (fresh, last) = guard-ok (not (post.version == expected_post)) _ _ _ rest in
    let (new, made) = guard-ok (not (draft.version == expected_draft)) _ _ _ last in
    let (may, fit, both) =
      (publish-Publishable post actor_id draft revision_id now (revision, after)).0
        (with_revision-ok _ revision after made) in
    record {
      may = may;
      fit = fit;
      versions = (ground (arith, fresh), ground (arith, new));
      made = cc;
      left = cc;
    }

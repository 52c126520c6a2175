-- ===== src/Content/Cards/Carried.antt =====
-- What `ApplyPublication` asks of the post and the revision, and the card that shows them.
use lets_go.Prelude.{◌≤◌, ◌≡◌, refl, ◌≢◌, true, Option, none, some, holds, is_none, arith}
use lets_go.Content.Tables.{Ident, Time, PostRow, RevisionRow, PostCard}
use lets_go.Content.Ids.{UuidCodec}
use lets_go.Content.Cards.{PostCardPublication, post_fault, revision_fault}

-- The post is the author's, is published with the revision of the publication, is not deleted and
-- has the version or a later one.
pub record Carries (codec : UuidCodec) (p : PostCardPublication) (post : PostRow) : Type 0 where
  pub author : post.author_id ≡ codec.text p.author_id
  pub recent : p.post_version ≤ post.post_version
  pub published : post.lifecycle_status ≡ 3
  pub present : post.deleted_at ≡ none
  pub current : post.published_revision_id ≡ some (codec.text p.revision_id)

-- The revision is the post's and has a cover.
pub record Covered (post_id : Ident) (revision : RevisionRow) : Type 0 where
  pub owned : revision.post_id ≡ post_id
  pub cover : (asset : Ident) × (revision.cover_asset_id ≡ some asset) × (asset ≢ 0)

holds-some : (o : Option Ident) (a : Ident) → holds o a ≡ true → o ≡ some a
holds-some none a h = cc
holds-some (some b) a h = let same : b ≡ a = ground arith in rw same refl

is_none-none : (o : Option Time) → is_none o ≡ true → o ≡ none
is_none-none none h = refl
is_none-none (some t) h = cc

pub post_fault-Carries :
    (codec : UuidCodec) (p : PostCardPublication) (post : PostRow)
    → post_fault codec p post ≡ none
    → Carries codec p post
post_fault-Carries codec p post h = record {
  author = ground arith;
  recent = ground arith;
  published = ground arith;
  present = is_none-none post.deleted_at (ground arith);
  current = holds-some post.published_revision_id (codec.text p.revision_id) (ground arith);
}

pub revision_fault-Covered :
    (post_id : Ident) (revision : RevisionRow)
    → revision_fault post_id revision ≡ none
    → Covered post_id revision
revision_fault-Covered post_id revision h = record {
  owned = ground arith;
  cover = go revision.cover_asset_id refl;
}
  where
    go :
        (cover : Option Ident)
        → revision.cover_asset_id ≡ cover
        → (asset : Ident) × (revision.cover_asset_id ≡ some asset) × (asset ≢ 0)
    go none e = let never : ⊥ = ground arith in elim never [ ]
    go (some asset) e = (asset, e, ground arith)

-- The card that shows a post and its revision.
abbrev pub showing : Ident → PostRow → RevisionRow → PostCard
showing post_id post revision = record {
  post_id = post_id;
  revision_id = revision.revision_id;
  author_id = post.author_id;
  title = revision.title;
  summary = revision.summary;
  cover_asset_id = revision.cover_asset_id;
  visibility = post.visibility;
  availability_status = post.availability_status;
  published_at = revision.published_at;
  source_post_version = post.post_version;
}

-- ===== src/Content/Publication/Rows.antt =====
-- What `PublishPost` (internal/respository/publication.go) writes apart from tags: the revision,
-- the post's row, and the references of the revision; with the statements of internal/model for
-- them.
use lets_go.Prelude.{
  ℕ, ◌+◌, Bool, ◌&&◌, ◌||◌, Option, none, some, List, [], ◌∷◌, ◌++◌, ◌==◌, if◌then◌else◌,
}
use lets_go.Sql.{◌>>=◌, pure, fail, call}
use lets_go.Sql.Table.{update_where, affected}
use lets_go.Sql.Insert.{insert_unique}
use lets_go.Content.Errors.{Error}
use lets_go.Content.Tables.{Ident, Time, PostRow, RevisionRow, ContentAssetRef}
use lets_go.Content.Ids.{Uuid, UuidCodec}
use lets_go.Content.Tasks.{TaskTx}
use lets_go.Content.Post.{Post}
use lets_go.Content.Post.Draft.{Cover, PostRevision}
use lets_go.Content.Cards.{post_key, revision_key}
use lets_go.Content.Drafts.{put_posts, put_refs, insert_ref, same_ref}
use lets_go.Content.Publication.{image_refs_of, put_revisions, revisions_of}

abbrev pub same_revision : RevisionRow → RevisionRow → Bool
same_revision a r =
    revision_key a.revision_id r || r.post_id == a.post_id && r.revision_number == a.revision_number

-- `Insert` of the revisions
abbrev pub insert_revision : RevisionRow → TaskTx (Unit {0})
insert_revision row =
    insert_unique Error.driver revisions_of put_revisions (same_revision row) λ now. row

-- The columns that `PublishPost` changes in the row it has read
abbrev pub published_row : UuidCodec → Post → Uuid → Time → Time → PostRow → PostRow
published_row codec post revision_id first last row = record row {
  published_revision_id = some (codec.text revision_id);
  revision_sequence = post.revision_sequence;
  post_version = post.version;
  lifecycle_status = post.lifecycle_status;
  first_published_at = some first;
  last_published_at = some last;
}

-- `Update` of the posts. The server fills `updated_at`.
abbrev pub overwritten : PostRow → Time → PostRow → PostRow
overwritten new now r = record new {
  post_id = r.post_id;
  created_at = r.created_at;
  updated_at = now;
}

unfoldable pub update_post : PostRow → TaskTx (Unit {0})
update_post new =
    call Error.driver
      λ now t. (tt, put_posts (update_where (post_key new.post_id) (overwritten new now) t.posts) t)

abbrev pub copied_ref : Ident → ℕ → ContentAssetRef → ContentAssetRef
copied_ref revision_id version r = record r {
  owner_type = 2;
  owner_id = revision_id;
  source_version = version;
}

abbrev pub copies : Ident → ℕ → List ContentAssetRef → List ContentAssetRef
copies revision_id version [] = []
copies revision_id version (r ∷ refs) =
    copied_ref revision_id version r ∷ copies revision_id version refs

abbrev pub clashes : List ContentAssetRef → List ContentAssetRef → ℕ
clashes [] rows = 0
clashes (r ∷ refs) rows = affected (same_ref r) rows + clashes refs rows

-- `INSERT INTO content_asset_ref … SELECT`. A duplicate entry is refused.
unfoldable pub copy_refs : Ident → Ident → ℕ → TaskTx (Unit {0})
copy_refs post_id revision_id version = do
  n ← call Error.driver λ now t.
      let new = copies revision_id version (image_refs_of post_id t) in
      let n = clashes new t.refs in (n, if n == 0 then put_refs (t.refs ++ new) t else t)
  if n == 0 then pure tt else fail Error.driver

abbrev pub revision_cover : UuidCodec → PostRevision → ℕ → Cover → ContentAssetRef
revision_cover codec revision version cover = record {
  owner_type = 2;
  owner_id = codec.text revision.revision_id;
  usage_type = 1;
  block_id = [];
  asset_id = codec.text cover.asset_id;
  sort_order = 0;
  source_version = version;
}

abbrev pub insert_revision_cover : UuidCodec → PostRevision → ℕ → Option Cover → TaskTx (Unit {0})
insert_revision_cover codec revision version none = pure tt
insert_revision_cover codec revision version (some cover) =
    insert_ref (revision_cover codec revision version cover)

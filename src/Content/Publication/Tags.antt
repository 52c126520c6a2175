-- ===== src/Content/Publication/Tags.antt =====
-- `publishRevisionTags` (internal/respository/publication.go) and the statements of
-- internal/model/tag_model.go and post_revision_tag_model.go.
use lets_go.Prelude.{
  ℕ, ◌+◌, Bool, true, false, not, ◌&&◌, ◌||◌, Option, none, some, List, [], ◌∷◌, ◌++◌, ltb, ◌==◌,
  if◌then◌else◌,
}
use lets_go.Strings.{eq_text}
use lets_go.Sql.{◌>>=◌, ◌>>◌, pure, fail, call}
use lets_go.Sql.Table.{find_row, affected}
use lets_go.Sql.Order.{order_by}
use lets_go.Sql.Insert.{insert_unique}
use lets_go.Content.Errors.{Text, Sentinel, Message, Error}
use lets_go.Content.Tables.{Ident, Tag, PostRevisionTag, Tables}
use lets_go.Content.Delivery.{lift_result, or_not_found}
use lets_go.Content.Ids.{Uuid}
use lets_go.Content.Tasks.{TaskTx}
use lets_go.Content.Tags.{TagName, prepare_tag_names}
use lets_go.Content.Post.Draft.{PostRevision}
use lets_go.Content.Publication.{PublishInputs}

abbrev pub put_tags : List Tag → Tables → Tables
put_tags rows t = record t { tags = rows }

abbrev pub put_revision_tags : List PostRevisionTag → Tables → Tables
put_revision_tags rows t = record t { revision_tags = rows }

abbrev pub revision_tags_of : Tables → List PostRevisionTag
revision_tags_of t = t.revision_tags

abbrev pub new_tag : Ident → TagName → Ident → Tag
new_tag id name author_id = record {
  tag_id = id;
  normalized_name = name.normalized;
  display_name = name.display;
  status = 1;
  created_by = author_id;
}

abbrev pub tag_key : Text → Tag → Bool
tag_key name r = eq_text r.normalized_name name

-- A key that the new row would share
abbrev pub same_tag : Tag → Tag → Bool
same_tag new r = r.tag_id == new.tag_id || tag_key new.normalized_name r

-- `INSERT … ON DUPLICATE KEY UPDATE tag_id=tag_id`, which leaves a row of either key as it is
abbrev pub with_new_tag : Tag → List Tag → List Tag
with_new_tag new rows = if affected (same_tag new) rows == 0 then rows ++ new ∷ [] else rows

abbrev pub read_tag : Text → TaskTx Tag
read_tag name = do
  found ← call Error.driver λ now t. (find_row (tag_key name) t.tags, t)
  lift_result (or_not_found found)

-- `FindOrCreate`
unfoldable pub find_or_create : Ident → TagName → Ident → TaskTx Tag
find_or_create id name author_id = do
  call Error.driver λ now t. (tt, put_tags (with_new_tag (new_tag id name author_id) t.tags) t)
  read_tag name.normalized

-- `<` of two strings. The order of UTF-8 is that of the runes.
abbrev pub text_le : Text → Text → Bool
text_le [] b = true
text_le (q ∷ a) [] = false
text_le (q ∷ a) (r ∷ b) = ltb q r || q == r && text_le a b

abbrev pub by_normalized : TagName → TagName → Bool
by_normalized a b = text_le a.normalized b.normalized

-- The map `resolved`
abbrev pub Resolved : Type 0
Resolved = List (Text × Tag)

abbrev pub find_resolved : Resolved → Text → Option Tag
find_resolved [] name = none
find_resolved ((key, tag) ∷ more) name =
    let rest = find_resolved more name in if eq_text key name then some tag else rest

abbrev pub tag_ref : Ident → ℕ → Tag → PostRevisionTag
tag_ref revision_id i tag = record {
  revision_id = revision_id;
  tag_id = tag.tag_id;
  tag_name_snapshot = tag.display_name;
  sort_order = i;
}

abbrev pub same_tag_ref : PostRevisionTag → PostRevisionTag → Bool
same_tag_ref a r =
    r.revision_id == a.revision_id && (r.tag_id == a.tag_id || r.sort_order == a.sort_order)

abbrev pub insert_tag_ref : PostRevisionTag → TaskTx (Unit {0})
insert_tag_ref ref =
    insert_unique Error.driver revision_tags_of put_revision_tags (same_tag_ref ref) λ now. ref

-- `resolved[name.Normalized]`, which a nil row would make panic
abbrev pub insert_resolved : Ident → ℕ → Option Tag → TaskTx (Unit {0})
insert_resolved revision_id i none = fail (Error.message Message.nil_tag)
insert_resolved revision_id i (some tag) = insert_tag_ref (tag_ref revision_id i tag)

-- The second loop, from the name at `i` on
unfoldable pub insert_tags : Ident → Resolved → ℕ → List TagName → TaskTx (Unit {0})
insert_tags revision_id resolved i [] = pure tt
insert_tags revision_id resolved i (name ∷ names) = do
  insert_resolved revision_id i (find_resolved resolved name.normalized)
  insert_tags revision_id resolved (i + 1) names

module _ (inputs : PublishInputs) where
  abbrev pub resolve_named : Ident → Option Uuid → TagName → TaskTx Tag
  resolve_named author_id none name = fail Error.driver
  resolve_named author_id (some id) name = do
    tag ← find_or_create (inputs.codec.text id) name author_id
    if not (tag.status == 1) then fail (Error.sentinel Sentinel.tag_unavailable) else pure tag

  -- The first loop, from the `i`th tag on
  unfoldable pub resolve_tags : Ident → ℕ → List TagName → TaskTx Resolved
  resolve_tags author_id i [] = pure []
  resolve_tags author_id i (name ∷ names) = do
    tag ← resolve_named author_id (inputs.tag_ids i) name
    more ← resolve_tags author_id (i + 1) names
    pure ((name.normalized, tag) ∷ more)

  abbrev pub tag_revision : Ident → Ident → List TagName → TaskTx (Unit {0})
  tag_revision revision_id author_id names = do
    resolved ← resolve_tags author_id 0 (order_by by_normalized names)
    insert_tags revision_id resolved 0 names

  -- `publishRevisionTags`
  unfoldable pub publish_revision_tags : PostRevision → Ident → TaskTx (Unit {0})
  publish_revision_tags revision author_id = do
    names ← lift_result (prepare_tag_names inputs.nfkc inputs.fold revision.tag_names)
    tag_revision (inputs.codec.text revision.revision_id) author_id names

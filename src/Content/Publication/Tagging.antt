-- ===== src/Content/Publication/Tagging.antt =====
-- `publishRevisionTags`: every name of a revision gets its one active tag, in the author's order.
use lets_go.Prelude.{
  ℕ, ◌+◌, ◌≡◌, refl, ◌∙◌, ap, some, List, [], ◌∷◌, ◌++◌, All, append-nil, append_assoc,
}
use lets_go.Sql.{Session, Result, ok, err, ◌>>=◌}
use lets_go.Sql.Table.{find_row}
use lets_go.Sql.Order.{order_by, All-order}
use lets_go.Sql.Insert.{insert_unique-Holds}
use lets_go.Sql.Outcome.{Holds, bind-Holds, Holds-mono}
use lets_go.Content.Errors.{Text, Sentinel, Error}
use lets_go.Content.Tables.{Ident, Tag, PostRevisionTag, Tables}
use lets_go.Content.Delivery.{lift_result}
use lets_go.Content.Tags.{TagName, prepare_tag_names}
use lets_go.Content.Post.Draft.{PostRevision}
use lets_go.Content.Publication.{PublishInputs}
use lets_go.Content.Publication.Resolving.{
  IsResolved, HasTag, Resolution, find_resolved-IsResolved, resolve_tags-Holds,
}
use lets_go.Content.Publication.Tags.{
  put_tags, put_revision_tags, revision_tags_of, tag_key, by_normalized, Resolved, tag_ref,
  same_tag_ref, insert_tag_ref, insert_tags, resolve_tags, tag_revision, publish_revision_tags,
}

-- The tag of each name, in order: stored and active.
abbrev pub Chosen : List Tag → List TagName → List Tag → Type 0
Chosen tags [] [] = Unit
Chosen tags [] (c ∷ chosen) = ⊥
Chosen tags (name ∷ names) [] = ⊥
Chosen tags (name ∷ names) (c ∷ chosen) =
    (find_row (tag_key name.normalized) tags ≡ some c) × (c.status ≡ 1) × Chosen tags names chosen

abbrev pub tag_refs : Ident → ℕ → List Tag → List PostRevisionTag
tag_refs revision_id i [] = []
tag_refs revision_id i (c ∷ chosen) = tag_ref revision_id i c ∷ tag_refs revision_id (i + 1) chosen

-- The errors of `publishRevisionTags`.
pub data TagError (inputs : PublishInputs) (names : List Text) (e : Error) : Type 0 where
  refused : e ≡ Error.driver → TagError inputs names e
  taken : e ≡ Error.sentinel Sentinel.not_found → TagError inputs names e
  unavailable : e ≡ Error.sentinel Sentinel.tag_unavailable → TagError inputs names e
  unprepared : prepare_tag_names inputs.nfkc inputs.fold names ≡ err e → TagError inputs names e

module _ (R : Error → Type 0) (refused : R Error.driver)
    (taken : R (Error.sentinel Sentinel.not_found))
    (unavailable : R (Error.sentinel Sentinel.tag_unavailable)) where
  -- Rows were added for the tags that were chosen for the names.
  record Referred (revision_id : Ident) (i : ℕ) (names : List TagName) (before after : Tables)
      : Type 0 where
    chosen : List Tag
    picks : Chosen before.tags names chosen
    kept : after ≡ put_revision_tags (before.revision_tags ++ tag_refs revision_id i chosen) before

  insert_tags-Holds :
      (revision_id : Ident) (resolved : Resolved) (i : ℕ) (names : List TagName)
      (s : Session Tables)
      → All (IsResolved s.tables.tags) resolved
      → All (HasTag resolved) names
      → Holds
          (λ _ s'. Referred revision_id i names s.tables s'.tables)
          R
          (insert_tags revision_id resolved i names s)
  unfolding insert_tags
  insert_tags-Holds revision_id resolved i [] s sound complete = record {
    chosen = [];
    picks = tt;
    kept = rw (append-nil s.tables.revision_tags) refl;
  }
  insert_tags-Holds revision_id resolved i (name ∷ names) s sound ((c, hit), complete) = rw hit (
      bind-Holds R (insert_tag_ref (tag_ref revision_id i c))
        (λ _. insert_tags revision_id resolved (i + 1) names) _
        (λ _ s'. Referred revision_id i (name ∷ names) s.tables s'.tables) s
        (insert_unique-Holds Error.driver revision_tags_of put_revision_tags R
          (same_tag_ref (tag_ref revision_id i c)) (λ now. tag_ref revision_id i c) s refused)
        λ done s1 (free, (now, first)).
          Holds-mono (λ _ s'. Referred revision_id (i + 1) names s1.tables s'.tables)
            (λ _ s'. Referred revision_id i (name ∷ names) s.tables s'.tables) R R
            (insert_tags revision_id resolved (i + 1) names s1)
            (λ d s2 rest. extend s1.tables s2.tables first rest) (λ e h. h)
            (insert_tags-Holds revision_id resolved (i + 1) names s1 (rw first sound) complete))
    where
      extend :
          (b a : Tables)
          → b ≡ put_revision_tags (s.tables.revision_tags ++ tag_ref revision_id i c ∷ []) s.tables
          → Referred revision_id (i + 1) names b a
          → Referred revision_id i (name ∷ names) s.tables a
      extend b a first rest =
          let (found, active) =
            find_resolved-IsResolved s.tables.tags resolved name.normalized c sound hit in
          record {
            chosen = c ∷ rest.chosen;
            picks = (found, active, rw first at rest.picks);
            kept =
                rest.kept
                ∙ rw first (
                    ap (λ rows. put_revision_tags rows s.tables)
                      (append_assoc s.tables.revision_tags (tag_ref revision_id i c ∷ [])
                        (tag_refs revision_id (i + 1) rest.chosen)));
          }

module _ (inputs : PublishInputs) (revision : PostRevision) where
  -- The tags of a revision: the names that were made of its own, the tags that were added, and the
  -- tag of each name, which are the revision's.
  pub record Tagged (before after : Tables) : Type 0 where
    pub names : List TagName
    pub prepared : prepare_tag_names inputs.nfkc inputs.fold revision.tag_names ≡ ok names
    pub new : List Tag
    pub chosen : List Tag
    pub picks : Chosen after.tags names chosen
    pub kept :
        after
        ≡ put_revision_tags
            (before.revision_tags ++ tag_refs (inputs.codec.text revision.revision_id) 0 chosen)
            (put_tags (before.tags ++ new) before)

  module _ (R : Error → Type 0)
      (fails : (e : Error) → TagError inputs revision.tag_names e → R e) where
    tag_revision-Holds :
        (author_id : Ident) (names : List TagName) (s : Session Tables)
        → prepare_tag_names inputs.nfkc inputs.fold revision.tag_names ≡ ok names
        → Holds
            (λ _ s'. Tagged s.tables s'.tables)
            R
            (tag_revision inputs (inputs.codec.text revision.revision_id) author_id names s)
    tag_revision-Holds author_id names s prepared =
        bind-Holds R (resolve_tags inputs author_id 0 (order_by by_normalized names))
          (λ resolved. insert_tags (inputs.codec.text revision.revision_id) resolved 0 names)
          (λ resolved s'. Resolution (order_by by_normalized names) s.tables s'.tables resolved)
          (λ _ s'. Tagged s.tables s'.tables) s
          (resolve_tags-Holds R driver missing closed inputs author_id 0
            (order_by by_normalized names) s)
          λ resolved s1 found.
            Holds-mono
              (λ _ s'.
                Referred R driver missing closed (inputs.codec.text revision.revision_id) 0 names
                  s1.tables s'.tables)
              (λ _ s'. Tagged s.tables s'.tables) R R
              (insert_tags (inputs.codec.text revision.revision_id) resolved 0 names s1)
              (λ d s2 referred. record {
                names = names;
                prepared = prepared;
                new = found.new;
                chosen = referred.chosen;
                picks = rw referred.kept referred.picks;
                kept = referred.kept ∙ rw found.kept refl;
              })
              (λ e h. h)
              (insert_tags-Holds R driver missing closed (inputs.codec.text revision.revision_id)
                resolved 0 names s1 found.sound
                (All-order (HasTag resolved) by_normalized names found.complete))
      where
        driver : R Error.driver
        driver = fails Error.driver (refused refl)

        missing : R (Error.sentinel Sentinel.not_found)
        missing = fails _ (taken refl)

        closed : R (Error.sentinel Sentinel.tag_unavailable)
        closed = fails _ (unavailable refl)

    pub publish_revision_tags-Holds :
        (author_id : Ident) (s : Session Tables)
        → Holds
            (λ _ s'. Tagged s.tables s'.tables)
            R
            (publish_revision_tags inputs revision author_id s)
    unfolding publish_revision_tags
    publish_revision_tags-Holds author_id s =
        go (prepare_tag_names inputs.nfkc inputs.fold revision.tag_names) refl
      where
        go :
            (r : Result Error (List TagName))
            → prepare_tag_names inputs.nfkc inputs.fold revision.tag_names ≡ r
            → Holds
                (λ _ s'. Tagged s.tables s'.tables)
                R
                ((lift_result r
                    >>= tag_revision inputs (inputs.codec.text revision.revision_id) author_id)
                  s)
        go (ok names) e = tag_revision-Holds author_id names s e
        go (err x) e = fails x (unprepared e)

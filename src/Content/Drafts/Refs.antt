-- ===== src/Content/Drafts/Refs.antt =====
-- `replaceDraftRefs`: the references of a draft are exactly what the draft shows.
use lets_go.Prelude.{
  ◌≡◌, refl, ◌∙◌, ap, none, some, Option, List, [], ◌∷◌, ◌++◌, append_assoc, append-nil,
}
use lets_go.Sql.{Session, ◌>>◌}
use lets_go.Sql.Table.{delete_where}
use lets_go.Sql.Outcome.{Holds, bind-Holds, call_then, Holds-mono}
use lets_go.Sql.Insert.{insert_unique-Holds}
use lets_go.Content.Errors.{Error}
use lets_go.Content.Tables.{ContentAssetRef, Tables}
use lets_go.Content.Ids.{UuidCodec}
use lets_go.Content.Post.Draft.{Cover, DraftAssetRef, PostDraft}
use lets_go.Content.Drafts.{
  put_refs, refs_of, owner_key, same_ref, insert_ref, delete_refs, cover_ref, image_ref,
  insert_images, insert_cover, replace_draft_refs,
}

abbrev pub image_refs : UuidCodec → PostDraft → List DraftAssetRef → List ContentAssetRef
image_refs codec draft [] = []
image_refs codec draft (ref ∷ refs) = image_ref codec draft ref ∷ image_refs codec draft refs

abbrev pub cover_refs : UuidCodec → PostDraft → Option Cover → List ContentAssetRef
cover_refs codec draft none = []
cover_refs codec draft (some cover) = cover_ref codec draft cover ∷ []

-- What the table of references has after `more` were added.
abbrev pub Appended : List ContentAssetRef → Tables → Tables → Type 0
Appended more before after = after ≡ put_refs (before.refs ++ more) before

Appended-trans :
    (xs ys : List ContentAssetRef) (a b c : Tables)
    → Appended xs a b
    → Appended ys b c
    → Appended (xs ++ ys) a c
Appended-trans xs ys a b c h k = k ∙ rw h (ap (λ rows. put_refs rows a) (append_assoc a.refs xs ys))

-- The draft's references are exactly its cover and its images; the others are as before.
abbrev pub Replaced : UuidCodec → PostDraft → Tables → Tables → Type 0
Replaced codec draft before after =
    after
    ≡ put_refs
        (delete_where (owner_key 1 (codec.text draft.post_id)) before.refs
          ++ (cover_refs codec draft draft.cover ++ image_refs codec draft draft.asset_refs))
        before

module _ (R : Error → Type 0) (refused : R Error.driver) where
  pub insert_ref-Holds :
      (ref : ContentAssetRef) (s : Session Tables)
      → Holds (λ _ s'. Appended (ref ∷ []) s.tables s'.tables) R (insert_ref ref s)
  insert_ref-Holds ref s =
      Holds-mono _ (λ _ s'. Appended (ref ∷ []) s.tables s'.tables) R R _
        (λ done s' (free, (now, same)). same) (λ e h. h)
        (insert_unique-Holds Error.driver refs_of put_refs R (same_ref ref) (λ now. ref) s refused)

  insert_images-Holds :
      (codec : UuidCodec) (draft : PostDraft) (refs : List DraftAssetRef) (s : Session Tables)
      → Holds
          (λ _ s'. Appended (image_refs codec draft refs) s.tables s'.tables)
          R
          (insert_images codec draft refs s)
  unfolding insert_images
  insert_images-Holds codec draft [] s = rw (append-nil s.tables.refs) refl
  insert_images-Holds codec draft (ref ∷ refs) s =
      bind-Holds R (insert_ref (image_ref codec draft ref)) (λ _. insert_images codec draft refs)
        (λ _ s'. Appended (image_ref codec draft ref ∷ []) s.tables s'.tables)
        (λ _ s'. Appended (image_refs codec draft (ref ∷ refs)) s.tables s'.tables) s
        (insert_ref-Holds (image_ref codec draft ref) s)
        λ done s' one.
          Holds-mono (λ _ s''. Appended (image_refs codec draft refs) s'.tables s''.tables)
            (λ _ s''. Appended (image_refs codec draft (ref ∷ refs)) s.tables s''.tables) R R _
            (λ d s'' rest. Appended-trans _ _ s.tables s'.tables s''.tables one rest) (λ e h. h)
            (insert_images-Holds codec draft refs s')

  insert_cover-Holds :
      (codec : UuidCodec) (draft : PostDraft) (cover : Option Cover) (s : Session Tables)
      → Holds
          (λ _ s'. Appended (cover_refs codec draft cover) s.tables s'.tables)
          R
          (insert_cover codec draft cover s)
  insert_cover-Holds codec draft none s = rw (append-nil s.tables.refs) refl
  insert_cover-Holds codec draft (some cover) s = insert_ref-Holds (cover_ref codec draft cover) s

  pub replace_draft_refs-Holds :
      (codec : UuidCodec) (draft : PostDraft) (s : Session Tables)
      → Holds (λ _ s'. Replaced codec draft s.tables s'.tables) R (replace_draft_refs codec draft s)
  unfolding replace_draft_refs delete_refs
  replace_draft_refs-Holds codec draft s =
      call_then R Error.driver _
        (λ _. insert_cover codec draft draft.cover >> insert_images codec draft draft.asset_refs)
        (λ _ s'. Replaced codec draft s.tables s'.tables) s refused
        λ now ms later.
          bind-Holds R (insert_cover codec draft draft.cover)
            (λ _. insert_images codec draft draft.asset_refs)
            (λ _ s'. Appended (cover_refs codec draft draft.cover) kept s'.tables)
            (λ _ s'. Replaced codec draft s.tables s'.tables) _
            (insert_cover-Holds codec draft draft.cover _)
            λ done s' one.
              Holds-mono
                (λ _ s''. Appended (image_refs codec draft draft.asset_refs) s'.tables s''.tables)
                (λ _ s''. Replaced codec draft s.tables s''.tables) R R _
                (λ d s'' rest. Appended-trans _ _ kept s'.tables s''.tables one rest) (λ e h. h)
                (insert_images-Holds codec draft draft.asset_refs s')
    where
      kept : Tables
      kept = put_refs (delete_where (owner_key 1 (codec.text draft.post_id)) s.tables.refs) s.tables

-- ===== src/Content/Publication/Checks.antt =====
-- `checkPublicationAssets`: nothing is published whose images or cover are not all there and ready.
use lets_go.Prelude.{
  ℕ, ◌≡◌, refl, inl, inr, true, false, not, ◌||◌, none, List, [], ◌∷◌, ◌==◌, arith, Bool-cases,
  Option-cases, length, All,
}
use lets_go.Sql.{Session}
use lets_go.Sql.Outcome.{Holds, call_then}
use lets_go.Content.Errors.{Sentinel, Error}
use lets_go.Content.Tables.{Ident, MediaAsset, ContentAssetRef, Tables}
use lets_go.Content.Ids.{UuidCodec}
use lets_go.Content.Post.Draft.{PostRevision}
use lets_go.Content.Drafts.{asset_rows, find_assets}
use lets_go.Content.Drafts.Assets.{none_wanted}
use lets_go.Content.Publication.{
  image_refs_of, find_image_refs, unique_assets, with_cover, all_of_version, is_ready_asset,
  all_ready, check_found, check_assets, check_refs, check_publication_assets,
}

abbrev pub OfVersion : ℕ → ContentAssetRef → Type 0
OfVersion version ref = ref.source_version ≡ version

-- The author's, ready and not deleted.
pub record IsReady (author_id : Ident) (asset : MediaAsset) : Type 0 where
  pub own : asset.owner_id ≡ author_id
  pub ready : asset.status ≡ 3
  pub present : asset.deleted_at ≡ none

all_of_version-All :
    (version : ℕ) (refs : List ContentAssetRef)
    → all_of_version version refs ≡ true
    → All (OfVersion version) refs
all_of_version-All version [] h = tt
all_of_version-All version (ref ∷ refs) h =
    (ground arith, all_of_version-All version refs (ground arith))

is_ready_asset-IsReady :
    (author_id : Ident) (asset : MediaAsset)
    → is_ready_asset author_id asset ≡ true
    → IsReady author_id asset
is_ready_asset-IsReady author_id asset h = elim (Option-cases asset.deleted_at) [
  | inl present ↦ record { own = ground arith; ready = ground arith; present = present }
  | inr (t, gone) ↦ let h' = rw gone at h in let never : ⊥ = ground arith in elim never [ ]
]

all_ready-All :
    (author_id : Ident) (assets : List MediaAsset)
    → all_ready author_id assets ≡ true
    → All (IsReady author_id) assets
all_ready-All author_id [] h = tt
all_ready-All author_id (asset ∷ assets) h = (
  is_ready_asset-IsReady author_id asset (ground arith),
  all_ready-All author_id assets (ground arith),
)

module _ (codec : UuidCodec) (post_id author_id : Ident) (revision : PostRevision) where
  -- The assets of the images and of the cover, each once.
  abbrev pub wanted : Tables → List Ident
  wanted t = with_cover codec revision.cover (unique_assets [] (image_refs_of post_id t))

  -- The stored references are those of the published draft version, as many as it has images, and as
  -- many assets as they and the cover name are stored, all ready and the author's.
  pub record Complete (t : Tables) : Type 0 where
    pub images : length (image_refs_of post_id t) ≡ revision.image_count
    pub versions : All (OfVersion revision.source_draft_version) (image_refs_of post_id t)
    pub found : length (asset_rows (wanted t) t.assets) ≡ length (wanted t)
    pub ready : All (IsReady author_id) (asset_rows (wanted t) t.assets)

  pub data CheckError (e : Error) : Type 0 where
    refused : e ≡ Error.driver → CheckError e
    incomplete : e ≡ Error.sentinel Sentinel.draft_content_invalid → CheckError e
    not_ready : e ≡ Error.sentinel Sentinel.media_asset_not_ready → CheckError e

  abbrev Passed : Tables → Session Tables → Type 0
  Passed t s' = (s'.tables ≡ t) × Complete t

  module _ (R : Error → Type 0) (fails : (e : Error) → CheckError e → R e) (t : Tables)
      (images : length (image_refs_of post_id t) ≡ revision.image_count)
      (versions : All (OfVersion revision.source_draft_version) (image_refs_of post_id t)) where
    check_found-Holds :
        (s : Session Tables)
        → s.tables ≡ t
        → Holds
            (λ _ s'. Passed t s')
            R
            (check_found author_id (wanted t) (asset_rows (wanted t) t.assets) s)
    check_found-Holds s same =
        elim (Bool-cases (
          not (length (asset_rows (wanted t) t.assets) == length (wanted t))
          || not (all_ready author_id (asset_rows (wanted t) t.assets)))) [
            | inl bad ↦ rw bad (fails _ (not_ready refl))
            | inr good ↦ rw good (
              same,
              record {
                images = images;
                versions = versions;
                found = ground arith;
                ready = all_ready-All author_id (asset_rows (wanted t) t.assets) (ground arith);
              },
            )
          ]

    check_assets-Holds :
        (s : Session Tables) (ids : List Ident)
        → wanted t ≡ ids
        → s.tables ≡ t
        → Holds (λ _ s'. Passed t s') R (check_assets author_id (wanted t) s)
    unfolding find_assets
    check_assets-Holds s [] e same = rw e (
      same,
      record {
        images = images;
        versions = versions;
        found = rw (e, none_wanted t.assets) refl;
        ready = rw (e, none_wanted t.assets) tt;
      },
    )
    check_assets-Holds s (x ∷ ids) e same =
        let some_wanted : (length (wanted t) == 0) ≡ false = rw e (ground arith) in
        rw some_wanted (
          call_then R Error.driver _ (check_found author_id (wanted t)) (λ _ s'. Passed t s') s
            (fails _ (refused refl))
            λ now ms later.
              rw same (check_found-Holds (record { tables = t; now = now; script = ms }) refl))

  pub check_publication_assets-Holds :
      (R : Error → Type 0)
      → ((e : Error) → CheckError e → R e)
      → (s : Session Tables)
      → Holds
          (λ _ s'. Passed s.tables s')
          R
          (check_publication_assets codec post_id author_id revision s)
  unfolding check_publication_assets find_image_refs
  check_publication_assets-Holds R fails s =
      call_then R Error.driver _ (check_refs codec author_id revision) (λ _ s'. Passed s.tables s')
        s (fails _ (refused refl))
        λ now ms later.
          elim (Bool-cases (
            not (length (image_refs_of post_id s.tables) == revision.image_count)
            || not
                (all_of_version revision.source_draft_version (image_refs_of post_id s.tables)))) [
                  | inl bad ↦ rw bad (fails _ (incomplete refl))
                  | inr good ↦ rw good (
                      check_assets-Holds R fails s.tables (ground arith)
                        (all_of_version-All _ (image_refs_of post_id s.tables) (ground arith))
                        (record s { now = now; script = ms }) (wanted s.tables) refl refl)
                ]

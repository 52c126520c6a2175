-- ===== src/Content/Drafts/Assets.antt =====
-- `validateDraftAssets`: the assets that a draft refers to are the author's and usable.
use lets_go.Prelude.{◌≡◌, refl, false, Option, none, some, List, [], ◌∷◌, ◌==◌, arith, length, All}
use lets_go.Sql.{Session, Result, ok, err, ◌>>=◌}
use lets_go.Sql.Outcome.{Holds, Holds-mono, call_then}
use lets_go.Content.Errors.{Error}
use lets_go.Content.Tables.{MediaAsset, Tables}
use lets_go.Content.Delivery.{lift_result}
use lets_go.Content.Ids.{Uuid, UuidCodec}
use lets_go.Content.Post.Draft.{
  PostDraft, DraftMediaAssetState, referenced_asset_ids, validate_asset_states,
}
use lets_go.Content.Post.Assets.{Usable, count, states_of, validate_asset_states-Usable}
use lets_go.Content.Cards.{raise}
use lets_go.Content.Drafts.{asset_rows, texts, asset_states, find_assets, validate_draft_assets}

pub none_wanted : (rows : List MediaAsset) → asset_rows [] rows ≡ []
none_wanted [] = refl
none_wanted (r ∷ rows) = none_wanted rows

module _ (codec : UuidCodec) (draft : PostDraft) (author_id : Uuid) where
  abbrev pub found_rows : Tables → List MediaAsset
  found_rows t = asset_rows (texts codec (referenced_asset_ids draft)) t.assets

  -- The stored assets, as states: one for each asset that the draft refers to, each usable.
  pub record AssetsFit (t : Tables) : Type 0 where
    pub states : List DraftMediaAssetState
    pub read : asset_states codec (found_rows t) ≡ ok states
    pub each : (id : Uuid) → states_of id states ≡ count id (referenced_asset_ids draft)
    pub usable : All (Usable author_id) states

  -- Why the assets are refused.
  pub data AssetError (t : Tables) (e : Error) : Type 0 where
    refused : e ≡ Error.driver → AssetError t e
    unreadable : asset_states codec (found_rows t) ≡ err e → AssetError t e
    unusable :
        (states : List DraftMediaAssetState)
        → asset_states codec (found_rows t) ≡ ok states
        → validate_asset_states draft author_id states ≡ some e
        → AssetError t e

  pub validate_draft_assets-Holds :
      (s : Session Tables)
      → Holds
          (λ _ s'. (s'.tables ≡ s.tables) × AssetsFit s.tables)
          (AssetError s.tables)
          (validate_draft_assets codec draft author_id s)
  unfolding validate_draft_assets find_assets
  validate_draft_assets-Holds s = go (referenced_asset_ids draft) refl
    where
      checked :
          (states : List DraftMediaAssetState) (s' : Session Tables) (fault : Option Error)
          → s'.tables ≡ s.tables
          → asset_states codec (found_rows s.tables) ≡ ok states
          → validate_asset_states draft author_id states ≡ fault
          → Holds
              (λ _ s''. (s''.tables ≡ s.tables) × AssetsFit s.tables)
              (AssetError s.tables)
              (raise fault s')
      checked states s' none same read sound =
          let (each, usable) = (validate_asset_states-Usable draft author_id states).0 sound in
          (same, record { states = states; read = read; each = each; usable = usable })
      checked states s' (some e) same read sound = unusable states read sound

      reading :
          (s' : Session Tables) (r : Result Error (List DraftMediaAssetState))
          → s'.tables ≡ s.tables
          → asset_states codec (found_rows s.tables) ≡ r
          → Holds
              (λ _ s''. (s''.tables ≡ s.tables) × AssetsFit s.tables)
              (AssetError s.tables)
              ((lift_result r >>= λ states. raise (validate_asset_states draft author_id states))
                s')
      reading s' (ok states) same read = checked states s' _ same read refl
      reading s' (err e) same read = unreadable read

      go :
          (ids : List Uuid)
          → referenced_asset_ids draft ≡ ids
          → Holds
              (λ _ s'. (s'.tables ≡ s.tables) × AssetsFit s.tables)
              (AssetError s.tables)
              (validate_draft_assets codec draft author_id s)
      go [] none_shown = rw none_shown (
        refl,
        record {
          states = [];
          read = rw (none_shown, none_wanted s.tables.assets) refl;
          each = λ id. rw none_shown refl;
          usable = tt;
        },
      )
      go (id ∷ ids) shown =
          let some_shown : (length (referenced_asset_ids draft) == 0) ≡ false =
            rw shown (ground arith) in
          rw some_shown (
            call_then (AssetError s.tables) Error.driver _
              (λ rows. lift_result (asset_states codec rows) >>= λ states.
                raise (validate_asset_states draft author_id states))
              (λ _ s''. (s''.tables ≡ s.tables) × AssetsFit s.tables) s (refused refl)
              λ now ms later.
                reading (record s { now = now; script = ms })
                  (asset_states codec (found_rows s.tables)) refl refl)

  pub validate_draft_assets-then :
      (R : Error → Type 0) (s : Session Tables)
      → ((e : Error) → AssetError s.tables e → R e)
      → Holds
          (λ _ s'. (s'.tables ≡ s.tables) × AssetsFit s.tables)
          R
          (validate_draft_assets codec draft author_id s)
  validate_draft_assets-then R s f =
      Holds-mono (λ _ s'. (s'.tables ≡ s.tables) × AssetsFit s.tables)
        (λ _ s'. (s'.tables ≡ s.tables) × AssetsFit s.tables) (AssetError s.tables) R
        (validate_draft_assets codec draft author_id s) (λ d s' h. h) f
        (validate_draft_assets-Holds s)

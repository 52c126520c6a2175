-- ===== src/Content/Tables.antt =====
-- The rows that contentServer's core reads and writes (internal/model), and the tables they stand
-- in. `created_at` and `updated_at` columns that the server fills and nothing reads are left out.
use lets_go.Prelude.{ℕ, Bool, Option, List, ◌==◌, ◌&&◌}
use lets_go.Content.Errors.{Text}

-- Identifiers, tokens and names (CHAR and VARCHAR columns) are compared and ordered only: numbers,
-- in the order of the column's collation. 0 is the empty text.
abbrev pub Ident : Type 0
Ident = ℕ

-- Times are milliseconds, as `NOW(3)` has them.
abbrev pub Time : Type 0
Time = ℕ

-- event_delivery. `status` is 1 pending, 2 processing, 3 succeeded, 4 superseded, 5 failed.
pub record Delivery : Type 0 where
  pub event_id : Ident
  pub consumer_name : Ident
  pub status : ℕ
  pub attempt_count : ℕ
  pub max_attempts : ℕ
  pub next_attempt_at : Time
  pub claim_token : Option Ident
  pub locked_until : Option Time
  pub last_error : Text
  pub completed_at : Option Time

-- outbox_event. `status` is 1 pending dispatch, 2 reserved, 3 dispatched, 4 dispatch failed.
pub record OutboxEvent : Type 0 where
  pub event_id : Ident
  pub aggregate_id : Ident
  pub event_type : Ident
  pub payload_json : Text
  pub status : ℕ
  pub attempt_count : ℕ
  pub next_attempt_at : Time
  pub occurred_at : Time
  pub published_at : Option Time

-- post
pub record PostRow : Type 0 where
  pub post_id : Ident
  pub author_id : Ident
  pub lifecycle_status : ℕ
  pub visibility : ℕ
  pub availability_status : ℕ
  pub published_revision_id : Option Ident
  pub revision_sequence : ℕ
  pub post_version : ℕ
  pub first_published_at : Option Time
  pub last_published_at : Option Time
  pub created_at : Time
  pub updated_at : Time
  pub deleted_at : Option Time

-- post_draft. The coordinates of the cover's focus are carried along only: the bits of each float64.
pub record DraftRow : Type 0 where
  pub post_id : Ident
  pub draft_version : ℕ
  pub title : Text
  pub summary : Text
  pub cover_asset_id : Option Ident
  pub cover_focus_x : Option ℕ
  pub cover_focus_y : Option ℕ
  pub cover_crop_style : Text
  pub document_schema_version : ℕ
  pub document_json : Text
  pub tag_names_json : Text
  pub plain_text : Text
  pub block_count : ℕ
  pub image_count : ℕ
  pub created_at : Time
  pub updated_at : Time

-- post_revision, of which a card shows six columns (`PostRevisionCardSnapshot`).
pub record RevisionRow : Type 0 where
  pub revision_id : Ident
  pub post_id : Ident
  pub revision_number : ℕ
  pub source_draft_version : ℕ
  pub title : Text
  pub summary : Text
  pub cover_asset_id : Option Ident
  pub cover_focus_x : Option ℕ
  pub cover_focus_y : Option ℕ
  pub cover_crop_style : Text
  pub document_schema_version : ℕ
  pub document_json : Text
  pub plain_text : Text
  pub block_count : ℕ
  pub image_count : ℕ
  pub published_at : Time

-- media_asset, by the columns that posts read. `status` 3 is ready.
pub record MediaAsset : Type 0 where
  pub asset_id : Ident
  pub owner_id : Ident
  pub status : ℕ
  pub deleted_at : Option Time

-- content_asset_ref. `owner_type` is 1 draft, 2 revision; `usage_type` is 1 cover, 2 image.
pub record ContentAssetRef : Type 0 where
  pub owner_type : ℕ
  pub owner_id : Ident
  pub usage_type : ℕ
  pub block_id : Text
  pub asset_id : Ident
  pub sort_order : ℕ
  pub source_version : ℕ

-- tag. `status` is 1 active, 2 hidden, 3 disabled.
pub record Tag : Type 0 where
  pub tag_id : Ident
  pub normalized_name : Text
  pub display_name : Text
  pub status : ℕ
  pub created_by : Ident

-- post_revision_tag
pub record PostRevisionTag : Type 0 where
  pub revision_id : Ident
  pub tag_id : Ident
  pub tag_name_snapshot : Text
  pub sort_order : ℕ

-- post_card_projection
pub record PostCard : Type 0 where
  pub post_id : Ident
  pub revision_id : Ident
  pub author_id : Ident
  pub title : Text
  pub summary : Text
  pub cover_asset_id : Option Ident
  pub visibility : ℕ
  pub availability_status : ℕ
  pub published_at : Time
  pub source_post_version : ℕ

pub record Tables : Type 0 where
  pub deliveries : List Delivery
  pub outbox : List OutboxEvent
  pub posts : List PostRow
  pub revisions : List RevisionRow
  pub cards : List PostCard
  pub drafts : List DraftRow
  pub assets : List MediaAsset
  pub refs : List ContentAssetRef
  pub tags : List Tag
  pub revision_tags : List PostRevisionTag

-- WHERE event_id=? AND consumer_name=?, the primary key of event_delivery.
abbrev pub delivery_key : Ident → Ident → Delivery → Bool
delivery_key e c r = r.event_id == e && r.consumer_name == c

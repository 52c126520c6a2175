-- ===== src/Content/Cards.antt =====
-- internal/respository/post_card.go and internal/taskhandler/post_card.go: the handler that keeps
-- the card of a post at the post's published revision.
pub mod Carried
pub mod Write
pub mod Handle
pub mod Apart
pub mod Newer
pub mod Sure
use lets_go.Prelude.{
  ℕ, Bool, true, false, not, ◌&&◌, ◌||◌, Option, none, some, is_none, holds, List, [], ◌∷◌, ◌++◌,
  ltb, leb, ◌==◌, if◌then◌else◌,
}
use lets_go.Sql.{Session, Result, ok, err, Tx, ◌>>=◌, ◌>>◌, pure, fail, call}
use lets_go.Sql.Table.{find_row, update_where, affected}
use lets_go.Content.Errors.{Text, Sentinel, Message, Error, errors_is}
use lets_go.Content.Tables.{Ident, PostRow, RevisionRow, PostCard, Tables}
use lets_go.Content.Delivery.{lift_result, or_not_found}
use lets_go.Content.Ids.{Uuid, UuidCodec, is_zero, parse_post_id, parse_user_id, parse_revision_id}
use lets_go.Content.Tasks.{TaskContext, TaskTx, Handler, replace_error}

pub record PostCardPublication : Type 0 where
  pub post_id : Uuid
  pub author_id : Uuid
  pub revision_id : Uuid
  pub post_version : ℕ

abbrev pub post_key : Ident → PostRow → Bool
post_key id r = r.post_id == id

abbrev pub revision_key : Ident → RevisionRow → Bool
revision_key id r = r.revision_id == id

abbrev pub card_key : Ident → PostCard → Bool
card_key id r = r.post_id == id

-- `FindOneForUpdate` of the posts, `FindCardSnapshot` and `FindOne` of the cards.
unfoldable pub find_post : Ident → TaskTx PostRow
find_post id = do
  found ← call Error.driver λ now t. (find_row (post_key id) t.posts, t)
  lift_result (or_not_found found)

unfoldable pub find_card_snapshot : Ident → TaskTx RevisionRow
find_card_snapshot id = do
  found ← call Error.driver λ now t. (find_row (revision_key id) t.revisions, t)
  lift_result (or_not_found found)

-- No row is the branch `ErrNotFound`, which leaves `current` nil.
unfoldable pub find_card : Ident → TaskTx (Option PostCard)
find_card id = call Error.driver λ now t. (find_row (card_key id) t.cards, t)

-- A second row of the same key is a duplicate entry, which the driver refuses.
unfoldable pub insert_card : PostCard → TaskTx (Unit {0})
insert_card card = do
  n ← call Error.driver λ now t.
      let n = affected (card_key card.post_id) t.cards in
      (n, record t { cards = if n == 0 then t.cards ++ card ∷ [] else t.cards })
  if n == 0 then pure tt else fail Error.driver

unfoldable pub update_card : PostCard → TaskTx (Unit {0})
update_card card =
    call Error.driver
      λ now t. (tt, record t { cards = update_where (card_key card.post_id) (λ r. card) t.cards })

abbrev pub is_blank : PostCardPublication → Bool
is_blank p =
    is_zero p.post_id || is_zero p.author_id || is_zero p.revision_id || p.post_version == 0

-- `fmt.Errorf("%w: …", sentinel)`
abbrev pub explained : Sentinel → Error
explained s = Error.wrapped (Error.sentinel s)

-- Whether the post still is what was published: none where it is.
abbrev pub post_fault : UuidCodec → PostCardPublication → PostRow → Option Error
post_fault codec p post =
    if not (post.author_id == codec.text p.author_id) || ltb post.post_version p.post_version
    then some (explained Sentinel.post_card_source_invalid)
    else if post.lifecycle_status == 4
        || not (is_none post.deleted_at)
        || not (holds post.published_revision_id (codec.text p.revision_id))
    then some (Error.sentinel Sentinel.post_card_superseded)
    else if not (post.lifecycle_status == 3)
    then some (explained Sentinel.post_card_source_invalid)
    else none

abbrev pub revision_fault : Ident → RevisionRow → Option Error
revision_fault post_id revision =
    if not (revision.post_id == post_id)
      || elim revision.cover_asset_id [ none ↦ true | some cover ↦ cover == 0 ]
    then some (explained Sentinel.post_card_source_invalid)
    else none

abbrev pub raise : Option Error → TaskTx (Unit {0})
raise none = pure tt
raise (some e) = fail e

abbrev pub card_of : Ident → PostRow → RevisionRow → PostCard
card_of post_id post revision = record {
  post_id = post_id;
  revision_id = revision.revision_id;
  author_id = post.author_id;
  title = revision.title;
  summary = revision.summary;
  cover_asset_id = revision.cover_asset_id;
  visibility = post.visibility;
  availability_status = post.availability_status;
  published_at = revision.published_at;
  source_post_version = post.post_version;
}

abbrev pub is_current : ℕ → Option PostCard → Bool
is_current version none = false
is_current version (some card) = leb version card.source_post_version

pub store_card : PostCard → Option PostCard → TaskTx (Unit {0})
store_card card current =
    if is_current card.source_post_version current
    then pure tt
    else if is_none current
    then insert_card card
    else update_card card

pub write_card : Ident → PostRow → RevisionRow → TaskTx (Unit {0})
unfolding store_card
write_card post_id post revision = do
  raise (revision_fault post_id revision)
  current ← find_card post_id
  store_card (card_of post_id post revision) current

-- The reads of the sources, with `ErrNotFound` reported as a missing source.
abbrev pub read_post : Ident → TaskTx PostRow
read_post id =
    replace_error Sentinel.not_found (explained Sentinel.post_card_source_missing) (find_post id)

abbrev pub read_snapshot : Ident → TaskTx RevisionRow
read_snapshot id =
    replace_error Sentinel.not_found (explained Sentinel.post_card_source_missing)
      (find_card_snapshot id)

pub project : UuidCodec → PostCardPublication → PostRow → TaskTx (Unit {0})
unfolding write_card
project codec p post = do
  raise (post_fault codec p post)
  revision ← read_snapshot (codec.text p.revision_id)
  write_card (codec.text p.post_id) post revision

-- `ApplyPublication`. Its transaction is not nil.
unfoldable pub apply_publication : UuidCodec → PostCardPublication → TaskTx (Unit {0})
unfolding project
apply_publication codec p =
    if is_blank p
    then fail (Error.sentinel Sentinel.post_card_source_invalid)
    else do post ← read_post (codec.text p.post_id); project codec p post

-- `postPublishedPayload`
pub record PostPublishedPayload : Type 0 where
  pub schema_version : ℕ
  pub post_id : Ident
  pub author_id : Ident
  pub revision_id : Ident
  pub post_version : ℕ

-- What the handler uses of other packages: UUIDs, `json.Unmarshal` into a payload; and the text
-- "PostPublished" as an identifier.
pub record CardInputs : Type 0 where
  pub codec : UuidCodec
  pub decode : Text → Option PostPublishedPayload
  pub post_published : Ident

-- `errors.Is` on what `ApplyPublication` returned.
abbrev pub classify : Error → Error
classify e =
    if errors_is e Sentinel.post_card_superseded
    then Error.sentinel Sentinel.superseded
    else if errors_is e Sentinel.post_card_source_missing
        || errors_is e Sentinel.post_card_source_invalid
    then Error.permanent e
    else e

abbrev pub map_error : {A : Type 0} → (Error → Error) → TaskTx A → TaskTx A
map_error f m s = let (r, s') = m s in elim r [ ok a ↦ (ok a, s') | err e ↦ (err (f e), s') ]

-- `event.Permanent(fmt.Errorf("…%w", err))`, for the errors of the identifiers.
abbrev pub or_permanent : {A : Type 0} → Result Error A → TaskTx A
or_permanent (ok a) = pure a
or_permanent (err e) = fail (Error.permanent (Error.wrapped e))

abbrev pub apply_named : CardInputs → ℕ → Uuid → Uuid → Uuid → TaskTx (Unit {0})
apply_named inputs version post_id author_id revision_id = map_error classify (
    apply_publication inputs.codec (record {
      post_id = post_id;
      author_id = author_id;
      revision_id = revision_id;
      post_version = version;
    }))

pub publish_payload : CardInputs → PostPublishedPayload → TaskTx (Unit {0})
publish_payload inputs payload = do
  post_id ← or_permanent (parse_post_id inputs.codec payload.post_id)
  author_id ← or_permanent (parse_user_id inputs.codec payload.author_id)
  revision_id ← or_permanent (parse_revision_id inputs.codec payload.revision_id)
  apply_named inputs payload.post_version post_id author_id revision_id

pub handle_payload : CardInputs → TaskContext → Option PostPublishedPayload → TaskTx (Unit {0})
unfolding publish_payload
handle_payload inputs task none =
    fail (Error.permanent (Error.wrapped (Error.message Message.decode_publication)))
handle_payload inputs task (some payload) =
    if not (payload.schema_version == task.schema_version) || payload.post_version == 0
    then fail (Error.permanent (Error.message Message.invalid_publication_version))
    else publish_payload inputs payload

-- `PostCardHandler.Handle`, of a task, a transaction and a repository that are not nil.
unfoldable pub handle_card : CardInputs → Handler
unfolding handle_payload errors_is
handle_card inputs task =
    if not (task.event_type == inputs.post_published) || not (task.schema_version == 1)
    then fail (Error.permanent (Error.message Message.unsupported_card_event))
    else handle_payload inputs task (inputs.decode task.payload)

-- ===== src/Content/Cards/Sure.antt =====
-- Where the sources of a card are as published, only the driver can keep the handler of cards from
-- its work.
use lets_go.Prelude.{
  ◌≡◌, refl, ◌∙◌, ap, inl, inr, false, not, ◌||◌, Option, none, some, ◌==◌, arith, leb,
  if◌then◌else◌, Bool-cases,
}
use lets_go.Sql.{Session, ◌>>=◌, pure, fail, call}
use lets_go.Sql.Table.{find_row, affected, affected-none_of_find}
use lets_go.Sql.Outcome.{Holds, bind-Holds, call_then, call-Holds}
use lets_go.Content.Errors.{Sentinel, Error, errors_is}
use lets_go.Content.Tables.{PostRow, RevisionRow, PostCard, Tables}
use lets_go.Content.Delivery.{lift_result, or_not_found}
use lets_go.Content.Ids.{UuidCodec, is_zero}
use lets_go.Content.Tasks.{TaskContext, replace_error}
use lets_go.Content.Tasks.Rules.{replace_error-Holds}
use lets_go.Content.Cards.{
  PostCardPublication, PostPublishedPayload, CardInputs, post_key, revision_key, card_key,
  find_post, find_card, find_card_snapshot, insert_card, update_card, is_blank, post_fault,
  revision_fault, card_of, store_card, write_card, read_post, read_snapshot, project,
  apply_publication, classify, publish_payload, handle_payload, handle_card,
}
use lets_go.Content.Cards.Handle.{map_error-Holds}

abbrev pub IsDriver : Error → Type 0
IsDriver e = e ≡ Error.driver

abbrev Anything : {A : Type 0} → A → Session Tables → Type 0
Anything a s = Unit

-- The sources of a publication, as a card needs them.
pub record Sources (codec : UuidCodec) (p : PostCardPublication) (t : Tables) : Type 0 where
  pub named : is_blank p ≡ false
  pub post : PostRow
  pub held : find_row (post_key (codec.text p.post_id)) t.posts ≡ some post
  pub fits : post_fault codec p post ≡ none
  pub revision : RevisionRow
  pub snapshot : find_row (revision_key (codec.text p.revision_id)) t.revisions ≡ some revision
  pub sound : revision_fault (codec.text p.post_id) revision ≡ none

store_card-sure :
    (card : PostCard) (current : Option PostCard) (s : Session Tables)
    → find_row (card_key card.post_id) s.tables.cards ≡ current
    → Holds Anything IsDriver (store_card card current s)
unfolding store_card insert_card update_card
store_card-sure card none s h =
    let free : affected (card_key card.post_id) s.tables.cards ≡ 0 =
      affected-none_of_find (card_key card.post_id) s.tables.cards h in
    call_then IsDriver Error.driver _ (λ n. if n == 0 then pure tt else fail Error.driver) Anything
      s refl λ now ms later. rw free tt
store_card-sure card (some c) s h =
    elim (Bool-cases (leb card.source_post_version c.source_post_version)) [
      | inl new ↦ rw new tt
      | inr old ↦ rw old (call-Holds IsDriver Error.driver _ Anything s (λ now ms later. tt) refl)
    ]

-- A read of a row that is there.
read_sure :
    {A : Type 0} (e : Error) (rows : Tables → Option A) (a : A) (s : Session Tables)
    → rows s.tables ≡ some a
    → Holds
        (λ b s'. (b ≡ a) × (s'.tables ≡ s.tables))
        IsDriver
        (replace_error Sentinel.not_found e
          (call Error.driver (λ now t. (rows t, t)) >>= (λ found. lift_result (or_not_found found)))
          s)
unfolding errors_is
read_sure {A} e rows a s h =
    replace_error-Holds Sentinel.not_found e
      (call Error.driver (λ now t. (rows t, t)) >>= (λ found. lift_result (or_not_found found)))
      (λ b s'. (b ≡ a) × (s'.tables ≡ s.tables)) IsDriver IsDriver s (λ x d. rw d refl)
      (call_then IsDriver Error.driver _ (λ found. lift_result (or_not_found found))
        (λ b s'. (b ≡ a) × (s'.tables ≡ s.tables)) s refl λ now ms later. rw h (refl, refl))

module _ (codec : UuidCodec) (p : PostCardPublication) where
  write_card-sure :
      (post : PostRow) (revision : RevisionRow) (s : Session Tables)
      → revision_fault (codec.text p.post_id) revision ≡ none
      → Holds Anything IsDriver (write_card (codec.text p.post_id) post revision s)
  unfolding write_card find_card
  write_card-sure post revision s sound = rw sound (
      call_then IsDriver Error.driver _ (store_card (card_of (codec.text p.post_id) post revision))
        Anything s refl
        λ now ms later.
          store_card-sure (card_of (codec.text p.post_id) post revision) _
            (record s { now = now; script = ms }) refl)

  project-sure :
      (post : PostRow) (revision : RevisionRow) (s : Session Tables)
      → post_fault codec p post ≡ none
      → find_row (revision_key (codec.text p.revision_id)) s.tables.revisions ≡ some revision
      → revision_fault (codec.text p.post_id) revision ≡ none
      → Holds Anything IsDriver (project codec p post s)
  unfolding project find_card_snapshot
  project-sure post revision s fits snapshot sound = rw fits (
      bind-Holds IsDriver (read_snapshot (codec.text p.revision_id))
        (write_card (codec.text p.post_id) post)
        (λ found s'. (found ≡ revision) × (s'.tables ≡ s.tables)) Anything s
        (read_sure _ (λ t. find_row (revision_key (codec.text p.revision_id)) t.revisions) revision
          s snapshot)
        λ found s' (same, kept). rw same (write_card-sure post revision s' sound))

  pub apply_publication-sure :
      (s : Session Tables)
      → Sources codec p s.tables
      → Holds Anything IsDriver (apply_publication codec p s)
  unfolding apply_publication find_post
  apply_publication-sure s h = rw h.named (
      bind-Holds IsDriver (read_post (codec.text p.post_id)) (project codec p)
        (λ post s'. (post ≡ h.post) × (s'.tables ≡ s.tables)) Anything s
        (read_sure _ (λ t. find_row (post_key (codec.text p.post_id)) t.posts) h.post s h.held)
        λ post s' (same, kept). rw same (
          project-sure h.post h.revision s' h.fits
            (ap (λ (t : Tables). find_row (revision_key (codec.text p.revision_id)) t.revisions)
                kept
              ∙ h.snapshot)
            h.sound))

-- A task whose payload names a publication, and the publication.
pub record Names (inputs : CardInputs) (task : TaskContext) (p : PostCardPublication) : Type 0 where
  pub payload : PostPublishedPayload
  pub decoded : inputs.decode task.payload ≡ some payload
  pub kind : task.event_type ≡ inputs.post_published
  pub version : (task.schema_version ≡ 1) × (payload.schema_version ≡ 1)
  pub post : inputs.codec.parse payload.post_id ≡ some p.post_id
  pub author : inputs.codec.parse payload.author_id ≡ some p.author_id
  pub revision : inputs.codec.parse payload.revision_id ≡ some p.revision_id
  pub number : payload.post_version ≡ p.post_version

classify-sure : (e : Error) → IsDriver e → IsDriver (classify e)
unfolding errors_is
classify-sure e h = rw h refl

module _ (inputs : CardInputs) (task : TaskContext) (p : PostCardPublication)
    (names : Names inputs task p) where
  publish_payload-sure :
      (s : Session Tables)
      → Sources inputs.codec p s.tables
      → Holds Anything IsDriver (publish_payload inputs names.payload s)
  unfolding publish_payload
  publish_payload-sure s h = rw names.post (
      rw names.author (
        rw names.revision (
          rw post_known (
            rw author_known (
              rw revision_known (
                rw names.number (
                  map_error-Holds classify (apply_publication inputs.codec p) Anything IsDriver
                    IsDriver s classify-sure (apply_publication-sure inputs.codec p s h))))))))
    where
      post_known : is_zero p.post_id ≡ false
      post_known = let named = h.named in ground arith

      author_known : is_zero p.author_id ≡ false
      author_known = let named = h.named in ground arith

      revision_known : is_zero p.revision_id ≡ false
      revision_known = let named = h.named in ground arith

  -- With the sources there, the handler of cards reports only what the driver does.
  pub handle_card-sure :
      (s : Session Tables)
      → Sources inputs.codec p s.tables
      → Holds Anything IsDriver (handle_card inputs task s)
  unfolding handle_card handle_payload
  handle_card-sure s h = rw wanted (rw names.decoded (rw agreed (publish_payload-sure s h)))
    where
      wanted :
          (not (task.event_type == inputs.post_published) || not (task.schema_version == 1)) ≡ false
      wanted = let kind = names.kind in let (one, _) = names.version in ground arith

      agreed :
          (not (names.payload.schema_version == task.schema_version)
            || names.payload.post_version == 0)
          ≡ false
      agreed =
          let named = h.named in
          let (one, same) = names.version in let number = names.number in ground arith

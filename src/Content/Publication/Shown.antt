-- ===== src/Content/Publication/Shown.antt =====
-- A publication and the handler of its event, one after the other: `PublishPostLogic.PublishPost`
-- (internal/logic/publish_post_logic.go) and `PostCardHandler.Handle`
-- (internal/taskhandler/post_card.go).
use lets_go.Prelude.{
  ℕ, ◌≡◌, refl, ◌∙◌, sym, ap, ◌≢◌, false, Option, none, some, List, [], ◌∷◌, ◌++◌, arith,
}
use lets_go.Sql.{Session}
use lets_go.Sql.Outcome.{Holds, Holds-both, Holds-mono}
use lets_go.Content.Errors.{Text}
use lets_go.Content.Tables.{Time, PostRow, OutboxEvent, Tables}
use lets_go.Content.Ids.{Uuid}
use lets_go.Content.Tasks.{TaskContext}
use lets_go.Content.Post.{Post}
use lets_go.Content.Post.Draft.{Cover}
use lets_go.Content.Cards.{
  PostCardPublication, PostPublishedPayload, CardInputs, is_blank, post_fault, revision_fault,
  handle_card,
}
use lets_go.Content.Cards.Handle.{HandlerError, Applied}
use lets_go.Content.Cards.Newer.{HasCard, NoOlder, handle_card-NoOlder}
use lets_go.Content.Cards.Sure.{IsDriver, Sources, Names, handle_card-sure}
use lets_go.Content.Removal.Outcome.{restore-same}
use lets_go.Content.Publication.{Publication, PublishInputs, PublicationResult, revision_row}
use lets_go.Content.Publication.Rows.{published_row, overwritten}
use lets_go.Content.Publication.Body.{publish_callback, payload_of, event_row}
use lets_go.Content.Publication.Outcome.{Published}
use lets_go.Content.Publication.Effects.{Effects, Published-Effects}
use lets_go.Content.Publication.Callback.{Permitted, ready-cover, publish_callback-Permitted}

-- `json.Unmarshal` of a payload gives the fields that the handler reads of what was encoded.
abbrev pub read_back : Publication → PostPublishedPayload
read_back q = record {
  schema_version = 1;
  post_id = q.post_id;
  author_id = q.author_id;
  revision_id = q.revision_id;
  post_version = q.post_version;
}

abbrev pub card_inputs : PublishInputs → (Text → Option PostPublishedPayload) → CardInputs
card_inputs inputs decode = record {
  codec = inputs.codec;
  decode = decode;
  post_published = inputs.post_published;
}

snoc-same : {A : Type 0} (xs : List A) (a b : A) → xs ++ a ∷ [] ≡ xs ++ b ∷ [] → a ≡ b
snoc-same [] a b h = cc
snoc-same (x ∷ xs) a b h = snoc-same xs a b cc

-- The rows that a publication leaves are what the card asks of its sources.
module _ (inputs : PublishInputs) (id actor_id : Uuid) (expected_post expected_draft : ℕ)
    (revision_id : Uuid) (now : Time) (event_id : Uuid) (before after : Tables)
    (result : PublicationResult)
    (p : Published inputs id
      (publish_callback actor_id expected_post expected_draft revision_id now)
      event_id
      before
      after
      result)
    (known : id ≢ 0) (spelled : (u : Uuid) → inputs.codec.text u ≢ 0) where
  permitted :
      Permitted actor_id expected_post expected_draft revision_id now p.read.post p.read.draft
        p.revision p.post
  permitted =
      publish_callback-Permitted actor_id expected_post expected_draft revision_id now p.read.post
        p.read.draft p.revision p.post p.applied

  abbrev announced : PostCardPublication
  announced = record {
    post_id = id;
    author_id = p.post.author_id;
    revision_id = p.revision.revision_id;
    post_version = p.post.version;
  }

  abbrev new_row : Time → PostRow
  new_row at =
      overwritten
        (published_row inputs.codec p.post p.revision.revision_id p.first p.last p.read.row) at
        p.read.row

  present : p.read.row.deleted_at ≡ none
  present =
      let (status, version, deleted) =
        restore-same inputs.codec p.read.row p.read.post p.read.restored in
      sym deleted ∙ permitted.may.present

  author : p.post.author_id ≢ 0
  author =
      let same : p.post.author_id ≡ p.read.post.author_id =
        ap (λ (x : Post). x.author_id) permitted.left in
      ground (arith, permitted.may.author, permitted.may.known)

  named : is_blank announced ≡ false
  named = let fits = p.fits in ground (arith, author, known)

  fitting : (at : Time) → post_fault inputs.codec announced (new_row at) ≡ none
  fitting at = let fits = p.fits in ground (arith, present)

  sound : revision_fault (inputs.codec.text id) (revision_row inputs.codec p.revision) ≡ none
  sound =
      let (cover, shown, set) = ready-cover p.read.draft permitted.fit.ready in
      let kept : p.revision.cover ≡ some cover =
        ap (λ (r : lets_go.Content.Post.Draft.PostRevision). r.cover) permitted.made ∙ shown in
      let fits = p.fits in rw kept (ground (arith, spelled cover.asset_id))

  sources : Sources inputs.codec announced after
  sources =
      let effects = Published-Effects inputs id _ event_id before after result p in
      record {
        named = named;
        post = new_row effects.now;
        held = effects.post;
        fits = fitting effects.now;
        revision = revision_row inputs.codec p.revision;
        snapshot = effects.revision;
        sound = sound;
      }

  -- The event that the publication has stored, the task that carries it, and what is asked of the
  -- packages that spell and read identifiers and payloads.
  module _ (decode : Text → Option PostPublishedPayload)
      (parsed : (u : Uuid) → u ≢ 0 → inputs.codec.parse (inputs.codec.text u) ≡ some u)
      (decoded : (q : Publication) → decode (inputs.encode q) ≡ some (read_back q))
      (event : OutboxEvent) (stored : after.outbox ≡ before.outbox ++ event ∷ [])
      (task : TaskContext)
      (carried : (task.event_type ≡ event.event_type)
        × (task.schema_version ≡ 1)
        × (task.payload ≡ event.payload_json)) where
    same_event :
        (effects : Effects inputs id
          (publish_callback actor_id expected_post expected_draft revision_id now)
          event_id
          before
          after
          result
          p)
        → event ≡ event_row inputs id event_id p.post p.revision effects.due
    same_event effects = snoc-same before.outbox _ _ (sym stored ∙ effects.outbox)

    abbrev told : PostPublishedPayload
    told = read_back (payload_of inputs id p.post p.revision)

    told_by : decode task.payload ≡ some told
    told_by =
        let effects = Published-Effects inputs id _ event_id before after result p in
        let (kind, one, payload) = carried in
        ap decode (payload ∙ ap (λ (x : OutboxEvent). x.payload_json) (same_event effects))
        ∙ decoded (payload_of inputs id p.post p.revision)

    carries : Names (card_inputs inputs decode) task announced
    carries =
        let effects = Published-Effects inputs id _ event_id before after result p in
        let (kind, one, payload) = carried in
        let fits = p.fits in
        record {
          payload = told;
          decoded = told_by;
          kind = kind ∙ ap (λ (x : OutboxEvent). x.event_type) (same_event effects);
          version = (one, refl);
          post = parsed id known;
          author = parsed p.post.author_id author;
          revision = parsed p.revision.revision_id (ground (arith, fits));
          number = refl;
        }

    some-same : {A : Type 0} (a b : A) → some a ≡ some b → a ≡ b
    some-same a b h = cc

    -- On the tables that a committed publication of a known post leaves, the handler of a task that
    -- carries the event stored by it fails only where the driver does. If it does not fail, the post
    -- has a card of the version published or a newer one. It is asked that identifiers, of which none
    -- is spelled as the empty text, and payloads are read as they were written.
    pub handle_card-Published :
        (s : Session Tables)
        → s.tables ≡ after
        → Holds
            (λ _ s'. HasCard (inputs.codec.text id) result.post_version s'.tables)
            IsDriver
            (handle_card (card_inputs inputs decode) task s)
    handle_card-Published s same =
        Holds-mono
          (λ _ s'.
            (NoOlder s.tables s'.tables
              × ((a : Applied (card_inputs inputs decode) task s.tables s'.tables) × HasCard
                    (inputs.codec.text a.publication.post_id) a.publication.post_version s'.tables))
            × Unit)
          _ IsDriver IsDriver _ (λ _ s' ((kept, (a, card)), t). shown s'.tables a card) (λ e h. h)
          (Holds-both _ _ HandlerError IsDriver _
            (handle_card-NoOlder (card_inputs inputs decode) task s)
            (handle_card-sure (card_inputs inputs decode) task announced carries s
              (rw same sources)))
      where
        shown :
            (t : Tables) (a : Applied (card_inputs inputs decode) task s.tables t)
            → HasCard (inputs.codec.text a.publication.post_id) a.publication.post_version t
            → HasCard (inputs.codec.text id) result.post_version t
        shown t a card =
            let effects = Published-Effects inputs id _ event_id before after result p in
            let payload : a.payload ≡ told = some-same _ _ (sym a.decoded ∙ told_by) in
            let (post, author_id, revision, version) = a.identified in
            let own : a.publication.post_id ≡ id = some-same _ _ (
              sym post
              ∙ ap (λ (x : PostPublishedPayload). inputs.codec.parse x.post_id) payload
              ∙ parsed id known) in
            let number : a.publication.post_version ≡ result.post_version =
              version
              ∙ ap (λ (x : PostPublishedPayload). x.post_version) payload
              ∙ sym (ap (λ (x : PublicationResult). x.post_version) effects.answer) in
            rw (own, number) at card

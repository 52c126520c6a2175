-- ===== src/Content/Cards/Handle.antt =====
-- `PostCardHandler.Handle` (internal/taskhandler/post_card.go): what it applies, what it reports,
-- and that it leaves the deliveries to the task repository.
use lets_go.Prelude.{
  ◌≡◌, refl, ◌∙◌, ◌≢◌, ◌⊎◌, inl, inr, Bool, true, false, not, ◌||◌, Option, none, some, ◌==◌, arith,
  if◌then◌else◌, Bool-cases,
}
use lets_go.Sql.{Session, Result, ok, err, ◌>>=◌}
use lets_go.Sql.Outcome.{Holds, bind-Holds, Holds-mono}
use lets_go.Content.Errors.{Sentinel, Error, errors_is, is_permanent}
use lets_go.Content.Tables.{Ident, Tables}
use lets_go.Content.Ids.{
  Uuid, UuidCodec, check_uuid, is_zero, parse_uuid, parse_post_id, parse_user_id, parse_revision_id,
}
use lets_go.Content.Tasks.{TaskContext, TaskTx}
use lets_go.Content.Cards.{
  PostCardPublication, PostPublishedPayload, CardInputs, apply_publication, classify, map_error,
  or_permanent, apply_named, publish_payload, handle_payload, handle_card,
}
use lets_go.Content.Cards.Write.{
  CardError, refused, superseded, blank, invalid, missing, Projected, apply-Holds,
}

-- The errors of the handler: the driver's is tried again, a superseded publication is final, and
-- so is everything permanent.
abbrev pub HandlerError : Error → Type 0
HandlerError e =
    (e ≡ Error.driver) ⊎ ((e ≡ Error.sentinel Sentinel.superseded) ⊎ (is_permanent e ≡ true))

-- A task that was applied: its payload, the identifiers in it and the publication.
pub record Applied (inputs : CardInputs) (task : TaskContext) (before after : Tables) : Type 0 where
  pub payload : PostPublishedPayload
  pub decoded : inputs.decode task.payload ≡ some payload
  pub kind : task.event_type ≡ inputs.post_published
  pub version :
      (task.schema_version ≡ 1) × (payload.schema_version ≡ 1) × (payload.post_version ≢ 0)
  pub publication : PostCardPublication
  pub identified :
      (inputs.codec.parse payload.post_id ≡ some publication.post_id)
      × (inputs.codec.parse payload.author_id ≡ some publication.author_id)
      × (inputs.codec.parse payload.revision_id ≡ some publication.revision_id)
      × (publication.post_version ≡ payload.post_version)
  pub projected : Projected inputs.codec publication before after

pub map_error-Holds :
    {A : Type 0} (f : Error → Error) (m : TaskTx A) (Q : A → Session Tables → Type 0)
    (P R : Error → Type 0) (s : Session Tables)
    → ((x : Error) → P x → R (f x))
    → Holds Q P (m s)
    → Holds Q R (map_error f m s)
map_error-Holds {A} f m Q P R s g h = go (m s) h
  where
    go :
        (r : Result Error A × Session Tables)
        → Holds Q P r
        → Holds Q R (let (a, s') = r in elim a [ ok a ↦ (ok a, s') | err e ↦ (err (f e), s') ])
    go (ok a, s') h' = h'
    go (err x, s') h' = g x h'

classify-HandlerError : (e : Error) → CardError e → HandlerError (classify e)
unfolding errors_is is_permanent
classify-HandlerError _ refused = inl refl
classify-HandlerError _ superseded = inr (inl refl)
classify-HandlerError _ blank = inr (inr refl)
classify-HandlerError _ invalid = inr (inr refl)
classify-HandlerError _ missing = inr (inr refl)

-- An identifier that is not one is a permanent error.
identify-Holds :
    (codec : UuidCodec) (value : Ident) (wrong : Sentinel) (s : Session Tables)
    → Holds
        (λ id s'. (codec.parse value ≡ some id) × (s' ≡ s))
        HandlerError
        (or_permanent (parse_uuid codec value wrong) s)
unfolding is_permanent
identify-Holds codec value wrong s = go (codec.parse value) refl
  where
    known :
        (id : Uuid) (zero_id : Bool)
        → codec.parse value ≡ some id
        → Holds
            (λ id s'. (codec.parse value ≡ some id) × (s' ≡ s))
            HandlerError
            (or_permanent (if zero_id then err (Error.sentinel wrong) else ok id) s)
    known id true e = inr (inr refl)
    known id false e = (e, refl)

    go :
        (parsed : Option Uuid)
        → codec.parse value ≡ parsed
        → Holds
            (λ id s'. (codec.parse value ≡ some id) × (s' ≡ s))
            HandlerError
            (or_permanent (check_uuid wrong parsed) s)
    go none e = inr (inr refl)
    go (some id) e = known id (is_zero id) e

-- The publication that a payload names, and that it was applied.
pub record Published (inputs : CardInputs) (payload : PostPublishedPayload) (before after : Tables)
    : Type 0 where
  pub publication : PostCardPublication
  pub identified :
      (inputs.codec.parse payload.post_id ≡ some publication.post_id)
      × (inputs.codec.parse payload.author_id ≡ some publication.author_id)
      × (inputs.codec.parse payload.revision_id ≡ some publication.revision_id)
      × (publication.post_version ≡ payload.post_version)
  pub projected : Projected inputs.codec publication before after

publish_payload-Holds :
    (inputs : CardInputs) (payload : PostPublishedPayload) (s : Session Tables)
    → Holds
        (λ _ s'. Published inputs payload s.tables s'.tables)
        HandlerError
        (publish_payload inputs payload s)
unfolding publish_payload
publish_payload-Holds inputs payload s =
    bind-Holds HandlerError (or_permanent (parse_post_id inputs.codec payload.post_id)) with_post
      (λ id s'. (inputs.codec.parse payload.post_id ≡ some id) × (s' ≡ s)) Post s
      (identify-Holds inputs.codec payload.post_id Sentinel.invalid_post_id s)
      λ post_id s1 (post, same1).
        bind-Holds HandlerError (or_permanent (parse_user_id inputs.codec payload.author_id))
          (with_author post_id)
          (λ id s'. (inputs.codec.parse payload.author_id ≡ some id) × (s' ≡ s1)) Post s1
          (identify-Holds inputs.codec payload.author_id Sentinel.invalid_user_id s1)
          λ author_id s2 (author, same2).
            bind-Holds HandlerError
              (or_permanent (parse_revision_id inputs.codec payload.revision_id))
              (apply_named inputs payload.post_version post_id author_id)
              (λ id s'. (inputs.codec.parse payload.revision_id ≡ some id) × (s' ≡ s2)) Post s2
              (identify-Holds inputs.codec payload.revision_id Sentinel.invalid_revision_id s2)
              λ revision_id s3 (revision, same3).
                let publication : PostCardPublication = record {
                  post_id = post_id;
                  author_id = author_id;
                  revision_id = revision_id;
                  post_version = payload.post_version;
                } in
                rw (same3 ∙ same2 ∙ same1) (
                  map_error-Holds classify (apply_publication inputs.codec publication) Post
                    CardError HandlerError s classify-HandlerError
                    (Holds-mono (λ _ s'. Projected inputs.codec publication s.tables s'.tables) Post
                      CardError CardError _
                      (λ _ s' h. record {
                        publication = publication;
                        identified = (post, author, revision, refl);
                        projected = h;
                      })
                      (λ e h. h) (apply-Holds inputs.codec publication s)))
  where
    Post : Unit {0} → Session Tables → Type 0
    Post _ s' = Published inputs payload s.tables s'.tables

    with_author : Uuid → Uuid → TaskTx (Unit {0})
    with_author post_id author_id =
        or_permanent (parse_revision_id inputs.codec payload.revision_id)
        >>= apply_named inputs payload.post_version post_id author_id

    with_post : Uuid → TaskTx (Unit {0})
    with_post post_id =
        or_permanent (parse_user_id inputs.codec payload.author_id) >>= with_author post_id

-- The handler of cards returns no error only for a task of type PostPublished and version 1 whose
-- payload can be read, agrees on the version and names a post, an author and a revision. Then
-- the post is the author's, is published with that revision, not deleted and not older than the
-- publication; the revision is the post's and has a cover; and the card of the post has the title,
-- summary, cover and times of the revision and the author, visibility, availability and version of
-- the post, or one that is as new was there already; nothing else has changed. Every error is the
-- driver's, `ErrSuperseded` or permanent.
pub handle_card-Holds :
    (inputs : CardInputs) (task : TaskContext) (s : Session Tables)
    → Holds
        (λ _ s'. Applied inputs task s.tables s'.tables)
        HandlerError
        (handle_card inputs task s)
unfolding handle_card handle_payload is_permanent
handle_card-Holds inputs task s =
    elim (Bool-cases
      (not (task.event_type == inputs.post_published) || not (task.schema_version == 1))) [
        | inl other ↦ rw other (inr (inr refl))
        | inr card ↦
            rw card (decode (inputs.decode task.payload) refl (ground arith) (ground arith))
      ]
  where
    decode :
        (payload : Option PostPublishedPayload)
        → inputs.decode task.payload ≡ payload
        → task.event_type ≡ inputs.post_published
        → task.schema_version ≡ 1
        → Holds
            (λ _ s'. Applied inputs task s.tables s'.tables)
            HandlerError
            (handle_payload inputs task payload s)
    decode none e kind one = inr (inr refl)
    decode (some payload) e kind one =
        elim (Bool-cases
          (not (payload.schema_version == task.schema_version) || payload.post_version == 0)) [
            | inl wrong ↦ rw wrong (inr (inr refl))
            | inr right ↦ rw right (
                Holds-mono (λ _ s'. Published inputs payload s.tables s'.tables)
                  (λ _ s'. Applied inputs task s.tables s'.tables) HandlerError HandlerError _
                  (λ _ s' h. record {
                    payload = payload;
                    decoded = e;
                    kind = kind;
                    version = (one, (ground arith), (ground arith));
                    publication = h.publication;
                    identified = h.identified;
                    projected = h.projected;
                  })
                  (λ e h. h) (publish_payload-Holds inputs payload s))
          ]

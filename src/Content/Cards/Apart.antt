-- ===== src/Content/Cards/Apart.antt =====
-- The handler of internal/taskhandler/post_card.go writes cards only: the deliveries stay as they
-- are, whatever it returns.
use lets_go.Prelude.{
  ℕ, ◌≡◌, refl, Bool, true, false, not, ◌||◌, Option, none, some, List, [], ◌∷◌, ◌++◌,
  if◌then◌else◌, ◌==◌, is_none,
}
use lets_go.Sql.{Session, Result, ok, err, ◌>>=◌, pure, fail, call}
use lets_go.Sql.Table.{affected}
use lets_go.Sql.Frame.{Fixes, bind-Fixes, call-Fixes}
use lets_go.Content.Errors.{Sentinel, Message, Error, errors_is}
use lets_go.Content.Tables.{Ident, Delivery, PostRow, RevisionRow, PostCard, Tables}
use lets_go.Content.Delivery.{lift_result, or_not_found}
use lets_go.Content.Ids.{Uuid, UuidCodec, parse_post_id, parse_user_id, parse_revision_id}
use lets_go.Content.Tasks.{TaskTx, replace_error}
use lets_go.Content.Cards.{
  PostCardPublication, PostPublishedPayload, CardInputs, explained, post_fault, revision_fault,
  raise, is_current, is_blank, card_of, find_post, find_card_snapshot, find_card, card_key,
  insert_card, update_card, store_card, write_card, read_post, read_snapshot, project,
  apply_publication, classify, map_error, or_permanent, apply_named, publish_payload,
  handle_payload, handle_card,
}
use lets_go.Content.History.{IsApart}

abbrev pub deliveries_of : Tables → List Delivery
deliveries_of t = t.deliveries

replace_error-Fixes :
    {A : Type 0} (target : Sentinel) (e : Error) (m : TaskTx A)
    → Fixes deliveries_of m
    → Fixes deliveries_of (replace_error target e m)
replace_error-Fixes {A} target e m h s = go (m s) (h s)
  where
    go :
        (r : Result Error A × Session Tables)
        → r.1.tables.deliveries ≡ s.tables.deliveries
        → let after : Result Error A × Session Tables =
            (let (a, s') = r in
              elim a [
                | ok a ↦ (ok a, s')
                | err x ↦ (err (if errors_is x target then e else x), s')
              ]) in
          after.1.tables.deliveries ≡ s.tables.deliveries
    go (ok a, s') p = p
    go (err x, s') p = p

map_error-Fixes :
    {A : Type 0} (f : Error → Error) (m : TaskTx A)
    → Fixes deliveries_of m
    → Fixes deliveries_of (map_error f m)
map_error-Fixes {A} f m h s = go (m s) (h s)
  where
    go :
        (r : Result Error A × Session Tables)
        → r.1.tables.deliveries ≡ s.tables.deliveries
        → let after : Result Error A × Session Tables =
            (let (a, s') = r in elim a [ ok a ↦ (ok a, s') | err e ↦ (err (f e), s') ]) in
          after.1.tables.deliveries ≡ s.tables.deliveries
    go (ok a, s') p = p
    go (err x, s') p = p

if-Fixes :
    {A : Type 0} (b : Bool) (m k : TaskTx A)
    → Fixes deliveries_of m
    → Fixes deliveries_of k
    → Fixes deliveries_of (if b then m else k)
if-Fixes true m k h g = h
if-Fixes false m k h g = g

raise-Fixes : (fault : Option Error) → Fixes deliveries_of (raise fault)
raise-Fixes none s = refl
raise-Fixes (some e) s = refl

or_permanent-Fixes : {A : Type 0} (r : Result Error A) → Fixes deliveries_of (or_permanent r)
or_permanent-Fixes (ok a) s = refl
or_permanent-Fixes (err e) s = refl

-- A read.
read-Fixes :
    {A : Type 0} (rows : Tables → Option A)
    → Fixes deliveries_of
        (call Error.driver (λ now t. (rows t, t)) >>= (λ found. lift_result (or_not_found found)))
read-Fixes rows =
    bind-Fixes deliveries_of (call Error.driver (λ now t. (rows t, t)))
      (λ found. lift_result (or_not_found found))
      (call-Fixes deliveries_of Error.driver (λ now t. (rows t, t)) (λ now t. refl))
      (λ found s. refl)

insert_card-Fixes : (card : PostCard) → Fixes deliveries_of (insert_card card)
unfolding insert_card
insert_card-Fixes card =
    bind-Fixes deliveries_of (call Error.driver insert)
      (λ n. if n == 0 then pure tt else fail Error.driver)
      (call-Fixes deliveries_of Error.driver insert (λ now t. refl))
      (λ n. if-Fixes (n == 0) (pure tt) (fail Error.driver) (λ s. refl) (λ s. refl))
  where
    insert : ℕ → Tables → ℕ × Tables
    insert now t =
        let n = affected (card_key card.post_id) t.cards in
        (n, record t { cards = if n == 0 then t.cards ++ card ∷ [] else t.cards })

update_card-Fixes : (card : PostCard) → Fixes deliveries_of (update_card card)
unfolding update_card
update_card-Fixes card = call-Fixes deliveries_of Error.driver _ (λ now t. refl)

store_card-Fixes :
    (card : PostCard) (current : Option PostCard) → Fixes deliveries_of (store_card card current)
unfolding store_card
store_card-Fixes card current =
    if-Fixes (is_current card.source_post_version current) (pure tt)
      (if is_none current then insert_card card else update_card card) (λ s. refl)
      (if-Fixes (is_none current) (insert_card card) (update_card card) (insert_card-Fixes card)
        (update_card-Fixes card))

write_card-Fixes :
    (id : Ident) (post : PostRow) (revision : RevisionRow)
    → Fixes deliveries_of (write_card id post revision)
unfolding write_card find_card
write_card-Fixes id post revision =
    bind-Fixes deliveries_of (raise (revision_fault id revision))
      (λ _. find_card id >>= store_card (card_of id post revision))
      (raise-Fixes (revision_fault id revision))
      λ _.
        bind-Fixes deliveries_of (find_card id) (store_card (card_of id post revision))
          (call-Fixes deliveries_of Error.driver _ (λ now t. refl))
          (store_card-Fixes (card_of id post revision))

project-Fixes :
    (codec : UuidCodec) (p : PostCardPublication) (post : PostRow)
    → Fixes deliveries_of (project codec p post)
unfolding project find_card_snapshot
project-Fixes codec p post =
    bind-Fixes deliveries_of (raise (post_fault codec p post))
      (λ _. read_snapshot (codec.text p.revision_id) >>= write_card (codec.text p.post_id) post)
      (raise-Fixes (post_fault codec p post))
      λ _.
        bind-Fixes deliveries_of (read_snapshot (codec.text p.revision_id))
          (write_card (codec.text p.post_id) post)
          (replace_error-Fixes Sentinel.not_found (explained Sentinel.post_card_source_missing)
            (find_card_snapshot (codec.text p.revision_id)) (read-Fixes _))
          (write_card-Fixes (codec.text p.post_id) post)

apply-Fixes :
    (codec : UuidCodec) (p : PostCardPublication) → Fixes deliveries_of (apply_publication codec p)
unfolding apply_publication find_post
apply-Fixes codec p =
    if-Fixes (is_blank p) (fail (Error.sentinel Sentinel.post_card_source_invalid))
      (read_post (codec.text p.post_id) >>= project codec p) (λ s. refl)
      (bind-Fixes deliveries_of (read_post (codec.text p.post_id)) (project codec p)
        (replace_error-Fixes Sentinel.not_found (explained Sentinel.post_card_source_missing)
          (find_post (codec.text p.post_id)) (read-Fixes _))
        (project-Fixes codec p))

apply_named-Fixes :
    (inputs : CardInputs) (version : ℕ) (post_id author_id revision_id : Uuid)
    → Fixes deliveries_of (apply_named inputs version post_id author_id revision_id)
apply_named-Fixes inputs version post_id author_id revision_id =
    let p : PostCardPublication = record {
      post_id = post_id;
      author_id = author_id;
      revision_id = revision_id;
      post_version = version;
    } in
    map_error-Fixes classify (apply_publication inputs.codec p) (apply-Fixes inputs.codec p)

publish_payload-Fixes :
    (inputs : CardInputs) (payload : PostPublishedPayload)
    → Fixes deliveries_of (publish_payload inputs payload)
unfolding publish_payload
publish_payload-Fixes inputs payload =
    bind-Fixes deliveries_of (or_permanent (parse_post_id inputs.codec payload.post_id)) with_post
      (or_permanent-Fixes (parse_post_id inputs.codec payload.post_id))
      λ post_id.
        bind-Fixes deliveries_of (or_permanent (parse_user_id inputs.codec payload.author_id))
          (with_author post_id) (or_permanent-Fixes (parse_user_id inputs.codec payload.author_id))
          λ author_id.
            bind-Fixes deliveries_of
              (or_permanent (parse_revision_id inputs.codec payload.revision_id))
              (apply_named inputs payload.post_version post_id author_id)
              (or_permanent-Fixes (parse_revision_id inputs.codec payload.revision_id))
              λ revision_id.
                apply_named-Fixes inputs payload.post_version post_id author_id revision_id
  where
    with_author : Uuid → Uuid → TaskTx (Unit {0})
    with_author post_id author_id =
        or_permanent (parse_revision_id inputs.codec payload.revision_id)
        >>= apply_named inputs payload.post_version post_id author_id

    with_post : Uuid → TaskTx (Unit {0})
    with_post post_id =
        or_permanent (parse_user_id inputs.codec payload.author_id) >>= with_author post_id

-- Whatever task the handler of cards is given, on whatever tables, and whatever it returns, the
-- deliveries stay as they are: the theorems on histories hold for it.
pub handle_card-IsApart : (inputs : CardInputs) → IsApart (handle_card inputs)
unfolding handle_card handle_payload
handle_card-IsApart inputs task =
    if-Fixes (not (task.event_type == inputs.post_published) || not (task.schema_version == 1))
      (fail (Error.permanent (Error.message Message.unsupported_card_event)))
      (handle_payload inputs task (inputs.decode task.payload)) (λ s. refl)
      (decoded (inputs.decode task.payload))
  where
    decoded :
        (payload : Option PostPublishedPayload)
        → Fixes deliveries_of (handle_payload inputs task payload)
    decoded none = λ s. refl
    decoded (some payload) =
        if-Fixes (not (payload.schema_version == task.schema_version) || payload.post_version == 0)
          (fail (Error.permanent (Error.message Message.invalid_publication_version)))
          (publish_payload inputs payload) (λ s. refl) (publish_payload-Fixes inputs payload)

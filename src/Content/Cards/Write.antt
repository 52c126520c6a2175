-- ===== src/Content/Cards/Write.antt =====
-- `ApplyPublication` (internal/respository/post_card.go) brings the card of one post up to the
-- post's published revision, and never back.
use lets_go.Prelude.{
  ◌≤◌, ◌≡◌, refl, ◌≢◌, ◌⊎◌, inl, inr, Bool, true, false, Option, none, some, List, [], ◌∷◌, ◌++◌,
  leb, ◌==◌, arith, if◌then◌else◌, Bool-cases,
}
use lets_go.Sql.{Session, ◌>>=◌, pure, fail, call}
use lets_go.Sql.Table.{find_row, update_where, affected, affected-none_of_find}
use lets_go.Sql.Outcome.{Holds, bind-Holds, call_then, call-Holds, Holds-mono}
use lets_go.Content.Errors.{Sentinel, Error}
use lets_go.Content.Tables.{Ident, PostRow, RevisionRow, PostCard, Tables}
use lets_go.Content.Delivery.{lift_result, or_not_found}
use lets_go.Content.Ids.{UuidCodec}
use lets_go.Content.Tasks.{replace_error}
use lets_go.Content.Tasks.Rules.{read-Holds}
use lets_go.Content.Cards.{
  PostCardPublication, post_key, revision_key, card_key, find_post, find_card_snapshot, find_card,
  insert_card, update_card, is_blank, explained, post_fault, revision_fault, raise, card_of,
  is_current, store_card, write_card, read_post, read_snapshot, project, apply_publication,
}
use lets_go.Content.Cards.Carried.{
  Carries, Covered, post_fault-Carries, revision_fault-Covered, showing,
}

-- The errors of `ApplyPublication`.
pub data CardError : Error → Type 0 where
  refused : CardError Error.driver
  superseded : CardError (Error.sentinel Sentinel.post_card_superseded)
  blank : CardError (Error.sentinel Sentinel.post_card_source_invalid)
  invalid : CardError (explained Sentinel.post_card_source_invalid)
  missing : CardError (explained Sentinel.post_card_source_missing)

-- The card that stands for `card.post_id` is at least as new as `card`, and the rest is as before.
pub record Stored (card : PostCard) (before after : Tables) : Type 0 where
  pub frame : after ≡ record before { cards = after.cards }
  pub others :
      (id : Ident)
      → id ≢ card.post_id
      → find_row (card_key id) after.cards ≡ find_row (card_key id) before.cards
  pub found :
      ((c : PostCard) × (find_row (card_key card.post_id) before.cards ≡ some c)
        × (card.source_post_version ≤ c.source_post_version)
        × (after ≡ before))
      ⊎ ((is_current card.source_post_version (find_row (card_key card.post_id) before.cards)
            ≡ false)
          × (find_row (card_key card.post_id) after.cards ≡ some card))

find-append_none :
    (id : Ident) (cards : List PostCard) (card : PostCard)
    → find_row (card_key card.post_id) cards ≡ none
    → (find_row (card_key card.post_id) (cards ++ card ∷ []) ≡ some card)
      × (id ≢ card.post_id
          → find_row (card_key id) (cards ++ card ∷ []) ≡ find_row (card_key id) cards)
find-append_none id [] card h = (ground arith, λ p. ground arith)
find-append_none id (x ∷ cards) card h = ground (arith, find-append_none id cards card)

find-replace :
    (id : Ident) (cards : List PostCard) (card c : PostCard)
    → (find_row (card_key card.post_id) cards ≡ some c
        → find_row (card_key card.post_id) (update_where (card_key card.post_id) (λ r. card) cards)
          ≡ some card)
      × (id ≢ card.post_id
          → find_row (card_key id) (update_where (card_key card.post_id) (λ r. card) cards)
            ≡ find_row (card_key id) cards)
find-replace id [] card c = (λ h. cc, λ p. refl)
find-replace id (x ∷ cards) card c = ground (arith, find-replace id cards card c)

store_card-Holds :
    (card : PostCard) (current : Option PostCard) (s : Session Tables)
    → find_row (card_key card.post_id) s.tables.cards ≡ current
    → Holds (λ _ s'. Stored card s.tables s'.tables) CardError (store_card card current s)
unfolding store_card insert_card update_card
store_card-Holds card none s h =
    let free : affected (card_key card.post_id) s.tables.cards ≡ 0 =
      affected-none_of_find (card_key card.post_id) s.tables.cards h in
    call_then CardError Error.driver _ (λ n. if n == 0 then pure tt else fail Error.driver)
      (λ _ s'. Stored card s.tables s'.tables) s refused
      λ now ms later. rw (free) (record {
        frame = refl;
        others = λ id p. (find-append_none id s.tables.cards card h).1 p;
        found = inr (rw h refl, (find-append_none card.post_id s.tables.cards card h).0);
      })
store_card-Holds card (some c) s h =
    elim (Bool-cases (leb card.source_post_version c.source_post_version)) [
      | inl new ↦
          rw new
            (record { frame = refl; others = λ id p. refl; found = inl (c, h, ground arith, refl) })
      | inr old ↦ rw old (
          call-Holds CardError Error.driver _ (λ _ s'. Stored card s.tables s'.tables) s
            (λ now ms later. record {
              frame = refl;
              others = λ id p. (find-replace id s.tables.cards card c).1 p;
              found = inr (rw h old, (find-replace card.post_id s.tables.cards card c).0 h);
            })
            refused)
    ]

-- A publication that was applied: the post and the revision that it was applied from.
pub record Projected (codec : UuidCodec) (p : PostCardPublication) (before after : Tables)
    : Type 0 where
  pub post : PostRow
  pub revision : RevisionRow
  pub held : find_row (post_key (codec.text p.post_id)) before.posts ≡ some post
  pub fits : post_fault codec p post ≡ none
  pub snapshot : find_row (revision_key (codec.text p.revision_id)) before.revisions ≡ some revision
  pub sound : revision_fault (codec.text p.post_id) revision ≡ none
  pub carries : Carries codec p post
  pub covered : Covered (codec.text p.post_id) revision
  pub stored : Stored (showing (codec.text p.post_id) post revision) before after

raise-Holds :
    (R : Error → Type 0) (fault : Option Error) (s : Session Tables)
    → ((e : Error) → fault ≡ some e → R e)
    → Holds (λ _ s'. (fault ≡ none) × (s' ≡ s)) R (raise fault s)
raise-Holds R none s h = (refl, refl)
raise-Holds R (some e) s h = h e refl

post_fault-CardError :
    (codec : UuidCodec) (p : PostCardPublication) (post : PostRow) (e : Error)
    → post_fault codec p post ≡ some e
    → CardError e
post_fault-CardError codec p post e h = first _ _ _ h
  where
    first :
        (foreign gone unpublished : Bool)
        → (if foreign
            then some (explained Sentinel.post_card_source_invalid)
            else if gone
            then some (Error.sentinel Sentinel.post_card_superseded)
            else if unpublished
            then some (explained Sentinel.post_card_source_invalid)
            else none)
          ≡ some e
        → CardError e
    first true gone unpublished h =
        let q : explained Sentinel.post_card_source_invalid ≡ e = cc in rw (← q) invalid
    first false true unpublished h =
        let q : Error.sentinel Sentinel.post_card_superseded ≡ e = cc in rw (← q) superseded
    first false false true h =
        let q : explained Sentinel.post_card_source_invalid ≡ e = cc in rw (← q) invalid
    first false false false h = cc

revision_fault-CardError :
    (post_id : Ident) (revision : RevisionRow) (e : Error)
    → revision_fault post_id revision ≡ some e
    → CardError e
revision_fault-CardError post_id revision e h = first _ h
  where
    first :
        (wrong : Bool)
        → (if wrong then some (explained Sentinel.post_card_source_invalid) else none) ≡ some e
        → CardError e
    first true h = let q : explained Sentinel.post_card_source_invalid ≡ e = cc in rw (← q) invalid
    first false h = cc

write_card-Holds :
    (post_id : Ident) (post : PostRow) (revision : RevisionRow) (s : Session Tables)
    → Holds
        (λ _ s'.
          (revision_fault post_id revision ≡ none)
          × Stored (card_of post_id post revision) s.tables s'.tables)
        CardError
        (write_card post_id post revision s)
unfolding write_card find_card
write_card-Holds post_id post revision s =
    bind-Holds CardError (raise (revision_fault post_id revision))
      (λ _. find_card post_id >>= store_card (card_of post_id post revision))
      (λ _ s'. (revision_fault post_id revision ≡ none) × (s' ≡ s))
      (λ _ s'.
        (revision_fault post_id revision ≡ none)
        × Stored (card_of post_id post revision) s.tables s'.tables)
      s
      (raise-Holds CardError (revision_fault post_id revision) s
        (revision_fault-CardError post_id revision))
      λ _ s' (sound, same). rw same (
        call_then CardError Error.driver _ (store_card (card_of post_id post revision)) _ s refused
          λ now ms later.
            Holds-mono (λ _ s''. Stored (card_of post_id post revision) s.tables s''.tables)
              (λ _ s''.
                (revision_fault post_id revision ≡ none)
                × Stored (card_of post_id post revision) s.tables s''.tables)
              CardError CardError _ (λ _ s'' h. (sound, h)) (λ e h. h)
              (store_card-Holds (card_of post_id post revision) _
                (record s { now = now; script = ms }) refl))

-- A read of a source.
source-Holds :
    {A : Type 0} (rows : Tables → Option A) (s : Session Tables)
    → Holds
        (λ a s'. (rows s.tables ≡ some a) × (s'.tables ≡ s.tables))
        CardError
        (replace_error Sentinel.not_found
          (explained Sentinel.post_card_source_missing)
          (call Error.driver (λ now t. (rows t, t)) >>= (λ found. lift_result (or_not_found found)))
          s)
source-Holds rows s =
    read-Holds CardError (explained Sentinel.post_card_source_missing) rows s refused missing

project-Holds :
    (codec : UuidCodec) (p : PostCardPublication) (post : PostRow) (s : Session Tables)
    → find_row (post_key (codec.text p.post_id)) s.tables.posts ≡ some post
    → Holds (λ _ s'. Projected codec p s.tables s'.tables) CardError (project codec p post s)
unfolding project find_card_snapshot
project-Holds codec p post s held =
    bind-Holds CardError (raise (post_fault codec p post))
      (λ _. read_snapshot (codec.text p.revision_id) >>= write_card (codec.text p.post_id) post)
      (λ _ s'. (post_fault codec p post ≡ none) × (s' ≡ s))
      (λ _ s'. Projected codec p s.tables s'.tables) s
      (raise-Holds CardError (post_fault codec p post) s (post_fault-CardError codec p post))
      λ _ s' (fits, same). rw same (
        bind-Holds CardError (read_snapshot (codec.text p.revision_id))
          (write_card (codec.text p.post_id) post)
          (λ revision s''.
            (find_row (revision_key (codec.text p.revision_id)) s.tables.revisions ≡ some revision)
            × (s''.tables ≡ s.tables))
          (λ _ s''. Projected codec p s.tables s''.tables) s
          (source-Holds (λ t. find_row (revision_key (codec.text p.revision_id)) t.revisions) s)
          λ revision s'' (snapshot, kept).
            Holds-mono
              (λ _ s3.
                (revision_fault (codec.text p.post_id) revision ≡ none)
                × Stored (card_of (codec.text p.post_id) post revision) s''.tables s3.tables)
              (λ _ s3. Projected codec p s.tables s3.tables) CardError CardError
              (write_card (codec.text p.post_id) post revision s'')
              (λ _ s3 (sound, stored). record {
                post = post;
                revision = revision;
                held = held;
                fits = fits;
                snapshot = snapshot;
                sound = sound;
                carries = post_fault-Carries codec p post fits;
                covered = revision_fault-Covered (codec.text p.post_id) revision sound;
                stored = rw kept at stored;
              })
              (λ e h. h) (write_card-Holds (codec.text p.post_id) post revision s''))

pub apply-Holds :
    (codec : UuidCodec) (p : PostCardPublication) (s : Session Tables)
    → Holds (λ _ s'. Projected codec p s.tables s'.tables) CardError (apply_publication codec p s)
unfolding apply_publication find_post
apply-Holds codec p s = elim (Bool-cases (is_blank p)) [
  | inl empty ↦ rw empty blank
  | inr full ↦ rw full (
      bind-Holds CardError (read_post (codec.text p.post_id)) (project codec p)
        (λ post s'.
          (find_row (post_key (codec.text p.post_id)) s.tables.posts ≡ some post)
          × (s'.tables ≡ s.tables))
        (λ _ s'. Projected codec p s.tables s'.tables) s
        (source-Holds (λ t. find_row (post_key (codec.text p.post_id)) t.posts) s)
        λ post s' (held, kept). rw (← kept) (project-Holds codec p post s' (rw kept held)))
]

-- ===== src/Content/Cards/Newer.antt =====
-- A card never goes back to an older version of its post.
use lets_go.Prelude.{ℕ, ◌≤◌, ◌≡◌, ◌∙◌, inl, inr, none, some, ◌==◌, arith, Bool-cases}
use lets_go.Sql.{Session}
use lets_go.Sql.Table.{find_row}
use lets_go.Sql.Outcome.{Holds, Holds-mono}
use lets_go.Content.Tables.{Ident, PostRow, PostCard, Tables}
use lets_go.Content.Ids.{UuidCodec}
use lets_go.Content.Tasks.{TaskContext}
use lets_go.Content.Cards.{PostCardPublication, CardInputs, card_key, post_fault, handle_card}
use lets_go.Content.Cards.Write.{Stored}
use lets_go.Content.Cards.Handle.{HandlerError, Applied, handle_card-Holds}

-- From one state of the cards to another, no card is lost or gets an older version.
abbrev pub NoOlder : Tables → Tables → Type 0
NoOlder before after =
    (id : Ident) (c : PostCard)
    → find_row (card_key id) before.cards ≡ some c
    → (d : PostCard) × (find_row (card_key id) after.cards ≡ some d)
      × (c.source_post_version ≤ d.source_post_version)

-- There is a card of version `version` or newer for a post.
abbrev pub HasCard : Ident → ℕ → Tables → Type 0
HasCard id version t =
    (d : PostCard) × (find_row (card_key id) t.cards ≡ some d) × (version ≤ d.source_post_version)

Stored-NoOlder :
    (card : PostCard) (before after : Tables) → Stored card before after → NoOlder before after
Stored-NoOlder card before after h id c found = elim (Bool-cases (id == card.post_id)) [
  | inl same ↦ let p : id ≡ card.post_id = ground arith in own (rw p at found) p
  | inr other ↦ (c, h.others id (ground arith) ∙ found, omega arith)
]
  where
    own :
        find_row (card_key card.post_id) before.cards ≡ some c
        → id ≡ card.post_id
        → (d : PostCard) × (find_row (card_key id) after.cards ≡ some d)
          × (c.source_post_version ≤ d.source_post_version)
    own held p = elim h.found [
      | inl (d, now, newer, same) ↦ (c, rw (same, p) held, omega arith)
      | inr (old, now) ↦ (card, rw p now, ground (arith, rw held at old))
    ]

Stored-HasCard :
    (card : PostCard) (before after : Tables)
    → Stored card before after
    → HasCard card.post_id card.source_post_version after
Stored-HasCard card before after h = elim h.found [
  | inl (d, held, newer, same) ↦ (d, rw same held, newer)
  | inr (old, now) ↦ (card, now, omega arith)
]

fitting_version :
    (codec : UuidCodec) (p : PostCardPublication) (post : PostRow)
    → post_fault codec p post ≡ none
    → p.post_version ≤ post.post_version
fitting_version codec p post h = ground arith

-- Where the handler of cards returns no error, no card has been lost or has got an older version
-- than before, and the post named in the task has a card of the task's version or newer.
pub handle_card-NoOlder :
    (inputs : CardInputs) (task : TaskContext) (s : Session Tables)
    → Holds
        (λ _ s'.
          NoOlder s.tables s'.tables
          × ((a : Applied inputs task s.tables s'.tables) × HasCard
                (inputs.codec.text a.publication.post_id)
                a.publication.post_version
                s'.tables))
        HandlerError
        (handle_card inputs task s)
handle_card-NoOlder inputs task s =
    Holds-mono (λ _ s'. Applied inputs task s.tables s'.tables) _ HandlerError HandlerError _
      (λ _ s' a.
        let (d, found, newer) = Stored-HasCard _ s.tables s'.tables a.projected.stored in
        let fits = fitting_version inputs.codec a.publication a.projected.post a.projected.fits in
        (
          Stored-NoOlder _ s.tables s'.tables a.projected.stored,
          (a, (d, found, omega (arith, fits, newer))),
        ))
      (λ e h. h) (handle_card-Holds inputs task s)

-- ===== src/Content/Publication/Resolving.antt =====
-- The first loop of `publishRevisionTags` (internal/respository/publication.go): a tag for every
-- name.
use lets_go.Prelude.{
  ℕ, ◌+◌, ◌≡◌, refl, ◌∙◌, ap, inl, inr, not, Option, none, some, List, [], ◌∷◌, ◌++◌, ◌==◌, arith,
  if◌then◌else◌, Bool-cases, Option-cases, All, map-All, append-nil, append_assoc,
}
use lets_go.Strings.{eq_text}
use lets_go.Sql.{Session, ◌>>=◌, pure, fail}
use lets_go.Sql.Table.{find_row, affected}
use lets_go.Sql.Insert.{find-append}
use lets_go.Sql.Outcome.{Holds, bind-Holds, call_then}
use lets_go.Content.Errors.{Text, Sentinel, Error}
use lets_go.Content.Tables.{Ident, Tag, Tables}
use lets_go.Content.Delivery.{lift_result, or_not_found}
use lets_go.Content.Ids.{Uuid}
use lets_go.Content.Tags.{TagName}
use lets_go.Content.Tags.Prepared.{eq_text-eq, eq_text_refl}
use lets_go.Content.Publication.{PublishInputs}
use lets_go.Content.Publication.Tags.{
  put_tags, new_tag, tag_key, same_tag, with_new_tag, read_tag, find_or_create, Resolved,
  find_resolved, resolve_named, resolve_tags,
}

abbrev pub IsResolved : List Tag → Text × Tag → Type 0
IsResolved tags (key, tag) = (find_row (tag_key key) tags ≡ some tag) × (tag.status ≡ 1)

abbrev pub HasTag : Resolved → TagName → Type 0
HasTag resolved name = (c : Tag) × (find_resolved resolved name.normalized ≡ some c)

pub record Resolution (names : List TagName) (before after : Tables) (resolved : Resolved)
    : Type 0 where
  pub new : List Tag
  pub kept : after ≡ put_tags (before.tags ++ new) before
  pub sound : All (IsResolved after.tags) resolved
  pub complete : All (HasTag resolved) names

pub find_resolved-IsResolved :
    (tags : List Tag) (resolved : Resolved) (name : Text) (c : Tag)
    → All (IsResolved tags) resolved
    → find_resolved resolved name ≡ some c
    → IsResolved tags (name, c)
find_resolved-IsResolved tags [] name c h e = cc
find_resolved-IsResolved tags ((key, tag) ∷ more) name c h e =
    elim (Bool-cases (eq_text key name)) [
      | inl hit ↦
          let e' = rw hit at e in
          let same : tag ≡ c = cc in rw (← eq_text-eq key name hit, ← same) h.0
      | inr miss ↦ find_resolved-IsResolved tags more name c h.1 (rw miss at e)
    ]

with_new_tag-append :
    (new : Tag) (rows : List Tag) → (more : List Tag) × (with_new_tag new rows ≡ rows ++ more)
with_new_tag-append new rows = elim (Bool-cases (affected (same_tag new) rows == 0)) [
  | inl free ↦ (new ∷ [], rw free refl)
  | inr clash ↦ ([], rw (clash, append-nil rows) refl)
]

module _ (R : Error → Type 0) (refused : R Error.driver)
    (taken : R (Error.sentinel Sentinel.not_found))
    (unavailable : R (Error.sentinel Sentinel.tag_unavailable)) where
  -- Tags were added, and this is the tag of the name.
  abbrev TagFound : Text → Tables → Tag → Session Tables → Type 0
  TagFound name before tag s' =
      ((new : List Tag) × (s'.tables ≡ put_tags (before.tags ++ new) before))
      × (find_row (tag_key name) s'.tables.tags ≡ some tag)

  find_or_create-Holds :
      (id : Ident) (name : TagName) (author_id : Ident) (s : Session Tables)
      → Holds (TagFound name.normalized s.tables) R (find_or_create id name author_id s)
  unfolding find_or_create
  find_or_create-Holds id name author_id s =
      call_then R Error.driver _ (λ _. read_tag name.normalized) (TagFound name.normalized s.tables)
        s refused
        λ now ms later.
          call_then R Error.driver _ (λ found. lift_result (or_not_found found))
            (TagFound name.normalized s.tables)
            (record {
              tables = put_tags (with_new_tag (new_tag id name author_id) s.tables.tags) s.tables;
              now = now;
              script = ms;
            })
            refused
            λ now' ms' later'.
              let (more, e) = with_new_tag-append (new_tag id name author_id) s.tables.tags in
              elim (Option-cases (
                find_row (tag_key name.normalized)
                  (with_new_tag (new_tag id name author_id) s.tables.tags))) [
                    | inl none_found ↦ rw none_found taken
                    | inr (tag, found) ↦ rw found ((more, rw e refl), found)
                  ]

  resolve_named-Holds :
      (inputs : PublishInputs) (author_id : Ident) (id : Option Uuid) (name : TagName)
      (s : Session Tables)
      → Holds
          (λ tag s'. TagFound name.normalized s.tables tag s' × (tag.status ≡ 1))
          R
          (resolve_named inputs author_id id name s)
  resolve_named-Holds inputs author_id none name s = refused
  resolve_named-Holds inputs author_id (some id) name s =
      bind-Holds R (find_or_create (inputs.codec.text id) name author_id)
        (λ tag.
          if not (tag.status == 1)
          then fail (Error.sentinel Sentinel.tag_unavailable)
          else pure tag)
        (TagFound name.normalized s.tables)
        (λ tag s'. TagFound name.normalized s.tables tag s' × (tag.status ≡ 1)) s
        (find_or_create-Holds (inputs.codec.text id) name author_id s)
        λ tag s' found. elim (Bool-cases (not (tag.status == 1))) [
          | inl bad ↦ rw bad unavailable
          | inr good ↦ rw good (found, ground arith)
        ]

  pub resolve_tags-Holds :
      (inputs : PublishInputs) (author_id : Ident) (i : ℕ) (names : List TagName)
      (s : Session Tables)
      → Holds
          (λ resolved s'. Resolution names s.tables s'.tables resolved)
          R
          (resolve_tags inputs author_id i names s)
  unfolding resolve_tags
  resolve_tags-Holds inputs author_id i [] s = record {
    new = [];
    kept = rw (append-nil s.tables.tags) refl;
    sound = tt;
    complete = tt;
  }
  resolve_tags-Holds inputs author_id i (name ∷ names) s =
      bind-Holds R (resolve_named inputs author_id (inputs.tag_ids i) name)
        (λ tag. resolve_tags inputs author_id (i + 1) names >>= λ more.
          pure ((name.normalized, tag) ∷ more))
        (λ tag s'. TagFound name.normalized s.tables tag s' × (tag.status ≡ 1))
        (λ resolved s'. Resolution (name ∷ names) s.tables s'.tables resolved) s
        (resolve_named-Holds inputs author_id (inputs.tag_ids i) name s)
        λ tag s1 (((new, first), found), active).
          bind-Holds R (resolve_tags inputs author_id (i + 1) names)
            (λ more. pure ((name.normalized, tag) ∷ more))
            (λ resolved s'. Resolution names s1.tables s'.tables resolved)
            (λ resolved s'. Resolution (name ∷ names) s.tables s'.tables resolved) s1
            (resolve_tags-Holds inputs author_id (i + 1) names s1)
            λ more s2 rest.
              combine name names s.tables s1.tables s2.tables tag more new first found active rest
    where
      combine :
          (name : TagName) (names : List TagName) (a b c : Tables) (tag : Tag) (more : Resolved)
          (new : List Tag)
          → b ≡ put_tags (a.tags ++ new) a
          → find_row (tag_key name.normalized) b.tags ≡ some tag
          → tag.status ≡ 1
          → Resolution names b c more
          → Resolution (name ∷ names) a c ((name.normalized, tag) ∷ more)
      combine name names a b c tag more new first found active rest = record {
        new = new ++ rest.new;
        kept =
            rest.kept ∙ rw first (ap (λ tags. put_tags tags a) (append_assoc a.tags new rest.new));
        sound = (
          (rw rest.kept (find-append (tag_key name.normalized) b.tags rest.new tag found), active),
          rest.sound,
        );
        complete = (
          (tag, rw (eq_text_refl name.normalized) refl),
          map-All (HasTag more) (HasTag ((name.normalized, tag) ∷ more)) (λ n h. shadow n h) names
              rest.complete,
        );
      }
        where
          shadow : (n : TagName) → HasTag more n → HasTag ((name.normalized, tag) ∷ more) n
          shadow n (c, h) = elim (Bool-cases (eq_text name.normalized n.normalized)) [
            | inl hit ↦ (tag, rw hit refl)
            | inr miss ↦ (c, rw miss h)
          ]

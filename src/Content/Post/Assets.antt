-- ===== src/Content/Post/Assets.antt =====
-- internal/domain/draft_assets.go: the assets that a draft refers to, each once, and the states
-- that they must be in.
use lets_go.Prelude.{
  ℕ, suc, ◌+◌, ◌≤◌, ◌≡◌, refl, ◌∙◌, ◌≢◌, ◌⊎◌, ◌↔◌, inl, inr, Bool, true, false, not, ◌||◌, Option,
  none, some, List, [], ◌∷◌, ◌++◌, ltb, ◌==◌, arith, Bool-cases, All, length,
}
use lets_go.Sql.Table.{affected}
use lets_go.Content.Ids.{Uuid}
use lets_go.Content.Post.Draft.{
  Cover, DraftAssetRef, PostDraft, DraftMediaAssetState, contains, add, add_refs, cover_ids,
  referenced_asset_ids, without, check_states, validate_asset_states,
}

-- How often an id stands in a list of ids, and in a list of states.
abbrev pub count : Uuid → List Uuid → ℕ
count id = affected (λ x. x == id)

abbrev pub states_of : Uuid → List DraftMediaAssetState → ℕ
states_of id = affected (λ (state : DraftMediaAssetState). state.id == id)

-- Whether the draft shows the asset: as its cover or in a block.
abbrev pub refs_show : Uuid → List DraftAssetRef → Bool
refs_show id [] = false
refs_show id (ref ∷ refs) = ref.asset_id == id || refs_show id refs

abbrev pub cover_shows : Uuid → Option Cover → Bool
cover_shows id none = false
cover_shows id (some cover) = cover.asset_id == id

abbrev pub shows : PostDraft → Uuid → Bool
shows draft id = cover_shows id draft.cover || refs_show id draft.asset_refs

count-contains :
    (id : Uuid) (xs : List Uuid)
    → ((contains id xs ≡ true) × (1 ≤ count id xs)) ⊎ ((contains id xs ≡ false) × (count id xs ≡ 0))
count-contains id [] = inr (refl, refl)
count-contains id (x ∷ xs) = ground (arith, count-contains id xs)

count-append :
    (id : Uuid) (xs : List Uuid) (y : Uuid)
    → count id (xs ++ y ∷ []) ≡ count id xs + count id (y ∷ [])
count-append id [] y = omega arith
count-append id (x ∷ xs) y = ground (arith, count-append id xs y)

contains-append :
    (id : Uuid) (xs : List Uuid) (y : Uuid)
    → contains id (xs ++ y ∷ []) ≡ (contains id xs || y == id)
contains-append id [] y = ground arith
contains-append id (x ∷ xs) y = ground (arith, contains-append id xs y)

count-add :
    (id : Uuid) (xs : List Uuid) (y : Uuid)
    → count id xs ≤ 1
    → (count id (add xs y) ≤ 1) × (contains id (add xs y) ≡ (contains id xs || y == id))
count-add id xs y h = elim (Bool-cases (contains y xs)) [
  | inl seen ↦ rw seen (
    h,
    elim (Bool-cases (y == id)) [
      | inl same ↦ let p : y ≡ id = ground arith in rw (rw p at seen) refl
      | inr other ↦ rw other (ground arith)
    ],
  )
  | inr fresh ↦ rw fresh (elim (Bool-cases (y == id)) [
    | inl same ↦
        let p : y ≡ id = ground arith in
        ground (
          arith,
          count-append id xs y,
          contains-append id xs y,
          rw p at fresh,
          count-contains id xs,
        )
    | inr other ↦ ground (arith, count-append id xs y, contains-append id xs y)
  ])
]

count-add_refs :
    (id : Uuid) (xs : List Uuid) (refs : List DraftAssetRef)
    → count id xs ≤ 1
    → (count id (add_refs xs refs) ≤ 1)
      × (contains id (add_refs xs refs) ≡ (contains id xs || refs_show id refs))
count-add_refs id xs [] h = (h, ground arith)
count-add_refs id xs (ref ∷ refs) h =
    let (once, same) = count-add id xs ref.asset_id h in
    let (rest, all) = count-add_refs id (add xs ref.asset_id) refs once in
    (rest, all ∙ rw same (ground arith))

-- `ReferencedAssetIDs` lists the assets that the draft shows, as its cover or in a block, and no
-- others, each of them once.
pub referenced_asset_ids-shows :
    (draft : PostDraft) (id : Uuid)
    → (count id (referenced_asset_ids draft) ≤ 1)
      × (contains id (referenced_asset_ids draft) ≡ shows draft id)
unfolding referenced_asset_ids
referenced_asset_ids-shows draft id = start draft.cover
  where
    start :
        (cover : Option Cover)
        → (count id (add_refs (cover_ids cover) draft.asset_refs) ≤ 1)
          × (contains id (add_refs (cover_ids cover) draft.asset_refs)
              ≡ (cover_shows id cover || refs_show id draft.asset_refs))
    start none = count-add_refs id [] draft.asset_refs (omega arith)
    start (some cover) =
        let (once, same) =
          count-add_refs id (cover.asset_id ∷ []) draft.asset_refs (ground arith) in
        (once, same ∙ ground arith)

-- A state that an asset of the author's draft may be in.
pub record Usable (author_id : Uuid) (state : DraftMediaAssetState) : Type 0 where
  pub own : state.owner_id ≡ author_id
  pub kept : state.is_deleted ≡ false
  pub status : (1 ≤ state.status) × (state.status ≤ 3)

count-without :
    (id x : Uuid) (xs : List Uuid)
    → ((x ≡ id) × (count id (without x xs) ≡ 0))
      ⊎ ((x ≢ id) × (count id (without x xs) ≡ count id xs))
count-without id x xs = elim (Bool-cases (x == id)) [
  | inl same ↦ let p : x ≡ id = ground arith in inl (p, rw p (none_left id xs))
  | inr other ↦ inr (ground arith, others xs other)
]
  where
    none_left : (id : Uuid) (xs : List Uuid) → count id (without id xs) ≡ 0
    none_left id [] = refl
    none_left id (y ∷ xs) = ground (arith, none_left id xs)

    others : (xs : List Uuid) → (x == id) ≡ false → count id (without x xs) ≡ count id xs
    others [] h = refl
    others (y ∷ xs) h = ground (arith, others xs)

length-without : (x : Uuid) (xs : List Uuid) → length (without x xs) + count x xs ≡ length xs
length-without x [] = refl
length-without x (y ∷ xs) = ground (arith, length-without x xs)

once-without :
    (x : Uuid) (xs : List Uuid)
    → ((id : Uuid) → count id xs ≤ 1)
    → (id : Uuid) → count id (without x xs) ≤ 1
once-without x xs once id = elim (count-without id x xs) [
  | inl (p, gone) ↦ omega (arith, gone)
  | inr (p, same) ↦ omega (arith, same, once id)
]

abbrev Checked : Uuid → List Uuid → List DraftMediaAssetState → Type 0
Checked author_id expected states =
    ((id : Uuid) → states_of id states ≡ count id expected) × All (Usable author_id) states

check_states-Checked :
    (author_id : Uuid) (expected : List Uuid) (states : List DraftMediaAssetState)
    → ((id : Uuid) → count id expected ≤ 1)
    → check_states author_id expected states ≡ none
    → (length states ≡ length expected) × Checked author_id expected states
check_states-Checked author_id [] [] once h = (refl, ((λ id. refl), tt))
check_states-Checked author_id (x ∷ xs) [] once h =
    let some_left : (suc (length xs) == 0) ≡ false = ground arith in
    let h' = rw some_left at h in cc
check_states-Checked author_id expected (state ∷ states) once h =
    elim (Bool-cases (not (contains state.id expected) || not (state.owner_id == author_id))) [
      | inl foreign ↦ let h' = rw foreign at h in cc
      | inr own ↦ elim (Bool-cases (state.is_deleted || ltb state.status 1 || ltb 3 state.status)) [
        | inl unfit ↦ let h' = rw (own, unfit) at h in cc
        | inr fit ↦
            let rest =
              check_states-Checked author_id (without state.id expected) states
                (once-without state.id expected once) (rw (own, fit) at h) in
            let found : count state.id expected ≡ 1 =
              ground (arith, count-contains state.id expected, once state.id) in
            (
              omega (arith, rest.0, length-without state.id expected, found),
              (
                (λ id. counts id rest.1.0 found),
                (
                  record { own = ground arith; kept = ground arith; status = ground arith },
                  rest.1.1,
                ),
              ),
            )
      ]
    ]
  where
    counts :
        (id : Uuid)
        → ((id : Uuid) → states_of id states ≡ count id (without state.id expected))
        → count state.id expected ≡ 1
        → states_of id (state ∷ states) ≡ count id expected
    counts id rest found = elim (count-without id state.id expected) [
      | inl (p, gone) ↦ let one : count id expected ≡ 1 = rw p at found in ground (arith, rest id)
      | inr (p, same) ↦ ground (arith, rest id)
    ]

Checked-check_states :
    (author_id : Uuid) (expected : List Uuid) (states : List DraftMediaAssetState)
    → ((id : Uuid) → count id expected ≤ 1)
    → Checked author_id expected states
    → check_states author_id expected states ≡ none
Checked-check_states author_id [] [] once h = refl
Checked-check_states author_id (x ∷ xs) [] once h = ground (arith, h.0 x)
Checked-check_states author_id expected (state ∷ states) once (counts, (usable, others)) =
    let there : contains state.id expected ≡ true =
      ground (arith, count-contains state.id expected, counts state.id) in
    let own : (state.owner_id == author_id) ≡ true = ground (arith, usable.own) in
    let fit : (state.is_deleted || ltb state.status 1 || ltb 3 state.status) ≡ false =
      ground (arith, usable.kept, usable.status) in
    rw (there, own, fit)
      (Checked-check_states author_id (without state.id expected) states
        (once-without state.id expected once) (left, others))
  where
    left : (id : Uuid) → states_of id states ≡ count id (without state.id expected)
    left id = elim (count-without id state.id expected) [
      | inl (p, gone) ↦ ground (arith, counts id, once id)
      | inr (p, same) ↦ ground (arith, counts id)
    ]

-- `ValidateAssetStates` accepts exactly the states that belong to the assets which the draft
-- refers to, one for each of them and none for any other, all of them the author's, not
-- deleted, and uploading, processing or ready.
pub validate_asset_states-Usable :
    (draft : PostDraft) (author_id : Uuid) (states : List DraftMediaAssetState)
    → (validate_asset_states draft author_id states ≡ none) ↔ (
        ((id : Uuid) → states_of id states ≡ count id (referenced_asset_ids draft))
        × All (Usable author_id) states)
unfolding validate_asset_states
validate_asset_states-Usable draft author_id states = (to, from)
  where
    once : (id : Uuid) → count id (referenced_asset_ids draft) ≤ 1
    once id = (referenced_asset_ids-shows draft id).0

    to :
        validate_asset_states draft author_id states ≡ none
        → Checked author_id (referenced_asset_ids draft) states
    to h = elim (Bool-cases (length states == length (referenced_asset_ids draft))) [
      | inl even ↦
          (check_states-Checked author_id (referenced_asset_ids draft) states once (rw even at h)).1
      | inr uneven ↦ let h' = rw uneven at h in cc
    ]

    from :
        Checked author_id (referenced_asset_ids draft) states
        → validate_asset_states draft author_id states ≡ none
    from h =
        let fine = Checked-check_states author_id (referenced_asset_ids draft) states once h in
        let even =
          (check_states-Checked author_id (referenced_asset_ids draft) states once fine).0 in
        let same : (length states == length (referenced_asset_ids draft)) ≡ true =
          ground (arith, even) in
        rw same fine

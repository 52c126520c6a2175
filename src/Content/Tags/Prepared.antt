-- ===== src/Content/Tags/Prepared.antt =====
-- What `PrepareTagNames` accepts, and the names it makes.
use lets_go.Prelude.{
  ℕ, ◌<◌, ◌≢◌, ◌⊎◌, ◌≤◌, ◌≡◌, refl, inl, inr, true, false, ◌||◌, ◌==◌, leb, List, [], ◌∷◌, ltb,
  arith, Bool-cases, All, map-All, length,
}
use lets_go.Strings.{trim_space, eq_text, contains_text}
use lets_go.Sql.{Result, ok, err}
use lets_go.Content.Errors.{Text, Error}
use lets_go.Content.Tags.{
  TagName, trim_hash, is_control, any, name_invalid, with_tag, display_of, prepare_names,
  prepare_tag_names,
}

pub eq_text_refl : (a : Text) → eq_text a a ≡ true
eq_text_refl [] = refl
eq_text_refl (r ∷ a) = ground (arith, eq_text_refl a)

pub eq_text-eq : (a b : Text) → eq_text a b ≡ true → a ≡ b
eq_text-eq [] [] h = refl
eq_text-eq [] (r ∷ b) h = cc
eq_text-eq (q ∷ a) [] h = cc
eq_text-eq (q ∷ a) (r ∷ b) h = ground (arith, eq_text-eq a b)

abbrev pub normalized_names : List TagName → List Text
normalized_names [] = []
normalized_names (tag ∷ tags) = tag.normalized ∷ normalized_names tags

-- No two equal, and none among those before.
abbrev pub AreNew : List Text → List TagName → Type 0
AreNew seen [] = Unit
AreNew seen (tag ∷ tags) =
    (contains_text tag.normalized seen ≡ false) × AreNew (tag.normalized ∷ seen) tags

-- A rune of a name: no control rune and not `#`.
abbrev pub IsNameRune : ℕ → Type 0
IsNameRune r = (r ≢ 35) × (31 < r) × ((r < 127) ⊎ (159 < r))

-- A name as it is shown, and as it is compared.
pub record IsShown (display normalized : Text) : Type 0 where
  pub some_rune : display ≢ []
  pub short : length display ≤ 64
  pub short_folded : length normalized ≤ 64
  pub runes : All IsNameRune display

any-All :
    (text : Text)
    → any (λ r. r == 35) text ≡ false
    → any is_control text ≡ false
    → All IsNameRune text
any-All [] h k = tt
any-All (r ∷ text) h k = (
  (ground arith, ground arith, named r (ground arith)),
  any-All text (ground arith) (ground arith),
)
  where
    named : (r : ℕ) → is_control r ≡ false → (r < 127) ⊎ (159 < r)
    named r h = elim (Bool-cases (leb 127 r)) [
      | inl high ↦ inr (ground arith)
      | inr low ↦ inl (ground arith)
    ]

All-any :
    (text : Text)
    → All IsNameRune text
    → (any (λ r. r == 35) text ≡ false) × (any is_control text ≡ false)
All-any [] h = (refl, refl)
All-any (r ∷ text) ((other, printed, range), h) =
    let rest = All-any text h in (ground (arith, rest.0), ground (arith, rest.1))

name_invalid-IsShown :
    (display normalized : Text)
    → name_invalid display normalized ≡ false
    → IsShown display normalized
name_invalid-IsShown [] normalized h = cc
name_invalid-IsShown (r ∷ display) normalized h = record {
  some_rune = λ e. cc;
  short = ground arith;
  short_folded = ground arith;
  runes = any-All (r ∷ display) (ground arith) (ground arith);
}

IsShown-name_invalid :
    (display normalized : Text)
    → IsShown display normalized
    → name_invalid display normalized ≡ false
IsShown-name_invalid [] normalized h = let never : ⊥ = h.some_rune refl in elim never [ ]
IsShown-name_invalid (r ∷ display) normalized h =
    let runes = All-any (r ∷ display) h.runes in
    let short = h.short in let folded = h.short_folded in ground (arith, runes.0, runes.1)

module _ (nfkc fold : Text → Text) where
  -- What a tag shows: the name trimmed, without one leading `#`, trimmed again and normalised.
  abbrev pub shown : Text → Text
  shown name = nfkc (trim_space (trim_hash (trim_space name)))

  abbrev pub IsValidName : Text → Type 0
  IsValidName name = IsShown (shown name) (fold (shown name))

  -- A name has a tag, or had one before.
  abbrev pub IsCovered : List Text → List TagName → Text → Type 0
  IsCovered seen tags name =
      (contains_text (fold (shown name)) seen
        || contains_text (fold (shown name)) (normalized_names tags))
      ≡ true

  pub record Prepared (seen names : List Text) (tags : List TagName) : Type 0 where
    pub valid : All IsValidName names
    pub distinct : AreNew seen tags
    pub folded :
        All (λ tag. (tag.normalized ≡ fold tag.display) × IsShown tag.display tag.normalized) tags
    pub covered : All (IsCovered seen tags) names
    pub short : length tags ≤ length names

  with_tag-ok :
      (tag : TagName) (r : Result Error (List TagName)) (tags : List TagName)
      → with_tag tag r ≡ ok tags
      → (rest : List TagName) × (r ≡ ok rest) × (tag ∷ rest ≡ tags)
  with_tag-ok tag (ok rest) tags h = (rest, refl, cc)
  with_tag-ok tag (err e) tags h = cc

  prepare_names-Prepared :
      (seen names : List Text) (tags : List TagName)
      → prepare_names nfkc fold seen names ≡ ok tags
      → Prepared seen names tags
  unfolding prepare_names
  prepare_names-Prepared seen [] tags h =
      let same : [] ≡ tags = cc in
      rw (← same)
        (record { valid = tt; distinct = tt; folded = tt; covered = tt; short = omega arith })
  prepare_names-Prepared seen (name ∷ names) tags h =
      elim (Bool-cases (name_invalid display normalized)) [
        | inl bad ↦ let h' = rw bad at h in cc
        | inr good ↦
            let h' = rw good at h in
            let sound = name_invalid-IsShown display normalized good in
            elim (Bool-cases (contains_text normalized seen)) [
              | inl known ↦
                  let p = prepare_names-Prepared seen names tags (rw known at h') in
                  record {
                    valid = (sound, p.valid);
                    distinct = p.distinct;
                    folded = p.folded;
                    covered = (ground arith, p.covered);
                    short = omega (arith, p.short);
                  }
              | inr fresh ↦
                  let (rest, e, same) = with_tag-ok made _ tags (rw fresh at h') in
                  let p = prepare_names-Prepared (normalized ∷ seen) names rest e in
                  rw (← same) (record {
                    valid = (sound, p.valid);
                    distinct = (fresh, p.distinct);
                    folded = ((refl, sound), p.folded);
                    covered = (
                      ground (arith, eq_text_refl normalized),
                      map-All (IsCovered (normalized ∷ seen) rest) (IsCovered seen (made ∷ rest))
                          (λ n k. shift (fold (display_of nfkc fold n)) rest k) names p.covered,
                    );
                    short = omega (arith, p.short);
                  })
            ]
      ]
    where
      display : Text
      display = display_of nfkc fold name

      normalized : Text
      normalized = fold display

      made : TagName
      made = record { normalized = normalized; display = display }

      shift :
          (n : Text) (rest : List TagName)
          → (contains_text n (normalized ∷ seen) || contains_text n (normalized_names rest)) ≡ true
          → (contains_text n seen || contains_text n (normalized ∷ normalized_names rest)) ≡ true
      shift n rest k = ground arith

  abbrev made_of : Text → TagName
  made_of name = record {
    normalized = fold (display_of nfkc fold name);
    display = display_of nfkc fold name;
  }

  prepare_valid :
      (seen names : List Text)
      → All IsValidName names
      → (tags : List TagName) × (prepare_names nfkc fold seen names ≡ ok tags)
  unfolding prepare_names
  prepare_valid seen [] v = ([], refl)
  prepare_valid seen (name ∷ names) v =
      let sound = IsShown-name_invalid _ _ v.0 in
      elim (Bool-cases (contains_text (fold (display_of nfkc fold name)) seen)) [
        | inl known ↦ let (rest, e) = prepare_valid seen names v.1 in (rest, rw (sound, known) e)
        | inr fresh ↦
            let (rest, e) = prepare_valid (fold (display_of nfkc fold name) ∷ seen) names v.1 in
            (made_of name ∷ rest, rw (sound, fresh, e) refl)
      ]

  -- `PrepareTagNames` accepts exactly lists of at most ten names that are all valid: not empty once
  -- trimmed, of at most 64 runes as shown and as compared, with no control rune and no `#` in what
  -- is shown. The tags it returns are those of the names: every name has one, each is valid and
  -- compared by the folded form of what it shows, and no two compare equal.
  pub prepare_tag_names-Prepared :
      (names : List Text)
      → ((tags : List TagName)
          → prepare_tag_names nfkc fold names ≡ ok tags
          → (length names ≤ 10) × Prepared [] names tags)
        × (length names ≤ 10
            → All IsValidName names
            → (tags : List TagName) × (prepare_tag_names nfkc fold names ≡ ok tags))
  unfolding prepare_tag_names
  prepare_tag_names-Prepared names = elim (Bool-cases (ltb 10 (length names))) [
    | inl long ↦ (
      (λ tags h. let h' = rw long at h in cc),
      (λ few v. let never : ⊥ = ground arith in elim never [ ]),
    )
    | inr few ↦ rw few (
      (λ tags h. (ground arith, prepare_names-Prepared [] names tags h)),
      (λ short v. prepare_valid [] names v),
    )
  ]

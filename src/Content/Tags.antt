-- ===== src/Content/Tags.antt =====
-- internal/domain/tag_name.go: the names of tags as an author writes them, made comparable. Unicode
-- normalisation and case folding are other packages' functions: parameters.
pub mod Prepared
use lets_go.Prelude.{
  ℕ, Bool, true, false, ◌&&◌, ◌||◌, Option, none, some, List, [], ◌∷◌, ltb, leb, ◌==◌,
  if◌then◌else◌, length,
}
use lets_go.Strings.{is_space, eq_text, is_empty, trim_left, trim_right, trim_space, contains_text}
use lets_go.Sql.{Result, ok, err}
use lets_go.Content.Errors.{Text, Sentinel, Error}

-- `TagName`
pub record TagName : Type 0 where
  pub normalized : Text
  pub display : Text

-- `strings.TrimPrefix(text, "#")`
abbrev pub trim_hash : Text → Text
trim_hash [] = []
trim_hash (r ∷ text) = if r == 35 then text else r ∷ text

-- `unicode.IsControl`
abbrev pub is_control : ℕ → Bool
is_control r = leb r 31 || leb 127 r && leb r 159

abbrev pub any : (ℕ → Bool) → Text → Bool
any p [] = false
any p (r ∷ text) = p r || any p text

abbrev pub name_invalid : Text → Text → Bool
name_invalid display normalized =
    is_empty display
    || ltb 64 (length display)
    || ltb 64 (length normalized)
    || any (λ r. r == 35) display
    || any is_control display

abbrev pub with_tag : TagName → Result Error (List TagName) → Result Error (List TagName)
with_tag tag (ok tags) = ok (tag ∷ tags)
with_tag tag (err e) = err e

-- `norm.NFKC.String` and `cases.Fold().String`
module _ (nfkc fold : Text → Text) where
  abbrev pub display_of : Text → Text
  display_of name = nfkc (trim_space (trim_hash (trim_space name)))

  -- The loop, with the normalized names that it has seen.
  pub prepare_names : List Text → List Text → Result Error (List TagName)
  prepare_names seen [] = ok []
  prepare_names seen (name ∷ names) =
      let display = display_of name in
      let normalized = fold display in
      let known = contains_text normalized seen in
      let rest = prepare_names (if known then seen else normalized ∷ seen) names in
      if name_invalid display normalized
      then err (Error.sentinel Sentinel.tag_name_invalid)
      else if known
      then rest
      else with_tag (record { normalized = normalized; display = display }) rest

  -- `PrepareTagNames`
  unfoldable pub prepare_tag_names : List Text → Result Error (List TagName)
  unfolding prepare_names
  prepare_tag_names names =
      if ltb 10 (length names)
      then err (Error.sentinel Sentinel.too_many_tags)
      else prepare_names [] names

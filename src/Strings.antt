-- ===== src/Strings.antt =====
-- What both servers use of Go's packages strings and unicode.
use lets_go.Prelude.{ℕ, Bool, true, false, ◌&&◌, ◌||◌, List, [], ◌∷◌, leb, ◌==◌, if◌then◌else◌}

-- The runes of a Go string, as `[]rune(s)` gives them (a byte that is no UTF-8 is 0xFFFD).
abbrev pub Text : Type 0
Text = List ℕ

-- `unicode.IsSpace`
abbrev pub is_space : ℕ → Bool
is_space r =
    leb 9 r && leb r 13
    || r == 32
    || r == 133
    || r == 160
    || r == 5760
    || leb 8192 r && leb r 8202
    || r == 8232
    || r == 8233
    || r == 8239
    || r == 8287
    || r == 12288

-- `==` of two strings
abbrev pub eq_text : Text → Text → Bool
eq_text [] [] = true
eq_text [] (r ∷ b) = false
eq_text (r ∷ a) [] = false
eq_text (q ∷ a) (r ∷ b) = q == r && eq_text a b

abbrev pub is_empty : Text → Bool
is_empty [] = true
is_empty (r ∷ text) = false

abbrev pub trim_left : Text → Text
trim_left [] = []
trim_left (r ∷ text) = let rest = trim_left text in if is_space r then rest else r ∷ text

abbrev pub trim_right : Text → Text
trim_right [] = []
trim_right (r ∷ text) =
    let rest = trim_right text in if is_space r && is_empty rest then [] else r ∷ rest

-- `strings.TrimSpace`
abbrev pub trim_space : Text → Text
trim_space text = trim_right (trim_left text)

abbrev pub contains_text : Text → List Text → Bool
contains_text a [] = false
contains_text a (b ∷ texts) = eq_text a b || contains_text a texts

-- ===== src/Problem/Kebab.antt =====
-- internal/problems/uploader.go: titleToKebab, with the functions of Go's library that it calls. What
-- the package unicode says of a rune is a parameter.
use byte_battle.Prelude.{
  ℕ, suc, ◌==◌, leb, ltb, if◌then◌else◌, Bool, true, false, ◌&&◌, ◌||◌, Option, some, none, [], ◌∷◌,
  map, take, length,
}
use byte_battle.Problem.{Text}
use byte_battle.Problem.Output.{trim_right}

abbrev pub is_dash : ℕ → Bool
is_dash c = c == 45

-- [a-z0-9]
abbrev pub is_alphanum : ℕ → Bool
is_alphanum c = (leb 97 c && leb c 122) || (leb 48 c && leb c 57)

-- nonAlphanumRE.ReplaceAllString(s, "-"); the flag says that the last character was replaced.
unfoldable pub replace_runs : Bool → Text → Text
replace_runs replaced [] = []
replace_runs replaced (c ∷ s) =
    let kept = replace_runs false s in
    let dashed = replace_runs true s in
    if is_alphanum c then c ∷ kept else if replaced then dashed else 45 ∷ dashed

-- The left half of strings.Trim(s, "-").
unfoldable pub trim_left : (ℕ → Bool) → Text → Text
trim_left cut [] = []
trim_left cut (c ∷ s) = let rest = trim_left cut s in if cut c then rest else c ∷ s

abbrev shifted : Bool → Option ℕ → Option ℕ
shifted here (some i) = some (suc i)
shifted here none = if here then some 0 else none

-- strings.LastIndex of one byte; none for -1.
unfoldable pub last_index : ℕ → Text → Option ℕ
last_index b [] = none
last_index b (c ∷ s) = shifted (c == b) (last_index b s)

abbrev pub cut_at : Text → Option ℕ → Text
cut_at s none = s
cut_at s (some i) = if ltb 0 i then take i s else s

unfoldable pub shorten : Text → Text
shorten cleaned =
    if ltb 40 (length cleaned)
    then (let prefix = take 40 cleaned in cut_at prefix (last_index 45 prefix))
    else cleaned

module _ (is_letter is_digit : ℕ → Bool) (to_lower : ℕ → ℕ) where
  abbrev lower_or_dash : ℕ → ℕ
  lower_or_dash r = if is_letter r || is_digit r then to_lower r else 45

  -- The title is its runes; after ReplaceAllString all of them are ASCII, so bytes are runes.
  unfoldable pub title_to_kebab : Text → Text
  title_to_kebab title =
      let lower = map lower_or_dash title in
      shorten (trim_right is_dash (trim_left is_dash (replace_runs false lower)))

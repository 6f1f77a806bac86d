-- ===== src/Problem/Output.antt =====
-- internal/problems/store.go: NormalizeOutput and Match, with the functions of Go's strings that they
-- call.
use byte_battle.Prelude.{
  ℕ, ◌==◌, if◌then◌else◌, Bool, true, false, ◌&&◌, ◌||◌, List, [], ◌∷◌, ◌++◌, map,
}
use byte_battle.Problem.{Text}

abbrev pub is_nil : Text → Bool
is_nil [] = true
is_nil (_ ∷ _) = false

-- strings.TrimRight, with the cutset as a test.
unfoldable pub trim_right : (ℕ → Bool) → Text → Text
trim_right cut [] = []
trim_right cut (c ∷ s) =
    let rest = trim_right cut s in if is_nil rest && cut c then [] else c ∷ rest

abbrev onto_first : ℕ → List Text → List Text
onto_first c [] = (c ∷ []) ∷ []
onto_first c (l ∷ ls) = (c ∷ l) ∷ ls

-- strings.Split at one byte.
unfoldable pub split : ℕ → Text → List Text
split sep [] = [] ∷ []
split sep (c ∷ s) = let rest = split sep s in if c == sep then [] ∷ rest else onto_first c rest

-- strings.Join with one byte between.
unfoldable pub join : ℕ → List Text → Text
join sep [] = []
join sep (l ∷ []) = l
join sep (l ∷ k ∷ ls) = l ++ (sep ∷ join sep (k ∷ ls))

abbrev pub is_newline : ℕ → Bool
is_newline c = c == 10

-- The cutset " \t\r".
abbrev pub is_blank : ℕ → Bool
is_blank c = c == 32 || (c == 9 || c == 13)

unfoldable pub normalize_output : Text → Text
normalize_output s = trim_right is_newline (join 10 (map (trim_right is_blank) (split 10 s)))

-- == on strings.
abbrev pub same_text : Text → Text → Bool
same_text [] [] = true
same_text (c ∷ s) (d ∷ t) = c == d && same_text s t
same_text [] (_ ∷ _) = false
same_text (_ ∷ _) [] = false

unfoldable pub matches : Text → Text → Bool
matches actual expected = same_text (normalize_output actual) (normalize_output expected)

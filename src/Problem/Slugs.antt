-- ===== src/Problem/Slugs.antt =====
-- The slugs that titleToKebab makes.
use byte_battle.Prelude.{
  ℕ, zero, suc, ◌≤◌, ◌≡◌, ltb, if◌then◌else◌, Bool, true, false, ◌&&◌, Option, some, none, [], ◌∷◌,
  take, length, inl, inr, ◌⊎◌, refl, sym, subst, arith, Bool-cases,
}
use byte_battle.Problem.{Text}
use byte_battle.Problem.Output.{trim_right, is_nil}
use byte_battle.Problem.Kebab.{
  is_dash, is_alphanum, replace_runs, trim_left, last_index, cut_at, shorten, title_to_kebab,
}

-- Letters and digits with single dashes between them; the flag says that a dash may not follow.
abbrev pub Words : Bool → Text → Type 0
Words d [] = d ≡ false
Words d (c ∷ s) = ((is_alphanum c ≡ true) × Words false s) ⊎ ((c ≡ 45) × (d ≡ false) × Words true s)

-- The same, with a dash at the end allowed.
abbrev Loose : Bool → Text → Type 0
Loose d [] = Unit
Loose d (c ∷ s) = ((is_alphanum c ≡ true) × Loose false s) ⊎ ((c ≡ 45) × (d ≡ false) × Loose true s)

replace_runs-Loose : (d : Bool) (s : Text) → Loose d (replace_runs d s)
unfolding replace_runs
replace_runs-Loose d [] = tt
replace_runs-Loose d (c ∷ s) = elim (Bool-cases (is_alphanum c)) [
  | inl word ↦ rw (word) (inl (word, replace_runs-Loose false s))
  | inr other ↦ elim (Bool-cases d) [
    | inl again ↦ rw (other, again) (replace_runs-Loose true s)
    | inr first ↦ rw (other, first) (inr (refl, refl, replace_runs-Loose true s))
  ]
]

not_dash : (c : ℕ) → is_alphanum c ≡ true → is_dash c ≡ false
not_dash c h = ground arith

trim_left-Loose : (d : Bool) (s : Text) → Loose d s → Loose true (trim_left is_dash s)
unfolding trim_left
trim_left-Loose d [] v = tt
trim_left-Loose d (c ∷ s) (inl (word, v)) = rw (not_dash c word) (inl (word, v))
trim_left-Loose d (c ∷ s) (inr (dash, _, v)) = rw (dash) (trim_left-Loose true s v)

Words-full : (t : Text) → Words true t → is_nil t ≡ false
Words-full [] w = cc
Words-full (c ∷ t) w = refl

module _ (d : Bool) (c : ℕ) (t : Text) where
  not_trimmed :
      is_nil t && is_dash c ≡ false
      → Words d (c ∷ t)
      → Words d (if is_nil t && is_dash c then [] else c ∷ t)
  not_trimmed plain w = rw (plain) w

trim_right-Words :
    (d : Bool) (s : Text) → Loose d s → (trim_right is_dash s ≡ []) ⊎ Words d (trim_right is_dash s)
unfolding trim_right
trim_right-Words d [] v = inl refl
trim_right-Words d (c ∷ s) (inl (word, v)) = elim (trim_right-Words false s v) [
  | inl empty ↦ rw (empty, not_dash c word) (inr (inl (word, refl)))
  | inr rest ↦
      let plain : is_dash c ≡ false = not_dash c word in
      inr (not_trimmed d c (trim_right is_dash s) (ground arith) (inl (word, rest)))
]
trim_right-Words d (c ∷ s) (inr (dash, first, v)) = elim (trim_right-Words true s v) [
  | inl empty ↦ rw (empty, dash) (inl refl)
  | inr rest ↦
      let full : is_nil (trim_right is_dash s) ≡ false = Words-full (trim_right is_dash s) rest in
      inr (not_trimmed d c (trim_right is_dash s) (ground arith) (inr (dash, first, rest)))
]

Words-Loose : (d : Bool) (s : Text) → Words d s → Loose d s
Words-Loose d [] w = tt
Words-Loose d (c ∷ s) (inl (word, w)) = inl (word, Words-Loose false s w)
Words-Loose d (c ∷ s) (inr (dash, first, w)) = inr (dash, first, Words-Loose true s w)

take-Loose : (n : ℕ) (d : Bool) (s : Text) → Loose d s → Loose d (take n s)
take-Loose zero d s v = tt
take-Loose (suc n) d [] v = tt
take-Loose (suc n) d (c ∷ s) (inl (word, v)) = inl (word, take-Loose n false s v)
take-Loose (suc n) d (c ∷ s) (inr (dash, first, v)) = inr (dash, first, take-Loose n true s v)

-- Without a dash there are letters and digits only.
no_dash-Words :
    (d : Bool) (s : Text) → Loose d s → last_index 45 s ≡ none → is_nil s ≡ false → Words d s
unfolding last_index
no_dash-Words d [] v h full = cc
no_dash-Words d (c ∷ []) (inl (word, v)) h full = inl (word, refl)
no_dash-Words d (c ∷ x ∷ s) (inl (word, v)) h full =
    inl (word, no_dash-Words false (x ∷ s) v (ground arith) refl)
no_dash-Words d (c ∷ s) (inr (dash, first, v)) h full = absurd (ground arith)

-- No text that starts after a dash starts with one.
first_dash : (s : Text) → Loose true s → last_index 45 s ≡ some 0 → ⊥
unfolding last_index
first_dash [] v h = cc
first_dash (c ∷ s) (inl (word, v)) h =
    let plain : is_dash c ≡ false = not_dash c word in ground arith
first_dash (c ∷ s) (inr (dash, first, v)) h = cc

-- What stands before the last dash.
before_dash-Words :
    (j : ℕ) (d : Bool) (s : Text)
    → Loose d s
    → last_index 45 s ≡ some (suc j)
    → Words d (take (suc j) s)
unfolding last_index
before_dash-Words j d [] v h = cc
before_dash-Words zero d (c ∷ s) (inl (word, v)) h = inl (word, refl)
before_dash-Words (suc j) d (c ∷ s) (inl (word, v)) h =
    inl (word, before_dash-Words j false s v (ground arith))
before_dash-Words zero d (c ∷ s) (inr (dash, first, v)) h = absurd (first_dash s v (ground arith))
before_dash-Words (suc j) d (c ∷ s) (inr (dash, first, v)) h =
    inr (dash, first, before_dash-Words j true s v (ground arith))

length-take : (n : ℕ) (s : Text) → length (take n s) ≤ n
length-take zero s = omega arith
length-take (suc n) [] = omega arith
length-take (suc n) (c ∷ s) = omega (arith, length-take n s)

length-take_of : (n : ℕ) (s : Text) → length (take n s) ≤ length s
length-take_of zero s = omega arith
length-take_of (suc n) [] = omega arith
length-take_of (suc n) (c ∷ s) = omega (arith, length-take_of n s)

-- Empty, or letters and digits with single dashes between them; and at most 40 characters.
abbrev pub IsSlug : Text → Type 0
IsSlug s = ((s ≡ []) ⊎ Words true s) × (length s ≤ 40)

cut_at-IsSlug :
    (s : Text) (o : Option ℕ)
    → last_index 45 s ≡ o
    → Loose true s
    → is_nil s ≡ false
    → length s ≤ 40
    → IsSlug (cut_at s o)
cut_at-IsSlug s none e v full short = (inr (no_dash-Words true s v e full), short)
cut_at-IsSlug s (some zero) e v full short = absurd (first_dash s v e)
cut_at-IsSlug s (some (suc j)) e v full short =
    let bounded : length (take (suc j) s) ≤ 40 = omega (arith, length-take_of (suc j) s, short) in
    subst IsSlug (sym (cut j s)) (inr (before_dash-Words j true s v e), bounded)
  where
    cut : (j : ℕ) (s : Text) → cut_at s (some (suc j)) ≡ take (suc j) s
    cut j s = ground arith

shorten-IsSlug : (s : Text) → (s ≡ []) ⊎ Words true s → IsSlug (shorten s)
unfolding shorten
shorten-IsSlug s v = elim (Bool-cases (ltb 40 (length s))) [
  | inr fits ↦ rw (fits) (v, ground arith)
  | inl long ↦ rw (long) (
      cut_at-IsSlug (take 40 s) (last_index 45 (take 40 s)) refl (take-Loose 40 true s (loose v))
        (nonempty s v long) (length-take 40 s))
]
  where
    loose : (s ≡ []) ⊎ Words true s → Loose true s
    loose (inl empty) = rw (empty) tt
    loose (inr w) = Words-Loose true s w

    nonempty :
        (s : Text) → (s ≡ []) ⊎ Words true s → ltb 40 (length s) ≡ true → is_nil (take 40 s) ≡ false
    nonempty [] v long = ground arith
    nonempty (c ∷ s) v long = refl

-- Whatever the title is and whatever Unicode says of its runes, titleToKebab gives the empty text, or
-- ASCII letters and digits with single dashes between them, of at most 40 characters.
pub title_to_kebab-IsSlug :
    (is_letter is_digit : ℕ → Bool) (to_lower : ℕ → ℕ) (title : Text)
    → IsSlug (title_to_kebab is_letter is_digit to_lower title)
unfolding title_to_kebab
title_to_kebab-IsSlug is_letter is_digit to_lower title =
    shorten-IsSlug _
      (trim_right-Words true _ (trim_left-Loose false _ (replace_runs-Loose false _)))

-- ===== src/Problem/Matching.antt =====
-- What Match compares: texts up to blanks at the end of a line and newlines at the end.
use byte_battle.Prelude.{
  ℕ, ◌≡◌, ◌↔◌, refl, sym, ap, ◌∙◌, subst, inl, inr, ◌==◌, if◌then◌else◌, Bool, true, false, ◌&&◌,
  ◌||◌, List, [], ◌∷◌, map, arith, Bool-cases,
}
use byte_battle.Problem.{Text}
use byte_battle.Problem.Output.{
  is_nil, trim_right, split, join, is_newline, is_blank, normalize_output, same_text, matches,
}

abbrev starts_line : Text → Bool
starts_line [] = false
starts_line (c ∷ s) = is_newline c

-- In one pass from the right: a blank goes if nothing or a newline follows, a newline if nothing does.
abbrev pub clean_char : ℕ → Text → Text
clean_char c r =
    if (is_blank c && (is_nil r || starts_line r)) || (is_newline c && is_nil r) then r else c ∷ r

abbrev pub clean : Text → Text
clean [] = []
clean (c ∷ s) = clean_char c (clean s)

-- The first line, and what follows it.
split-first :
    (s : Text) → (h : Text) × (ls : List Text) × (split 10 s ≡ h ∷ ls) × (starts_line h ≡ false)
unfolding split
split-first [] = ([], [], refl, refl)
split-first (c ∷ s) =
    let (h, ls, e, plain) = split-first s in
    elim (Bool-cases (c == 10)) [
      | inl newline ↦ ([], split 10 s, rw (newline) refl, refl)
      | inr other ↦ (c ∷ h, ls, rw (other, e) refl, other)
    ]

trim-plain : (h : Text) → starts_line h ≡ false → starts_line (trim_right is_blank h) ≡ false
unfolding trim_right
trim-plain [] e = refl
trim-plain (c ∷ h) e = ground arith

-- The rest of the lines joined to a first one.
join-onto : (c : ℕ) (l : Text) (ls : List Text) → join 10 ((c ∷ l) ∷ ls) ≡ c ∷ join 10 (l ∷ ls)
unfolding join
join-onto c l [] = refl
join-onto c l (k ∷ ls) = refl

join-nil : (ls : List Text) → (is_nil (join 10 ([] ∷ ls)) || starts_line (join 10 ([] ∷ ls))) ≡ true
unfolding join
join-nil [] = refl
join-nil (k ∷ ls) = refl

trim-nil :
    (j : Text)
    → (is_nil j || starts_line j) ≡ true
    → (is_nil (trim_right is_newline j) || starts_line (trim_right is_newline j)) ≡ true
unfolding trim_right
trim-nil [] h = refl
trim-nil (c ∷ j) h = ground arith

-- A first line that is not empty is still there after the trimming.
trim-first :
    (l : Text) (ls : List Text)
    → is_nil l ≡ false
    → starts_line l ≡ false
    → (is_nil (trim_right is_newline (join 10 (l ∷ ls)))
        || starts_line (trim_right is_newline (join 10 (l ∷ ls))))
      ≡ false
unfolding trim_right
trim-first [] ls full plain = cc
trim-first (x ∷ l) ls full plain = rw (join-onto x l ls) (ground arith)

-- One more character in front of trimmed lines.
trim-newline :
    (c : ℕ) (l : Text) (ls : List Text)
    → c == 10 ≡ true
    → trim_right is_newline (join 10 ([] ∷ l ∷ ls))
      ≡ clean_char c (trim_right is_newline (join 10 (l ∷ ls)))
unfolding trim_right join
trim-newline c l ls h = ground arith

is_nil-≡ : (s : Text) → is_nil s ≡ true → s ≡ []
is_nil-≡ [] h = refl
is_nil-≡ (c ∷ s) h = cc

trim-char :
    (c : ℕ) (h : Text) (ls : List Text)
    → c == 10 ≡ false
    → starts_line h ≡ false
    → trim_right is_newline (join 10 (trim_right is_blank (c ∷ h) ∷ ls))
      ≡ clean_char c (trim_right is_newline (join 10 (trim_right is_blank h ∷ ls)))
unfolding trim_right
trim-char c h ls other plain = elim (Bool-cases (is_nil (trim_right is_blank h))) [
  | inl empty ↦
      let none_left = is_nil-≡ (trim_right is_blank h) empty in
      let open_end = trim-nil (join 10 ([] ∷ ls)) (join-nil ls) in
      elim (Bool-cases (is_blank c)) [
        | inl blank ↦ rw (none_left, blank) (ground arith)
        | inr solid ↦ rw (none_left, solid, join-onto c [] ls) (ground arith)
      ]
  | inr full ↦
      let kept = trim-first (trim_right is_blank h) ls full (trim-plain h plain) in
      rw (full, join-onto c (trim_right is_blank h) ls) (ground arith)
]

abbrev trimmed : List Text → Text
trimmed ls = trim_right is_newline (join 10 (map (trim_right is_blank) ls))

-- NormalizeOutput is the one pass.
pub normalize_output-clean : (s : Text) → normalize_output s ≡ clean s
unfolding normalize_output split trim_right join
normalize_output-clean [] = refl
normalize_output-clean (c ∷ s) =
    let (h, ls, e, plain) = split-first s in
    let rest : trimmed (h ∷ ls) ≡ clean s = sym (ap trimmed e) ∙ normalize_output-clean s in
    elim (Bool-cases (c == 10)) [
      | inl newline ↦
          let lines : split 10 (c ∷ s) ≡ [] ∷ h ∷ ls = rw (newline, e) refl in
          ap trimmed lines
          ∙ trim-newline c (trim_right is_blank h) (map (trim_right is_blank) ls) newline
          ∙ ap (clean_char c) rest
      | inr other ↦
          let lines : split 10 (c ∷ s) ≡ (c ∷ h) ∷ ls = rw (other, e) refl in
          ap trimmed lines
          ∙ trim-char c h (map (trim_right is_blank) ls) other plain
          ∙ ap (clean_char c) rest
    ]

-- Texts up to blanks at the end of a line or of the text, and newlines at the end of the text.
pub data Same : Text → Text → Type 0 where
  blank_before_newline : (c : ℕ) (s : Text) → is_blank c ≡ true → Same (c ∷ 10 ∷ s) (10 ∷ s)
  blank_at_end : (c : ℕ) → is_blank c ≡ true → Same (c ∷ []) []
  newline_at_end : Same (10 ∷ []) []
  after : (c : ℕ) (s t : Text) → Same s t → Same (c ∷ s) (c ∷ t)
  itself : (s : Text) → Same s s
  turned : (s t : Text) → Same s t → Same t s
  chained : (s t u : Text) → Same s t → Same t u → Same s u

Same-clean : {s t : Text} → Same s t → clean s ≡ clean t
Same-clean (blank_before_newline c s b) = ground arith
Same-clean (blank_at_end c b) = ground arith
Same-clean newline_at_end = refl
Same-clean (after c s t h) = ap (clean_char c) (Same-clean h)
Same-clean (itself s) = refl
Same-clean (turned s t h) = sym (Same-clean h)
Same-clean (chained s t u h k) = Same-clean h ∙ Same-clean k

clean_char-Same : (c : ℕ) (r : Text) → Same (c ∷ r) (clean_char c r)
clean_char-Same c [] = elim (Bool-cases (is_blank c)) [
  | inl blank ↦ rw (blank) (blank_at_end c blank)
  | inr solid ↦ elim (Bool-cases (c == 10)) [
    | inl newline ↦ let e : c ≡ 10 = ground arith in rw (e) newline_at_end
    | inr other ↦ rw (solid, other) (itself (c ∷ []))
  ]
]
clean_char-Same c (d ∷ r) = elim (Bool-cases (is_blank c && is_newline d)) [
  | inl goes ↦
      let blank : is_blank c ≡ true = ground arith in
      let e : d ≡ 10 = ground arith in
      let dropped : clean_char c (d ∷ r) ≡ d ∷ r = ground arith in
      rw (dropped, e) (blank_before_newline c r blank)
  | inr stays ↦
      let kept : clean_char c (d ∷ r) ≡ c ∷ d ∷ r = ground arith in rw (kept) (itself (c ∷ d ∷ r))
]

clean-Same : (s : Text) → Same s (clean s)
clean-Same [] = itself []
clean-Same (c ∷ s) =
    chained (c ∷ s) (c ∷ clean s) (clean_char c (clean s)) (after c s (clean s) (clean-Same s))
      (clean_char-Same c (clean s))

same_text-≡ : (s t : Text) → same_text s t ≡ true → s ≡ t
same_text-≡ [] [] h = refl
same_text-≡ (c ∷ s) (d ∷ t) h =
    let heads : c ≡ d = ground arith in
    let tails : s ≡ t = same_text-≡ s t (ground arith) in rw (heads, tails) refl
same_text-≡ [] (d ∷ t) h = cc
same_text-≡ (c ∷ s) [] h = cc

same_text_refl : (s : Text) → same_text s s ≡ true
same_text_refl [] = refl
same_text_refl (c ∷ s) = ground (arith, same_text_refl s)

-- Match compares texts up to blanks (spaces, tabs, carriage returns) at the end of a line or of the
-- text and newlines at the end of the text, and nothing else.
pub matches-Same : (s t : Text) → (matches s t ≡ true) ↔ Same s t
unfolding matches
matches-Same s t = (
  (λ h.
      let same : clean s ≡ clean t =
        sym (normalize_output-clean s)
        ∙ same_text-≡ (normalize_output s) (normalize_output t) h
        ∙ normalize_output-clean t in
      chained s (clean s) t (clean-Same s)
        (subst (λ x. Same x t) (sym same) (turned t (clean t) (clean-Same t)))),
  (λ h.
      let same : normalize_output s ≡ normalize_output t =
        normalize_output-clean s ∙ Same-clean h ∙ sym (normalize_output-clean t) in
      subst (λ x. same_text (normalize_output s) x ≡ true) same
        (same_text_refl (normalize_output s))),
)

-- NormalizeOutput changes no normalized text.
pub normalize_output-normalize_output :
    (s : Text) → normalize_output (normalize_output s) ≡ normalize_output s
normalize_output-normalize_output s =
    rw (normalize_output-clean s)
      (normalize_output-clean (clean s) ∙ sym (Same-clean (clean-Same s)))

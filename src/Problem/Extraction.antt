-- ===== src/Problem/Extraction.antt =====
-- The bounds of the extraction, and where its files go.
use byte_battle.Prelude.{
  ℕ, ◌+◌, ◌-◌, ◌≤◌, ◌≡◌, inl, inr, ltb, Bool, true, false, ◌||◌, Option, some, none, List, [], ◌∷◌,
  ◌++◌, arith, Bool-cases, Option-cases,
}
use byte_battle.Problem.{Text}
use byte_battle.Problem.Output.{same_text}
use byte_battle.Problem.Archive.{
  EntryKind, directory, regular, symlink, Entry, Extraction, Outcome, refused, unwritten, copied,
  bytes_of, entry_at, before, extract_entry, has_prefix, is_symlink, safe_target, extract_entries,
  extract_tar_gz, extract_zip, extract_archive, max_extracted_bytes,
}

-- The bytes of the files written.
abbrev pub written : List (Text × ℕ) → ℕ
written [] = 0
written ((target, n) ∷ fs) = n + written fs

-- Every file is in the directory, or is it.
abbrev pub AllInside : Text → List (Text × ℕ) → Type 0
AllInside dest [] = Unit
AllInside dest ((target, n) ∷ fs) =
    (has_prefix (dest ++ (47 ∷ [])) target || same_text target dest ≡ true) × AllInside dest fs

module _ (clean : Text → Text) (join_path : Text → Text → Text) (prepare : Entry → Text → Bool)
    (copy : Entry → ℕ → ℕ × Bool) where
  safe_target-inside :
      (dest name target : Text)
      → safe_target clean join_path prepare copy dest name ≡ some target
      → has_prefix (dest ++ (47 ∷ [])) target || same_text target dest ≡ true
  unfolding safe_target
  safe_target-inside dest name target h = ground arith

  abbrev InsideOutcome : Text → Outcome → Type 0
  InsideOutcome dest refused = Unit
  InsideOutcome dest unwritten = Unit
  InsideOutcome dest (copied target n broken) =
      has_prefix (dest ++ (47 ∷ [])) target || same_text target dest ≡ true

  entry_at-inside :
      (dest target : Text) (made : Bool) (r : ℕ × Bool) (k : EntryKind)
      → has_prefix (dest ++ (47 ∷ [])) target || same_text target dest ≡ true
      → InsideOutcome dest (entry_at k made target r)
  entry_at-inside dest target made (n, broken) symlink h = tt
  entry_at-inside dest target true (n, broken) directory h = tt
  entry_at-inside dest target false (n, broken) directory h = tt
  entry_at-inside dest target true (n, broken) regular h = h
  entry_at-inside dest target false (n, broken) regular h = tt

  entry-inside :
      (skips : EntryKind → Bool) (dest : Text) (remaining : ℕ) (e : Entry)
      → InsideOutcome dest (extract_entry clean join_path prepare copy skips dest remaining e)
  unfolding extract_entry
  entry-inside skips dest remaining e = elim (Bool-cases (skips e.kind)) [
    | inl skip ↦ rw (skip) tt
    | inr keep ↦ elim (Option-cases (safe_target clean join_path prepare copy dest e.name)) [
      | inl bad ↦ rw (keep, bad) tt
      | inr (target, safe) ↦
          rw (keep, safe)
            (entry_at-inside dest target (prepare e target) (copy e (remaining + 1)) e.kind
              (safe_target-inside dest e.name target safe))
    ]
  ]

  before-inside :
      (dest : Text) (over : Bool) (o : Outcome) (rest : Extraction)
      → InsideOutcome dest o
      → AllInside dest rest.files
      → AllInside dest (before over o rest).files
  before-inside dest over refused rest i v = tt
  before-inside dest over unwritten rest i v = v
  before-inside dest over (copied target n broken) rest i v = elim (Bool-cases (broken || over)) [
    | inl stop ↦ rw (stop) (i, tt)
    | inr fine ↦ rw (fine) (i, v)
  ]

  pub extract-AllInside :
      (skips : EntryKind → Bool) (dest : Text) (max total : ℕ) (es : List (Option Entry))
      → AllInside dest (extract_entries clean join_path prepare copy skips dest max total es).files
  unfolding extract_entries
  extract-AllInside skips dest max total [] = tt
  extract-AllInside skips dest max total (none ∷ es) = tt
  extract-AllInside skips dest max total (some e ∷ es) =
      let o = extract_entry clean join_path prepare copy skips dest (max - total) e in
      before-inside dest (ltb max (total + bytes_of o)) o _
        (entry-inside skips dest (max - total) e)
        (extract-AllInside skips dest max (total + bytes_of o) es)

  module _ (fits : (e : Entry) (limit : ℕ) → (copy e limit).0 ≤ limit) where
    entry_at-bytes :
        (target : Text) (made : Bool) (r : ℕ × Bool) (k : EntryKind) (limit : ℕ)
        → r.0 ≤ limit
        → bytes_of (entry_at k made target r) ≤ limit
    entry_at-bytes target made (n, broken) symlink limit h = omega arith
    entry_at-bytes target true (n, broken) directory limit h = omega arith
    entry_at-bytes target false (n, broken) directory limit h = omega arith
    entry_at-bytes target true (n, broken) regular limit h = h
    entry_at-bytes target false (n, broken) regular limit h = omega arith

    entry-bytes :
        (skips : EntryKind → Bool) (dest : Text) (remaining : ℕ) (e : Entry)
        → bytes_of (extract_entry clean join_path prepare copy skips dest remaining e)
          ≤ remaining + 1
    unfolding extract_entry
    entry-bytes skips dest remaining e = elim (Bool-cases (skips e.kind)) [
      | inl skip ↦ rw (skip) (omega arith)
      | inr keep ↦ elim (Option-cases (safe_target clean join_path prepare copy dest e.name)) [
        | inl bad ↦ rw (keep, bad) (omega arith)
        | inr (target, safe) ↦
            rw (keep, safe)
              (entry_at-bytes target (prepare e target) (copy e (remaining + 1)) e.kind
                (remaining + 1) (fits e (remaining + 1)))
      ]
    ]

    before-written :
        (max total : ℕ) (o : Outcome) (rest : Extraction)
        → total + bytes_of o ≤ max + 1
        → (total + bytes_of o ≤ max → total + bytes_of o + written rest.files ≤ max + 1)
        → total ≤ max
        → total + written (before (ltb max (total + bytes_of o)) o rest).files ≤ max + 1
    before-written max total refused rest h v low = omega arith
    before-written max total unwritten rest h v low = let w = v (omega arith) in omega arith
    before-written max total (copied target n broken) rest h v low =
        elim (Bool-cases (broken || ltb max (total + n))) [
          | inl stop ↦ rw (stop) (omega arith)
          | inr fine ↦ rw (fine) (let w = v (ground arith) in omega arith)
        ]

    extract-written :
        (skips : EntryKind → Bool) (dest : Text) (max total : ℕ) (es : List (Option Entry))
        → total ≤ max
        → total
            + written (extract_entries clean join_path prepare copy skips dest max total es).files
          ≤ max + 1
    unfolding extract_entries
    extract-written skips dest max total [] low = omega arith
    extract-written skips dest max total (none ∷ es) low = omega arith
    extract-written skips dest max total (some e ∷ es) low =
        let o = extract_entry clean join_path prepare copy skips dest (max - total) e in
        let few = entry-bytes skips dest (max - total) e in
        before-written max total o _ (omega arith)
          (λ fine. extract-written skips dest max (total + bytes_of o) es fine) low

    extract-bounds :
        (skips : EntryKind → Bool) (dest : Text) (max : ℕ) (es : List (Option Entry))
        → let r = extract_entries clean join_path prepare copy skips dest max 0 es in
          AllInside dest r.files × (written r.files ≤ max + 1)
    extract-bounds skips dest max es =
        let low : 0 ≤ max = omega arith in
        let few = extract-written skips dest max 0 es low in
        (extract-AllInside skips dest max 0 es, omega arith)

    -- If a copy never copies more than its limit, then whatever an archive contains, whatever the
    -- readers make of it and wherever it ends, every file that the extraction writes is in the
    -- directory (its path is the directory, or begins with it and a slash), and all of them have
    -- together at most one byte more than the limit of 200 MB.
    pub extract_archive-bounds :
        (read_tar_gz read_zip : Text → Option (List (Option Entry))) (archive dest : Text)
        → let r = extract_archive clean join_path prepare copy read_tar_gz read_zip archive dest in
          AllInside dest r.files × (written r.files ≤ max_extracted_bytes + 1)
    unfolding extract_archive extract_tar_gz extract_zip
    extract_archive-bounds read_tar_gz read_zip archive dest =
        elim (Bool-cases (has_prefix (31 ∷ 139 ∷ []) archive)) [
          | inl gzip ↦ elim (Option-cases (read_tar_gz archive)) [
            | inl bad ↦ rw (gzip, bad) (tt, omega arith)
            | inr (es, e) ↦ rw (gzip, e) (extract-bounds (λ k. false) dest max_extracted_bytes es)
          ]
          | inr other ↦ elim (Bool-cases (has_prefix (80 ∷ 75 ∷ []) archive)) [
            | inl pk ↦ elim (Option-cases (read_zip archive)) [
              | inl bad ↦ rw (other, pk, bad) (tt, omega arith)
              | inr (es, e) ↦
                  rw (other, pk, e) (extract-bounds is_symlink dest max_extracted_bytes es)
            ]
            | inr neither ↦ rw (other, neither) (tt, omega arith)
          ]
        ]

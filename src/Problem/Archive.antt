-- ===== src/Problem/Archive.antt =====
-- internal/problems/validator.go: the extraction of an uploaded archive. The packages archive/tar,
-- archive/zip, compress/gzip and path/filepath and the disk are parameters.
use byte_battle.Prelude.{
  ℕ, ◌+◌, ◌-◌, ◌==◌, ltb, if◌then◌else◌, Bool, true, false, ◌&&◌, ◌||◌, Option, some, none, List,
  [], ◌∷◌, ◌++◌,
}
use byte_battle.Problem.{Text}
use byte_battle.Problem.Output.{same_text}

-- `symlink` is, in a tar archive, any type but a directory and a regular file.
pub data EntryKind : Type 0 where
  directory regular symlink : EntryKind

pub record Entry : Type 0 where
  pub name : Text
  pub kind : EntryKind
  pub size : ℕ

abbrev pub is_symlink : EntryKind → Bool
is_symlink symlink = true
is_symlink _ = false

-- The files that have been written, with their bytes, and whether the extraction has failed.
pub record Extraction : Type 0 where
  pub files : List (Text × ℕ)
  pub failed : Bool

abbrev pub failure : Extraction
failure = record { files = []; failed = true }

-- What became of an entry: an error, no file, or a file with so many bytes and perhaps an error.
pub data Outcome : Type 0 where
  refused unwritten : Outcome
  copied : Text → ℕ → Bool → Outcome

abbrev pub bytes_of : Outcome → ℕ
bytes_of refused = 0
bytes_of unwritten = 0
bytes_of (copied target n broken) = n

-- The switch on the type; the flag says that the directories and the file could be made.
abbrev pub entry_at : EntryKind → Bool → Text → ℕ × Bool → Outcome
entry_at symlink made target (n, broken) = unwritten
entry_at directory made target (n, broken) = if made then unwritten else refused
entry_at regular made target (n, broken) = if made then copied target n broken else refused

-- An entry before the rest of the loop; the flag says that the limit is exceeded.
abbrev pub before : Bool → Outcome → Extraction → Extraction
before over refused rest = failure
before over unwritten rest = rest
before over (copied target n broken) rest =
    let r = if broken || over then failure else rest in
    record { files = (target, n) ∷ r.files; failed = r.failed }

-- strings.HasPrefix, the prefix first.
abbrev pub has_prefix : Text → Text → Bool
has_prefix [] s = true
has_prefix (c ∷ p) [] = false
has_prefix (c ∷ p) (d ∷ s) = c == d && has_prefix p s

abbrev pub max_extracted_bytes : ℕ
max_extracted_bytes = 209715200

-- filepath.Clean, filepath.Join, whether os.MkdirAll and the opening of an entry and of its file
-- succeed, and io.Copy of an entry through a LimitReader: the bytes copied, and whether there was an
-- error.
module _ (clean : Text → Text) (join_path : Text → Text → Text) (prepare : Entry → Text → Bool)
    (copy : Entry → ℕ → ℕ × Bool) where
  -- none for an attempt at path traversal.
  unfoldable pub safe_target : Text → Text → Option Text
  safe_target dest_dir name =
      let clean_name = clean name in
      let target = join_path dest_dir clean_name in
      if has_prefix (46 ∷ 46 ∷ []) clean_name
      then none
      else if has_prefix (dest_dir ++ (47 ∷ [])) target || same_text target dest_dir
      then some target
      else none

  -- extractEntry and extractZipEntry, with the test for symbolic links of extractZip before them:
  -- which kinds are passed over, and the bytes that remain.
  unfoldable pub extract_entry : (EntryKind → Bool) → Text → ℕ → Entry → Outcome
  extract_entry skips dest_dir remaining e =
      if skips e.kind then unwritten else elim (safe_target dest_dir e.name) [
        | none ↦ refused
        | some target ↦ entry_at e.kind (prepare e target) target (copy e (remaining + 1))
      ]

  -- The loops of extractTarGz and extractZip, from a number of bytes on; none is an entry that cannot
  -- be read.
  unfoldable pub extract_entries :
      (EntryKind → Bool) → Text → ℕ → ℕ → List (Option Entry) → Extraction
  extract_entries skips dest_dir max_bytes total [] = record { files = []; failed = false }
  extract_entries skips dest_dir max_bytes total (none ∷ es) = failure
  extract_entries skips dest_dir max_bytes total (some e ∷ es) =
      let outcome = extract_entry skips dest_dir (max_bytes - total) e in
      let rest = extract_entries skips dest_dir max_bytes (total + bytes_of outcome) es in
      before (ltb max_bytes (total + bytes_of outcome)) outcome rest

  unfoldable pub extract_tar_gz : Text → ℕ → List (Option Entry) → Extraction
  extract_tar_gz dest_dir max_bytes entries =
      extract_entries (λ k. false) dest_dir max_bytes 0 entries

  unfoldable pub extract_zip : Text → ℕ → List (Option Entry) → Extraction
  extract_zip dest_dir max_bytes entries = extract_entries is_symlink dest_dir max_bytes 0 entries

  -- `extractArchive`, given what the two formats' readers make of the bytes: none if they refuse.
  unfoldable pub extract_archive :
      (Text → Option (List (Option Entry)))
      → (Text → Option (List (Option Entry)))
      → Text
      → Text
      → Extraction
  extract_archive read_tar_gz read_zip archive dest_dir =
      if has_prefix (31 ∷ 139 ∷ []) archive
      then elim (read_tar_gz archive) [
        | none ↦ failure
        | some es ↦ extract_tar_gz dest_dir max_extracted_bytes es
      ]
      else if has_prefix (80 ∷ 75 ∷ []) archive
      then elim (read_zip archive) [
        | none ↦ failure
        | some es ↦ extract_zip dest_dir max_extracted_bytes es
      ]
      else failure

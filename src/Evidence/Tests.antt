-- ===== src/Evidence/Tests.antt =====
-- Runs of a rotation.
use carlo_one_core.Prelude.{
  ℕ, false, not, ◌&&◌, ◌≡◌, refl, List, [], ◌∷◌, if◌then◌else◌, codes, Text, bytes_eq,
}
use carlo_one_core.Evidence.{
  FileKind, jsonl, deleting, other_deleting, something, FileEntry, default_config, Answer, deletes,
  unlink_fails, find, rotate, rotate_file, rotate_files, list_expired, scan, sort, insert,
  is_expired, info_of, is_file, removed, retyped, renamed, counted, erred,
  cleanup_orphaned_deleting,
}
use carlo_one_core.Evidence.Rotated.{expires}
use carlo_one_core.Evidence.Outcome.{expected, rotate_lem}

abbrev now : ℕ
now = 2_000_000_000

abbrev old_file : Text → FileKind → FileEntry
old_file name kind = record { name = name; kind = kind; size_bytes = 10; modified = 5 }

abbrev test_files : List FileEntry
test_files =
    old_file (codes "a") jsonl
    ∷ old_file (codes "b") jsonl
    ∷ old_file (codes "c") something
    ∷ record { name = codes "d"; kind = jsonl; size_bytes = 4; modified = 1_999_999_999 }
    ∷ []

abbrev answers : Text → Answer
answers name = if bytes_eq name (codes "b") then unlink_fails else deletes

rotate_run :
    (rotate default_config now answers test_files).files
    ≡ old_file (codes "b") deleting
      ∷ old_file (codes "c") something
      ∷ record { name = codes "d"; kind = jsonl; size_bytes = 4; modified = 1_999_999_999 }
      ∷ []
unfolding rotate rotate_files rotate_file list_expired scan sort insert is_expired info_of is_file
    removed retyped renamed counted erred default_config bytes_eq
rotate_run = refl

-- What is left of b is removed later, and so is another file with that extension.
cleanup_run :
    cleanup_orphaned_deleting
      (λ e. false)
      (old_file (codes "notes") other_deleting
        ∷ (rotate default_config now answers test_files).files)
    ≡ (
      old_file (codes "c") something
          ∷ record { name = codes "d"; kind = jsonl; size_bytes = 4; modified = 1_999_999_999 }
          ∷ [],
      2,
    )
unfolding cleanup_orphaned_deleting rotate rotate_files rotate_file list_expired scan sort insert
    is_expired info_of is_file removed retyped renamed counted erred default_config bytes_eq
cleanup_run = refl

rotate_lem_example :
    find (codes "b") deleting (rotate default_config now answers test_files).files
    ≡ expected deleting
        (not default_config.dry_run
          && expires default_config now (find (codes "b") jsonl test_files))
        (answers (codes "b"))
        (find (codes "b") jsonl test_files)
        (find (codes "b") deleting test_files)
        (find (codes "b") deleting test_files)
unfolding find is_file bytes_eq
rotate_lem_example =
    rotate_lem default_config now answers test_files (codes "b") deleting
      (refl, (refl, (refl, (refl, tt))))

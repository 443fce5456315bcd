-- ===== src/Evidence/Outcome.antt =====
-- triAI-Engine/src/evidence/rotation.rs: what a rotation leaves of every file.
use carlo_one_core.Prelude.{
  ℕ, Bool, true, false, not, ◌&&◌, ◌≡◌, refl, ap, ◌∙◌, Option, none, List, [], ◌∷◌, if◌then◌else◌,
  Text, arith,
}
use carlo_one_core.Evidence.{
  FileKind, jsonl, deleting, other_deleting, something, FileEntry, FileInfo, RotationConfig,
  Rotation, Answer, deletes, rename_fails, unlink_fails, scan, sort, list_expired, same_kind,
  is_file, find, removed, retyped, renamed, rotate_file, rotate_files, rotate,
}
use carlo_one_core.Evidence.Leftovers.{
  left_over, IsDistinct, sort-IsDistinct, scan-IsDistinct, find_deleting-rotate_files,
}
use carlo_one_core.Evidence.Rotated.{
  fails_rename, has_path, IsUnique, expires, dry_files, expires-list_expired, find-rotate,
}

-- Files of the other kinds.
abbrev pub is_other : FileKind → Bool
is_other jsonl = false
is_other deleting = false
is_other _ = true

is_other-apart :
    (k l : FileKind)
    → is_other k ≡ true
    → same_kind l k ≡ true
    → (same_kind l jsonl ≡ false) × (same_kind l deleting ≡ false) × (same_kind deleting k ≡ false)
is_other-apart jsonl l other same = cc
is_other-apart deleting l other same = cc
is_other-apart other_deleting jsonl other same = cc
is_other-apart other_deleting deleting other same = cc
is_other-apart other_deleting other_deleting other same = (refl, refl, refl)
is_other-apart other_deleting something other same = cc
is_other-apart something jsonl other same = cc
is_other-apart something deleting other same = cc
is_other-apart something other_deleting other same = cc
is_other-apart something something other same = (refl, refl, refl)

find_other-removed :
    (name other : Text) (k : FileKind) (d : List FileEntry)
    → is_other k ≡ true
    → find name k (removed other deleting d) ≡ find name k d
unfolding find removed is_file
find_other-removed name other k [] o = refl
find_other-removed name other k (e ∷ d) o =
    ground (arith, find_other-removed name other k d o, is_other-apart k e.kind o)

find_other-retyped :
    (name other : Text) (k : FileKind) (d : List FileEntry)
    → is_other k ≡ true
    → find name k (retyped other d) ≡ find name k d
unfolding find retyped is_file
find_other-retyped name other k [] o = refl
find_other-retyped name other k (e ∷ d) o = ground (
  arith,
  find_other-retyped name other k d o,
  is_other-apart k e.kind o,
  is_other-apart k deleting o,
)

find_other-rotate_file :
    (name : Text) (k : FileKind) (a : Answer) (f : FileInfo) (r : Rotation)
    → is_other k ≡ true
    → find name k (rotate_file a f r).files ≡ find name k r.files
unfolding rotate_file renamed
find_other-rotate_file name k deletes f r o =
    find_other-removed name f.path k (retyped f.path (removed f.path deleting r.files)) o
    ∙ find_other-retyped name f.path k (removed f.path deleting r.files) o
    ∙ find_other-removed name f.path k r.files o
find_other-rotate_file name k rename_fails f r o = refl
find_other-rotate_file name k unlink_fails f r o =
    find_other-retyped name f.path k (removed f.path deleting r.files) o
    ∙ find_other-removed name f.path k r.files o

find_other-rotate_files :
    (name : Text) (k : FileKind) (answers : Text → Answer) (fs : List FileInfo) (r : Rotation)
    → is_other k ≡ true
    → find name k (rotate_files false answers fs r).files ≡ find name k r.files
unfolding rotate_files
find_other-rotate_files name k answers [] r o = refl
find_other-rotate_files name k answers (f ∷ fs) r o =
    find_other-rotate_files name k answers fs (rotate_file (answers f.path) f r) o
    ∙ find_other-rotate_file name k (answers f.path) f r o

-- The file of that name and kind after the rotation of a directory that had the files `file` and
-- `old` under the name, as evidence and with `.deleting`, and `same` as that kind; `goes` tells
-- whether the evidence is to go.
abbrev pub expected :
    FileKind
    → Bool
    → Answer
    → Option FileEntry
    → Option FileEntry
    → Option FileEntry
    → Option FileEntry
expected jsonl goes answer file old same = if goes && not (fails_rename answer) then none else file
expected deleting goes answer file old same = if goes then left_over answer file old else old
expected _ goes answer file old same = same

rotate_deleting :
    (dry : Bool) (name : Text) (answers : Text → Answer) (fs : List FileInfo) (r : Rotation)
    → IsDistinct fs
    → find name deleting (rotate_files dry answers fs r).files ≡ (
        if not dry && has_path name fs
        then left_over (answers name) (find name jsonl r.files) (find name deleting r.files)
        else find name deleting r.files)
rotate_deleting true name answers fs r distinct = ap (find name deleting) (dry_files answers fs r)
rotate_deleting false name answers fs r distinct =
    find_deleting-rotate_files name answers fs r distinct

rotate_other :
    (dry : Bool) (name : Text) (k : FileKind) (answers : Text → Answer) (fs : List FileInfo)
    (r : Rotation)
    → is_other k ≡ true
    → find name k (rotate_files dry answers fs r).files ≡ find name k r.files
rotate_other true name k answers fs r o = ap (find name k) (dry_files answers fs r)
rotate_other false name k answers fs r o = find_other-rotate_files name k answers fs r o

-- In a directory where each name stands for one file, whatever the system answers for each file: a
-- rotation that is no dry run treats the evidence file of a name, if it is older than the retention,
-- by the answer for it. If all goes well, it is found neither as it was nor under its name with
-- `.deleting`; if the rename is refused, it and what stood under that name are as they were; if
-- only the unlink is refused, it stands under that name, in place of what stood there. Every other
-- file of any kind, and in a dry run every file, is found as it was.
pub rotate_lem :
    (config : RotationConfig) (now : ℕ) (answers : Text → Answer) (d : List FileEntry) (name : Text)
    (k : FileKind)
    → IsUnique d
    → find name k (rotate config now answers d).files
      ≡ expected k
          (not config.dry_run && expires config now (find name jsonl d))
          (answers name)
          (find name jsonl d)
          (find name deleting d)
          (find name k d)
unfolding rotate list_expired
rotate_lem config now answers d name jsonl u =
    find-rotate config now answers d name u ∙ ground arith
rotate_lem config now answers d name deleting u =
    rotate_deleting config.dry_run name answers (sort (scan config now d)) _
      (sort-IsDistinct (scan config now d) (scan-IsDistinct config now d u))
    ∙ ap
        (λ b.
          if not config.dry_run && b
          then left_over (answers name) (find name jsonl d) (find name deleting d)
          else find name deleting d)
        (expires-list_expired config now name d u)
rotate_lem config now answers d name other_deleting u =
    rotate_other config.dry_run name other_deleting answers (sort (scan config now d)) _ refl
rotate_lem config now answers d name something u =
    rotate_other config.dry_run name something answers (sort (scan config now d)) _ refl

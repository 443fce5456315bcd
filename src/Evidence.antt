-- ===== src/Evidence.antt =====
-- triAI-Engine/src/evidence/rotation.rs: the rotation of evidence files. The directory is the list
-- of its files; what the system answers to the two calls for a file is told by its name. Times are
-- milliseconds.
pub mod Rotated
pub mod Leftovers
pub mod Outcome
mod Tests
use carlo_one_core.Prelude.{
  ℕ, ◌+◌, ◌*◌, ◌-◌, ◌/◌, Bool, true, false, not, ◌&&◌, ◌||◌, Option, none, some, List, [], ◌∷◌,
  ◌++◌, leb, ltb, ◌==◌, if◌then◌else◌, Text, bytes_eq, wrap32, wrap64, length,
}

-- A file is `name.jsonl`, `name.jsonl.deleting`, another file with the extension `deleting`, or
-- something else.
pub data FileKind : Type 0 where
  jsonl deleting other_deleting something : FileKind

pub record FileEntry : Type 0 where
  pub name : Text
  pub kind : FileKind
  pub size_bytes : ℕ
  pub modified : ℕ

pub record RotationConfig : Type 0 where
  pub retention_days : ℕ
  pub dry_run : Bool

pub default_config : RotationConfig
default_config = record { retention_days = 14; dry_run = false }

pub record FileInfo : Type 0 where
  pub path : Text
  pub size_bytes : ℕ
  pub modified : ℕ
  pub age_days : ℕ

pub record RotationReport : Type 0 where
  pub timestamp : ℕ
  pub files_scanned : ℕ
  pub files_deleted : ℕ
  pub bytes_freed : ℕ
  pub errors : List Text
  pub dry_run : Bool

abbrev pub day : ℕ
day = 86_400_000

-- A file that is older than the retention.
pub is_expired : RotationConfig → ℕ → FileEntry → Bool
is_expired config now e = ltb (e.modified + config.retention_days * day) now

abbrev pub is_jsonl : FileKind → Bool
is_jsonl jsonl = true
is_jsonl _ = false

pub info_of : ℕ → FileEntry → FileInfo
info_of now e = record {
  path = e.name;
  size_bytes = e.size_bytes;
  modified = e.modified;
  age_days = wrap32 ((now - e.modified) / day);
}

pub scan : RotationConfig → ℕ → List FileEntry → List FileInfo
scan config now [] = []
scan config now (e ∷ d) =
    let rest = scan config now d in
    if is_jsonl e.kind && is_expired config now e then info_of now e ∷ rest else rest

pub insert : FileInfo → List FileInfo → List FileInfo
insert f [] = f ∷ []
insert f (g ∷ fs) = if leb f.modified g.modified then f ∷ g ∷ fs else g ∷ insert f fs

-- The oldest first.
pub sort : List FileInfo → List FileInfo
sort [] = []
sort (f ∷ fs) = insert f (sort fs)

pub list_expired : RotationConfig → ℕ → List FileEntry → List FileInfo
list_expired config now d = sort (scan config now d)

abbrev pub same_kind : FileKind → FileKind → Bool
same_kind jsonl jsonl = true
same_kind deleting deleting = true
same_kind other_deleting other_deleting = true
same_kind something something = true
same_kind _ _ = false

pub is_file : Text → FileKind → FileEntry → Bool
is_file name kind e = bytes_eq e.name name && same_kind e.kind kind

pub find : Text → FileKind → List FileEntry → Option FileEntry
find name kind [] = none
find name kind (e ∷ d) = if is_file name kind e then some e else find name kind d

pub removed : Text → FileKind → List FileEntry → List FileEntry
removed name kind [] = []
removed name kind (e ∷ d) =
    let rest = removed name kind d in if is_file name kind e then rest else e ∷ rest

-- Each file of this name and kind gets another kind.
pub retyped : Text → List FileEntry → List FileEntry
retyped name [] = []
retyped name (e ∷ d) =
    let rest = retyped name d in
    if is_file name jsonl e then record e { kind = deleting } ∷ rest else e ∷ rest

-- A rename replaces what has the new name.
pub renamed : Text → List FileEntry → List FileEntry
renamed name d = retyped name (removed name deleting d)

pub data Answer : Type 0 where
  deletes rename_fails unlink_fails : Answer

pub record Rotation : Type 0 where
  pub files : List FileEntry
  pub report : RotationReport

pub counted : FileInfo → RotationReport → RotationReport
counted f r = record r {
  files_deleted = wrap32 (r.files_deleted + 1);
  bytes_freed = wrap64 (r.bytes_freed + f.size_bytes);
}

-- The message of an error is the name of its file.
pub erred : FileInfo → RotationReport → RotationReport
erred f r = record r { errors = r.errors ++ f.path ∷ [] }

pub rotate_file : Answer → FileInfo → Rotation → Rotation
rotate_file deletes f r = record {
  files = removed f.path deleting (renamed f.path r.files);
  report = counted f r.report;
}
rotate_file rename_fails f r = record r { report = erred f r.report }
rotate_file unlink_fails f r = record { files = renamed f.path r.files; report = erred f r.report }

pub rotate_files : Bool → (Text → Answer) → List FileInfo → Rotation → Rotation
rotate_files dry_run answers [] r = r
rotate_files dry_run answers (f ∷ fs) r =
    rotate_files dry_run answers fs (
      if dry_run
      then record r { report = counted f r.report }
      else rotate_file (answers f.path) f r)

pub rotate : RotationConfig → ℕ → (Text → Answer) → List FileEntry → Rotation
rotate config now answers d =
    let expired = list_expired config now d in
    rotate_files config.dry_run answers expired (record {
      files = d;
      report = record {
        timestamp = now;
        files_scanned = wrap32 (length expired);
        files_deleted = 0;
        bytes_freed = 0;
        errors = [];
        dry_run = config.dry_run;
      };
    })

abbrev pub has_extension_deleting : FileKind → Bool
has_extension_deleting deleting = true
has_extension_deleting other_deleting = true
has_extension_deleting _ = false

-- What an interrupted rotation has left is removed, where that works, and with it every other file
-- of that extension.
pub cleanup_orphaned_deleting : (FileEntry → Bool) → List FileEntry → List FileEntry × ℕ
cleanup_orphaned_deleting fails [] = ([], 0)
cleanup_orphaned_deleting fails (e ∷ d) =
    let rest = cleanup_orphaned_deleting fails d in
    if has_extension_deleting e.kind && not (fails e)
    then (rest.0, wrap32 (rest.1 + 1))
    else (e ∷ rest.0, rest.1)

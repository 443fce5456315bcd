-- ===== src/Staging.antt =====
-- triAI-Engine/src/staging.rs: blocks of bytes that are staged, committed and restored. The store
-- is its directory; SHA-256, which the code asks `sha256sum` for, is the parameter `sha`. A call is
-- told where it stops: a step of I/O that fails leaves the same files as a crash there, since the
-- code cleans nothing up then. The events for the log are left out.
pub mod Files
pub mod Blocks
pub mod Calls
pub mod Commits
pub mod Committed
pub mod Durable
pub mod Found
pub mod Kept
pub mod Lines
pub mod Lost
pub mod Untouched
pub mod Parts
pub mod Record
pub mod Recovery
pub mod Restage
pub mod Stages
pub mod Sorted
mod Tests
use mathlib.Core.Option
use carlo_one_core.Prelude.{
  ℕ, zero, suc, ◌+◌, Bool, true, false, not, ◌&&◌, ◌||◌, Option, none, some, List, [], ◌∷◌, ◌++◌,
  leb, ltb, ◌==◌, if◌then◌else◌, length, take, Text, bytes_eq, contains, is_utf8,
  to_ascii_lowercase, codes,
}
use carlo_one_core.Staging.Files.{FileName, Extension, part, bin, commit, Dir, get, put, remove}
use carlo_one_core.Staging.Lines.{lines}
use carlo_one_core.Staging.Record.{CommitRecord, commit_text, record_of}

abbrev pub part_path : Text → ℕ → FileName
part_path id generation = record { block_id = id; generation = generation; extension = part }

abbrev pub bin_path : Text → ℕ → FileName
bin_path id generation = record { block_id = id; generation = generation; extension = bin }

abbrev pub commit_path : Text → ℕ → FileName
commit_path id generation = record { block_id = id; generation = generation; extension = commit }

unfoldable pub is_valid_id : Text → Bool
is_valid_id id = not (
    bytes_eq id []
    || (bytes_eq id (codes ".")
        || (bytes_eq id (codes "..")
            || (contains id (codes "/")
                || (contains id (codes "\\") || contains id (codes ".."))))))

-- Where a call stops, with the bytes that a write has written by then.
pub data Stop : Type 0 where
  runs_through at_open at_sync at_digest at_rename at_commit_create at_commit_sync at_dir_sync :
      Stop
  at_write at_commit_write : ℕ → Stop

abbrev pub is_at_rename : Stop → Bool
is_at_rename at_rename = true
is_at_rename _ = false

abbrev pub is_at_digest : Stop → Bool
is_at_digest at_digest = true
is_at_digest _ = false

-- Before the part is on the disk.
abbrev pub is_before_sync : Stop → Bool
is_before_sync at_open = true
is_before_sync at_sync = true
is_before_sync _ = false

pub data StageError : Type 0 where
  invalid_id already_exists not_found io_failed sha_mismatch : StageError

pub data StageResult : Type 0 where
  done : CommitRecord → StageResult
  failed : StageError → StageResult

-- The commit marker, once the bytes have their name.
pub marked : Stop → CommitRecord → Dir → Dir × StageResult
marked at_commit_create r d = (d, failed io_failed)
marked (at_commit_write n) r d =
    (put (commit_path r.block_id r.generation) (take n (commit_text r)) d, failed io_failed)
marked at_commit_sync r d =
    (put (commit_path r.block_id r.generation) (commit_text r) d, failed io_failed)
marked at_dir_sync r d =
    (put (commit_path r.block_id r.generation) (commit_text r) d, failed io_failed)
marked _ r d = (put (commit_path r.block_id r.generation) (commit_text r) d, done r)

pub renamed : Stop → CommitRecord → List ℕ → Dir → Dir × StageResult
renamed stop r content d =
    if is_at_rename stop
    then (d, failed io_failed)
    else marked stop r (
        put (bin_path r.block_id r.generation) content
          (remove (part_path r.block_id r.generation) d))

-- eq_ignore_ascii_case
abbrev pub refuses : Option Text → Text → Bool
refuses none digest = false
refuses (some expected) digest =
    not (bytes_eq (to_ascii_lowercase digest) (to_ascii_lowercase expected))

abbrev pub is_there : Option (List ℕ) → Bool
is_there none = false
is_there (some content) = true

module _ (sha : List ℕ → Text) where
  abbrev pub record_for : Text → ℕ → List ℕ → CommitRecord
  record_for id generation content = record {
    block_id = id;
    generation = generation;
    bytes = length content;
    sha256 = sha content;
  }

  pub digested : Stop → Text → ℕ → Option Text → Dir → Option (List ℕ) → Dir × StageResult
  digested stop id generation expected d none = (d, failed not_found)
  digested stop id generation expected d (some content) =
      if is_at_digest stop
      then (d, failed io_failed)
      else if refuses expected (sha content)
      then (remove (part_path id generation) d, failed sha_mismatch)
      else renamed stop (record_for id generation content) content d

  pub commit_part : Stop → Text → ℕ → Option Text → Dir → Dir × StageResult
  commit_part stop id generation expected d =
      digested stop id generation expected d (get (part_path id generation) d)

  -- `create_new` refuses a part that is there.
  pub written : Stop → Text → ℕ → List ℕ → Dir → Dir × StageResult
  written at_open id generation content d = (d, failed io_failed)
  written (at_write n) id generation content d =
      (put (part_path id generation) (take n content) d, failed io_failed)
  written at_sync id generation content d =
      (put (part_path id generation) content d, failed io_failed)
  written stop id generation content d =
      commit_part stop id generation none (put (part_path id generation) content d)

  pub stage_bytes : Stop → Text → ℕ → List ℕ → Dir → Dir × StageResult
  stage_bytes stop id generation content d =
      if not (is_valid_id id)
      then (d, failed invalid_id)
      else if is_there (get (part_path id generation) d)
      then (d, failed already_exists)
      else written stop id generation content d

  -- The part must be there to be opened and synced; `commit_part` finds that it is not.
  pub finalize_part : Stop → Text → ℕ → Option Text → Dir → Dir × StageResult
  finalize_part stop id generation expected d =
      if not (is_valid_id id)
      then (d, failed invalid_id)
      else if is_before_sync stop
      then (d, failed io_failed)
      else commit_part stop id generation expected d

pub discard_part : Text → ℕ → Dir → Dir
discard_part id generation d = if is_valid_id id then remove (part_path id generation) d else d

abbrev pub or_empty : Option (List ℕ) → List ℕ
or_empty none = []
or_empty (some content) = content

-- The part is created if it is not there; the bytes that are there are counted.
pub open_part_for_resume : Text → ℕ → Dir → Option (Dir × ℕ)
open_part_for_resume id generation d =
    let old = or_empty (get (part_path id generation) d) in
    if is_valid_id id then some (put (part_path id generation) old d, length old) else none

-- `write_all` on the file that was opened to append.
pub append : Text → ℕ → List ℕ → Dir → Dir
append id generation bytes d =
    put (part_path id generation) (or_empty (get (part_path id generation) d) ++ bytes) d

abbrev pub is_part : Extension → Bool
is_part part = true
is_part _ = false

pub cleanup_incomplete : Dir → Dir × ℕ
cleanup_incomplete [] = ([], 0)
cleanup_incomplete ((n, content) ∷ d) =
    let rest = cleanup_incomplete d in
    if is_part n.extension then (rest.0, rest.1 + 1) else ((n, content) ∷ rest.0, rest.1)

abbrev pub is_done : StageResult → Bool
is_done (done r) = true
is_done (failed e) = false

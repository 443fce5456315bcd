-- ===== src/Staging/Recovery.antt =====
-- triAI-Engine/src/staging.rs: what `recover` finds and `restore_active` gives back.
use mathlib.Core.Option
use carlo_one_core.Prelude.{
  ℕ, Bool, true, false, ◌&&◌, ◌||◌, Option, none, some, List, [], ◌∷◌, leb, ltb, ◌==◌,
  if◌then◌else◌, length, Text, bytes_eq, is_utf8,
}
use carlo_one_core.Staging.Files.{Extension, commit, Dir, get}
use carlo_one_core.Staging.Lines.{lines}
use carlo_one_core.Staging.Record.{CommitRecord, record_of}
use carlo_one_core.Staging.{bin_path, is_valid_id}

abbrev pub is_commit : Extension → Bool
is_commit commit = true
is_commit _ = false

abbrev pub pushed : Option CommitRecord → Option (List CommitRecord) → Option (List CommitRecord)
pushed none rest = rest
pushed (some r) none = none
pushed (some r) (some rs) = some (r ∷ rs)

module _ (sha : List ℕ → Text) where
  -- A record stands for a block if the bytes under its name have its size and digest.
  unfoldable pub blob_matches : CommitRecord → Option (List ℕ) → Bool
  blob_matches r none = false
  blob_matches r (some content) = length content == r.bytes && bytes_eq (sha content) r.sha256

  unfoldable pub verified : Dir → Option CommitRecord → Option CommitRecord
  verified d none = none
  verified d (some r) =
      if blob_matches r (get (bin_path r.block_id r.generation) d) then some r else none

  -- The loop over the directory `d`; a commit file that is no text ends it with an error.
  unfoldable pub recover_from : Dir → Dir → Option (List CommitRecord)
  recover_from d [] = some []
  recover_from d ((n, content) ∷ es) =
      let rest = recover_from d es in
      if is_commit n.extension
      then if is_utf8 content then pushed (verified d (record_of (lines content))) rest else none
      else rest

-- The order of texts, byte by byte.
unfoldable pub text_leb : Text → Text → Bool
text_leb [] ys = true
text_leb (x ∷ xs) [] = false
text_leb (x ∷ xs) (y ∷ ys) = ltb x y || (x == y && text_leb xs ys)

unfoldable pub record_leb : CommitRecord → CommitRecord → Bool
record_leb a b =
    if bytes_eq a.block_id b.block_id
    then leb a.generation b.generation
    else text_leb a.block_id b.block_id

-- `sort_by` is stable.
unfoldable pub insert : CommitRecord → List CommitRecord → List CommitRecord
insert r [] = r ∷ []
insert r (s ∷ rs) = if record_leb r s then r ∷ s ∷ rs else s ∷ insert r rs

unfoldable pub sort : List CommitRecord → List CommitRecord
sort [] = []
sort (r ∷ rs) = insert r (sort rs)

unfoldable pub recover : (List ℕ → Text) → Dir → Option (List CommitRecord)
recover sha d = Option.map sort (recover_from sha d d)

unfoldable pub is_of : Text → ℕ → CommitRecord → Bool
is_of id generation r = bytes_eq r.block_id id && r.generation == generation

unfoldable pub find_record : Text → ℕ → List CommitRecord → Option CommitRecord
find_record id generation [] = none
find_record id generation (r ∷ rs) =
    if is_of id generation r then some r else find_record id generation rs

pub data RestoreStop : Type 0 where
  restores at_copy at_tmp_sync at_target_rename at_target_sync : RestoreStop

-- The file that is copied to the target, if there is a record for it.
unfoldable pub blob_of : Dir → Option CommitRecord → Option (List ℕ)
blob_of d none = none
blob_of d (some r) = get (bin_path r.block_id r.generation) d

unfoldable pub found_in : Text → ℕ → Option (List CommitRecord) → Option CommitRecord
found_in id generation none = none
found_in id generation (some rs) = find_record id generation rs

unfoldable pub restored : (List ℕ → Text) → Text → ℕ → Dir → Option (List ℕ)
restored sha id generation d = blob_of d (found_in id generation (recover sha d))

-- The copy goes to a file beside the target, which is renamed.
unfoldable pub replaced : RestoreStop → Option (List ℕ) → Option (List ℕ) → Option (List ℕ) × Bool
replaced stop target none = (target, false)
replaced restores target (some content) = (some content, true)
replaced at_target_sync target (some content) = (some content, false)
replaced _ target (some content) = (target, false)

-- The target and whether the call succeeded.
unfoldable pub restore_active :
    (List ℕ → Text) → RestoreStop → Text → ℕ → Dir → Option (List ℕ) → Option (List ℕ) × Bool
restore_active sha stop id generation d target =
    if is_valid_id id then replaced stop target (restored sha id generation d) else (target, false)

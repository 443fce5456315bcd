-- ===== src/Evidence/Rotated.antt =====
-- triAI-Engine/src/evidence/rotation.rs: which files a rotation removes.
use carlo_one_core.Prelude.{
  ℕ, Bool, true, false, not, ◌&&◌, ◌||◌, ◌≡◌, refl, sym, ap, ap₂, ◌∙◌, inl, inr, Option, none, some,
  List, [], ◌∷◌, if◌then◌else◌, Text, bytes_eq, bytes_eq_iff, arith, Bool-cases,
}
use carlo_one_core.Evidence.{
  FileKind, jsonl, deleting, other_deleting, something, FileEntry, FileInfo, RotationConfig,
  Rotation, Answer, deletes, rename_fails, unlink_fails, is_expired, is_jsonl, info_of, scan,
  insert, sort, list_expired, same_kind, is_file, find, removed, retyped, renamed, rotate_file,
  rotate_files, rotate,
}

kind_apart : (k : FileKind) → same_kind k deleting ≡ true → same_kind k jsonl ≡ false
kind_apart jsonl h = cc
kind_apart deleting h = refl
kind_apart other_deleting h = cc
kind_apart something h = cc

pub find-removed :
    (name other : Text) (d : List FileEntry)
    → find name jsonl (removed other deleting d) ≡ find name jsonl d
unfolding find removed is_file
find-removed name other [] = refl
find-removed name other (e ∷ d) = ground (arith, find-removed name other d, kind_apart e.kind)

pub find-retyped :
    (name other : Text) (d : List FileEntry)
    → find name jsonl (retyped other d) ≡ (if bytes_eq other name then none else find name jsonl d)
unfolding find retyped is_file
find-retyped name other [] = ground arith
find-retyped name other (e ∷ d) = ground (
  arith,
  find-retyped name other d,
  bytes_eq_iff e.name other,
  bytes_eq_iff e.name name,
  bytes_eq_iff other name,
)

abbrev pub fails_rename : Answer → Bool
fails_rename rename_fails = true
fails_rename _ = false

-- One file of the loop.
pub find-rotate_file :
    (name : Text) (a : Answer) (f : FileInfo) (r : Rotation)
    → find name jsonl (rotate_file a f r).files
      ≡ (if bytes_eq f.path name && not (fails_rename a) then none else find name jsonl r.files)
unfolding rotate_file renamed
find-rotate_file name deletes f r =
    find-removed name f.path (retyped f.path (removed f.path deleting r.files))
    ∙ find-retyped name f.path (removed f.path deleting r.files)
    ∙ ground (arith, find-removed name f.path r.files)
find-rotate_file name rename_fails f r = ground arith
find-rotate_file name unlink_fails f r =
    find-retyped name f.path (removed f.path deleting r.files)
    ∙ ground (arith, find-removed name f.path r.files)

unfoldable pub has_path : Text → List FileInfo → Bool
has_path name [] = false
has_path name (f ∷ fs) = bytes_eq f.path name || has_path name fs

find-rotate_files :
    (name : Text) (answers : Text → Answer) (fs : List FileInfo) (r : Rotation)
    → find name jsonl (rotate_files false answers fs r).files ≡ (
        if has_path name fs && not (fails_rename (answers name))
        then none
        else find name jsonl r.files)
unfolding rotate_files has_path
find-rotate_files name answers [] r = refl
find-rotate_files name answers (f ∷ fs) r =
    find-rotate_files name answers fs (rotate_file (answers f.path) f r)
    ∙ elim (Bool-cases (bytes_eq f.path name)) [
      | inl same ↦
          let e = (bytes_eq_iff f.path name).0 same in
          ground (
            arith,
            find-rotate_file name (answers f.path) f r,
            ap (λ n. fails_rename (answers n)) e,
          )
      | inr other ↦ ground (arith, find-rotate_file name (answers f.path) f r)
    ]

pub has_path-insert :
    (name : Text) (f : FileInfo) (fs : List FileInfo)
    → has_path name (insert f fs) ≡ (bytes_eq f.path name || has_path name fs)
unfolding has_path insert
has_path-insert name f [] = refl
has_path-insert name f (g ∷ fs) = ground (arith, has_path-insert name f fs)

pub has_path-sort : (name : Text) (fs : List FileInfo) → has_path name (sort fs) ≡ has_path name fs
unfolding has_path sort
has_path-sort name [] = refl
has_path-sort name (f ∷ fs) =
    ground (arith, has_path-insert name f (sort fs), has_path-sort name fs)

-- Each name stands for one file.
abbrev pub IsUnique : List FileEntry → Type 0
IsUnique [] = Unit
IsUnique (e ∷ d) = (find e.name e.kind d ≡ none) × IsUnique d

abbrev pub expires : RotationConfig → ℕ → Option FileEntry → Bool
expires config now none = false
expires config now (some e) = is_expired config now e

pub same_kind_eq : (k l : FileKind) → same_kind k l ≡ true → k ≡ l
same_kind_eq jsonl jsonl h = refl
same_kind_eq jsonl deleting h = cc
same_kind_eq jsonl other_deleting h = cc
same_kind_eq jsonl something h = cc
same_kind_eq deleting jsonl h = cc
same_kind_eq deleting deleting h = refl
same_kind_eq deleting other_deleting h = cc
same_kind_eq deleting something h = cc
same_kind_eq other_deleting jsonl h = cc
same_kind_eq other_deleting deleting h = cc
same_kind_eq other_deleting other_deleting h = refl
same_kind_eq other_deleting something h = cc
same_kind_eq something jsonl h = cc
same_kind_eq something deleting h = cc
same_kind_eq something other_deleting h = cc
same_kind_eq something something h = refl

pub is_jsonl-same_kind : (k : FileKind) → is_jsonl k ≡ same_kind k jsonl
is_jsonl-same_kind jsonl = refl
is_jsonl-same_kind deleting = refl
is_jsonl-same_kind other_deleting = refl
is_jsonl-same_kind something = refl

pub has_path-scan :
    (config : RotationConfig) (now : ℕ) (name : Text) (d : List FileEntry)
    → IsUnique d
    → has_path name (scan config now d) ≡ expires config now (find name jsonl d)
unfolding has_path scan info_of find is_file
has_path-scan config now name [] u = refl
has_path-scan config now name (e ∷ d) u =
    let ih = has_path-scan config now name d u.1 in
    let kind = is_jsonl-same_kind e.kind in
    elim (Bool-cases (bytes_eq e.name name && same_kind e.kind jsonl)) [
      | inl same ↦
          let n : e.name ≡ name = (bytes_eq_iff e.name name).0 (ground arith) in
          let k : e.kind ≡ jsonl = same_kind_eq e.kind jsonl (ground arith) in
          let gone : find name jsonl d ≡ none = sym (ap₂ (λ m l. find m l d) n k) ∙ u.0 in
          let rest : has_path name (scan config now d) ≡ false =
            ih ∙ ap (expires config now) gone in
          rw same (ground (arith, rest, kind))
      | inr other ↦ rw other (ground (arith, ih, kind))
    ]

pub dry_files :
    (answers : Text → Answer) (fs : List FileInfo) (r : Rotation)
    → (rotate_files true answers fs r).files ≡ r.files
unfolding rotate_files
dry_files answers [] r = refl
dry_files answers (f ∷ fs) r = dry_files answers fs _

rotate_files_lem :
    (dry : Bool) (name : Text) (answers : Text → Answer) (fs : List FileInfo) (r : Rotation)
    → find name jsonl (rotate_files dry answers fs r).files ≡ (
        if not dry && (has_path name fs && not (fails_rename (answers name)))
        then none
        else find name jsonl r.files)
rotate_files_lem true name answers fs r = ap (find name jsonl) (dry_files answers fs r)
rotate_files_lem false name answers fs r = find-rotate_files name answers fs r

pub expires-list_expired :
    (config : RotationConfig) (now : ℕ) (name : Text) (d : List FileEntry)
    → IsUnique d
    → has_path name (sort (scan config now d)) ≡ expires config now (find name jsonl d)
expires-list_expired config now name d u =
    has_path-sort name (scan config now d) ∙ has_path-scan config now name d u

-- The evidence file of a name after a rotation.
pub find-rotate :
    (config : RotationConfig) (now : ℕ) (answers : Text → Answer) (d : List FileEntry) (name : Text)
    → IsUnique d
    → find name jsonl (rotate config now answers d).files ≡ (
        if not config.dry_run
          && (expires config now (find name jsonl d) && not (fails_rename (answers name)))
        then none
        else find name jsonl d)
unfolding rotate list_expired
find-rotate config now answers d name u =
    let old = expires-list_expired config now name d u in
    rotate_files_lem config.dry_run name answers (sort (scan config now d)) _
    ∙ ap
        (λ b.
          if not config.dry_run && (b && not (fails_rename (answers name)))
          then none
          else find name jsonl d)
        old

-- ===== src/Evidence/Leftovers.antt =====
-- triAI-Engine/src/evidence/rotation.rs: what a rotation leaves under the names with `.deleting`.
use carlo_one_core.Prelude.{
  ℕ, true, false, ◌&&◌, ◌≡◌, refl, sym, ap, ◌∙◌, inl, inr, Option, none, some, List, [], ◌∷◌,
  if◌then◌else◌, Text, bytes_eq, bytes_eq_iff, leb, arith, Bool-cases,
}
use carlo_one_core.Evidence.{
  FileKind, jsonl, deleting, other_deleting, something, FileEntry, FileInfo, RotationConfig,
  Rotation, Answer, deletes, rename_fails, unlink_fails, is_expired, is_jsonl, info_of, scan,
  insert, sort, same_kind, is_file, find, removed, retyped, renamed, rotate_file, rotate_files,
}
use carlo_one_core.Evidence.Rotated.{
  same_kind_eq, is_jsonl-same_kind, find-removed, find-rotate_file, has_path, has_path-insert,
  has_path-sort, has_path-scan, IsUnique, expires,
}

-- Under the name with `.deleting`, for a file whose rotation the system answers in this way.
abbrev pub left_over : Answer → Option FileEntry → Option FileEntry → Option FileEntry
left_over deletes file old = none
left_over rename_fails file old = old
left_over unlink_fails none old = none
left_over unlink_fails (some e) old = some (record e { kind = deleting })

left_over-unlink_fails :
    (file old : Option FileEntry)
    → left_over unlink_fails file none ≡ left_over unlink_fails file old
left_over-unlink_fails none old = refl
left_over-unlink_fails (some e) old = refl

find_deleting-removed :
    (name other : Text) (d : List FileEntry)
    → find name deleting (removed other deleting d)
      ≡ (if bytes_eq other name then none else find name deleting d)
unfolding find removed is_file
find_deleting-removed name other [] = ground arith
find_deleting-removed name other (e ∷ d) = ground (
  arith,
  find_deleting-removed name other d,
  bytes_eq_iff e.name other,
  bytes_eq_iff e.name name,
  bytes_eq_iff other name,
)

kinds_apart : (k : FileKind) → same_kind k jsonl ≡ true → same_kind k deleting ≡ false
kinds_apart jsonl h = refl
kinds_apart deleting h = cc
kinds_apart other_deleting h = cc
kinds_apart something h = cc

retyped_other :
    (name other : Text) (d : List FileEntry)
    → bytes_eq other name ≡ false
    → find name deleting (retyped other d) ≡ find name deleting d
unfolding find retyped is_file
retyped_other name other [] apart = refl
retyped_other name other (e ∷ d) apart =
    ground (arith, retyped_other name other d apart, bytes_eq_iff e.name other, kinds_apart e.kind)

retyped_same :
    (name : Text) (d : List FileEntry)
    → find name deleting d ≡ none
    → find name deleting (retyped name d) ≡ left_over unlink_fails (find name jsonl d) none
unfolding find retyped is_file
retyped_same name [] gone = refl
retyped_same name (e ∷ d) gone =
    elim (Bool-cases (bytes_eq e.name name && same_kind e.kind jsonl)) [
      | inl same ↦ let here : bytes_eq e.name name ≡ true = ground arith in rw (same, here) refl
      | inr other ↦ elim (Bool-cases (bytes_eq e.name name && same_kind e.kind deleting)) [
        | inl there ↦ let found : some e ≡ none = rw there at gone in cc
        | inr apart ↦ rw (other, apart) (retyped_same name d (rw apart at gone))
      ]
    ]

find_deleting-renamed :
    (name other : Text) (d : List FileEntry)
    → find name deleting (renamed other d) ≡ (
        if bytes_eq other name
        then left_over unlink_fails (find name jsonl d) none
        else find name deleting d)
unfolding renamed
find_deleting-renamed name other d = elim (Bool-cases (bytes_eq other name)) [
  | inl same ↦
      let e : other ≡ name = (bytes_eq_iff other name).0 same in
      let refl_name : bytes_eq name name ≡ true = (bytes_eq_iff name name).1 refl in
      let gone : find name deleting (removed name deleting d) ≡ none =
        find_deleting-removed name name d ∙ rw refl_name refl in
      rw (e, refl_name)
        (retyped_same name (removed name deleting d) gone
          ∙ ap (λ f. left_over unlink_fails f none) (find-removed name name d))
  | inr apart ↦ rw apart (
      retyped_other name other (removed other deleting d) apart
      ∙ find_deleting-removed name other d
      ∙ rw apart refl)
]

-- One file of the loop.
find_deleting-rotate_file :
    (name : Text) (a : Answer) (f : FileInfo) (r : Rotation)
    → find name deleting (rotate_file a f r).files ≡ (
        if bytes_eq f.path name
        then left_over a (find name jsonl r.files) (find name deleting r.files)
        else find name deleting r.files)
unfolding rotate_file
find_deleting-rotate_file name deletes f r =
    find_deleting-removed name f.path (renamed f.path r.files)
    ∙ ground (arith, find_deleting-renamed name f.path r.files)
find_deleting-rotate_file name rename_fails f r = ground arith
find_deleting-rotate_file name unlink_fails f r =
    find_deleting-renamed name f.path r.files
    ∙ ap (λ o. if bytes_eq f.path name then o else find name deleting r.files)
        (left_over-unlink_fails (find name jsonl r.files) (find name deleting r.files))

-- Each path stands once.
abbrev pub IsDistinct : List FileInfo → Type 0
IsDistinct [] = Unit
IsDistinct (f ∷ fs) = (has_path f.path fs ≡ false) × IsDistinct fs

insert-IsDistinct :
    (f : FileInfo) (fs : List FileInfo)
    → has_path f.path fs ≡ false
    → IsDistinct fs
    → IsDistinct (insert f fs)
unfolding insert has_path
insert-IsDistinct f [] new distinct = (refl, tt)
insert-IsDistinct f (g ∷ fs) new distinct = elim (Bool-cases (leb f.modified g.modified)) [
  | inl older ↦ rw older (new, distinct)
  | inr newer ↦
      let apart : bytes_eq f.path g.path ≡ false =
        ground (arith, bytes_eq_iff f.path g.path, bytes_eq_iff g.path f.path) in
      rw newer (
        has_path-insert g.path f fs ∙ rw (apart, distinct.0) refl,
        insert-IsDistinct f fs (ground arith) distinct.1,
      )
]

pub sort-IsDistinct : (fs : List FileInfo) → IsDistinct fs → IsDistinct (sort fs)
unfolding sort
sort-IsDistinct [] distinct = tt
sort-IsDistinct (f ∷ fs) distinct =
    insert-IsDistinct f (sort fs) (has_path-sort f.path fs ∙ distinct.0)
      (sort-IsDistinct fs distinct.1)

pub scan-IsDistinct :
    (config : RotationConfig) (now : ℕ) (d : List FileEntry)
    → IsUnique d
    → IsDistinct (scan config now d)
unfolding scan info_of
scan-IsDistinct config now [] u = tt
scan-IsDistinct config now (e ∷ d) u =
    let rest = scan-IsDistinct config now d u.1 in
    elim (Bool-cases (is_jsonl e.kind && is_expired config now e)) [
      | inl old ↦
          let kind : e.kind ≡ jsonl =
            same_kind_eq e.kind jsonl (sym (is_jsonl-same_kind e.kind) ∙ ground arith) in
          let gone : find e.name jsonl d ≡ none = ap (λ k. find e.name k d) (sym kind) ∙ u.0 in
          rw old (has_path-scan config now e.name d u.1 ∙ ap (expires config now) gone, rest)
      | inr young ↦ rw young rest
    ]

pub find_deleting-rotate_files :
    (name : Text) (answers : Text → Answer) (fs : List FileInfo) (r : Rotation)
    → IsDistinct fs
    → find name deleting (rotate_files false answers fs r).files ≡ (
        if has_path name fs
        then left_over (answers name) (find name jsonl r.files) (find name deleting r.files)
        else find name deleting r.files)
unfolding rotate_files has_path
find_deleting-rotate_files name answers [] r distinct = refl
find_deleting-rotate_files name answers (f ∷ fs) r (new, distinct) =
    find_deleting-rotate_files name answers fs (rotate_file (answers f.path) f r) distinct
    ∙ elim (Bool-cases (bytes_eq f.path name)) [
      | inl same ↦
          let e = (bytes_eq_iff f.path name).0 same in
          let once : has_path name fs ≡ false = ap (λ n. has_path n fs) (sym e) ∙ new in
          rw (once, same) (find_deleting-rotate_file name (answers f.path) f r ∙ rw (same, e) refl)
      | inr other ↦ rw other (
          ground (
            arith,
            find_deleting-rotate_file name (answers f.path) f r,
            find-rotate_file name (answers f.path) f r,
          ))
    ]

-- ===== src/Staging/Tests.antt =====
-- Runs of the store of staged blocks.
use carlo_one_core.Prelude.{
  sym, ap, ◌∙◌, parse_u64-decimal_text, bytes_eq, contains, parse_u64, is_utf8, split, starts_with,
  to_ascii_lowercase, ℕ, ◌≡◌, refl, Option, none, some, List, [], ◌∷◌, Text, codes, length, true,
  arith, decimal_text, ◌≤◌, u64_max,
}
use carlo_one_core.Staging.Files.{Dir, get, put, remove, same_file}
use carlo_one_core.Staging.Lines.{lines, without_return}
use carlo_one_core.Staging.Record.{commit_text, record_of, digits_printable}
use carlo_one_core.Staging.Kept.{AllKept}
use carlo_one_core.Staging.Blocks.{IsPlain, view_of}
use carlo_one_core.Staging.Commits.{IsDigest}
use carlo_one_core.Staging.Calls.{
  Call, stages, finalizes, discards, opens, appends, cleans, perform, perform-Simulates, Simulates,
}
use carlo_one_core.Staging.Durable.{perform_all, staged_now, staged_stays}
use carlo_one_core.Staging.Lost.{torn_commit_hides_all}
use carlo_one_core.Staging.Restage.{restage_loses}
use carlo_one_core.Staging.{
  runs_through, at_commit_create, at_commit_write, at_rename, stage_bytes, finalize_part,
  is_valid_id, written, commit_part, digested, renamed, marked, open_part_for_resume, append,
  cleanup_incomplete,
}
use carlo_one_core.Staging.Recovery.{
  restored, restore_active, restores, blob_of, found_in, recover, recover_from, blob_matches,
  find_record, insert, is_of, record_leb, sort, text_leb, verified,
}

-- A digest for the runs: the size, in decimal.
abbrev size_digest : List ℕ → Text
size_digest content = decimal_text (length content)

size_digest-IsDigest : IsDigest size_digest
unfolding IsDigest
size_digest-IsDigest content = digits_printable (length content)

number_of : Option ℕ → ℕ
number_of none = 0
number_of (some n) = n

one_of_two : ◌≡◌ {A = Option ℕ} (some 1) (some 2) → ⊥
unfolding number_of
one_of_two e = let f = ap number_of e in omega arith

sizes_apart : size_digest (5 ∷ []) ≡ size_digest (7 ∷ 8 ∷ []) → ⊥
sizes_apart e = one_of_two (
    sym (parse_u64-decimal_text 1 (omega arith))
    ∙ ap parse_u64 e
    ∙ parse_u64-decimal_text 2 (omega arith))

a-IsPlain : (generation : ℕ) → generation ≤ u64_max → IsPlain (codes "a") generation
a-IsPlain generation h = record { printable = (omega arith, omega arith, tt); in_u64 = h }

b-IsPlain : IsPlain (codes "b") 1
b-IsPlain = record { printable = (omega arith, omega arith, tt); in_u64 = omega arith }

abbrev one_block : Dir
one_block = (stage_bytes size_digest runs_through (codes "a") 1 (7 ∷ 8 ∷ []) []).0

one_block-AllKept : AllKept one_block
unfolding restored blob_of found_in recover recover_from stage_bytes is_valid_id bytes_eq contains
    get written commit_part digested put same_file renamed marked parse_u64 is_utf8 split
    starts_with to_ascii_lowercase remove lines without_return commit_text record_of blob_matches
    find_record insert is_of record_leb sort text_leb verified perform perform_all
    open_part_for_resume append finalize_part cleanup_incomplete
one_block-AllKept =
    (perform-Simulates size_digest (stages runs_through (codes "a") 1 (7 ∷ 8 ∷ [])) []
      size_digest-IsDigest tt (a-IsPlain 1 (omega arith), omega arith)).0

restored_run : restored size_digest (codes "a") 1 one_block ≡ some (7 ∷ 8 ∷ [])
unfolding restored blob_of found_in recover recover_from stage_bytes is_valid_id bytes_eq contains
    get written commit_part digested put same_file renamed marked parse_u64 is_utf8 split
    starts_with to_ascii_lowercase remove lines without_return commit_text record_of blob_matches
    find_record insert is_of record_leb sort text_leb verified perform perform_all
    open_part_for_resume append finalize_part cleanup_incomplete
restored_run =
    staged_now size_digest (codes "a") 1 (7 ∷ 8 ∷ []) [] size_digest-IsDigest tt
      (a-IsPlain 1 (omega arith)) (omega arith) refl refl

perform-Simulates_example :
    AllKept (perform size_digest (stages at_rename (codes "a") 2 (9 ∷ [])) one_block)
    × Simulates size_digest
        (stages at_rename (codes "a") 2 (9 ∷ []))
        one_block
        (view_of size_digest one_block)
        (view_of size_digest
          (perform size_digest (stages at_rename (codes "a") 2 (9 ∷ [])) one_block))
perform-Simulates_example =
    perform-Simulates size_digest (stages at_rename (codes "a") 2 (9 ∷ [])) one_block
      size_digest-IsDigest one_block-AllKept (a-IsPlain 2 (omega arith), omega arith)

abbrev later_calls : List Call
later_calls =
    stages at_commit_create (codes "a") 3 (5 ∷ [])
    ∷ opens (codes "b") 1
    ∷ appends (codes "b") 1 (4 ∷ 4 ∷ [])
    ∷ finalizes runs_through (codes "b") 1 none
    ∷ cleans
    ∷ []

staged_stays_example :
    restore_active size_digest restores
      (codes "a")
      2
      (perform_all size_digest later_calls
        (stage_bytes size_digest runs_through (codes "a") 2 (9 ∷ []) one_block).0)
      none
    ≡ (some (9 ∷ []), true)
unfolding restored blob_of found_in recover recover_from stage_bytes is_valid_id bytes_eq contains
    get written commit_part digested put same_file renamed marked parse_u64 is_utf8 split
    starts_with to_ascii_lowercase remove lines without_return commit_text record_of blob_matches
    find_record insert is_of record_leb sort text_leb verified perform perform_all
    open_part_for_resume append finalize_part cleanup_incomplete
staged_stays_example =
    staged_stays size_digest (codes "a") 2 (9 ∷ []) one_block later_calls none size_digest-IsDigest
      one_block-AllKept (a-IsPlain 2 (omega arith)) (omega arith) refl refl
      ((a-IsPlain 3 (omega arith), omega arith), (tt, (tt, ((b-IsPlain, omega arith), (tt, tt)))))
      (refl, (tt, (tt, (refl, (tt, tt)))))

abbrev calls_after : List Call
calls_after =
    stages runs_through (codes "b") 1 (5 ∷ []) ∷ cleans ∷ discards (0xc3 ∷ 0xa9 ∷ []) 1 ∷ []

torn_commit_hides_all_example :
    let torn =
      (stage_bytes size_digest (at_commit_write 1) (0xc3 ∷ 0xa9 ∷ []) 1 (5 ∷ []) one_block).0 in
    (recover size_digest (perform_all size_digest calls_after torn) ≡ none)
    × ((i : Text) (g : ℕ)
        → restored size_digest i g (perform_all size_digest calls_after torn) ≡ none)
unfolding is_valid_id bytes_eq contains get same_file starts_with stage_bytes written commit_part
    digested put renamed marked remove
torn_commit_hides_all_example =
    torn_commit_hides_all size_digest 0xc3 (0xa9 ∷ []) 1 (5 ∷ []) one_block calls_after refl refl
      refl (refl, (tt, (tt, tt)))

restage_loses_example :
    restored size_digest
      (codes "a")
      1
      (stage_bytes size_digest at_commit_create (codes "a") 1 (5 ∷ []) one_block).0
    ≡ none
unfolding restored blob_of found_in recover recover_from stage_bytes is_valid_id bytes_eq contains
    get written commit_part digested put same_file renamed marked parse_u64 is_utf8 split
    starts_with to_ascii_lowercase remove lines without_return commit_text record_of blob_matches
    find_record insert is_of record_leb sort text_leb verified perform perform_all
    open_part_for_resume append finalize_part cleanup_incomplete
restage_loses_example =
    restage_loses size_digest (codes "a") 1 (7 ∷ 8 ∷ []) (5 ∷ []) one_block one_block-AllKept refl
      refl restored_run sizes_apart

-- ===== src/Staging/Calls.antt =====
-- triAI-Engine/src/staging.rs: any calls of the store, against the abstract store of blocks.
use carlo_one_core.Prelude.{
  ℕ, ◌≤◌, true, false, ◌≡◌, refl, sym, ap₂, inl, inr, Option, none, some, List, [], ◌∷◌, Text,
  bytes_eq_iff, length, u64_max, arith, Bool-cases, Option-cases,
}
use carlo_one_core.Staging.Files.{FileName, Dir, get, same_file_eq}
use carlo_one_core.Staging.Kept.{AllKept}
use carlo_one_core.Staging.Found.{restored_same}
use carlo_one_core.Staging.Blocks.{
  View, view_of, same_block, updated, Allows, IsPlain, IsUnseen, put-part-IsUnseen,
  remove-part-IsUnseen,
}
use carlo_one_core.Staging.Commits.{IsDigest, Refines, nothing-IsUnseen, unseen-Refines}
use carlo_one_core.Staging.Stages.{stage_bytes-Refines, finalize_part-Refines}
use carlo_one_core.Staging.{
  Stop, StageResult, StageError, not_found, invalid_id, io_failed, part_path, bin_path, commit_path,
  is_valid_id, is_before_sync, digested, commit_part, stage_bytes, finalize_part, discard_part,
  open_part_for_resume, append, or_empty, cleanup_incomplete, is_part,
}
use carlo_one_core.Staging.Recovery.{restored}

pub data Call : Type 0 where
  stages : Stop → Text → ℕ → List ℕ → Call
  finalizes : Stop → Text → ℕ → Option Text → Call
  discards opens : Text → ℕ → Call
  appends : Text → ℕ → List ℕ → Call
  cleans : Call

abbrev pub opened : Dir → Option (Dir × ℕ) → Dir
opened d none = d
opened d (some (e, n)) = e

-- The directory after a call.
unfoldable pub perform : (List ℕ → Text) → Call → Dir → Dir
perform sha (stages stop id generation content) d = (stage_bytes sha stop id generation content d).0
perform sha (finalizes stop id generation expected) d =
    (finalize_part sha stop id generation expected d).0
perform sha (discards id generation) d = discard_part id generation d
perform sha (opens id generation) d = opened d (open_part_for_resume id generation d)
perform sha (appends id generation bytes) d = append id generation bytes d
perform sha cleans d = (cleanup_incomplete d).0

-- The calls that commit have a block with a plain name and a size that a u64 holds.
abbrev pub IsPlainCall : Call → Dir → Type 0
IsPlainCall (stages stop id generation content) d =
    IsPlain id generation × (length content ≤ u64_max)
IsPlainCall (finalizes stop id generation expected) d =
    IsPlain id generation × (length (or_empty (get (part_path id generation) d)) ≤ u64_max)
IsPlainCall _ d = Unit

-- One block gets a value that the result of the call allows, and no other changes.
abbrev pub Commits : Text → ℕ → List ℕ → StageResult → View → View → Type 0
Commits id generation content result v w =
    (new : Option (List ℕ)) × Allows result (v id generation) new content
    × ((i : Text) (g : ℕ) → w i g ≡ updated v id generation new i g)

-- What each call does to the abstract store.
abbrev pub Simulates : (List ℕ → Text) → Call → Dir → View → View → Type 0
Simulates sha (stages stop id generation content) d v w =
    Commits id generation content (stage_bytes sha stop id generation content d).1 v w
Simulates sha (finalizes stop id generation expected) d v w =
    Commits id generation (or_empty (get (part_path id generation) d))
      (finalize_part sha stop id generation expected d).1 v w
Simulates sha _ d v w = (i : Text) (g : ℕ) → w i g ≡ v i g

same_view :
    (sha : List ℕ → Text) (d : Dir) (id : Text) (generation : ℕ) (i : Text) (g : ℕ)
    → same_block id generation i g ≡ true
    → view_of sha d i g ≡ view_of sha d id generation
same_view sha d id generation i g same =
    let p : id ≡ i = (bytes_eq_iff id i).0 (ground arith) in
    let q : generation ≡ g = ground arith in ap₂ (view_of sha d) (sym p) (sym q)

Refines-Commits :
    (sha : List ℕ → Text) (id : Text) (generation : ℕ) (content : List ℕ) (d : Dir)
    (r : Dir × StageResult)
    → Refines sha id generation content d (restored sha id generation d) r
    → Commits id generation content r.1 (view_of sha d) (view_of sha r.0)
Refines-Commits sha id generation content d r f = (
  restored sha id generation r.0,
  f.own,
  λ i g. elim (Bool-cases (same_block id generation i g)) [
    | inl same ↦ rw same (same_view sha r.0 id generation i g same)
    | inr other ↦ rw other (f.local.others i g other)
  ],
)

-- Cleaning up removes no file but parts.
pub get-cleanup :
    (n : FileName) (d : Dir)
    → is_part n.extension ≡ false
    → get n (cleanup_incomplete d).0 ≡ get n d
unfolding get cleanup_incomplete
get-cleanup n [] other = refl
get-cleanup n ((m, content) ∷ d) other = ground (arith, get-cleanup n d other, same_file_eq m n)

get-cleanup_none : (n : FileName) (d : Dir) → get n d ≡ none → get n (cleanup_incomplete d).0 ≡ none
unfolding get cleanup_incomplete
get-cleanup_none n [] gone = refl
get-cleanup_none n ((m, content) ∷ d) gone = ground (arith, get-cleanup_none n d)

cleanup-AllKept : (d : Dir) → AllKept d → AllKept (cleanup_incomplete d).0
unfolding cleanup_incomplete
cleanup-AllKept [] k = tt
cleanup-AllKept ((m, content) ∷ d) k = elim (Bool-cases (is_part m.extension)) [
  | inl goes ↦ rw goes (cleanup-AllKept d k.2)
  | inr stays ↦ rw stays (k.0, get-cleanup_none m d k.1, cleanup-AllKept d k.2)
]

cleanup-IsUnseen :
    (sha : List ℕ → Text) (d : Dir) → AllKept d → IsUnseen sha d (cleanup_incomplete d).0
cleanup-IsUnseen sha d k =
    let l = cleanup-AllKept d k in
    record {
      kept = l;
      view = λ i g.
          restored_same sha i g d _ k l (get-cleanup (commit_path i g) d refl)
            (get-cleanup (bin_path i g) d refl);
    }

pub discard-IsUnseen :
    (sha : List ℕ → Text) (id : Text) (generation : ℕ) (d : Dir)
    → AllKept d
    → IsUnseen sha d (discard_part id generation d)
unfolding discard_part
discard-IsUnseen sha id generation d k = elim (Bool-cases (is_valid_id id)) [
  | inl good ↦ rw good (remove-part-IsUnseen sha id generation d k)
  | inr bad ↦ rw bad (nothing-IsUnseen sha d k)
]

pub open-IsUnseen :
    (sha : List ℕ → Text) (id : Text) (generation : ℕ) (d : Dir)
    → AllKept d
    → IsUnseen sha d (opened d (open_part_for_resume id generation d))
unfolding open_part_for_resume
open-IsUnseen sha id generation d k = elim (Bool-cases (is_valid_id id)) [
  | inl good ↦ rw good (put-part-IsUnseen sha id generation d k _)
  | inr bad ↦ rw bad (nothing-IsUnseen sha d k)
]

-- Without a part there is nothing to commit.
absent-Refines :
    (sha : List ℕ → Text) (stop : Stop) (id : Text) (generation : ℕ) (expected : Option Text)
    (content : List ℕ) (d : Dir)
    → AllKept d
    → get (part_path id generation) d ≡ none
    → Refines sha id generation content d
        (restored sha id generation d)
        (finalize_part sha stop id generation expected d)
unfolding finalize_part commit_part digested
absent-Refines sha stop id generation expected content d k gone =
    let same = λ (e : StageError).
      unseen-Refines sha id generation content d d e (nothing-IsUnseen sha d k) in
    elim (Bool-cases (is_valid_id id)) [
      | inr bad ↦ rw bad (same invalid_id)
      | inl good ↦ elim (Bool-cases (is_before_sync stop)) [
        | inl stops ↦ rw (good, stops) (same io_failed)
        | inr goes ↦ rw (good, goes, gone) (same not_found)
      ]
    ]

pub finalize-Commits :
    (sha : List ℕ → Text) (stop : Stop) (id : Text) (generation : ℕ) (expected : Option Text)
    (d : Dir)
    → IsDigest sha
    → AllKept d
    → IsPlainCall (finalizes stop id generation expected) d
    → Refines sha id generation
        (or_empty (get (part_path id generation) d))
        d
        (restored sha id generation d)
        (finalize_part sha stop id generation expected d)
finalize-Commits sha stop id generation expected d hex k (plain, fits) =
    elim (Option-cases (get (part_path id generation) d)) [
      | inl gone ↦ absent-Refines sha stop id generation expected _ d k gone
      | inr (content, there) ↦
          let size : length content ≤ u64_max = rw there at fits in
          rw there
            (finalize_part-Refines sha hex id generation content plain size stop expected d k there)
    ]

-- The store refines an abstract one, which holds the bytes of each block or nothing. For names and
-- digests of printable ASCII, and generations and sizes that fit in `u64`: from a directory that
-- the store has kept, each call, wherever it stops, leaves one that it has kept. A call that
-- commits a block changes no other, and what `restore_active` would give of the block is then the
-- bytes if the call succeeds, and the bytes, nothing, or what it was before if it fails; no other
-- call changes anything.
pub perform-Simulates :
    (sha : List ℕ → Text) (call : Call) (d : Dir)
    → IsDigest sha
    → AllKept d
    → IsPlainCall call d
    → AllKept (perform sha call d)
      × Simulates sha call d (view_of sha d) (view_of sha (perform sha call d))
unfolding perform append
perform-Simulates sha (stages stop id generation content) d hex k (plain, fits) =
    let f = stage_bytes-Refines sha hex id generation content plain fits stop d k in
    (f.local.kept, Refines-Commits sha id generation content d _ f)
perform-Simulates sha (finalizes stop id generation expected) d hex k p =
    let f = finalize-Commits sha stop id generation expected d hex k p in
    (f.local.kept, Refines-Commits sha id generation _ d _ f)
perform-Simulates sha (discards id generation) d hex k p =
    let u = discard-IsUnseen sha id generation d k in (u.kept, u.view)
perform-Simulates sha (opens id generation) d hex k p =
    let u = open-IsUnseen sha id generation d k in (u.kept, u.view)
perform-Simulates sha (appends id generation bytes) d hex k p =
    let u = put-part-IsUnseen sha id generation d k _ in (u.kept, u.view)
perform-Simulates sha cleans d hex k p = let u = cleanup-IsUnseen sha d k in (u.kept, u.view)

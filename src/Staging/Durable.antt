-- ===== src/Staging/Durable.antt =====
-- triAI-Engine/src/staging.rs: a block that was staged is restored, also after other calls.
use carlo_one_core.Prelude.{
  ℕ, ◌≤◌, true, false, ◌≡◌, refl, ◌∙◌, Option, some, List, [], ◌∷◌, Text, length, u64_max,
}
use carlo_one_core.Staging.Files.{Dir, get}
use carlo_one_core.Staging.Kept.{AllKept}
use carlo_one_core.Staging.Blocks.{same_block, IsPlain}
use carlo_one_core.Staging.Commits.{IsDigest}
use carlo_one_core.Staging.Stages.{stage_bytes-Refines}
use carlo_one_core.Staging.Calls.{
  Call, stages, finalizes, discards, opens, appends, cleans, perform, IsPlainCall,
  perform-Simulates,
}
use carlo_one_core.Staging.{
  runs_through, done, part_path, is_valid_id, is_there, record_for, marked, renamed, digested,
  commit_part, written, stage_bytes,
}
use carlo_one_core.Staging.Recovery.{restored, restores, replaced, restore_active}
use carlo_one_core.Staging.Files.{get-put, same_file_refl}

unfoldable pub perform_all : (List ℕ → Text) → List Call → Dir → Dir
perform_all sha [] d = d
perform_all sha (c ∷ cs) d = perform_all sha cs (perform sha c d)

-- Every call is plain where it is made.
abbrev pub AllPlain : (List ℕ → Text) → List Call → Dir → Type 0
AllPlain sha [] d = Unit
AllPlain sha (c ∷ cs) d = IsPlainCall c d × AllPlain sha cs (perform sha c d)

-- The call does not commit this block.
abbrev pub IsElsewhere : Text → ℕ → Call → Type 0
IsElsewhere i g (stages stop id generation content) = same_block id generation i g ≡ false
IsElsewhere i g (finalizes stop id generation expected) = same_block id generation i g ≡ false
IsElsewhere i g _ = Unit

abbrev pub AllElsewhere : Text → ℕ → List Call → Type 0
AllElsewhere i g [] = Unit
AllElsewhere i g (c ∷ cs) = IsElsewhere i g c × AllElsewhere i g cs

IsElsewhere-same :
    (sha : List ℕ → Text) (i : Text) (g : ℕ) (c : Call) (d : Dir)
    → IsDigest sha
    → AllKept d
    → IsPlainCall c d
    → IsElsewhere i g c
    → restored sha i g (perform sha c d) ≡ restored sha i g d
IsElsewhere-same sha i g (stages stop id generation content) d hex k p e =
    (perform-Simulates sha (stages stop id generation content) d hex k p).1.2 i g ∙ rw e refl
IsElsewhere-same sha i g (finalizes stop id generation expected) d hex k p e =
    (perform-Simulates sha (finalizes stop id generation expected) d hex k p).1.2 i g ∙ rw e refl
IsElsewhere-same sha i g (discards id generation) d hex k p e =
    (perform-Simulates sha (discards id generation) d hex k p).1 i g
IsElsewhere-same sha i g (opens id generation) d hex k p e =
    (perform-Simulates sha (opens id generation) d hex k p).1 i g
IsElsewhere-same sha i g (appends id generation bytes) d hex k p e =
    (perform-Simulates sha (appends id generation bytes) d hex k p).1 i g
IsElsewhere-same sha i g cleans d hex k p e = (perform-Simulates sha cleans d hex k p).1 i g

AllElsewhere-same :
    (sha : List ℕ → Text) (i : Text) (g : ℕ) (cs : List Call) (d : Dir)
    → IsDigest sha
    → AllKept d
    → AllPlain sha cs d
    → AllElsewhere i g cs
    → restored sha i g (perform_all sha cs d) ≡ restored sha i g d
unfolding perform_all
AllElsewhere-same sha i g [] d hex k p e = refl
AllElsewhere-same sha i g (c ∷ cs) d hex k p e =
    AllElsewhere-same sha i g cs (perform sha c d) hex (perform-Simulates sha c d hex k p.0).0 p.1
      e.1
    ∙ IsElsewhere-same sha i g c d hex k p.0 e.0

-- A call that nothing stops commits.
stage_bytes_done :
    (sha : List ℕ → Text) (id : Text) (generation : ℕ) (content : List ℕ) (d : Dir)
    → is_valid_id id ≡ true
    → is_there (get (part_path id generation) d) ≡ false
    → (stage_bytes sha runs_through id generation content d).1
      ≡ done (record_for sha id generation content)
unfolding stage_bytes written commit_part digested renamed marked
stage_bytes_done sha id generation content d good free =
    rw
      (
        good,
        free,
        get-put (part_path id generation) (part_path id generation) content d,
        same_file_refl (part_path id generation),
      )
      refl

pub staged_now :
    (sha : List ℕ → Text) (id : Text) (generation : ℕ) (content : List ℕ) (d : Dir)
    → IsDigest sha
    → AllKept d
    → IsPlain id generation
    → length content ≤ u64_max
    → is_valid_id id ≡ true
    → is_there (get (part_path id generation) d) ≡ false
    → restored sha id generation (stage_bytes sha runs_through id generation content d).0
      ≡ some content
staged_now sha id generation content d hex k plain fits good free =
    rw (stage_bytes_done sha id generation content d good free) at
      ((stage_bytes-Refines sha hex id generation content plain fits runs_through d k).own)

-- A block that was staged in a directory that the store has kept, with a valid name and no part in
-- the way, is restored byte for byte, also after any calls that do not commit the same block,
-- wherever they stop. Names and digests are printable ASCII, generations and sizes fit in `u64`.
pub staged_stays :
    (sha : List ℕ → Text) (id : Text) (generation : ℕ) (content : List ℕ) (d : Dir)
    (calls : List Call) (target : Option (List ℕ))
    → IsDigest sha
    → AllKept d
    → IsPlain id generation
    → length content ≤ u64_max
    → is_valid_id id ≡ true
    → is_there (get (part_path id generation) d) ≡ false
    → AllPlain sha calls (stage_bytes sha runs_through id generation content d).0
    → AllElsewhere id generation calls
    → restore_active sha restores id generation
        (perform_all sha calls (stage_bytes sha runs_through id generation content d).0)
        target
      ≡ (some content, true)
unfolding restore_active replaced
staged_stays sha id generation content d calls target hex k plain fits good free p e =
    let f = stage_bytes-Refines sha hex id generation content plain fits runs_through d k in
    rw
      (
        good,
        AllElsewhere-same sha id generation calls _ hex f.local.kept p e,
        staged_now sha id generation content d hex k plain fits good free,
      )
      refl

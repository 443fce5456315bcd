-- ===== src/Staging/Commits.antt =====
-- triAI-Engine/src/staging.rs: a commit, wherever it stops.
use carlo_one_core.Prelude.{
  ℕ, ◌≡◌, refl, ◌∙◌, inl, inr, Option, some, List, Text, is_utf8_ascii, length, take,
}
use carlo_one_core.Staging.Files.{Dir, get, put, get-put, same_file_refl}
use carlo_one_core.Staging.Lines.{AllPrintable}
use carlo_one_core.Staging.Record.{
  CommitRecord, commit_text, IsWritable, record_of-commit_text, take-commit_text-IsOwn,
  commit_text-AllAscii, take-AllAscii,
}
use carlo_one_core.Staging.Kept.{IsKept, AllKept}
use carlo_one_core.Staging.Blocks.{
  Allows, IsLocal, IsUnseen, put-commit-IsLocal, restored_new, restored_whole, get-put_apart,
  commit_bin_apart,
}
use carlo_one_core.Staging.{
  Stop, runs_through, at_open, at_sync, at_digest, at_rename, at_commit_create, at_commit_sync,
  at_dir_sync, at_write, at_commit_write, StageResult, StageError, done, failed, bin_path,
  commit_path, marked,
}
use carlo_one_core.Staging.Recovery.{restored}

-- What a call promises of the block that it commits, and of all others.
pub record Refines (sha : List ℕ → Text) (id : Text) (generation : ℕ) (content : List ℕ) (d : Dir)
    (old : Option (List ℕ)) (r : Dir × StageResult) : Type 0 where
  pub local : IsLocal sha id generation d r.0
  pub own : Allows r.1 old (restored sha id generation r.0) content

-- sha256sum prints hexadecimal digits.
unfoldable pub IsDigest : (List ℕ → Text) → Type 0
IsDigest sha = (content : List ℕ) → AllPrintable (sha content)

take-IsKept :
    (n : ℕ) (r : CommitRecord)
    → IsWritable r
    → IsKept (commit_path r.block_id r.generation) (take n (commit_text r))
take-IsKept n r w h = (
  is_utf8_ascii _ (take-AllAscii n (commit_text r) (commit_text-AllAscii r w)),
  take-commit_text-IsOwn n r w,
)

commit_text-IsKept :
    (r : CommitRecord) → IsWritable r → IsKept (commit_path r.block_id r.generation) (commit_text r)
commit_text-IsKept r w h =
    (is_utf8_ascii _ (commit_text-AllAscii r w), rw (record_of-commit_text r w) (refl, refl))

IsLocal-refl :
    (sha : List ℕ → Text) (id : Text) (generation : ℕ) (d : Dir)
    → AllKept d
    → IsLocal sha id generation d d
IsLocal-refl sha id generation d k = record { kept = k; others = λ i g h. refl }

pub IsLocal-trans :
    (sha : List ℕ → Text) (id : Text) (generation : ℕ) (d e f : Dir)
    → IsLocal sha id generation d e
    → IsLocal sha id generation e f
    → IsLocal sha id generation d f
IsLocal-trans sha id generation d e f p q = record {
  kept = q.kept;
  others = λ i g h. q.others i g h ∙ p.others i g h;
}

pub unseen-IsLocal :
    (sha : List ℕ → Text) (id : Text) (generation : ℕ) (d e : Dir)
    → IsUnseen sha d e
    → IsLocal sha id generation d e
unseen-IsLocal sha id generation d e u = record { kept = u.kept; others = λ i g h. u.view i g }

module _ (sha : List ℕ → Text) (r : CommitRecord) (content : List ℕ) (d : Dir)
    (old : Option (List ℕ)) (k : AllKept d) (w : IsWritable r) (n : r.bytes ≡ length content)
    (s : r.sha256 ≡ sha content) (b : get (bin_path r.block_id r.generation) d ≡ some content) where
  -- The bytes have their name, and a commit file is written.
  torn-Refines :
      (c : List ℕ) (e : StageError)
      → IsKept (commit_path r.block_id r.generation) c
      → Refines sha r.block_id r.generation content d old
          (put (commit_path r.block_id r.generation) c d, failed e)
  torn-Refines c e h =
      let l = put-commit-IsLocal sha r.block_id r.generation d k c h in
      record {
        local = l;
        own = inr (
            restored_new sha r.block_id r.generation _ content l.kept (
              get-put_apart (commit_path r.block_id r.generation) (bin_path r.block_id r.generation)
                c d (commit_bin_apart r.block_id r.generation)
              ∙ b));
      }

  whole-Refines :
      Refines sha r.block_id r.generation content d old
        (put (commit_path r.block_id r.generation) (commit_text r) d, done r)
  whole-Refines =
      let l =
        put-commit-IsLocal sha r.block_id r.generation d k (commit_text r)
          (commit_text-IsKept r w) in
      record {
        local = l;
        own =
            restored_whole sha r _ content l.kept w n s
              (get-put (commit_path r.block_id r.generation) (commit_path r.block_id r.generation)
                  (commit_text r) d
                ∙ rw (same_file_refl (commit_path r.block_id r.generation)) refl)
              (get-put_apart (commit_path r.block_id r.generation)
                  (bin_path r.block_id r.generation) (commit_text r) d
                  (commit_bin_apart r.block_id r.generation)
                ∙ b);
      }

  pub marked-Refines :
      (stop : Stop) → Refines sha r.block_id r.generation content d old (marked stop r d)
  unfolding marked
  marked-Refines at_commit_create = record {
    local = IsLocal-refl sha r.block_id r.generation d k;
    own = inr (restored_new sha r.block_id r.generation d content k b);
  }
  marked-Refines (at_commit_write m) = torn-Refines _ _ (take-IsKept m r w)
  marked-Refines at_commit_sync = torn-Refines _ _ (commit_text-IsKept r w)
  marked-Refines at_dir_sync = torn-Refines _ _ (commit_text-IsKept r w)
  marked-Refines runs_through = whole-Refines
  marked-Refines at_open = whole-Refines
  marked-Refines at_sync = whole-Refines
  marked-Refines at_digest = whole-Refines
  marked-Refines at_rename = whole-Refines
  marked-Refines (at_write m) = whole-Refines

-- A change that came before, and that at most this block can see.
pub after_local :
    (sha : List ℕ → Text) (id : Text) (generation : ℕ) (content : List ℕ) (d e : Dir)
    (old : Option (List ℕ)) (r : Dir × StageResult)
    → IsLocal sha id generation d e
    → Refines sha id generation content e old r
    → Refines sha id generation content d old r
after_local sha id generation content d e old r l f = record {
  local = IsLocal-trans sha id generation d e r.0 l f.local;
  own = f.own;
}

-- A call that fails and changes nothing that is seen.
pub unseen-Refines :
    (sha : List ℕ → Text) (id : Text) (generation : ℕ) (content : List ℕ) (d e : Dir)
    (error : StageError)
    → IsUnseen sha d e
    → Refines sha id generation content d (restored sha id generation d) (e, failed error)
unseen-Refines sha id generation content d e error u = record {
  local = unseen-IsLocal sha id generation d e u;
  own = inl (u.view id generation);
}

pub nothing-IsUnseen : (sha : List ℕ → Text) (d : Dir) → AllKept d → IsUnseen sha d d
nothing-IsUnseen sha d k = record { kept = k; view = λ i g. refl }

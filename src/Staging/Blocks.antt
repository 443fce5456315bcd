-- ===== src/Staging/Blocks.antt =====
-- triAI-Engine/src/staging.rs against what it promises: blocks of bytes by id and generation. The
-- view forgets the files, and keeps what `restore_active` would give of each block.
use carlo_one_core.Prelude.{
  ℕ, ◌≤◌, Bool, true, false, ◌&&◌, ◌≡◌, refl, ◌∙◌, ◌⊎◌, inl, inr, Option, none, some, List, ◌==◌,
  if◌then◌else◌, Text, bytes_eq, bytes_eq_iff, length, u64_max, arith, Bool-cases,
}
use carlo_one_core.Staging.Files.{FileName, Dir, get, put, remove, get-put, get-remove, same_file}
use carlo_one_core.Staging.Lines.{AllPrintable}
use carlo_one_core.Staging.Record.{CommitRecord, commit_text, IsWritable, record_of-commit_text}
use carlo_one_core.Staging.Kept.{IsKept, AllKept, put-AllKept, remove-AllKept}
use carlo_one_core.Staging.Found.{standing, restored-eq-standing, restored_same}
use carlo_one_core.Staging.{StageResult, done, failed, part_path, bin_path, commit_path}
use carlo_one_core.Staging.Recovery.{restored, blob_matches}

-- The abstract store, and a change of one block of it.
abbrev pub View : Type 0
View = Text → ℕ → Option (List ℕ)

abbrev pub same_block : Text → ℕ → Text → ℕ → Bool
same_block id generation i g = bytes_eq id i && generation == g

abbrev pub updated : View → Text → ℕ → Option (List ℕ) → View
updated v id generation new i g = if same_block id generation i g then new else v i g

-- A commit that succeeds stores the bytes. One that fails, wherever it stops, leaves the block as
-- it was, or has stored the bytes, or has lost the block.
abbrev pub Allows : StageResult → Option (List ℕ) → Option (List ℕ) → List ℕ → Type 0
Allows (done r) old new content = new ≡ some content
Allows (failed e) old new content = (new ≡ old) ⊎ (new ≡ none) ⊎ (new ≡ some content)

pub record IsPlain (id : Text) (generation : ℕ) : Type 0 where
  pub printable : AllPrintable id
  pub in_u64 : generation ≤ u64_max

abbrev pub view_of : (List ℕ → Text) → Dir → View
view_of sha d i g = restored sha i g d

-- A change of the files that at most this block can see.
pub record IsLocal (sha : List ℕ → Text) (id : Text) (generation : ℕ) (d e : Dir) : Type 0 where
  pub kept : AllKept e
  pub others :
      (i : Text) (g : ℕ)
      → same_block id generation i g ≡ false
      → view_of sha e i g ≡ view_of sha d i g

-- A change that no block can see.
pub record IsUnseen (sha : List ℕ → Text) (d e : Dir) : Type 0 where
  pub kept : AllKept e
  pub view : (i : Text) (g : ℕ) → view_of sha e i g ≡ view_of sha d i g

-- Names of different files.
part_apart :
    (id : Text) (generation : ℕ) (i : Text) (g : ℕ)
    → (same_file (part_path id generation) (commit_path i g) ≡ false)
      × (same_file (part_path id generation) (bin_path i g) ≡ false)
unfolding same_file
part_apart id generation i g = ground arith

bin_apart :
    (id : Text) (generation : ℕ) (i : Text) (g : ℕ)
    → same_block id generation i g ≡ false
    → (same_file (bin_path id generation) (commit_path i g) ≡ false)
      × (same_file (bin_path id generation) (bin_path i g) ≡ false)
unfolding same_file
bin_apart id generation i g other = ground arith

commit_apart :
    (id : Text) (generation : ℕ) (i : Text) (g : ℕ)
    → same_block id generation i g ≡ false
    → (same_file (commit_path id generation) (commit_path i g) ≡ false)
      × (same_file (commit_path id generation) (bin_path i g) ≡ false)
unfolding same_file
commit_apart id generation i g other = ground arith

pub commit_bin_apart :
    (id : Text) (generation : ℕ)
    → same_file (commit_path id generation) (bin_path id generation) ≡ false
unfolding same_file
commit_bin_apart id generation = ground arith

pub get-put_apart :
    (n m : FileName) (content : List ℕ) (d : Dir)
    → same_file n m ≡ false
    → get m (put n content d) ≡ get m d
get-put_apart n m content d apart = get-put n m content d ∙ rw apart refl

module _ (sha : List ℕ → Text) (id : Text) (generation : ℕ) (d : Dir) (k : AllKept d) where
  pub put-part-IsUnseen :
      (content : List ℕ) → IsUnseen sha d (put (part_path id generation) content d)
  put-part-IsUnseen content =
      let l = put-AllKept (part_path id generation) content d k (λ h. cc) in
      record {
        kept = l;
        view = λ i g.
            let a = part_apart id generation i g in
            restored_same sha i g d _ k l
              (get-put_apart (part_path id generation) (commit_path i g) content d a.0)
              (get-put_apart (part_path id generation) (bin_path i g) content d a.1);
      }

  pub remove-part-IsUnseen : IsUnseen sha d (remove (part_path id generation) d)
  remove-part-IsUnseen =
      let l = remove-AllKept (part_path id generation) d k in
      record {
        kept = l;
        view = λ i g.
            let a = part_apart id generation i g in
            restored_same sha i g d _ k l
              (get-remove (part_path id generation) (commit_path i g) d ∙ rw a.0 refl)
              (get-remove (part_path id generation) (bin_path i g) d ∙ rw a.1 refl);
      }

  pub put-bin-IsLocal :
      (content : List ℕ) → IsLocal sha id generation d (put (bin_path id generation) content d)
  put-bin-IsLocal content =
      let l = put-AllKept (bin_path id generation) content d k (λ h. cc) in
      record {
        kept = l;
        others = λ i g other.
            let a = bin_apart id generation i g other in
            restored_same sha i g d _ k l
              (get-put_apart (bin_path id generation) (commit_path i g) content d a.0)
              (get-put_apart (bin_path id generation) (bin_path i g) content d a.1);
      }

  pub put-commit-IsLocal :
      (content : List ℕ)
      → IsKept (commit_path id generation) content
      → IsLocal sha id generation d (put (commit_path id generation) content d)
  put-commit-IsLocal content h =
      let l = put-AllKept (commit_path id generation) content d k h in
      record {
        kept = l;
        others = λ i g other.
            let a = commit_apart id generation i g other in
            restored_same sha i g d _ k l
              (get-put_apart (commit_path id generation) (commit_path i g) content d a.0)
              (get-put_apart (commit_path id generation) (bin_path i g) content d a.1);
      }

-- Once the bytes have their name, the block is these bytes or none.
standing_new :
    (sha : List ℕ → Text) (o : Option CommitRecord) (content : List ℕ)
    → (standing sha o (some content) ≡ none) ⊎ (standing sha o (some content) ≡ some content)
standing_new sha none content = inl refl
standing_new sha (some r) content = elim (Bool-cases (blob_matches sha r (some content))) [
  | inl good ↦ rw good (inr refl)
  | inr bad ↦ rw bad (inl refl)
]

pub restored_new :
    (sha : List ℕ → Text) (id : Text) (generation : ℕ) (d : Dir) (content : List ℕ)
    → AllKept d
    → get (bin_path id generation) d ≡ some content
    → (restored sha id generation d ≡ none) ⊎ (restored sha id generation d ≡ some content)
restored_new sha id generation d content k b =
    rw (restored-eq-standing sha id generation d k, b) (standing_new sha _ content)

-- With the whole commit text the block is these bytes.
pub restored_whole :
    (sha : List ℕ → Text) (r : CommitRecord) (d : Dir) (content : List ℕ)
    → AllKept d
    → IsWritable r
    → r.bytes ≡ length content
    → r.sha256 ≡ sha content
    → get (commit_path r.block_id r.generation) d ≡ some (commit_text r)
    → get (bin_path r.block_id r.generation) d ≡ some content
    → restored sha r.block_id r.generation d ≡ some content
unfolding blob_matches
restored_whole sha r d content k w n s c b =
    let good : (length content == r.bytes && bytes_eq (sha content) r.sha256) ≡ true =
      ground (arith, bytes_eq_iff (sha content) r.sha256) in
    restored-eq-standing sha r.block_id r.generation d k
    ∙ rw (c, b, record_of-commit_text r w) (rw good refl)

-- ===== src/Staging/Record.antt =====
-- triAI-Engine/src/staging.rs: the text of a commit file, and what is read of it.
use carlo_one_core.Prelude.{
  ℕ, zero, suc, ◌≤◌, ◌≡◌, refl, inl, inr, Option, none, some, List, [], ◌∷◌, ◌++◌, Text,
  decimal_text, decimal_text-AllDigits, AllDigits, parse_u64, parse_u64-decimal_text, AllAscii,
  u64_max, take, split, arith,
}
use carlo_one_core.Staging.Lines.{
  lines, AllPrintable, lines-line, lines-take, lines-take_last, AtMostOne,
}

pub record CommitRecord : Type 0 where
  pub block_id : Text
  pub generation : ℕ
  pub bytes : ℕ
  pub sha256 : Text

-- format!("{}\n{}\n{}\n{}\n")
unfoldable pub commit_text : CommitRecord → Text
commit_text r =
    r.block_id
    ++ (10
        ∷ (decimal_text r.generation
            ++ (10 ∷ (decimal_text r.bytes ++ (10 ∷ (r.sha256 ++ (10 ∷ [])))))))

abbrev pub or_zero : Option ℕ → ℕ
or_zero none = 0
or_zero (some n) = n

-- Four lines, neither more nor fewer.
unfoldable pub record_of : List Text → Option CommitRecord
record_of (id ∷ generation ∷ bytes ∷ sha ∷ []) = some (record {
  block_id = id;
  generation = or_zero (parse_u64 generation);
  bytes = or_zero (parse_u64 bytes);
  sha256 = sha;
})
record_of _ = none

pub record IsWritable (r : CommitRecord) : Type 0 where
  pub id : AllPrintable r.block_id
  pub generation : r.generation ≤ u64_max
  pub bytes : r.bytes ≤ u64_max
  pub sha256 : AllPrintable r.sha256

pub AllDigits-AllPrintable : (t : Text) → AllDigits t → AllPrintable t
AllDigits-AllPrintable [] h = tt
AllDigits-AllPrintable (c ∷ cs) h = (omega arith, omega arith, AllDigits-AllPrintable cs h.2)

pub digits_printable : (n : ℕ) → AllPrintable (decimal_text n)
digits_printable n = AllDigits-AllPrintable (decimal_text n) (decimal_text-AllDigits n)

-- A commit file is read back as the record that was written.
pub record_of-commit_text :
    (r : CommitRecord) → IsWritable r → record_of (lines (commit_text r)) ≡ some r
unfolding commit_text record_of lines split
record_of-commit_text r w =
    rw
      (
        lines-line r.block_id _ w.id,
        lines-line (decimal_text r.generation) _ (digits_printable r.generation),
        lines-line (decimal_text r.bytes) _ (digits_printable r.bytes),
        lines-line r.sha256 [] w.sha256,
        parse_u64-decimal_text r.generation w.generation,
        parse_u64-decimal_text r.bytes w.bytes,
      )
      refl

-- The record is one of the file's own block and generation, or there is none.
abbrev pub IsOwn : Text → ℕ → Option CommitRecord → Type 0
IsOwn id generation none = Unit
IsOwn id generation (some r) = (r.block_id ≡ id) × (r.generation ≡ generation)

-- Fewer than four lines make no record.
few-IsOwn :
    (id : Text) (generation : ℕ) (ls : List Text)
    → AtMostOne ls
    → IsOwn id generation (record_of ls)
unfolding record_of
few-IsOwn id generation ls (inl e) = rw e tt
few-IsOwn id generation ls (inr (l, e)) = rw e tt

few-IsOwn_1 :
    (id a : Text) (generation : ℕ) (ls : List Text)
    → AtMostOne ls
    → IsOwn id generation (record_of (a ∷ ls))
unfolding record_of
few-IsOwn_1 id a generation ls (inl e) = rw e tt
few-IsOwn_1 id a generation ls (inr (l, e)) = rw e tt

few-IsOwn_2 :
    (id a b : Text) (generation : ℕ) (ls : List Text)
    → AtMostOne ls
    → IsOwn id generation (record_of (a ∷ b ∷ ls))
unfolding record_of
few-IsOwn_2 id a b generation ls (inl e) = rw e tt
few-IsOwn_2 id a b generation ls (inr (l, e)) = rw e tt

last-IsOwn :
    (r : CommitRecord) (ls : List Text)
    → r.generation ≤ u64_max
    → AtMostOne ls
    → IsOwn r.block_id r.generation
        (record_of (r.block_id ∷ decimal_text r.generation ∷ decimal_text r.bytes ∷ ls))
unfolding record_of
last-IsOwn r ls g (inl e) = rw e tt
last-IsOwn r ls g (inr (l, e)) = rw (e, parse_u64-decimal_text r.generation g) (refl, refl)

-- A commit file that was cut off while it was written has no record, or one of its own block.
pub take-commit_text-IsOwn :
    (n : ℕ) (r : CommitRecord)
    → IsWritable r
    → IsOwn r.block_id r.generation (record_of (lines (take n (commit_text r))))
unfolding commit_text
take-commit_text-IsOwn n r w = elim (lines-take n r.block_id _ w.id) [
  | inl few ↦ few-IsOwn r.block_id r.generation _ few
  | inr (k, e) ↦
      rw e (elim (lines-take k (decimal_text r.generation) _ (digits_printable r.generation)) [
        | inl few ↦ few-IsOwn_1 r.block_id r.block_id r.generation _ few
        | inr (l, f) ↦
            rw f (elim (lines-take l (decimal_text r.bytes) _ (digits_printable r.bytes)) [
              | inl few ↦ few-IsOwn_2 r.block_id r.block_id _ r.generation _ few
              | inr (m, g) ↦
                  rw g (last-IsOwn r _ w.generation (lines-take_last m r.sha256 w.sha256))
            ])
      ])
]

pub AllPrintable-AllAscii : (t : Text) → AllPrintable t → AllAscii t
AllPrintable-AllAscii [] h = tt
AllPrintable-AllAscii (c ∷ cs) h = (ground arith, AllPrintable-AllAscii cs h.2)

AllAscii-append : (a b : Text) → AllAscii a → AllAscii b → AllAscii (a ++ b)
AllAscii-append [] b h k = k
AllAscii-append (c ∷ cs) b h k = (h.0, AllAscii-append cs b h.1 k)

pub take-AllAscii : (n : ℕ) (a : Text) → AllAscii a → AllAscii (take n a)
take-AllAscii zero a h = tt
take-AllAscii (suc n) [] h = tt
take-AllAscii (suc n) (c ∷ cs) h = (h.0, take-AllAscii n cs h.1)

pub line-AllAscii : (a b : Text) → AllPrintable a → AllAscii b → AllAscii (a ++ 10 ∷ b)
line-AllAscii a b h k = AllAscii-append a (10 ∷ b) (AllPrintable-AllAscii a h) (refl, k)

pub commit_text-AllAscii : (r : CommitRecord) → IsWritable r → AllAscii (commit_text r)
unfolding commit_text
commit_text-AllAscii r w = line-AllAscii r.block_id _ w.id (
    line-AllAscii (decimal_text r.generation) _ (digits_printable r.generation) (
      line-AllAscii (decimal_text r.bytes) _ (digits_printable r.bytes)
        (line-AllAscii r.sha256 [] w.sha256 tt)))

-- ===== src/Staging/Found.antt =====
-- triAI-Engine/src/staging.rs: what `recover` and `restore_active` find in a kept directory.
use mathlib.Core.Option
use carlo_one_core.Prelude.{
  ℕ, true, false, ◌≡◌, refl, sym, ap, ap₂, subst, ◌∙◌, Option, none, some, List, [], ◌∷◌,
  if◌then◌else◌, Text, bytes_eq_iff, arith, Bool-cases, Option-cases, inl, inr,
}
use carlo_one_core.Staging.Files.{FileName, Dir, get, same_file, same_file_eq}
use carlo_one_core.Staging.Lines.{lines}
use carlo_one_core.Staging.Record.{CommitRecord, record_of, IsOwn}
use carlo_one_core.Staging.Sorted.{find_record-sort}
use carlo_one_core.Staging.{bin_path, commit_path}
use carlo_one_core.Staging.Recovery.{
  blob_matches, verified, is_commit, pushed, recover_from, recover, is_of, find_record, blob_of,
  found_in, restored,
}
use carlo_one_core.Staging.Kept.{AllKept, get-IsKept, own_record}

is_of_own :
    (id : Text) (generation : ℕ) (r : CommitRecord)
    → r.block_id ≡ id
    → r.generation ≡ generation
    → is_of id generation r ≡ true
unfolding is_of
is_of_own id generation r p q = ground (arith, bytes_eq_iff r.block_id id)

is_of_other :
    (n : FileName) (id : Text) (generation : ℕ) (r : CommitRecord)
    → is_commit n.extension ≡ true
    → same_file n (commit_path id generation) ≡ false
    → r.block_id ≡ n.block_id
    → r.generation ≡ n.generation
    → is_of id generation r ≡ false
unfolding is_of same_file
is_of_other n id generation r c s p q =
    ground (arith, bytes_eq_iff r.block_id id, bytes_eq_iff n.block_id id)

not_commit_other :
    (n : FileName) (id : Text) (generation : ℕ)
    → is_commit n.extension ≡ false
    → same_file n (commit_path id generation) ≡ false
unfolding same_file
not_commit_other n id generation c = ground arith

module _ (sha : List ℕ → Text) (d : Dir) where
  -- The record of a file of its own is found if it is verified.
  found-pushed_own :
      (id : Text) (generation : ℕ) (o : Option CommitRecord) (rs : List CommitRecord)
      → IsOwn id generation o
      → find_record id generation rs ≡ none
      → (out : List CommitRecord) × (pushed (verified sha d o) (some rs) ≡ some out)
        × (find_record id generation out ≡ verified sha d o)
  unfolding find_record verified
  found-pushed_own id generation none rs own rest = (rs, refl, rest)
  found-pushed_own id generation (some r) rs own rest =
      elim (Bool-cases (blob_matches sha r (get (bin_path r.block_id r.generation) d))) [
        | inl good ↦ rw good (r ∷ rs, refl, rw (is_of_own id generation r own.0 own.1) refl)
        | inr bad ↦ rw bad (rs, refl, rest)
      ]

  -- That of another file does not stand in its way.
  found-pushed_other :
      (n : FileName) (id : Text) (generation : ℕ) (o : Option CommitRecord) (rs : List CommitRecord)
      → is_commit n.extension ≡ true
      → same_file n (commit_path id generation) ≡ false
      → IsOwn n.block_id n.generation o
      → (out : List CommitRecord) × (pushed (verified sha d o) (some rs) ≡ some out)
        × (find_record id generation out ≡ find_record id generation rs)
  unfolding find_record verified
  found-pushed_other n id generation none rs c s own = (rs, refl, refl)
  found-pushed_other n id generation (some r) rs c s own =
      elim (Bool-cases (blob_matches sha r (get (bin_path r.block_id r.generation) d))) [
        | inl good ↦ rw good (r ∷ rs, refl, rw (is_of_other n id generation r c s own.0 own.1) refl)
        | inr bad ↦ rw bad (rs, refl, refl)
      ]

  -- The loop ends, and a look-up in its result reads the one commit file of the block.
  found-recover_from :
      (id : Text) (generation : ℕ) (es : Dir)
      → AllKept es
      → (out : List CommitRecord) × (recover_from sha d es ≡ some out)
        × (find_record id generation out
            ≡ verified sha d (own_record (get (commit_path id generation) es)))
  unfolding recover_from get find_record verified
  found-recover_from id generation [] k = ([], refl, refl)
  found-recover_from id generation ((n, content) ∷ es) k =
      let (rs, q, f) = found-recover_from id generation es k.2 in
      elim (Bool-cases (is_commit n.extension)) [
        | inr other ↦ rw (other, not_commit_other n id generation other) (rs, q, f)
        | inl is ↦
            let own = k.0 is in
            elim (Bool-cases (same_file n (commit_path id generation))) [
              | inl same ↦
                  let e = same_file_eq n (commit_path id generation) same in
                  let mine : IsOwn id generation (record_of (lines content)) =
                    subst (λ m. IsOwn m.block_id m.generation (record_of (lines content))) e
                      own.1 in
                  let gone : get (commit_path id generation) es ≡ none =
                    subst (λ m. get m es ≡ none) e k.1 in
                  let nothing : find_record id generation rs ≡ none =
                    f ∙ ap (λ c. verified sha d (own_record c)) gone in
                  rw (is, own.0, same, q) (found-pushed_own id generation _ rs mine nothing)
              | inr apart ↦
                  let (out, p, g) =
                    found-pushed_other n id generation (record_of (lines content)) rs is apart
                      own.1 in
                  rw (is, own.0, apart, q) (out, p, g ∙ f)
            ]
      ]

-- What is restored of a block, by its commit record and its bytes.
abbrev pub standing : (List ℕ → Text) → Option CommitRecord → Option (List ℕ) → Option (List ℕ)
standing sha none blob = none
standing sha (some r) blob = if blob_matches sha r blob then blob else none

IsOwn-get :
    (id : Text) (generation : ℕ) (d : Dir)
    → AllKept d
    → IsOwn id generation (own_record (get (commit_path id generation) d))
IsOwn-get id generation d k = elim (Option-cases (get (commit_path id generation) d)) [
  | inl e ↦ rw e tt
  | inr (c, e) ↦ rw e ((get-IsKept (commit_path id generation) c d k e refl).1)
]

standing-verified :
    (sha : List ℕ → Text) (id : Text) (generation : ℕ) (d : Dir) (o : Option CommitRecord)
    → IsOwn id generation o
    → blob_of d (verified sha d o) ≡ standing sha o (get (bin_path id generation) d)
unfolding verified blob_of
standing-verified sha id generation d none own = refl
standing-verified sha id generation d (some r) own =
    let e : get (bin_path r.block_id r.generation) d ≡ get (bin_path id generation) d =
      ap₂ (λ i g. get (bin_path i g) d) own.0 own.1 in
    let b = blob_matches sha r (get (bin_path r.block_id r.generation) d) in
    elim (Bool-cases b) [
      | inl good ↦ rw good (e ∙ rw (← e) (rw good refl))
      | inr bad ↦ rw bad (rw (← e) (rw bad refl))
    ]

pub restored-eq-standing :
    (sha : List ℕ → Text) (id : Text) (generation : ℕ) (d : Dir)
    → AllKept d
    → restored sha id generation d
      ≡ standing sha
          (own_record (get (commit_path id generation) d))
          (get (bin_path id generation) d)
unfolding restored recover found_in Option.map
restored-eq-standing sha id generation d k =
    let (rs, q, f) = found-recover_from sha d id generation d k in
    rw q (ap (blob_of d) (find_record-sort id generation rs ∙ f))
    ∙ standing-verified sha id generation d _ (IsOwn-get id generation d k)

-- Two directories that agree on the two files of a block.
pub restored_same :
    (sha : List ℕ → Text) (id : Text) (generation : ℕ) (d e : Dir)
    → AllKept d
    → AllKept e
    → get (commit_path id generation) e ≡ get (commit_path id generation) d
    → get (bin_path id generation) e ≡ get (bin_path id generation) d
    → restored sha id generation e ≡ restored sha id generation d
restored_same sha id generation d e k l c b =
    restored-eq-standing sha id generation e l
    ∙ ap₂ (λ x y. standing sha (own_record x) y) c b
    ∙ sym (restored-eq-standing sha id generation d k)

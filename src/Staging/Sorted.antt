-- ===== src/Staging/Sorted.antt =====
-- triAI-Engine/src/staging.rs: sorting the records changes nothing for a look-up.
use carlo_one_core.Prelude.{
  ℕ, true, ◌≡◌, refl, ◌∙◌, some, List, [], ◌∷◌, if◌then◌else◌, Text, bytes_eq_iff, arith, ap,
}
use carlo_one_core.Staging.Record.{CommitRecord}
use carlo_one_core.Staging.Recovery.{record_leb, insert, sort, is_of, find_record}

-- Two records of one block and generation are in either order.
record_leb_alike :
    (id : Text) (generation : ℕ) (r s : CommitRecord)
    → is_of id generation r ≡ true
    → is_of id generation s ≡ true
    → record_leb r s ≡ true
unfolding is_of record_leb
record_leb_alike id generation r s p q = ground (
  arith,
  bytes_eq_iff r.block_id id,
  bytes_eq_iff s.block_id id,
  bytes_eq_iff r.block_id s.block_id,
)

find_record-insert :
    (id : Text) (generation : ℕ) (r : CommitRecord) (rs : List CommitRecord)
    → find_record id generation (insert r rs)
      ≡ (if is_of id generation r then some r else find_record id generation rs)
unfolding find_record insert
find_record-insert id generation r [] = refl
find_record-insert id generation r (s ∷ rs) =
    ground (arith, find_record-insert id generation r rs, record_leb_alike id generation r s)

pub find_record-sort :
    (id : Text) (generation : ℕ) (rs : List CommitRecord)
    → find_record id generation (sort rs) ≡ find_record id generation rs
unfolding find_record sort
find_record-sort id generation [] = refl
find_record-sort id generation (r ∷ rs) =
    find_record-insert id generation r (sort rs)
    ∙ ap (λ f. if is_of id generation r then some r else f) (find_record-sort id generation rs)

-- ===== src/Chunk/Loader/Room.antt =====
-- triAI-Engine/src/chunk/loader.rs: the loop that makes room for a chunk.
use carlo_one_core.Prelude.{
  ℕ, zero, suc, ◌+◌, ◌≤◌, ◌<◌, ◌≡◌, refl, subst, ap, ◌∙◌, String, true, false, ◌&&◌, not, none,
  some, [], ◌∷◌, arith, ltb, length, str_eq, eq_iff, Bool-cases, List-cases, inl, inr, u64_max,
}
use carlo_one_core.Prelude.StrMap
use carlo_one_core.Prelude.StrMap.{
  StrMap, IsUnique, total, get-put, get-remove, put-IsUnique, remove-IsUnique, total-put-absent,
  total-remove,
}
use carlo_one_core.Chunk.Loader.{
  LoadedChunk, Cache, memory_bytes, oldest, evict_oldest, evict_from, evict_one, is_over, is_empty,
  make_room,
}

-- No id stands twice, the count of bytes is that of the entries, and it is within the budget.
pub record IsBudgeted (c : Cache) : Type 0 where
  pub unique : IsUnique c.entries
  pub counted : total memory_bytes c.entries ≡ c.bytes
  pub bounded : c.bytes ≤ c.budget

get_skip :
    (k j : String) (v w : LoadedChunk) (m : StrMap LoadedChunk)
    → StrMap.get k m ≡ none
    → StrMap.get j m ≡ some w
    → StrMap.get j ((k, v) ∷ m) ≡ some w
unfolding StrMap.get
get_skip k j v w m absent there = elim (Bool-cases (str_eq k j)) [
  | inl same ↦ cc (ap (λ i. StrMap.get i m) ((eq_iff k j).0 same))
  | inr other ↦ rw other there
]

absent_tail :
    (k j : String) (w : LoadedChunk) (m : StrMap LoadedChunk)
    → StrMap.get k ((j, w) ∷ m) ≡ none
    → StrMap.get k m ≡ none
unfolding StrMap.get
absent_tail k j w m absent = ground arith

get_between :
    (k j i : String) (v w x : LoadedChunk) (m : StrMap LoadedChunk)
    → StrMap.get j m ≡ none
    → StrMap.get i ((k, v) ∷ m) ≡ some x
    → StrMap.get i ((k, v) ∷ (j, w) ∷ m) ≡ some x
unfolding StrMap.get
get_between k j i v w x m absent there = ground (arith, eq_iff j i, ap (λ n. StrMap.get n m))

-- The oldest is an entry.
get-oldest :
    (k : String) (v : LoadedChunk) (m : StrMap LoadedChunk)
    → IsUnique ((k, v) ∷ m)
    → let r = oldest k v m in StrMap.get r.0 ((k, v) ∷ m) ≡ some r.1
unfolding oldest
get-oldest k v [] u = unfold StrMap.get in ground (arith, eq_iff k k)
get-oldest k v ((j, w) ∷ m) u = elim (Bool-cases (ltb w.last_accessed v.last_accessed)) [
  | inl older ↦
      rw older
        (get_skip k (oldest j w m).0 v (oldest j w m).1 ((j, w) ∷ m) u.0 (get-oldest j w m u.1))
  | inr newer ↦ rw newer (
      get_between k j (oldest k v m).0 v w (oldest k v m).1 m u.1.0
        (get-oldest k v m (absent_tail k j w m u.0, u.1.1)))
]

evict_oldest-IsBudgeted :
    (c : Cache) (r : String × LoadedChunk)
    → IsBudgeted c
    → StrMap.get r.0 c.entries ≡ some r.1
    → IsBudgeted (evict_oldest c r)
unfolding evict_oldest
evict_oldest-IsBudgeted c (key, old) w there =
    let gone = total-remove memory_bytes key old c.entries w.unique there in
    record {
      unique = remove-IsUnique key c.entries w.unique;
      counted = omega (arith, gone, w.counted);
      bounded = omega (arith, w.bounded);
    }

evict_from-IsBudgeted :
    (c : Cache) (m : StrMap LoadedChunk)
    → c.entries ≡ m
    → IsBudgeted c
    → IsBudgeted (evict_from c m)
unfolding evict_from
evict_from-IsBudgeted c [] e w = w
evict_from-IsBudgeted c ((k, v) ∷ m) e w =
    evict_oldest-IsBudgeted c (oldest k v m) w (rw e (get-oldest k v m (subst IsUnique e w.unique)))

evict_one-IsBudgeted : (c : Cache) → IsBudgeted c → IsBudgeted (evict_one c)
unfolding evict_one
evict_one-IsBudgeted c w = evict_from-IsBudgeted c c.entries refl w

pub make_room-IsBudgeted :
    (need rounds : ℕ) (c : Cache) → IsBudgeted c → IsBudgeted (make_room need rounds c)
unfolding make_room
make_room-IsBudgeted need zero c w = w
make_room-IsBudgeted need (suc rounds) c w =
    elim (Bool-cases (is_over need c && not (is_empty c))) [
      | inl over ↦
          rw over (make_room-IsBudgeted need rounds (evict_one c) (evict_one-IsBudgeted c w))
      | inr fits ↦ rw fits w
    ]

-- Each round takes an entry away.
length-remove : (k : String) (m : StrMap LoadedChunk) → length (StrMap.remove k m) ≤ length m
unfolding StrMap.remove
length-remove k [] = omega arith
length-remove k ((j, v) ∷ m) = ground (arith, length-remove k m)

length-remove-there :
    (k : String) (x : LoadedChunk) (m : StrMap LoadedChunk)
    → StrMap.get k m ≡ some x
    → length (StrMap.remove k m) < length m
unfolding StrMap.remove StrMap.get
length-remove-there k x [] there = cc
length-remove-there k x ((j, v) ∷ m) there =
    ground (arith, length-remove k m, length-remove-there k x m)

length-evict_from :
    (c : Cache) (m : StrMap LoadedChunk)
    → c.entries ≡ m
    → IsBudgeted c
    → 0 < length m
    → length (evict_from c m).entries < length m
unfolding evict_from evict_oldest
length-evict_from c [] e w some_left = absurd (omega arith)
length-evict_from c ((k, v) ∷ m) e w some_left = rw e (
    length-remove-there (oldest k v m).0 (oldest k v m).1 ((k, v) ∷ m)
      (get-oldest k v m (subst IsUnique e w.unique)))

-- What eviction leaves as it is.
absent-evict_from :
    (id : String) (c : Cache) (m : StrMap LoadedChunk)
    → StrMap.get id c.entries ≡ none
    → StrMap.get id (evict_from c m).entries ≡ none
unfolding evict_from evict_oldest
absent-evict_from id c [] absent = absent
absent-evict_from id c ((k, v) ∷ m) absent =
    ground (arith, get-remove (oldest k v m).0 id c.entries)

budget-evict_from : (c : Cache) (m : StrMap LoadedChunk) → (evict_from c m).budget ≡ c.budget
unfolding evict_from evict_oldest
budget-evict_from c [] = refl
budget-evict_from c ((k, v) ∷ m) = refl

is_empty-length : (c : Cache) → length c.entries ≤ 0 → is_empty c ≡ true
is_empty-length c few = elim (List-cases c.entries) [
  | inl empty ↦ rw empty
  | inr (x, xs, full) ↦ absurd (omega (arith, ap length full))
]

length_of_full : (c : Cache) → is_empty c ≡ false → 0 < length c.entries
length_of_full c full = elim (List-cases c.entries) [
  | inl empty ↦ cc
  | inr (x, xs, e) ↦ omega (arith, ap length e)
]

-- With a round for each entry, the loop ends because there is room, or with an empty cache.
pub make_room_enough :
    (need rounds : ℕ) (c : Cache)
    → IsBudgeted c
    → length c.entries ≤ rounds
    → (is_over need (make_room need rounds c) && not (is_empty (make_room need rounds c))) ≡ false
unfolding make_room
make_room_enough need zero c w few = rw (is_empty-length c few) (ground arith)
make_room_enough need (suc rounds) c w few =
    elim (Bool-cases (is_over need c && not (is_empty c))) [
      | inl over ↦
          let fewer : length (evict_one c).entries < length c.entries =
            unfold evict_one in
            length-evict_from c c.entries refl w (length_of_full c (ground arith)) in
          rw over (
            make_room_enough need rounds (evict_one c) (evict_one-IsBudgeted c w)
              (omega (arith, fewer)))
      | inr fits ↦ rw (fits, fits)
    ]

pub absent-make_room :
    (id : String) (need rounds : ℕ) (c : Cache)
    → StrMap.get id c.entries ≡ none
    → StrMap.get id (make_room need rounds c).entries ≡ none
unfolding make_room evict_one
absent-make_room id need zero c absent = absent
absent-make_room id need (suc rounds) c absent =
    elim (Bool-cases (is_over need c && not (is_empty c))) [
      | inl over ↦
          rw over (
            absent-make_room id need rounds (evict_one c) (absent-evict_from id c c.entries absent))
      | inr fits ↦ rw fits absent
    ]

pub budget-make_room : (need rounds : ℕ) (c : Cache) → (make_room need rounds c).budget ≡ c.budget
unfolding make_room evict_one
budget-make_room need zero c = refl
budget-make_room need (suc rounds) c = elim (Bool-cases (is_over need c && not (is_empty c))) [
  | inl over ↦ rw over (budget-make_room need rounds (evict_one c) ∙ budget-evict_from c c.entries)
  | inr fits ↦ rw fits
]

-- A cache with room takes a chunk that it does not have.
total-empty : (c : Cache) → is_empty c ≡ true → total memory_bytes c.entries ≡ 0
unfolding total
total-empty c empty = elim (List-cases c.entries) [
  | inl none_left ↦ rw none_left
  | inr (x, xs, full) ↦ cc
]

pub room-bytes :
    (need : ℕ) (c : Cache)
    → IsBudgeted c
    → (is_over need c && not (is_empty c)) ≡ false
    → need ≤ c.budget
    → c.budget < u64_max
    → c.bytes + need ≤ c.budget
room-bytes need c w room small bound = elim (Bool-cases (is_empty c)) [
  | inl empty ↦ omega (arith, total-empty c empty, w.counted)
  | inr full ↦ ground arith
]

-- ===== src/Chunk/Loader/Again.antt =====
-- triAI-Engine/src/chunk/loader.rs: the same chunk twice.
use carlo_one_core.Prelude.{
  ℕ, zero, suc, ◌+◌, ◌≤◌, ◌<◌, ◌≡◌, refl, ap, ◌∙◌, String, Bool, true, false, Option, none, some,
  List, arith, leb, length, eq_iff, wrap64, u64_max,
}
use carlo_one_core.Prelude.StrMap
use carlo_one_core.Prelude.StrMap.{
  StrMap, IsUnique, total, get-put, total-put-absent, total-put-same,
}
use carlo_one_core.Chunk.Loader.{
  LoadedChunk, Cache, ChunkLoader, memory_bytes, get_found, get, is_over, make_room, keep, insert,
  store, after_lookup, load_chunk,
}
use carlo_one_core.Chunk.Loader.Room.{IsBudgeted}

make_room_idle :
    (need rounds : ℕ) (c : Cache) → is_over need c ≡ false → make_room need rounds c ≡ c
unfolding make_room
make_room_idle need zero c fits = refl
make_room_idle need (suc rounds) c fits = rw fits

insert-keep :
    (x : LoadedChunk) (c : Cache)
    → c.bytes + memory_bytes x ≤ c.budget
    → c.budget < u64_max
    → insert x c ≡ keep x c
unfolding insert
insert-keep x c room bound =
    let small : leb (memory_bytes x) c.budget ≡ true = ground arith in
    rw (make_room_idle (memory_bytes x) (length c.entries) c (ground arith), small)

-- Two threads that load a chunk of the same id at once both miss it and both insert it. With room
-- for both, and if the chunk was not there before: afterwards it is in the cache once and its size
-- is counted twice.
pub insert_twice_overcounts :
    (x y : LoadedChunk) (c : Cache)
    → IsBudgeted c
    → StrMap.get x.chunk_id c.entries ≡ none
    → y.chunk_id ≡ x.chunk_id
    → memory_bytes y ≡ memory_bytes x
    → c.bytes + (memory_bytes x + memory_bytes x) ≤ c.budget
    → c.budget < u64_max
    → let after = insert y (insert x c) in
      after.bytes ≡ total memory_bytes after.entries + memory_bytes x
unfolding keep
insert_twice_overcounts x y c w absent same_id same_size room bound =
    let first = insert-keep x c (omega arith) bound in
    let counted : (keep x c).bytes ≡ c.bytes + memory_bytes x = ground arith in
    let second = insert-keep y (keep x c) (omega (arith, counted, same_size)) bound in
    let once = total-put-absent memory_bytes x.chunk_id x c.entries absent in
    let there : StrMap.get x.chunk_id (StrMap.put x.chunk_id x c.entries) ≡ some x =
      get-put x.chunk_id x.chunk_id x c.entries ∙ rw ((eq_iff x.chunk_id x.chunk_id).1 refl) in
    let twice =
      total-put-same memory_bytes x.chunk_id x y (StrMap.put x.chunk_id x c.entries) there
        same_size in
    rw (first, second, same_id) (ground (arith, counted, once, twice, w.counted, same_size))

get-insert :
    (x : LoadedChunk) (c : Cache)
    → memory_bytes x ≤ c.budget
    → StrMap.get x.chunk_id (insert x c).entries ≡ some x
unfolding insert keep
get-insert x c small =
    let fits : leb (memory_bytes x) c.budget ≡ true = ground arith in
    rw fits (get-put x.chunk_id x.chunk_id x _ ∙ rw ((eq_iff x.chunk_id x.chunk_id).1 refl))

abbrev size_or_zero : Option LoadedChunk → ℕ
size_or_zero none = 0
size_or_zero (some x) = memory_bytes x

store-get :
    (id : String) (now : ℕ) (c : Cache) (got : Option (List ℕ × Bool)) (x : LoadedChunk)
    → (store id now c got).1 ≡ some x
    → memory_bytes x ≤ c.budget
    → StrMap.get id (store id now c got).0.entries ≡ some x
unfolding store
store-get id now c none x given small = cc
store-get id now c (some (raw, verified)) x given small =
    get-insert _ c (omega (arith, ap size_or_zero given)) ∙ given

after_lookup-get :
    (l : ChunkLoader) (id : String) (now later : ℕ) (c : Cache) (found : Option LoadedChunk)
    (x : LoadedChunk)
    → (after_lookup l id later (get_found now id c found)).1 ≡ some x
    → memory_bytes x ≤ c.budget
    → StrMap.get id (after_lookup l id later (get_found now id c found)).0.entries ≡ some x
unfolding after_lookup get_found
after_lookup-get l id now later c none x given small = store-get id later _ _ x given small
after_lookup-get l id now later c (some v) x given small =
    get-put id id _ c.entries ∙ rw ((eq_iff id id).1 refl) given

-- A chunk that was loaded, and that the budget can hold, is given again by the next load of its
-- id, from the cache: the same bytes with the same mark, the hit is counted, and nothing is read
-- or evicted.
pub load_chunk_again :
    (l : ChunkLoader) (id : String) (now later next after : ℕ) (c : Cache) (x : LoadedChunk)
    → (load_chunk l id now later c).1 ≡ some x
    → memory_bytes x ≤ c.budget
    → let c' = (load_chunk l id now later c).0 in
      let again = load_chunk l id next after c' in
      (again.1 ≡ some (record x { last_accessed = next }))
      × (again.0.stats.hits ≡ wrap64 (c'.stats.hits + 1))
      × (again.0.stats.evictions ≡ c'.stats.evictions)
      × (again.0.bytes ≡ c'.bytes)
unfolding load_chunk get get_found after_lookup
load_chunk_again l id now later next after c x given small =
    let there = after_lookup-get l id now later c (StrMap.get id c.entries) x given small in
    rw there (refl, refl, refl, refl)

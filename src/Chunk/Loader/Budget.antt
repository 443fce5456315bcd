-- ===== src/Chunk/Loader/Budget.antt =====
-- triAI-Engine/src/chunk/loader.rs: the cache keeps to its budget.
use carlo_one_core.Prelude.{
  ℕ, ◌+◌, ◌≤◌, ◌<◌, ◌≡◌, refl, ◌∙◌, String, Bool, Option, none, some, List, [], ◌∷◌, arith, leb,
  length, Bool-cases, inl, inr, u64_max,
}
use carlo_one_core.Prelude.StrMap
use carlo_one_core.Prelude.StrMap.{
  StrMap, IsUnique, total, get-put, get-remove, put-IsUnique, remove-IsUnique, total-put-absent,
  total-put-same, total-remove,
}
use carlo_one_core.Chunk.Loader.{
  LoadedChunk, Cache, ChunkLoader, memory_bytes, new_cache, get_found, get, make_room, keep, insert,
  clear_cache, store, after_lookup, load_chunk, load_named, load_tensor_chunk,
}
use carlo_one_core.Chunk.Loader.Calls.{Call, loads, loads_tensor, clears, perform, perform_all}
use carlo_one_core.Chunk.Loader.Room.{
  IsBudgeted, make_room-IsBudgeted, make_room_enough, absent-make_room, budget-make_room,
  room-bytes,
}

keep-IsBudgeted :
    (chunk : LoadedChunk) (c : Cache)
    → IsBudgeted c
    → StrMap.get chunk.chunk_id c.entries ≡ none
    → c.bytes + memory_bytes chunk ≤ c.budget
    → c.budget < u64_max
    → IsBudgeted (keep chunk c)
unfolding keep
keep-IsBudgeted chunk c w absent room bound = record {
  unique = put-IsUnique chunk.chunk_id chunk c.entries w.unique;
  counted =
      let added = total-put-absent memory_bytes chunk.chunk_id chunk c.entries absent in
      ground (arith, added, w.counted);
  bounded = ground arith;
}

insert-IsBudgeted :
    (chunk : LoadedChunk) (c : Cache)
    → IsBudgeted c
    → StrMap.get chunk.chunk_id c.entries ≡ none
    → c.budget < u64_max
    → IsBudgeted (insert chunk c)
unfolding insert
insert-IsBudgeted chunk c w absent bound =
    let need = memory_bytes chunk in
    let rounds = length c.entries in
    let room = make_room need rounds c in
    let same = budget-make_room need rounds c in
    let kept = make_room-IsBudgeted need rounds c w in
    elim (Bool-cases (leb need c.budget)) [
      | inr large ↦ rw large kept
      | inl small ↦ rw small (
          keep-IsBudgeted chunk room kept (absent-make_room chunk.chunk_id need rounds c absent)
            (room-bytes need room kept (make_room_enough need rounds c w (omega arith))
              (ground (arith, same)) (ground (arith, same)))
            (ground (arith, same)))
    ]

get_found-IsBudgeted :
    (now : ℕ) (id : String) (c : Cache) (found : Option LoadedChunk)
    → StrMap.get id c.entries ≡ found
    → IsBudgeted c
    → IsBudgeted (get_found now id c found).0
unfolding get_found
get_found-IsBudgeted now id c none e w = record {
  unique = w.unique;
  counted = w.counted;
  bounded = w.bounded;
}
get_found-IsBudgeted now id c (some v) e w = record {
  unique = put-IsUnique id _ c.entries w.unique;
  counted = total-put-same memory_bytes id v _ c.entries e refl ∙ w.counted;
  bounded = w.bounded;
}

store-IsBudgeted :
    (id : String) (now : ℕ) (c : Cache) (got : Option (List ℕ × Bool))
    → IsBudgeted c
    → StrMap.get id c.entries ≡ none
    → c.budget < u64_max
    → IsBudgeted (store id now c got).0
unfolding store
store-IsBudgeted id now c none w absent bound = w
store-IsBudgeted id now c (some (raw, verified)) w absent bound =
    insert-IsBudgeted _ c w absent bound

after_lookup-IsBudgeted :
    (l : ChunkLoader) (id : String) (now later : ℕ) (c : Cache) (found : Option LoadedChunk)
    → StrMap.get id c.entries ≡ found
    → IsBudgeted c
    → c.budget < u64_max
    → IsBudgeted (after_lookup l id later (get_found now id c found)).0
unfolding after_lookup get_found
after_lookup-IsBudgeted l id now later c none e w bound =
    store-IsBudgeted id later _ _ (get_found-IsBudgeted now id c none e w) e bound
after_lookup-IsBudgeted l id now later c (some v) e w bound =
    get_found-IsBudgeted now id c (some v) e w

pub load_chunk-IsBudgeted :
    (l : ChunkLoader) (id : String) (now later : ℕ) (c : Cache)
    → IsBudgeted c
    → c.budget < u64_max
    → IsBudgeted (load_chunk l id now later c).0
unfolding load_chunk get
load_chunk-IsBudgeted l id now later c w bound =
    after_lookup-IsBudgeted l id now later c (StrMap.get id c.entries) refl w bound

budget-insert : (chunk : LoadedChunk) (c : Cache) → (insert chunk c).budget ≡ c.budget
unfolding insert keep
budget-insert chunk c =
    let same = budget-make_room (memory_bytes chunk) (length c.entries) c in
    elim (Bool-cases (leb (memory_bytes chunk) c.budget)) [
      | inl small ↦ rw small same
      | inr large ↦ rw large same
    ]

budget-store :
    (id : String) (now : ℕ) (c : Cache) (got : Option (List ℕ × Bool))
    → (store id now c got).0.budget ≡ c.budget
unfolding store
budget-store id now c none = refl
budget-store id now c (some (raw, verified)) = budget-insert _ c

budget-after_lookup :
    (l : ChunkLoader) (id : String) (now later : ℕ) (c : Cache) (found : Option LoadedChunk)
    → (after_lookup l id later (get_found now id c found)).0.budget ≡ c.budget
unfolding after_lookup get_found
budget-after_lookup l id now later c (some v) = refl
budget-after_lookup l id now later c none = budget-store id later _ _

budget-load_chunk :
    (l : ChunkLoader) (id : String) (now later : ℕ) (c : Cache)
    → (load_chunk l id now later c).0.budget ≡ c.budget
unfolding load_chunk get
budget-load_chunk l id now later c = budget-after_lookup l id now later c (StrMap.get id c.entries)

-- Both at once: the budget stays, and the cache keeps to it.
abbrev Keeps : Cache → Cache → Type 0
Keeps c a = IsBudgeted a × (a.budget ≡ c.budget)

load_named-Keeps :
    (l : ChunkLoader) (now later : ℕ) (c : Cache) (id : Option String)
    → IsBudgeted c
    → c.budget < u64_max
    → Keeps c (load_named l now later c id).0
unfolding load_named
load_named-Keeps l now later c none w bound = (w, refl)
load_named-Keeps l now later c (some id) w bound =
    (load_chunk-IsBudgeted l id now later c w bound, budget-load_chunk l id now later c)

perform-Keeps :
    (l : ChunkLoader) (c : Cache) (call : Call)
    → IsBudgeted c
    → c.budget < u64_max
    → Keeps c (perform l c call)
unfolding perform load_tensor_chunk clear_cache total
perform-Keeps l c (loads id now later) w bound =
    (load_chunk-IsBudgeted l id now later c w bound, budget-load_chunk l id now later c)
perform-Keeps l c (loads_tensor name now later) w bound = load_named-Keeps l now later c _ w bound
perform-Keeps l c clears w bound =
    (record { unique = tt; counted = refl; bounded = omega arith }, refl)

perform_all-Keeps :
    (l : ChunkLoader) (c : Cache) (calls : List Call)
    → IsBudgeted c
    → c.budget < u64_max
    → Keeps c (perform_all l c calls)
unfolding perform_all
perform_all-Keeps l c [] w bound = (w, refl)
perform_all-Keeps l c (call ∷ calls) w bound =
    let step = perform-Keeps l c call w bound in
    let rest = perform_all-Keeps l (perform l c call) calls step.0 (omega (arith, step.1)) in
    (rest.0, rest.1 ∙ step.1)

-- With a budget below 2^64 - 1, whatever chunks and tensors are loaded and whenever the cache is
-- cleared, from a new cache on and one call after the other: no chunk is in the cache twice, the
-- count of bytes is the size of the chunks that are there, and it is within the budget.
pub perform_all-IsBudgeted :
    (l : ChunkLoader) (calls : List Call)
    → l.config.cache_budget_bytes < u64_max
    → IsBudgeted (perform_all l (new_cache l.config) calls)
unfolding new_cache total
perform_all-IsBudgeted l calls bound =
    (perform_all-Keeps l (new_cache l.config) calls
      (record { unique = tt; counted = refl; bounded = omega arith }) bound).0

-- ===== src/Chunk/Loader/Integrity.antt =====
-- triAI-Engine/src/chunk/loader.rs: chunks that are said to be verified.
use carlo_one_core.Prelude.{
  ℕ, zero, suc, ◌≡◌, refl, subst, String, Bool, true, ◌&&◌, not, Option, none, some, List, [], ◌∷◌,
  leb, length, str_eq, eq_iff, Bool-cases, inl, inr,
}
use carlo_one_core.Prelude.StrMap
use carlo_one_core.Prelude.StrMap.{StrMap, get-put, get-remove}
use carlo_one_core.Chunk.{ChunkDescriptor}
use carlo_one_core.Chunk.Packer.Archive.{matches}
use carlo_one_core.Chunk.Loader.{
  LoadedChunk, Cache, ChunkLoader, memory_bytes, new_cache, get_found, get, oldest, evict_oldest,
  evict_from, evict_one, is_over, is_empty, make_room, keep, insert, clear_cache, store,
  after_lookup, load_chunk, load_named, load_tensor_chunk, fetch, find_chunk, checked, load_primary,
  fallback_checked, fallback_of, primary_or_fallback,
}
use carlo_one_core.Chunk.Loader.Calls.{Call, loads, loads_tensor, clears, perform, perform_all}

-- If the bytes are said to be verified, they have the length and the digest that the manifest
-- keeps for the id.
abbrev pub IsAuthentic : ChunkLoader → String → List ℕ → Bool → Type 0
IsAuthentic l id raw verified =
    verified ≡ true
    → (desc : ChunkDescriptor) × (find_chunk id l.manifest.chunks ≡ some desc)
      × (matches l.codec desc raw ≡ true)

module _ (l : ChunkLoader) where
  abbrev pub AuthenticIfThere : String → Option LoadedChunk → Type 0
  AuthenticIfThere id none = Unit
  AuthenticIfThere id (some x) = IsAuthentic l id x.data_bytes x.verified

  -- Every chunk in the cache is authentic under its id.
  abbrev pub HoldsAuthentic : StrMap LoadedChunk → Type 0
  HoldsAuthentic m = (id : String) → AuthenticIfThere id (StrMap.get id m)

  abbrev pub GivesAuthentic : String → Option (List ℕ × Bool) → Type 0
  GivesAuthentic id none = Unit
  GivesAuthentic id (some (raw, verified)) = IsAuthentic l id raw verified

  fallback_checked-GivesAuthentic :
      (id : String) (desc : ChunkDescriptor) (raw : Option (List ℕ))
      → find_chunk id l.manifest.chunks ≡ some desc
      → GivesAuthentic id (fallback_checked l desc raw)
  unfolding fallback_checked
  fallback_checked-GivesAuthentic id desc none found = tt
  fallback_checked-GivesAuthentic id desc (some raw) found =
      elim (Bool-cases (matches l.codec desc raw)) [
        | inl good ↦ rw good (λ _. (desc, found, good))
        | inr bad ↦ rw bad tt
      ]

  fallback_of-GivesAuthentic :
      (id : String) (desc : ChunkDescriptor) (file : Option (List ℕ))
      → find_chunk id l.manifest.chunks ≡ some desc
      → GivesAuthentic id (fallback_of l desc file)
  unfolding fallback_of
  fallback_of-GivesAuthentic id desc none found = tt
  fallback_of-GivesAuthentic id desc (some file) found =
      fallback_checked-GivesAuthentic id desc _ found

  primary-GivesAuthentic :
      (id : String) (desc : ChunkDescriptor) (raw : Option (List ℕ))
      → find_chunk id l.manifest.chunks ≡ some desc
      → GivesAuthentic id (primary_or_fallback l desc (checked l desc raw))
  unfolding primary_or_fallback checked
  primary-GivesAuthentic id desc none found = fallback_of-GivesAuthentic id desc l.fallback found
  primary-GivesAuthentic id desc (some raw) found = elim (Bool-cases l.config.verify_on_load) [
    | inr trusting ↦ rw trusting (λ e. cc)
    | inl strict ↦ elim (Bool-cases (matches l.codec desc raw)) [
      | inl good ↦ rw (strict, good) (λ _. (desc, found, good))
      | inr bad ↦ rw (strict, bad) (fallback_of-GivesAuthentic id desc l.fallback found)
    ]
  ]

  fetch-GivesAuthentic :
      (id : String) (desc : Option ChunkDescriptor)
      → find_chunk id l.manifest.chunks ≡ desc
      → GivesAuthentic id (fetch l desc)
  unfolding fetch load_primary
  fetch-GivesAuthentic id none found = tt
  fetch-GivesAuthentic id (some desc) found = primary-GivesAuthentic id desc _ found

  put-HoldsAuthentic :
      (k : String) (x : LoadedChunk) (m : StrMap LoadedChunk)
      → HoldsAuthentic m
      → IsAuthentic l k x.data_bytes x.verified
      → HoldsAuthentic (StrMap.put k x m)
  put-HoldsAuthentic k x m h good id = elim (Bool-cases (str_eq k id)) [
    | inl same ↦
        rw (get-put k id x m, same)
          (subst (λ j. IsAuthentic l j x.data_bytes x.verified) ((eq_iff k id).0 same) good)
    | inr other ↦ rw (get-put k id x m, other) (h id)
  ]

  remove-HoldsAuthentic :
      (k : String) (m : StrMap LoadedChunk) → HoldsAuthentic m → HoldsAuthentic (StrMap.remove k m)
  remove-HoldsAuthentic k m h id = elim (Bool-cases (str_eq k id)) [
    | inl same ↦ rw (get-remove k id m, same) tt
    | inr other ↦ rw (get-remove k id m, other) (h id)
  ]

  evict_from-HoldsAuthentic :
      (c : Cache) (m : StrMap LoadedChunk)
      → HoldsAuthentic c.entries
      → HoldsAuthentic (evict_from c m).entries
  unfolding evict_from evict_oldest
  evict_from-HoldsAuthentic c [] h = h
  evict_from-HoldsAuthentic c ((k, v) ∷ m) h = remove-HoldsAuthentic (oldest k v m).0 c.entries h

  make_room-HoldsAuthentic :
      (need rounds : ℕ) (c : Cache)
      → HoldsAuthentic c.entries
      → HoldsAuthentic (make_room need rounds c).entries
  unfolding make_room evict_one
  make_room-HoldsAuthentic need zero c h = h
  make_room-HoldsAuthentic need (suc rounds) c h =
      elim (Bool-cases (is_over need c && not (is_empty c))) [
        | inl over ↦ rw over (
            make_room-HoldsAuthentic need rounds (evict_one c)
              (evict_from-HoldsAuthentic c c.entries h))
        | inr fits ↦ rw fits h
      ]

  insert-HoldsAuthentic :
      (x : LoadedChunk) (c : Cache)
      → HoldsAuthentic c.entries
      → IsAuthentic l x.chunk_id x.data_bytes x.verified
      → HoldsAuthentic (insert x c).entries
  unfolding insert keep
  insert-HoldsAuthentic x c h good =
      let room = make_room-HoldsAuthentic (memory_bytes x) (length c.entries) c h in
      elim (Bool-cases (leb (memory_bytes x) c.budget)) [
        | inl small ↦ rw small (put-HoldsAuthentic x.chunk_id x _ room good)
        | inr large ↦ rw large room
      ]

  -- The cache and what is given, both authentic.
  abbrev pub BothAuthentic : String → Cache × Option LoadedChunk → Type 0
  BothAuthentic id r = HoldsAuthentic r.0.entries × AuthenticIfThere id r.1

  store-BothAuthentic :
      (id : String) (now : ℕ) (c : Cache) (got : Option (List ℕ × Bool))
      → HoldsAuthentic c.entries
      → GivesAuthentic id got
      → BothAuthentic id (store id now c got)
  unfolding store
  store-BothAuthentic id now c none h good = (h, tt)
  store-BothAuthentic id now c (some (raw, verified)) h good =
      (insert-HoldsAuthentic _ c h good, good)

  after_lookup-BothAuthentic :
      (id : String) (now later : ℕ) (c : Cache) (found : Option LoadedChunk)
      → AuthenticIfThere id found
      → HoldsAuthentic c.entries
      → BothAuthentic id (after_lookup l id later (get_found now id c found))
  unfolding after_lookup get_found
  after_lookup-BothAuthentic id now later c none good h =
      store-BothAuthentic id later _ _ h (fetch-GivesAuthentic id _ refl)
  after_lookup-BothAuthentic id now later c (some v) good h =
      (put-HoldsAuthentic id _ c.entries h good, good)

  load_chunk-BothAuthentic :
      (id : String) (now later : ℕ) (c : Cache)
      → HoldsAuthentic c.entries
      → BothAuthentic id (load_chunk l id now later c)
  unfolding load_chunk get
  load_chunk-BothAuthentic id now later c h =
      after_lookup-BothAuthentic id now later c (StrMap.get id c.entries) (h id) h

  load_named-HoldsAuthentic :
      (now later : ℕ) (c : Cache) (id : Option String)
      → HoldsAuthentic c.entries
      → HoldsAuthentic (load_named l now later c id).0.entries
  unfolding load_named
  load_named-HoldsAuthentic now later c none h = h
  load_named-HoldsAuthentic now later c (some id) h = (load_chunk-BothAuthentic id now later c h).0

  perform-HoldsAuthentic :
      (c : Cache) (call : Call)
      → HoldsAuthentic c.entries
      → HoldsAuthentic (perform l c call).entries
  unfolding perform load_tensor_chunk clear_cache StrMap.get
  perform-HoldsAuthentic c (loads id now later) h = (load_chunk-BothAuthentic id now later c h).0
  perform-HoldsAuthentic c (loads_tensor name now later) h =
      load_named-HoldsAuthentic now later c _ h
  perform-HoldsAuthentic c clears h = λ id. tt

  perform_all-HoldsAuthentic :
      (c : Cache) (calls : List Call)
      → HoldsAuthentic c.entries
      → HoldsAuthentic (perform_all l c calls).entries
  unfolding perform_all
  perform_all-HoldsAuthentic c [] h = h
  perform_all-HoldsAuthentic c (call ∷ calls) h =
      perform_all-HoldsAuthentic (perform l c call) calls (perform-HoldsAuthentic c call h)

  -- After any calls, from a new cache on: when a chunk that is loaded is said to be verified, its
  -- bytes have the length and the digest that the manifest keeps for its id, whether they came
  -- from the cache, from the archive or from the original file, and however the archive's files
  -- are damaged.
  pub load_chunk-AuthenticIfThere :
      (calls : List Call) (id : String) (now later : ℕ)
      → AuthenticIfThere id (load_chunk l id now later (perform_all l (new_cache l.config) calls)).1
  load_chunk-AuthenticIfThere calls id now later =
      (load_chunk-BothAuthentic id now later _ (
        perform_all-HoldsAuthentic (new_cache l.config) calls
          (λ k. unfold new_cache StrMap.get in tt))).1

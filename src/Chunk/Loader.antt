-- ===== src/Chunk/Loader.antt =====
-- triAI-Engine/src/chunk/loader.rs: chunks by their id, from a cache with a budget, the archive or
-- the original file. The cache is passed along, as the mutex guards it; an `Instant` is a number.
-- `none` is any error; the mutex is never poisoned.
pub mod Calls
pub mod Room
pub mod Again
pub mod Budget
pub mod Integrity
use carlo_one_core.Prelude.{
  ℕ, zero, suc, ◌+◌, ◌-◌, ◌*◌, ◌≤◌, String, Bool, true, false, ◌&&◌, ◌||◌, not, Option, none, some,
  List, [], ◌∷◌, ◌++◌, leb, ltb, ◌==◌, if◌then◌else◌, length, Text, bytes_eq, str_eq, sat_add,
  wrap64, wrap32,
}
use carlo_one_core.Prelude.StrMap
use carlo_one_core.Prelude.StrMap.{StrMap}
use carlo_one_core.Chunk.{TensorEntry, TensorIndex, ChunkDescriptor, ChunkManifest, find_tensor}
use carlo_one_core.Chunk.Rollback.{reconstruct_chunk}
use carlo_one_core.Chunk.Packer.Archive.{Codec, unpack, matches}

pub record LoadedChunk : Type 0 where
  pub chunk_id : String
  pub data_bytes : List ℕ
  pub verified : Bool
  pub last_accessed : ℕ

abbrev pub memory_bytes : LoadedChunk → ℕ
memory_bytes c = length c.data_bytes

pub record LoaderConfig : Type 0 where
  pub cache_budget_bytes : ℕ
  pub verify_on_load : Bool

abbrev pub default_config : LoaderConfig
default_config = record { cache_budget_bytes = 512 * 1024 * 1024; verify_on_load = true }

pub record CacheStats : Type 0 where
  pub hits : ℕ
  pub misses : ℕ
  pub evictions : ℕ
  pub loaded_bytes : ℕ
  pub cached_chunks : ℕ

pub record Cache : Type 0 where
  pub entries : StrMap LoadedChunk
  pub bytes : ℕ
  pub stats : CacheStats
  pub budget : ℕ

unfoldable pub new_cache : LoaderConfig → Cache
new_cache config = record {
  entries = [];
  bytes = 0;
  stats = record { hits = 0; misses = 0; evictions = 0; loaded_bytes = 0; cached_chunks = 0 };
  budget = config.cache_budget_bytes;
}

get_found : ℕ → String → Cache → Option LoadedChunk → Cache × Option LoadedChunk
get_found now id c none =
    (record c { stats = record c.stats { misses = wrap64 (c.stats.misses + 1) } }, none)
get_found now id c (some v) =
    let touched : LoadedChunk = record v { last_accessed = now } in
    (
      record c {
        entries = StrMap.put id touched c.entries;
        stats = record c.stats { hits = wrap64 (c.stats.hits + 1) };
      },
      some touched,
    )

unfoldable pub get : ℕ → String → Cache → Cache × Option LoadedChunk
unfolding get_found
get now id c = get_found now id c (StrMap.get id c.entries)

-- min_by_key on the time of the last access: the first of the least.
unfoldable pub oldest : String → LoadedChunk → StrMap LoadedChunk → String × LoadedChunk
oldest k v [] = (k, v)
oldest k v ((j, w) ∷ m) = if ltb w.last_accessed v.last_accessed then oldest j w m else oldest k v m

evict_oldest : Cache → String × LoadedChunk → Cache
evict_oldest c (key, old) = record c {
  entries = StrMap.remove key c.entries;
  bytes = c.bytes - memory_bytes old;
  stats = record c.stats { evictions = wrap64 (c.stats.evictions + 1) };
}

evict_from : Cache → StrMap LoadedChunk → Cache
unfolding evict_oldest
evict_from c [] = c
evict_from c ((k, v) ∷ m) = evict_oldest c (oldest k v m)

-- One round of the loop, which runs on a cache with an entry.
unfoldable pub evict_one : Cache → Cache
unfolding evict_from
evict_one c = evict_from c c.entries

abbrev pub is_over : ℕ → Cache → Bool
is_over need c = ltb c.budget (sat_add c.bytes need)

abbrev pub is_empty : Cache → Bool
is_empty c = elim c.entries [ [] ↦ true | _ ∷ _ ↦ false ]

-- The loop, on as many rounds as are given: one for each entry is enough.
unfoldable pub make_room : ℕ → ℕ → Cache → Cache
make_room need zero c = c
make_room need (suc rounds) c =
    let rest = make_room need rounds (evict_one c) in
    if is_over need c && not (is_empty c) then rest else c

keep : LoadedChunk → Cache → Cache
keep chunk c =
    let entries = StrMap.put chunk.chunk_id chunk c.entries in
    record c {
      bytes = wrap64 (c.bytes + memory_bytes chunk);
      entries = entries;
      stats = record c.stats {
        loaded_bytes = wrap64 (c.stats.loaded_bytes + memory_bytes chunk);
        cached_chunks = wrap32 (length entries);
      };
    }

unfoldable pub insert : LoadedChunk → Cache → Cache
unfolding keep
insert chunk c =
    let room = make_room (memory_bytes chunk) (length c.entries) c in
    if leb (memory_bytes chunk) c.budget then keep chunk room else room

unfoldable pub clear_cache : Cache → Cache
clear_cache c = record c { entries = []; bytes = 0; stats = record c.stats { cached_chunks = 0 } }

-- A loader: its archive as the files below `chunks`, and the original file if it was opened.
pub record ChunkLoader : Type 0 where
  pub codec : Codec
  pub files : StrMap (List ℕ)
  pub manifest : ChunkManifest
  pub index : TensorIndex
  pub config : LoaderConfig
  pub fallback : Option (List ℕ)

-- iter().find on the id.
unfoldable pub find_chunk : String → List ChunkDescriptor → Option ChunkDescriptor
find_chunk id [] = none
find_chunk id (c ∷ cs) = if str_eq c.chunk_id id then some c else find_chunk id cs

checked : ChunkLoader → ChunkDescriptor → Option (List ℕ) → Option (List ℕ)
checked l desc none = none
checked l desc (some raw) =
    if l.config.verify_on_load && not (matches l.codec desc raw) then none else some raw

unpacked : ChunkLoader → ChunkDescriptor → Option (List ℕ) → Option (List ℕ)
unpacked l desc none = none
unpacked l desc (some packed) = unpack l.codec desc packed

unfoldable pub load_primary : ChunkLoader → ChunkDescriptor → Option (List ℕ)
unfolding checked unpacked
load_primary l desc = checked l desc (unpacked l desc (StrMap.get desc.chunk_id l.files))

fallback_checked : ChunkLoader → ChunkDescriptor → Option (List ℕ) → Option (List ℕ × Bool)
fallback_checked l desc none = none
fallback_checked l desc (some raw) = if matches l.codec desc raw then some (raw, true) else none

fallback_of : ChunkLoader → ChunkDescriptor → Option (List ℕ) → Option (List ℕ × Bool)
unfolding fallback_checked
fallback_of l desc none = none
fallback_of l desc (some file) =
    fallback_checked l desc (reconstruct_chunk file l.index desc.tensor_names)

primary_or_fallback : ChunkLoader → ChunkDescriptor → Option (List ℕ) → Option (List ℕ × Bool)
unfolding fallback_of
primary_or_fallback l desc (some raw) = some (raw, l.config.verify_on_load)
primary_or_fallback l desc none = fallback_of l desc l.fallback

-- The bytes of a chunk, and whether they were verified.
unfoldable pub fetch : ChunkLoader → Option ChunkDescriptor → Option (List ℕ × Bool)
unfolding primary_or_fallback
fetch l none = none
fetch l (some desc) = primary_or_fallback l desc (load_primary l desc)

store : String → ℕ → Cache → Option (List ℕ × Bool) → Cache × Option LoadedChunk
store id now c none = (c, none)
store id now c (some (raw, verified)) =
    let chunk : LoadedChunk = record {
      chunk_id = id;
      data_bytes = raw;
      verified = verified;
      last_accessed = now;
    } in
    (insert chunk c, some chunk)

after_lookup : ChunkLoader → String → ℕ → Cache × Option LoadedChunk → Cache × Option LoadedChunk
unfolding store
after_lookup l id now (c, some chunk) = (c, some chunk)
after_lookup l id now (c, none) = store id now c (fetch l (find_chunk id l.manifest.chunks))

-- `now` and `later` are the instants that the two calls of the clock give.
unfoldable pub load_chunk : ChunkLoader → String → ℕ → ℕ → Cache → Cache × Option LoadedChunk
unfolding after_lookup
load_chunk l id now later c = after_lookup l id later (get now id c)

chunk_id_of : Option TensorEntry → Option String
chunk_id_of none = none
chunk_id_of (some entry) = entry.chunk_id

load_named : ChunkLoader → ℕ → ℕ → Cache → Option String → Cache × Option LoadedChunk
load_named l now later c none = (c, none)
load_named l now later c (some id) = load_chunk l id now later c

unfoldable pub load_tensor_chunk : ChunkLoader → Text → ℕ → ℕ → Cache → Cache × Option LoadedChunk
unfolding chunk_id_of load_named
load_tensor_chunk l name now later c =
    load_named l now later c (chunk_id_of (find_tensor name l.index.tensors))

-- ===== src/Kernel.antt =====
-- triAI-Engine/src/kernel_worker.rs: pages in video and main memory. Every call takes the instants
-- of the clock, and no mutex is poisoned. A set of keys is a list. `evict_cold_entries`,
-- `record_access`, `pin_chunk` and `unpin_chunk` hold the locks on the pages all through and are one
-- step. `evict_to_ram` and `load_to_vram` let go of them in between: the functions of these names
-- are the calls that no other thread comes between, and their parts are functions of their own, from
-- which Kernel/Pinning/Stays builds what threads do between one another. The thread that watches
-- the GPU calls `evict_cold_entries`.
pub mod Experts
pub mod Pinning
pub mod Tiers
mod Tests
use carlo_one_core.Prelude.{
  ℕ, ◌+◌, ◌-◌, ◌*◌, String, Bool, true, false, ◌&&◌, ◌||◌, not, Option, none, some, List, [], ◌∷◌,
  ◌++◌, leb, ltb, ◌==◌, if◌then◌else◌, str_eq, wrap32, wrap64, joined, decimal,
}
use carlo_one_core.Prelude.StrMap
use carlo_one_core.Prelude.StrMap.{StrMap}

pub record PageKey : Type 0 where
  pub chunk_id : String
  pub tensor_name : String

pub record VramPage : Type 0 where
  pub key : PageKey
  pub size_bytes : ℕ
  pub loaded_at : ℕ
  pub last_accessed : ℕ
  pub access_count : ℕ
  pub is_hot : Bool
  pub pin_count : ℕ

pub record RamPage : Type 0 where
  pub key : PageKey
  pub size_bytes : ℕ
  pub evicted_at : ℕ

pub data MemoryTier : Type 0 where
  vram ram disk : MemoryTier

pub data MemoryEventReason : Type 0 where
  load evict prefetch expert_routing pressure_eviction pin unpin : MemoryEventReason

pub record MemoryEvent : Type 0 where
  pub tier_from : MemoryTier
  pub tier_to : MemoryTier
  pub key : PageKey
  pub size_bytes : ℕ
  pub timestamp : ℕ
  pub reason : MemoryEventReason

pub record KernelWorker : Type 0 where
  pub vram_pages : StrMap VramPage
  pub ram_pages : StrMap RamPage
  pub events : List MemoryEvent
  pub hot_keys : List String
  pub cold_keys : List String
  pub pinned_keys : List String
  pub vram_budget_bytes : ℕ

unfoldable pub new : ℕ → KernelWorker
new vram_budget_mb = record {
  vram_pages = [];
  ram_pages = [];
  events = [];
  hot_keys = [];
  cold_keys = [];
  pinned_keys = [];
  vram_budget_bytes = wrap64 (vram_budget_mb * 1024 * 1024);
}

unfoldable pub has : String → List String → Bool
has k [] = false
has k (j ∷ js) = str_eq j k || has k js

unfoldable pub with_key : String → List String → List String
with_key k ks = if has k ks then ks else k ∷ ks

unfoldable pub without_key : String → List String → List String
without_key k [] = []
without_key k (j ∷ js) = let rest = without_key k js in if str_eq j k then rest else j ∷ rest

abbrev pub is_there {ℓ} : {A : Type ℓ} → Option A → Bool
is_there none = false
is_there (some _) = true

-- The page in main memory that an evicted page becomes.
abbrev pub in_ram : ℕ → VramPage → RamPage
in_ram now page = record { key = page.key; size_bytes = page.size_bytes; evicted_at = now }

-- The keys of the pages that are neither pinned nor hot, in the order of the map.
unfoldable pub cold_entries : List String → StrMap VramPage → List String
cold_entries pinned [] = []
cold_entries pinned ((k, p) ∷ m) =
    let rest = cold_entries pinned m in
    if not (has k pinned) && not p.is_hot then k ∷ rest else rest

moved : ℕ → String → KernelWorker → Option VramPage → KernelWorker
moved now key w none = w
moved now key w (some page) = record w {
  vram_pages = StrMap.remove key w.vram_pages;
  ram_pages = StrMap.put key (in_ram now page) w.ram_pages;
}

unfoldable pub move_to_ram : ℕ → String → KernelWorker → KernelWorker
unfolding moved
move_to_ram now key w = moved now key w (StrMap.get key w.vram_pages)

unfoldable pub move_all : ℕ → List String → KernelWorker → KernelWorker
move_all now [] w = w
move_all now (k ∷ ks) w = move_all now ks (move_to_ram now k w)

unfoldable pub evict_cold_entries : ℕ → KernelWorker → KernelWorker
evict_cold_entries now w = move_all now (cold_entries w.pinned_keys w.vram_pages) w

accessed : ℕ → VramPage → VramPage
accessed now p =
    let count = wrap64 (p.access_count + 1) in
    record p { access_count = count; last_accessed = now; is_hot = ltb 3 count }

pub recorded : ℕ → String → KernelWorker → Option VramPage → KernelWorker
unfolding accessed
recorded now key w none = w
recorded now key w (some p) = record w { vram_pages = StrMap.put key (accessed now p) w.vram_pages }

unfoldable pub record_access : ℕ → String → KernelWorker → KernelWorker
unfolding recorded
record_access now key w = recorded now key w (StrMap.get key w.vram_pages)

unfoldable pub vram_bytes : KernelWorker → ℕ
vram_bytes w = StrMap.total (λ (p : VramPage). p.size_bytes) w.vram_pages

unfoldable pub inserted : ℕ → PageKey → ℕ → KernelWorker → KernelWorker
inserted now key size w = record w {
  vram_pages =
      StrMap.put key.chunk_id
        (record {
          key = key;
          size_bytes = size;
          loaded_at = now;
          last_accessed = now;
          access_count = 1;
          is_hot = false;
          pin_count = 0;
        })
        w.vram_pages;
  events =
      w.events
      ++ record {
        tier_from = disk;
        tier_to = vram;
        key = key;
        size_bytes = size;
        timestamp = now;
        reason = load;
      }
        ∷ [];
}

-- The sums of the source are `u64`; a release build wraps. The locks are let go before
-- `evict_cold_entries` and after it; here no other thread comes between.
unfoldable pub load_to_vram : ℕ → PageKey → ℕ → KernelWorker → KernelWorker
unfolding inserted
load_to_vram now key size w =
    if is_there (StrMap.get key.chunk_id w.vram_pages)
    then record_access now key.chunk_id w
    else if ltb w.vram_budget_bytes (wrap64 (wrap64 (vram_bytes w) + size))
    then inserted now key size (evict_cold_entries now w)
    else inserted now key size w

with_evict_event : ℕ → Option VramPage → KernelWorker → KernelWorker
with_evict_event now none w = w
with_evict_event now (some page) w = record w {
  events =
      w.events
      ++ record {
        tier_from = vram;
        tier_to = ram;
        key = page.key;
        size_bytes = page.size_bytes;
        timestamp = now;
        reason = evict;
      }
        ∷ [];
}

-- `evict_to_ram` up to where it lets go of the lock on the pinned keys: whether it goes on.
unfoldable pub may_evict : String → KernelWorker → Bool
may_evict chunk_id w = not (has chunk_id w.pinned_keys)

-- `evict_to_ram` from where it takes the locks on the pages.
unfoldable pub evicted : ℕ → String → KernelWorker → KernelWorker
unfolding with_evict_event
evicted now chunk_id w =
    with_evict_event now (StrMap.get chunk_id w.vram_pages) (move_to_ram now chunk_id w)

-- Both parts, with no other thread between them.
unfoldable pub evict_to_ram : ℕ → String → KernelWorker → KernelWorker
evict_to_ram now chunk_id w = if may_evict chunk_id w then evicted now chunk_id w else w

pub pinned : String → KernelWorker → Option VramPage → KernelWorker
pinned chunk_id w none = w
pinned chunk_id w (some p) = record w {
  vram_pages = StrMap.put chunk_id (record p { pin_count = wrap32 (p.pin_count + 1) }) w.vram_pages;
  pinned_keys = with_key chunk_id w.pinned_keys;
}

unfoldable pub pin_chunk : String → KernelWorker → KernelWorker
unfolding pinned
pin_chunk chunk_id w = pinned chunk_id w (StrMap.get chunk_id w.vram_pages)

pub unpinned : String → KernelWorker → Option VramPage → KernelWorker
unpinned chunk_id w none = w
unpinned chunk_id w (some p) =
    let count = p.pin_count - 1 in
    record w {
      vram_pages = StrMap.put chunk_id (record p { pin_count = count }) w.vram_pages;
      pinned_keys = if count == 0 then without_key chunk_id w.pinned_keys else w.pinned_keys;
    }

unfoldable pub unpin_chunk : String → KernelWorker → KernelWorker
unfolding unpinned
unpin_chunk chunk_id w = unpinned chunk_id w (StrMap.get chunk_id w.vram_pages)

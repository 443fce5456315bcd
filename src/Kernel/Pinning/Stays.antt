-- ===== src/Kernel/Pinning/Stays.antt =====
-- triAI-Engine/src/kernel_worker.rs: a pinned chunk stays in video memory.
use carlo_one_core.Prelude.{
  ◌≡◌, refl, ap, String, true, Option, none, some, List, [], ◌∷◌, arith, str_eq, false, Bool-cases,
  inl, inr, eq_iff,
}
use carlo_one_core.Prelude.StrMap
use carlo_one_core.Prelude.StrMap.{StrMap, get-put, get-remove}
use carlo_one_core.Kernel.{
  KernelWorker, VramPage, has, with_key, is_there, record_access, may_evict, pinned, pin_chunk,
  unpin_chunk,
}
use carlo_one_core.Kernel.Experts.{sync_expert_events}
use carlo_one_core.Kernel.Pinning.{
  IsHeld, is_there-put, load_to_vram-IsHeld, evict_cold_entries-IsHeld, recorded-IsHeld,
  evict_to_ram-IsHeld, evicted-IsHeld, inserted-IsHeld, apart_of_has, pinned-IsHeld,
  unpinned-IsHeld, prefetch_experts-IsHeld, classify_experts-IsHeld,
}
use carlo_one_core.Kernel.Pinning.Steps.{
  Call, loads, evicts, evicts_cold, accesses, pins, unpins, syncs, perform, Step, calls, checks,
  removes, inserts, Running, without_one, step, step_all, spares, AllSpare,
}

perform-IsHeld :
    (k : String) (w : KernelWorker) (c : Call)
    → spares k (calls c) ≡ true
    → IsHeld k w
    → IsHeld k (perform w c)
unfolding perform record_access pin_chunk unpin_chunk sync_expert_events
perform-IsHeld k w (loads now key size) spared held = load_to_vram-IsHeld now key size k w held
perform-IsHeld k w (evicts now j) spared held = evict_to_ram-IsHeld now j k w held
perform-IsHeld k w (evicts_cold now) spared held = evict_cold_entries-IsHeld now k w held
perform-IsHeld k w (accesses now j) spared held =
    recorded-IsHeld now j k w (StrMap.get j w.vram_pages) held
perform-IsHeld k w (pins j) spared held = pinned-IsHeld j k w (StrMap.get j w.vram_pages) held
perform-IsHeld k w (unpins j) spared held =
    unpinned-IsHeld j k w (StrMap.get j w.vram_pages) (ground arith) held
perform-IsHeld k w (syncs now events) spared held =
    prefetch_experts-IsHeld now events k _ (classify_experts-IsHeld events k w held)

-- The chunk is held, and no eviction of it is under way.
abbrev IsSafe : String → Running → Type 0
IsSafe k r = IsHeld k r.worker × (has k r.passed ≡ false)

has-without_one :
    (j k : String) (ks : List String) → has k ks ≡ false → has k (without_one j ks) ≡ false
unfolding without_one has
has-without_one j k [] absent = refl
has-without_one j k (i ∷ ks) absent = ground (arith, has-without_one j k ks)

step-IsSafe :
    (k : String) (r : Running) (s : Step) → spares k s ≡ true → IsSafe k r → IsSafe k (step r s)
unfolding step may_evict has
step-IsSafe k r (calls c) spared (held, none_passed) =
    (perform-IsHeld k r.worker c spared held, none_passed)
step-IsSafe k r (inserts now key size) spared (held, none_passed) =
    (inserted-IsHeld now key size k r.worker held, none_passed)
step-IsSafe k r (checks j) spared (held, none_passed) =
    elim (Bool-cases (has j r.worker.pinned_keys)) [
      | inl kept ↦ rw kept (held, none_passed)
      | inr loose ↦
          let apart = apart_of_has j k r.worker.pinned_keys loose held.0 in
          rw loose (held, rw (has, apart) none_passed)
    ]
step-IsSafe k r (removes now j) spared (held, none_passed) = elim (Bool-cases (has j r.passed)) [
  | inr idle ↦ rw idle (held, none_passed)
  | inl passed ↦
      let apart : str_eq j k ≡ false = elim (Bool-cases (str_eq j k)) [
        | inl same ↦ cc (ap (λ i. has i r.passed) ((eq_iff j k).0 same))
        | inr other ↦ other
      ] in
      rw passed
        (evicted-IsHeld now j k r.worker apart held, has-without_one j k r.passed none_passed)
]

step_all-IsHeld :
    (k : String) (r : Running) (ss : List Step)
    → AllSpare k ss
    → IsSafe k r
    → IsHeld k (step_all r ss).worker
unfolding step_all
step_all-IsHeld k r [] spared safe = safe.0
step_all-IsHeld k r (s ∷ ss) spared safe =
    step_all-IsHeld k (step r s) ss spared.1 (step-IsSafe k r s spared.0 safe)

has-with_key_same : (k : String) (ks : List String) → has k (with_key k ks) ≡ true
unfolding with_key has
has-with_key_same k ks = ground (arith, eq_iff k k)

pinned_first-IsHeld :
    (k : String) (w : KernelWorker) (found : Option VramPage)
    → StrMap.get k w.vram_pages ≡ found
    → is_there found ≡ true
    → IsHeld k (pinned k w found)
unfolding pinned
pinned_first-IsHeld k w none e there = cc
pinned_first-IsHeld k w (some p) e there =
    (has-with_key_same k w.pinned_keys, is_there-put k k _ w.vram_pages (ap is_there e))

pub pin_chunk-IsHeld :
    (k : String) (w : KernelWorker)
    → is_there (StrMap.get k w.vram_pages) ≡ true
    → IsHeld k (pin_chunk k w)
unfolding pin_chunk
pin_chunk-IsHeld k w there = pinned_first-IsHeld k w (StrMap.get k w.vram_pages) refl there

-- A chunk that is in video memory, and of which no eviction has passed its check, stays there and
-- pinned once it is pinned, through any steps of any threads that do not unpin it: loads that
-- evict, evictions of it or of others with steps of other threads between their two parts,
-- accesses, other pins and unpins, and the prefetching of experts.
pub pin_chunk_stays :
    (k : String) (r : Running) (ss : List Step)
    → is_there (StrMap.get k r.worker.vram_pages) ≡ true
    → has k r.passed ≡ false
    → AllSpare k ss
    → IsHeld k (step_all (step r (calls (pins k))) ss).worker
unfolding step perform
pin_chunk_stays k r ss there none_passed spared =
    step_all-IsHeld k (step r (calls (pins k))) ss spared
      (pin_chunk-IsHeld k r.worker there, none_passed)

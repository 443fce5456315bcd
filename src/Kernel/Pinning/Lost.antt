-- ===== src/Kernel/Pinning/Lost.antt =====
-- triAI-Engine/src/kernel_worker.rs: a pinned chunk that an eviction under way removes.
use carlo_one_core.Prelude.{
  ℕ, ◌≡◌, refl, ap, String, true, Option, none, some, [], ◌∷◌, false, ◌∙◌, eq_iff,
}
use carlo_one_core.Prelude.StrMap
use carlo_one_core.Prelude.StrMap.{StrMap, get-put, get-remove}
use carlo_one_core.Kernel.{
  KernelWorker, VramPage, has, is_there, with_evict_event, moved, move_to_ram, may_evict, evicted,
  pin_chunk,
}
use carlo_one_core.Kernel.Pinning.Steps.{pins, perform, calls, checks, removes, step, step_all}
use carlo_one_core.Kernel.Pinning.Stays.{pin_chunk-IsHeld}

moved-gone :
    (now : ℕ) (k : String) (w : KernelWorker) (found : Option VramPage)
    → StrMap.get k w.vram_pages ≡ found
    → (StrMap.get k (moved now k w found).vram_pages ≡ none)
      × ((moved now k w found).pinned_keys ≡ w.pinned_keys)
unfolding moved
moved-gone now k w none e = (e, refl)
moved-gone now k w (some p) e = (rw (get-remove k k w.vram_pages, (eq_iff k k).1 refl) refl, refl)

with_evict_event-pages :
    (now : ℕ) (found : Option VramPage) (w : KernelWorker)
    → ((with_evict_event now found w).vram_pages ≡ w.vram_pages)
      × ((with_evict_event now found w).pinned_keys ≡ w.pinned_keys)
unfolding with_evict_event
with_evict_event-pages now none w = (refl, refl)
with_evict_event-pages now (some p) w = (refl, refl)

evicted-gone :
    (now : ℕ) (k : String) (w : KernelWorker)
    → (StrMap.get k (evicted now k w).vram_pages ≡ none)
      × ((evicted now k w).pinned_keys ≡ w.pinned_keys)
unfolding evicted move_to_ram
evicted-gone now k w =
    let found = StrMap.get k w.vram_pages in
    let event = with_evict_event-pages now found (moved now k w found) in
    let gone = moved-gone now k w found refl in
    (ap (StrMap.get k) event.0 ∙ gone.0, event.1 ∙ gone.1)

-- A chunk that is in video memory and is not pinned, with no eviction under way: if another thread
-- pins it between the check of an eviction and its removal, then it is pinned, and gone from video
-- memory.
pub pin_is_lost :
    (now : ℕ) (k : String) (w : KernelWorker)
    → is_there (StrMap.get k w.vram_pages) ≡ true
    → has k w.pinned_keys ≡ false
    → let ended =
        step_all
          (record { worker = w; passed = [] })
          (checks k ∷ calls (pins k) ∷ removes now k ∷ []) in
      (has k ended.worker.pinned_keys ≡ true) × (StrMap.get k ended.worker.vram_pages ≡ none)
unfolding step_all step perform may_evict evicted move_to_ram has
pin_is_lost now k w there loose =
    let held = pin_chunk-IsHeld k w there in
    let gone = evicted-gone now k (pin_chunk k w) in
    rw (loose, (eq_iff k k).1 refl) (ap (has k) gone.1 ∙ held.0, gone.0)

-- ===== src/Kernel/Tiers.antt =====
-- triAI-Engine/src/kernel_worker.rs: sizes and tiers.
use carlo_one_core.Prelude.{ℕ, ◌+◌, ◌≡◌, none, [], ltb, Bool-cases, inl, inr, wrap64}
use carlo_one_core.Prelude.StrMap
use carlo_one_core.Prelude.StrMap.{StrMap, get-put, get-remove, total-put-absent}
use carlo_one_core.Kernel.{
  KernelWorker, VramPage, PageKey, cold_entries, move_all, evict_cold_entries, inserted,
  load_to_vram, vram_bytes,
}

vram_bytes-inserted :
    (now : ℕ) (key : PageKey) (size : ℕ) (w : KernelWorker)
    → StrMap.get key.chunk_id w.vram_pages ≡ none
    → vram_bytes (inserted now key size w) ≡ vram_bytes w + size
unfolding vram_bytes inserted
vram_bytes-inserted now key size w absent =
    total-put-absent (λ (p : VramPage). p.size_bytes) key.chunk_id _ w.vram_pages absent

-- When every page is hot or pinned, a load of a new chunk puts it into video memory all the same,
-- however far its size takes the sum over the budget.
pub load_over_budget :
    (now : ℕ) (key : PageKey) (size : ℕ) (w : KernelWorker)
    → StrMap.get key.chunk_id w.vram_pages ≡ none
    → cold_entries w.pinned_keys w.vram_pages ≡ []
    → vram_bytes (load_to_vram now key size w) ≡ vram_bytes w + size
unfolding load_to_vram evict_cold_entries move_all
load_over_budget now key size w absent warm =
    elim (Bool-cases (ltb w.vram_budget_bytes (wrap64 (wrap64 (vram_bytes w) + size)))) [
      | inl full ↦ rw (absent, full, warm) (vram_bytes-inserted now key size w absent)
      | inr free ↦ rw (absent, free) (vram_bytes-inserted now key size w absent)
    ]

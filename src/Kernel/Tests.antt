-- ===== src/Kernel/Tests.antt =====
-- Concrete runs of triAI-Engine/src/kernel_worker.rs, and the theorems about it at concrete inputs.
use carlo_one_core.Prelude.{◌≡◌, refl, true, none, List, [], ◌∷◌, decimal, joined}
use carlo_one_core.Prelude.StrMap
use carlo_one_core.Kernel
use carlo_one_core.Kernel.{
  KernelWorker, PageKey, has, cold_entries, load_to_vram, vram_bytes, is_there, pin_chunk,
  record_access,
}
use carlo_one_core.Kernel.Experts.{expert_name}
use carlo_one_core.Kernel.Pinning.{IsHeld}
use carlo_one_core.Kernel.Pinning.Steps.{
  loads, evicts_cold, pins, unpins, syncs, Step, calls, checks, removes, inserts, Running, step,
  step_all,
}
use carlo_one_core.Kernel.Pinning.Stays.{pin_chunk_stays}
use carlo_one_core.Kernel.Pinning.Lost.{pin_is_lost}

name_of_expert : expert_name "expert_" 12 "_" 7 ≡ "expert_12_7"
unfolding expert_name joined decimal
name_of_expert = refl

abbrev key_a : PageKey
key_a = record { chunk_id = "a"; tensor_name = "tensor_a" }

abbrev key_b : PageKey
key_b = record { chunk_id = "b"; tensor_name = "tensor_b" }

abbrev one_loaded : KernelWorker
one_loaded = load_to_vram 1 key_a 600_000 (Kernel.new 1)

-- The chunk is loaded again and an eviction of it is tried, while one of another chunk is under way.
abbrev steps : List Step
steps =
    calls (loads 2 key_b 900_000)
    ∷ checks "a"
    ∷ checks "b"
    ∷ inserts 3 key_a 600_000
    ∷ removes 4 "a"
    ∷ calls (unpins "b")
    ∷ removes 4 "b"
    ∷ calls (syncs 4 (record { layer_id = 0; expert_ids = 1 ∷ 1 ∷ [] } ∷ []))
    ∷ calls (evicts_cold 5)
    ∷ []

abbrev running : Running
running = record { worker = one_loaded; passed = "b" ∷ [] }

pin_chunk_stays_example : IsHeld "a" (step_all (step running (calls (pins "a"))) steps).worker
unfolding load_to_vram Kernel.new StrMap.get vram_bytes StrMap.total StrMap.put has
pin_chunk_stays_example =
    pin_chunk_stays "a" running steps refl refl
      (refl, (refl, (refl, (refl, (refl, (refl, (refl, (refl, (refl, tt)))))))))

pin_is_lost_example :
    let ended =
      step_all
        (record { worker = one_loaded; passed = [] })
        (checks "a" ∷ calls (pins "a") ∷ removes 2 "a" ∷ []) in
    (has "a" ended.worker.pinned_keys ≡ true) × (StrMap.get "a" ended.worker.vram_pages ≡ none)
unfolding load_to_vram Kernel.new StrMap.get vram_bytes StrMap.total StrMap.put has
pin_is_lost_example = pin_is_lost 2 "a" one_loaded refl refl

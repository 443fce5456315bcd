-- ===== src/Kernel/Experts.antt =====
-- triAI-Engine/src/kernel_worker.rs: the experts that routing events name, classified and brought
-- into video memory.
use carlo_one_core.Prelude.{
  ℕ, ◌+◌, ◌*◌, String, Bool, not, none, some, List, [], ◌∷◌, leb, if◌then◌else◌, wrap64, joined,
  decimal,
}
use carlo_one_core.Prelude.StrMap
use carlo_one_core.Prelude.StrMap.{StrMap}
use carlo_one_core.Kernel.{KernelWorker, is_there, record_access, load_to_vram}

pub record ExpertEvent : Type 0 where
  pub layer_id : ℕ
  pub expert_ids : List ℕ

-- format!("{prefix}{layer}{between}{expert}")
unfoldable pub expert_name : String → ℕ → String → ℕ → String
expert_name prefix layer between expert =
    joined prefix (joined (decimal layer) (joined between (decimal expert)))

unfoldable pub prefetch_expert : ℕ → ℕ → ℕ → KernelWorker → KernelWorker
prefetch_expert now layer expert w =
    let chunk_id = expert_name "expert_" layer "_" expert in
    if is_there (StrMap.get chunk_id w.vram_pages)
    then record_access now chunk_id w
    else load_to_vram now
        (record { chunk_id = chunk_id; tensor_name = expert_name "blk." layer ".ffn_gate." expert })
        (64 * 1024 * 1024) w

unfoldable pub prefetch_layer : ℕ → ℕ → List ℕ → KernelWorker → KernelWorker
unfolding prefetch_expert
prefetch_layer now layer [] w = w
prefetch_layer now layer (e ∷ es) w = prefetch_layer now layer es (prefetch_expert now layer e w)

unfoldable pub prefetch_experts : ℕ → List ExpertEvent → KernelWorker → KernelWorker
unfolding prefetch_layer
prefetch_experts now [] w = w
prefetch_experts now (e ∷ es) w =
    prefetch_experts now es (prefetch_layer now e.layer_id e.expert_ids w)

-- How often each expert of a layer stands in the events.
count_ids : ℕ → List ℕ → StrMap ℕ → StrMap ℕ
count_ids layer [] counts = counts
count_ids layer (e ∷ es) counts =
    let key = expert_name "" layer "_" e in
    let before : ℕ = elim (StrMap.get key counts) [ none ↦ 0 | some n ↦ n ] in
    count_ids layer es (StrMap.put key (wrap64 (before + 1)) counts)

count_events : List ExpertEvent → StrMap ℕ → StrMap ℕ
unfolding count_ids
count_events [] counts = counts
count_events (e ∷ es) counts = count_events es (count_ids e.layer_id e.expert_ids counts)

keys_where : (ℕ → Bool) → StrMap ℕ → List String
keys_where p [] = []
keys_where p ((k, n) ∷ m) = let rest = keys_where p m in if p n then k ∷ rest else rest

unfoldable pub classify_experts : List ExpertEvent → KernelWorker → KernelWorker
unfolding count_events keys_where
classify_experts events w =
    let counts = count_events events [] in
    record w {
      hot_keys = keys_where (λ n. leb 3 n) counts;
      cold_keys = keys_where (λ n. not (leb 3 n)) counts;
    }

unfoldable pub sync_expert_events : ℕ → List ExpertEvent → KernelWorker → KernelWorker
sync_expert_events now events w = prefetch_experts now events (classify_experts events w)

-- ===== src/Planner/Safety.antt =====
-- triAI-Engine/src/planner.rs: what a plan commits to, lane by lane, against the amounts that were
-- measured.
use carlo_one_core.Prelude.{◌≤◌, ◌<◌, ◌≡◌, ◌≢◌, ◌↔◌, true, arith, F64}
use carlo_one_core.Planner.{
  Resources, ModelProfile, RuntimeMemoryConfig, Plan, Lane, gpu_fast, ram_balanced, cpu_safe,
  reject, usable_vram, usable_ram, usable_ssd, normalize_resources, choose_plan, identified_plan,
  plan_with_runtime,
}

-- What a plan for the given lane keeps to.
abbrev pub Within : Lane → ModelProfile → Resources → Plan → Type 0
Within gpu_fast p r q = (q.gpu_layers ≡ p.layers) × (q.estimated_vram_mb ≤ usable_vram r)
Within ram_balanced p r q =
    (q.gpu_layers < p.layers)
    × (q.estimated_vram_mb ≤ usable_vram r)
    × (q.estimated_ram_mb ≤ usable_ram r)
    × (p.file_size_mb ≤ usable_ssd r)
Within cpu_safe p r q =
    (q.gpu_layers ≡ 0) × (q.estimated_vram_mb ≤ usable_ram r) × (p.file_size_mb ≤ usable_ssd r)
Within reject p r q = (q.gpu_layers ≡ 0) × (q.estimated_vram_mb ≡ 0)

module _ (F : F64) (p : ModelProfile) (r : Resources) (rt : RuntimeMemoryConfig) where
  -- Against the amounts as measured, before they are rounded: a plan for the GPU lane offloads all
  -- layers and estimates no more video memory than is free beyond the reserve; one for the RAM
  -- lane keeps a layer off the GPU, and its video memory, its main memory and the model's file are
  -- within what is free beyond the reserves; one for the CPU lane offloads nothing, its context
  -- memory is within the free main memory, and the file within the free disk; a rejecting plan
  -- offloads nothing and estimates no video memory. The plan is marked safe exactly if its lane is
  -- not the rejecting one.
  pub plan-Within :
      let q = plan_with_runtime F p r rt in
      Within q.lane p r q × ((q.safe ≡ true) ↔ (q.lane ≢ reject))
  unfolding plan_with_runtime identified_plan choose_plan normalize_resources
  plan-Within = ground arith

  -- Whenever the CPU lane is chosen, the plan is marked safe although the main memory that it
  -- estimates is more than the free amount, rounded down to 64 MB, less the reserve.
  pub plan-cpu_safe_over_budget :
      (plan_with_runtime F p r rt).lane ≡ cpu_safe
      → ((plan_with_runtime F p r rt).safe ≡ true)
        × (usable_ram (normalize_resources r) < (plan_with_runtime F p r rt).estimated_ram_mb)
  unfolding plan_with_runtime identified_plan choose_plan
  plan-cpu_safe_over_budget h = ground arith

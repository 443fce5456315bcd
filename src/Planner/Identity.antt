-- ===== src/Planner/Identity.antt =====
-- triAI-Engine/src/planner.rs: ids and generations of plans.
use carlo_one_core.Prelude.{◌/◌, ◌≡◌, refl, arith, F64, length}
use carlo_one_core.Planner.{
  Resources, ModelProfile, RuntimeMemoryConfig, normalize_resources, resource_generation,
  plan_id_text, choose_plan, identified_plan, plan_with_runtime,
}

-- The two measurements fall into the same 64 MB buckets, with the same reserves.
pub record SameBuckets (r s : Resources) : Type 0 where
  pub vram : r.vram_free_mb / 64 ≡ s.vram_free_mb / 64
  pub ram : r.ram_free_mb / 64 ≡ s.ram_free_mb / 64
  pub ssd : r.ssd_free_mb / 64 ≡ s.ssd_free_mb / 64
  pub vram_reserve : r.vram_reserve_mb ≡ s.vram_reserve_mb
  pub ram_reserve : r.ram_reserve_mb ≡ s.ram_reserve_mb
  pub ssd_reserve : r.ssd_reserve_mb ≡ s.ssd_reserve_mb

normalize_resources-SameBuckets :
    (r s : Resources) → SameBuckets r s → normalize_resources r ≡ normalize_resources s
unfolding normalize_resources
normalize_resources-SameBuckets r s h = ground arith

module _ (F : F64) (p : ModelProfile) (r s : Resources) (rt : RuntimeMemoryConfig) where
  -- Two measurements in the same buckets give the same plan, its id included, and the same
  -- generation.
  pub plan-SameBuckets :
      SameBuckets r s
      → (plan_with_runtime F p r rt ≡ plan_with_runtime F p s rt)
        × (resource_generation r ≡ resource_generation s)
  unfolding plan_with_runtime resource_generation
  plan-SameBuckets h = let e = normalize_resources-SameBuckets r s h in (rw e, rw e)

module _ (F : F64) (p : ModelProfile) (r : Resources) (rt : RuntimeMemoryConfig) where
  choose_plan-generation :
      (choose_plan F p (normalize_resources r) rt).resource_generation ≡ resource_generation r
  unfolding choose_plan resource_generation
  choose_plan-generation = ground arith

  -- On every branch a plan carries the generation that `resource_generation` gives for the same
  -- measurement, and an id of 72 characters.
  pub plan_identity :
      let q = plan_with_runtime F p r rt in
      (q.resource_generation ≡ resource_generation r) × (length q.plan_id ≡ 72)
  unfolding plan_with_runtime identified_plan plan_id_text
  plan_identity = (choose_plan-generation, refl)

-- ===== src/Planner/Tests.antt =====
-- Concrete runs of triAI-Engine/src/planner.rs, and the theorems about it at concrete inputs.
use carlo_one_core.Prelude.{◌≡◌, ◌≢◌, ◌↔◌, refl, true, arith, thousandths}
use carlo_one_core.Planner.{
  Resources, ModelProfile, gpu_fast, ram_balanced, reject, default_runtime, kv_overhead,
  normalize_resources, plan_with_runtime, choose_plan, identified_plan, ctx_tokens,
  offloaded_layers,
}
use carlo_one_core.Planner.Safety.{Within, plan-Within}
use carlo_one_core.Planner.Identity.{SameBuckets}
use carlo_one_core.Planner.Monotone.{HasMore, plan-safe_mono}

abbrev small_machine : Resources
small_machine = record {
  vram_free_mb = 5000;
  ram_free_mb = 13000;
  ssd_free_mb = 90000;
  vram_reserve_mb = 1024;
  ram_reserve_mb = 2048;
  ssd_reserve_mb = 4096;
}

-- In the same buckets of 64 MB.
abbrev small_machine_later : Resources
small_machine_later = record small_machine { vram_free_mb = 5050; ram_free_mb = 13010 }

abbrev large_machine : Resources
large_machine = record small_machine { vram_free_mb = 24000; ram_free_mb = 64000 }

abbrev weak_machine : Resources
weak_machine = record small_machine { vram_free_mb = 1000; ram_free_mb = 4000 }

abbrev model_9b : ModelProfile
model_9b = record {
  model = "qwen-9b";
  file_size_mb = 6000;
  estimated_gpu_mb = 6500;
  estimated_ram_mb = 7000;
  layers = 32;
  context_tokens = 8192;
  requested_context_tokens = 4096;
}

abbrev long_context : ModelProfile
long_context = record model_9b { requested_context_tokens = 8192 }

small_lane :
    (plan_with_runtime thousandths model_9b small_machine default_runtime).lane ≡ ram_balanced
unfolding plan_with_runtime choose_plan identified_plan normalize_resources kv_overhead ctx_tokens
small_lane = refl

small_layers :
    (plan_with_runtime thousandths model_9b small_machine default_runtime).gpu_layers ≡ 19
unfolding plan_with_runtime choose_plan identified_plan normalize_resources kv_overhead ctx_tokens
    offloaded_layers
small_layers = refl

large_lane : (plan_with_runtime thousandths model_9b large_machine default_runtime).lane ≡ gpu_fast
unfolding plan_with_runtime choose_plan identified_plan normalize_resources kv_overhead ctx_tokens
large_lane = refl

plan-Within_example :
    let q = plan_with_runtime thousandths model_9b small_machine default_runtime in
    Within q.lane model_9b small_machine q × ((q.safe ≡ true) ↔ (q.lane ≢ reject))
plan-Within_example = plan-Within thousandths model_9b small_machine default_runtime

same_buckets : SameBuckets small_machine small_machine_later
same_buckets = record {
  vram = refl;
  ram = refl;
  ssd = refl;
  vram_reserve = refl;
  ram_reserve = refl;
  ssd_reserve = refl;
}

more_free : HasMore small_machine large_machine
more_free = record {
  vram = omega arith;
  ram = omega arith;
  ssd = omega arith;
  vram_reserve = omega arith;
  ram_reserve = omega arith;
  ssd_reserve = omega arith;
}

plan-safe_mono_example :
    (plan_with_runtime thousandths model_9b large_machine default_runtime).safe ≡ true
unfolding plan_with_runtime choose_plan identified_plan normalize_resources kv_overhead ctx_tokens
plan-safe_mono_example =
    plan-safe_mono thousandths model_9b default_runtime small_machine large_machine more_free refl

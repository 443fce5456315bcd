-- ===== src/Planner.antt =====
-- triAI-Engine/src/planner.rs: which lane a model runs in, within what is free less the reserves.
-- All amounts are `u64` megabytes, layers and tokens `u32`. Ids are lists of ASCII codes.
mod Hash
pub mod Safety
pub mod Identity
pub mod Monotone
mod Tests
use Hash.{StableHash, write_u64, write_bytes, write_str, hex16, hex_state}
use Hash
use carlo_one_core.Prelude.{
  ℕ, ◌-◌, ◌*◌, ◌/◌, ◌≤◌, String, Bool, true, false, ◌&&◌, ◌||◌, List, ◌++◌, min, max, leb, ◌==◌,
  if◌then◌else◌, sat_add, sat_mul, div_ceil, codes, F64,
}

pub record Resources : Type 0 where
  pub vram_free_mb : ℕ
  pub ram_free_mb : ℕ
  pub ssd_free_mb : ℕ
  pub vram_reserve_mb : ℕ
  pub ram_reserve_mb : ℕ
  pub ssd_reserve_mb : ℕ

pub record ModelProfile : Type 0 where
  pub model : String
  pub file_size_mb : ℕ
  pub estimated_gpu_mb : ℕ
  pub estimated_ram_mb : ℕ
  pub layers : ℕ
  pub context_tokens : ℕ
  pub requested_context_tokens : ℕ

pub record RuntimeMemoryConfig : Type 0 where
  pub parallel_slots : ℕ
  pub kv_bytes_per_token : ℕ
  pub compute_overhead_mb : ℕ

abbrev pub default_runtime : RuntimeMemoryConfig
default_runtime = record {
  parallel_slots = 1;
  kv_bytes_per_token = 64 * 1024;
  compute_overhead_mb = 256;
}

pub data Lane : Type 0 where
  gpu_fast ram_balanced cpu_safe reject : Lane

pub record Plan : Type 0 where
  pub plan_id : List ℕ
  pub resource_generation : List ℕ
  pub model : String
  pub lane : Lane
  pub gpu_layers : ℕ
  pub ctx_size : ℕ
  pub estimated_vram_mb : ℕ
  pub estimated_ram_mb : ℕ
  pub reason : String
  pub safe : Bool

-- Free amounts in steps of 64 MB, rounded down.
abbrev pub bucket_floor : ℕ → ℕ
bucket_floor value = value / 64 * 64

pub normalize_resources : Resources → Resources
normalize_resources r = record r {
  vram_free_mb = bucket_floor r.vram_free_mb;
  ram_free_mb = bucket_floor r.ram_free_mb;
  ssd_free_mb = bucket_floor r.ssd_free_mb;
}

pub resource_generation_from_normalized : Resources → ℕ
unfolding Hash.new write_u64 write_bytes
resource_generation_from_normalized r =
    let h0 = write_bytes (codes "tri-ai-resource-generation-v1") Hash.new in
    let h1 = write_u64 r.vram_free_mb h0 in
    let h2 = write_u64 r.ram_free_mb h1 in
    let h3 = write_u64 r.ssd_free_mb h2 in
    let h4 = write_u64 r.vram_reserve_mb h3 in
    let h5 = write_u64 r.ram_reserve_mb h4 in (write_u64 r.ssd_reserve_mb h5).h0

generation_text : ℕ → List ℕ
unfolding hex16
generation_text hash = codes "resources-v1-" ++ hex16 hash

pub resource_generation : Resources → List ℕ
resource_generation r =
    generation_text (resource_generation_from_normalized (normalize_resources r))

abbrev lane_code : Lane → ℕ
lane_code gpu_fast = 1
lane_code ram_balanced = 2
lane_code cpu_safe = 3
lane_code reject = 4

plan_digest : ModelProfile → ℕ → Plan → StableHash
unfolding Hash.new write_u64 write_bytes write_str
plan_digest profile generation plan =
    let h0 = write_bytes (codes "tri-ai-plan-v1") Hash.new in
    let h1 = write_str profile.model h0 in
    let h2 = write_u64 profile.file_size_mb h1 in
    let h3 = write_u64 profile.estimated_gpu_mb h2 in
    let h4 = write_u64 profile.estimated_ram_mb h3 in
    let h5 = write_u64 profile.layers h4 in
    let h6 = write_u64 profile.context_tokens h5 in
    let h7 = write_u64 profile.requested_context_tokens h6 in
    let h8 = write_u64 generation h7 in
    let h9 = write_u64 (lane_code plan.lane) h8 in
    let h10 = write_u64 plan.gpu_layers h9 in
    let h11 = write_u64 plan.ctx_size h10 in
    let h12 = write_u64 plan.estimated_vram_mb h11 in
    let h13 = write_u64 plan.estimated_ram_mb h12 in write_u64 (if plan.safe then 1 else 0) h13

plan_id_text : StableHash → List ℕ
unfolding hex_state
plan_id_text digest = codes "plan-v1-" ++ hex_state digest

identified_plan : ModelProfile → ℕ → Plan → Plan
identified_plan profile generation plan = record plan {
  plan_id = plan_id_text (plan_digest profile generation plan);
}

-- The amounts that `plan_with_runtime` computes before it chooses.
abbrev pub usable_vram : Resources → ℕ
usable_vram r = r.vram_free_mb - r.vram_reserve_mb

abbrev pub usable_ram : Resources → ℕ
usable_ram r = r.ram_free_mb - r.ram_reserve_mb

abbrev pub usable_ssd : Resources → ℕ
usable_ssd r = r.ssd_free_mb - r.ssd_reserve_mb

pub ctx_tokens : ModelProfile → ℕ
ctx_tokens profile = max (min profile.requested_context_tokens profile.context_tokens) 512

pub kv_overhead : ModelProfile → RuntimeMemoryConfig → ℕ
kv_overhead profile runtime =
    div_ceil
      (sat_mul (sat_mul (ctx_tokens profile) (max runtime.parallel_slots 1))
        runtime.kv_bytes_per_token)
      1_048_576

abbrev pub gpu_need : ModelProfile → RuntimeMemoryConfig → ℕ
gpu_need profile runtime =
    sat_add profile.estimated_gpu_mb
      (sat_add (kv_overhead profile runtime) runtime.compute_overhead_mb)

abbrev pub ram_need : ModelProfile → RuntimeMemoryConfig → ℕ
ram_need profile runtime = sat_add profile.estimated_ram_mb (kv_overhead profile runtime)

module _ (F : F64) where
  open F use {of_u64, to_u32, floor, mul, div}

  -- (layers as f64 * (usable_vram as f64 / estimated_gpu_mb.max(1) as f64)).floor() as u32
  offloaded_layers : ModelProfile → ℕ → ℕ
  offloaded_layers profile vram =
      let ratio = div (of_u64 vram) (of_u64 (max profile.estimated_gpu_mb 1)) in
      to_u32 (floor (mul (of_u64 profile.layers) ratio))

  -- The chain of early returns, on normalised resources, before the id is put in.
  choose_plan : ModelProfile → Resources → RuntimeMemoryConfig → Plan
  choose_plan profile r runtime =
      let base : Plan = record {
        plan_id = List.[];
        resource_generation = generation_text (resource_generation_from_normalized r);
        model = profile.model;
        lane = reject;
        gpu_layers = 0;
        ctx_size = ctx_tokens profile;
        estimated_vram_mb = 0;
        estimated_ram_mb = ram_need profile runtime;
        reason = "reale GGUF-Layerzahl erforderlich; 999 ist nur ein llama.cpp-Sentinel";
        safe = false;
      } in
      if profile.layers == 0 || profile.layers == 999
      then base
      else if leb (gpu_need profile runtime) (usable_vram r)
      then record base {
        lane = gpu_fast;
        gpu_layers = profile.layers;
        estimated_vram_mb = gpu_need profile runtime;
        reason = "Modell passt mit Reserve in den GPU-Slot";
        safe = true;
      }
      else if leb (ram_need profile runtime) (usable_ram r)
          && leb profile.file_size_mb (usable_ssd r)
      then record base {
        lane = ram_balanced;
        gpu_layers = min (offloaded_layers profile (usable_vram r)) (profile.layers - 1);
        estimated_vram_mb = min (usable_vram r) (gpu_need profile runtime);
        reason = "GPU-Slot reicht nicht vollständig; RAM/SSD-Puffer verfügbar";
        safe = true;
      }
      else if leb profile.file_size_mb (usable_ssd r)
          && leb (kv_overhead profile runtime) (usable_ram r)
      then record base {
        lane = cpu_safe;
        estimated_vram_mb = kv_overhead profile runtime;
        reason = "Nur CPU-Safe-Lane innerhalb der harten Speichergrenzen";
        safe = true;
      }
      else record base {
        estimated_ram_mb = 0;
        reason = "Keine sichere Lane: Speicherreserven würden verletzt";
      }

  pub plan_with_runtime : ModelProfile → Resources → RuntimeMemoryConfig → Plan
  plan_with_runtime profile resources runtime =
      let r = normalize_resources resources in
      identified_plan profile (resource_generation_from_normalized r)
        (choose_plan profile r runtime)

  pub plan : ModelProfile → Resources → Plan
  unfolding plan_with_runtime
  plan profile resources = plan_with_runtime profile resources default_runtime

-- ===== src/Planner/Monotone.antt =====
-- triAI-Engine/src/planner.rs: estimates grow with what is asked for, and more free memory never
-- turns a safe plan into a rejected one.
use carlo_one_core.Prelude.{
  ℕ, ◌≤◌, ◌≡◌, max, true, arith, F64, sat_mul_mono, div_ceil, Bool, leb, ◌==◌, ◌&&◌, ◌||◌, not,
}
use carlo_one_core.Planner.{
  Resources, ModelProfile, RuntimeMemoryConfig, normalize_resources, ctx_tokens, kv_overhead,
  choose_plan, identified_plan, plan_with_runtime, gpu_need, ram_need, usable_vram, usable_ram,
  usable_ssd,
}

-- The second request asks for no less context, in no fewer slots and with no smaller tokens.
pub record AsksMore (p q : ModelProfile) (rt st : RuntimeMemoryConfig) : Type 0 where
  pub context : p.context_tokens ≤ q.context_tokens
  pub requested : p.requested_context_tokens ≤ q.requested_context_tokens
  pub slots : rt.parallel_slots ≤ st.parallel_slots
  pub token : rt.kv_bytes_per_token ≤ st.kv_bytes_per_token

ctx_tokens_mono :
    (p q : ModelProfile) (rt st : RuntimeMemoryConfig)
    → AsksMore p q rt st
    → ctx_tokens p ≤ ctx_tokens q
unfolding ctx_tokens
ctx_tokens_mono p q rt st h = omega arith

div_ceil_mono : (a b : ℕ) → a ≤ b → div_ceil a 1_048_576 ≤ div_ceil b 1_048_576
div_ceil_mono a b h = ground arith

-- The estimate of the context memory grows with the context, the slots and the size of a token,
-- also where its products saturate.
pub kv_overhead_mono :
    (p q : ModelProfile) (rt st : RuntimeMemoryConfig)
    → AsksMore p q rt st
    → kv_overhead p rt ≤ kv_overhead q st
unfolding kv_overhead
kv_overhead_mono p q rt st h =
    let slots : max rt.parallel_slots 1 ≤ max st.parallel_slots 1 = omega arith in
    let inner = sat_mul_mono _ _ _ _ (ctx_tokens_mono p q rt st h) slots in
    div_ceil_mono _ _ (sat_mul_mono _ _ _ _ inner h.token)

-- At least as much of everything is free, beyond reserves that are no larger.
pub record HasMore (r s : Resources) : Type 0 where
  pub vram : r.vram_free_mb ≤ s.vram_free_mb
  pub ram : r.ram_free_mb ≤ s.ram_free_mb
  pub ssd : r.ssd_free_mb ≤ s.ssd_free_mb
  pub vram_reserve : s.vram_reserve_mb ≤ r.vram_reserve_mb
  pub ram_reserve : s.ram_reserve_mb ≤ r.ram_reserve_mb
  pub ssd_reserve : s.ssd_reserve_mb ≤ r.ssd_reserve_mb

normalize_resources-HasMore :
    (r s : Resources) → HasMore r s → HasMore (normalize_resources r) (normalize_resources s)
unfolding normalize_resources
normalize_resources-HasMore r s h = omega arith

-- Some lane is open, over the amounts that decide it.
abbrev accepts : ℕ → ℕ → ℕ → ℕ → ℕ → ℕ → ℕ → Bool
accepts file gpu ram kv vram_left ram_left ssd_left =
    leb gpu vram_left || (leb file ssd_left && (leb ram ram_left || leb kv ram_left))

accepts_mono :
    (known : Bool) (file gpu ram kv v v' m m' d d' : ℕ)
    → v ≤ v'
    → m ≤ m'
    → d ≤ d'
    → (known && accepts file gpu ram kv v m d) ≡ true
    → (known && accepts file gpu ram kv v' m' d') ≡ true
accepts_mono known file gpu ram kv v v' m m' d d' hv hm hd h = ground arith

module _ (F : F64) (p : ModelProfile) (rt : RuntimeMemoryConfig) where
  choose_plan-safe :
      (r : Resources)
      → (choose_plan F p r rt).safe ≡ (
          not (p.layers == 0 || p.layers == 999)
          && accepts p.file_size_mb
              (gpu_need p rt)
              (ram_need p rt)
              (kv_overhead p rt)
              (usable_vram r)
              (usable_ram r)
              (usable_ssd r))
  unfolding choose_plan
  choose_plan-safe r = ground arith

  choose_plan-safe_mono :
      (r s : Resources)
      → HasMore r s
      → (choose_plan F p r rt).safe ≡ true
      → (choose_plan F p s rt).safe ≡ true
  choose_plan-safe_mono r s h safe = rw (choose_plan-safe s) (
      accepts_mono (not (p.layers == 0 || p.layers == 999)) p.file_size_mb (gpu_need p rt)
        (ram_need p rt) (kv_overhead p rt) _ _ _ _ _ _ (omega arith) (omega arith) (omega arith)
        (rw (choose_plan-safe r) at safe))

  -- With at least as much free of everything, and reserves no larger, a plan that was safe stays
  -- safe, though its lane may change.
  pub plan-safe_mono :
      (r s : Resources)
      → HasMore r s
      → (plan_with_runtime F p r rt).safe ≡ true
      → (plan_with_runtime F p s rt).safe ≡ true
  unfolding plan_with_runtime identified_plan
  plan-safe_mono r s h =
      choose_plan-safe_mono (normalize_resources r) (normalize_resources s)
        (normalize_resources-HasMore r s h)

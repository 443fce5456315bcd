-- ===== src/Monitor/Trigger.antt =====
-- triAI-Engine/src/monitor/trigger.rs, and the snapshots of monitor/snapshot.rs that it reads.
pub mod Rules
pub mod Evaluate
use carlo_one_core.Prelude.{
  ℕ, String, Bool, true, false, not, ◌&&◌, Option, List, [], ◌∷◌, ◌++◌, ltb, ◌==◌, if◌then◌else◌,
  F64,
}
use carlo_one_core.Monitor.Hysteresis.{
  CooldownConfig, HysteresisState, default_cooldown, can_trigger, record_trigger,
}
use carlo_one_core.Monitor.Hysteresis

-- The fields that decide something; the timestamp is left out.
pub record ResourceSnapshot : Type 0 where
  pub vram_used_mb : ℕ
  pub vram_total_mb : ℕ
  pub ram_used_mb : ℕ
  pub ram_total_mb : ℕ
  pub pinned_ram_used_mb : ℕ
  pub pinned_ram_limit_mb : ℕ
  pub kv_cache_mb : ℕ
  pub queue_depth : ℕ
  pub active_model_id : Option String
  pub decode_in_progress : Bool

pub data TriggerAction : Type 0 where
  stop_prefetch reduce_prefetch evict_cold_region replan_residency budget_kv : TriggerAction
  evict_optional_cache load_predicted_experts disable_speculative_prefetch : TriggerAction
  batch_transfers abort_ssd_read compress_context : TriggerAction

pub record TriggerConfig (F : F64) : Type 0 where
  pub vram_critical_threshold : F.Carrier
  pub vram_falling_threshold : F.Carrier
  pub kv_cache_threshold_mb : ℕ
  pub moe_hit_rate_threshold : F.Carrier
  pub queue_depth_threshold : ℕ
  pub context_full_threshold_percent : F.Carrier
  pub cooldown_config : CooldownConfig F

abbrev pub default_config : (F : F64) → TriggerConfig F
default_config F = record {
  vram_critical_threshold = F.lit 95 2;
  vram_falling_threshold = F.lit 85 2;
  kv_cache_threshold_mb = 4096;
  moe_hit_rate_threshold = F.lit 6 1;
  queue_depth_threshold = 10;
  context_full_threshold_percent = F.lit 9 1;
  cooldown_config = default_cooldown F;
}

pub record TriggerEngine (F : F64) : Type 0 where
  pub config : TriggerConfig F
  pub hysteresis : HysteresisState F
  pub moe_hit_rate : F.Carrier
  pub prefetch_accuracy : F.Carrier
  pub context_usage_percent : F.Carrier

-- One block of `evaluate`: under the trigger's own name, what makes it fire and what it asks for.
pub record Rule : Type 0 where
  pub key : String
  pub holds : Bool
  pub actions : List TriggerAction

module _ (F : F64) where
  open F use {of_u64, lit, div, lt}

  -- The share of the video memory in use.
  unfoldable pub vram_ratio : ResourceSnapshot → F.Carrier
  vram_ratio s =
      if s.vram_total_mb == 0 then lit 0 0 else div (of_u64 s.vram_used_mb) (of_u64 s.vram_total_mb)

  pub ram_ratio : ResourceSnapshot → F.Carrier
  ram_ratio s =
      if s.ram_total_mb == 0 then lit 0 0 else div (of_u64 s.ram_used_mb) (of_u64 s.ram_total_mb)

  unfoldable pub new : TriggerConfig F → TriggerEngine F
  unfolding Hysteresis.new
  new config = record {
    config = config;
    hysteresis = Hysteresis.new F config.cooldown_config;
    moe_hit_rate = lit 1 0;
    prefetch_accuracy = lit 1 0;
    context_usage_percent = lit 0 0;
  }

  pub update_moe_hit_rate : TriggerEngine F → F.Carrier → TriggerEngine F
  update_moe_hit_rate e hit_rate = record e { moe_hit_rate = hit_rate }

  pub update_prefetch_accuracy : TriggerEngine F → F.Carrier → TriggerEngine F
  update_prefetch_accuracy e accuracy = record e { prefetch_accuracy = accuracy }

  pub update_context_usage : TriggerEngine F → F.Carrier → TriggerEngine F
  update_context_usage e usage_percent = record e { context_usage_percent = usage_percent }

  detect_ssd_read_in_decode : ResourceSnapshot → Bool
  detect_ssd_read_in_decode s = false

  -- One block: if the condition holds and the cooldown lets the trigger through, its actions are
  -- pushed and the trigger is recorded.
  unfoldable pub attempt : ℕ → Rule → HysteresisState F → HysteresisState F × List TriggerAction
  attempt now rule h =
      if rule.holds && can_trigger F h rule.key now
      then (record_trigger F h rule.key now, rule.actions)
      else (h, [])

  -- The blocks in their order; each sees the cooldowns that the ones above it left.
  unfoldable pub run_rules :
      ℕ → List Rule → HysteresisState F → HysteresisState F × List TriggerAction
  run_rules now [] h = (h, [])
  run_rules now (rule ∷ rest) h =
      let (h', pushed) = attempt now rule h in
      let (h'', later) = run_rules now rest h' in (h'', pushed ++ later)

  -- The eight triggers; the second is the `else` branch of the first. No condition reads the
  -- cooldowns.
  unfoldable pub rules : TriggerEngine F → ResourceSnapshot → List Rule
  unfolding vram_ratio detect_ssd_read_in_decode
  rules e s =
      let critical = lt e.config.vram_critical_threshold (vram_ratio s) in
      record {
        key = "vram_critical";
        holds = critical;
        actions = stop_prefetch ∷ evict_cold_region ∷ [];
      }
      ∷ record {
        key = "vram_falling";
        holds = not critical && lt e.config.vram_falling_threshold (vram_ratio s);
        actions = reduce_prefetch ∷ replan_residency ∷ [];
      }
      ∷ record {
        key = "kv_growing";
        holds = ltb e.config.kv_cache_threshold_mb s.kv_cache_mb;
        actions = budget_kv ∷ evict_optional_cache ∷ [];
      }
      ∷ record {
        key = "moe_low_hit";
        holds = lt e.moe_hit_rate e.config.moe_hit_rate_threshold;
        actions = load_predicted_experts ∷ [];
      }
      ∷ record {
        key = "prefetch_inaccurate";
        holds = lt e.prefetch_accuracy (lit 5 1);
        actions = disable_speculative_prefetch ∷ [];
      }
      ∷ record {
        key = "queue_high";
        holds = ltb e.config.queue_depth_threshold s.queue_depth;
        actions = batch_transfers ∷ [];
      }
      ∷ record {
        key = "ssd_in_decode";
        holds = s.decode_in_progress && detect_ssd_read_in_decode s;
        actions = abort_ssd_read ∷ [];
      }
      ∷ record {
        key = "context_full";
        holds = lt e.config.context_full_threshold_percent e.context_usage_percent;
        actions = compress_context ∷ [];
      }
      ∷ []

  -- `now` is the instant that the function reads from the clock.
  unfoldable pub evaluate :
      TriggerEngine F → ResourceSnapshot → ℕ → TriggerEngine F × List TriggerAction
  evaluate e s now =
      let (h, actions) = run_rules now (rules e s) e.hysteresis in
      (record e { hysteresis = h }, actions)

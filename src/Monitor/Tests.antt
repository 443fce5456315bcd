-- ===== src/Monitor/Tests.antt =====
-- Concrete runs of the code in triAI-Engine/src/monitor/, and the theorems about it at concrete
-- inputs.
use carlo_one_core.Prelude.{◌≡◌, refl, true, some, List, [], ◌∷◌, arith, thousandths}
use carlo_one_core.Prelude.StrMap
use carlo_one_core.Monitor.Hysteresis.{
  HysteresisState, default_cooldown, from_millis, can_trigger, record_trigger, bumped, backed_off,
  TriggerState,
}
use carlo_one_core.Monitor.Hysteresis
use carlo_one_core.Monitor.Hysteresis.Cooldown.{
  Call, trigger, reset, perform_all, IsCapped, perform_all-IsCapped,
}
use carlo_one_core.Monitor.Trigger
use carlo_one_core.Monitor.Trigger.{
  ResourceSnapshot, TriggerEngine, default_config, evaluate, run_rules, rules, attempt,
  stop_prefetch, evict_cold_region, vram_ratio,
}
use carlo_one_core.Monitor.Trigger.Rules.{IsCooling}
use carlo_one_core.Monitor.Trigger.Evaluate.{evaluate_again}

abbrev cooldowns : HysteresisState thousandths
cooldowns = Hysteresis.new thousandths (default_cooldown thousandths)

abbrev engine : TriggerEngine thousandths
engine = Trigger.new thousandths (default_config thousandths)

abbrev full_card : ResourceSnapshot
full_card = record {
  vram_used_mb = 23900;
  vram_total_mb = 24000;
  ram_used_mb = 9000;
  ram_total_mb = 32000;
  pinned_ram_used_mb = 0;
  pinned_ram_limit_mb = 0;
  kv_cache_mb = 900;
  queue_depth = 2;
  active_model_id = some "qwen";
  decode_in_progress = true;
}

abbrev calls : List (Call thousandths)
calls = trigger "kv_growing" 5 ∷ trigger "kv_growing" 9 ∷ reset "kv_growing" 400_000_000_000 ∷ []

perform_all-IsCapped_example :
    IsCapped thousandths (perform_all thousandths cooldowns calls)
    × ((perform_all thousandths cooldowns calls).config ≡ default_cooldown thousandths)
unfolding Hysteresis.new
perform_all-IsCapped_example =
    perform_all-IsCapped thousandths cooldowns calls (λ k s e. unfold StrMap.get in cc e)

full_card_actions :
    (evaluate thousandths engine full_card 0).1 ≡ stop_prefetch ∷ evict_cold_region ∷ []
unfolding evaluate run_rules attempt rules vram_ratio Trigger.new Hysteresis.new can_trigger
    StrMap.get record_trigger StrMap.put
full_card_actions = refl

-- Five seconds later the first cooldown, of ten, is not over.
cooling : IsCooling thousandths (evaluate thousandths engine full_card 0).0.hysteresis 5_000_000_000
unfolding evaluate run_rules attempt rules vram_ratio Trigger.new Hysteresis.new can_trigger
    StrMap.get record_trigger StrMap.put bumped backed_off
cooling k t e = ground arith

evaluate_again_example :
    let after = (evaluate thousandths engine full_card 0).0 in
    evaluate thousandths after full_card 5_000_000_000 ≡ (after, [])
evaluate_again_example = evaluate_again thousandths engine full_card 0 5_000_000_000 cooling

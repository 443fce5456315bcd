-- ===== src/Monitor/Hysteresis.antt =====
-- triAI-Engine/src/monitor/hysteresis.rs: one cooldown for each type of trigger, with backoff.
-- An `Instant` is a number of nanoseconds; `duration_since` an earlier one stops at 0.
pub mod Cooldown
use carlo_one_core.Prelude.{
  ℕ, ◌+◌, ◌-◌, ◌*◌, min, String, Bool, true, false, Option, none, some, [], leb, if◌then◌else◌,
  wrap32, F64,
}
use carlo_one_core.Prelude.StrMap
use carlo_one_core.Prelude.StrMap.{StrMap}

pub record CooldownConfig (F : F64) : Type 0 where
  pub base_cooldown_ms : ℕ
  pub max_cooldown_ms : ℕ
  pub backoff_multiplier : F.Carrier
  pub reset_after_ms : ℕ

abbrev pub default_cooldown : (F : F64) → CooldownConfig F
default_cooldown F = record {
  base_cooldown_ms = 5000;
  max_cooldown_ms = 60000;
  backoff_multiplier = F.lit 2 0;
  reset_after_ms = 300_000;
}

pub record TriggerState : Type 0 where
  pub last_triggered : ℕ
  pub consecutive_triggers : ℕ
  pub current_cooldown_ms : ℕ

-- Duration::from_millis, in nanoseconds.
abbrev pub from_millis : ℕ → ℕ
from_millis ms = ms * 1_000_000

pub record HysteresisState (F : F64) : Type 0 where
  pub config : CooldownConfig F
  pub states : StrMap TriggerState

module _ (F : F64) where
  open F use {of_u64, to_u64, mul}

  unfoldable pub new : CooldownConfig F → HysteresisState F
  new config = record { config = config; states = [] }

  unfoldable pub can_trigger : HysteresisState F → String → ℕ → Bool
  can_trigger h trigger_type now = elim (StrMap.get trigger_type h.states) [
    | some state ↦ leb (from_millis state.current_cooldown_ms) (now - state.last_triggered)
    | none ↦ true
  ]

  -- The entry of a trigger, or the one that `or_insert_with` makes.
  abbrev entry_or : CooldownConfig F → ℕ → Option TriggerState → TriggerState
  entry_or config now (some state) = state
  entry_or config now none = record {
    last_triggered = now;
    consecutive_triggers = 0;
    current_cooldown_ms = config.base_cooldown_ms;
  }

  unfoldable pub backed_off : CooldownConfig F → ℕ → ℕ
  backed_off config cooldown_ms =
      min (to_u64 (mul (of_u64 cooldown_ms) config.backoff_multiplier)) config.max_cooldown_ms

  unfoldable pub bumped : CooldownConfig F → ℕ → Option TriggerState → TriggerState
  bumped config now found =
      let state = entry_or config now found in
      record {
        last_triggered = now;
        consecutive_triggers = wrap32 (state.consecutive_triggers + 1);
        current_cooldown_ms = backed_off config state.current_cooldown_ms;
      }

  unfoldable pub record_trigger : HysteresisState F → String → ℕ → HysteresisState F
  record_trigger h trigger_type now = record h {
    states =
        StrMap.put trigger_type (bumped h.config now (StrMap.get trigger_type h.states)) h.states;
  }

  cleared : CooldownConfig F → TriggerState → TriggerState
  cleared config state = record state {
    consecutive_triggers = 0;
    current_cooldown_ms = config.base_cooldown_ms;
  }

  reset_found : HysteresisState F → String → ℕ → Option TriggerState → HysteresisState F
  reset_found h trigger_type now none = h
  reset_found h trigger_type now (some state) =
      if leb (from_millis h.config.reset_after_ms) (now - state.last_triggered)
      then record h { states = StrMap.put trigger_type (cleared h.config state) h.states }
      else h

  pub reset_if_stale : HysteresisState F → String → ℕ → HysteresisState F
  unfolding reset_found
  reset_if_stale h trigger_type now =
      reset_found h trigger_type now (StrMap.get trigger_type h.states)

  pub get_cooldown_info : HysteresisState F → String → Option (ℕ × ℕ)
  get_cooldown_info h trigger_type = elim (StrMap.get trigger_type h.states) [
    | none ↦ none
    | some state ↦ some (state.current_cooldown_ms, state.consecutive_triggers)
  ]

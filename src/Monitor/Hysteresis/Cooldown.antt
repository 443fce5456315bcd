-- ===== src/Monitor/Hysteresis/Cooldown.antt =====
-- triAI-Engine/src/monitor/hysteresis.rs: what the cooldowns guarantee.
use carlo_one_core.Prelude.{
  ℕ, ◌-◌, ◌≤◌, max, ◌≡◌, refl, String, ◌∙◌, Option, none, some, List, [], ◌∷◌, arith, leb, str_eq,
  if◌then◌else◌, F64,
}
use carlo_one_core.Prelude.StrMap
use carlo_one_core.Prelude.StrMap.{StrMap, get-put}
use carlo_one_core.Monitor.Hysteresis.{
  HysteresisState, TriggerState, from_millis, can_trigger, bumped, backed_off, cleared, reset_found,
  record_trigger, reset_if_stale,
}

module _ (F : F64) where
  pub get-record_trigger :
      (h : HysteresisState F) (k j : String) (now : ℕ)
      → StrMap.get j (record_trigger F h k now).states ≡ (
          if str_eq k j
          then some (bumped F h.config now (StrMap.get k h.states))
          else StrMap.get j h.states)
  unfolding record_trigger
  get-record_trigger h k j now = get-put k j _ h.states

  -- After a trigger was recorded, that trigger is let through exactly once its new cooldown is
  -- over, and every other trigger as before.
  pub can_trigger-record_trigger :
      (h : HysteresisState F) (k j : String) (now later : ℕ)
      → can_trigger F (record_trigger F h k now) j later ≡ (
          if str_eq k j
          then leb
              (from_millis (bumped F h.config now (StrMap.get k h.states)).current_cooldown_ms)
              (later - now)
          else can_trigger F h j later)
  unfolding can_trigger record_trigger bumped
  can_trigger-record_trigger h k j now later =
      ground (arith, get-put k j (bumped F h.config now (StrMap.get k h.states)) h.states)

  -- What a caller does to the cooldowns.
  pub data Call : Type 0 where
    trigger : String → ℕ → Call
    reset : String → ℕ → Call

  pub perform : HysteresisState F → Call → HysteresisState F
  perform h (trigger k now) = record_trigger F h k now
  perform h (reset k now) = reset_if_stale F h k now

  pub perform_all : HysteresisState F → List Call → HysteresisState F
  perform_all h [] = h
  perform_all h (c ∷ cs) = perform_all (perform h c) cs

  abbrev pub IsCapped : HysteresisState F → Type 0
  IsCapped h =
      (k : String) (s : TriggerState)
      → StrMap.get k h.states ≡ some s
      → s.current_cooldown_ms ≤ max h.config.base_cooldown_ms h.config.max_cooldown_ms

  reset_found-IsCapped :
      (h : HysteresisState F) (k : String) (now : ℕ) (found : Option TriggerState)
      → IsCapped h
      → IsCapped (reset_found F h k now found)
  unfolding reset_found cleared
  reset_found-IsCapped h k now none fits j s = fits j s
  reset_found-IsCapped h k now (some t) fits j s =
      ground (arith, fits j s, get-put k j (cleared F h.config t) h.states)

  perform-IsCapped : (h : HysteresisState F) (c : Call) → IsCapped h → IsCapped (perform h c)
  unfolding perform record_trigger bumped backed_off reset_if_stale
  perform-IsCapped h (trigger k now) fits j s =
      ground (arith, fits j s, get-put k j (bumped F h.config now (StrMap.get k h.states)) h.states)
  perform-IsCapped h (reset k now) fits j s =
      reset_found-IsCapped h k now (StrMap.get k h.states) fits j s

  config-perform : (h : HysteresisState F) (c : Call) → (perform h c).config ≡ h.config
  unfolding perform record_trigger reset_if_stale
  config-perform h (trigger k now) = refl
  config-perform h (reset k now) = ground arith

  -- Whatever is recorded and reset, from cooldowns within the larger of the base and the maximum,
  -- no cooldown passes that bound; the configuration stays.
  pub perform_all-IsCapped :
      (h : HysteresisState F) (cs : List Call)
      → IsCapped h
      → IsCapped (perform_all h cs) × ((perform_all h cs).config ≡ h.config)
  unfolding perform_all
  perform_all-IsCapped h [] fits = (fits, refl)
  perform_all-IsCapped h (c ∷ cs) fits =
      let (capped, same) = perform_all-IsCapped (perform h c) cs (perform-IsCapped h c fits) in
      (capped, same ∙ config-perform h c)

-- ===== src/Monitor/Trigger/Evaluate.antt =====
-- triAI-Engine/src/monitor/trigger.rs: what `evaluate` asks for.
use carlo_one_core.Prelude.{ℕ, ◌≡◌, refl, [], arith, F64}
use carlo_one_core.Monitor.Hysteresis.{HysteresisState}
use carlo_one_core.Monitor.Trigger.Rules.{
  IsCooling, IsReady, HasOwnNames, due_actions, run_rules_again, run_rules_ready,
}
use carlo_one_core.Monitor.Trigger.{ResourceSnapshot, TriggerEngine, rules, run_rules, evaluate}

module _ (F : F64) (e : TriggerEngine F) (s : ResourceSnapshot) where
  rules_own_names : HasOwnNames (rules F e s)
  unfolding rules
  rules_own_names = ground arith

  -- No condition reads the cooldowns.
  rules_of_cooldowns :
      (h : HysteresisState F) → rules F (record e { hysteresis = h }) s ≡ rules F e s
  unfolding rules
  rules_of_cooldowns h = refl

  -- If at the later instant no recorded cooldown is over, a second evaluation of the same snapshot
  -- asks for nothing and leaves the engine as it is.
  pub evaluate_again :
      (now later : ℕ)
      → IsCooling F (evaluate F e s now).0.hysteresis later
      → evaluate F (evaluate F e s now).0 s later ≡ ((evaluate F e s now).0, [])
  unfolding evaluate
  evaluate_again now later cooling =
      rw (rules_of_cooldowns (run_rules F now (rules F e s) e.hysteresis).0)
        (rw (run_rules_again F now later (rules F e s) e.hysteresis cooling))

  -- An evaluation at an instant at which all eight triggers are let through asks for the actions
  -- of exactly those whose conditions hold, in their order.
  pub evaluate_ready :
      (now : ℕ)
      → IsReady F e.hysteresis now (rules F e s)
      → (evaluate F e s now).1 ≡ due_actions (rules F e s)
  unfolding evaluate
  evaluate_ready now ready = run_rules_ready F now (rules F e s) e.hysteresis rules_own_names ready

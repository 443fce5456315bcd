-- ===== src/Engine/Ready.antt =====
-- triAI-Engine/src/engine.rs: what a call that waits for a worker leaves when it succeeds.
use carlo_one_core.Prelude.{String, true, not, ◌||◌, ◌≡◌, refl, none, some, Bool-cases, inl, inr}
use carlo_one_core.Supervisor.Exit.{WorkerFailure}
use carlo_one_core.Supervisor.Worker
use carlo_one_core.Supervisor.Worker.{
  WorkerConfig, Held, Outcome, became_ready, gave_up, still_waiting, is_some,
}
use carlo_one_core.Engine.{
  Engine, EngineState, Waited, returned, waiting, RetryOs, failed, ready, is_ready, is_idle,
  may_recover, waited, start_model_ready, recover_with_fallback,
}

-- A call that returned without a failure leaves the model ready.
abbrev pub ReadyIfOk : String → Waited → Type 0
ReadyIfOk model (returned e none) = (is_ready e.state ≡ true) × (e.active_model ≡ some model)
ReadyIfOk model (returned e (some failure)) = Unit
ReadyIfOk model (waiting e) = Unit

waited-ReadyIfOk :
    (cfg : WorkerConfig) (by : EngineState) (e : Engine) (o : Outcome)
    → ReadyIfOk cfg.model (waited cfg by e o)
unfolding waited
waited-ReadyIfOk cfg by e (became_ready h) = (refl, refl)
waited-ReadyIfOk cfg by e (gave_up h failure) = tt
waited-ReadyIfOk cfg by e (still_waiting h) = tt

pub start_model_ready-ReadyIfOk :
    (cfg : WorkerConfig) (os : RetryOs) (e : Engine)
    → ReadyIfOk cfg.model (start_model_ready cfg os e)
unfolding start_model_ready
start_model_ready-ReadyIfOk cfg os e =
    elim (Bool-cases (is_some e.active_model || not (is_idle e.state))) [
      | inl taken ↦ rw taken tt
      | inr free ↦ rw free (waited-ReadyIfOk cfg EngineState.loading e _)
    ]

pub recover_with_fallback-ReadyIfOk :
    (cfg : WorkerConfig) (os : RetryOs) (e : Engine)
    → ReadyIfOk cfg.model (recover_with_fallback cfg os e)
unfolding recover_with_fallback
recover_with_fallback-ReadyIfOk cfg os e = elim (Bool-cases (may_recover e.state)) [
  | inr refused ↦ rw refused tt
  | inl allowed ↦ rw allowed (
      waited-ReadyIfOk cfg EngineState.rollback
        (record e { active_model = none; worker_endpoint = none }) _)
]

pub start_model_ready_fails :
    (cfg : WorkerConfig) (os : RetryOs) (e : Engine) (h : Held) (failure : WorkerFailure)
    → is_idle e.state ≡ true
    → e.active_model ≡ none
    → Worker.start_and_wait_with_retry cfg os.first os.port_free os.again e.held ≡ gave_up h failure
    → start_model_ready cfg os e
      ≡ returned
          (record e { held = h; active_model = none; worker_endpoint = none; state = failed })
          (some failure)
unfolding start_model_ready waited
start_model_ready_fails cfg os e h failure quiet m fails = rw (quiet, m, fails) refl

pub recover_with_fallback_works :
    (cfg : WorkerConfig) (os : RetryOs) (e : Engine) (h : Held)
    → e.state ≡ failed
    → Worker.start_and_wait_with_retry cfg os.first os.port_free os.again e.held ≡ became_ready h
    → recover_with_fallback cfg os e
      ≡ returned
          (record {
            held = h;
            state = ready;
            active_model = some cfg.model;
            worker_endpoint = some (cfg.host, cfg.port);
            last_config = some cfg;
          })
          none
unfolding recover_with_fallback waited
recover_with_fallback_works cfg os e h broken works = rw (broken, works) refl

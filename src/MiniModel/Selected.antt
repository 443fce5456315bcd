-- ===== src/MiniModel/Selected.antt =====
-- triAI-Engine/src/supervisor/fallback.rs: the start of the model that is selected.
use carlo_one_core.Prelude.{
  String, Bool, true, false, ◌&&◌, ◌≡◌, refl, Option, none, some, arith, Bool-cases, inl, inr,
  eq_iff,
}
use carlo_one_core.Supervisor.Exit.{WorkerFailure}
use carlo_one_core.Supervisor.Worker
use carlo_one_core.Supervisor.Worker.{
  WorkerConfig, Held, Outcome, became_ready, gave_up, still_waiting, failure_of, is_some,
}
use carlo_one_core.Engine.{
  Engine, EngineError, Waited, returned, waiting, RetryOs, ready, failed, is_ready, is_idle,
  is_model, may_recover, stop_model, start_model_ready,
}
use carlo_one_core.Engine.Coherent.{
  IsCoherent, CoherentIfReturned, start_model_ready-IsCoherent, recover_with_fallback-IsCoherent,
}
use carlo_one_core.Engine.Ready.{
  ReadyIfOk, start_model_ready_fails, recover_with_fallback_works, start_model_ready-ReadyIfOk,
  recover_with_fallback-ReadyIfOk,
}
use carlo_one_core.Engine.Coherent.Calls.{stop_model-IsCoherent}
use carlo_one_core.MiniModel.{
  MiniModelSpec, MiniRuntimeConfig, Project, SpecPath, resolved_path, verify_digest, config_at,
  worker_config, stopped_then, start_by_state, configured, start_selected,
}

-- What a start of a model promises, whichever way it goes.
abbrev pub IsSafe : String → Waited → Type 0
IsSafe model w = CoherentIfReturned w × ReadyIfOk model w

start_model_ready-IsSafe :
    (cfg : WorkerConfig) (os : RetryOs) (e : Engine)
    → IsCoherent e
    → IsSafe cfg.model (start_model_ready cfg os e)
start_model_ready-IsSafe cfg os e c =
    (start_model_ready-IsCoherent cfg os e c, start_model_ready-ReadyIfOk cfg os e)

stopped_then-IsSafe :
    (cfg : WorkerConfig) (os : RetryOs) (r : Engine × Option EngineError)
    → IsCoherent r.0
    → IsSafe cfg.model (stopped_then cfg os r)
unfolding stopped_then
stopped_then-IsSafe cfg os (e, none) c = start_model_ready-IsSafe cfg os e c
stopped_then-IsSafe cfg os (e, some error) c = (c, tt)

start_by_state-IsSafe :
    (cfg : WorkerConfig) (os : RetryOs) (e : Engine)
    → IsCoherent e
    → IsSafe cfg.model (start_by_state cfg os e)
unfolding start_by_state
start_by_state-IsSafe cfg os e c = elim (Bool-cases (is_ready e.state)) [
  | inl serves ↦ rw serves (stopped_then-IsSafe cfg os (stop_model e) (stop_model-IsCoherent e c))
  | inr rests ↦ elim (Bool-cases (is_idle e.state)) [
    | inl free ↦ rw (rests, free) (start_model_ready-IsSafe cfg os e c)
    | inr occupied ↦ elim (Bool-cases (may_recover e.state)) [
      | inl broken ↦
          rw (rests, occupied, broken)
            (recover_with_fallback-IsCoherent cfg os e c, recover_with_fallback-ReadyIfOk cfg os e)
      | inr other ↦ rw (rests, occupied, other) (c, tt)
    ]
  ]
]

configured-IsSafe :
    (project : Project) (runtime : MiniRuntimeConfig) (id : String) (path : Option SpecPath)
    (os : RetryOs) (e : Engine)
    → IsCoherent e
    → IsSafe id (configured (config_at project runtime id path) os e)
unfolding configured config_at
configured-IsSafe project runtime id none os e c = (c, tt)
configured-IsSafe project runtime id (some path) os e c = start_by_state-IsSafe _ os e c

is_model_says :
    (model : String) (active : Option String) → is_model model active ≡ true → active ≡ some model
is_model_says model none says = cc
is_model_says model (some active) says = cc ((eq_iff active model).0 says)

pub start_selected-IsSafe :
    (project : Project) (runtime : MiniRuntimeConfig) (os : RetryOs) (spec : MiniModelSpec)
    (e : Engine)
    → IsCoherent e
    → IsSafe spec.id (start_selected project runtime os spec e)
unfolding start_selected worker_config
start_selected-IsSafe project runtime os spec e c = elim (Bool-cases (verify_digest project spec)) [
  | inr corrupt ↦ rw corrupt (c, tt)
  | inl intact ↦ elim (Bool-cases (is_model spec.id e.active_model && is_ready e.state)) [
    | inl there ↦
        rw (intact, there) (c, (ground arith, is_model_says spec.id e.active_model (ground arith)))
    | inr other ↦
        rw (intact, other) (configured-IsSafe project runtime spec.id (resolved_path spec) os e c)
  ]
]

-- A start that returned without a failure has seen the right digest.
abbrev pub IntactIfOk : Project → MiniModelSpec → Waited → Type 0
IntactIfOk project spec (returned e none) = verify_digest project spec ≡ true
IntactIfOk project spec (returned e (some failure)) = Unit
IntactIfOk project spec (waiting e) = Unit

intact_anyway :
    (project : Project) (spec : MiniModelSpec) (w : Waited)
    → verify_digest project spec ≡ true
    → IntactIfOk project spec w
intact_anyway project spec (returned e none) intact = intact
intact_anyway project spec (returned e (some failure)) intact = tt
intact_anyway project spec (waiting e) intact = tt

pub start_selected-IntactIfOk :
    (project : Project) (runtime : MiniRuntimeConfig) (os : RetryOs) (spec : MiniModelSpec)
    (e : Engine)
    → IntactIfOk project spec (start_selected project runtime os spec e)
unfolding start_selected
start_selected-IntactIfOk project runtime os spec e =
    elim (Bool-cases (verify_digest project spec)) [
      | inl intact ↦ intact_anyway project spec _ intact
      | inr corrupt ↦ rw corrupt tt
    ]

-- The worker of a selected model gives up, from an idle engine.
pub selected_fails :
    (project : Project) (runtime : MiniRuntimeConfig) (os : RetryOs) (e : Engine)
    (spec : MiniModelSpec) (cfg : WorkerConfig) (h : Held) (failure : WorkerFailure)
    → is_idle e.state ≡ true
    → e.active_model ≡ none
    → verify_digest project spec ≡ true
    → worker_config project runtime spec ≡ some cfg
    → Worker.start_and_wait_with_retry cfg os.first os.port_free os.again e.held ≡ gave_up h failure
    → start_selected project runtime os spec e
      ≡ returned
          (record e { held = h; active_model = none; worker_endpoint = none; state = failed })
          (some failure)
unfolding start_selected configured start_by_state
selected_fails project runtime os e spec cfg h failure quiet m intact at fails =
    let still : is_ready e.state ≡ false = ground arith in
    let unnamed : is_model spec.id e.active_model ≡ false = rw m refl in
    rw (intact, unnamed, at, still, quiet)
      (start_model_ready_fails cfg os e h failure quiet m fails)

and_false : (a : Bool) → (a && false) ≡ false
and_false a = ground arith

-- The worker of a selected model becomes ready, from a failed engine.
pub selected_recovers :
    (project : Project) (runtime : MiniRuntimeConfig) (os : RetryOs) (e : Engine)
    (spec : MiniModelSpec) (cfg : WorkerConfig) (h : Held)
    → e.state ≡ failed
    → verify_digest project spec ≡ true
    → worker_config project runtime spec ≡ some cfg
    → Worker.start_and_wait_with_retry cfg os.first os.port_free os.again e.held ≡ became_ready h
    → start_selected project runtime os spec e
      ≡ returned
          (record {
            held = h;
            state = ready;
            active_model = some cfg.model;
            worker_endpoint = some (cfg.host, cfg.port);
            last_config = some cfg;
          })
          none
unfolding start_selected configured start_by_state
selected_recovers project runtime os e spec cfg h broken intact at works =
    let rests : is_ready e.state ≡ false = rw broken refl in
    let occupied : is_idle e.state ≡ false = rw broken refl in
    let broken_down : may_recover e.state ≡ true = rw broken refl in
    rw (intact, at, rests, occupied, broken_down, and_false (is_model spec.id e.active_model))
      (recover_with_fallback_works cfg os e h broken works)

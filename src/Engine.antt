-- ===== src/Engine.antt =====
-- triAI-Engine/src/engine.rs: the engine's state machine over the worker supervisor. The staging
-- store, which the other operations do not touch, and the events for the log are left out.
pub mod Coherent
pub mod Lifecycle
pub mod Ready
pub mod Switch
mod Tests
use carlo_one_core.Prelude.{
  ℕ, String, Bool, true, false, not, ◌&&◌, ◌||◌, Option, none, some, List, str_eq, if◌then◌else◌,
}
use carlo_one_core.Supervisor.Slot.{AtomicSlot}
use carlo_one_core.Supervisor.Exit.{WorkerFailure, slot_busy}
use carlo_one_core.Supervisor.Worker
use carlo_one_core.Supervisor.Worker.{
  WorkerConfig, WorkerState, StartOs, StartError, WaitOs, TryWait, Held, Outcome, became_ready,
  gave_up, still_waiting, is_some, failure_of,
}

pub data EngineState : Type 0 where
  idle loading ready busy degraded draining rollback stopping failed : EngineState

-- The engine, with the slot of the process that its supervisor shares.
pub record Engine : Type 0 where
  pub held : Held
  pub state : EngineState
  pub active_model : Option String
  pub worker_endpoint : Option (String × ℕ)
  pub last_config : Option WorkerConfig

unfoldable pub new : AtomicSlot → Engine
new slot = record {
  held = record { sup = Worker.new; slot = slot };
  state = idle;
  active_model = none;
  worker_endpoint = none;
  last_config = none;
}

abbrev pub is_idle : EngineState → Bool
is_idle idle = true
is_idle _ = false

abbrev pub is_busy : EngineState → Bool
is_busy busy = true
is_busy _ = false

abbrev pub is_ready : EngineState → Bool
is_ready ready = true
is_ready _ = false

abbrev pub is_stopping : EngineState → Bool
is_stopping stopping = true
is_stopping _ = false

-- matches!(state, Degraded | Failed)
abbrev pub may_recover : EngineState → Bool
may_recover degraded = true
may_recover failed = true
may_recover _ = false

-- An `io::Error` of the engine's own, or the supervisor's.
pub data EngineError : Type 0 where
  slot_taken model_not_ready no_request request_active : EngineError
  start_failed : StartError → EngineError

started : WorkerConfig → Engine → Held × Option StartError → Engine × Option EngineError
started cfg e (h, none) = (
  record e {
    held = h;
    active_model = some cfg.model;
    worker_endpoint = some (cfg.host, cfg.port);
    state = loading;
    last_config = some cfg;
  },
  none,
)
started cfg e (h, some error) = (record e { held = h; state = failed }, some (start_failed error))

unfoldable pub start_model : WorkerConfig → StartOs → Engine → Engine × Option EngineError
unfolding started
start_model cfg os e =
    if is_some e.active_model || not (is_idle e.state)
    then (e, some slot_taken)
    else started cfg e (Worker.start cfg os e.held)

-- What a call that waits for the worker leaves: it returned, or the rounds that were given ended
-- before it did.
pub data Waited : Type 0 where
  returned : Engine → Option WorkerFailure → Waited
  waiting : Engine → Waited

-- The engine once the supervisor has answered; `by` is the state in which it waits.
waited : WorkerConfig → EngineState → Engine → Outcome → Waited
waited cfg by e (became_ready h) =
    returned
      (record {
        held = h;
        active_model = some cfg.model;
        worker_endpoint = some (cfg.host, cfg.port);
        state = ready;
        last_config = some cfg;
      })
      none
waited cfg by e (gave_up h failure) =
    returned (record e { held = h; active_model = none; worker_endpoint = none; state = failed })
      (some failure)
waited cfg by e (still_waiting h) = waiting (record e { held = h; state = by })

-- What `start_and_wait_with_retry` meets.
pub record RetryOs : Type 0 where
  pub first : WaitOs
  pub port_free : Bool
  pub again : WaitOs

unfoldable pub start_model_ready : WorkerConfig → RetryOs → Engine → Waited
unfolding waited
start_model_ready cfg os e =
    if is_some e.active_model || not (is_idle e.state)
    then returned e (some (failure_of slot_busy))
    else waited cfg loading e
        (Worker.start_and_wait_with_retry cfg os.first os.port_free os.again e.held)

refreshed : WorkerState → Engine → Engine
refreshed WorkerState.ready e = record e { state = ready }
refreshed WorkerState.failed e = record e {
  state = degraded;
  active_model = none;
  worker_endpoint = none;
}
refreshed WorkerState.stopped e =
    if is_stopping e.state
    then e
    else record e { state = idle; active_model = none; worker_endpoint = none }
refreshed WorkerState.starting e = e

unfoldable pub refresh : TryWait → Bool → List ℕ → Engine → Engine
unfolding refreshed
refresh status tcp tail e =
    let h = Worker.refresh status tcp tail e.held in
    if is_some e.worker_endpoint then refreshed h.sup.state (record e { held = h }) else e

abbrev pub is_model : String → Option String → Bool
is_model model none = false
is_model model (some active) = str_eq active model

unfoldable pub begin_request : String → Engine → Engine × Option EngineError
begin_request model e =
    if not (is_ready e.state) || not (is_model model e.active_model)
    then (e, some model_not_ready)
    else (record e { state = busy }, none)

unfoldable pub finish_request : Engine → Engine × Option EngineError
finish_request e =
    if is_busy e.state then (record e { state = ready }, none) else (e, some no_request)

-- `stop` of the supervisor always succeeds; the states `Draining` and `Stopping` are passed
-- through within the call.
unfoldable pub stop_model : Engine → Engine × Option EngineError
stop_model e = if is_busy e.state then (e, some request_active) else (
  record {
    held = Worker.stop e.held;
    active_model = none;
    worker_endpoint = none;
    last_config = none;
    state = idle;
  },
  none,
)

unfoldable pub recover_with_fallback : WorkerConfig → RetryOs → Engine → Waited
unfolding waited
recover_with_fallback cfg os e =
    if may_recover e.state
    then waited cfg rollback (record e { active_model = none; worker_endpoint = none })
        (Worker.start_and_wait_with_retry cfg os.first os.port_free os.again e.held)
    else returned e (some (failure_of slot_busy))

-- The `?` on `stop_model`.
and_start : WorkerConfig → StartOs → Engine × Option EngineError → Engine × Option EngineError
and_start cfg os (e, some error) = (e, some error)
and_start cfg os (e, none) = start_model cfg os e

unfoldable pub switch_model : WorkerConfig → StartOs → Engine → Engine × Option EngineError
unfolding and_start
switch_model cfg os e =
    if is_busy e.state
    then (e, some request_active)
    else if is_some e.active_model || not (is_idle e.state)
    then and_start cfg os (stop_model e)
    else start_model cfg os e

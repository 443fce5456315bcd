-- ===== src/Engine/Coherent.antt =====
-- triAI-Engine/src/engine.rs: a coherent engine, and the calls that start a worker.
pub mod Calls
use carlo_one_core.Prelude.{
  ℕ, String, Bool, true, false, not, ◌||◌, ◌≡◌, ◌≢◌, refl, sym, ◌∙◌, subst, Option, none, some,
  List, arith, Bool-cases, Option-cases, inl, inr,
}
use carlo_one_core.Supervisor.Slot.{AtomicSlot}
use carlo_one_core.Supervisor.Exit.{WorkerFailure}
use carlo_one_core.Supervisor.Worker
use carlo_one_core.Supervisor.Worker.{
  WorkerConfig, WorkerState, StartOs, StartError, TryWait, Held, Outcome, became_ready, gave_up,
  still_waiting, is_some,
}
use carlo_one_core.Supervisor.Worker.Contract.{
  IsSound, Contract, held_of, start-Contract, refresh-Contract, stop-Contract,
  start_and_wait_with_retry-Contract,
}
use carlo_one_core.Supervisor.Worker.Live.{
  IsLive, LiveIfStarted, LiveIfReady, Agrees, start-LiveIfStarted, with_retry-LiveIfReady,
  refresh-Agrees, refresh-IsLive,
}
use carlo_one_core.Engine.{
  Engine, EngineState, EngineError, Waited, returned, waiting, RetryOs, idle, loading, ready, busy,
  degraded, draining, rollback, stopping, failed, new, is_idle, is_busy, is_ready, is_stopping,
  is_model, may_recover, started, start_model, waited, start_model_ready, refreshed, refresh,
  begin_request, finish_request, stop_model, recover_with_fallback, and_start, switch_model,
}

-- A worker is being loaded, is ready or works on a request.
abbrev pub is_serving : EngineState → Bool
is_serving loading = true
is_serving ready = true
is_serving busy = true
is_serving _ = false

pub record IsCoherent (e : Engine) : Type 0 where
  pub sound : IsSound e.held
  pub endpoint_model : is_some e.active_model ≡ is_some e.worker_endpoint
  pub serving_model : is_serving e.state ≡ true → is_some e.active_model ≡ true
  pub idle_model : is_idle e.state ≡ true → e.active_model ≡ none
  pub idle_child : is_idle e.state ≡ true → e.held.sup.child ≡ none
  pub idle_unleased : is_idle e.state ≡ true → e.held.sup.process_slot ≡ none
  pub settled : is_stopping e.state ≡ false
  pub model_live : is_some e.active_model ≡ true → IsLive e.held

started-IsCoherent :
    (cfg : WorkerConfig) (e : Engine) (r : Held × Option StartError)
    → IsSound r.0
    → LiveIfStarted r
    → e.active_model ≡ none
    → e.worker_endpoint ≡ none
    → IsCoherent (started cfg e r).0
unfolding started
started-IsCoherent cfg e (h, none) s live m p = record {
  sound = s;
  endpoint_model = refl;
  serving_model = λ _. refl;
  idle_model = λ i. cc;
  idle_child = λ i. cc;
  idle_unleased = λ i. cc;
  settled = refl;
  model_live = λ _. live;
}
started-IsCoherent cfg e (h, some error) s live m p = record {
  sound = s;
  endpoint_model = rw (m, p);
  serving_model = λ i. cc;
  idle_model = λ i. cc;
  idle_child = λ i. cc;
  idle_unleased = λ i. cc;
  settled = refl;
  model_live = λ i. cc;
}

endpoint_of_model : (e : Engine) → IsCoherent e → e.active_model ≡ none → e.worker_endpoint ≡ none
endpoint_of_model e c m = ground (arith, c.endpoint_model)

pub start_model-IsCoherent :
    (cfg : WorkerConfig) (os : StartOs) (e : Engine)
    → IsCoherent e
    → IsCoherent (start_model cfg os e).0
unfolding start_model
start_model-IsCoherent cfg os e c =
    elim (Bool-cases (is_some e.active_model || not (is_idle e.state))) [
      | inl taken ↦ rw taken c
      | inr free ↦
          let m : e.active_model ≡ none = ground arith in
          rw free (
            started-IsCoherent cfg e (Worker.start cfg os e.held)
              ((start-Contract cfg os e.held).keeps c.sound) (start-LiveIfStarted cfg os e.held) m
              (endpoint_of_model e c m))
    ]

abbrev pub CoherentIfReturned : Waited → Type 0
CoherentIfReturned (returned e failure) = IsCoherent e
CoherentIfReturned (waiting e) = Unit

waited-IsCoherent :
    (cfg : WorkerConfig) (by : EngineState) (e : Engine) (o : Outcome)
    → IsSound (held_of o)
    → LiveIfReady o
    → CoherentIfReturned (waited cfg by e o)
unfolding waited
waited-IsCoherent cfg by e (became_ready h) s live = record {
  sound = s;
  endpoint_model = refl;
  serving_model = λ _. refl;
  idle_model = λ i. cc;
  idle_child = λ i. cc;
  idle_unleased = λ i. cc;
  settled = refl;
  model_live = λ _. live;
}
waited-IsCoherent cfg by e (gave_up h failure) s live = record {
  sound = s;
  endpoint_model = refl;
  serving_model = λ i. cc;
  idle_model = λ i. cc;
  idle_child = λ i. cc;
  idle_unleased = λ i. cc;
  settled = refl;
  model_live = λ i. cc;
}
waited-IsCoherent cfg by e (still_waiting h) s live = tt

pub start_model_ready-IsCoherent :
    (cfg : WorkerConfig) (os : RetryOs) (e : Engine)
    → IsCoherent e
    → CoherentIfReturned (start_model_ready cfg os e)
unfolding start_model_ready
start_model_ready-IsCoherent cfg os e c =
    elim (Bool-cases (is_some e.active_model || not (is_idle e.state))) [
      | inl taken ↦ rw taken c
      | inr free ↦ rw free (
          waited-IsCoherent cfg loading e _
            ((start_and_wait_with_retry-Contract cfg os.first os.port_free os.again e.held).keeps
              c.sound)
            (with_retry-LiveIfReady cfg os.first os.port_free os.again e.held))
    ]

pub recover_with_fallback-IsCoherent :
    (cfg : WorkerConfig) (os : RetryOs) (e : Engine)
    → IsCoherent e
    → CoherentIfReturned (recover_with_fallback cfg os e)
unfolding recover_with_fallback
recover_with_fallback-IsCoherent cfg os e c = elim (Bool-cases (may_recover e.state)) [
  | inr refused ↦ rw refused c
  | inl allowed ↦ rw allowed (
      waited-IsCoherent cfg rollback (record e { active_model = none; worker_endpoint = none }) _
        ((start_and_wait_with_retry-Contract cfg os.first os.port_free os.again e.held).keeps
          c.sound)
        (with_retry-LiveIfReady cfg os.first os.port_free os.again e.held))
]

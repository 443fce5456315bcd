-- ===== src/Engine/Coherent/Calls.antt =====
-- triAI-Engine/src/engine.rs: the other calls keep an engine coherent.
use carlo_one_core.Prelude.{
  ℕ, String, Bool, true, false, not, ◌||◌, ◌≡◌, refl, ◌∙◌, Option, none, some, List, arith,
  Bool-cases, inl, inr,
}
use carlo_one_core.Supervisor.Worker
use carlo_one_core.Supervisor.Worker.{
  WorkerConfig, WorkerState, StartOs, StartError, TryWait, Held, Outcome, became_ready, gave_up,
  still_waiting, is_some,
}
use carlo_one_core.Supervisor.Worker.Contract.{IsSound, refresh-Contract, stop-Contract}
use carlo_one_core.Supervisor.Worker.Live.{IsLive, Agrees, refresh-Agrees, refresh-IsLive}
use carlo_one_core.Engine.{
  Engine, EngineState, EngineError, ready, busy, is_idle, is_busy, is_ready, is_stopping, is_model,
  refreshed, refresh, begin_request, finish_request, stop_model, and_start, switch_model,
}
use carlo_one_core.Engine.Coherent.{is_serving, IsCoherent, start_model-IsCoherent}

-- A change of the state alone, to a serving one.
serve-IsCoherent :
    (e : Engine) (s : EngineState)
    → IsCoherent e
    → is_some e.active_model ≡ true
    → is_serving s ≡ true
    → IsCoherent (record e { state = s })
serve-IsCoherent e s c active serving = record {
  sound = c.sound;
  endpoint_model = c.endpoint_model;
  serving_model = λ _. active;
  idle_model = λ i. ground arith;
  idle_child = λ i. ground arith;
  idle_unleased = λ i. ground arith;
  settled = ground arith;
  model_live = c.model_live;
}

pub begin_request-IsCoherent :
    (model : String) (e : Engine) → IsCoherent e → IsCoherent (begin_request model e).0
unfolding begin_request
begin_request-IsCoherent model e c =
    elim (Bool-cases (not (is_ready e.state) || not (is_model model e.active_model))) [
      | inl refused ↦ rw refused c
      | inr accepted ↦ rw accepted (serve-IsCoherent e busy c (c.serving_model (ground arith)) refl)
    ]

pub finish_request-IsCoherent : (e : Engine) → IsCoherent e → IsCoherent (finish_request e).0
unfolding finish_request
finish_request-IsCoherent e c = elim (Bool-cases (is_busy e.state)) [
  | inl working ↦ rw working (serve-IsCoherent e ready c (c.serving_model (ground arith)) refl)
  | inr quiet ↦ rw quiet c
]

-- After the supervisor's refresh, before the engine follows it.
refreshed-IsCoherent :
    (w : WorkerState) (e : Engine)
    → IsSound e.held
    → is_some e.active_model ≡ is_some e.worker_endpoint
    → is_some e.active_model ≡ true
    → is_stopping e.state ≡ false
    → is_idle e.state ≡ false
    → (is_some e.held.sup.child ≡ true → IsLive e.held)
    → Agrees w e.held
    → IsCoherent (refreshed w e)
unfolding refreshed
refreshed-IsCoherent WorkerState.ready e s p active settled working live agrees = record {
  sound = s;
  endpoint_model = p;
  serving_model = λ _. active;
  idle_model = λ i. cc;
  idle_child = λ i. cc;
  idle_unleased = λ i. cc;
  settled = refl;
  model_live = λ _. live agrees;
}
refreshed-IsCoherent WorkerState.failed e s p active settled working live agrees = record {
  sound = s;
  endpoint_model = refl;
  serving_model = λ i. cc;
  idle_model = λ i. cc;
  idle_child = λ i. cc;
  idle_unleased = λ i. cc;
  settled = refl;
  model_live = λ i. cc;
}
refreshed-IsCoherent WorkerState.stopped e s p active settled working live agrees = absurd agrees
refreshed-IsCoherent WorkerState.starting e s p active settled working live agrees = record {
  sound = s;
  endpoint_model = p;
  serving_model = λ _. active;
  idle_model = λ i. cc;
  idle_child = λ i. cc;
  idle_unleased = λ i. cc;
  settled = settled;
  model_live = λ _. live agrees;
}

working_of_active :
    (e : Engine) → IsCoherent e → is_some e.active_model ≡ true → is_idle e.state ≡ false
working_of_active e c active = ground (arith, c.idle_model)

pub refresh-IsCoherent :
    (status : TryWait) (tcp : Bool) (tail : List ℕ) (e : Engine)
    → IsCoherent e
    → IsCoherent (refresh status tcp tail e)
unfolding refresh
refresh-IsCoherent status tcp tail e c = elim (Bool-cases (is_some e.worker_endpoint)) [
  | inr absent ↦ rw absent c
  | inl there ↦
      let active : is_some e.active_model ≡ true = c.endpoint_model ∙ there in
      let h = Worker.refresh status tcp tail e.held in
      rw there (
        refreshed-IsCoherent h.sup.state (record e { held = h })
          ((refresh-Contract status tcp tail e.held).keeps c.sound) c.endpoint_model active
          c.settled (working_of_active e c active)
          (refresh-IsLive status tcp tail e.held (c.model_live active))
          (refresh-Agrees status tcp tail e.held (c.model_live active)))
]

pub stop_model-IsCoherent : (e : Engine) → IsCoherent e → IsCoherent (stop_model e).0
unfolding stop_model
stop_model-IsCoherent e c = elim (Bool-cases (is_busy e.state)) [
  | inl working ↦ rw working c
  | inr quiet ↦ rw quiet (record {
    sound = (stop-Contract e.held).keeps c.sound;
    endpoint_model = refl;
    serving_model = λ i. cc;
    idle_model = λ i. refl;
    idle_child = λ i. unfold Worker.stop in refl;
    idle_unleased = λ i. unfold Worker.stop in refl;
    settled = refl;
    model_live = λ i. cc;
  })
]

and_start-IsCoherent :
    (cfg : WorkerConfig) (os : StartOs) (r : Engine × Option EngineError)
    → IsCoherent r.0
    → IsCoherent (and_start cfg os r).0
unfolding and_start
and_start-IsCoherent cfg os (e, none) c = start_model-IsCoherent cfg os e c
and_start-IsCoherent cfg os (e, some error) c = c

pub switch_model-IsCoherent :
    (cfg : WorkerConfig) (os : StartOs) (e : Engine)
    → IsCoherent e
    → IsCoherent (switch_model cfg os e).0
unfolding switch_model
switch_model-IsCoherent cfg os e c = elim (Bool-cases (is_busy e.state)) [
  | inl working ↦ rw working c
  | inr quiet ↦ elim (Bool-cases (is_some e.active_model || not (is_idle e.state))) [
    | inl occupied ↦
        rw (quiet, occupied)
          (and_start-IsCoherent cfg os (stop_model e) (stop_model-IsCoherent e c))
    | inr free ↦ rw (quiet, free) (start_model-IsCoherent cfg os e c)
  ]
]

-- ===== src/Engine/Switch.antt =====
-- triAI-Engine/src/engine.rs: a switch of the model, and a refresh during a request.
use carlo_one_core.Prelude.{
  ℕ, true, false, not, ◌||◌, ◌≡◌, refl, ◌∙◌, Option, none, some, arith, Bool-cases, inl, inr,
  eq_iff,
}
use carlo_one_core.Supervisor.Slot.{AtomicSlot, acquire, release?}
use carlo_one_core.Supervisor.Worker
use carlo_one_core.Supervisor.Worker.{
  WorkerConfig, StartOs, Held, is_some, running_as, launch, lock_attempts, lock_and_launch,
  lease_and_launch,
}
use carlo_one_core.Engine.{
  Engine, EngineError, loading, is_idle, is_busy, started, start_model, stop_model, and_start,
  switch_model,
}
use carlo_one_core.Engine.Coherent.{IsCoherent}
use carlo_one_core.Engine.Coherent.Calls.{stop_model-IsCoherent}

-- The lock file opens and can be locked, and the worker is spawned.
pub record IsWilling (os : StartOs) (pid : ℕ) : Type 0 where
  pub opens : os.lock_opens ≡ true
  pub locks : lock_attempts os.flock 0 20 ≡ true
  pub spawns : os.spawned ≡ running_as pid

-- The engine loads the model with that worker, which holds the slot.
pub record IsLoading (cfg : WorkerConfig) (pid : ℕ) (r : Engine × Option EngineError) : Type 0 where
  pub no_error : r.1 ≡ none
  pub state : r.0.state ≡ loading
  pub model : r.0.active_model ≡ some cfg.model
  pub config : r.0.last_config ≡ some cfg
  pub child : r.0.held.sup.child ≡ some pid
  pub slot : r.0.held.slot ≡ some cfg.model
  pub lease : r.0.held.sup.process_slot ≡ some cfg.model

worker_start :
    (cfg : WorkerConfig) (os : StartOs) (pid : ℕ) (h : Held)
    → IsWilling os pid
    → h.sup.child ≡ none
    → h.sup.active_model ≡ none
    → h.sup.process_slot ≡ none
    → h.slot ≡ none
    → let r = Worker.start cfg os h in
      (r.1 ≡ none)
      × (r.0.sup.child ≡ some pid)
      × (r.0.slot ≡ some cfg.model)
      × (r.0.sup.process_slot ≡ some cfg.model)
unfolding Worker.start lease_and_launch lock_and_launch acquire release? launch
worker_start cfg os pid h w c m l free =
    simp (c, m, l, free, w.opens, w.locks, w.spawns) (refl, refl, refl, refl)

started-IsLoading :
    (cfg : WorkerConfig) (pid : ℕ) (e : Engine) (h : Held)
    → h.sup.child ≡ some pid
    → h.slot ≡ some cfg.model
    → h.sup.process_slot ≡ some cfg.model
    → IsLoading cfg pid (started cfg e (h, none))
unfolding started
started-IsLoading cfg pid e h c k l = record {
  no_error = refl;
  state = refl;
  model = refl;
  config = refl;
  child = c;
  slot = k;
  lease = l;
}

-- A worker that starts, as a value.
started_as :
    (cfg : WorkerConfig) (pid : ℕ) (e : Engine) (h : Held) (r : Option Worker.StartError)
    → r ≡ none
    → h.sup.child ≡ some pid
    → h.slot ≡ some cfg.model
    → h.sup.process_slot ≡ some cfg.model
    → IsLoading cfg pid (started cfg e (h, r))
started_as cfg pid e h none q c k l = started-IsLoading cfg pid e h c k l
started_as cfg pid e h (some error) q c k l = cc

start_loads :
    (cfg : WorkerConfig) (os : StartOs) (pid : ℕ) (e : Engine)
    → IsWilling os pid
    → IsCoherent e
    → is_idle e.state ≡ true
    → e.held.slot ≡ none
    → IsLoading cfg pid (start_model cfg os e)
unfolding start_model
start_loads cfg os pid e w coherent quiet free =
    let c = coherent.idle_child quiet in
    let m : e.held.sup.active_model ≡ none = ground (arith, coherent.sound.child_modelled, c) in
    let r = worker_start cfg os pid e.held w c m (coherent.idle_unleased quiet) free in
    let named : (is_some e.active_model || not (is_idle e.state)) ≡ false =
      ground (arith, coherent.idle_model quiet) in
    rw named (started_as cfg pid e _ _ r.0 r.1 r.2 r.3)

and_start_loads :
    (cfg : WorkerConfig) (os : StartOs) (pid : ℕ) (r : Engine × Option EngineError)
    → IsWilling os pid
    → IsCoherent r.0
    → r.1 ≡ none
    → is_idle r.0.state ≡ true
    → r.0.held.slot ≡ none
    → IsLoading cfg pid (and_start cfg os r)
unfolding and_start
and_start_loads cfg os pid (e, none) w c q i f = start_loads cfg os pid e w c i f
and_start_loads cfg os pid (e, some error) w c q i f = cc

own_lease_freed : (slot : AtomicSlot) → release? slot slot ≡ none
unfolding release?
own_lease_freed none = refl
own_lease_freed (some owner) = ground (arith, eq_iff owner owner)

stop_frees :
    (e : Engine)
    → is_busy e.state ≡ false
    → e.held.slot ≡ e.held.sup.process_slot
    → let r = stop_model e in (r.1 ≡ none) × (is_idle r.0.state ≡ true) × (r.0.held.slot ≡ none)
unfolding stop_model Worker.stop
stop_frees e quiet own = rw quiet (refl, refl, rw own (own_lease_freed e.held.sup.process_slot))

-- A coherent engine that works on no request, over a slot that no other supervisor
-- holds, switches to any model: if the lock file opens and can be locked
-- and the worker is spawned, then the engine loads that model with the new worker, which holds the
-- slot, whatever the engine did before.
pub switch_loads :
    (cfg : WorkerConfig) (os : StartOs) (pid : ℕ) (e : Engine)
    → IsWilling os pid
    → IsCoherent e
    → is_busy e.state ≡ false
    → e.held.slot ≡ e.held.sup.process_slot
    → IsLoading cfg pid (switch_model cfg os e)
unfolding switch_model
switch_loads cfg os pid e w c quiet own =
    elim (Bool-cases (is_some e.active_model || not (is_idle e.state))) [
      | inr free ↦
          let still : is_idle e.state ≡ true = ground arith in
          rw (quiet, free) (start_loads cfg os pid e w c still (own ∙ c.idle_unleased still))
      | inl occupied ↦
          let f = stop_frees e quiet own in
          rw (quiet, occupied)
            (and_start_loads cfg os pid (stop_model e) w (stop_model-IsCoherent e c) f.0 f.1 f.2)
    ]

-- ===== src/Engine/Lifecycle.antt =====
-- triAI-Engine/src/engine.rs: what holds of an engine after any calls.
use carlo_one_core.Prelude.{ℕ, String, Bool, ◌≡◌, refl, subst, Option, List}
use carlo_one_core.Supervisor.Slot.{AtomicSlot}
use carlo_one_core.Supervisor.Exit.{WorkerFailure}
use carlo_one_core.Supervisor.Worker
use carlo_one_core.Supervisor.Worker.{
  WorkerConfig, WorkerState, StartOs, StartError, TryWait, Held, Outcome, became_ready, gave_up,
  still_waiting, is_some,
}
use carlo_one_core.Engine.{
  Engine, Waited, returned, RetryOs, new, start_model, start_model_ready, refresh, begin_request,
  finish_request, stop_model, recover_with_fallback, switch_model,
}
use carlo_one_core.Engine.Coherent.{
  IsCoherent, CoherentIfReturned, start_model-IsCoherent, start_model_ready-IsCoherent,
  recover_with_fallback-IsCoherent,
}
use carlo_one_core.Engine.Coherent.Calls.{
  begin_request-IsCoherent, finish_request-IsCoherent, refresh-IsCoherent, stop_model-IsCoherent,
  switch_model-IsCoherent,
}

-- One call of the engine, with whatever the system answers. A call that waits for a worker has no
-- state to show before it returns.
pub data Step : Engine → Engine → Type 0 where
  starts : (cfg : WorkerConfig) (os : StartOs) (e : Engine) → Step e (start_model cfg os e).0
  starts_ready :
      (cfg : WorkerConfig) (os : RetryOs) (e : Engine) {a : Engine} (r : Option WorkerFailure)
      → start_model_ready cfg os e ≡ returned a r
      → Step e a
  recovers :
      (cfg : WorkerConfig) (os : RetryOs) (e : Engine) {a : Engine} (r : Option WorkerFailure)
      → recover_with_fallback cfg os e ≡ returned a r
      → Step e a
  refreshes :
      (status : TryWait) (tcp : Bool) (tail : List ℕ) (e : Engine)
      → Step e (refresh status tcp tail e)
  begins : (model : String) (e : Engine) → Step e (begin_request model e).0
  finishes : (e : Engine) → Step e (finish_request e).0
  stops : (e : Engine) → Step e (stop_model e).0
  switches : (cfg : WorkerConfig) (os : StartOs) (e : Engine) → Step e (switch_model cfg os e).0

IsCoherent-returned :
    (w : Waited) (a : Engine) (r : Option WorkerFailure)
    → CoherentIfReturned w
    → w ≡ returned a r
    → IsCoherent a
IsCoherent-returned w a r c e = subst CoherentIfReturned e c

Step-IsCoherent : {e a : Engine} → Step e a → IsCoherent e → IsCoherent a
Step-IsCoherent (starts cfg os e) c = start_model-IsCoherent cfg os e c
Step-IsCoherent (starts_ready cfg os e {a = a} r q) c =
    IsCoherent-returned _ a r (start_model_ready-IsCoherent cfg os e c) q
Step-IsCoherent (recovers cfg os e {a = a} r q) c =
    IsCoherent-returned _ a r (recover_with_fallback-IsCoherent cfg os e c) q
Step-IsCoherent (refreshes status tcp tail e) c = refresh-IsCoherent status tcp tail e c
Step-IsCoherent (begins model e) c = begin_request-IsCoherent model e c
Step-IsCoherent (finishes e) c = finish_request-IsCoherent e c
Step-IsCoherent (stops e) c = stop_model-IsCoherent e c
Step-IsCoherent (switches cfg os e) c = switch_model-IsCoherent cfg os e c

-- From a new engine, whose supervisor holds nothing, whatever the slot.
pub data Reachable : Engine → Type 0 where
  at_start : (slot : AtomicSlot) → Reachable (new slot)
  then : {e a : Engine} → Reachable e → Step e a → Reachable a

new-IsCoherent : (slot : AtomicSlot) → IsCoherent (new slot)
unfolding new Worker.new
new-IsCoherent slot = record {
  sound = record { child_leased = λ i. cc; child_modelled = refl; lease_owned = λ o i. cc };
  endpoint_model = refl;
  serving_model = λ i. cc;
  idle_model = λ i. refl;
  idle_child = λ i. refl;
  idle_unleased = λ i. refl;
  settled = refl;
  model_live = λ i. cc;
}

-- After any calls, whatever the system answered: a model is named exactly if there is an endpoint;
-- while the engine loads, is ready or is busy, a model is named; while a model is named, a worker
-- child runs and the supervisor does not say that it is stopped; when the engine is idle, there is
-- neither a model nor a child.
pub Reachable-IsCoherent : {e : Engine} → Reachable e → IsCoherent e
Reachable-IsCoherent (at_start slot) = new-IsCoherent slot
Reachable-IsCoherent (then r step) = Step-IsCoherent step (Reachable-IsCoherent r)

-- ===== src/Engine/Tests.antt =====
-- Concrete runs of triAI-Engine/src/engine.rs, and the theorems about it at concrete inputs.
use carlo_one_core.Prelude.{refl, true, false, none, some, [], ◌∷◌}
use carlo_one_core.Supervisor.Slot.{acquire, release?}
use carlo_one_core.Supervisor.Worker
use carlo_one_core.Supervisor.Worker.{
  WorkerConfig, StartOs, WaitOs, Poll, running, running_as, launch, lock_and_launch,
  lease_and_launch, lock_attempts, wait_ready, wait_round, start_and_wait_with_retry,
  start_and_wait, retry, after_start,
}
use carlo_one_core.Engine.{Engine, new, start_model, started, begin_request, refresh, switch_model}
use carlo_one_core.Engine.Coherent.{IsCoherent}
use carlo_one_core.Engine.Lifecycle.{Reachable, at_start, then, starts, Reachable-IsCoherent}
use carlo_one_core.Engine.Switch.{IsWilling, IsLoading, switch_loads}

abbrev qwen : WorkerConfig
qwen = record {
  binary = "llama-server";
  model = "qwen";
  model_path = some "/models/qwen.gguf";
  host = "127.0.0.1";
  port = 8080;
  gpu_layers = 32;
  ctx_size = 4096;
}

abbrev phi : WorkerConfig
phi = record qwen { model = "phi" }

abbrev willing : StartOs
willing = record { lock_opens = true; flock = λ i. true; spawned = running_as 41 }

abbrev willing_again : StartOs
willing_again = record willing { spawned = running_as 42 }

abbrev up : Poll
up = record { status = running; tcp = true; health = some true; past_deadline = false }

abbrev good_run : WaitOs
good_run = record { port_taken = false; start_os = willing; polls = up ∷ []; tail = [] }

abbrev loads : Engine
loads = (start_model qwen willing (new none)).0

loads-Reachable : Reachable loads
loads-Reachable = then (at_start none) (starts qwen willing (new none))

Reachable-IsCoherent_example : IsCoherent loads
Reachable-IsCoherent_example = Reachable-IsCoherent loads-Reachable

is_willing : IsWilling willing_again 42
unfolding lock_attempts
is_willing = record { opens = refl; locks = refl; spawns = refl }

switch_loads_example : IsLoading phi 42 (switch_model phi willing_again loads)
unfolding start_model new started Worker.start lease_and_launch lock_and_launch launch lock_attempts
    acquire release? Worker.new
switch_loads_example =
    switch_loads phi willing_again 42 loads is_willing (Reachable-IsCoherent loads-Reachable) refl
      refl

-- The worker becomes ready by a refresh, then a request begins.
abbrev works : Engine
works = (begin_request "qwen" (refresh running true [] loads)).0

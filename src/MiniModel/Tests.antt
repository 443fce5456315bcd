-- ===== src/MiniModel/Tests.antt =====
-- Concrete runs of triAI-Engine/src/supervisor/fallback.rs, and the theorems about it at concrete
-- inputs.
use carlo_one_core.Prelude.{
  ◌≡◌, refl, String, true, false, Option, List, none, some, [], ◌∷◌, str_eq, if◌then◌else◌,
}
use carlo_one_core.Supervisor.Exit.{port_conflict}
use carlo_one_core.Supervisor.Worker
use carlo_one_core.Supervisor.Worker.{
  WorkerConfig, StartOs, WaitOs, Poll, Held, running, running_as, failure_of,
}
use carlo_one_core.Supervisor.Worker.Contract.{held_of}
use carlo_one_core.Supervisor.Slot.{acquire, release?}
use carlo_one_core.Engine.{Engine, RetryOs, new, ready}
use carlo_one_core.Engine.Lifecycle.{at_start, Reachable-IsCoherent}
use carlo_one_core.MiniModel.{
  has_parent, MiniModelSpec, MiniModelManifest, MiniModelSupervisor, MiniRuntimeConfig, Project,
  verify_digest, digest_at, digest_is, has_parent, worker_config, config_at, finished, primary,
  fail_over, ensure_ready, resolved_path,
}
use carlo_one_core.MiniModel.Ensure.{EndsWell, ensure_ready-EndsWell, failed_primary_falls_back}

abbrev mini : MiniModelSpec
mini = record {
  id = "mini";
  alias = none;
  path = record { is_absolute = false; components = "models" ∷ "mini.gguf" ∷ [] };
  quantization = "Q4";
  size_bytes = 1;
  sha256 = "aa";
  role = "advice";
  policy = "safe";
}

abbrev small : MiniModelSpec
small = record mini {
  id = "small";
  path = record { is_absolute = false; components = "models" ∷ "small.gguf" ∷ [] };
  sha256 = "bb";
}

abbrev minis : MiniModelManifest
minis = record { schema_version = 1; primary_mini_model = mini; fallback_mini_model = small }

abbrev digest_of : List String → Option String
digest_of [] = none
digest_of (folder ∷ []) = none
digest_of (folder ∷ file ∷ rest) = some (if str_eq file "mini.gguf" then "aa" else "bb")

abbrev home : Project
home = record { sha256_of_file = λ p. digest_of p.components; full_path = λ p. "/home/model.gguf" }

abbrev runtime : MiniRuntimeConfig
runtime = record {
  binary = "llama-server";
  host = "127.0.0.1";
  port = 8090;
  gpu_layers = 8;
  ctx_size = 2048;
}

abbrev config_for : String → WorkerConfig
config_for id = record {
  binary = "llama-server";
  model = id;
  model_path = some "/home/model.gguf";
  host = "127.0.0.1";
  port = 8090;
  gpu_layers = 8;
  ctx_size = 2048;
}

abbrev willing : StartOs
willing = record { lock_opens = true; flock = λ i. true; spawned = running_as 41 }

abbrev up : Poll
up = record { status = running; tcp = true; health = some true; past_deadline = false }

abbrev good_run : WaitOs
good_run = record { port_taken = false; start_os = willing; polls = up ∷ []; tail = [] }

abbrev works : RetryOs
works = record { first = good_run; port_free = false; again = good_run }

-- The port of the worker is taken, and stays so.
abbrev blocked : RetryOs
blocked = record {
  first = record good_run { port_taken = true };
  port_free = false;
  again = good_run;
}

abbrev fresh : Engine
fresh = new none

abbrev chooser : MiniModelSupervisor
chooser = record { manifest = minis; active = primary; failover_count = 0 }

above_the_root :
    resolved_path (record mini {
      path = record { is_absolute = false; components = "models" ∷ ".." ∷ "x.gguf" ∷ [] };
    })
    ≡ none
unfolding resolved_path has_parent
above_the_root = refl

ensure_ready-EndsWell_example :
    EndsWell home minis 0 (ensure_ready home runtime blocked works false chooser fresh)
ensure_ready-EndsWell_example =
    ensure_ready-EndsWell home runtime blocked works false chooser fresh
      (Reachable-IsCoherent (at_start none))

abbrev after_primary : Held
after_primary =
    held_of
      (Worker.start_and_wait_with_retry (config_for "mini") blocked.first false good_run fresh.held)

abbrev after_fallback : Held
after_fallback =
    held_of
      (Worker.start_and_wait_with_retry (config_for "small") good_run false good_run after_primary)

failed_primary_falls_back_example :
    ensure_ready home runtime blocked works false chooser fresh
    ≡ finished
        (fail_over chooser)
        (record {
          held = after_fallback;
          state = ready;
          active_model = some "small";
          worker_endpoint = some ("127.0.0.1", 8090);
          last_config = some (config_for "small");
        })
        none
unfolding new verify_digest digest_at digest_is resolved_path has_parent worker_config config_at
    Worker.start_and_wait_with_retry Worker.retry Worker.start_and_wait Worker.after_start
    Worker.start Worker.new Worker.lease_and_launch acquire release? Worker.lock_and_launch
    Worker.lock_attempts Worker.launch Worker.wait_ready Worker.wait_round
failed_primary_falls_back_example =
    failed_primary_falls_back home runtime blocked works chooser fresh (config_for "mini")
      (config_for "small") after_primary after_fallback (failure_of port_conflict)
      (Reachable-IsCoherent (at_start none)) refl refl refl refl refl refl refl refl

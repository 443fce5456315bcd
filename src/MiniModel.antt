-- ===== src/MiniModel.antt =====
-- triAI-Engine/src/supervisor/fallback.rs, with the checks of supervisor/manifest.rs on a path and
-- a digest: the choice between the primary and the fallback mini model over one engine. The events
-- for the log are left out, and so is a reason that only they tell.
pub mod Ensure
pub mod Selected
mod Tests
use carlo_one_core.Prelude.{
  ℕ, String, Bool, true, false, not, ◌&&◌, ◌||◌, Option, none, some, List, [], ◌∷◌, str_eq,
  if◌then◌else◌, sat_add,
}
use carlo_one_core.Supervisor.Exit.{WorkerFailure, WorkerFailureCode, slot_busy, corrupt_model}
use carlo_one_core.Supervisor.Worker.{WorkerConfig, failure_of}
use carlo_one_core.Engine.{
  Engine, EngineError, Waited, returned, waiting, RetryOs, is_ready, is_idle, is_model, may_recover,
  stop_model, start_model_ready, recover_with_fallback,
}

pub data ActiveMiniModel : Type 0 where
  primary fallback : ActiveMiniModel

pub data FailoverReason : Type 0 where
  primary_not_ready advice_timeout invalid_advice vram_pressure : FailoverReason

-- supervisor/primary.rs
pub data AdviceFailure : Type 0 where
  timeout invalid_json invalid_schema pressure primary_unavailable : AdviceFailure

-- A path as `is_absolute` and `components` read it.
pub record SpecPath : Type 0 where
  pub is_absolute : Bool
  pub components : List String

pub record MiniModelSpec : Type 0 where
  pub id : String
  pub alias : Option String
  pub path : SpecPath
  pub quantization : String
  pub size_bytes : ℕ
  pub sha256 : String
  pub role : String
  pub policy : String

pub record MiniModelManifest : Type 0 where
  pub schema_version : ℕ
  pub primary_mini_model : MiniModelSpec
  pub fallback_mini_model : MiniModelSpec

-- The timeout of readiness is in the answers of the system, which say when the deadline has passed.
pub record MiniRuntimeConfig : Type 0 where
  pub binary : String
  pub host : String
  pub port : ℕ
  pub gpu_layers : ℕ
  pub ctx_size : ℕ

-- The project's root on the disk: the digest of a file below it, if the file can be read, and the
-- text of its full path.
pub record Project : Type 0 where
  pub sha256_of_file : SpecPath → Option String
  pub full_path : SpecPath → String

pub record MiniModelSupervisor : Type 0 where
  pub manifest : MiniModelManifest
  pub active : ActiveMiniModel
  pub failover_count : ℕ

unfoldable pub new : MiniModelManifest → MiniModelSupervisor
new manifest = record { manifest = manifest; active = primary; failover_count = 0 }

abbrev pub is_primary : ActiveMiniModel → Bool
is_primary primary = true
is_primary fallback = false

abbrev pub spec_of : MiniModelManifest → ActiveMiniModel → MiniModelSpec
spec_of manifest primary = manifest.primary_mini_model
spec_of manifest fallback = manifest.fallback_mini_model

unfoldable pub active_spec : MiniModelSupervisor → MiniModelSpec
active_spec m = spec_of m.manifest m.active

unfoldable pub fail_over : MiniModelSupervisor → MiniModelSupervisor
fail_over m = record m { active = fallback; failover_count = sat_add m.failover_count 1 }

abbrev pub reason_of : AdviceFailure → FailoverReason
reason_of primary_unavailable = primary_not_ready
reason_of timeout = advice_timeout
reason_of invalid_json = invalid_advice
reason_of invalid_schema = invalid_advice
reason_of pressure = vram_pressure

unfoldable pub apply_advice_failure :
    AdviceFailure → MiniModelSupervisor → MiniModelSupervisor × Option FailoverReason
apply_advice_failure failure m = (fail_over m, some (reason_of failure))

unfoldable pub has_parent : List String → Bool
has_parent [] = false
has_parent (part ∷ parts) = str_eq part ".." || has_parent parts

unfoldable pub resolved_path : MiniModelSpec → Option SpecPath
resolved_path spec =
    if spec.path.is_absolute || has_parent spec.path.components then none else some spec.path

digest_is : String → Option String → Bool
digest_is sha256 none = false
digest_is sha256 (some actual) = str_eq actual sha256

digest_at : Project → String → Option SpecPath → Bool
unfolding digest_is
digest_at project sha256 none = false
digest_at project sha256 (some path) = digest_is sha256 (project.sha256_of_file path)

unfoldable pub verify_digest : Project → MiniModelSpec → Bool
unfolding digest_at
verify_digest project spec = digest_at project spec.sha256 (resolved_path spec)

config_at : Project → MiniRuntimeConfig → String → Option SpecPath → Option WorkerConfig
config_at project runtime id none = none
config_at project runtime id (some path) = some (record {
  binary = runtime.binary;
  model = id;
  model_path = some (project.full_path path);
  host = runtime.host;
  port = runtime.port;
  gpu_layers = runtime.gpu_layers;
  ctx_size = runtime.ctx_size;
})

unfoldable pub worker_config : Project → MiniRuntimeConfig → MiniModelSpec → Option WorkerConfig
unfolding config_at
worker_config project runtime spec = config_at project runtime spec.id (resolved_path spec)

-- The `?` on `stop_model`.
stopped_then : WorkerConfig → RetryOs → Engine × Option EngineError → Waited
stopped_then cfg os (e, some error) = returned e (some (failure_of slot_busy))
stopped_then cfg os (e, none) = start_model_ready cfg os e

unfoldable pub start_by_state : WorkerConfig → RetryOs → Engine → Waited
unfolding stopped_then
start_by_state cfg os e =
    if is_ready e.state
    then stopped_then cfg os (stop_model e)
    else if is_idle e.state
    then start_model_ready cfg os e
    else if may_recover e.state
    then recover_with_fallback cfg os e
    else returned e (some (failure_of slot_busy))

configured : Option WorkerConfig → RetryOs → Engine → Waited
configured none os e = returned e (some (failure_of corrupt_model))
configured (some cfg) os e = start_by_state cfg os e

-- `Ok(self.active)` is a return without a failure.
unfoldable pub start_selected :
    Project → MiniRuntimeConfig → RetryOs → MiniModelSpec → Engine → Waited
unfolding configured
start_selected project runtime os spec e =
    if not (verify_digest project spec)
    then returned e (some (failure_of corrupt_model))
    else if is_model spec.id e.active_model && is_ready e.state
    then returned e none
    else configured (worker_config project runtime spec) os e

-- How `ensure_ready` ends: with the active model or a failure, or still waiting for a worker when
-- the rounds that were given end.
pub data Ensured : Type 0 where
  finished : MiniModelSupervisor → Engine → Option WorkerFailure → Ensured
  unfinished : MiniModelSupervisor → Engine → Ensured

concluded : MiniModelSupervisor → Waited → Ensured
concluded m (returned e r) = finished m e r
concluded m (waiting e) = unfinished m e

attempted : Project → MiniRuntimeConfig → RetryOs → MiniModelSupervisor → Waited → Ensured
unfolding concluded
attempted project runtime os m (returned e none) = finished m e none
attempted project runtime os m (returned e (some failure)) =
    if is_primary m.active
    then concluded (fail_over m) (start_selected project runtime os (active_spec (fail_over m)) e)
    else finished m e (some failure)
attempted project runtime os m (waiting e) = unfinished m e

under_pressure : Bool → MiniModelSupervisor → MiniModelSupervisor
under_pressure pressed m = if pressed && is_primary m.active then fail_over m else m

-- What the system answers to the first start and to the one after a failover.
unfoldable pub ensure_ready :
    Project → MiniRuntimeConfig → RetryOs → RetryOs → Bool → MiniModelSupervisor → Engine → Ensured
unfolding attempted under_pressure
ensure_ready project runtime os os_fallback pressed m e =
    let chosen = under_pressure pressed m in
    attempted project runtime os_fallback chosen
      (start_selected project runtime os (active_spec chosen) e)

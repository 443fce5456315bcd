-- ===== src/MiniModel/Ensure.antt =====
-- triAI-Engine/src/supervisor/fallback.rs: how `ensure_ready` ends.
use carlo_one_core.Prelude.{
  ℕ, ◌+◌, Bool, true, false, ◌&&◌, ◌≡◌, refl, none, some, arith, Bool-cases, inl, inr, ◌≤◌,
}
use carlo_one_core.Supervisor.Exit.{WorkerFailure}
use carlo_one_core.Supervisor.Worker
use carlo_one_core.Supervisor.Worker.{
  WorkerConfig, Held, Outcome, became_ready, gave_up, still_waiting, failure_of, is_some,
}
use carlo_one_core.Engine.{
  Engine, Waited, returned, waiting, RetryOs, ready, failed, is_ready, is_idle,
}
use carlo_one_core.Engine.Coherent.{IsCoherent}
use carlo_one_core.MiniModel.Selected.{
  IsSafe, IntactIfOk, start_selected-IsSafe, start_selected-IntactIfOk, selected_fails,
  selected_recovers,
}
use carlo_one_core.MiniModel.{
  MiniModelSupervisor, MiniModelManifest, MiniRuntimeConfig, Project, ActiveMiniModel, Ensured,
  finished, unfinished, primary, fallback, is_primary, active_spec, fail_over, verify_digest,
  worker_config, start_selected, concluded, attempted, under_pressure, ensure_ready,
}

-- What `ensure_ready` promises over the manifest and the count of failovers that it was given.
abbrev pub EndsWell : Project → MiniModelManifest → ℕ → Ensured → Type 0
EndsWell project manifest count (finished m e none) =
    IsCoherent e
    × (is_ready e.state ≡ true)
    × (e.active_model ≡ some (active_spec m).id)
    × (verify_digest project (active_spec m) ≡ true)
    × (m.manifest ≡ manifest)
    × (m.failover_count ≤ count + 1)
EndsWell project manifest count (finished m e (some failure)) =
    IsCoherent e × (m.active ≡ fallback) × (m.manifest ≡ manifest) × (m.failover_count ≤ count + 1)
EndsWell project manifest count (unfinished m e) = m.manifest ≡ manifest

concluded-EndsWell :
    (project : Project) (manifest : MiniModelManifest) (count : ℕ) (m : MiniModelSupervisor)
    (w : Waited)
    → IsSafe (active_spec m).id w
    → IntactIfOk project (active_spec m) w
    → m.active ≡ fallback
    → m.manifest ≡ manifest
    → m.failover_count ≤ count + 1
    → EndsWell project manifest count (concluded m w)
unfolding concluded
concluded-EndsWell project manifest count m (returned e none) s i f k n =
    (s.0, s.1.0, s.1.1, i, k, n)
concluded-EndsWell project manifest count m (returned e (some failure)) s i f k n = (s.0, f, k, n)
concluded-EndsWell project manifest count m (waiting e) s i f k n = k

not_primary : (active : ActiveMiniModel) → is_primary active ≡ false → active ≡ fallback
not_primary primary other = cc
not_primary fallback other = refl

-- The first start has ended; only a primary has no failover behind it.
attempted-EndsWell :
    (project : Project) (runtime : MiniRuntimeConfig) (os : RetryOs) (manifest : MiniModelManifest)
    (count : ℕ) (m : MiniModelSupervisor) (w : Waited)
    → IsSafe (active_spec m).id w
    → IntactIfOk project (active_spec m) w
    → m.manifest ≡ manifest
    → m.failover_count ≤ count + 1
    → (is_primary m.active ≡ true → m.failover_count ≤ count)
    → EndsWell project manifest count (attempted project runtime os m w)
unfolding attempted fail_over
attempted-EndsWell project runtime os manifest count m (returned e none) s i k n p =
    (s.0, s.1.0, s.1.1, i, k, n)
attempted-EndsWell project runtime os manifest count m (waiting e) s i k n p = k
attempted-EndsWell project runtime os manifest count m (returned e (some failure)) s i k n p =
    elim (Bool-cases (is_primary m.active)) [
      | inr second ↦ rw second (s.0, not_primary m.active second, k, n)
      | inl first ↦
          let small = p first in
          rw first (
            concluded-EndsWell project manifest count (fail_over m) _
              (start_selected-IsSafe project runtime os (active_spec (fail_over m)) e s.0)
              (start_selected-IntactIfOk project runtime os (active_spec (fail_over m)) e) refl k
              (ground arith))
    ]

-- From a coherent engine, `ensure_ready` with any answers of the system leaves the engine
-- coherent, so that no second worker runs, keeps the manifest and counts at most one failover. If
-- it succeeds, then the engine is ready with the model that the supervisor calls active, and the
-- file of that model had the digest of the manifest; if it fails, the supervisor is left with the
-- fallback.
pub ensure_ready-EndsWell :
    (project : Project) (runtime : MiniRuntimeConfig) (os os_fallback : RetryOs) (pressed : Bool)
    (m : MiniModelSupervisor) (e : Engine)
    → IsCoherent e
    → EndsWell project m.manifest m.failover_count
        (ensure_ready project runtime os os_fallback pressed m e)
unfolding ensure_ready under_pressure fail_over
ensure_ready-EndsWell project runtime os os_fallback pressed m e c =
    elim (Bool-cases (pressed && is_primary m.active)) [
      | inl switches ↦ rw switches (
          attempted-EndsWell project runtime os_fallback m.manifest m.failover_count (fail_over m) _
            (start_selected-IsSafe project runtime os (active_spec (fail_over m)) e c)
            (start_selected-IntactIfOk project runtime os (active_spec (fail_over m)) e) refl
            (ground arith) (λ i. cc))
      | inr stays ↦ rw stays (
          attempted-EndsWell project runtime os_fallback m.manifest m.failover_count m _
            (start_selected-IsSafe project runtime os (active_spec m) e c)
            (start_selected-IntactIfOk project runtime os (active_spec m) e) refl (ground arith)
            (λ i. ground arith))
    ]

-- A primary whose file is intact but whose worker fails is replaced: from an idle, coherent engine
-- without pressure on the video memory, if the worker of the primary gives up, the file of the
-- fallback is intact and its worker becomes ready after that, then `ensure_ready` succeeds with
-- the fallback, which the engine serves, and one more failover is counted.
pub failed_primary_falls_back :
    (project : Project) (runtime : MiniRuntimeConfig) (os os_fallback : RetryOs)
    (m : MiniModelSupervisor) (e : Engine) (cfg cfg_fallback : WorkerConfig) (h h_ready : Held)
    (failure : WorkerFailure)
    → IsCoherent e
    → is_idle e.state ≡ true
    → m.active ≡ primary
    → verify_digest project m.manifest.primary_mini_model ≡ true
    → verify_digest project m.manifest.fallback_mini_model ≡ true
    → worker_config project runtime m.manifest.primary_mini_model ≡ some cfg
    → worker_config project runtime m.manifest.fallback_mini_model ≡ some cfg_fallback
    → Worker.start_and_wait_with_retry cfg os.first os.port_free os.again e.held ≡ gave_up h failure
    → Worker.start_and_wait_with_retry cfg_fallback os_fallback.first os_fallback.port_free
        os_fallback.again h
      ≡ became_ready h_ready
    → ensure_ready project runtime os os_fallback false m e
      ≡ finished
          (fail_over m)
          (record {
            held = h_ready;
            state = ready;
            active_model = some cfg_fallback.model;
            worker_endpoint = some (cfg_fallback.host, cfg_fallback.port);
            last_config = some cfg_fallback;
          })
          none
unfolding ensure_ready under_pressure attempted concluded active_spec start_selected fail_over
failed_primary_falls_back project runtime os os_fallback m e cfg cfg_fallback h h_ready failure c
      quiet p intact intact_fallback at at_fallback fails works =
    let broken = record e {
      held = h;
      active_model = none;
      worker_endpoint = none;
      state = failed;
    } in
    let first : is_primary m.active ≡ true = rw p refl in
    let spec : active_spec m ≡ m.manifest.primary_mini_model = rw p refl in
    rw
      (
        spec,
        selected_fails project runtime os e m.manifest.primary_mini_model cfg h failure quiet
            (c.idle_model quiet) intact at fails,
        first,
      )
      (rw
        (selected_recovers project runtime os_fallback broken m.manifest.fallback_mini_model
          cfg_fallback h_ready refl intact_fallback at_fallback works)
        refl)

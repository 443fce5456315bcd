-- ===== src/Supervisor/Tests.antt =====
-- Concrete runs of triAI-Engine/src/supervisor.rs, and the theorems about it at concrete inputs.
use mathlib.Core.List.{foldl}
use native.Mathlib.Decide.{ℕ_discrete}
use carlo_one_core.Prelude.{
  suc, zero, ◌≡◌, refl, true, false, none, some, List, [], ◌∷◌, arith, codes,
}
use carlo_one_core.Supervisor.Slot.{acquire}
use carlo_one_core.Supervisor.Exit.{out_of_memory, port_conflict, append_tail, classify_exit}
use carlo_one_core.Supervisor.Exit.Tail.{last_bytes, append_tail_keeps_end}
use carlo_one_core.Supervisor.Worker.{
  WorkerConfig, StartOs, WaitOs, Held, Poll, running, running_as, new, start, launch,
  lock_and_launch, lease_and_launch, lock_attempts, wait_ready, still_waiting, lock_open_failed,
  stop,
}
use carlo_one_core.Supervisor.Worker.Exclusion.{
  System, Reachable, at_start, then, starts, put_back, view, one_child,
}
use carlo_one_core.Supervisor.Worker.Waiting.{
  EndsWell, TimedOut, wait_ready-EndsWell, closed_times_out, loading_ignores_deadline,
}
use carlo_one_core.Supervisor.Worker.Leak.{Attempt, AllRefused, start_leaks_lease}

abbrev qwen : WorkerConfig
qwen = record {
  binary = "llama-server";
  model = "qwen";
  model_path = some "/models/qwen.gguf";
  host = "127.0.0.1";
  port = 8080;
  gpu_layers = 32;
  ctx_size = 4096;
}

abbrev phi : WorkerConfig
phi = record qwen { model = "phi" }

-- Everything goes well, after a first lock that is refused.
abbrev willing : StartOs
willing = record {
  lock_opens = true;
  flock = λ i. elim i [ zero ↦ false | suc n ↦ true ];
  spawned = running_as 41;
}

abbrev no_lock_file : StartOs
no_lock_file = record willing { lock_opens = false }

abbrev fresh : Held
fresh = record { sup = new; slot = none }

abbrev working : Held
working = (start qwen willing fresh).0

abbrev loading : Poll
loading = record { status = running; tcp = true; health = some false; past_deadline = true }

abbrev closed : Poll
closed = record { status = running; tcp = false; health = none; past_deadline = false }

abbrev late : Poll
late = record closed { past_deadline = true }

abbrev up : Poll
up = record closed { tcp = true; health = some true }

abbrev good_run : WaitOs
good_run = record {
  port_taken = false;
  start_os = willing;
  polls = closed ∷ loading ∷ up ∷ [];
  tail = [];
}

abbrev taken_run : WaitOs
taken_run = record good_run { port_taken = true }

starts_after_retry : working.sup.child ≡ some 41
unfolding start lease_and_launch lock_and_launch launch lock_attempts acquire new
starts_after_retry = refl

killed_is_out_of_memory :
    (classify_exit (record { code = none; signal = some 9 }) []).code ≡ out_of_memory
unfolding classify_exit
killed_is_out_of_memory = refl

bind_is_conflict :
    (classify_exit (record { code = some 1; signal = none }) (codes "Failed to BIND")).code
    ≡ port_conflict
unfolding classify_exit
bind_is_conflict = refl

append_tail_keeps_end_example :
    foldl append_tail (last_bytes (codes "load")) (codes "ing " ∷ codes "ok" ∷ [])
    ≡ last_bytes (codes "loading ok")
append_tail_keeps_end_example =
    append_tail_keeps_end (codes "load") (codes "ing " ∷ codes "ok" ∷ [])

-- The first supervisor has started a worker, the second has tried to.
abbrev contended : System
contended =
    let first = put_back (record { sup = λ _. new; slot = none }) 0 working in
    put_back first 1 (start phi willing (view first 1)).0

contended-Reachable : Reachable contended
contended-Reachable = then 1 (then 0 at_start (starts qwen willing _)) (starts phi willing _)

one_child_example : (contended.sup 1).child ≡ none
unfolding start lease_and_launch lock_and_launch launch lock_attempts acquire new put_back
    ℕ_discrete
one_child_example = one_child 0 1 contended-Reachable (λ e. omega arith) refl

wait_ready-EndsWell_example : EndsWell working (wait_ready [] (closed ∷ loading ∷ up ∷ []) working)
wait_ready-EndsWell_example = wait_ready-EndsWell [] (closed ∷ loading ∷ up ∷ []) working

closed_times_out_example :
    TimedOut (wait_ready (codes "slow") (closed ∷ closed ∷ late ∷ []) working)
unfolding start lease_and_launch lock_and_launch launch lock_attempts acquire new
closed_times_out_example =
    closed_times_out (codes "slow") working (closed ∷ closed ∷ []) late refl
      ((refl, refl), ((refl, refl), tt)) (refl, refl) refl

loading_ignores_deadline_example :
    wait_ready [] (loading ∷ loading ∷ []) working ≡ still_waiting working
unfolding start lease_and_launch lock_and_launch launch lock_attempts acquire new
loading_ignores_deadline_example =
    loading_ignores_deadline [] working (loading ∷ loading ∷ []) refl
      ((refl, refl, refl), ((refl, refl, refl), tt))

abbrev later_starts : List Attempt
later_starts =
    record { cfg = phi; os = willing; sup = (start qwen no_lock_file fresh).0.sup }
    ∷ record { cfg = qwen; os = willing; sup = new }
    ∷ record { cfg = phi; os = willing; sup = working.sup }
    ∷ []

start_leaks_lease_example :
    let leaked = (start qwen no_lock_file fresh).0 in
    ((start qwen no_lock_file fresh).1 ≡ some lock_open_failed)
    × (leaked.sup.child ≡ none)
    × (leaked.slot ≡ some "qwen")
    × AllRefused leaked.slot later_starts
    × ((stop leaked).slot ≡ none)
unfolding new
start_leaks_lease_example =
    start_leaks_lease qwen no_lock_file fresh later_starts refl refl refl refl refl

-- ===== src/Supervisor/Worker.antt =====
-- triAI-Engine/src/supervisor.rs, `WorkerSupervisor`. The operating system answers by the records
-- below; the slot of the process is passed along, and `Held` is a supervisor with it.
pub mod Contract
pub mod Exclusion
pub mod Waiting
pub mod Leak
pub mod Live
use carlo_one_core.Prelude.{
  ℕ, zero, suc, ◌+◌, String, Bool, true, false, ◌&&◌, Option, none, some, List, [], ◌∷◌, ◌==◌,
  if◌then◌else◌,
}
use carlo_one_core.Supervisor.Slot.{AtomicSlot, SlotLease, acquire, release?}
use carlo_one_core.Supervisor.Exit.{
  WorkerFailureCode, WorkerFailure, ExitStatus, classify_exit, worker_timeout, worker_crashed,
  port_conflict, spawn_failed, slot_busy,
}

pub record WorkerConfig : Type 0 where
  pub binary : String
  pub model : String
  pub model_path : Option String
  pub host : String
  pub port : ℕ
  pub gpu_layers : ℕ
  pub ctx_size : ℕ

pub data WorkerState : Type 0 where
  stopped starting ready failed : WorkerState

-- A child is its process id, a held lock file a flag, the capture of stderr whether it runs.
pub record WorkerSupervisor : Type 0 where
  pub child : Option ℕ
  pub state : WorkerState
  pub active_model : Option String
  pub slot_lock : Bool
  pub process_slot : Option SlotLease
  pub stderr_capture : Bool
  pub last_failure : Option WorkerFailure

pub record Held : Type 0 where
  pub sup : WorkerSupervisor
  pub slot : AtomicSlot

unfoldable pub new : WorkerSupervisor
new = record {
  child = none;
  state = stopped;
  active_model = none;
  slot_lock = false;
  process_slot = none;
  stderr_capture = false;
  last_failure = none;
}

-- An `io::Error`, by the place that it comes from.
pub data StartError : Type 0 where
  already_exists lease_busy lock_open_failed lock_busy stderr_missing spawn_error : StartError

pub data Spawned : Type 0 where
  running_as : ℕ → Spawned
  without_stderr : ℕ → Spawned
  not_spawned : Spawned

-- What `start` asks of the system: does the lock file open, does the n-th `flock` succeed, and
-- what does `spawn` give.
pub record StartOs : Type 0 where
  pub lock_opens : Bool
  pub flock : ℕ → Bool
  pub spawned : Spawned

-- The attempts from the i-th on, n of them.
unfoldable pub lock_attempts : (ℕ → Bool) → ℕ → ℕ → Bool
lock_attempts flock i zero = false
lock_attempts flock i (suc n) =
    let later = lock_attempts flock (i + 1) n in if flock i then true else later

abbrev pub failure_of : WorkerFailureCode → WorkerFailure
failure_of code = record { code = code; stderr_tail = [] }

-- Once the lock is held: the spawn, and what becomes of it.
unfoldable pub launch : WorkerConfig → Spawned → Held → Held × Option StartError
launch cfg (running_as pid) h = (
  record {
    sup = record h.sup {
      child = some pid;
      active_model = some cfg.model;
      stderr_capture = true;
      last_failure = none;
    };
    slot = h.slot;
  },
  none,
)
launch cfg (without_stderr pid) h = (
  record {
    sup = record h.sup {
      slot_lock = false;
      process_slot = none;
      state = failed;
      last_failure = some (failure_of spawn_failed);
    };
    slot = release? h.sup.process_slot h.slot;
  },
  some stderr_missing,
)
launch cfg not_spawned h = (
  record {
    sup = record h.sup {
      slot_lock = false;
      process_slot = none;
      state = failed;
      last_failure = some (failure_of spawn_failed);
    };
    slot = release? h.sup.process_slot h.slot;
  },
  some spawn_error,
)

-- With the lease: the lock file and its 20 attempts. The `?` on the open leaves at once.
unfoldable pub lock_and_launch : WorkerConfig → StartOs → Held → Held × Option StartError
lock_and_launch cfg os h =
    if os.lock_opens
    then if lock_attempts os.flock 0 20
      then launch cfg os.spawned
          (record { sup = record h.sup { slot_lock = true; state = starting }; slot = h.slot })
      else (
        record {
          sup = record h.sup {
            process_slot = none;
            state = failed;
            last_failure = some (failure_of slot_busy);
          };
          slot = release? h.sup.process_slot h.slot;
        },
        some lock_busy,
      )
    else (h, some lock_open_failed)

unfoldable pub lease_and_launch :
    WorkerConfig → StartOs → Held → Option (SlotLease × AtomicSlot) → Held × Option StartError
lease_and_launch cfg os h none = (
  record h { sup = record h.sup { state = failed; last_failure = some (failure_of slot_busy) } },
  some lease_busy,
)
lease_and_launch cfg os h (some (lease, slot)) = lock_and_launch cfg os (record {
  sup = record h.sup { process_slot = some lease };
  slot = release? h.sup.process_slot slot;
})

abbrev pub is_some {ℓ} : {A : Type ℓ} → Option A → Bool
is_some none = false
is_some (some _) = true

unfoldable pub start : WorkerConfig → StartOs → Held → Held × Option StartError
start cfg os h =
    if is_some h.sup.child
    then (h, some already_exists)
    else if is_some h.sup.active_model
    then (h, some already_exists)
    else lease_and_launch cfg os h (acquire cfg.model h.slot)

-- The child is terminated if it still runs, and reaped; the capture ends.
unfoldable pub cleanup_failed_worker : Held → Held
cleanup_failed_worker h = record {
  sup = record h.sup {
    child = none;
    stderr_capture = false;
    active_model = none;
    slot_lock = false;
    process_slot = none;
    state = failed;
  };
  slot = release? h.sup.process_slot h.slot;
}

-- `Child::try_wait`
pub data TryWait : Type 0 where
  running : TryWait
  exited : ExitStatus → TryWait
  unreadable : TryWait

abbrev pub with_failure : WorkerFailure → Held → Held
with_failure failure h = record h { sup = record h.sup { last_failure = some failure } }

unfoldable pub refresh_child : TryWait → Bool → List ℕ → Held → Held
refresh_child (exited status) tcp tail h =
    with_failure (classify_exit status tail) (cleanup_failed_worker h)
refresh_child running tcp tail h = record h {
  sup = record h.sup { state = if tcp then ready else h.sup.state };
}
refresh_child unreadable tcp tail h = record h { sup = record h.sup { state = failed } }

-- `tail` is what the capture holds when it ends.
unfoldable pub refresh : TryWait → Bool → List ℕ → Held → Held
refresh status tcp tail h =
    if is_some h.sup.child
    then refresh_child status tcp tail h
    else record h { sup = record h.sup { state = stopped } }

unfoldable pub stop : Held → Held
stop h = record {
  sup = record {
    child = none;
    state = stopped;
    active_model = none;
    slot_lock = false;
    process_slot = none;
    stderr_capture = false;
    last_failure = none;
  };
  slot = release? h.sup.process_slot h.slot;
}

-- One round of the wait for readiness, as the system answers it.
pub record Poll : Type 0 where
  pub status : TryWait
  pub tcp : Bool
  pub health : Option Bool
  pub past_deadline : Bool

pub data Outcome : Type 0 where
  became_ready : Held → Outcome
  gave_up : Held → WorkerFailure → Outcome
  still_waiting : Held → Outcome

unfoldable pub give_up : WorkerFailure → Held → Outcome
give_up failure h = gave_up (with_failure failure (cleanup_failed_worker h)) failure

abbrev pub is_loading : Option Bool → Bool
is_loading (some false) = true
is_loading _ = false

-- The rounds of the loop; the list is what the system answers in turn. `tail` is the end of stderr
-- when the loop is left.
unfoldable pub wait_round : List ℕ → Poll → TryWait → Outcome → Held → Outcome
wait_round tail p unreadable next h =
    give_up (record { code = worker_crashed; stderr_tail = tail }) h
wait_round tail p (exited status) next h = give_up (classify_exit status tail) h
wait_round tail p running next h =
    if p.tcp
    then if is_loading p.health
      then next
      else became_ready (record h { sup = record h.sup { state = ready } })
    else if p.past_deadline
    then give_up (record { code = worker_timeout; stderr_tail = tail }) h
    else next

unfoldable pub wait_ready : List ℕ → List Poll → Held → Outcome
wait_ready tail [] h = still_waiting h
wait_ready tail (p ∷ ps) h =
    if is_some h.sup.child
    then wait_round tail p p.status (wait_ready tail ps h) h
    else give_up (record { code = worker_crashed; stderr_tail = tail }) h

-- The error of `start` as the failure that is reported: the one that it noted, or one by its kind.
abbrev pub start_failure : StartError → Option WorkerFailure → WorkerFailure
start_failure e (some noted) = noted
start_failure lease_busy none = failure_of slot_busy
start_failure lock_busy none = failure_of slot_busy
start_failure _ none = failure_of spawn_failed

unfoldable pub after_start : List ℕ → List Poll → Held × Option StartError → Outcome
after_start tail polls (h, none) = wait_ready tail polls h
after_start tail polls (h, some e) = gave_up h (start_failure e h.sup.last_failure)

-- What one call of `start_and_wait` meets.
pub record WaitOs : Type 0 where
  pub port_taken : Bool
  pub start_os : StartOs
  pub polls : List Poll
  pub tail : List ℕ

unfoldable pub start_and_wait : WorkerConfig → WaitOs → Held → Outcome
start_and_wait cfg os h =
    if os.port_taken
    then gave_up
        (record h {
          sup = record h.sup { state = failed; last_failure = some (failure_of port_conflict) };
        })
        (failure_of port_conflict)
    else after_start os.tail os.polls (start cfg os.start_os h)

abbrev pub is_port_conflict : WorkerFailureCode → Bool
is_port_conflict port_conflict = true
is_port_conflict _ = false

-- A second call is made after a conflict on the port, if the port is free then.
unfoldable pub retry : WorkerConfig → Bool → WaitOs → Outcome → Outcome
retry cfg port_free again (gave_up h first) =
    if is_port_conflict first.code && port_free
    then start_and_wait cfg again
        (record h { sup = record h.sup { state = stopped; last_failure = none } })
    else gave_up h first
retry cfg port_free again (became_ready h) = became_ready h
retry cfg port_free again (still_waiting h) = still_waiting h

unfoldable pub start_and_wait_with_retry : WorkerConfig → WaitOs → Bool → WaitOs → Held → Outcome
start_and_wait_with_retry cfg first port_free again h =
    retry cfg port_free again (start_and_wait cfg first h)

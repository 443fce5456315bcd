-- ===== src/Supervisor/Worker/Live.antt =====
-- triAI-Engine/src/supervisor.rs: what a start and a refresh say of the child.
use carlo_one_core.Prelude.{
  ℕ, Bool, true, false, ◌≡◌, ◌≢◌, refl, Option, none, some, List, [], ◌∷◌, ◌&&◌, arith, Bool-cases,
  inl, inr,
}
use carlo_one_core.Supervisor.Slot.{AtomicSlot, SlotLease, acquire}
use carlo_one_core.Supervisor.Worker.{
  Held, Outcome, became_ready, gave_up, still_waiting, WorkerConfig, StartOs, StartError, Spawned,
  WaitOs, Poll, TryWait, WorkerState, running, exited, unreadable, running_as, without_stderr,
  not_spawned, is_some, is_loading, is_port_conflict, launch, lock_attempts, lock_and_launch,
  lease_and_launch, start, refresh, refresh_child, wait_ready, wait_round, after_start,
  start_and_wait, retry, start_and_wait_with_retry, cleanup_failed_worker, give_up, stopped,
}

-- A child runs, and it is not said to be stopped.
abbrev pub IsLive : Held → Type 0
IsLive h = (is_some h.sup.child ≡ true) × (h.sup.state ≢ stopped)

abbrev pub LiveIfStarted : Held × Option StartError → Type 0
LiveIfStarted (h, none) = IsLive h
LiveIfStarted (h, some e) = Unit

launch-LiveIfStarted :
    (cfg : WorkerConfig) (s : Spawned) (h : Held)
    → h.sup.state ≢ stopped
    → LiveIfStarted (launch cfg s h)
unfolding launch
launch-LiveIfStarted cfg (running_as pid) h n = (refl, n)
launch-LiveIfStarted cfg (without_stderr pid) h n = tt
launch-LiveIfStarted cfg not_spawned h n = tt

lock_and_launch-LiveIfStarted :
    (cfg : WorkerConfig) (os : StartOs) (h : Held) → LiveIfStarted (lock_and_launch cfg os h)
unfolding lock_and_launch
lock_and_launch-LiveIfStarted cfg os h = elim (Bool-cases os.lock_opens) [
  | inr shut ↦ rw shut tt
  | inl opens ↦ elim (Bool-cases (lock_attempts os.flock 0 20)) [
    | inr busy ↦ rw (opens, busy) tt
    | inl locked ↦ rw (opens, locked) (launch-LiveIfStarted cfg os.spawned _ (λ e. cc))
  ]
]

lease_and_launch-LiveIfStarted :
    (cfg : WorkerConfig) (os : StartOs) (h : Held) (got : Option (SlotLease × AtomicSlot))
    → LiveIfStarted (lease_and_launch cfg os h got)
unfolding lease_and_launch
lease_and_launch-LiveIfStarted cfg os h none = tt
lease_and_launch-LiveIfStarted cfg os h (some (lease, slot)) =
    lock_and_launch-LiveIfStarted cfg os _

pub start-LiveIfStarted :
    (cfg : WorkerConfig) (os : StartOs) (h : Held) → LiveIfStarted (start cfg os h)
unfolding start
start-LiveIfStarted cfg os h = elim (Bool-cases (is_some h.sup.child)) [
  | inl child ↦ rw child tt
  | inr none_yet ↦ elim (Bool-cases (is_some h.sup.active_model)) [
    | inl active ↦ rw (none_yet, active) tt
    | inr idle ↦
        rw (none_yet, idle) (lease_and_launch-LiveIfStarted cfg os h (acquire cfg.model h.slot))
  ]
]

abbrev pub LiveIfReady : Outcome → Type 0
LiveIfReady (became_ready h) = IsLive h
LiveIfReady (gave_up h failure) = Unit
LiveIfReady (still_waiting h) = Unit

wait_round-LiveIfReady :
    (tail : List ℕ) (p : Poll) (status : TryWait) (next : Outcome) (h : Held)
    → is_some h.sup.child ≡ true
    → LiveIfReady next
    → LiveIfReady (wait_round tail p status next h)
unfolding wait_round give_up
wait_round-LiveIfReady tail p unreadable next h child live = tt
wait_round-LiveIfReady tail p (exited status) next h child live = tt
wait_round-LiveIfReady tail p running next h child live = elim (Bool-cases p.tcp) [
  | inl listens ↦ elim (Bool-cases (is_loading p.health)) [
    | inl loading ↦ rw (listens, loading) live
    | inr up ↦ rw (listens, up) (child, λ e. cc)
  ]
  | inr shut ↦ elim (Bool-cases p.past_deadline) [
    | inl late ↦ rw (shut, late) tt
    | inr early ↦ rw (shut, early) live
  ]
]

wait_ready-LiveIfReady :
    (tail : List ℕ) (polls : List Poll) (h : Held) → LiveIfReady (wait_ready tail polls h)
unfolding wait_ready wait_round give_up
wait_ready-LiveIfReady tail [] h = tt
wait_ready-LiveIfReady tail (p ∷ ps) h = elim (Bool-cases (is_some h.sup.child)) [
  | inl child ↦
      rw child (wait_round-LiveIfReady tail p p.status _ h child (wait_ready-LiveIfReady tail ps h))
  | inr gone ↦ rw gone tt
]

after_start-LiveIfReady :
    (tail : List ℕ) (polls : List Poll) (r : Held × Option StartError)
    → LiveIfReady (after_start tail polls r)
unfolding after_start
after_start-LiveIfReady tail polls (h, none) = wait_ready-LiveIfReady tail polls h
after_start-LiveIfReady tail polls (h, some e) = tt

start_and_wait-LiveIfReady :
    (cfg : WorkerConfig) (os : WaitOs) (h : Held) → LiveIfReady (start_and_wait cfg os h)
unfolding start_and_wait
start_and_wait-LiveIfReady cfg os h = elim (Bool-cases os.port_taken) [
  | inl taken ↦ rw taken tt
  | inr free ↦ rw free (after_start-LiveIfReady os.tail os.polls (start cfg os.start_os h))
]

retry-LiveIfReady :
    (cfg : WorkerConfig) (port_free : Bool) (again : WaitOs) (o : Outcome)
    → LiveIfReady o
    → LiveIfReady (retry cfg port_free again o)
unfolding retry
retry-LiveIfReady cfg port_free again (became_ready h) live = live
retry-LiveIfReady cfg port_free again (still_waiting h) live = tt
retry-LiveIfReady cfg port_free again (gave_up h first) live =
    elim (Bool-cases (is_port_conflict first.code && port_free)) [
      | inl more ↦ rw more (start_and_wait-LiveIfReady cfg again _)
      | inr over ↦ rw over tt
    ]

-- Whatever the system answers, over both attempts: if the call returns without a failure, a child
-- runs and the supervisor does not say that it is stopped.
pub with_retry-LiveIfReady :
    (cfg : WorkerConfig) (first : WaitOs) (port_free : Bool) (again : WaitOs) (h : Held)
    → LiveIfReady (start_and_wait_with_retry cfg first port_free again h)
unfolding start_and_wait_with_retry
with_retry-LiveIfReady cfg first port_free again h =
    retry-LiveIfReady cfg port_free again (start_and_wait cfg first h)
      (start_and_wait-LiveIfReady cfg first h)

-- After a refresh of a live worker: never stopped, ready or starting only if there is a child.
abbrev pub Agrees : WorkerState → Held → Type 0
Agrees WorkerState.stopped h = ⊥
Agrees WorkerState.ready h = is_some h.sup.child ≡ true
Agrees WorkerState.starting h = is_some h.sup.child ≡ true
Agrees WorkerState.failed h = Unit

Agrees-IsLive :
    (state : WorkerState) (h : Held) → is_some h.sup.child ≡ true → state ≢ stopped → Agrees state h
Agrees-IsLive WorkerState.stopped h child going = absurd (going refl)
Agrees-IsLive WorkerState.ready h child going = child
Agrees-IsLive WorkerState.starting h child going = child
Agrees-IsLive WorkerState.failed h child going = tt

refresh_child-Agrees :
    (status : TryWait) (tcp : Bool) (tail : List ℕ) (h : Held)
    → IsLive h
    → Agrees (refresh_child status tcp tail h).sup.state (refresh_child status tcp tail h)
unfolding refresh_child cleanup_failed_worker
refresh_child-Agrees unreadable tcp tail h live = tt
refresh_child-Agrees (exited status) tcp tail h live = tt
refresh_child-Agrees running true tail h live = live.0
refresh_child-Agrees running false tail h live = Agrees-IsLive h.sup.state h live.0 live.1

pub refresh-Agrees :
    (status : TryWait) (tcp : Bool) (tail : List ℕ) (h : Held)
    → IsLive h
    → Agrees (refresh status tcp tail h).sup.state (refresh status tcp tail h)
unfolding refresh
refresh-Agrees status tcp tail h live = rw (live.0) (refresh_child-Agrees status tcp tail h live)

pub refresh-IsLive :
    (status : TryWait) (tcp : Bool) (tail : List ℕ) (h : Held)
    → IsLive h
    → is_some (refresh status tcp tail h).sup.child ≡ true
    → IsLive (refresh status tcp tail h)
unfolding refresh refresh_child cleanup_failed_worker
refresh-IsLive running tcp tail h live child = ground arith
refresh-IsLive (exited status) tcp tail h live child = ground arith
refresh-IsLive unreadable tcp tail h live child = ground arith

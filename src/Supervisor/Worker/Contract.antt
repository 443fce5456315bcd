-- ===== src/Supervisor/Worker/Contract.antt =====
-- triAI-Engine/src/supervisor.rs: what every operation of a supervisor does to the slot.
use carlo_one_core.Prelude.{
  ℕ, String, Bool, true, ◌≡◌, refl, Option, none, some, List, [], ◌∷◌, arith, Option-cases, ◌&&◌,
  Bool-cases, inl, inr,
}
use carlo_one_core.Supervisor.Slot.{AtomicSlot, acquire, release?}
use carlo_one_core.Supervisor.Exit.{WorkerFailure, classify_exit}
use carlo_one_core.Supervisor.Worker.{
  Held, Outcome, became_ready, gave_up, still_waiting, WorkerConfig, StartOs, StartError, WaitOs,
  Poll, TryWait, running, exited, unreadable, is_some, is_port_conflict, stopped, is_loading,
  with_failure, launch, lock_and_launch, lease_and_launch, start, cleanup_failed_worker, refresh,
  refresh_child, stop, wait_ready, wait_round, give_up, after_start, start_and_wait, retry,
  start_and_wait_with_retry,
}

-- A child comes with a lease and a model, and a lease is what the slot names.
pub record IsSound (h : Held) : Type 0 where
  pub child_leased : is_some h.sup.child ≡ true → is_some h.sup.process_slot ≡ true
  pub child_modelled : is_some h.sup.child ≡ is_some h.sup.active_model
  pub lease_owned : (o : String) → h.sup.process_slot ≡ some o → h.slot ≡ some o

-- Soundness is kept, and a slot that another holds is left to it.
pub record Contract (b a : Held) : Type 0 where
  pub keeps : IsSound b → IsSound a
  pub respects :
      (o : String)
      → b.slot ≡ some o
      → b.sup.process_slot ≡ none
      → (a.slot ≡ some o) × (a.sup.process_slot ≡ none)

pub Contract-refl : (h : Held) → Contract h h
Contract-refl h = record { keeps = λ s. s; respects = λ o e n. (e, n) }

pub Contract-trans : (a b c : Held) → Contract a b → Contract b c → Contract a c
Contract-trans a b c p q = record {
  keeps = λ s. q.keeps (p.keeps s);
  respects = λ o e n. let (e', n') = p.respects o e n in q.respects o e' n';
}

pub stop-Contract : (h : Held) → Contract h (stop h)
unfolding stop release?
stop-Contract h = record {
  keeps = λ s. record { child_leased = λ e. cc; child_modelled = refl; lease_owned = λ o e. cc };
  respects = λ o e n. ground arith;
}

pub cleanup-Contract : (h : Held) → Contract h (cleanup_failed_worker h)
unfolding cleanup_failed_worker release?
cleanup-Contract h = record {
  keeps = λ s. record { child_leased = λ e. cc; child_modelled = refl; lease_owned = λ o e. cc };
  respects = λ o e n. ground arith;
}

-- What touches neither the child nor the slot.
same_slot-Contract :
    (b a : Held)
    → a.sup.child ≡ b.sup.child
    → a.sup.active_model ≡ b.sup.active_model
    → a.sup.process_slot ≡ b.sup.process_slot
    → a.slot ≡ b.slot
    → Contract b a
same_slot-Contract b a c m l k = record {
  keeps = λ s. record {
    child_leased = λ e. ground arith;
    child_modelled = ground arith;
    lease_owned = λ o e. ground (arith, s.lease_owned o);
  };
  respects = λ o e n. (cc, cc);
}

failed-Contract :
    (failure : WorkerFailure) (h : Held)
    → Contract h (with_failure failure (cleanup_failed_worker h))
failed-Contract failure h =
    Contract-trans h (cleanup_failed_worker h) _ (cleanup-Contract h)
      (same_slot-Contract (cleanup_failed_worker h) _ refl refl refl refl)

-- The supervisor at the end, whatever the outcome.
abbrev pub held_of : Outcome → Held
held_of (became_ready h) = h
held_of (gave_up h failure) = h
held_of (still_waiting h) = h

pub refresh-Contract :
    (status : TryWait) (tcp : Bool) (tail : List ℕ) (h : Held)
    → Contract h (refresh status tcp tail h)
unfolding refresh refresh_child
refresh-Contract running tcp tail h =
    same_slot-Contract h _ (ground arith) (ground arith) (ground arith) (ground arith)
refresh-Contract unreadable tcp tail h =
    same_slot-Contract h _ (ground arith) (ground arith) (ground arith) (ground arith)
refresh-Contract (exited status) tcp tail h = elim (Bool-cases (is_some h.sup.child)) [
  | inl child ↦ rw child (failed-Contract (classify_exit status tail) h)
  | inr idle ↦ rw idle (same_slot-Contract h _ refl refl refl refl)
]

give_up-Contract : (failure : WorkerFailure) (h : Held) → Contract h (held_of (give_up failure h))
unfolding give_up
give_up-Contract failure h = failed-Contract failure h

wait_round-Contract :
    (tail : List ℕ) (p : Poll) (status : TryWait) (next : Outcome) (h : Held)
    → Contract h (held_of next)
    → Contract h (held_of (wait_round tail p status next h))
unfolding wait_round
wait_round-Contract tail p unreadable next h c = give_up-Contract _ h
wait_round-Contract tail p (exited status) next h c = give_up-Contract _ h
wait_round-Contract tail p running next h c = elim (Bool-cases p.tcp) [
  | inl listens ↦ elim (Bool-cases (is_loading p.health)) [
    | inl loading ↦ rw (listens, loading) c
    | inr up ↦ rw (listens, up) (same_slot-Contract h _ refl refl refl refl)
  ]
  | inr shut ↦ elim (Bool-cases p.past_deadline) [
    | inl late ↦ rw (shut, late) (give_up-Contract _ h)
    | inr early ↦ rw (shut, early) c
  ]
]

pub wait_ready-Contract :
    (tail : List ℕ) (polls : List Poll) (h : Held) → Contract h (held_of (wait_ready tail polls h))
unfolding wait_ready
wait_ready-Contract tail [] h = Contract-refl h
wait_ready-Contract tail (p ∷ ps) h = elim (Bool-cases (is_some h.sup.child)) [
  | inl child ↦ rw child (wait_round-Contract tail p p.status _ h (wait_ready-Contract tail ps h))
  | inr gone ↦ rw gone (give_up-Contract _ h)
]

-- With a lease of its own and no child, whatever the system answers.
lock_and_launch-Contract :
    (cfg : WorkerConfig) (os : StartOs) (o : String) (h : Held)
    → h.sup.process_slot ≡ some o
    → h.sup.child ≡ none
    → h.sup.active_model ≡ none
    → Contract h (lock_and_launch cfg os h).0
unfolding lock_and_launch launch
lock_and_launch-Contract cfg os o h l c m = record {
  keeps = λ s. record {
    child_leased = λ e. ground arith;
    child_modelled = ground arith;
    lease_owned = λ q e. ground (arith, s.lease_owned q);
  };
  respects = λ q e n. cc;
}

no_lease_of_free : (h : Held) → IsSound h → h.slot ≡ none → h.sup.process_slot ≡ none
no_lease_of_free h s free = elim (Option-cases h.sup.process_slot) [
  | inl unleased ↦ unleased
  | inr (o, leased) ↦ cc (s.lease_owned o leased)
]

lease_and_launch-Contract :
    (cfg : WorkerConfig) (os : StartOs) (h : Held) (slot : AtomicSlot)
    → h.slot ≡ slot
    → h.sup.child ≡ none
    → h.sup.active_model ≡ none
    → Contract h (lease_and_launch cfg os h (acquire cfg.model slot)).0
unfolding lease_and_launch acquire
lease_and_launch-Contract cfg os h (some o) at c m = same_slot-Contract h _ refl refl refl refl
lease_and_launch-Contract cfg os h none free c m =
    let leased : Held = record {
      sup = record h.sup { process_slot = some cfg.model };
      slot = release? h.sup.process_slot (some cfg.model);
    } in
    record {
      keeps = λ s. (lock_and_launch-Contract cfg os cfg.model leased refl c m).keeps (record {
        child_leased = λ e. refl;
        child_modelled = s.child_modelled;
        lease_owned = λ o e. rw (no_lease_of_free h s free) (unfold release? in e);
      });
      respects = λ o e n. cc;
    }

pub start-Contract : (cfg : WorkerConfig) (os : StartOs) (h : Held) → Contract h (start cfg os h).0
unfolding start
start-Contract cfg os h = elim (Option-cases h.sup.child) [
  | inr (pid, c) ↦ simp c (Contract-refl h)
  | inl c ↦ elim (Option-cases h.sup.active_model) [
    | inr (model, m) ↦ simp (c, m) (Contract-refl h)
    | inl m ↦ simp (c, m) (lease_and_launch-Contract cfg os h h.slot refl c m)
  ]
]

after_start-Contract :
    (tail : List ℕ) (polls : List Poll) (b h : Held) (e : Option StartError)
    → Contract b h
    → Contract b (held_of (after_start tail polls (h, e)))
unfolding after_start
after_start-Contract tail polls b h none c =
    Contract-trans b h _ c (wait_ready-Contract tail polls h)
after_start-Contract tail polls b h (some e) c = c

pub start_and_wait-Contract :
    (cfg : WorkerConfig) (os : WaitOs) (h : Held) → Contract h (held_of (start_and_wait cfg os h))
unfolding start_and_wait
start_and_wait-Contract cfg os h = elim (Bool-cases os.port_taken) [
  | inl taken ↦ rw taken (same_slot-Contract h _ refl refl refl refl)
  | inr free ↦ rw free (
      after_start-Contract os.tail os.polls h _ (start cfg os.start_os h).1
        (start-Contract cfg os.start_os h))
]

retry-Contract :
    (cfg : WorkerConfig) (port_free : Bool) (again : WaitOs) (b : Held) (o : Outcome)
    → Contract b (held_of o)
    → Contract b (held_of (retry cfg port_free again o))
unfolding retry
retry-Contract cfg port_free again b (became_ready h) c = c
retry-Contract cfg port_free again b (still_waiting h) c = c
retry-Contract cfg port_free again b (gave_up h first) c =
    elim (Bool-cases (is_port_conflict first.code && port_free)) [
      | inl yes_retry ↦
          let cleared : Held = record {
            sup = record h.sup { state = stopped; last_failure = none };
            slot = h.slot;
          } in
          rw yes_retry (
            Contract-trans b h _ c (
              Contract-trans h cleared _ (same_slot-Contract h cleared refl refl refl refl)
                (start_and_wait-Contract cfg again cleared)))
      | inr no_retry ↦ rw no_retry c
    ]

pub start_and_wait_with_retry-Contract :
    (cfg : WorkerConfig) (first : WaitOs) (port_free : Bool) (again : WaitOs) (h : Held)
    → Contract h (held_of (start_and_wait_with_retry cfg first port_free again h))
unfolding start_and_wait_with_retry
start_and_wait_with_retry-Contract cfg first port_free again h =
    retry-Contract cfg port_free again h (start_and_wait cfg first h)
      (start_and_wait-Contract cfg first h)

-- ===== src/Supervisor/Worker/Waiting.antt =====
-- triAI-Engine/src/supervisor.rs, `start_and_wait`: how the wait for readiness ends.
use carlo_one_core.Prelude.{
  ℕ, true, false, ◌≡◌, refl, none, some, List, [], ◌∷◌, ◌++◌, arith, Bool-cases, inl, inr,
}
use carlo_one_core.Supervisor.Exit.{worker_timeout}
use carlo_one_core.Supervisor.Worker.{
  Held, Outcome, became_ready, gave_up, still_waiting, Poll, TryWait, running, exited, unreadable,
  is_some, is_loading, wait_ready, wait_round, give_up, cleanup_failed_worker, ready,
}

-- The child runs and its socket is open, but its health answers 5xx; the deadline may be past.
abbrev pub IsStuckLoading : Poll → Type 0
IsStuckLoading p = (p.status ≡ running) × (p.tcp ≡ true) × (p.health ≡ some false)

abbrev pub All : (Poll → Type 0) → List Poll → Type 0
All P [] = Unit
All P (p ∷ ps) = P p × All P ps

-- While the worker's socket is open and its health says that it is loading, the wait goes on,
-- however many rounds it takes and whether or not the deadline is past.
pub loading_ignores_deadline :
    (tail : List ℕ) (h : Held) (polls : List Poll)
    → is_some h.sup.child ≡ true
    → All IsStuckLoading polls
    → wait_ready tail polls h ≡ still_waiting h
unfolding wait_ready wait_round
loading_ignores_deadline tail h [] child stuck = refl
loading_ignores_deadline tail h (p ∷ ps) child stuck =
    ground (arith, loading_ignores_deadline tail h ps)

-- The socket does not answer.
abbrev pub IsClosed : Poll → Type 0
IsClosed p = (p.status ≡ running) × (p.tcp ≡ false)

-- What is left of a worker that was given up: no child, no model, no lease.
abbrev pub IsCleared : Held → Type 0
IsCleared h =
    (h.sup.child ≡ none)
    × (h.sup.active_model ≡ none)
    × (h.sup.process_slot ≡ none)
    × (h.sup.slot_lock ≡ false)

abbrev pub TimedOut : Outcome → Type 0
TimedOut (gave_up h failure) = (failure.code ≡ worker_timeout) × IsCleared h
TimedOut _ = ⊥

-- Rounds in which the socket stays closed, the last of them past the deadline: the wait ends with
-- a timeout, and the worker is cleared away.
pub closed_times_out :
    (tail : List ℕ) (h : Held) (polls : List Poll) (last : Poll)
    → is_some h.sup.child ≡ true
    → All IsClosed polls
    → IsClosed last
    → last.past_deadline ≡ true
    → TimedOut (wait_ready tail (polls ++ last ∷ []) h)
unfolding wait_ready wait_round give_up cleanup_failed_worker
closed_times_out tail h [] last child closed shut late =
    rw (child, shut.0, shut.1, late) (refl, (refl, refl, refl, refl))
closed_times_out tail h (p ∷ ps) last child closed shut late = elim (Bool-cases p.past_deadline) [
  | inl over ↦ rw (child, closed.0.0, closed.0.1, over) (refl, (refl, refl, refl, refl))
  | inr early ↦
      rw (child, closed.0.0, closed.0.1, early)
        (closed_times_out tail h ps last child closed.1 shut late)
]

abbrev pub EndsWell : Held → Outcome → Type 0
EndsWell h (became_ready h') =
    (h'.sup.state ≡ ready) × (h'.sup.child ≡ h.sup.child) × (h'.slot ≡ h.slot)
EndsWell h (gave_up h' failure) = IsCleared h' × (h'.sup.last_failure ≡ some failure)
EndsWell h (still_waiting h') = h' ≡ h

wait_round-EndsWell :
    (tail : List ℕ) (p : Poll) (status : TryWait) (next : Outcome) (h : Held)
    → EndsWell h next
    → EndsWell h (wait_round tail p status next h)
unfolding wait_round give_up cleanup_failed_worker
wait_round-EndsWell tail p unreadable next h w = ((refl, refl, refl, refl), refl)
wait_round-EndsWell tail p (exited status) next h w = ((refl, refl, refl, refl), refl)
wait_round-EndsWell tail p running next h w = elim (Bool-cases p.tcp) [
  | inl listens ↦ elim (Bool-cases (is_loading p.health)) [
    | inl loading ↦ rw (listens, loading) w
    | inr up ↦ rw (listens, up) (refl, refl, refl)
  ]
  | inr shut ↦ elim (Bool-cases p.past_deadline) [
    | inl late ↦ rw (shut, late) ((refl, refl, refl, refl), refl)
    | inr early ↦ rw (shut, early) w
  ]
]

-- Whatever the rounds bring: the wait ends with the same child ready, or with a noted failure and
-- the child, the model, the lease and the lock given up, or it goes on unchanged.
pub wait_ready-EndsWell :
    (tail : List ℕ) (polls : List Poll) (h : Held) → EndsWell h (wait_ready tail polls h)
unfolding wait_ready wait_round give_up cleanup_failed_worker
wait_ready-EndsWell tail [] h = refl
wait_ready-EndsWell tail (p ∷ ps) h = elim (Bool-cases (is_some h.sup.child)) [
  | inl child ↦ rw child (wait_round-EndsWell tail p p.status _ h (wait_ready-EndsWell tail ps h))
  | inr gone ↦ rw gone ((refl, refl, refl, refl), refl)
]

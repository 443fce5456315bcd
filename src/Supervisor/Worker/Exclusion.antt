-- ===== src/Supervisor/Worker/Exclusion.antt =====
-- triAI-Engine/src/supervisor.rs and triAI-Engine/src/supervisor/slot.rs: any number of
-- supervisors in one process, whose operations interleave.
use native.Mathlib.Decide.{ℕ_discrete}
use mathlib.Core.Logic.{ite, if_pos, if_neg}
use carlo_one_core.Prelude.{
  ℕ, String, Bool, true, ◌≡◌, ◌≢◌, refl, sym, ◌∙◌, ap, subst, none, some, List, Option-cases, inl,
  inr,
}
use carlo_one_core.Supervisor.Slot.{AtomicSlot}
use carlo_one_core.Supervisor.Worker.{
  Held, WorkerSupervisor, WorkerConfig, StartOs, WaitOs, TryWait, is_some, new, start, refresh,
  stop, start_and_wait, start_and_wait_with_retry,
}
use carlo_one_core.Supervisor.Worker.Contract.{
  IsSound, Contract, held_of, start-Contract, refresh-Contract, stop-Contract,
  start_and_wait-Contract, start_and_wait_with_retry-Contract,
}

-- The supervisors by number, and the one slot.
pub record System : Type 0 where
  pub sup : ℕ → WorkerSupervisor
  pub slot : AtomicSlot

abbrev pub view : System → ℕ → Held
view s i = record { sup = s.sup i; slot = s.slot }

-- The i-th supervisor and the slot after an operation.
unfoldable pub put_back : System → ℕ → Held → System
put_back s i h = record { sup = λ j. ite (ℕ_discrete i j) h.sup (s.sup j); slot = h.slot }

-- An operation of one supervisor, with whatever the system answers.
pub data Op : Held → Held → Type 0 where
  starts : (cfg : WorkerConfig) (os : StartOs) (h : Held) → Op h (start cfg os h).0
  starts_and_waits :
      (cfg : WorkerConfig) (os : WaitOs) (h : Held) → Op h (held_of (start_and_wait cfg os h))
  retries :
      (cfg : WorkerConfig) (first : WaitOs) (port_free : Bool) (again : WaitOs) (h : Held)
      → Op h (held_of (start_and_wait_with_retry cfg first port_free again h))
  refreshes :
      (status : TryWait) (tcp : Bool) (tail : List ℕ) (h : Held) → Op h (refresh status tcp tail h)
  stops : (h : Held) → Op h (stop h)

Op-Contract : {b a : Held} → Op b a → Contract b a
Op-Contract (starts cfg os h) = start-Contract cfg os h
Op-Contract (starts_and_waits cfg os h) = start_and_wait-Contract cfg os h
Op-Contract (retries cfg first port_free again h) =
    start_and_wait_with_retry-Contract cfg first port_free again h
Op-Contract (refreshes status tcp tail h) = refresh-Contract status tcp tail h
Op-Contract (stops h) = stop-Contract h

pub data Reachable : System → Type 0 where
  at_start : Reachable (record { sup = λ _. new; slot = none })
  then :
      (i : ℕ) {s : System} {h : Held} → Reachable s → Op (view s i) h → Reachable (put_back s i h)

-- Every supervisor is sound, and at most one holds a lease.
record IsExclusive (s : System) : Type 0 where
  sound : (i : ℕ) → IsSound (view s i)
  one :
      (i j : ℕ)
      → is_some (s.sup i).process_slot ≡ true
      → is_some (s.sup j).process_slot ≡ true
      → i ≡ j

module _ (s : System) (i : ℕ) (h : Held) (ex : IsExclusive s) (c : Contract (view s i) h) where
  -- The lease of another supervisor keeps the slot, and leaves this one without a lease.
  other_keeps :
      (j : ℕ) (o : String)
      → i ≢ j
      → (s.sup j).process_slot ≡ some o
      → (h.slot ≡ some o) × (h.sup.process_slot ≡ none)
  other_keeps j o apart held = elim (Option-cases (s.sup i).process_slot) [
    | inl unleased ↦ c.respects o ((ex.sound j).lease_owned o held) unleased
    | inr (q, own) ↦ absurd (apart (ex.one i j (ap is_some own) (ap is_some held)))
  ]

  other-IsSound : (j : ℕ) → i ≢ j → IsSound (record { sup = s.sup j; slot = h.slot })
  other-IsSound j apart = record {
    child_leased = (ex.sound j).child_leased;
    child_modelled = (ex.sound j).child_modelled;
    lease_owned = λ o leased. (other_keeps j o apart leased).0;
  }

  not_both :
      (j : ℕ)
      → i ≢ j
      → is_some h.sup.process_slot ≡ true
      → is_some (s.sup j).process_slot ≡ true
      → ⊥
  not_both j apart mine theirs = elim (Option-cases (s.sup j).process_slot) [
    | inl unleased ↦ cc (ap is_some unleased)
    | inr (o, leased) ↦ cc (ap is_some (other_keeps j o apart leased).1)
  ]

  IsSound-put_back : (j : ℕ) → IsSound (view (put_back s i h) j)
  unfolding put_back
  IsSound-put_back j = elim (ℕ_discrete i j) [
    | yes same ↦ rw (if_pos _ same) (c.keeps (ex.sound i))
    | no apart ↦ rw (if_neg _ apart) (other-IsSound j apart)
  ]

  leased_same :
      (j : ℕ)
      → i ≡ j
      → is_some (ite (ℕ_discrete i j) h.sup (s.sup j)).process_slot ≡ true
      → is_some h.sup.process_slot ≡ true
  leased_same j p =
      subst (λ (t : WorkerSupervisor). is_some t.process_slot ≡ true)
        (if_pos (ℕ_discrete i j) p h.sup (s.sup j))

  leased_other :
      (j : ℕ)
      → i ≢ j
      → is_some (ite (ℕ_discrete i j) h.sup (s.sup j)).process_slot ≡ true
      → is_some (s.sup j).process_slot ≡ true
  leased_other j p =
      subst (λ (t : WorkerSupervisor). is_some t.process_slot ≡ true)
        (if_neg (ℕ_discrete i j) p h.sup (s.sup j))

  one_after :
      (j k : ℕ)
      → is_some (ite (ℕ_discrete i j) h.sup (s.sup j)).process_slot ≡ true
      → is_some (ite (ℕ_discrete i k) h.sup (s.sup k)).process_slot ≡ true
      → j ≡ k
  one_after j k lj lk = elim (ℕ_discrete i j) [
    | yes p ↦ elim (ℕ_discrete i k) [
      | yes q ↦ sym p ∙ q
      | no q ↦ absurd (not_both k q (leased_same j p lj) (leased_other k q lk))
    ]
    | no p ↦ elim (ℕ_discrete i k) [
      | yes q ↦ absurd (not_both j p (leased_same k q lk) (leased_other j p lj))
      | no q ↦ ex.one j k (leased_other j p lj) (leased_other k q lk)
    ]
  ]

  IsExclusive-put_back : IsExclusive (put_back s i h)
  unfolding put_back
  IsExclusive-put_back = record { sound = IsSound-put_back; one = one_after }

Reachable-IsExclusive : {s : System} → Reachable s → IsExclusive s
unfolding new
Reachable-IsExclusive at_start = record {
  sound = λ i. record { child_leased = λ e. cc; child_modelled = refl; lease_owned = λ o e. cc };
  one = λ i j a b. cc;
}
Reachable-IsExclusive (then i {s = s} {h = h} r op) =
    IsExclusive-put_back s i h (Reachable-IsExclusive r) (Op-Contract op)

-- However the operations of any number of supervisors interleave, and whatever the system answers,
-- while one of them has a worker child, no other has one.
pub one_child :
    {s : System} (i j : ℕ)
    → Reachable s
    → i ≢ j
    → is_some (s.sup i).child ≡ true
    → (s.sup j).child ≡ none
one_child {s = s} i j r apart ci =
    let ex = Reachable-IsExclusive r in
    elim (Option-cases (s.sup j).child) [
      | inl gone ↦ gone
      | inr (pid, cj) ↦ absurd (
          apart
            (ex.one i j ((ex.sound i).child_leased ci) ((ex.sound j).child_leased (ap is_some cj))))
    ]

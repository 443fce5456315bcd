-- ===== src/Supervisor/Worker/Leak.antt =====
-- triAI-Engine/src/supervisor.rs, `start`: the way out that keeps the lease.
use carlo_one_core.Prelude.{
  String, false, ◌≡◌, ◌≢◌, refl, none, some, List, [], ◌∷◌, arith, eq_iff, Bool-cases, inl, inr,
}
use carlo_one_core.Supervisor.Slot.{AtomicSlot, acquire, release?}
use carlo_one_core.Supervisor.Worker.{
  Held, WorkerConfig, WorkerSupervisor, StartOs, start, is_some, lease_and_launch, lock_and_launch,
  lock_open_failed, stop,
}

-- A start by any supervisor of the process, in any state.
pub record Attempt : Type 0 where
  pub cfg : WorkerConfig
  pub os : StartOs
  pub sup : WorkerSupervisor

-- One start after the other: each fails, and none changes the child of its supervisor or the slot.
abbrev pub AllRefused : AtomicSlot → List Attempt → Type 0
AllRefused slot [] = Unit
AllRefused slot (a ∷ rest) =
    let r = start a.cfg a.os (record { sup = a.sup; slot = slot }) in
    (r.1 ≢ none) × (r.0.sup.child ≡ a.sup.child) × (r.0.slot ≡ slot) × AllRefused r.0.slot rest

start-Refused :
    (owner : String) (a : Attempt)
    → let r = start a.cfg a.os (record { sup = a.sup; slot = some owner }) in
      (r.1 ≢ none) × (r.0.sup.child ≡ a.sup.child) × (r.0.slot ≡ some owner)
unfolding start lease_and_launch acquire
start-Refused owner a = elim (Bool-cases (is_some a.sup.child)) [
  | inl child ↦ rw child ((λ e. cc), refl, refl)
  | inr none_yet ↦ elim (Bool-cases (is_some a.sup.active_model)) [
    | inl active ↦ rw (none_yet, active) ((λ e. cc), refl, refl)
    | inr idle ↦ rw (none_yet, idle) ((λ e. cc), refl, refl)
  ]
]

taken-AllRefused : (owner : String) (later : List Attempt) → AllRefused (some owner) later
taken-AllRefused owner [] = tt
taken-AllRefused owner (a ∷ rest) =
    let (fails, child, slot) = start-Refused owner a in
    (fails, child, slot, rw slot (taken-AllRefused owner rest))

-- From a supervisor with nothing held, over a free slot: a start whose lock file does not open
-- leaves the slot with the lease and no child. Of the starts that follow, however many, by any
-- supervisors of the process and whatever the system answers, each fails and changes neither the
-- child of its supervisor nor the slot. A stop of the first supervisor frees the slot.
pub start_leaks_lease :
    (cfg : WorkerConfig) (os : StartOs) (h : Held) (later : List Attempt)
    → h.sup.child ≡ none
    → h.sup.active_model ≡ none
    → h.sup.process_slot ≡ none
    → h.slot ≡ none
    → os.lock_opens ≡ false
    → let leaked = (start cfg os h).0 in
      ((start cfg os h).1 ≡ some lock_open_failed)
      × (leaked.sup.child ≡ none)
      × (leaked.slot ≡ some cfg.model)
      × AllRefused leaked.slot later
      × ((stop leaked).slot ≡ none)
unfolding start lease_and_launch lock_and_launch acquire release? stop
start_leaks_lease cfg os h later c m l free shut =
    rw (c, m, l, free, shut)
      (
        refl,
        refl,
        refl,
        taken-AllRefused cfg.model later,
        ground (arith, eq_iff cfg.model cfg.model),
      )

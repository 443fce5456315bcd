-- ===== src/Kernel/Pinning/Steps.antt =====
-- triAI-Engine/src/kernel_worker.rs: what the threads that share a worker do, step by step.
use carlo_one_core.Prelude.{
  ℕ, ◌+◌, ltb, wrap64, false, ◌≡◌, refl, String, Bool, true, not, List, [], ◌∷◌, str_eq, Bool-cases,
  inl, inr, if◌then◌else◌, eq_iff,
}
use carlo_one_core.Prelude.StrMap
use carlo_one_core.Kernel.{
  is_there, vram_bytes, KernelWorker, PageKey, has, evict_cold_entries, record_access, inserted,
  load_to_vram, may_evict, evicted, evict_to_ram, pin_chunk, unpin_chunk,
}
use carlo_one_core.Kernel.Experts.{ExpertEvent, sync_expert_events}

-- What the users of a worker call.
pub data Call : Type 0 where
  loads : ℕ → PageKey → ℕ → Call
  evicts : ℕ → String → Call
  evicts_cold : ℕ → Call
  accesses : ℕ → String → Call
  pins : String → Call
  unpins : String → Call
  syncs : ℕ → List ExpertEvent → Call

unfoldable pub perform : KernelWorker → Call → KernelWorker
perform w (loads now key size) = load_to_vram now key size w
perform w (evicts now k) = evict_to_ram now k w
perform w (evicts_cold now) = evict_cold_entries now w
perform w (accesses now k) = record_access now k w
perform w (pins k) = pin_chunk k w
perform w (unpins k) = unpin_chunk k w
perform w (syncs now events) = sync_expert_events now events w

-- What the threads do, in the order in which they hold the locks: calls that nothing comes between,
-- and parts of calls that other threads come between. `evict_to_ram` is `checks` and then, if the
-- check lets it go on, `removes`; `load_to_vram` is `calls (accesses ..)` or `inserts`, the latter
-- after `calls (evicts_cold ..)` or not.
pub data Step : Type 0 where
  calls : Call → Step
  checks : String → Step
  removes : ℕ → String → Step
  inserts : ℕ → PageKey → ℕ → Step

-- The worker, with the chunks of the evictions that have passed their check and removed nothing yet.
pub record Running : Type 0 where
  pub worker : KernelWorker
  pub passed : List String

unfoldable pub without_one : String → List String → List String
without_one k [] = []
without_one k (j ∷ js) = if str_eq j k then js else j ∷ without_one k js

unfoldable pub step : Running → Step → Running
unfolding without_one
step r (calls c) = record r { worker = perform r.worker c }
step r (checks k) = if may_evict k r.worker then record r { passed = k ∷ r.passed } else r
step r (removes now k) =
    if has k r.passed
    then record { worker = evicted now k r.worker; passed = without_one k r.passed }
    else r
step r (inserts now key size) = record r { worker = inserted now key size r.worker }

unfoldable pub step_all : Running → List Step → Running
step_all r [] = r
step_all r (s ∷ ss) = step_all (step r s) ss

-- The step does not unpin the chunk.
abbrev pub spares : String → Step → Bool
spares k (calls (unpins j)) = not (str_eq j k)
spares k _ = true

abbrev pub AllSpare : String → List Step → Type 0
AllSpare k [] = Unit
AllSpare k (s ∷ ss) = (spares k s ≡ true) × AllSpare k ss

-- Alone, the two parts of an eviction are the call.
evict_to_ram-steps :
    (now : ℕ) (k : String) (w : KernelWorker)
    → step_all (record { worker = w; passed = [] }) (checks k ∷ removes now k ∷ [])
      ≡ record { worker = evict_to_ram now k w; passed = [] }
unfolding step step_all evict_to_ram has without_one
evict_to_ram-steps now k w = elim (Bool-cases (may_evict k w)) [
  | inl goes ↦ rw (goes, (eq_iff k k).1 refl) refl
  | inr kept ↦ rw kept refl
]

-- The steps of a load, by whether the chunk is there and whether the budget is used up.
loading_steps : ℕ → PageKey → ℕ → Bool → Bool → List Step
loading_steps now key size true full = calls (accesses now key.chunk_id) ∷ []
loading_steps now key size false true = calls (evicts_cold now) ∷ inserts now key size ∷ []
loading_steps now key size false false = inserts now key size ∷ []

-- Alone, they are the call.
load_to_vram-steps :
    (now : ℕ) (key : PageKey) (size : ℕ) (w : KernelWorker)
    → let there = is_there (StrMap.get key.chunk_id w.vram_pages) in
      let full = ltb w.vram_budget_bytes (wrap64 (wrap64 (vram_bytes w) + size)) in
      step_all (record { worker = w; passed = [] }) (loading_steps now key size there full)
      ≡ record { worker = load_to_vram now key size w; passed = [] }
unfolding step step_all perform load_to_vram loading_steps
load_to_vram-steps now key size w =
    elim (Bool-cases (is_there (StrMap.get key.chunk_id w.vram_pages))) [
      | inl there ↦ rw there refl
      | inr absent ↦
          elim (Bool-cases (ltb w.vram_budget_bytes (wrap64 (wrap64 (vram_bytes w) + size)))) [
            | inl full ↦ rw (absent, full) refl
            | inr free ↦ rw (absent, free) refl
          ]
    ]

-- ===== src/Analysis/Scheduling.antt =====
-- triAI-Engine/src/analysis/job.rs: what the scheduler promises.
use carlo_one_core.Prelude.{
  ℕ, ◌-◌, ◌≡◌, Bool, true, false, ◌||◌, some, List, [], ◌∷◌, arith, leb, Bool-cases, inl, inr,
  if◌then◌else◌, F64,
}
use carlo_one_core.Analysis.{
  AnalysisKind, AnalysisScheduler, AnalysisJob, Key, transfer_bottleneck, moe_hotset,
  model_calibration, anomaly_detection, same_kind, interval_ms, last_or_zero, take_kind, take_kinds,
  take_due, has_key, idempotency_key, is_valid, submit,
}

unfoldable pub has_kind : AnalysisKind → List AnalysisKind → Bool
has_kind k [] = false
has_kind k (j ∷ js) = same_kind j k || has_kind k js

-- At an instant, exactly those kinds are given whose interval has passed since they last ran, or
-- since 0 if they never did; for these the instant is noted as their last run, and for the others
-- the last run stays.
pub take_due_exact :
    (now : ℕ) (kind : AnalysisKind) (s : AnalysisScheduler)
    → let due = leb (interval_ms kind) (now - last_or_zero (s.last_run_ms kind)) in
      (has_kind kind (take_due now s).1 ≡ due)
      × ((take_due now s).0.last_run_ms kind ≡ (if due then some now else s.last_run_ms kind))
unfolding has_kind take_due take_kinds take_kind
take_due_exact now transfer_bottleneck s = ground arith
take_due_exact now moe_hotset s = ground arith
take_due_exact now model_calibration s = ground arith
take_due_exact now anomaly_detection s = ground arith

module _ (F : F64) where
  unfoldable pub submit_all : List (AnalysisJob F) → AnalysisScheduler → AnalysisScheduler
  submit_all [] s = s
  submit_all (job ∷ jobs) s = submit_all jobs (submit F job s).0

  has_key-submit :
      (k : Key) (job : AnalysisJob F) (s : AnalysisScheduler)
      → has_key k s.submitted ≡ true
      → has_key k (submit F job s).0.submitted ≡ true
  unfolding submit has_key
  has_key-submit k job s there = ground arith

  has_key-submit_all :
      (k : Key) (jobs : List (AnalysisJob F)) (s : AnalysisScheduler)
      → has_key k s.submitted ≡ true
      → has_key k (submit_all jobs s).submitted ≡ true
  unfolding submit_all
  has_key-submit_all k [] s there = there
  has_key-submit_all k (job ∷ jobs) s there =
      has_key-submit_all k jobs (submit F job s).0 (has_key-submit k job s there)

  has_key-submitted :
      (job : AnalysisJob F) (s : AnalysisScheduler)
      → (submit F job s).1 ≡ true
      → has_key (idempotency_key F job) (submit F job s).0.submitted ≡ true
  unfolding submit has_key
  has_key-submitted job s accepted = ground arith

  submit_refused :
      (job : AnalysisJob F) (s : AnalysisScheduler)
      → has_key (idempotency_key F job) s.submitted ≡ true
      → submit F job s ≡ (s, false)
  unfolding submit
  submit_refused job s there = elim (Bool-cases (is_valid F job.window)) [
    | inl valid ↦ rw (valid, there)
    | inr invalid ↦ rw invalid
  ]

  -- Once a job was accepted, and whatever is submitted afterwards, a job of the same kind and
  -- window is refused, and the refusal changes nothing.
  pub submit_once :
      (job again : AnalysisJob F) (between : List (AnalysisJob F)) (s : AnalysisScheduler)
      → (submit F job s).1 ≡ true
      → idempotency_key F again ≡ idempotency_key F job
      → let after = submit_all between (submit F job s).0 in submit F again after ≡ (after, false)
  submit_once job again between s accepted same = submit_refused again _ (
      rw same
        (has_key-submit_all (idempotency_key F job) between _ (has_key-submitted job s accepted)))

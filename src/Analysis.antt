-- ===== src/Analysis.antt =====
-- triAI-Engine/src/analysis/: job.rs, policy.rs and gates.rs. `f64` is the parameter F64. A
-- `BTreeMap` over the four kinds is a function; its order is that of the kinds.
pub mod Scheduling
pub mod Promotion
mod Tests
use carlo_one_core.Prelude.{
  ℕ, ◌+◌, ◌-◌, ◌*◌, String, Bool, true, false, ◌&&◌, ◌||◌, not, Option, none, some, List, [], ◌∷◌,
  leb, ltb, ◌==◌, if◌then◌else◌, F64, sat_add,
}

pub record AggregateWindow (F : F64) : Type 0 where
  pub start_ms : ℕ
  pub end_ms : ℕ
  pub observations : ℕ
  pub independent_model_observations : ℕ
  pub disk_savings_percent : F.Carrier
  pub baseline_decode_p95_ms : ℕ
  pub candidate_decode_p95_ms : ℕ
  pub confidence : F.Carrier

pub data AnalysisKind : Type 0 where
  transfer_bottleneck moe_hotset model_calibration anomaly_detection : AnalysisKind

abbrev pub kind_index : AnalysisKind → ℕ
kind_index transfer_bottleneck = 0
kind_index moe_hotset = 1
kind_index model_calibration = 2
kind_index anomaly_detection = 3

abbrev pub same_kind : AnalysisKind → AnalysisKind → Bool
same_kind a b = kind_index a == kind_index b

pub record AnalysisJob (F : F64) : Type 0 where
  pub kind : AnalysisKind
  pub window : AggregateWindow F

pub record Key : Type 0 where
  pub kind : AnalysisKind
  pub start_ms : ℕ
  pub end_ms : ℕ

-- The intervals of `Default`, in milliseconds; nothing changes them.
abbrev pub interval_ms : AnalysisKind → ℕ
interval_ms transfer_bottleneck = 60_000
interval_ms moe_hotset = 300_000
interval_ms model_calibration = 900_000
interval_ms anomaly_detection = 60_000

abbrev pub all_kinds : List AnalysisKind
all_kinds = transfer_bottleneck ∷ moe_hotset ∷ model_calibration ∷ anomaly_detection ∷ []

pub record AnalysisScheduler : Type 0 where
  pub last_run_ms : AnalysisKind → Option ℕ
  pub submitted : List Key

unfoldable pub default_scheduler : AnalysisScheduler
default_scheduler = record { last_run_ms = λ _. none; submitted = [] }

abbrev pub same_key : Key → Key → Bool
same_key a b = same_kind a.kind b.kind && (a.start_ms == b.start_ms && a.end_ms == b.end_ms)

unfoldable pub has_key : Key → List Key → Bool
has_key k [] = false
has_key k (j ∷ js) = same_key j k || has_key k js

abbrev pub last_or_zero : Option ℕ → ℕ
last_or_zero none = 0
last_or_zero (some t) = t

-- One round of the loop over the intervals.
unfoldable pub take_kind : ℕ → AnalysisKind → AnalysisScheduler → AnalysisScheduler × Bool
take_kind now kind s =
    if leb (interval_ms kind) (now - last_or_zero (s.last_run_ms kind))
    then (
      record s { last_run_ms = λ k. if same_kind kind k then some now else s.last_run_ms k },
      true,
    )
    else (s, false)

unfoldable pub take_kinds :
    ℕ → List AnalysisKind → AnalysisScheduler → AnalysisScheduler × List AnalysisKind
take_kinds now [] s = (s, [])
take_kinds now (kind ∷ kinds) s =
    let (s', taken) = take_kind now kind s in
    let (s'', due) = take_kinds now kinds s' in (s'', if taken then kind ∷ due else due)

unfoldable pub take_due : ℕ → AnalysisScheduler → AnalysisScheduler × List AnalysisKind
take_due now s = take_kinds now all_kinds s

pub data PromotionDecision : Type 0 where
  promote : PromotionDecision
  hold : String → PromotionDecision
  roll_back : String → PromotionDecision

module _ (F : F64) where
  open F use {of_u64, lit, sub, mul, div, lt, le, is_finite}

  unfoldable pub is_valid : AggregateWindow F → Bool
  is_valid w =
      ltb w.start_ms w.end_ms
      && (ltb 0 w.observations
          && (is_finite w.disk_savings_percent
              && (is_finite w.confidence
                  && (le (lit 0 0) w.confidence && le w.confidence (lit 1 0)))))

  abbrev pub idempotency_key : AnalysisJob F → Key
  idempotency_key job = record {
    kind = job.kind;
    start_ms = job.window.start_ms;
    end_ms = job.window.end_ms;
  }

  -- `insert` of the set says whether the key is new.
  unfoldable pub submit : AnalysisJob F → AnalysisScheduler → AnalysisScheduler × Bool
  submit job s =
      if is_valid job.window && not (has_key (idempotency_key job) s.submitted)
      then (record s { submitted = idempotency_key job ∷ s.submitted }, true)
      else (s, false)

  pub record PolicyProposal : Type 0 where
    pub version : ℕ
    pub source_window_start_ms : ℕ
    pub source_window_end_ms : ℕ
    pub cache_budget_mb : ℕ
    pub prefetch_depth : ℕ
    pub confidence : F.Carrier
    pub disk_savings_percent : F.Carrier
    pub decode_change_percent : F.Carrier

  abbrev pub decode_change : AggregateWindow F → F.Carrier
  decode_change w =
      if w.baseline_decode_p95_ms == 0
      then lit 0 0
      else mul
          (sub (div (of_u64 w.candidate_decode_p95_ms) (of_u64 w.baseline_decode_p95_ms)) (lit 1 0))
          (lit 100 0)

  -- A versioner is its last version.
  unfoldable pub next : AggregateWindow F → ℕ → ℕ × PolicyProposal
  next w last_version =
      let version = sat_add last_version 1 in
      let change = decode_change w in
      (
        version,
        record {
          version = version;
          source_window_start_ms = w.start_ms;
          source_window_end_ms = w.end_ms;
          cache_budget_mb = if le (lit 15 0) w.disk_savings_percent then 512 else 256;
          prefetch_depth = if le change (lit 0 0) then 2 else 1;
          confidence = w.confidence;
          disk_savings_percent = w.disk_savings_percent;
          decode_change_percent = change;
        },
      )

  pub record PromotionGates : Type 0 where
    pub min_observations : ℕ
    pub min_independent_models : ℕ
    pub min_confidence : F.Carrier
    pub min_disk_savings_percent : F.Carrier
    pub max_decode_regression_percent : F.Carrier
    pub rollback_decode_regression_percent : F.Carrier

  abbrev pub default_gates : PromotionGates
  default_gates = record {
    min_observations = 30;
    min_independent_models = 2;
    min_confidence = lit 8 1;
    min_disk_savings_percent = lit 15 0;
    max_decode_regression_percent = lit 10 0;
    rollback_decode_regression_percent = lit 20 0;
  }

  unfoldable pub evaluate : PromotionGates → AggregateWindow F → PolicyProposal → PromotionDecision
  evaluate g w p =
      if le g.rollback_decode_regression_percent p.decode_change_percent
      then roll_back "decode regression exceeds rollback threshold"
      else if ltb w.observations g.min_observations
      then hold "insufficient observations"
      else if ltb w.independent_model_observations g.min_independent_models
      then hold "insufficient independent observations"
      else if lt p.confidence g.min_confidence
      then hold "confidence below promotion threshold"
      else if lt p.disk_savings_percent g.min_disk_savings_percent
      then hold "disk savings below promotion threshold"
      else if lt g.max_decode_regression_percent p.decode_change_percent
      then hold "decode regression exceeds promotion threshold"
      else promote

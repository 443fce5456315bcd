-- ===== src/Analysis/Tests.antt =====
-- Concrete runs of the code in triAI-Engine/src/analysis/, and the theorems about it at concrete
-- inputs.
use carlo_one_core.Prelude.{◌≡◌, refl, false, none, [], ◌∷◌, thousandths}
use carlo_one_core.Analysis.{
  AggregateWindow, AnalysisJob, PolicyProposal, default_scheduler, moe_hotset, transfer_bottleneck,
  anomaly_detection, take_due, next, evaluate, default_gates, promote, take_kinds, take_kind,
}
use carlo_one_core.Analysis.Scheduling.{has_kind, take_due_exact}

abbrev window : AggregateWindow thousandths
window = record {
  start_ms = 1;
  end_ms = 2;
  observations = 30;
  independent_model_observations = 2;
  disk_savings_percent = 20_000;
  baseline_decode_p95_ms = 100;
  candidate_decode_p95_ms = 100;
  confidence = 900;
}

abbrev job : AnalysisJob thousandths
job = record { kind = moe_hotset; window = window }

abbrev other : AnalysisJob thousandths
other = record { kind = anomaly_detection; window = window }

abbrev proposal : PolicyProposal thousandths
proposal = (next thousandths window 0).1

due_after_a_minute :
    (take_due 60_000 default_scheduler).1 ≡ transfer_bottleneck ∷ anomaly_detection ∷ []
unfolding take_due take_kinds take_kind default_scheduler
due_after_a_minute = refl

good_window_promotes : evaluate thousandths (default_gates thousandths) window proposal ≡ promote
unfolding evaluate next
good_window_promotes = refl

take_due_exact_example :
    (has_kind moe_hotset (take_due 60_000 default_scheduler).1 ≡ false)
    × ((take_due 60_000 default_scheduler).0.last_run_ms moe_hotset ≡ none)
unfolding default_scheduler
take_due_exact_example = take_due_exact 60_000 moe_hotset default_scheduler

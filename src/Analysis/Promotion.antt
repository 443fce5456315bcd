-- ===== src/Analysis/Promotion.antt =====
-- triAI-Engine/src/analysis/policy.rs and triAI-Engine/src/analysis/gates.rs: which proposals are
-- promoted.
use carlo_one_core.Prelude.{ℕ, ◌≤◌, ◌<◌, ◌≡◌, ◌↔◌, ◌⊎◌, false, arith, F64, u64_max}
use carlo_one_core.Analysis.{
  AggregateWindow, PolicyProposal, PromotionGates, promote, evaluate, next,
}

module _ (F : F64) (g : PromotionGates F) (w : AggregateWindow F) (p : PolicyProposal F) where
  -- A proposal is promoted exactly if the regression of decoding is below the threshold for a
  -- rollback and not above the one for a promotion, there are enough observations and independent
  -- models, and confidence and savings are not below their thresholds.
  pub evaluate_promotes : (evaluate F g w p ≡ promote) ↔ (
      (F.le g.rollback_decode_regression_percent p.decode_change_percent ≡ false)
      × (g.min_observations ≤ w.observations)
      × (g.min_independent_models ≤ w.independent_model_observations)
      × (F.lt p.confidence g.min_confidence ≡ false)
      × (F.lt p.disk_savings_percent g.min_disk_savings_percent ≡ false)
      × (F.lt g.max_decode_regression_percent p.decode_change_percent ≡ false))
  unfolding evaluate
  evaluate_promotes = ground arith

module _ (F : F64) (w : AggregateWindow F) (last : ℕ) where
  -- Each proposal has the next version, up to the largest `u64`, names the window that it was made
  -- from, and its knobs are one of two sizes of the cache and one of two depths.
  pub next_bounded :
      let (version, p) = next F w last in
      (last < u64_max → last < version)
      × (p.version ≡ version)
      × (p.source_window_start_ms ≡ w.start_ms)
      × (p.source_window_end_ms ≡ w.end_ms)
      × ((p.cache_budget_mb ≡ 256) ⊎ (p.cache_budget_mb ≡ 512))
      × ((p.prefetch_depth ≡ 1) ⊎ (p.prefetch_depth ≡ 2))
  unfolding next
  next_bounded = ground arith

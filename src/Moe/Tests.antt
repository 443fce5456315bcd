-- ===== src/Moe/Tests.antt =====
-- Concrete runs of triAI-Engine/src/moe/mod.rs, and the theorems about it at concrete inputs.
use carlo_one_core.Prelude.{ℕ, ◌≡◌, refl, true, false, List, [], ◌∷◌, leb, thousandths, arith}
use carlo_one_core.Kernel.Experts.{ExpertEvent}
use carlo_one_core.Moe.{
  ExpertKey, with_threshold, find, put, has, with_key, without_key, marked, reclassify,
  record_expert, record_experts, record_event, record_events, is_hot, hit_rate, hot_events,
}
use carlo_one_core.Moe.Counts.{occurrences, is_hot-occurrences}

abbrev first : ExpertKey
first = record { layer_id = 3; expert_id = 1 }

-- Two experts of a layer, each time.
abbrev routed : ExpertEvent
routed = record { layer_id = 3; expert_ids = 1 ∷ 2 ∷ [] }

abbrev two_events : List (ℕ × ExpertEvent)
two_events = (10, routed) ∷ (20, routed) ∷ []

hot_at_two : is_hot first (record_events two_events (with_threshold 2)) ≡ true
unfolding is_hot has record_events record_event record_experts record_expert reclassify
    with_threshold find put marked with_key without_key
hot_at_two = refl

cold_at_three : is_hot first (record_events two_events (with_threshold 3)) ≡ false
unfolding is_hot has record_events record_event record_experts record_expert reclassify
    with_threshold find put marked without_key
cold_at_three = refl

-- Two events that name two experts each: the rate of hits is 2.
hit_rate_above_one : hit_rate thousandths (record_events two_events (with_threshold 2)) ≡ 2000
unfolding hit_rate record_events record_event record_experts record_expert reclassify with_threshold
    find put marked hot_events
hit_rate_above_one = refl

is_hot-occurrences_example :
    is_hot first (record_events two_events (with_threshold 2))
    ≡ leb 2 (occurrences first two_events)
is_hot-occurrences_example = is_hot-occurrences 1 two_events first (omega arith)

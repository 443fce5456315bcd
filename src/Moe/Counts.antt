-- ===== src/Moe/Counts.antt =====
-- triAI-Engine/src/moe/mod.rs: an expert is hot by how often the events name it.
use carlo_one_core.Prelude.{
  ℕ, suc, ◌+◌, ◌<◌, Bool, true, false, ◌≡◌, refl, sym, ◌∙◌, ap, Option, none, some, List, [], ◌∷◌,
  leb, if◌then◌else◌, arith, Bool-cases, inl, inr, wrap64, u64_mod,
}
use carlo_one_core.Kernel.Experts.{ExpertEvent}
use carlo_one_core.Moe.{
  ExpertKey, ExpertInfo, Experts, ExpertResidency, with_threshold, same_key, find, put, has,
  count_or_zero, marked, reclassify, entry_or, touched, record_expert, record_experts, record_event,
  record_events, is_hot,
}
use carlo_one_core.Moe.Residency.{find-put, find-alike, is_often, record_events-IsClassified}

-- How often the events name an expert.
abbrev pub occurs_in : ExpertKey → ℕ → List ℕ → ℕ
occurs_in k layer [] = 0
occurs_in k layer (e ∷ es) =
    (if same_key (record { layer_id = layer; expert_id = e }) k then 1 else 0)
    + occurs_in k layer es

abbrev pub occurrences : ExpertKey → List (ℕ × ExpertEvent) → ℕ
occurrences k [] = 0
occurrences k ((now, e) ∷ es) = occurs_in k e.layer_id e.expert_ids + occurrences k es

-- The count that the table has for an expert.
abbrev pub count_of : ExpertKey → ExpertResidency → ℕ
count_of k r = count_or_zero (find k r.experts)

-- A new flag on an entry leaves every count.
marked-count :
    (hot : Bool) (k j : ExpertKey) (es : Experts) (found : Option ExpertInfo)
    → find j es ≡ found
    → count_or_zero (find k (marked hot j es found)) ≡ count_or_zero (find k es)
unfolding marked
marked-count hot k j es none q = refl
marked-count hot k j es (some i) q =
    let f = find-put k j (record i { is_hot = hot }) es in
    elim (Bool-cases (same_key j k)) [
      | inl same ↦ rw (f.0 same, find-alike k j es same, q) refl
      | inr other ↦ rw (f.1 other) refl
    ]

reclassify-count :
    (k j : ExpertKey) (r : ExpertResidency) → count_of k (reclassify j r) ≡ count_of k r
unfolding reclassify
reclassify-count k j r =
    elim (Bool-cases (leb r.access_threshold (count_or_zero (find j r.experts)))) [
      | inl often ↦ rw often (marked-count true k j r.experts (find j r.experts) refl)
      | inr seldom ↦ rw seldom (marked-count false k j r.experts (find j r.experts) refl)
    ]

entry_or-count :
    (j : ExpertKey) (now : ℕ) (o : Option ExpertInfo)
    → (entry_or j now o).access_count ≡ count_or_zero o
entry_or-count j now none = refl
entry_or-count j now (some i) = refl

record_expert-count :
    (now : ℕ) (k j : ExpertKey) (r : ExpertResidency)
    → count_of k (record_expert now j r)
      ≡ (if same_key j k then wrap64 (count_of k r + 1) else count_of k r)
unfolding record_expert
record_expert-count now k j r =
    let i = touched now (entry_or j now (find j r.experts)) in
    let f = find-put k j i r.experts in
    let q = reclassify-count k j (record r { experts = put j i r.experts }) in
    elim (Bool-cases (same_key j k)) [
      | inl same ↦ rw same (
          q
          ∙ rw (f.0 same, find-alike k j r.experts same)
              (rw (entry_or-count j now (find j r.experts)) refl))
      | inr other ↦ rw other (q ∙ rw (f.1 other) refl)
    ]

wrap64_again : (a b : ℕ) → wrap64 (wrap64 a + b) ≡ wrap64 (a + b)
wrap64_again a b = omega arith

-- One more before the rest.
wrap64_one_more :
    (c d b : ℕ) (same : Bool)
    → c ≡ (if same then wrap64 (d + 1) else d)
    → wrap64 (c + b) ≡ wrap64 (d + ((if same then 1 else 0) + b))
wrap64_one_more c d b true q = rw q (wrap64_again (d + 1) b ∙ ap wrap64 (omega arith))
wrap64_one_more c d b false q = rw q (ap wrap64 (omega arith))

record_experts-count :
    (now layer : ℕ) (es : List ℕ) (k : ExpertKey) (r : ExpertResidency)
    → wrap64 (count_of k (record_experts now layer es r))
      ≡ wrap64 (count_of k r + occurs_in k layer es)
unfolding record_experts
record_experts-count now layer [] k r = ap wrap64 (omega arith)
record_experts-count now layer (e ∷ es) k r =
    let j : ExpertKey = record { layer_id = layer; expert_id = e } in
    record_experts-count now layer es k (record_expert now j r)
    ∙ wrap64_one_more _ _ _ (same_key j k) (record_expert-count now k j r)

record_event-count :
    (now : ℕ) (e : ExpertEvent) (k : ExpertKey) (r : ExpertResidency)
    → wrap64 (count_of k (record_event now e r))
      ≡ wrap64 (count_of k r + occurs_in k e.layer_id e.expert_ids)
unfolding record_event
record_event-count now e k r = record_experts-count now e.layer_id e.expert_ids k _

record_events-count :
    (es : List (ℕ × ExpertEvent)) (k : ExpertKey) (r : ExpertResidency)
    → wrap64 (count_of k (record_events es r)) ≡ wrap64 (count_of k r + occurrences k es)
unfolding record_events
record_events-count [] k r = ap wrap64 (omega arith)
record_events-count ((now, e) ∷ es) k r =
    record_events-count es k (record_event now e r)
    ∙ sym (wrap64_again (count_of k (record_event now e r)) (occurrences k es))
    ∙ ap (λ c. wrap64 (c + occurrences k es)) (record_event-count now e k r)
    ∙ wrap64_again (count_of k r + occurs_in k e.layer_id e.expert_ids) (occurrences k es)
    ∙ ap wrap64 (omega arith)

-- A count stays a u64.
record_expert_fits :
    (now : ℕ) (k j : ExpertKey) (r : ExpertResidency)
    → count_of k r < u64_mod
    → count_of k (record_expert now j r) < u64_mod
record_expert_fits now k j r fits = ground (arith, record_expert-count now k j r)

record_experts_fits :
    (now layer : ℕ) (es : List ℕ) (k : ExpertKey) (r : ExpertResidency)
    → count_of k r < u64_mod
    → count_of k (record_experts now layer es r) < u64_mod
unfolding record_experts
record_experts_fits now layer [] k r fits = fits
record_experts_fits now layer (e ∷ es) k r fits =
    record_experts_fits now layer es k _ (record_expert_fits now k _ r fits)

record_events_fits :
    (es : List (ℕ × ExpertEvent)) (k : ExpertKey) (r : ExpertResidency)
    → count_of k r < u64_mod
    → count_of k (record_events es r) < u64_mod
unfolding record_events record_event
record_events_fits [] k r fits = fits
record_events_fits ((now, e) ∷ es) k r fits =
    record_events_fits es k _ (record_experts_fits now e.layer_id e.expert_ids k _ fits)

often_by_count :
    (t : ℕ) (o : Option ExpertInfo) → is_often (suc t) o ≡ leb (suc t) (count_or_zero o)
often_by_count t none = ground arith
often_by_count t (some i) = refl

record_expert-threshold :
    (now : ℕ) (j : ExpertKey) (r : ExpertResidency)
    → (record_expert now j r).access_threshold ≡ r.access_threshold
unfolding record_expert reclassify
record_expert-threshold now j r =
    let i = touched now (entry_or j now (find j r.experts)) in
    elim (Bool-cases (leb r.access_threshold (count_or_zero (find j (put j i r.experts))))) [
      | inl often ↦ rw often refl
      | inr seldom ↦ rw seldom refl
    ]

record_experts-threshold :
    (now layer : ℕ) (es : List ℕ) (r : ExpertResidency)
    → (record_experts now layer es r).access_threshold ≡ r.access_threshold
unfolding record_experts
record_experts-threshold now layer [] r = refl
record_experts-threshold now layer (e ∷ es) r =
    record_experts-threshold now layer es _ ∙ record_expert-threshold now _ r

record_events-threshold :
    (es : List (ℕ × ExpertEvent)) (r : ExpertResidency)
    → (record_events es r).access_threshold ≡ r.access_threshold
unfolding record_events record_event
record_events-threshold [] r = refl
record_events-threshold ((now, e) ∷ es) r =
    record_events-threshold es _ ∙ record_experts-threshold now e.layer_id e.expert_ids _

-- From a new residency with a threshold that is not 0, an expert is hot after any events exactly
-- if they name it at least as often as the threshold says, if they name it less than 2 ^ 64 times:
-- the order of the events, their times and what else they name do not matter.
pub is_hot-occurrences :
    (t : ℕ) (es : List (ℕ × ExpertEvent)) (k : ExpertKey)
    → occurrences k es < u64_mod
    → is_hot k (record_events es (with_threshold (suc t))) ≡ leb (suc t) (occurrences k es)
unfolding is_hot with_threshold has find
is_hot-occurrences t es k fits =
    let start : ExpertResidency = with_threshold (suc t) in
    let r = record_events es start in
    let c =
      record_events-IsClassified es start k (record { hot = refl; cold = refl; flag = refl }) in
    let kept = record_events-threshold es start in
    let small = record_events_fits es k start (omega arith) in
    let n = record_events-count es k start in
    let same : count_of k r ≡ occurrences k es = omega arith in
    c.hot
    ∙ ap (λ th. is_often th (find k r.experts)) kept
    ∙ often_by_count t (find k r.experts)
    ∙ ap (leb (suc t)) same

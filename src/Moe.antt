-- ===== src/Moe.antt =====
-- triAI-Engine/src/moe/mod.rs: which experts are hot and which are cold. A HashMap is the list of
-- its entries and a HashSet the list of its elements; the clock is an argument, one reading for an
-- event. `f64` is the parameter F64.
pub mod Residency
pub mod Counts
mod Tests
use carlo_one_core.Prelude.{
  ℕ, ◌+◌, Bool, true, false, not, ◌&&◌, ◌||◌, Option, none, some, List, [], ◌∷◌, leb, ◌==◌,
  if◌then◌else◌, length, F64, wrap64,
}
use carlo_one_core.Kernel.Experts.{ExpertEvent}

pub record ExpertKey : Type 0 where
  pub layer_id : ℕ
  pub expert_id : ℕ

pub record ExpertInfo : Type 0 where
  pub key : ExpertKey
  pub access_count : ℕ
  pub last_accessed : ℕ
  pub is_hot : Bool
  pub is_pinned : Bool

abbrev pub Experts : Type 0
Experts = List (ExpertKey × ExpertInfo)

pub record ExpertResidency : Type 0 where
  pub experts : Experts
  pub hot_set : List ExpertKey
  pub cold_set : List ExpertKey
  pub access_threshold : ℕ
  pub total_events : ℕ

unfoldable pub with_threshold : ℕ → ExpertResidency
with_threshold threshold = record {
  experts = [];
  hot_set = [];
  cold_set = [];
  access_threshold = threshold;
  total_events = 0;
}

unfoldable pub new : ExpertResidency
unfolding with_threshold
new = with_threshold 5

abbrev pub same_key : ExpertKey → ExpertKey → Bool
same_key a b = a.layer_id == b.layer_id && a.expert_id == b.expert_id

unfoldable pub find : ExpertKey → Experts → Option ExpertInfo
find k [] = none
find k ((j, i) ∷ es) = if same_key j k then some i else find k es

unfoldable pub put : ExpertKey → ExpertInfo → Experts → Experts
put k i [] = (k, i) ∷ []
put k i ((j, o) ∷ es) = let rest = put k i es in if same_key j k then (j, i) ∷ es else (j, o) ∷ rest

unfoldable pub has : ExpertKey → List ExpertKey → Bool
has k [] = false
has k (j ∷ js) = same_key j k || has k js

unfoldable pub with_key : ExpertKey → List ExpertKey → List ExpertKey
with_key k ks = if has k ks then ks else k ∷ ks

unfoldable pub without_key : ExpertKey → List ExpertKey → List ExpertKey
without_key k [] = []
without_key k (j ∷ js) = let rest = without_key k js in if same_key j k then rest else j ∷ rest

abbrev pub count_or_zero : Option ExpertInfo → ℕ
count_or_zero none = 0
count_or_zero (some i) = i.access_count

-- `get_mut`, and the flag of what it finds.
unfoldable pub marked : Bool → ExpertKey → Experts → Option ExpertInfo → Experts
marked hot k es none = es
marked hot k es (some i) = put k (record i { is_hot = hot }) es

unfoldable pub reclassify : ExpertKey → ExpertResidency → ExpertResidency
reclassify k r =
    if leb r.access_threshold (count_or_zero (find k r.experts))
    then (record r {
      hot_set = with_key k r.hot_set;
      cold_set = without_key k r.cold_set;
      experts = marked true k r.experts (find k r.experts);
    })
    else (record r {
      hot_set = without_key k r.hot_set;
      cold_set = with_key k r.cold_set;
      experts = marked false k r.experts (find k r.experts);
    })

abbrev pub entry_or : ExpertKey → ℕ → Option ExpertInfo → ExpertInfo
entry_or k now none = record {
  key = k;
  access_count = 0;
  last_accessed = now;
  is_hot = false;
  is_pinned = false;
}
entry_or k now (some i) = i

abbrev pub touched : ℕ → ExpertInfo → ExpertInfo
touched now i = record i { access_count = wrap64 (i.access_count + 1); last_accessed = now }

unfoldable pub record_expert : ℕ → ExpertKey → ExpertResidency → ExpertResidency
record_expert now k r =
    reclassify k
      (record r { experts = put k (touched now (entry_or k now (find k r.experts))) r.experts })

unfoldable pub record_experts : ℕ → ℕ → List ℕ → ExpertResidency → ExpertResidency
record_experts now layer [] r = r
record_experts now layer (e ∷ es) r =
    record_experts now layer es (record_expert now (record { layer_id = layer; expert_id = e }) r)

unfoldable pub record_event : ℕ → ExpertEvent → ExpertResidency → ExpertResidency
record_event now e r =
    record_experts now e.layer_id e.expert_ids
      (record r { total_events = wrap64 (r.total_events + 1) })

unfoldable pub record_events : List (ℕ × ExpertEvent) → ExpertResidency → ExpertResidency
record_events [] r = r
record_events ((now, e) ∷ es) r = record_events es (record_event now e r)

pinned_as : Bool → ExpertKey → ExpertResidency → Option ExpertInfo → ExpertResidency
pinned_as pin k r none = r
pinned_as pin k r (some i) = record r { experts = put k (record i { is_pinned = pin }) r.experts }

unfoldable pub pin_expert : ExpertKey → ExpertResidency → ExpertResidency
unfolding pinned_as
pin_expert k r = pinned_as true k r (find k r.experts)

unfoldable pub unpin_expert : ExpertKey → ExpertResidency → ExpertResidency
unfolding pinned_as
unpin_expert k r = pinned_as false k r (find k r.experts)

unfoldable pub is_hot : ExpertKey → ExpertResidency → Bool
is_hot k r = has k r.hot_set

unfoldable pub hot_events : Experts → ℕ
hot_events [] = 0
hot_events ((k, i) ∷ es) = (if i.is_hot then i.access_count else 0) + hot_events es

unfoldable pub hit_rate : (F : F64) → ExpertResidency → F.Carrier
hit_rate F r =
    if r.total_events == 0
    then F.lit 0 0
    else F.div (F.of_u64 (hot_events r.experts)) (F.of_u64 r.total_events)

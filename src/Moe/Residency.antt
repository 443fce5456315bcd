-- ===== src/Moe/Residency.antt =====
-- triAI-Engine/src/moe/mod.rs: hot and cold split the experts that were seen.
use carlo_one_core.Prelude.{
  ℕ, Bool, true, false, not, ◌&&◌, ◌||◌, ◌≡◌, refl, sym, ◌∙◌, subst, Option, none, some, List, [],
  ◌∷◌, leb, arith, Bool-cases, inl, inr,
}
use carlo_one_core.Kernel.Experts.{ExpertEvent}
use carlo_one_core.Moe.{
  ExpertKey, ExpertInfo, Experts, ExpertResidency, with_threshold, same_key, find, put, has,
  with_key, without_key, marked, reclassify, entry_or, touched, record_expert, record_experts,
  record_event, record_events, pinned_as, pin_expert, unpin_expert,
}

pub find-put :
    (k j : ExpertKey) (i : ExpertInfo) (es : Experts)
    → (same_key j k ≡ true → find k (put j i es) ≡ some i)
      × (same_key j k ≡ false → find k (put j i es) ≡ find k es)
unfolding find put
find-put k j i [] = (λ s. ground arith, λ s. ground arith)
find-put k j i ((x, o) ∷ es) =
    let rest = find-put k j i es in (λ s. ground (arith, rest.0), λ s. ground (arith, rest.1))

pub find-alike : (k j : ExpertKey) (es : Experts) → same_key j k ≡ true → find k es ≡ find j es
unfolding find
find-alike k j [] s = refl
find-alike k j ((x, o) ∷ es) s = ground (arith, find-alike k j es s)

has-alike : (k j : ExpertKey) (ks : List ExpertKey) → same_key j k ≡ true → has k ks ≡ has j ks
unfolding has
has-alike k j [] s = refl
has-alike k j (x ∷ ks) s = ground (arith, has-alike k j ks s)

has-with_key :
    (k j : ExpertKey) (ks : List ExpertKey) → has k (with_key j ks) ≡ (same_key j k || has k ks)
unfolding has with_key
has-with_key k j ks = ground (arith, has-alike k j ks)

has-without_key :
    (k j : ExpertKey) (ks : List ExpertKey)
    → has k (without_key j ks) ≡ (not (same_key j k) && has k ks)
unfolding has without_key
has-without_key k j [] = ground arith
has-without_key k j (x ∷ ks) = ground (arith, has-without_key k j ks)

-- Whether an entry has been seen often enough, and whether it has been seen, but not often enough.
abbrev pub is_often : ℕ → Option ExpertInfo → Bool
is_often threshold none = false
is_often threshold (some i) = leb threshold i.access_count

abbrev pub is_seldom : ℕ → Option ExpertInfo → Bool
is_seldom threshold none = false
is_seldom threshold (some i) = not (leb threshold i.access_count)

abbrev pub is_marked : Option ExpertInfo → Bool
is_marked none = false
is_marked (some i) = i.is_hot

pub record IsClassified (r : ExpertResidency) (k : ExpertKey) : Type 0 where
  pub hot : has k r.hot_set ≡ is_often r.access_threshold (find k r.experts)
  pub cold : has k r.cold_set ≡ is_seldom r.access_threshold (find k r.experts)
  pub flag : is_marked (find k r.experts) ≡ is_often r.access_threshold (find k r.experts)

-- The entry of `j` and the two sets say the same of it, and nothing else changes.
settled :
    (r : ExpertResidency) (k j : ExpertKey) (i : ExpertInfo) (b : Bool)
    (hots colds : List ExpertKey)
    → leb r.access_threshold i.access_count ≡ b
    → (same_key j k ≡ true → (has k hots ≡ b) × (has k colds ≡ not b))
    → (same_key j k ≡ false → (has k hots ≡ has k r.hot_set) × (has k colds ≡ has k r.cold_set))
    → (same_key j k ≡ false → IsClassified r k)
    → IsClassified
        (record r {
          hot_set = hots;
          cold_set = colds;
          experts = put j (record i { is_hot = b }) r.experts;
        })
        k
settled r k j i b hots colds count here there others =
    let f = find-put k j (record i { is_hot = b }) r.experts in
    elim (Bool-cases (same_key j k)) [
      | inl same ↦
          let q = f.0 same in
          record {
            hot = rw q ((here same).0 ∙ sym count);
            cold = rw (q, count) (here same).1;
            flag = rw q (sym count);
          }
      | inr other ↦
          let q = f.1 other in
          record {
            hot = rw q ((there other).0 ∙ (others other).hot);
            cold = rw q ((there other).1 ∙ (others other).cold);
            flag = rw q (others other).flag;
          }
    ]

moved_same :
    (k j : ExpertKey) (ins outs : List ExpertKey)
    → same_key j k ≡ true
    → (has k (with_key j ins) ≡ true) × (has k (without_key j outs) ≡ false)
moved_same k j ins outs s = ground (arith, has-with_key k j ins, has-without_key k j outs)

moved_other :
    (k j : ExpertKey) (ins outs : List ExpertKey)
    → same_key j k ≡ false
    → (has k (with_key j ins) ≡ has k ins) × (has k (without_key j outs) ≡ has k outs)
moved_other k j ins outs s = ground (arith, has-with_key k j ins, has-without_key k j outs)

-- An entry that is found is put in the set that its count says, and marked.
reclassify-IsClassified :
    (r : ExpertResidency) (k j : ExpertKey) (i : ExpertInfo)
    → find j r.experts ≡ some i
    → (same_key j k ≡ false → IsClassified r k)
    → IsClassified (reclassify j r) k
unfolding reclassify marked
reclassify-IsClassified r k j i found others =
    elim (Bool-cases (leb r.access_threshold i.access_count)) [
      | inl often ↦
          rw (found, often)
            (settled r k j i true (with_key j r.hot_set) (without_key j r.cold_set) often
              (moved_same k j r.hot_set r.cold_set) (moved_other k j r.hot_set r.cold_set) others)
      | inr seldom ↦
          rw (found, seldom)
            (settled r k j i false (without_key j r.hot_set) (with_key j r.cold_set) seldom
              (λ s. let m = moved_same k j r.cold_set r.hot_set s in (m.1, m.0))
              (λ s. let m = moved_other k j r.cold_set r.hot_set s in (m.1, m.0)) others)
    ]

pub same_key_refl : (k : ExpertKey) → same_key k k ≡ true
same_key_refl k = ground arith

record_expert-IsClassified :
    (now : ℕ) (r : ExpertResidency) (k j : ExpertKey)
    → IsClassified r k
    → IsClassified (record_expert now j r) k
unfolding record_expert
record_expert-IsClassified now r k j c =
    let i = touched now (entry_or j now (find j r.experts)) in
    reclassify-IsClassified (record r { experts = put j i r.experts }) k j i
      ((find-put j j i r.experts).0 (same_key_refl j))
      (λ other.
        let q = (find-put k j i r.experts).1 other in
        record { hot = rw q c.hot; cold = rw q c.cold; flag = rw q c.flag })

record_experts-IsClassified :
    (now layer : ℕ) (es : List ℕ) (r : ExpertResidency) (k : ExpertKey)
    → IsClassified r k
    → IsClassified (record_experts now layer es r) k
unfolding record_experts
record_experts-IsClassified now layer [] r k c = c
record_experts-IsClassified now layer (e ∷ es) r k c =
    record_experts-IsClassified now layer es _ k (record_expert-IsClassified now r k _ c)

record_event-IsClassified :
    (now : ℕ) (e : ExpertEvent) (r : ExpertResidency) (k : ExpertKey)
    → IsClassified r k
    → IsClassified (record_event now e r) k
unfolding record_event
record_event-IsClassified now e r k c =
    record_experts-IsClassified now e.layer_id e.expert_ids _ k
      (record { hot = c.hot; cold = c.cold; flag = c.flag })

pinned_as-IsClassified :
    (pin : Bool) (j : ExpertKey) (r : ExpertResidency) (k : ExpertKey) (found : Option ExpertInfo)
    → find j r.experts ≡ found
    → IsClassified r k
    → IsClassified (pinned_as pin j r found) k
unfolding pinned_as
pinned_as-IsClassified pin j r k none q c = c
pinned_as-IsClassified pin j r k (some i) q c =
    let f = find-put k j (record i { is_pinned = pin }) r.experts in
    elim (Bool-cases (same_key j k)) [
      | inl same ↦
          let old = find-alike k j r.experts same ∙ q in
          let h = subst (λ o. has k r.hot_set ≡ is_often r.access_threshold o) old c.hot in
          let l = subst (λ o. has k r.cold_set ≡ is_seldom r.access_threshold o) old c.cold in
          let m = subst (λ o. is_marked o ≡ is_often r.access_threshold o) old c.flag in
          record { hot = rw (f.0 same) h; cold = rw (f.0 same) l; flag = rw (f.0 same) m }
      | inr other ↦
          let n = f.1 other in record { hot = rw n c.hot; cold = rw n c.cold; flag = rw n c.flag }
    ]

-- The calls that change what is known of the experts, events with the time at which they come.
pub data Call : Type 0 where
  records : List (ℕ × ExpertEvent) → Call
  pins unpins : ExpertKey → Call

unfoldable pub perform : Call → ExpertResidency → ExpertResidency
perform (records es) r = record_events es r
perform (pins k) r = pin_expert k r
perform (unpins k) r = unpin_expert k r

unfoldable pub perform_all : List Call → ExpertResidency → ExpertResidency
perform_all [] r = r
perform_all (c ∷ cs) r = perform_all cs (perform c r)

pub record_events-IsClassified :
    (es : List (ℕ × ExpertEvent)) (r : ExpertResidency) (k : ExpertKey)
    → IsClassified r k
    → IsClassified (record_events es r) k
unfolding record_events
record_events-IsClassified [] r k c = c
record_events-IsClassified ((now, e) ∷ es) r k c =
    record_events-IsClassified es _ k (record_event-IsClassified now e r k c)

perform-IsClassified :
    (call : Call) (r : ExpertResidency) (k : ExpertKey)
    → IsClassified r k
    → IsClassified (perform call r) k
unfolding perform pin_expert unpin_expert
perform-IsClassified (records es) r k c = record_events-IsClassified es r k c
perform-IsClassified (pins j) r k c = pinned_as-IsClassified true j r k (find j r.experts) refl c
perform-IsClassified (unpins j) r k c = pinned_as-IsClassified false j r k (find j r.experts) refl c

kept-IsClassified :
    (calls : List Call) (r : ExpertResidency) (k : ExpertKey)
    → IsClassified r k
    → IsClassified (perform_all calls r) k
unfolding perform_all
kept-IsClassified [] r k c = c
kept-IsClassified (call ∷ calls) r k c =
    kept-IsClassified calls _ k (perform-IsClassified call r k c)

-- After any events, pins and unpins from a new residency with any threshold, every expert is in the
-- hot set exactly if it was seen and its count has reached the threshold, in the cold set exactly
-- if it was seen and its count has not, and its own flag says the same: no expert is in both sets,
-- and none that was seen is in neither.
pub perform_all-IsClassified :
    (calls : List Call) (threshold : ℕ) (k : ExpertKey)
    → IsClassified (perform_all calls (with_threshold threshold)) k
unfolding with_threshold has find
perform_all-IsClassified calls threshold k =
    kept-IsClassified calls (with_threshold threshold) k
      (record { hot = refl; cold = refl; flag = refl })

-- ===== src/Monitor/Trigger/Rules.antt =====
-- Runs of a list of rules with different names, against the cooldowns.
use carlo_one_core.Prelude.{
  ℕ, ◌-◌, ◌<◌, ◌≡◌, ◌∙◌, ap₂, refl, String, true, false, ◌&&◌, some, List, [], ◌∷◌, ◌++◌, arith,
  str_eq, eq_iff, if◌then◌else◌, F64, Bool-cases, inl, inr,
}
use carlo_one_core.Prelude.StrMap
use carlo_one_core.Prelude.StrMap.{get-put}
use carlo_one_core.Monitor.Hysteresis.{
  HysteresisState, TriggerState, from_millis, can_trigger, record_trigger, bumped,
}
use carlo_one_core.Monitor.Hysteresis.Cooldown.{can_trigger-record_trigger, get-record_trigger}
use carlo_one_core.Monitor.Trigger.{Rule, TriggerAction, attempt, run_rules}

-- The rule's name differs from each in the list.
abbrev pub Apart : String → List Rule → Type 0
Apart k [] = Unit
Apart k (r ∷ rs) = (str_eq k r.key ≡ false) × Apart k rs

abbrev pub HasOwnNames : List Rule → Type 0
HasOwnNames [] = Unit
HasOwnNames (r ∷ rs) = Apart r.key rs × HasOwnNames rs

-- What a list of rules asks for when every trigger is let through.
abbrev pub due_actions : List Rule → List TriggerAction
due_actions [] = []
due_actions (r ∷ rs) = (if r.holds then r.actions else []) ++ due_actions rs

module _ (F : F64) where
  -- The trigger has been recorded at some time.
  abbrev pub IsTracked : HysteresisState F → String → Type 0
  IsTracked h k = (t : TriggerState) × (StrMap.get k h.states ≡ some t)

  -- No cooldown of a recorded trigger is over at that instant.
  abbrev pub IsCooling : HysteresisState F → ℕ → Type 0
  IsCooling h later =
      (k : String) (t : TriggerState)
      → StrMap.get k h.states ≡ some t
      → later - t.last_triggered < from_millis t.current_cooldown_ms

  abbrev pub IsReady : HysteresisState F → ℕ → List Rule → Type 0
  IsReady h now [] = Unit
  IsReady h now (r ∷ rs) = (can_trigger F h r.key now ≡ true) × IsReady h now rs

  abbrev HoldsTracked : HysteresisState F → List Rule → Type 0
  HoldsTracked h [] = Unit
  HoldsTracked h (r ∷ rs) = (r.holds ≡ true → IsTracked h r.key) × HoldsTracked h rs

  IsTracked-record_trigger :
      (h : HysteresisState F) (k j : String) (now : ℕ)
      → IsTracked h j
      → IsTracked (record_trigger F h k now) j
  IsTracked-record_trigger h k j now (t, there) = elim (Bool-cases (str_eq k j)) [
    | inl same ↦
        (bumped F h.config now (StrMap.get k h.states), get-record_trigger F h k j now ∙ rw same)
    | inr other ↦ (t, get-record_trigger F h k j now ∙ rw other there)
  ]

  record_trigger_tracks :
      (h : HysteresisState F) (k : String) (now : ℕ) → IsTracked (record_trigger F h k now) k
  record_trigger_tracks h k now = (
    bumped F h.config now (StrMap.get k h.states),
    get-record_trigger F h k k now ∙ rw ((eq_iff k k).1 refl),
  )

  IsTracked-attempt :
      (now : ℕ) (r : Rule) (h : HysteresisState F) (j : String)
      → IsTracked h j
      → IsTracked (attempt F now r h).0 j
  unfolding attempt
  IsTracked-attempt now r h j there = elim (Bool-cases (r.holds && can_trigger F h r.key now)) [
    | inl fires ↦ rw fires (IsTracked-record_trigger h r.key j now there)
    | inr waits ↦ rw waits there
  ]

  IsTracked-run_rules :
      (now : ℕ) (rs : List Rule) (h : HysteresisState F) (j : String)
      → IsTracked h j
      → IsTracked (run_rules F now rs h).0 j
  unfolding run_rules
  IsTracked-run_rules now [] h j there = there
  IsTracked-run_rules now (r ∷ rs) h j there =
      IsTracked-run_rules now rs (attempt F now r h).0 j (IsTracked-attempt now r h j there)

  IsTracked-blocked :
      (h : HysteresisState F) (k : String) (now : ℕ) → can_trigger F h k now ≡ false → IsTracked h k
  unfolding can_trigger
  IsTracked-blocked h k now blocked = ground arith

  attempt_tracks :
      (now : ℕ) (r : Rule) (h : HysteresisState F)
      → r.holds ≡ true
      → IsTracked (attempt F now r h).0 r.key
  unfolding attempt
  attempt_tracks now r h holds = elim (Bool-cases (can_trigger F h r.key now)) [
    | inl free ↦ rw (holds, free) (record_trigger_tracks h r.key now)
    | inr blocked ↦ rw (holds, blocked) (IsTracked-blocked h r.key now blocked)
  ]

  run_rules_tracks :
      (now : ℕ) (rs : List Rule) (h : HysteresisState F) → HoldsTracked (run_rules F now rs h).0 rs
  unfolding run_rules
  run_rules_tracks now [] h = tt
  run_rules_tracks now (r ∷ rs) h =
      let h' = (attempt F now r h).0 in
      (
        λ holds. IsTracked-run_rules now rs h' r.key (attempt_tracks now r h holds),
        run_rules_tracks now rs h',
      )

  blocked_of_cooling :
      (h : HysteresisState F) (k : String) (later : ℕ) (t : TriggerState)
      → StrMap.get k h.states ≡ some t
      → later - t.last_triggered < from_millis t.current_cooldown_ms
      → can_trigger F h k later ≡ false
  unfolding can_trigger
  blocked_of_cooling h k later t there cooling = ground arith

  attempt_quiet :
      (later : ℕ) (r : Rule) (h : HysteresisState F)
      → IsCooling h later
      → (r.holds ≡ true → IsTracked h r.key)
      → attempt F later r h ≡ (h, [])
  unfolding attempt
  attempt_quiet later r h cooling tracked = elim (Bool-cases r.holds) [
    | inl holds ↦
        let (t, there) = tracked holds in
        rw (holds, blocked_of_cooling h r.key later t there (cooling r.key t there))
    | inr idle ↦ rw idle
  ]

  run_rules_quiet :
      (later : ℕ) (rs : List Rule) (h : HysteresisState F)
      → IsCooling h later
      → HoldsTracked h rs
      → run_rules F later rs h ≡ (h, [])
  unfolding run_rules attempt can_trigger
  run_rules_quiet later [] h cooling tracked = refl
  run_rules_quiet later (r ∷ rs) h cooling tracked =
      rw (attempt_quiet later r h cooling tracked.0)
        (rw (run_rules_quiet later rs h cooling tracked.1) refl)

  -- Whatever the rules and the cooldowns, if at the later instant no cooldown is over, the same
  -- rules ask for nothing and record nothing.
  pub run_rules_again :
      (now later : ℕ) (rs : List Rule) (h : HysteresisState F)
      → IsCooling (run_rules F now rs h).0 later
      → run_rules F later rs (run_rules F now rs h).0 ≡ ((run_rules F now rs h).0, [])
  run_rules_again now later rs h cooling =
      run_rules_quiet later rs (run_rules F now rs h).0 cooling (run_rules_tracks now rs h)

  can_trigger-attempt_apart :
      (now : ℕ) (r : Rule) (h : HysteresisState F) (k : String)
      → str_eq r.key k ≡ false
      → can_trigger F (attempt F now r h).0 k now ≡ can_trigger F h k now
  unfolding attempt
  can_trigger-attempt_apart now r h k apart =
      ground (arith, can_trigger-record_trigger F h r.key k now now)

  IsReady-attempt :
      (now : ℕ) (r : Rule) (h : HysteresisState F) (rs : List Rule)
      → Apart r.key rs
      → IsReady h now rs
      → IsReady (attempt F now r h).0 now rs
  IsReady-attempt now r h [] apart ready = tt
  IsReady-attempt now r h (q ∷ rs) apart ready = (
    can_trigger-attempt_apart now r h q.key apart.0 ∙ ready.0,
    IsReady-attempt now r h rs apart.1 ready.1,
  )

  actions_of_ready :
      (now : ℕ) (r : Rule) (h : HysteresisState F)
      → can_trigger F h r.key now ≡ true
      → (attempt F now r h).1 ≡ (if r.holds then r.actions else [])
  unfolding attempt
  actions_of_ready now r h ready = ground arith

  -- Rules with different names that are all let through ask for all that is due.
  pub run_rules_ready :
      (now : ℕ) (rs : List Rule) (h : HysteresisState F)
      → HasOwnNames rs
      → IsReady h now rs
      → (run_rules F now rs h).1 ≡ due_actions rs
  unfolding run_rules
  run_rules_ready now [] h own ready = refl
  run_rules_ready now (r ∷ rs) h own ready = ap₂ ◌++◌ (actions_of_ready now r h ready.0) (
      run_rules_ready now rs (attempt F now r h).0 own.1 (IsReady-attempt now r h rs own.0 ready.1))

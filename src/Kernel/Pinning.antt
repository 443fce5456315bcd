-- ===== src/Kernel/Pinning.antt =====
-- triAI-Engine/src/kernel_worker.rs: what each call does to a pinned chunk.
pub mod Steps
pub mod Stays
pub mod Lost
use carlo_one_core.Prelude.{
  ℕ, ◌≡◌, refl, sym, ap, subst, ◌∙◌, String, Bool, true, false, ◌&&◌, ◌||◌, not, Option, none, some,
  List, [], ◌∷◌, arith, ltb, ◌==◌, ◌-◌, str_eq, eq_iff, Bool-cases, Option-cases, inl, inr,
  if◌then◌else◌, wrap64, ◌+◌,
}
use carlo_one_core.Prelude.StrMap
use carlo_one_core.Prelude.StrMap.{StrMap, get-put, get-remove}
use carlo_one_core.Kernel.{
  KernelWorker, VramPage, PageKey, has, with_key, without_key, is_there, cold_entries, moved,
  move_to_ram, move_all, evict_cold_entries, recorded, accessed, record_access, inserted,
  load_to_vram, vram_bytes, with_evict_event, may_evict, evicted, evict_to_ram, pinned, pin_chunk,
  unpinned, unpin_chunk,
}
use carlo_one_core.Kernel.Experts.{
  ExpertEvent, expert_name, prefetch_expert, prefetch_layer, prefetch_experts, classify_experts,
  sync_expert_events,
}

-- The chunk is pinned, and it is in video memory.
abbrev pub IsHeld : String → KernelWorker → Type 0
IsHeld k w = (has k w.pinned_keys ≡ true) × (is_there (StrMap.get k w.vram_pages) ≡ true)

pub is_there-put :
    {A : Type 0} (j k : String) (p : A) (m : StrMap A)
    → is_there (StrMap.get k m) ≡ true
    → is_there (StrMap.get k (StrMap.put j p m)) ≡ true
is_there-put j k p m there = ground (arith, get-put j k p m)

moved-IsHeld :
    (now : ℕ) (j k : String) (w : KernelWorker) (found : Option VramPage)
    → str_eq j k ≡ false
    → IsHeld k w
    → IsHeld k (moved now j w found)
unfolding moved
moved-IsHeld now j k w none apart held = held
moved-IsHeld now j k w (some p) apart (pin, there) =
    (pin, ground (arith, get-remove j k w.vram_pages))

move_all-IsHeld :
    (now : ℕ) (ks : List String) (k : String) (w : KernelWorker)
    → has k ks ≡ false
    → IsHeld k w
    → IsHeld k (move_all now ks w)
unfolding move_all move_to_ram has
move_all-IsHeld now [] k w spared held = held
move_all-IsHeld now (j ∷ js) k w spared held =
    move_all-IsHeld now js k (move_to_ram now j w) (ground arith)
      (moved-IsHeld now j k w (StrMap.get j w.vram_pages) (ground arith) held)

has_none-skip :
    (k j : String) (kept : Bool) (ks : List String)
    → str_eq j k ≡ false
    → has k ks ≡ false
    → has k (if kept then j ∷ ks else ks) ≡ false
unfolding has
has_none-skip k j kept ks other absent = ground arith

has-cold_entries :
    (k : String) (pins : List String) (m : StrMap VramPage)
    → has k pins ≡ true
    → has k (cold_entries pins m) ≡ false
unfolding cold_entries
has-cold_entries k pins [] pin = unfold has in refl
has-cold_entries k pins ((j, p) ∷ m) pin = elim (Bool-cases (str_eq j k)) [
  | inl same ↦
      let pinned_too : has j pins ≡ true =
        subst (λ i. has i pins ≡ true) (sym ((eq_iff j k).0 same)) pin in
      rw pinned_too (has-cold_entries k pins m pin)
  | inr other ↦ has_none-skip k j _ (cold_entries pins m) other (has-cold_entries k pins m pin)
]

pub evict_cold_entries-IsHeld :
    (now : ℕ) (k : String) (w : KernelWorker) → IsHeld k w → IsHeld k (evict_cold_entries now w)
unfolding evict_cold_entries
evict_cold_entries-IsHeld now k w held =
    move_all-IsHeld now (cold_entries w.pinned_keys w.vram_pages) k w
      (has-cold_entries k w.pinned_keys w.vram_pages held.0) held

pub recorded-IsHeld :
    (now : ℕ) (j k : String) (w : KernelWorker) (found : Option VramPage)
    → IsHeld k w
    → IsHeld k (recorded now j w found)
unfolding recorded
recorded-IsHeld now j k w none held = held
recorded-IsHeld now j k w (some p) (pin, there) = (pin, is_there-put j k _ w.vram_pages there)

pub inserted-IsHeld :
    (now : ℕ) (key : PageKey) (size : ℕ) (k : String) (w : KernelWorker)
    → IsHeld k w
    → IsHeld k (inserted now key size w)
unfolding inserted
inserted-IsHeld now key size k w (pin, there) =
    (pin, is_there-put key.chunk_id k _ w.vram_pages there)

pub load_to_vram-IsHeld :
    (now : ℕ) (key : PageKey) (size : ℕ) (k : String) (w : KernelWorker)
    → IsHeld k w
    → IsHeld k (load_to_vram now key size w)
unfolding load_to_vram record_access
load_to_vram-IsHeld now key size k w held =
    elim (Bool-cases (is_there (StrMap.get key.chunk_id w.vram_pages))) [
      | inl loaded ↦
          rw loaded
            (recorded-IsHeld now key.chunk_id k w (StrMap.get key.chunk_id w.vram_pages) held)
      | inr absent ↦
          elim (Bool-cases (ltb w.vram_budget_bytes (wrap64 (wrap64 (vram_bytes w) + size)))) [
            | inl full ↦
                rw (absent, full)
                  (inserted-IsHeld now key size k (evict_cold_entries now w)
                    (evict_cold_entries-IsHeld now k w held))
            | inr free ↦ rw (absent, free) (inserted-IsHeld now key size k w held)
          ]
    ]

with_evict_event-IsHeld :
    (now : ℕ) (k : String) (w : KernelWorker) (found : Option VramPage)
    → IsHeld k w
    → IsHeld k (with_evict_event now found w)
unfolding with_evict_event
with_evict_event-IsHeld now k w none held = held
with_evict_event-IsHeld now k w (some p) held = held

pub apart_of_has :
    (j k : String) (ks : List String) → has j ks ≡ false → has k ks ≡ true → str_eq j k ≡ false
apart_of_has j k ks loose held = elim (Bool-cases (str_eq j k)) [
  | inl same ↦ cc (ap (λ i. has i ks) ((eq_iff j k).0 same))
  | inr other ↦ other
]

pub evicted-IsHeld :
    (now : ℕ) (j k : String) (w : KernelWorker)
    → str_eq j k ≡ false
    → IsHeld k w
    → IsHeld k (evicted now j w)
unfolding evicted move_to_ram
evicted-IsHeld now j k w apart held =
    with_evict_event-IsHeld now k (move_to_ram now j w) (StrMap.get j w.vram_pages)
      (moved-IsHeld now j k w (StrMap.get j w.vram_pages) apart held)

pub evict_to_ram-IsHeld :
    (now : ℕ) (j k : String) (w : KernelWorker) → IsHeld k w → IsHeld k (evict_to_ram now j w)
unfolding evict_to_ram may_evict
evict_to_ram-IsHeld now j k w held = elim (Bool-cases (has j w.pinned_keys)) [
  | inl kept ↦ rw kept held
  | inr loose ↦
      rw loose (evicted-IsHeld now j k w (apart_of_has j k w.pinned_keys loose held.0) held)
]

has-with_key : (j k : String) (ks : List String) → has k ks ≡ true → has k (with_key j ks) ≡ true
unfolding with_key has
has-with_key j k ks there = ground arith

pub pinned-IsHeld :
    (j k : String) (w : KernelWorker) (found : Option VramPage)
    → IsHeld k w
    → IsHeld k (pinned j w found)
unfolding pinned
pinned-IsHeld j k w none held = held
pinned-IsHeld j k w (some p) (pin, there) =
    (has-with_key j k w.pinned_keys pin, is_there-put j k _ w.vram_pages there)

has-without_key :
    (j k : String) (ks : List String) → str_eq j k ≡ false → has k (without_key j ks) ≡ has k ks
unfolding without_key has
has-without_key j k [] apart = refl
has-without_key j k (i ∷ ks) apart =
    ground (arith, has-without_key j k ks apart, eq_iff i j, eq_iff i k, eq_iff j k)

pub unpinned-IsHeld :
    (j k : String) (w : KernelWorker) (found : Option VramPage)
    → str_eq j k ≡ false
    → IsHeld k w
    → IsHeld k (unpinned j w found)
unfolding unpinned
unpinned-IsHeld j k w none apart held = held
unpinned-IsHeld j k w (some p) apart (pin, there) =
    (ground (arith, has-without_key j k w.pinned_keys apart), is_there-put j k _ w.vram_pages there)

prefetch_expert-IsHeld :
    (now layer expert : ℕ) (k : String) (w : KernelWorker)
    → IsHeld k w
    → IsHeld k (prefetch_expert now layer expert w)
unfolding prefetch_expert record_access
prefetch_expert-IsHeld now layer expert k w held =
    let id = expert_name "expert_" layer "_" expert in
    elim (Bool-cases (is_there (StrMap.get id w.vram_pages))) [
      | inl loaded ↦ rw loaded (recorded-IsHeld now id k w (StrMap.get id w.vram_pages) held)
      | inr absent ↦ rw absent (load_to_vram-IsHeld now _ _ k w held)
    ]

prefetch_layer-IsHeld :
    (now layer : ℕ) (experts : List ℕ) (k : String) (w : KernelWorker)
    → IsHeld k w
    → IsHeld k (prefetch_layer now layer experts w)
unfolding prefetch_layer
prefetch_layer-IsHeld now layer [] k w held = held
prefetch_layer-IsHeld now layer (e ∷ es) k w held =
    prefetch_layer-IsHeld now layer es k _ (prefetch_expert-IsHeld now layer e k w held)

pub prefetch_experts-IsHeld :
    (now : ℕ) (events : List ExpertEvent) (k : String) (w : KernelWorker)
    → IsHeld k w
    → IsHeld k (prefetch_experts now events w)
unfolding prefetch_experts
prefetch_experts-IsHeld now [] k w held = held
prefetch_experts-IsHeld now (e ∷ es) k w held =
    prefetch_experts-IsHeld now es k _ (prefetch_layer-IsHeld now e.layer_id e.expert_ids k w held)

pub classify_experts-IsHeld :
    (events : List ExpertEvent) (k : String) (w : KernelWorker)
    → IsHeld k w
    → IsHeld k (classify_experts events w)
unfolding classify_experts
classify_experts-IsHeld events k w held = held

-- ===== src/Chunk/Packer/Sizes.antt =====
-- triAI-Engine/src/chunk/packer.rs: how large the groups are.
use carlo_one_core.Prelude.{
  ℕ, ◌+◌, ◌≤◌, ◌<◌, min, ◌≡◌, ◌⊎◌, inl, inr, refl, ap, Bool, true, false, List, [], ◌∷◌, ◌++◌, ◌||◌,
  arith, ltb, length, u64_max, sat_add, Bool-cases,
}
use carlo_one_core.Chunk.Packer.{
  PackerConfig, Item, Grouping, is_separate, is_nil, close, append_item, group_step, group_all,
  groups_of,
}
use carlo_one_core.Chunk.Packer.Groups.{close-nil}

abbrev pub sizes : List Item → ℕ
sizes [] = 0
sizes (x ∷ xs) = x.info.size + sizes xs

abbrev pub has_separate : PackerConfig → List Item → Bool
has_separate config [] = false
has_separate config (x ∷ xs) = is_separate config x || has_separate config xs

-- A chunk is a single tensor, or it keeps to the target and has no tensor that wants a chunk of
-- its own.
abbrev pub IsChunk : PackerConfig → List Item → Type 0
IsChunk config g =
    (is_nil g ≡ false)
    × ((length g ≡ 1) ⊎ ((sizes g ≤ config.target_chunk_bytes) × (has_separate config g ≡ false)))

abbrev pub AllChunks : PackerConfig → List (List Item) → Type 0
AllChunks config [] = Unit
AllChunks config (g ∷ gs) = IsChunk config g × AllChunks config gs

AllChunks-append :
    (config : PackerConfig) (gs : List (List Item)) (g : List Item)
    → AllChunks config gs
    → IsChunk config g
    → AllChunks config (gs ++ g ∷ [])
AllChunks-append config [] g all one = (one, tt)
AllChunks-append config (h ∷ gs) g all one = (all.0, AllChunks-append config gs g all.1 one)

sizes-append : (xs : List Item) (x : Item) → sizes (xs ++ x ∷ []) ≡ sizes xs + x.info.size
sizes-append [] x = omega arith
sizes-append (y ∷ xs) x = omega (arith, sizes-append xs x)

has_separate-append :
    (config : PackerConfig) (xs : List Item) (x : Item)
    → has_separate config xs ≡ false
    → is_separate config x ≡ false
    → has_separate config (xs ++ x ∷ []) ≡ false
has_separate-append config [] x none_yet shared = rw shared
has_separate-append config (y ∷ xs) x none_yet shared =
    ground (arith, has_separate-append config xs x)

is_nil-append : (xs : List Item) (x : Item) → is_nil (xs ++ x ∷ []) ≡ false
is_nil-append [] x = refl
is_nil-append (y ∷ xs) x = refl

record IsGrouping (config : PackerConfig) (g : Grouping) : Type 0 where
  closed : AllChunks config g.groups
  counted : g.used ≡ min (sizes g.group) u64_max
  shared : has_separate config g.group ≡ false
  fits :
      (is_nil g.group ≡ true) ⊎ ((length g.group ≡ 1) ⊎ (sizes g.group ≤ config.target_chunk_bytes))

chunk_fits :
    (config : PackerConfig) (g : Grouping)
    → IsGrouping config g
    → is_nil g.group ≡ false
    → (length g.group ≡ 1)
      ⊎ ((sizes g.group ≤ config.target_chunk_bytes) × (has_separate config g.group ≡ false))
chunk_fits config g w full = elim w.fits [
  | inl empty ↦ cc
  | inr (inl one) ↦ inl one
  | inr (inr small) ↦ inr (small, w.shared)
]

close-IsGrouping :
    (config : PackerConfig) (g : Grouping) → IsGrouping config g → IsGrouping config (close g)
unfolding close
close-IsGrouping config g w = elim (Bool-cases (is_nil g.group)) [
  | inl empty ↦ rw empty w
  | inr full ↦ rw full (record {
    closed = AllChunks-append config g.groups g.group w.closed (full, chunk_fits config g w full);
    counted = refl;
    shared = refl;
    fits = inl refl;
  })
]

append_item-first :
    (config : PackerConfig) (g : Grouping) (x : Item)
    → IsGrouping config g
    → g.group ≡ []
    → is_separate config x ≡ false
    → IsGrouping config (append_item x g)
unfolding append_item
append_item-first config g x w empty alone = record {
  closed = w.closed;
  counted = omega (arith, w.counted, ap sizes empty, sizes-append g.group x);
  shared = has_separate-append config g.group x w.shared alone;
  fits = inr (inl (ap (λ xs. length (xs ++ x ∷ [])) empty));
}

append_item-fitting :
    (config : PackerConfig) (g : Grouping) (x : Item)
    → config.target_chunk_bytes < u64_max
    → IsGrouping config g
    → ltb config.target_chunk_bytes (sat_add g.used x.info.size) ≡ false
    → is_separate config x ≡ false
    → IsGrouping config (append_item x g)
unfolding append_item
append_item-fitting config g x bound w room alone = record {
  closed = w.closed;
  counted = omega (arith, w.counted, sizes-append g.group x);
  shared = has_separate-append config g.group x w.shared alone;
  fits = inr (inr (ground (arith, w.counted, sizes-append g.group x)));
}

group_step-IsGrouping :
    (config : PackerConfig) (g : Grouping) (x : Item)
    → config.target_chunk_bytes < u64_max
    → IsGrouping config g
    → IsGrouping config (group_step config g x)
unfolding group_step
group_step-IsGrouping config g x bound w = elim (Bool-cases (is_separate config x)) [
  | inl alone ↦
      let c = close-IsGrouping config g w in
      rw alone (record {
        closed = AllChunks-append config (close g).groups (x ∷ []) c.closed (refl, inl refl);
        counted = c.counted;
        shared = c.shared;
        fits = c.fits;
      })
  | inr shared ↦ elim (Bool-cases (ltb config.target_chunk_bytes (sat_add g.used x.info.size))) [
    | inl full ↦
        rw (shared, full)
          (append_item-first config (close g) x (close-IsGrouping config g w) (close-nil g) shared)
    | inr fits ↦ rw (shared, fits) (append_item-fitting config g x bound w fits shared)
  ]
]

group_all-IsGrouping :
    (config : PackerConfig) (g : Grouping) (xs : List Item)
    → config.target_chunk_bytes < u64_max
    → IsGrouping config g
    → IsGrouping config (group_all config g xs)
unfolding group_all
group_all-IsGrouping config g [] bound w = w
group_all-IsGrouping config g (x ∷ xs) bound w =
    group_all-IsGrouping config (group_step config g x) xs bound
      (group_step-IsGrouping config g x bound w)

-- With a target below 2^64 - 1: no chunk is empty, and each is a single tensor or is within the
-- target and has no tensor that wants a chunk of its own. So an expert that wants its own chunk is
-- alone in it.
pub groups_of-AllChunks :
    (config : PackerConfig) (xs : List Item)
    → config.target_chunk_bytes < u64_max
    → AllChunks config (groups_of config xs)
unfolding groups_of
groups_of-AllChunks config xs bound =
    (close-IsGrouping config (group_all config _ xs) (
      group_all-IsGrouping config _ xs bound
        (record { closed = tt; counted = omega arith; shared = refl; fits = inl refl }))).closed

-- ===== src/Chunk/Packer/Groups.antt =====
-- triAI-Engine/src/chunk/packer.rs: what the grouping of the tensors keeps.
use mathlib.Core.List.{append_assoc, append-nil}
use carlo_one_core.Prelude.{
  ◌≡◌, inl, inr, refl, sym, ap, ◌∙◌, List, [], ◌∷◌, ◌++◌, ltb, sat_add, Bool-cases, List-cases,
}
use carlo_one_core.Chunk.Packer.{
  PackerConfig, Item, Grouping, is_separate, is_nil, close, append_item, group_step, group_all,
  groups_of,
}

abbrev pub concat {ℓ} : {A : Type ℓ} → List (List A) → List A
concat [] = []
concat (xs ∷ xss) = xs ++ concat xss

concat-append {ℓ} :
    {A : Type ℓ} (xss : List (List A)) (ys : List A) → concat (xss ++ ys ∷ []) ≡ concat xss ++ ys
concat-append [] ys = append-nil ys
concat-append (xs ∷ xss) ys =
    ap (λ zs. xs ++ zs) (concat-append xss ys) ∙ sym (append_assoc xs (concat xss) ys)

-- What has been grouped, in its order.
abbrev grouped : Grouping → List Item
grouped g = concat g.groups ++ g.group

pub close-nil : (g : Grouping) → (close g).group ≡ []
unfolding close
close-nil g = elim (List-cases g.group) [
  | inl none_left ↦ simp none_left refl
  | inr (x, xs, some_left) ↦ simp some_left refl
]

grouped-close : (g : Grouping) → grouped (close g) ≡ grouped g
unfolding close
grouped-close g = elim (Bool-cases (is_nil g.group)) [
  | inl empty ↦ rw empty
  | inr full ↦ rw full (append-nil _ ∙ concat-append g.groups g.group)
]

-- A closed grouping has all in its groups.
grouped_closed : (g : Grouping) → concat (close g).groups ≡ grouped g
grouped_closed g =
    sym (append-nil _)
    ∙ ap (λ xs. concat (close g).groups ++ xs) (sym (close-nil g))
    ∙ grouped-close g

grouped-append_item : (x : Item) (g : Grouping) → grouped (append_item x g) ≡ grouped g ++ x ∷ []
unfolding append_item
grouped-append_item x g = sym (append_assoc (concat g.groups) g.group (x ∷ []))

grouped-group_step :
    (config : PackerConfig) (g : Grouping) (x : Item)
    → grouped (group_step config g x) ≡ grouped g ++ x ∷ []
unfolding group_step
grouped-group_step config g x = elim (Bool-cases (is_separate config x)) [
  | inl alone ↦
      rw (alone, close-nil g)
        (append-nil _ ∙ concat-append (close g).groups (x ∷ []) ∙ rw (grouped_closed g))
  | inr shared ↦ elim (Bool-cases (ltb config.target_chunk_bytes (sat_add g.used x.info.size))) [
    | inl full ↦ rw (shared, full) (grouped-append_item x (close g) ∙ rw (grouped-close g))
    | inr fits ↦ rw (shared, fits) (grouped-append_item x g)
  ]
]

grouped-group_all :
    (config : PackerConfig) (g : Grouping) (xs : List Item)
    → grouped (group_all config g xs) ≡ grouped g ++ xs
unfolding group_all
grouped-group_all config g [] = sym (append-nil _)
grouped-group_all config g (x ∷ xs) =
    grouped-group_all config (group_step config g x) xs
    ∙ rw (grouped-group_step config g x) (append_assoc (grouped g) (x ∷ []) xs)

-- The groups, one after the other, are the tensors of the file in their order: none is lost,
-- doubled or moved.
pub concat-groups_of : (config : PackerConfig) (xs : List Item) → concat (groups_of config xs) ≡ xs
unfolding groups_of
concat-groups_of config xs = grouped_closed (group_all config _ xs) ∙ grouped-group_all config _ xs

-- ===== src/Chunk/Packer.antt =====
-- triAI-Engine/src/chunk/packer.rs: the tensors of a file grouped into chunks, and the archive. The
-- file is its bytes; `none` is any error. zstd and SHA-256 are the parameter `Codec`.
pub mod Groups
pub mod Sizes
pub mod Archive
use carlo_one_core.Prelude.{
  ℕ, zero, suc, ◌+◌, ◌*◌, ◌≤◌, String, Bool, true, false, ◌&&◌, ◌||◌, Option, none, some, List, [],
  ◌∷◌, ◌++◌, leb, ltb, ◌==◌, if◌then◌else◌, sat_add, length, take, drop, Text, bytes_eq,
}
use carlo_one_core.Chunk.{
  TensorCategory, TensorEntry, TensorIndex, ChunkDescriptor, ChunkManifest, moe_expert, embeddings,
  output, norms, tokenizer, metadata, same_category, classify_tensor, new_index, add, new_manifest,
  add_chunk,
}
use carlo_one_core.Chunk.Gguf.{GgufTensorInfo}

abbrev pub is_in : TensorCategory → List TensorCategory → Bool
is_in c [] = false
is_in c (d ∷ ds) = same_category d c || is_in c ds

abbrev pub compressible_categories : List TensorCategory
compressible_categories = embeddings ∷ output ∷ norms ∷ tokenizer ∷ metadata ∷ []

abbrev pub should_compress : TensorCategory → Bool
should_compress category = is_in category compressible_categories

pub record PackerConfig : Type 0 where
  pub target_chunk_bytes : ℕ
  pub zstd_level : ℕ
  pub separate_categories : List TensorCategory
  pub compress_only_compressible : Bool

abbrev pub default_config : PackerConfig
default_config = record {
  target_chunk_bytes = 64 * 1024 * 1024;
  zstd_level = 3;
  separate_categories = moe_expert ∷ [];
  compress_only_compressible = true;
}

-- An index into the tensors of the header, with what stands there and its category.
pub record Item : Type 0 where
  pub number : ℕ
  pub info : GgufTensorInfo
  pub category : TensorCategory

unfoldable pub items : ℕ → List GgufTensorInfo → List Item
items n [] = []
items n (x ∷ xs) =
    record { number = n; info = x; category = classify_tensor x.name } ∷ items (suc n) xs

abbrev pub is_separate : PackerConfig → Item → Bool
is_separate config x =
    same_category x.category moe_expert && is_in x.category config.separate_categories

abbrev pub is_nil {ℓ} : {A : Type ℓ} → List A → Bool
is_nil [] = true
is_nil (_ ∷ _) = false

-- The groups that are closed, the open one, and its size.
pub record Grouping : Type 0 where
  pub groups : List (List Item)
  pub group : List Item
  pub used : ℕ

unfoldable pub close : Grouping → Grouping
close g =
    if is_nil g.group then g else record { groups = g.groups ++ g.group ∷ []; group = []; used = 0 }

append_item : Item → Grouping → Grouping
append_item x g = record g { group = g.group ++ x ∷ []; used = sat_add g.used x.info.size }

unfoldable pub group_step : PackerConfig → Grouping → Item → Grouping
unfolding append_item
group_step config g x =
    let closed = close g in
    if is_separate config x
    then record closed { groups = closed.groups ++ (x ∷ []) ∷ [] }
    else if ltb config.target_chunk_bytes (sat_add g.used x.info.size)
    then append_item x closed
    else append_item x g

unfoldable pub group_all : PackerConfig → Grouping → List Item → Grouping
group_all config g [] = g
group_all config g (x ∷ xs) = group_all config (group_step config g x) xs

unfoldable pub groups_of : PackerConfig → List Item → List (List Item)
groups_of config xs =
    (close (group_all config (record { groups = []; group = []; used = 0 }) xs)).groups

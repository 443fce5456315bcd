-- ===== src/Chunk.antt =====
-- triAI-Engine/src/chunk/: a model file cut into chunks. This file is chunk/classify.rs and the
-- types of chunk/index.rs. Names of tensors are their UTF-8 bytes; sizes and offsets are `u64`.
pub mod Gguf
pub mod Rollback
pub mod Packer
pub mod Loader
mod Tests
use carlo_one_core.Prelude.{
  ℕ, ◌-◌, ◌≤◌, String, Bool, true, false, ◌&&◌, ◌||◌, Option, none, some, List, [], ◌∷◌, ◌++◌, leb,
  ◌==◌, if◌then◌else◌, sat_add, codes, length, Text, bytes_eq, to_ascii_lowercase, starts_with,
  ends_with, contains, contains_any, split, parse_u32,
}

pub data TensorCategory : Type 0 where
  metadata tokenizer embeddings output norms attention dense_ffn : TensorCategory
  moe_router moe_expert kv_runtime : TensorCategory

abbrev pub warmup_priority : TensorCategory → ℕ
warmup_priority metadata = 1
warmup_priority tokenizer = 2
warmup_priority norms = 3
warmup_priority moe_router = 4
warmup_priority embeddings = 5
warmup_priority output = 6
warmup_priority attention = 7
warmup_priority dense_ffn = 8
warmup_priority moe_expert = 9
warmup_priority kv_runtime = 10

abbrev pub is_eager : TensorCategory → Bool
is_eager metadata = true
is_eager tokenizer = true
is_eager norms = true
is_eager moe_router = true
is_eager _ = false

-- The derived equality: no two categories have one priority.
abbrev pub same_category : TensorCategory → TensorCategory → Bool
same_category a b = warmup_priority a == warmup_priority b

-- parts.get(parts.len() - 2) and parts.last(), for a list that has both.
last_two : Text → List Text → Option (Text × Text)
last_two part [] = none
last_two part (next ∷ []) = some (part, next)
last_two part (next ∷ more ∷ parts) = last_two next (more ∷ parts)

is_ffn_part : Text → Bool
is_ffn_part part =
    bytes_eq part (codes "ffn_gate")
    || (bytes_eq part (codes "ffn_up") || bytes_eq part (codes "ffn_down"))

ends_in_expert : Option (Text × Text) → Bool
unfolding is_ffn_part
ends_in_expert none = false
ends_in_expert (some (part, number)) =
    is_ffn_part part && elim (parse_u32 number) [ none ↦ false | some _ ↦ true ]

expert_parts : List Text → Bool
unfolding ends_in_expert last_two
expert_parts [] = false
expert_parts (part ∷ parts) = leb 4 (length (part ∷ parts)) && ends_in_expert (last_two part parts)

unfoldable pub is_moe_expert_name : Text → Bool
unfolding expert_parts
is_moe_expert_name name = expert_parts (split b'.' name)

unfoldable pub classify_tensor : Text → TensorCategory
classify_tensor name =
    let lower = to_ascii_lowercase name in
    if starts_with lower (codes "tokenizer.")
    then tokenizer
    else if contains_any lower ("token_embd" ∷ "embed_tokens" ∷ [])
    then embeddings
    else if bytes_eq lower (codes "output")
        || (bytes_eq lower (codes "output.weight") || contains lower (codes "lm_head"))
    then output
    else if contains lower (codes "norm") || ends_with lower (codes ".bias")
    then norms
    else if contains_any lower ("ffn_gate_inp" ∷ ".router" ∷ [])
    then moe_router
    else if is_moe_expert_name lower
    then moe_expert
    else if contains_any lower ("attn_q" ∷ "attn_k" ∷ "attn_v" ∷ "attn_output" ∷ [])
    then attention
    else if contains_any lower ("ffn_gate" ∷ "ffn_up" ∷ "ffn_down" ∷ [])
    then dense_ffn
    else metadata

pub record TensorEntry : Type 0 where
  pub name : Text
  pub category : TensorCategory
  pub dims : List ℕ
  pub dtype : ℕ
  pub gguf_offset : ℕ
  pub data_offset : Option ℕ
  pub size : ℕ
  pub chunk_id : Option String
  pub chunk_offset : Option ℕ

pub record TensorIndex : Type 0 where
  pub model_id : Text
  pub gguf_sha256 : Text
  pub gguf_size : ℕ
  pub tensors : List TensorEntry
  pub total_bytes : ℕ

unfoldable pub new_index : Text → Text → ℕ → TensorIndex
new_index model_id gguf_sha256 gguf_size = record {
  model_id = model_id;
  gguf_sha256 = gguf_sha256;
  gguf_size = gguf_size;
  tensors = [];
  total_bytes = 0;
}

unfoldable pub add : TensorEntry → TensorIndex → TensorIndex
add entry index = record index {
  total_bytes = sat_add index.total_bytes entry.size;
  tensors = index.tensors ++ entry ∷ [];
}

abbrev pub filter {ℓ} : {A : Type ℓ} → (A → Bool) → List A → List A
filter p [] = []
filter p (x ∷ xs) = let rest = filter p xs in if p x then x ∷ rest else rest

unfoldable pub by_category : TensorCategory → TensorIndex → List TensorEntry
by_category category index = filter (λ entry. same_category entry.category category) index.tensors

unfoldable pub eager_tensors : TensorIndex → List TensorEntry
eager_tensors index = filter (λ entry. is_eager entry.category) index.tensors

-- iter().find on the name.
unfoldable pub find_tensor : Text → List TensorEntry → Option TensorEntry
find_tensor name [] = none
find_tensor name (t ∷ ts) = if bytes_eq t.name name then some t else find_tensor name ts

names_are : List TensorEntry → List Text → Bool
names_are [] [] = true
names_are [] (r ∷ rs) = false
names_are (t ∷ ts) [] = false
names_are (t ∷ ts) (r ∷ rs) = bytes_eq t.name r && names_are ts rs

unfoldable pub validate_order : List Text → TensorIndex → Bool
unfolding names_are
validate_order reference_names index = names_are index.tensors reference_names

pub record ChunkDescriptor : Type 0 where
  pub chunk_id : String
  pub categories : List TensorCategory
  pub raw_size : ℕ
  pub compressed_size : ℕ
  pub sha256 : Text
  pub file_offset : ℕ
  pub tensor_names : List Text

pub record ChunkManifest : Type 0 where
  pub model_id : Text
  pub gguf_sha256 : Text
  pub version : ℕ
  pub chunks : List ChunkDescriptor
  pub total_raw_bytes : ℕ
  pub total_compressed_bytes : ℕ

unfoldable pub new_manifest : Text → Text → ChunkManifest
new_manifest model_id gguf_sha256 = record {
  model_id = model_id;
  gguf_sha256 = gguf_sha256;
  version = 1;
  chunks = [];
  total_raw_bytes = 0;
  total_compressed_bytes = 0;
}

unfoldable pub add_chunk : ChunkDescriptor → ChunkManifest → ChunkManifest
add_chunk chunk manifest = record manifest {
  total_raw_bytes = sat_add manifest.total_raw_bytes chunk.raw_size;
  total_compressed_bytes = sat_add manifest.total_compressed_bytes chunk.compressed_size;
  chunks = manifest.chunks ++ chunk ∷ [];
}

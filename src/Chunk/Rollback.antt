-- ===== src/Chunk/Rollback.antt =====
-- triAI-Engine/src/chunk/rollback.rs: the bytes of a chunk, read again from the original file. The
-- file is its bytes; `none` is any error. A `usize` is a `u64`.
use carlo_one_core.Prelude.{
  ℕ, ◌+◌, ◌&&◌, Option, none, some, List, [], ◌∷◌, ◌++◌, leb, if◌then◌else◌, codes, length, take,
  drop, Text, bytes_eq, u64_max,
}
use carlo_one_core.Chunk.{TensorEntry, TensorIndex, find_tensor}

-- `digest` is SHA-256 in hexadecimal digits.
unfoldable pub open_fallback : (List ℕ → Text) → Text → List ℕ → Option (List ℕ)
open_fallback digest expected_digest file =
    if leb 4 (length file) && bytes_eq (take 4 file) (codes "GGUF")
    then if bytes_eq (digest file) expected_digest then some file else none
    else none

unfoldable pub read_span : List ℕ → ℕ → ℕ → Option (List ℕ)
read_span map offset size =
    if leb (offset + size) u64_max && leb (offset + size) (length map)
    then some (take size (drop offset map))
    else none

unfoldable pub span_of : List ℕ → ℕ → Option ℕ → Option (List ℕ)
span_of map size none = none
span_of map size (some offset) = read_span map offset size

unfoldable pub span_of_tensor : List ℕ → Option TensorEntry → Option (List ℕ)
unfolding span_of
span_of_tensor map none = none
span_of_tensor map (some tensor) = span_of map tensor.size tensor.data_offset

-- The loop over the names, from what it has put out.
unfoldable pub reconstruct_onto : List ℕ → List TensorEntry → List ℕ → List Text → Option (List ℕ)
reconstruct_onto map tensors out [] = some out
reconstruct_onto map tensors out (name ∷ names) =
    elim (span_of_tensor map (find_tensor name tensors)) [
      | none ↦ none
      | some span ↦ reconstruct_onto map tensors (out ++ span) names
    ]

unfoldable pub reconstruct_chunk : List ℕ → TensorIndex → List Text → Option (List ℕ)
reconstruct_chunk map index names = reconstruct_onto map index.tensors [] names

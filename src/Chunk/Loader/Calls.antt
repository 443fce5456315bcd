-- ===== src/Chunk/Loader/Calls.antt =====
-- triAI-Engine/src/chunk/loader.rs: sequences of calls.
use carlo_one_core.Prelude.{ℕ, String, List, [], ◌∷◌, Text}
use carlo_one_core.Chunk.Loader.{Cache, ChunkLoader, load_chunk, load_tensor_chunk, clear_cache}

-- What the users of a loader call, one call after the other.
pub data Call : Type 0 where
  loads : String → ℕ → ℕ → Call
  loads_tensor : Text → ℕ → ℕ → Call
  clears : Call

unfoldable pub perform : ChunkLoader → Cache → Call → Cache
perform l c (loads id now later) = (load_chunk l id now later c).0
perform l c (loads_tensor name now later) = (load_tensor_chunk l name now later c).0
perform l c clears = clear_cache c

unfoldable pub perform_all : ChunkLoader → Cache → List Call → Cache
perform_all l c [] = c
perform_all l c (call ∷ calls) = perform_all l (perform l c call) calls

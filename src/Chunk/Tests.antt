-- ===== src/Chunk/Tests.antt =====
-- Concrete runs of the code in triAI-Engine/src/chunk/, and the theorems about it at concrete
-- inputs.
use carlo_one_core.Prelude.{
  bytes_eq, contains_any, ends_with, is_utf8, parse_u32, split, starts_with, to_ascii_lowercase, ℕ,
  zero, suc, ◌%◌, ◌/◌, ◌≡◌, refl, String, true, some, List, [], ◌∷◌, ◌++◌, arith, codes, length,
  replicate,
}
use carlo_one_core.Chunk.{
  is_moe_expert_name, TensorEntry, TensorIndex, ChunkDescriptor, moe_expert, dense_ffn, moe_router,
  tokenizer, classify_tensor, new_manifest, add_chunk, new_index, add, find_tensor,
}
use carlo_one_core.Chunk.Gguf
use carlo_one_core.Chunk.Gguf.{GgufTensorInfo, Header, parse_header}
use carlo_one_core.Chunk.Gguf.Spans.{IsLocated, parse_header-IsLocated}
use carlo_one_core.Chunk.Rollback.{reconstruct_chunk}
use carlo_one_core.Chunk.Packer.{PackerConfig, Item, items, groups_of, group_all, group_step, close}
use carlo_one_core.Chunk.Packer
use carlo_one_core.Chunk.Packer.Groups.{concat, concat-groups_of}
use carlo_one_core.Chunk.Packer.Sizes.{AllChunks, groups_of-AllChunks}
use carlo_one_core.Chunk.Packer.Archive.{Codec, Packing, pack_tensors, read_at}
use carlo_one_core.Chunk.Packer.Archive.Recover.{reconstruct_chunk-pack_tensors}
use carlo_one_core.Chunk.Loader.{Cache, ChunkLoader, LoadedChunk, new_cache, load_chunk}
use carlo_one_core.Chunk.Loader.Calls.{Call, loads, loads_tensor, clears, perform_all}
use carlo_one_core.Chunk.Loader.Room.{IsBudgeted}
use carlo_one_core.Chunk.Loader.Budget.{perform_all-IsBudgeted}
use carlo_one_core.Chunk.Loader.Integrity.{AuthenticIfThere, load_chunk-AuthenticIfThere}

expert_name : classify_tensor (codes "blk.0.ffn_gate.5") ≡ moe_expert
unfolding classify_tensor starts_with to_ascii_lowercase contains_any bytes_eq ends_with
    is_moe_expert_name split parse_u32
expert_name = refl

router_name : classify_tensor (codes "blk.0.ffn_gate_inp.weight") ≡ moe_router
unfolding classify_tensor starts_with to_ascii_lowercase contains_any bytes_eq ends_with
router_name = refl

ffn_name : classify_tensor (codes "blk.0.ffn_gate.weight") ≡ dense_ffn
unfolding classify_tensor starts_with to_ascii_lowercase contains_any bytes_eq ends_with
    is_moe_expert_name split parse_u32
ffn_name = refl

abbrev le : ℕ → ℕ → List ℕ
le zero n = []
le (suc k) n = (n % 256) ∷ le k (n / 256)

abbrev named : String → List ℕ
named text = le 8 (length (codes text)) ++ codes text

-- One tensor of one dimension and 16 bytes, after a header of 61 bytes.
abbrev small_file : List ℕ
small_file =
    codes "GGUF"
    ++ le 4 3
    ++ le 8 1
    ++ le 8 0
    ++ named "tok.x"
    ++ le 4 1
    ++ le 8 16
    ++ le 4 0
    ++ le 8 0
    ++ replicate 3 0
    ++ replicate 16 7

abbrev tok : GgufTensorInfo
tok = record {
  name = codes "tok.x";
  dims = 16 ∷ [];
  dtype = 0;
  offset = 0;
  size = 16;
  data_offset = 64;
}

abbrev small_header : Header
small_header = record { version = 3; kv = []; data_section_start = 64; tensors = tok ∷ [] }

parses : parse_header small_file ≡ some small_header
unfolding parse_header Gguf.and_then Gguf.read_exact bytes_eq Gguf.read_u32 Gguf.from_le
    Gguf.read_u64 Gguf.times Gguf.read_tensor Gguf.read_string is_utf8 Gguf.align_up
    Gguf.offsets_valid Gguf.spans Gguf.end_relative
parses = refl

parse_header-IsLocated_example : IsLocated (length small_file) small_header
parse_header-IsLocated_example = parse_header-IsLocated small_file small_header parses

abbrev gate : GgufTensorInfo
gate = record tok { name = codes "blk.0.ffn_gate.5"; size = 40 }

abbrev three : List Item
three = items 0 (tok ∷ gate ∷ tok ∷ [])

abbrev small_chunks : PackerConfig
small_chunks = record Packer.default_config { target_chunk_bytes = 20 }

concat-groups_of_example : concat (groups_of small_chunks three) ≡ three
concat-groups_of_example = concat-groups_of small_chunks three

groups_of-AllChunks_example : AllChunks small_chunks (groups_of small_chunks three)
groups_of-AllChunks_example = groups_of-AllChunks small_chunks three (omega arith)

abbrev entry : TensorEntry
entry = record {
  name = codes "tok.x";
  category = tokenizer;
  dims = 16 ∷ [];
  dtype = 0;
  gguf_offset = 0;
  data_offset = some 64;
  size = 16;
  chunk_id = some "chunk_0000";
  chunk_offset = some 0;
}

abbrev index : TensorIndex
index = add entry (new_index (codes "m") (codes "d") 80)

abbrev empty_packing : Packing
empty_packing = record { raw = []; names = []; categories = []; index = index }

abbrev packed_tok : Packing
packed_tok = record {
  raw = replicate 16 7;
  names = codes "tok.x" ∷ [];
  categories = tokenizer ∷ [];
  index = index;
}

abbrev item : Item
item = record { number = 0; info = tok; category = tokenizer }

reconstruct_chunk-pack_tensors_example :
    reconstruct_chunk small_file index (codes "tok.x" ∷ []) ≡ some (replicate 16 7)
unfolding add new_index find_tensor pack_tensors read_at bytes_eq
reconstruct_chunk-pack_tensors_example =
    reconstruct_chunk-pack_tensors "chunk_0000" small_file index index (item ∷ []) packed_tok
      (omega arith) ((entry, refl, refl, refl), tt) refl

-- Nothing is compressed, and the digest of some bytes is the bytes.
abbrev plain : Codec
plain = record {
  encode_all = λ level raw. some raw;
  decode_all = λ packed. some packed;
  digest = λ raw. raw;
  chunk_name = λ n. "chunk_0000";
}

abbrev descriptor : ChunkDescriptor
descriptor = record {
  chunk_id = "chunk_0000";
  categories = tokenizer ∷ [];
  raw_size = 16;
  compressed_size = 16;
  sha256 = replicate 16 7;
  file_offset = 0;
  tensor_names = codes "tok.x" ∷ [];
}

-- The chunk's file is damaged; the original file is there.
abbrev loader : ChunkLoader
loader = record {
  codec = plain;
  files = ("chunk_0000", replicate 15 7) ∷ [];
  manifest = add_chunk descriptor (new_manifest (codes "m") (codes "d"));
  index = index;
  config = record { cache_budget_bytes = 100; verify_on_load = true };
  fallback = some small_file;
}

abbrev calls : List Call
calls = loads "chunk_0000" 1 2 ∷ loads_tensor (codes "tok.x") 3 4 ∷ clears ∷ loads "none" 5 6 ∷ []

perform_all-IsBudgeted_example : IsBudgeted (perform_all loader (new_cache loader.config) calls)
perform_all-IsBudgeted_example = perform_all-IsBudgeted loader calls (omega arith)

load_chunk-AuthenticIfThere_example :
    AuthenticIfThere loader "chunk_0000"
      (load_chunk loader "chunk_0000" 7 8 (perform_all loader (new_cache loader.config) calls)).1
load_chunk-AuthenticIfThere_example = load_chunk-AuthenticIfThere loader calls "chunk_0000" 7 8

abbrev cold : Cache
cold = new_cache loader.config

abbrev chunk : LoadedChunk
chunk = record {
  chunk_id = "chunk_0000";
  data_bytes = replicate 16 7;
  verified = true;
  last_accessed = 2;
}

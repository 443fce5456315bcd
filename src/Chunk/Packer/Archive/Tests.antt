-- ===== src/Chunk/Packer/Archive/Tests.antt =====
-- Concrete chunks of triAI-Engine/src/chunk/packer.rs, and the theorems about what is stored.
use carlo_one_core.Prelude.{
  ℕ, zero, suc, ◌≡◌, refl, true, false, Option, none, some, List, [], ◌∷◌, length, take, drop, sym,
  ap, arith, ◌==◌, if◌then◌else◌, Text, codes,
}
use carlo_one_core.Prelude.StrMap
use carlo_one_core.Chunk.{metadata, new_index, new_manifest, add_chunk}
use carlo_one_core.Chunk.Packer.{PackerConfig, Item}
use carlo_one_core.Chunk.Packer.Archive.{
  Codec, Archive, read_at, pack_tensors, pack_bytes, written, write_packed, pack_group, pack_groups,
  verify_archive, verified,
}
use carlo_one_core.Chunk.Packer.Archive.Stored.{IsLossless, SizesTell}
use carlo_one_core.Chunk.Packer.Archive.Verifies.{NamesApart, verify_archive-pack_groups}

abbrev without_mark : List ℕ → Option (List ℕ)
without_mark [] = none
without_mark (x ∷ xs) = some xs

-- A codec that puts a mark before the bytes.
abbrev marking : Codec
marking = record {
  encode_all = λ level raw. some (40 ∷ raw);
  decode_all = without_mark;
  digest = λ raw. raw;
  chunk_name = λ n. if n == 0 then "chunk_0000" else "chunk_0001";
}

marking-IsLossless : IsLossless marking
unfolding IsLossless
marking-IsLossless level raw packed q = cc

abbrev packer : PackerConfig
packer = record {
  target_chunk_bytes = 64;
  zstd_level = 3;
  separate_categories = [];
  compress_only_compressible = false;
}

abbrev tensor : Text → ℕ → ℕ → ℕ → Item
tensor name number data_offset size = record {
  number = number;
  info = record {
    name = name;
    dims = size ∷ [];
    dtype = 0;
    offset = data_offset;
    size = size;
    data_offset = data_offset;
  };
  category = metadata;
}

abbrev groups : List (List Item)
groups =
    (tensor (codes "a") 0 0 2 ∷ tensor (codes "b") 1 2 1 ∷ [])
    ∷ (tensor (codes "c") 2 3 2 ∷ [])
    ∷ []

abbrev model_bytes : List ℕ
model_bytes = 11 ∷ 12 ∷ 13 ∷ 14 ∷ 15 ∷ []

abbrev empty_archive : Archive
empty_archive = record {
  manifest = new_manifest (codes "m") (codes "d");
  index = new_index (codes "m") (codes "d") 5;
  files = [];
}

abbrev packed_archive : Archive
packed_archive = record {
  manifest = record {
    model_id = codes "m";
    gguf_sha256 = codes "d";
    version = 1;
    chunks =
        record {
          chunk_id = "chunk_0000";
          categories = metadata ∷ [];
          raw_size = 3;
          compressed_size = 4;
          sha256 = 11 ∷ 12 ∷ 13 ∷ [];
          file_offset = 0;
          tensor_names = codes "a" ∷ codes "b" ∷ [];
        }
        ∷ record {
          chunk_id = "chunk_0001";
          categories = metadata ∷ [];
          raw_size = 2;
          compressed_size = 3;
          sha256 = 14 ∷ 15 ∷ [];
          file_offset = 0;
          tensor_names = codes "c" ∷ [];
        }
        ∷ [];
    total_raw_bytes = 5;
    total_compressed_bytes = 7;
  };
  index = new_index (codes "m") (codes "d") 5;
  files = ("chunk_0000", 40 ∷ 11 ∷ 12 ∷ 13 ∷ []) ∷ ("chunk_0001", 40 ∷ 14 ∷ 15 ∷ []) ∷ [];
}

some_same : {a b : List ℕ} → some a ≡ some b → a ≡ b
some_same q = cc

marking-SizesTell : (config : PackerConfig) (raw : List ℕ) → SizesTell marking config raw
unfolding length
marking-SizesTell config raw packed q =
    let longer : length packed ≡ suc (length raw) = ap length (sym (some_same q)) in
    λ same. omega (arith, longer, same)

marking-NamesApart : NamesApart marking 2
marking-NamesApart zero (suc zero) below low = refl
marking-NamesApart zero zero below low = absurd (omega (arith, below))
marking-NamesApart zero (suc (suc n)) below low = absurd (omega (arith, low))
marking-NamesApart (suc m) n below low = absurd (omega (arith, below, low))

verify_archive-pack_groups_example :
    (verify_archive marking packed_archive.files packed_archive.manifest.chunks ≡ true)
    × (verified marking (some packed_archive) ≡ some packed_archive)
unfolding pack_groups pack_group write_packed written pack_bytes pack_tensors read_at length take
    drop new_index new_manifest add_chunk StrMap.put
verify_archive-pack_groups_example =
    verify_archive-pack_groups marking packer model_bytes groups empty_archive packed_archive
      marking-IsLossless
      (
        (λ cid index p e. marking-SizesTell packer p.raw),
        ((λ cid index p e. marking-SizesTell packer p.raw), tt),
      )
      marking-NamesApart refl refl

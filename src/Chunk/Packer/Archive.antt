-- ===== src/Chunk/Packer/Archive.antt =====
-- triAI-Engine/src/chunk/packer.rs: the chunks of an archive, written and verified. The archive
-- directory is the list of its chunk files; the two JSON files are the manifest and the index
-- themselves.
pub mod Recover
pub mod Stored
pub mod Verifies
mod Tests
use carlo_one_core.Prelude.{
  ℕ, zero, suc, ◌+◌, ◌≤◌, String, Bool, true, false, ◌&&◌, ◌||◌, not, Option, none, some, List, [],
  ◌∷◌, ◌++◌, leb, ltb, ◌==◌, if◌then◌else◌, length, take, drop, Text, bytes_eq,
}
use carlo_one_core.Prelude.StrMap
use carlo_one_core.Prelude.StrMap.{StrMap}
use carlo_one_core.Chunk.{
  TensorCategory, TensorEntry, TensorIndex, ChunkDescriptor, ChunkManifest, classify_tensor,
  new_index, add, new_manifest, add_chunk,
}
use carlo_one_core.Chunk.Gguf.{GgufTensorInfo, Header, parse_header}
use carlo_one_core.Chunk.Packer.{
  PackerConfig, Item, is_in, is_nil, should_compress, items, groups_of,
}

-- zstd at a level, its decoder, SHA-256 in hexadecimal digits, and the file name of a chunk by its
-- number.
pub record Codec : Type 0 where
  pub encode_all : ℕ → List ℕ → Option (List ℕ)
  pub decode_all : List ℕ → Option (List ℕ)
  pub digest : List ℕ → Text
  pub chunk_name : ℕ → String

-- seek and read_exact
unfoldable pub read_at : List ℕ → ℕ → ℕ → Option (List ℕ)
read_at file offset size =
    if leb (offset + size) (length file) then some (take size (drop offset file)) else none

-- index.tensors[n].chunk_id and chunk_offset
abbrev pub place : String → ℕ → ℕ → List TensorEntry → List TensorEntry
place cid offset n [] = []
place cid offset zero (t ∷ ts) = record t { chunk_id = some cid; chunk_offset = some offset } ∷ ts
place cid offset (suc n) (t ∷ ts) = t ∷ place cid offset n ts

-- What the loop over a group has put together.
pub record Packing : Type 0 where
  pub raw : List ℕ
  pub names : List Text
  pub categories : List TensorCategory
  pub index : TensorIndex

abbrev pub appended : String → Item → List ℕ → Packing → Packing
appended cid x b p = record {
  raw = p.raw ++ b;
  names = p.names ++ x.info.name ∷ [];
  categories =
      if is_in x.category p.categories then p.categories else p.categories ++ x.category ∷ [];
  index = record p.index { tensors = place cid (length p.raw) x.number p.index.tensors };
}

unfoldable pub pack_tensors : String → List ℕ → List Item → Packing → Option Packing
pack_tensors cid file [] p = some p
pack_tensors cid file (x ∷ xs) p = elim (read_at file x.info.data_offset x.info.size) [
  | none ↦ none
  | some b ↦ pack_tensors cid file xs (appended cid x b p)
]

all_compress : List TensorCategory → Bool
all_compress [] = true
all_compress (c ∷ cs) = should_compress c && all_compress cs

-- The archive while it is written.
pub record Archive : Type 0 where
  pub manifest : ChunkManifest
  pub index : TensorIndex
  pub files : StrMap (List ℕ)

module _ (codec : Codec) where
  pub pack_bytes : PackerConfig → Packing → Option (List ℕ)
  unfolding all_compress
  pack_bytes config p =
      if not config.compress_only_compressible || all_compress p.categories
      then codec.encode_all config.zstd_level p.raw
      else some p.raw

  written : String → Packing → Option (List ℕ) → Archive → Option Archive
  written cid p none a = none
  written cid p (some packed) a = some (record {
    manifest =
        add_chunk
          (record {
            chunk_id = cid;
            categories = p.categories;
            raw_size = length p.raw;
            compressed_size = length packed;
            sha256 = codec.digest p.raw;
            file_offset = 0;
            tensor_names = p.names;
          })
          a.manifest;
    index = p.index;
    files = StrMap.put cid packed a.files;
  })

  write_packed : PackerConfig → String → Archive → Option Packing → Option Archive
  unfolding pack_bytes written
  write_packed config cid a none = none
  write_packed config cid a (some p) = written cid p (pack_bytes config p) a

  pub pack_group : PackerConfig → List ℕ → ℕ → List Item → Archive → Option Archive
  unfolding write_packed
  pack_group config file number g a =
      let cid = codec.chunk_name number in
      write_packed config cid a (
        pack_tensors cid file g (record { raw = []; names = []; categories = []; index = a.index }))

  pub pack_groups : PackerConfig → List ℕ → ℕ → List (List Item) → Archive → Option Archive
  pack_groups config file number [] a = some a
  pack_groups config file number (g ∷ gs) a = elim (pack_group config file number g a) [
    | none ↦ none
    | some next ↦ pack_groups config file (suc number) gs next
  ]

  -- The bytes of a chunk file as the descriptor says that they are stored.
  unfoldable pub unpack : ChunkDescriptor → List ℕ → Option (List ℕ)
  unpack c stored = if c.compressed_size == c.raw_size then some stored else codec.decode_all stored

  unfoldable pub matches : ChunkDescriptor → List ℕ → Bool
  matches c raw = length raw == c.raw_size && bytes_eq (codec.digest raw) c.sha256

  verify_raw : ChunkDescriptor → Option (List ℕ) → Bool
  verify_raw c none = false
  verify_raw c (some raw) = matches c raw

  pub verify_file : ChunkDescriptor → Option (List ℕ) → Bool
  unfolding verify_raw
  verify_file c none = false
  verify_file c (some stored) = verify_raw c (unpack c stored)

  pub verify_archive : StrMap (List ℕ) → List ChunkDescriptor → Bool
  unfolding verify_file
  verify_archive files [] = true
  verify_archive files (c ∷ cs) =
      verify_file c (StrMap.get c.chunk_id files) && verify_archive files cs

  indexed : TensorIndex → List Item → TensorIndex
  indexed index [] = index
  indexed index (x ∷ xs) =
      indexed
        (add
          (record {
            name = x.info.name;
            category = x.category;
            dims = x.info.dims;
            dtype = x.info.dtype;
            gguf_offset = x.info.offset;
            data_offset = some x.info.data_offset;
            size = x.info.size;
            chunk_id = none;
            chunk_offset = none;
          })
          index)
        xs

  pub verified : Option Archive → Option Archive
  verified none = none
  verified (some a) = if verify_archive a.files a.manifest.chunks then some a else none

  pack_header : PackerConfig → Text → List ℕ → Option Header → Option Archive
  unfolding verified indexed
  pack_header config id file none = none
  pack_header config id file (some h) =
      if is_nil h.tensors
      then none
      else let xs = items 0 h.tensors in
        let digest = codec.digest file in
        verified (
          pack_groups config file 0 (groups_of config xs) (record {
            manifest = new_manifest id digest;
            index = indexed (new_index id digest (length file)) xs;
            files = [];
          }))

  -- Into a fresh directory; `id` is the name that the metadata or the file gives. What is left of
  -- a failed run is removed.
  pub pack_gguf : PackerConfig → Bool → Text → List ℕ → Option Archive
  unfolding pack_header
  pack_gguf config output_exists id file =
      if output_exists
        || (config.target_chunk_bytes == 0
            || not (leb 1 config.zstd_level && leb config.zstd_level 22))
      then none
      else pack_header config id file (parse_header file)

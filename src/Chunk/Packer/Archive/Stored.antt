-- ===== src/Chunk/Packer/Archive/Stored.antt =====
-- triAI-Engine/src/chunk/packer.rs: a chunk file as it is written and as it is read back.
use carlo_one_core.Prelude.{
  ℕ, true, false, ◌||◌, not, ◌≡◌, ◌≢◌, ◌⊎◌, ◌==◌, refl, ◌∙◌, sym, ap, some, List, length, bytes_eq,
  bytes_eq_iff, if◌then◌else◌, arith, Bool-cases, inl, inr,
}
use carlo_one_core.Chunk.{ChunkDescriptor}
use carlo_one_core.Chunk.Packer.{PackerConfig}
use carlo_one_core.Chunk.Packer.Archive.{
  Codec, Packing, all_compress, pack_bytes, unpack, matches, verify_raw, verify_file,
}

-- What zstd promises: the decoder gives back what was encoded, at every level.
unfoldable pub IsLossless : Codec → Type 0
IsLossless codec =
    (level : ℕ) (raw packed : List ℕ)
    → codec.encode_all level raw ≡ some packed
    → codec.decode_all packed ≡ some raw

-- The sizes and the digest of the bytes `raw`, stored as `packed`.
pub record Describes (codec : Codec) (c : ChunkDescriptor) (raw packed : List ℕ) : Type 0 where
  pub raw_size : c.raw_size ≡ length raw
  pub compressed_size : c.compressed_size ≡ length packed
  pub sha256 : c.sha256 ≡ codec.digest raw

matches-Describes :
    (codec : Codec) (c : ChunkDescriptor) (raw packed : List ℕ)
    → Describes codec c raw packed
    → matches codec c raw ≡ true
unfolding matches
matches-Describes codec c raw packed d =
    let same = (bytes_eq_iff (codec.digest raw) c.sha256).1 (sym d.sha256) in
    ground (arith, d.raw_size)

some_same : (a b : List ℕ) → some a ≡ some b → a ≡ b
some_same a b q = cc

-- Bytes that are stored as they are, or encoded.
pack_bytes-cases :
    (codec : Codec) (config : PackerConfig) (p : Packing) (packed : List ℕ)
    → pack_bytes codec config p ≡ some packed
    → (packed ≡ p.raw) ⊎ (codec.encode_all config.zstd_level p.raw ≡ some packed)
unfolding pack_bytes
pack_bytes-cases codec config p packed q =
    elim (Bool-cases (not config.compress_only_compressible || all_compress p.categories)) [
      | inl encodes ↦ inr (
          ap (λ b. if b then codec.encode_all config.zstd_level p.raw else some p.raw) (sym encodes)
          ∙ q)
      | inr copies ↦ inl (
          some_same packed p.raw (
            sym q
            ∙ ap (λ b. if b then codec.encode_all config.zstd_level p.raw else some p.raw) copies))
    ]

unpack-Describes :
    (codec : Codec) (c : ChunkDescriptor) (raw packed : List ℕ)
    → Describes codec c raw packed
    → (length packed ≡ length raw → packed ≡ raw)
    → (packed ≡ raw) ⊎ (codec.decode_all packed ≡ some raw)
    → unpack codec c packed ≡ some raw
unfolding unpack
unpack-Describes codec c raw packed d distinct stored =
    elim (Bool-cases (c.compressed_size == c.raw_size)) [
      | inl same ↦
          let sizes : length packed ≡ length raw = ground (arith, d.raw_size, d.compressed_size) in
          rw same (ap some (distinct sizes))
      | inr other ↦ elim stored [
        | inl copied ↦
            let sizes : length packed ≡ length raw = ap length copied in
            ground (arith, d.raw_size, d.compressed_size)
        | inr decodes ↦ rw other decodes
      ]
    ]

-- Encoded bytes of these are not as many as the bytes themselves.
abbrev pub SizesTell : Codec → PackerConfig → List ℕ → Type 0
SizesTell codec config raw =
    (packed : List ℕ)
    → codec.encode_all config.zstd_level raw ≡ some packed
    → length packed ≢ length raw

-- The chunk that `written` stores, under its descriptor.
pub verify_file-pack_bytes :
    (codec : Codec) (config : PackerConfig) (p : Packing) (packed : List ℕ) (c : ChunkDescriptor)
    → IsLossless codec
    → SizesTell codec config p.raw
    → pack_bytes codec config p ≡ some packed
    → Describes codec c p.raw packed
    → verify_file codec c (some packed) ≡ true
unfolding verify_file verify_raw IsLossless
verify_file-pack_bytes codec config p packed c lossless sizes q d =
    let cases = pack_bytes-cases codec config p packed q in
    let stored : (packed ≡ p.raw) ⊎ (codec.decode_all packed ≡ some p.raw) = elim cases [
      | inl copied ↦ inl copied
      | inr encoded ↦ inr (lossless config.zstd_level p.raw packed encoded)
    ] in
    let distinct : length packed ≡ length p.raw → packed ≡ p.raw = λ same. elim cases [
      | inl copied ↦ copied
      | inr encoded ↦ absurd (sizes packed encoded same)
    ] in
    rw (unpack-Describes codec c p.raw packed d distinct stored)
      (matches-Describes codec c p.raw packed d)

-- Stored bytes that are as many as the raw ones are taken for raw bytes: if their digest is not that
-- of the raw bytes, then the chunk that the packer has just written is refused, whatever the codec.
pub same_size_refused :
    (codec : Codec) (c : ChunkDescriptor) (raw packed : List ℕ)
    → Describes codec c raw packed
    → length packed ≡ length raw
    → codec.digest packed ≢ codec.digest raw
    → (unpack codec c packed ≡ some packed) × (verify_file codec c (some packed) ≡ false)
unfolding verify_file verify_raw unpack matches
same_size_refused codec c raw packed d same other =
    let sizes : (c.compressed_size == c.raw_size) ≡ true =
      ground (arith, d.raw_size, d.compressed_size) in
    let refused : bytes_eq (codec.digest packed) c.sha256 ≡ false =
      elim (Bool-cases (bytes_eq (codec.digest packed) c.sha256)) [
        | inl equal ↦
            elim (other ((bytes_eq_iff (codec.digest packed) c.sha256).0 equal ∙ d.sha256)) [ ]
        | inr differs ↦ differs
      ] in
    (rw sizes refl, rw sizes (ground (arith, refused)))

-- ===== src/Chunk/Packer/Archive/Verifies.antt =====
-- triAI-Engine/src/chunk/packer.rs: the archive that the packer has written, as it verifies it.
use carlo_one_core.Prelude.{
  suc, ℕ, ◌+◌, ◌≤◌, ◌<◌, true, false, ◌≡◌, refl, ◌∙◌, String, Option, none, some, List, [], ◌∷◌,
  ◌++◌, length, str_eq, eq_iff, arith, Option-cases, inl, inr,
}
use carlo_one_core.Prelude.StrMap
use carlo_one_core.Prelude.StrMap.{StrMap, get-put}
use carlo_one_core.Chunk.{ChunkDescriptor, TensorIndex, add_chunk}
use carlo_one_core.Chunk.Packer.{PackerConfig, Item}
use carlo_one_core.Chunk.Packer.Archive.{
  Codec, Packing, Archive, pack_tensors, pack_bytes, written, write_packed, pack_group, pack_groups,
  verify_file, verify_archive, verified,
}
use carlo_one_core.Chunk.Packer.Archive.Stored.{IsLossless, SizesTell, verify_file-pack_bytes}

-- No chunk has this id.
abbrev pub IsNew : String → List ChunkDescriptor → Type 0
IsNew cid [] = Unit
IsNew cid (c ∷ cs) = (str_eq cid c.chunk_id ≡ false) × IsNew cid cs

-- A file of another name is not looked at.
verify_archive-put :
    (codec : Codec) (cid : String) (content : List ℕ) (files : StrMap (List ℕ))
    (cs : List ChunkDescriptor)
    → IsNew cid cs
    → verify_archive codec (StrMap.put cid content files) cs ≡ verify_archive codec files cs
unfolding verify_archive
verify_archive-put codec cid content files [] new = refl
verify_archive-put codec cid content files (c ∷ cs) new =
    rw
      (
        get-put cid c.chunk_id content files,
        new.0,
        verify_archive-put codec cid content files cs new.1,
      )
      refl

verify_archive-append :
    (codec : Codec) (files : StrMap (List ℕ)) (cs : List ChunkDescriptor) (c : ChunkDescriptor)
    → verify_archive codec files cs ≡ true
    → verify_file codec c (StrMap.get c.chunk_id files) ≡ true
    → verify_archive codec files (cs ++ c ∷ []) ≡ true
unfolding verify_archive
verify_archive-append codec files [] c all last = ground (arith, last)
verify_archive-append codec files (b ∷ cs) c all last =
    ground (arith, verify_archive-append codec files cs c)

-- Each chunk has the name of a number below `n`.
abbrev pub AllNamed : Codec → ℕ → List ChunkDescriptor → Type 0
AllNamed codec n [] = Unit
AllNamed codec n (c ∷ cs) =
    ((m : ℕ) × (m < n) × (c.chunk_id ≡ codec.chunk_name m)) × AllNamed codec n cs

AllNamed-append :
    (codec : Codec) (n : ℕ) (cs : List ChunkDescriptor) (c : ChunkDescriptor)
    → AllNamed codec n cs
    → c.chunk_id ≡ codec.chunk_name n
    → AllNamed codec (suc n) (cs ++ c ∷ [])
AllNamed-append codec n [] c named e = ((n, omega arith, e), tt)
AllNamed-append codec n (b ∷ cs) c ((m, below, f), named) e =
    ((m, omega arith, f), AllNamed-append codec n cs c named e)

-- The names of the numbers below `limit` can be told apart.
abbrev pub NamesApart : Codec → ℕ → Type 0
NamesApart codec limit =
    (m n : ℕ) → m < n → n < limit → str_eq (codec.chunk_name n) (codec.chunk_name m) ≡ false

AllNamed-IsNew :
    (codec : Codec) (limit n : ℕ) (cs : List ChunkDescriptor)
    → NamesApart codec limit
    → n < limit
    → AllNamed codec n cs
    → IsNew (codec.chunk_name n) cs
AllNamed-IsNew codec limit n [] apart low named = tt
AllNamed-IsNew codec limit n (c ∷ cs) apart low ((m, below, e), named) =
    (rw e (apart m n below low), AllNamed-IsNew codec limit n cs apart low named)

-- Each chunk so far verifies, and has the name of a number that is used up.
abbrev pub IsGood : Codec → ℕ → Archive → Type 0
IsGood codec n a =
    (verify_archive codec a.files a.manifest.chunks ≡ true) × AllNamed codec n a.manifest.chunks

abbrev pub GoodIfWritten : Codec → ℕ → Option Archive → Type 0
GoodIfWritten codec n none = Unit
GoodIfWritten codec n (some a) = IsGood codec n a

written-GoodIfWritten :
    (codec : Codec) (config : PackerConfig) (limit n : ℕ) (a : Archive) (p : Packing)
    (packed : Option (List ℕ))
    → IsLossless codec
    → SizesTell codec config p.raw
    → NamesApart codec limit
    → n < limit
    → pack_bytes codec config p ≡ packed
    → IsGood codec n a
    → GoodIfWritten codec (suc n) (written codec (codec.chunk_name n) p packed a)
unfolding written add_chunk
written-GoodIfWritten codec config limit n a p none lossless sizes apart low q good = tt
written-GoodIfWritten codec config limit n a p (some packed) lossless sizes apart low q
      (good, named) =
    let cid = codec.chunk_name n in
    let new = AllNamed-IsNew codec limit n a.manifest.chunks apart low named in
    (
      verify_archive-append codec (StrMap.put cid packed a.files) a.manifest.chunks _
          (verify_archive-put codec cid packed a.files a.manifest.chunks new ∙ good)
          (rw (get-put cid cid packed a.files, (eq_iff cid cid).1 refl)
            (verify_file-pack_bytes codec config p packed _ lossless sizes q
              (record { raw_size = refl; compressed_size = refl; sha256 = refl }))),
      AllNamed-append codec n a.manifest.chunks _ named refl,
    )

-- What is read for a group has another size when it is encoded.
abbrev pub GroupTells : Codec → PackerConfig → List ℕ → List Item → Type 0
GroupTells codec config file g =
    (cid : String) (index : TensorIndex) (p : Packing)
    → pack_tensors cid file g (record { raw = []; names = []; categories = []; index = index })
      ≡ some p
    → SizesTell codec config p.raw

abbrev pub AllTell : Codec → PackerConfig → List ℕ → List (List Item) → Type 0
AllTell codec config file [] = Unit
AllTell codec config file (g ∷ gs) = GroupTells codec config file g × AllTell codec config file gs

pack_group-GoodIfWritten :
    (codec : Codec) (config : PackerConfig) (file : List ℕ) (limit n : ℕ) (g : List Item)
    (a : Archive)
    → IsLossless codec
    → GroupTells codec config file g
    → NamesApart codec limit
    → n < limit
    → IsGood codec n a
    → GoodIfWritten codec (suc n) (pack_group codec config file n g a)
unfolding pack_group write_packed
pack_group-GoodIfWritten codec config file limit n g a lossless tell apart low good =
    let cid = codec.chunk_name n in
    elim (Option-cases (
      pack_tensors cid file g
        (record { raw = []; names = []; categories = []; index = a.index }))) [
          | inl short ↦ rw short tt
          | inr (p, read) ↦ rw read (
              written-GoodIfWritten codec config limit n a p (pack_bytes codec config p) lossless
                (tell cid a.index p read) apart low refl good)
        ]

abbrev pub PassesIfWritten : Codec → Option Archive → Type 0
PassesIfWritten codec none = Unit
PassesIfWritten codec (some a) = verify_archive codec a.files a.manifest.chunks ≡ true

pack_groups-PassesIfWritten :
    (codec : Codec) (config : PackerConfig) (file : List ℕ) (limit n : ℕ) (gs : List (List Item))
    (a : Archive)
    → IsLossless codec
    → AllTell codec config file gs
    → NamesApart codec limit
    → n + length gs ≤ limit
    → IsGood codec n a
    → PassesIfWritten codec (pack_groups codec config file n gs a)
unfolding pack_groups length
pack_groups-PassesIfWritten codec config file limit n [] a lossless tell apart low good = good.0
pack_groups-PassesIfWritten codec config file limit n (g ∷ gs) a lossless (tells, tell) apart low
      good =
    let first =
      pack_group-GoodIfWritten codec config file limit n g a lossless tells apart (omega arith)
        good in
    elim (Option-cases (pack_group codec config file n g a)) [
      | inl short ↦ rw (short, PassesIfWritten) tt
      | inr (next, packs) ↦
          rw (packs, PassesIfWritten)
            (pack_groups-PassesIfWritten codec config file limit (suc n) gs next lossless tell apart
              (omega arith) (rw packs at first))
    ]

-- With a lossless codec, for any configuration, file and groups of tensors: an archive without
-- chunks into which the packer has put all groups, one chunk file and one descriptor for each,
-- passes the packer's own verification at the end, if the names of the chunks can be told apart and
-- no group's bytes are encoded to as many bytes as they are.
pub verify_archive-pack_groups :
    (codec : Codec) (config : PackerConfig) (file : List ℕ) (gs : List (List Item)) (a b : Archive)
    → IsLossless codec
    → AllTell codec config file gs
    → NamesApart codec (length gs)
    → a.manifest.chunks ≡ []
    → pack_groups codec config file 0 gs a ≡ some b
    → (verify_archive codec b.files b.manifest.chunks ≡ true) × (verified codec (some b) ≡ some b)
unfolding verified verify_archive
verify_archive-pack_groups codec config file gs a b lossless tell apart fresh packs =
    let good : IsGood codec 0 a = rw fresh (refl, tt) in
    let done =
      pack_groups-PassesIfWritten codec config file (length gs) 0 gs a lossless tell apart
        (omega arith) good in
    let sound : verify_archive codec b.files b.manifest.chunks ≡ true = rw packs at done in
    (sound, rw sound refl)

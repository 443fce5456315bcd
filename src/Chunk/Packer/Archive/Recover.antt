-- ===== src/Chunk/Packer/Archive/Recover.antt =====
-- triAI-Engine/src/chunk/packer.rs and triAI-Engine/src/chunk/rollback.rs: a chunk that is read
-- again from the original file is the chunk that was packed.
use mathlib.Core.List.{append_assoc, append-nil}
use carlo_one_core.Prelude.{
  ℕ, ◌≤◌, ◌≡◌, sym, ap, ◌∙◌, String, Option, none, some, List, [], ◌∷◌, ◌++◌, arith, length, Text,
  u64_max, Option-cases, inl, inr,
}
use carlo_one_core.Chunk.{TensorEntry, TensorIndex, find_tensor}
use carlo_one_core.Chunk.Rollback.{
  read_span, span_of_tensor, span_of, reconstruct_onto, reconstruct_chunk,
}
use carlo_one_core.Chunk.Packer.{Item}
use carlo_one_core.Chunk.Packer.Archive.{Packing, appended, read_at, pack_tensors}

-- Under its name, the index has an entry with the tensor's place and size.
abbrev pub IsListed : List TensorEntry → List Item → Type 0
IsListed tensors [] = Unit
IsListed tensors (x ∷ xs) =
    ((t : TensorEntry) × (find_tensor x.info.name tensors ≡ some t)
      × (t.data_offset ≡ some x.info.data_offset)
      × (t.size ≡ x.info.size))
    × IsListed tensors xs

-- The names of a group, after those that stand there.
abbrev pub names_of : List Item → List Text
names_of [] = []
names_of (x ∷ xs) = x.info.name ∷ names_of xs

span-read_at :
    (file : List ℕ) (t : TensorEntry) (x : Item) (b : List ℕ)
    → length file ≤ u64_max
    → t.data_offset ≡ some x.info.data_offset
    → t.size ≡ x.info.size
    → read_at file x.info.data_offset x.info.size ≡ some b
    → span_of_tensor file (some t) ≡ some b
unfolding span_of_tensor span_of read_span read_at
span-read_at file t x b small at sized read = rw (at, sized) (ground arith)

pack_tensors-reconstruct_onto :
    (cid : String) (file : List ℕ) (tensors : List TensorEntry) (g : List Item) (p q : Packing)
    → length file ≤ u64_max
    → IsListed tensors g
    → pack_tensors cid file g p ≡ some q
    → reconstruct_onto file tensors p.raw (names_of g) ≡ some q.raw
unfolding pack_tensors reconstruct_onto
pack_tensors-reconstruct_onto cid file tensors [] p q small listed packed = cc
pack_tensors-reconstruct_onto cid file tensors (x ∷ xs) p q small ((t, found, at, sized), listed)
      packed =
    elim (Option-cases (read_at file x.info.data_offset x.info.size)) [
      | inl failed ↦ cc (rw (failed, pack_tensors) at packed)
      | inr (b, read) ↦
          rw (reconstruct_onto, found, span-read_at file t x b small at sized read)
            (pack_tensors-reconstruct_onto cid file tensors xs (appended cid x b p) q small listed
              (rw (read, pack_tensors) at packed))
    ]

abbrev names_or : List Text → Option Packing → List Text
names_or names none = names
names_or names (some p) = p.names

names-pack_tensors :
    (cid : String) (file : List ℕ) (g : List Item) (p q : Packing)
    → pack_tensors cid file g p ≡ some q
    → q.names ≡ p.names ++ names_of g
unfolding pack_tensors
names-pack_tensors cid file [] p q packed =
    ap (λ o. names_or p.names o) (sym packed) ∙ sym (append-nil p.names)
names-pack_tensors cid file (x ∷ xs) p q packed =
    elim (Option-cases (read_at file x.info.data_offset x.info.size)) [
      | inl failed ↦ cc (rw (failed, pack_tensors) at packed)
      | inr (b, read) ↦
          names-pack_tensors cid file xs (appended cid x b p) q (rw (read, pack_tensors) at packed)
          ∙ append_assoc p.names (x.info.name ∷ []) (names_of xs)
    ]

-- A group of tensors that could be packed is read again from the original file, by the names that
-- the chunk's descriptor keeps, as the very bytes that were packed: if the index lists each tensor
-- of the group under its name with its place and size, and the length of the file is a `u64`.
pub reconstruct_chunk-pack_tensors :
    (cid : String) (file : List ℕ) (start index : TensorIndex) (g : List Item) (q : Packing)
    → length file ≤ u64_max
    → IsListed index.tensors g
    → pack_tensors cid file g (record { raw = []; names = []; categories = []; index = start })
      ≡ some q
    → reconstruct_chunk file index q.names ≡ some q.raw
unfolding reconstruct_chunk
reconstruct_chunk-pack_tensors cid file start index g q small listed packed =
    rw (names-pack_tensors cid file g _ q packed)
      (pack_tensors-reconstruct_onto cid file index.tensors g _ q small listed packed)

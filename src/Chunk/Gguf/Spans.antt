-- ===== src/Chunk/Gguf/Spans.antt =====
-- triAI-Engine/src/chunk/gguf.rs: where the tensors of an accepted file lie.
use carlo_one_core.Prelude.{
  ℕ, ◌+◌, ◌-◌, ◌%◌, ◌≤◌, ◌<◌, ◌≡◌, refl, subst, true, Option, none, some, List, [], ◌∷◌, arith, ltb,
  length, Bool-cases, inl, inr, Text,
}
use carlo_one_core.Chunk.Gguf.{
  GgufTensorInfo, Header, Stream, align_up, offsets_valid, end_relative, spanned, cons?, spans,
  locate, located, raw_header, parse_header,
}

-- The tensors lie one after the other in the data section, from the offset of the first on: each
-- begins at its offset in the section, each but the last has a size and ends where the next begins,
-- and the last ends with the file.
abbrev pub Tiles : ℕ → ℕ → List GgufTensorInfo → Type 0
Tiles start file_len [] = Unit
Tiles start file_len (t ∷ []) =
    (t.data_offset ≡ start + t.offset) × (t.data_offset + t.size ≡ file_len)
Tiles start file_len (t ∷ u ∷ ts) =
    (t.data_offset ≡ start + t.offset)
    × (0 < t.size)
    × (t.data_offset + t.size ≡ u.data_offset)
    × Tiles start file_len (u ∷ ts)

-- What `spans` gives, without its check.
placed : ℕ → ℕ → List GgufTensorInfo → List GgufTensorInfo
placed start file_len [] = []
placed start file_len (t ∷ ts) =
    record t { data_offset = start + t.offset; size = end_relative start file_len ts - t.offset }
    ∷ placed start file_len ts

-- The valid offsets leave a span to every tensor: its check never fails.
spans-placed :
    (start file_len : ℕ) (previous : Option ℕ) (ts : List GgufTensorInfo)
    → offsets_valid start file_len previous ts ≡ true
    → spans start file_len ts ≡ some (placed start file_len ts)
unfolding offsets_valid spans spanned cons? placed end_relative
spans-placed start file_len previous [] v = refl
spans-placed start file_len previous (t ∷ []) v = ground arith
spans-placed start file_len previous (t ∷ u ∷ ts) v =
    ground (arith, spans-placed start file_len (some t.offset) (u ∷ ts))

placed-Tiles :
    (start file_len : ℕ) (previous : Option ℕ) (ts : List GgufTensorInfo)
    → offsets_valid start file_len previous ts ≡ true
    → Tiles start file_len (placed start file_len ts)
unfolding offsets_valid placed end_relative
placed-Tiles start file_len previous [] v = tt
placed-Tiles start file_len previous (t ∷ []) v = ground arith
placed-Tiles start file_len previous (t ∷ u ∷ ts) v =
    let rest = placed-Tiles start file_len (some t.offset) (u ∷ ts) (ground arith) in
    (refl, ground arith, ground arith, rest)

align_up-aligned : (v : ℕ) (start : ℕ) → align_up v 32 ≡ some start → (v ≤ start) × (start % 32 ≡ 0)
unfolding align_up
align_up-aligned v start e = ground arith

-- What an accepted header promises of a file of that length.
pub record IsLocated (file_len : ℕ) (h : Header) : Type 0 where
  pub section : h.data_section_start ≤ file_len
  pub aligned : h.data_section_start % 32 ≡ 0
  pub tiles : Tiles h.data_section_start file_len h.tensors

abbrev LocatedIfAccepted : ℕ → Option Header → Type 0
LocatedIfAccepted file_len none = Unit
LocatedIfAccepted file_len (some h) = IsLocated file_len h

locate-IsLocated :
    (file_len version : ℕ) (kv : List (Text × Text)) (tensors : List GgufTensorInfo)
    (start : Option ℕ)
    → ((s : ℕ) → start ≡ some s → s % 32 ≡ 0)
    → LocatedIfAccepted file_len (locate file_len version kv tensors start)
unfolding locate
locate-IsLocated file_len version kv tensors none aligned = tt
locate-IsLocated file_len version kv tensors (some s) aligned = elim (Bool-cases (ltb file_len s)) [
  | inl beyond ↦ rw beyond tt
  | inr inside ↦ elim (Bool-cases (offsets_valid s file_len none tensors)) [
    | inr bad ↦ rw (inside, bad) tt
    | inl good ↦
        rw (inside, good, spans-placed s file_len none tensors good)
          (record {
            section = ground arith;
            aligned = aligned s refl;
            tiles = placed-Tiles s file_len none tensors good;
          })
  ]
]

located-IsLocated :
    (file_len : ℕ) (r : Option ((ℕ × List (Text × Text) × List GgufTensorInfo) × Stream))
    → LocatedIfAccepted file_len (located file_len r)
unfolding located
located-IsLocated file_len none = tt
located-IsLocated file_len (some ((version, kv, tensors), s)) =
    locate-IsLocated file_len version kv tensors (align_up s.position 32)
      (λ start e. (align_up-aligned s.position start e).1)

-- Whatever the bytes of a file: if its header is accepted, the data section begins at a multiple
-- of 32 and not behind the end of the file. If there are tensors, they cover the file from where
-- the first begins, at its offset in the section, to the end, in their order and without a gap or
-- an overlap between them, each but the last with a size that is not 0.
pub parse_header-IsLocated :
    (bytes : List ℕ) (h : Header) → parse_header bytes ≡ some h → IsLocated (length bytes) h
unfolding parse_header
parse_header-IsLocated bytes h accepted =
    subst (LocatedIfAccepted (length bytes)) accepted
      (located-IsLocated (length bytes) (raw_header (record { rest = bytes; position = 0 })))

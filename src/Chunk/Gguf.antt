-- ===== src/Chunk/Gguf.antt =====
-- triAI-Engine/src/chunk/gguf.rs: the header of a GGUF file, read from its bytes. `none` is any
-- error.
pub mod Spans
use carlo_one_core.Prelude.{
  ℕ, zero, suc, ◌+◌, ◌-◌, ◌*◌, ◌/◌, ◌≤◌, Bool, true, false, ◌&&◌, ◌||◌, Option, none, some, List,
  [], ◌∷◌, ◌++◌, leb, ltb, ◌==◌, if◌then◌else◌, codes, length, take, drop, Text, bytes_eq, is_utf8,
  u64_max, String,
}

abbrev pub max_entries : ℕ
max_entries = 1_000_000

abbrev pub max_string_bytes : ℕ
max_string_bytes = 16 * 1024 * 1024

abbrev pub max_dims : ℕ
max_dims = 8

pub record GgufTensorInfo : Type 0 where
  pub name : Text
  pub dims : List ℕ
  pub dtype : ℕ
  pub offset : ℕ
  pub size : ℕ
  pub data_offset : ℕ

-- The bytes that are left to read, and the position in the file.
pub record Stream : Type 0 where
  pub rest : List ℕ
  pub position : ℕ

-- A read: a value and the stream after it.
abbrev pub Read {ℓ} : Type ℓ → Type ℓ
Read A = Stream → Option (A × Stream)

module _ {ℓ ℓ'} {A : Type ℓ} {B : Type ℓ'} where
  pass : (A → Read B) → Option (A × Stream) → Option (B × Stream)
  pass k none = none
  pass k (some (a, s)) = k a s

  -- The `?` between two reads.
  unfoldable pub and_then : Read A → (A → Read B) → Read B
  unfolding pass
  and_then r k s = pass k (r s)

abbrev pub yields {ℓ} : {A : Type ℓ} → A → Read A
yields a s = some (a, s)

abbrev pub refused {ℓ} : {A : Type ℓ} → Read A
refused s = none

unfoldable pub read_exact : ℕ → Read (List ℕ)
read_exact n s =
    if leb n (length s.rest)
    then some (take n s.rest, record { rest = drop n s.rest; position = s.position + n })
    else none

-- from_le_bytes
unfoldable pub from_le : List ℕ → ℕ
from_le [] = 0
from_le (b ∷ bs) = b + 256 * from_le bs

unfoldable pub read_u32 : Read ℕ
read_u32 = and_then (read_exact 4) (λ b. yields (from_le b))

unfoldable pub read_u64 : Read ℕ
read_u64 = and_then (read_exact 8) (λ b. yields (from_le b))

utf8_checked : Text → Read Text
utf8_checked bytes = if is_utf8 bytes then yields bytes else refused

string_of : ℕ → Read Text
unfolding utf8_checked
string_of len = if ltb max_string_bytes len then refused else and_then (read_exact len) utf8_checked

unfoldable pub read_string : Read Text
unfolding string_of
read_string = and_then read_u64 string_of

-- The bytes are skipped if the file has them.
unfoldable pub discard : ℕ → Read (Unit {0})
discard n = and_then (read_exact n) (λ _. yields tt)

-- n reads in turn.
unfoldable pub times {ℓ} : {A : Type ℓ} → ℕ → Read A → Read (List A)
times zero r = yields []
times (suc n) r = and_then r (λ a. and_then (times n r) (λ rest. yields (a ∷ rest)))

-- A metadata value, which the reader keeps as a text: the number for types 4 and 10, which the
-- model keeps as its bytes, the text itself for type 8, and a marker for the others. `left` is how
-- many levels of nesting are left of the five; an array refuses arrays as elements.
unfoldable pub value : ℕ → ℕ → Read Text
value zero ty = refused
value (suc left) ty =
    let element = λ (t : ℕ). value left t in
    if ty == 0
    then and_then (discard 1) (λ _. yields (codes "uint8"))
    else if ty == 1
    then and_then (discard 1) (λ _. yields (codes "int8"))
    else if ty == 2
    then and_then (discard 2) (λ _. yields (codes "uint16"))
    else if ty == 3
    then and_then (discard 2) (λ _. yields (codes "int16"))
    else if ty == 4
    then read_exact 4
    else if ty == 5
    then and_then (discard 4) (λ _. yields (codes "int32"))
    else if ty == 6
    then and_then (discard 4) (λ _. yields (codes "float32"))
    else if ty == 7
    then and_then (discard 1) (λ _. yields (codes "bool"))
    else if ty == 8
    then read_string
    else if ty == 9
    then and_then read_u32 (λ element_type. and_then read_u64 (λ count.
      if ltb max_entries count || element_type == 9
      then refused
      else and_then (times count (element element_type)) (λ _. yields (codes "array"))))
    else if ty == 10
    then read_exact 8
    else if ty == 11 || ty == 12
    then and_then (discard 8) (λ _. yields (codes "scalar64"))
    else refused

unfoldable pub read_kv : Read (Text × Text)
read_kv =
    and_then read_string (λ key.
      and_then read_u32 (λ value_type. and_then (value 5 value_type) (λ v. yields (key, v))))

unfoldable pub read_tensor : Read GgufTensorInfo
read_tensor = and_then read_string (λ name. and_then read_u32 (λ dimensions.
    if ltb max_dims dimensions
    then refused
    else and_then (times dimensions read_u64) (λ dims. and_then read_u32 (λ dtype.
      and_then read_u64 (λ offset. yields (record {
        name = name;
        dims = dims;
        dtype = dtype;
        offset = offset;
        size = 0;
        data_offset = 0;
      }))))))

-- Rounded up to the next multiple, if the sum fits.
unfoldable pub align_up : ℕ → ℕ → Option ℕ
align_up v alignment =
    if leb (v + (alignment - 1)) u64_max
    then some ((v + (alignment - 1)) / alignment * alignment)
    else none

-- The offsets are strictly increasing, from the one before on, and none lies beyond the file.
unfoldable pub offsets_valid : ℕ → ℕ → Option ℕ → List GgufTensorInfo → Bool
offsets_valid start file_len previous [] = true
offsets_valid start file_len previous (t ∷ ts) =
    elim previous [ none ↦ true | some last ↦ ltb last t.offset ]
    && (leb (start + t.offset) u64_max
        && (leb (start + t.offset) file_len && offsets_valid start file_len (some t.offset) ts))

-- Where a tensor ends: at the next one, or at the end of the file.
unfoldable pub end_relative : ℕ → ℕ → List GgufTensorInfo → ℕ
end_relative start file_len [] = file_len - start
end_relative start file_len (next ∷ ts) = next.offset

spanned : ℕ → ℕ → GgufTensorInfo → List GgufTensorInfo → Option GgufTensorInfo
spanned start file_len t ts =
    let end = end_relative start file_len ts in
    if leb t.offset end
    then some (record t { data_offset = start + t.offset; size = end - t.offset })
    else none

cons? {ℓ} : {A : Type ℓ} → Option A → Option (List A) → Option (List A)
cons? none rest = none
cons? (some a) none = none
cons? (some a) (some rest) = some (a ∷ rest)

unfoldable pub spans : ℕ → ℕ → List GgufTensorInfo → Option (List GgufTensorInfo)
unfolding spanned cons?
spans start file_len [] = some []
spans start file_len (t ∷ ts) = cons? (spanned start file_len t ts) (spans start file_len ts)

pub record Header : Type 0 where
  pub version : ℕ
  pub kv : List (Text × Text)
  pub data_section_start : ℕ
  pub tensors : List GgufTensorInfo

-- Once the header is read: the data section, the checks of the offsets, and the spans.
locate : ℕ → ℕ → List (Text × Text) → List GgufTensorInfo → Option ℕ → Option Header
locate file_len version kv tensors none = none
locate file_len version kv tensors (some start) =
    if ltb file_len start
    then none
    else if offsets_valid start file_len none tensors
    then elim (spans start file_len tensors) [
      | none ↦ none
      | some located ↦
          some
            (record { version = version; kv = kv; data_section_start = start; tensors = located })
    ]
    else none

raw_header : Read (ℕ × List (Text × Text) × List GgufTensorInfo)
raw_header = and_then (read_exact 4) (λ magic.
    if bytes_eq magic (codes "GGUF")
    then and_then read_u32 (λ version.
      if leb 2 version && leb version 3
      then and_then read_u64 (λ tensor_count. and_then read_u64 (λ metadata_kv_count.
        if ltb max_entries tensor_count || ltb max_entries metadata_kv_count
        then refused
        else and_then (times metadata_kv_count read_kv) (λ kv.
          and_then (times tensor_count read_tensor) (λ tensors. yields (version, kv, tensors)))))
      else refused)
    else refused)

located : ℕ → Option ((ℕ × List (Text × Text) × List GgufTensorInfo) × Stream) → Option Header
unfolding locate
located file_len none = none
located file_len (some ((version, kv, tensors), s)) =
    locate file_len version kv tensors (align_up s.position 32)

unfoldable pub parse_header : List ℕ → Option Header
unfolding located raw_header
parse_header bytes = located (length bytes) (raw_header (record { rest = bytes; position = 0 }))

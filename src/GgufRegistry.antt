-- ===== src/GgufRegistry.antt =====
-- triAI-Engine/src/gguf_registry.rs: what is read of the header of a GGUF file before it is offered
-- as a model. `none` is any error.
use carlo_one_core.Prelude.{
  ℕ, zero, suc, ◌*◌, ◌&&◌, ◌||◌, Option, none, some, List, leb, ltb, ◌==◌, if◌then◌else◌, codes,
  Text, bytes_eq, ends_with, is_utf8,
}
use carlo_one_core.Chunk.Gguf.{
  Stream, Read, and_then, yields, refused, read_exact, from_le, read_u32, read_u64, discard, times,
}

pub record GgufMetadata : Type 0 where
  pub version : ℕ
  pub tensor_count : ℕ
  pub architecture : Option Text
  pub name : Option Text
  pub quantization : Option Text
  pub context_length : Option ℕ
  pub parameter_count : Option ℕ
  pub layers : Option ℕ

pub data MetadataValue : Type 0 where
  unsigned : ℕ → MetadataValue
  string : Text → MetadataValue
  other : MetadataValue

unfoldable pub utf8_checked : Text → Read Text
utf8_checked bytes = if is_utf8 bytes then yields bytes else refused

unfoldable pub string_of : ℕ → ℕ → Read Text
unfolding utf8_checked
string_of max_len len = if ltb max_len len then refused else and_then (read_exact len) utf8_checked

-- read_string
unfoldable pub read_text : ℕ → Read Text
unfolding string_of
read_text max_len = and_then read_u64 (string_of max_len)

-- A number of n bytes.
unfoldable pub unsigned_of : ℕ → Read MetadataValue
unsigned_of n = and_then (read_exact n) (λ b. yields (unsigned (from_le b)))

unfoldable pub skipped : ℕ → Read MetadataValue
skipped n = and_then (discard n) (λ _. yields other)

-- The elements of an array, which are not arrays.
unfoldable pub elements : (ℕ → Read MetadataValue) → ℕ → ℕ → Read MetadataValue
elements element ty count =
    if ltb 1_000_000 count || ty == 9
    then refused
    else and_then (times count (element ty)) (λ _. yields other)

-- `left` is 2 for a value and 1 for an element of an array.
unfoldable pub read_metadata_value : ℕ → ℕ → Read MetadataValue
unfolding unsigned_of skipped elements
read_metadata_value zero ty = refused
read_metadata_value (suc left) ty =
    let element = λ (t : ℕ). read_metadata_value left t in
    if ty == 0
    then unsigned_of 1
    else if ty == 1
    then skipped 1
    else if ty == 2
    then unsigned_of 2
    else if ty == 3
    then skipped 2
    else if ty == 4
    then unsigned_of 4
    else if ty == 5 || ty == 6
    then skipped 4
    else if ty == 7
    then skipped 1
    else if ty == 8
    then and_then (read_text (16 * 1024 * 1024)) (λ t. yields (string t))
    else if ty == 9
    then and_then read_u32 (λ t. and_then read_u64 (λ count. elements element t count))
    else if ty == 10
    then unsigned_of 8
    else if ty == 11 || ty == 12
    then skipped 8
    else refused

unfoldable pub quantization_name : ℕ → Text
quantization_name file_type =
    if file_type == 0
    then codes "F32"
    else if file_type == 1
    then codes "F16"
    else if file_type == 2
    then codes "Q4_0"
    else if file_type == 3
    then codes "Q4_1"
    else if file_type == 7
    then codes "Q8_0"
    else if file_type == 8
    then codes "Q5_0"
    else if file_type == 9
    then codes "Q5_1"
    else if file_type == 10
    then codes "Q2_K"
    else if file_type == 11
    then codes "Q3_K_S"
    else if file_type == 12
    then codes "Q3_K_M"
    else if file_type == 13
    then codes "Q3_K_L"
    else if file_type == 14
    then codes "Q4_K_S"
    else if file_type == 15
    then codes "Q4_K_M"
    else if file_type == 16
    then codes "Q5_K_S"
    else if file_type == 17
    then codes "Q5_K_M"
    else if file_type == 18
    then codes "Q6_K"
    else codes "UNKNOWN"

-- What one entry sets.
unfoldable pub with_entry : Text → MetadataValue → GgufMetadata → GgufMetadata
with_entry key (string v) m =
    if bytes_eq key (codes "general.architecture")
    then record m { architecture = some v }
    else if bytes_eq key (codes "general.name")
    then record m { name = some v }
    else m
with_entry key (unsigned v) m =
    if bytes_eq key (codes "general.file_type")
    then record m { quantization = some (quantization_name v) }
    else if bytes_eq key (codes "general.parameter_count")
    then record m { parameter_count = some v }
    else if ends_with key (codes ".context_length")
    then record m { context_length = some v }
    else if ends_with key (codes ".block_count")
    then record m { layers = some v }
    else m
with_entry key other m = m

unfoldable pub read_entry : GgufMetadata → Read GgufMetadata
read_entry m = and_then (read_text (1024 * 1024)) (λ key.
    and_then read_u32
      (λ ty. and_then (read_metadata_value 2 ty) (λ v. yields (with_entry key v m))))

unfoldable pub read_entries : ℕ → GgufMetadata → Read GgufMetadata
unfolding read_entry
read_entries zero m = yields m
read_entries (suc n) m = and_then (read_entry m) (λ next. read_entries n next)

unfoldable pub empty_metadata : ℕ → ℕ → GgufMetadata
empty_metadata version tensor_count = record {
  version = version;
  tensor_count = tensor_count;
  architecture = none;
  name = none;
  quantization = none;
  context_length = none;
  parameter_count = none;
  layers = none;
}

unfoldable pub header_from : ℕ → ℕ → ℕ → Read GgufMetadata
unfolding empty_metadata
header_from version tensor_count metadata_count =
    if ltb 1_000_000 metadata_count
    then refused
    else read_entries metadata_count (empty_metadata version tensor_count)

unfoldable pub versioned : ℕ → Read GgufMetadata
unfolding header_from
versioned version =
    if leb 2 version && leb version 3
    then and_then read_u64
        (λ tensors. and_then read_u64 (λ entries. header_from version tensors entries))
    else refused

unfoldable pub signed : List ℕ → Read GgufMetadata
unfolding versioned
signed magic = if bytes_eq magic (codes "GGUF") then and_then read_u32 versioned else refused

abbrev pub value_of : Option (GgufMetadata × Stream) → Option GgufMetadata
value_of none = none
value_of (some (m, s)) = some m

unfoldable pub inspect : List ℕ → Option GgufMetadata
unfolding signed
inspect content =
    value_of (and_then (read_exact 4) signed (record { rest = content; position = 0 }))

-- ===== src/Prompt.antt =====
-- triAI-Engine/src/prompt/: estimate.rs, caps.rs, compress.rs and hooks.rs. A text is the list of
-- its characters.
pub mod Accepts
pub mod Counts
pub mod Fences
pub mod RawLines
mod Tests
use Prim.Native.Nat.{min}
use carlo_one_core.Prelude.{
  ℕ, ◌+◌, ◌/◌, Bool, true, false, not, ◌&&◌, ◌||◌, Option, none, some, List, [], ◌∷◌, ◌++◌, leb,
  ltb, ◌==◌, if◌then◌else◌, codes, Text, bytes_eq, starts_with, contains, to_ascii_lowercase,
  wrap32,
}
use carlo_one_core.Staging.Lines.{lines}

abbrev pub is_cjk : ℕ → Bool
is_cjk c =
    leb 0x3040 c && leb c 0x30ff || (leb 0x3400 c && leb c 0x9fff || leb 0xac00 c && leb c 0xd7af)

-- How many characters are of the ideographic blocks, and how many are not.
pub cjk_count : Text → ℕ
cjk_count [] = 0
cjk_count (c ∷ cs) = let rest = cjk_count cs in if is_cjk c then rest + 1 else rest

pub other_count : Text → ℕ
other_count [] = 0
other_count (c ∷ cs) = let rest = other_count cs in if is_cjk c then rest else rest + 1

-- The counts are `u32`.
pub estimate_tokens : Text → ℕ
estimate_tokens input =
    min (wrap32 (cjk_count input) + wrap32 (wrap32 (other_count input) + 3) / 4) 4294967295

abbrev pub task_cap : ℕ
task_cap = 1_200

pub record PromptCaps : Type 0 where
  pub task_tokens : ℕ
  pub run_tokens : ℕ
  pub call_tokens : ℕ

pub default_caps : PromptCaps
default_caps = record { task_tokens = task_cap; run_tokens = task_cap; call_tokens = task_cap }

-- `none` is the error.
pub enforce : Text → PromptCaps → Option ℕ
enforce input caps =
    let estimate = estimate_tokens input in
    if ltb task_cap caps.task_tokens
      || (ltb caps.task_tokens estimate
          || (ltb caps.run_tokens estimate || ltb caps.call_tokens estimate))
    then none
    else some estimate

-- char::is_whitespace
pub is_whitespace : ℕ → Bool
is_whitespace c =
    leb 9 c && leb c 13
    || (c == 32
        || (c == 0x85
            || (c == 0xa0
                || (c == 0x1680
                    || (leb 0x2000 c && leb c 0x200a
                        || (c == 0x2028
                            || (c == 0x2029 || (c == 0x202f || (c == 0x205f || c == 0x3000)))))))))

pub trim_start : Text → Text
trim_start [] = []
trim_start (c ∷ cs) = let rest = trim_start cs in if is_whitespace c then rest else c ∷ cs

abbrev pub is_nothing : Text → Bool
is_nothing [] = true
is_nothing (c ∷ cs) = false

pub trim_end : Text → Text
trim_end [] = []
trim_end (c ∷ cs) =
    let rest = trim_end cs in if is_nothing rest && is_whitespace c then [] else c ∷ rest

pub onto_first : ℕ → List Text → List Text
onto_first c [] = (c ∷ []) ∷ []
onto_first c (w ∷ ws) = (c ∷ w) ∷ ws

-- The pieces between the white spaces, of which some are empty.
pub pieces : Text → List Text
pieces [] = [] ∷ []
pieces (c ∷ cs) = let rest = pieces cs in if is_whitespace c then [] ∷ rest else onto_first c rest

pub kept : (Text → Bool) → List Text → List Text
kept test [] = []
kept test (w ∷ ws) = let rest = kept test ws in if test w then w ∷ rest else rest

pub split_whitespace : Text → List Text
split_whitespace text = kept (λ w. not (is_nothing w)) (pieces text)

pub no_url : Text → Bool
no_url word = not (starts_with word (codes "http://")) && not (starts_with word (codes "https://"))

abbrev pub is_one_of : Text → List Text → Bool
is_one_of word [] = false
is_one_of word (f ∷ fs) = bytes_eq word f || is_one_of word fs

abbrev pub fillers : List Text
fillers =
    codes "bitte"
    ∷ codes "please"
    ∷ codes "eigentlich"
    ∷ codes "basically"
    ∷ codes "just"
    ∷ codes "halt"
    ∷ codes "irgendwie"
    ∷ []

pub no_filler : Text → Bool
no_filler word = not (is_one_of (to_ascii_lowercase word) fillers)

-- join(" ")
pub join_words : List Text → Text
join_words [] = []
join_words (w ∷ []) = w
join_words (w ∷ v ∷ ws) = w ++ 32 ∷ join_words (v ∷ ws)

pub compress_line : Text → Text
compress_line line = join_words (kept no_filler (kept no_url (split_whitespace line)))

pub is_fence : Text → Bool
is_fence line = starts_with (trim_start line) (codes "```")

abbrev pub is_previous : Option Text → Text → Bool
is_previous none line = false
is_previous (some previous) line = bytes_eq previous line

-- The loop over the lines; `code` says whether it is inside of a fence.
pub compress_lines : Bool → Option Text → List Text → Text
compress_lines code previous [] = []
compress_lines code previous (line ∷ rest) =
    let toggled = compress_lines (not code) none rest in
    let skipped = compress_lines code previous rest in
    let normalized = if code then line else compress_line line in
    let taken = compress_lines code (some normalized) rest in
    if is_fence line
    then line ++ 10 ∷ toggled
    else if not code && (is_nothing normalized || is_previous previous normalized)
    then skipped
    else normalized ++ 10 ∷ taken

pub compress : Text → Text
compress input = trim_end (compress_lines false none (lines input))

pub record PreparedPrompt : Type 0 where
  pub text : Text
  pub estimated_tokens : ℕ

pub data Prepared : Type 0 where
  secret_detected cap_exceeded : Prepared
  prepared : PreparedPrompt → Prepared

abbrev pub is_secret_item : Text → Bool
is_secret_item item = starts_with item (codes "sk-") || starts_with item (codes "AKIA")

abbrev pub any_secret : List Text → Bool
any_secret [] = false
any_secret (w ∷ ws) = is_secret_item w || any_secret ws

pub contains_secret : Text → Bool
contains_secret input =
    contains input (codes "BEGIN PRIVATE KEY") || any_secret (split_whitespace input)

pub prepared_as : Text → Option ℕ → Prepared
prepared_as text none = cap_exceeded
prepared_as text (some n) = prepared (record { text = text; estimated_tokens = n })

pub prepare : Text → PromptCaps → Prepared
prepare input caps =
    if contains_secret input
    then secret_detected
    else prepared_as (compress input) (enforce (compress input) caps)

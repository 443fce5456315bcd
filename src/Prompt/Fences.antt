-- ===== src/Prompt/Fences.antt =====
-- triAI-Engine/src/prompt/compress.rs: fenced code.
use mathlib.Core.List.{append_assoc}
use carlo_one_core.Prelude.{
  Bool, true, false, not, ◌&&◌, ◌||◌, ◌≡◌, refl, inl, inr, Option, none, some, List, [], ◌∷◌, ◌++◌,
  if◌then◌else◌, Text, Bool-cases,
}
use carlo_one_core.Staging.Lines.{lines}
use carlo_one_core.Prompt.RawLines.{verbatim, AllLines, lines-verbatim, lines-AllLines}
use carlo_one_core.Prompt.{
  is_nothing, is_fence, is_previous, trim_end, compress_line, compress_lines, compress,
}

-- Whether the text is inside of a fence after these lines.
unfoldable pub inside_after : Bool → List Text → Bool
inside_after code [] = code
inside_after code (line ∷ ls) = inside_after (if is_fence line then not code else code) ls

abbrev pub NoFence : List Text → Type 0
NoFence [] = Unit
NoFence (line ∷ ls) = (is_fence line ≡ false) × NoFence ls

-- What comes later is put after what comes first.
Continues : Bool → Text → List Text → Type 0
Continues code out tail =
    (a : Text) × (previous : Option Text) × (out ≡ a ++ compress_lines code previous tail)

after_line :
    (code : Bool) (line out : Text) (tail : List Text)
    → Continues code out tail
    → Continues code (line ++ 10 ∷ out) tail
unfolding Continues
after_line code line out tail (a, previous, e) =
    (line ++ 10 ∷ a, previous, rw (e, append_assoc line (10 ∷ a)) refl)

compress_lines-append :
    (code : Bool) (previous : Option Text) (before tail : List Text)
    → Continues (inside_after code before) (compress_lines code previous (before ++ tail)) tail
unfolding compress_lines inside_after Continues
compress_lines-append code previous [] tail = ([], previous, refl)
compress_lines-append code previous (line ∷ before) tail =
    let normalized = if code then line else compress_line line in
    elim (Bool-cases (is_fence line)) [
      | inl fence ↦
          rw fence (after_line _ line _ tail (compress_lines-append (not code) none before tail))
      | inr text ↦
          elim (Bool-cases
            (not code && (is_nothing normalized || is_previous previous normalized))) [
              | inl skips ↦ rw (text, skips) (compress_lines-append code previous before tail)
              | inr takes ↦
                  rw (text, takes)
                    (after_line _ normalized _ tail
                      (compress_lines-append code (some normalized) before tail))
            ]
    ]

-- Inside of a fence each line stands as it is.
code_kept :
    (previous : Option Text) (ls : List Text) (g : Text) (rest : List Text)
    → NoFence ls
    → is_fence g ≡ true
    → compress_lines true previous (ls ++ g ∷ rest)
      ≡ verbatim ls ++ (g ++ 10 ∷ compress_lines false none rest)
unfolding compress_lines verbatim
code_kept previous [] g rest h e = rw e refl
code_kept previous (line ∷ ls) g rest h e =
    rw (h.0, code_kept (some line) ls g rest h.1 e, append_assoc line (10 ∷ verbatim ls)) refl

-- A prompt that consists of lines after which no fence is open, a line that opens a fence, lines of
-- code without a fence, and a rest whose first line closes the fence, where the line that opens the
-- fence and the code have no carriage return. In the compressed text these stand byte for byte,
-- before the line that closes the fence as `str::lines` gives it; only white space at the very end
-- of the text may be cut off.
pub fenced_code_kept :
    (before ls : List Text) (f g rest : Text) (more : List Text)
    → inside_after false (lines (verbatim before)) ≡ false
    → is_fence f ≡ true
    → AllLines (f ∷ ls)
    → NoFence ls
    → lines rest ≡ g ∷ more
    → is_fence g ≡ true
    → (a : Text) × (compress (verbatim before ++ (verbatim (f ∷ ls) ++ rest))
        ≡ trim_end (a ++ (verbatim (f ∷ ls) ++ (g ++ 10 ∷ compress_lines false none more))))
unfolding compress compress_lines verbatim Continues
fenced_code_kept before ls f g rest more outside ef plain h q eg =
    let (a, previous, e) =
      compress_lines-append false none (lines (verbatim before)) (f ∷ (ls ++ g ∷ more)) in
    (
      a,
      rw
          (
            lines-verbatim before (verbatim (f ∷ ls) ++ rest),
            lines-AllLines (f ∷ ls) rest plain,
            q,
            e,
            outside,
            ef,
            code_kept none ls g more h eg,
            append_assoc f (10 ∷ verbatim ls),
          )
          refl,
    )

-- ===== src/Prompt/Tests.antt =====
-- Runs of the preparation of a prompt.
use carlo_one_core.Prelude.{
  ◌≤◌, false, ◌≡◌, refl, none, [], ◌∷◌, ◌++◌, codes, Text, starts_with, contains, split,
  to_ascii_lowercase, bytes_eq, arith,
}
use carlo_one_core.Staging.Lines.{lines, without_return}
use carlo_one_core.Prompt.{
  default_caps, prepare, prepared, compress, compress_lines, estimate_tokens, trim_end, trim_start,
  is_fence, contains_secret, split_whitespace, pieces, onto_first, kept, is_whitespace, cjk_count,
  other_count, compress_line, join_words, no_url, no_filler,
}
use carlo_one_core.Prompt.Accepts.{prepare_accepts}
use carlo_one_core.Prompt.Fences.{inside_after, fenced_code_kept}
use carlo_one_core.Prompt.RawLines.{verbatim}

compress_run : compress (codes "Bitte say https://a.b hi\n\nsay hi\n") ≡ codes "say hi"
unfolding compress compress_lines lines without_return split is_fence trim_start trim_end
    compress_line join_words kept no_url no_filler split_whitespace pieces onto_first is_whitespace
    starts_with to_ascii_lowercase bytes_eq
compress_run = refl

-- A carriage return before a newline is lost, also in code.
carriage_return_run : compress (codes "```\na\r\n```") ≡ codes "```\na\n```"
unfolding compress compress_lines lines without_return split is_fence trim_start trim_end
    compress_line join_words kept no_url no_filler split_whitespace pieces onto_first is_whitespace
    starts_with to_ascii_lowercase bytes_eq
carriage_return_run = refl

prepare_accepts_example :
    (prepare (codes "please explain") default_caps
      ≡ prepared (record {
        text = compress (codes "please explain");
        estimated_tokens = estimate_tokens (compress (codes "please explain"));
      }))
    × (estimate_tokens (compress (codes "please explain"))
        ≤ estimate_tokens (codes "please explain"))
unfolding default_caps contains_secret contains starts_with split_whitespace pieces onto_first kept
    is_whitespace estimate_tokens cjk_count other_count
prepare_accepts_example =
    prepare_accepts (codes "please explain") default_caps refl (omega arith) (omega arith)
      (omega arith) (omega arith) (omega arith)

abbrev fenced_prompt : Text
fenced_prompt =
    verbatim (codes "say\r" ∷ [])
    ++ (verbatim (codes "```" ∷ codes "please  x" ∷ []) ++ codes "```\nhi")

fenced_code_kept_example :
    (a : Text) × (compress fenced_prompt
      ≡ trim_end (
          a
          ++ (verbatim (codes "```" ∷ codes "please  x" ∷ [])
              ++ (codes "```" ++ 10 ∷ compress_lines false none (codes "hi" ∷ [])))))
unfolding lines split without_return is_fence trim_start is_whitespace starts_with inside_after
    verbatim
fenced_code_kept_example =
    fenced_code_kept (codes "say\r" ∷ []) (codes "please  x" ∷ []) (codes "```") (codes "```")
      (codes "```\nhi") (codes "hi" ∷ []) refl refl
      (
        (refl, refl, (refl, refl, (refl, refl, tt))),
        (
          (
            refl,
            refl,
            (
              refl,
              refl,
              (
                refl,
                refl,
                (
                  refl,
                  refl,
                  (refl, refl, (refl, refl, (refl, refl, (refl, refl, (refl, refl, tt))))),
                ),
              ),
            ),
          ),
          tt,
        ),
      )
      (refl, tt) refl refl

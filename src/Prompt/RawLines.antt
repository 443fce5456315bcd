-- ===== src/Prompt/RawLines.antt =====
-- `str::lines`, on the prompts that triAI-Engine/src/prompt/compress.rs reads.
use mathlib.Core.List.{append_assoc}
use carlo_one_core.Prelude.{
  false, ◌≡◌, refl, inl, inr, List, [], ◌∷◌, ◌++◌, Text, Bool-cases, map, split, ap, ◌==◌, arith,
}
use carlo_one_core.Staging.Lines.{lines, without_return, terminated, split_some}

-- Lines as they stand.
unfoldable pub verbatim : List Text → Text
verbatim [] = []
verbatim (line ∷ ls) = line ++ 10 ∷ verbatim ls

-- A text without a newline and a carriage return.
abbrev pub IsLine : Text → Type 0
IsLine [] = Unit
IsLine (c ∷ cs) = ((c == 10) ≡ false) × ((c == 13) ≡ false) × IsLine cs

abbrev pub AllLines : List Text → Type 0
AllLines [] = Unit
AllLines (line ∷ ls) = IsLine line × AllLines ls

split-append : (a rest : Text) → split 10 (a ++ 10 ∷ rest) ≡ split 10 a ++ split 10 rest
unfolding split
split-append [] rest = refl
split-append (c ∷ cs) rest = elim (Bool-cases (c == 10)) [
  | inl newline ↦ rw (newline, split-append cs rest) refl
  | inr other ↦ let (p, ps, e) = split_some cs in rw (other, split-append cs rest, e) refl
]

terminated-append :
    (parts : List Text) (p : Text) (ps : List Text)
    → terminated (parts ++ p ∷ ps) ≡ map without_return parts ++ terminated (p ∷ ps)
unfolding terminated
terminated-append [] p ps = refl
terminated-append (q ∷ []) p ps = refl
terminated-append (q ∷ r ∷ parts) p ps =
    ap (λ t. without_return q ∷ t) (terminated-append (r ∷ parts) p ps)

-- What stands before a newline is read as lines of its own.
lines-append :
    (a rest : Text) → lines (a ++ 10 ∷ rest) ≡ map without_return (split 10 a) ++ lines rest
unfolding lines
lines-append a rest =
    let (p, ps, e) = split_some rest in
    rw (split-append a rest, e) (terminated-append (split 10 a) p ps)

pub lines-verbatim :
    (before : List Text) (rest : Text)
    → lines (verbatim before ++ rest) ≡ lines (verbatim before) ++ lines rest
unfolding verbatim lines split
lines-verbatim [] rest = refl
lines-verbatim (h ∷ hs) rest =
    rw
      (
        append_assoc h (10 ∷ verbatim hs),
        lines-append h (verbatim hs ++ rest),
        lines-append h (verbatim hs),
        lines-verbatim hs rest,
        append_assoc (map without_return (split 10 h)) (lines (verbatim hs)),
      )
      refl

without_return-IsLine : (a : Text) → IsLine a → without_return a ≡ a
unfolding without_return
without_return-IsLine [] h = refl
without_return-IsLine (c ∷ []) h = ground arith
without_return-IsLine (c ∷ d ∷ cs) h = ap (λ t. c ∷ t) (without_return-IsLine (d ∷ cs) h.2)

split-IsLine : (a : Text) → IsLine a → split 10 a ≡ a ∷ []
unfolding split
split-IsLine [] h = refl
split-IsLine (c ∷ cs) h = ground (arith, split-IsLine cs h.2)

pub lines-AllLines :
    (ls : List Text) (rest : Text) → AllLines ls → lines (verbatim ls ++ rest) ≡ ls ++ lines rest
unfolding verbatim
lines-AllLines [] rest h = refl
lines-AllLines (line ∷ ls) rest h =
    rw
      (
        append_assoc line (10 ∷ verbatim ls),
        lines-append line (verbatim ls ++ rest),
        split-IsLine line h.0,
        without_return-IsLine line h.0,
        lines-AllLines ls rest h.1,
      )
      refl

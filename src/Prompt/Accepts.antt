-- ===== src/Prompt/Accepts.antt =====
-- triAI-Engine/src/prompt/hooks.rs: a prompt that is within the caps is accepted.
use mathlib.Core.List.{append_assoc}
use carlo_one_core.Prelude.{
  ℕ, ◌+◌, ◌≤◌, Bool, true, false, not, ◌&&◌, ◌||◌, ◌≡◌, refl, ◌⊎◌, inl, inr, Option, none, some,
  List, [], ◌∷◌, ◌++◌, ltb, if◌then◌else◌, Text, length, arith,
}
use carlo_one_core.Staging.Lines.{lines}
use carlo_one_core.Prompt.Counts.{
  IsBelow, lines-sums, compress_lines-sums, other-append, cjk-append,
}
use carlo_one_core.Prompt.{
  cjk_count, other_count, is_whitespace, is_nothing, trim_end, is_fence, is_previous, compress_line,
  compress_lines, compress, estimate_tokens, PromptCaps, task_cap, enforce, prepared,
  contains_secret, prepared_as, prepare,
}

-- The output is empty or ends with a newline.
EndsLine : Text → Type 0
EndsLine out = (out ≡ []) ⊎ ((x : Text) × (out ≡ x ++ 10 ∷ []))

line-EndsLine : (a rest : Text) → EndsLine rest → EndsLine (a ++ 10 ∷ rest)
unfolding EndsLine
line-EndsLine a rest (inl e) = inr (a, rw e refl)
line-EndsLine a rest (inr (x, e)) = inr (a ++ 10 ∷ x, rw (e, append_assoc a (10 ∷ x)) refl)

if-EndsLine : (b : Bool) (x y : Text) → EndsLine x → EndsLine y → EndsLine (if b then x else y)
if-EndsLine true x y f g = f
if-EndsLine false x y f g = g

compress_lines-EndsLine :
    (code : Bool) (previous : Option Text) (ls : List Text)
    → EndsLine (compress_lines code previous ls)
unfolding compress_lines EndsLine
compress_lines-EndsLine code previous [] = inl refl
compress_lines-EndsLine code previous (line ∷ ls) =
    let normalized = if code then line else compress_line line in
    if-EndsLine (is_fence line) _ _
      (line-EndsLine line _ (compress_lines-EndsLine (not code) none ls))
      (if-EndsLine (not code && (is_nothing normalized || is_previous previous normalized)) _ _
        (compress_lines-EndsLine code previous ls)
        (line-EndsLine normalized _ (compress_lines-EndsLine code (some normalized) ls)))

trim_end-newline : (x : Text) → trim_end (x ++ 10 ∷ []) ≡ trim_end x
unfolding trim_end is_whitespace
trim_end-newline [] = refl
trim_end-newline (c ∷ cs) = rw (trim_end-newline cs) refl

trim_end-sums : (x : Text) → IsBelow (cjk_count x) (other_count x) (trim_end x)
unfolding trim_end cjk_count other_count
trim_end-sums [] = record { few_cjk = omega arith; few_other = omega arith }
trim_end-sums (c ∷ cs) =
    let ih = trim_end-sums cs in
    record { few_cjk = ground (arith, ih.few_cjk); few_other = ground (arith, ih.few_other) }

-- A whole text without the newline that its lines may have been given.
trimmed-sums :
    (out : Text) (cjk other : ℕ)
    → EndsLine out
    → IsBelow cjk (other + 1) out
    → IsBelow cjk other (trim_end out)
unfolding EndsLine trim_end cjk_count other_count
trimmed-sums out cjk other (inl e) b =
    rw e (record { few_cjk = omega arith; few_other = omega arith })
trimmed-sums out cjk other (inr (x, e)) b =
    let t = trim_end-sums x in
    let c : cjk_count x ≤ cjk = omega (arith, cjk-append x (10 ∷ []), rw e at b.few_cjk) in
    let o : other_count x ≤ other = omega (arith, other-append x (10 ∷ []), rw e at b.few_other) in
    rw (e, trim_end-newline x)
      (record { few_cjk = omega (arith, t.few_cjk, c); few_other = omega (arith, t.few_other, o) })

compress-IsBelow : (t : Text) → IsBelow (cjk_count t) (other_count t) (compress t)
unfolding compress
compress-IsBelow t =
    let l = lines-sums t in
    let c = compress_lines-sums false none (lines t) in
    trimmed-sums (compress_lines false none (lines t)) (cjk_count t) (other_count t)
      (compress_lines-EndsLine false none (lines t))
      (record {
        few_cjk = omega (arith, l.0, c.few_cjk);
        few_other = omega (arith, l.1, c.few_other);
      })

counts_length : (t : Text) → cjk_count t + other_count t ≡ length t
unfolding cjk_count other_count
counts_length [] = refl
counts_length (c ∷ cs) = ground (arith, counts_length cs)

-- Compression never makes a prompt dearer.
estimate_tokens-compress :
    (t : Text) → length t ≤ 4_294_967_292 → estimate_tokens (compress t) ≤ estimate_tokens t
unfolding estimate_tokens
estimate_tokens-compress t h =
    let b = compress-IsBelow t in omega (arith, b.few_cjk, b.few_other, counts_length t, h)

-- A prompt without a secret, of less than 2^32 - 3 characters, whose own estimate is within caps
-- that are allowed is accepted: compressed, and with an estimate that is not larger.
pub prepare_accepts :
    (input : Text) (caps : PromptCaps)
    → contains_secret input ≡ false
    → length input ≤ 4_294_967_292
    → caps.task_tokens ≤ task_cap
    → estimate_tokens input ≤ caps.task_tokens
    → estimate_tokens input ≤ caps.run_tokens
    → estimate_tokens input ≤ caps.call_tokens
    → (prepare input caps
        ≡ prepared
            (record { text = compress input; estimated_tokens = estimate_tokens (compress input) }))
      × (estimate_tokens (compress input) ≤ estimate_tokens input)
unfolding prepare prepared_as enforce
prepare_accepts input caps clean small allowed task run call =
    let less = estimate_tokens-compress input small in
    let passes : (ltb task_cap caps.task_tokens
          || (ltb caps.task_tokens (estimate_tokens (compress input))
              || (ltb caps.run_tokens (estimate_tokens (compress input))
                  || ltb caps.call_tokens (estimate_tokens (compress input)))))
        ≡ false =
      ground (arith, less) in
    (simp (clean, passes), less)

-- ===== src/Prompt/Counts.antt =====
-- triAI-Engine/src/prompt/compress.rs: compression and the counts of characters.
use carlo_one_core.Prelude.{
  ℕ, ◌+◌, ◌-◌, ◌≤◌, Bool, true, false, not, ◌&&◌, ◌||◌, ◌≡◌, refl, sym, ap, ◌∙◌, inl, inr, Option,
  none, some, List, [], ◌∷◌, ◌++◌, if◌then◌else◌, Text, split, arith, Bool-cases,
}
use carlo_one_core.Staging.Lines.{lines, terminated, without_return, split_some}
use carlo_one_core.Prompt.{
  is_cjk, cjk_count, other_count, is_whitespace, is_nothing, onto_first, pieces, kept,
  split_whitespace, no_url, no_filler, join_words, compress_line, is_fence, is_previous,
  compress_lines,
}

-- What a list of texts counts, with one more character for each.
pub cjk_sum : List Text → ℕ
cjk_sum [] = 0
cjk_sum (t ∷ ts) = cjk_count t + cjk_sum ts

pub other_sum : List Text → ℕ
other_sum [] = 0
other_sum (t ∷ ts) = other_count t + 1 + other_sum ts

-- Not more of either kind.
pub record IsBelow (cjk other : ℕ) (t : Text) : Type 0 where
  pub few_cjk : cjk_count t ≤ cjk
  pub few_other : other_count t ≤ other

pub cjk-append : (a b : Text) → cjk_count (a ++ b) ≡ cjk_count a + cjk_count b
unfolding cjk_count
cjk-append [] b = omega arith
cjk-append (c ∷ cs) b = ground (arith, cjk-append cs b)

pub other-append : (a b : Text) → other_count (a ++ b) ≡ other_count a + other_count b
unfolding other_count
other-append [] b = omega arith
other-append (c ∷ cs) b = ground (arith, other-append cs b)

split-sums :
    (t : Text) → (cjk_sum (split 10 t) ≡ cjk_count t) × (other_sum (split 10 t) ≡ other_count t + 1)
unfolding split cjk_sum other_sum cjk_count other_count
split-sums [] = (refl, refl)
split-sums (c ∷ cs) =
    let (p, ps, e) = split_some cs in
    let ih = split-sums cs in
    let c0 : cjk_sum (p ∷ ps) ≡ cjk_count cs = ap cjk_sum (sym e) ∙ ih.0 in
    let o0 : other_sum (p ∷ ps) ≡ other_count cs + 1 = ap other_sum (sym e) ∙ ih.1 in
    rw e (ground (arith, c0, o0))

without_return-sums : (t : Text) → IsBelow (cjk_count t) (other_count t) (without_return t)
unfolding without_return cjk_count other_count
without_return-sums [] = record { few_cjk = omega arith; few_other = omega arith }
without_return-sums (c ∷ []) = record { few_cjk = ground arith; few_other = ground arith }
without_return-sums (c ∷ d ∷ cs) =
    let ih = without_return-sums (d ∷ cs) in
    record { few_cjk = ground (arith, ih.few_cjk); few_other = ground (arith, ih.few_other) }

terminated-sums :
    (ps : List Text)
    → (cjk_sum (terminated ps) ≤ cjk_sum ps) × (other_sum (terminated ps) ≤ other_sum ps)
unfolding terminated cjk_sum other_sum
terminated-sums [] = (omega arith, omega arith)
terminated-sums ([] ∷ []) = (omega arith, omega arith)
terminated-sums ((c ∷ cs) ∷ []) = (omega arith, omega arith)
terminated-sums (line ∷ more ∷ parts) =
    let ih = terminated-sums (more ∷ parts) in
    let w = without_return-sums line in
    (omega (arith, ih.0, w.few_cjk), omega (arith, ih.1, w.few_other))

pub lines-sums :
    (t : Text) → (cjk_sum (lines t) ≤ cjk_count t) × (other_sum (lines t) ≤ other_count t + 1)
unfolding lines
lines-sums t =
    let a = terminated-sums (split 10 t) in
    let b = split-sums t in (omega (arith, a.0, b.0), omega (arith, a.1, b.1))

pieces_some : (t : Text) → (p : Text) × (ps : List Text) × (pieces t ≡ p ∷ ps)
unfolding pieces onto_first
pieces_some [] = ([], [], refl)
pieces_some (c ∷ cs) = elim (Bool-cases (is_whitespace c)) [
  | inl white ↦ ([], pieces cs, rw white refl)
  | inr other ↦ let (p, ps, e) = pieces_some cs in (c ∷ p, ps, rw (other, e) refl)
]

white_not_cjk : (c : ℕ) → is_whitespace c ≡ true → is_cjk c ≡ false
unfolding is_whitespace
white_not_cjk c h = ground arith

pieces-sums :
    (t : Text) → (cjk_sum (pieces t) ≡ cjk_count t) × (other_sum (pieces t) ≡ other_count t + 1)
unfolding pieces onto_first cjk_sum other_sum cjk_count other_count
pieces-sums [] = (refl, refl)
pieces-sums (c ∷ cs) =
    let (p, ps, e) = pieces_some cs in
    let ih = pieces-sums cs in
    let c0 : cjk_sum (p ∷ ps) ≡ cjk_count cs = ap cjk_sum (sym e) ∙ ih.0 in
    let o0 : other_sum (p ∷ ps) ≡ other_count cs + 1 = ap other_sum (sym e) ∙ ih.1 in
    elim (Bool-cases (is_whitespace c)) [
      | inl white ↦ rw (white, white_not_cjk c white) (omega (arith, ih.0), omega (arith, ih.1))
      | inr other ↦ rw (other, e) (ground (arith, c0, o0))
    ]

kept-sums :
    (test : Text → Bool) (ws : List Text)
    → (cjk_sum (kept test ws) ≤ cjk_sum ws) × (other_sum (kept test ws) ≤ other_sum ws)
unfolding kept cjk_sum other_sum
kept-sums test [] = (omega arith, omega arith)
kept-sums test (w ∷ ws) = let ih = kept-sums test ws in (ground (arith, ih.0), ground (arith, ih.1))

-- The spaces between the words are fewer than the words.
join_words-sums : (ws : List Text) → IsBelow (cjk_sum ws) (other_sum ws - 1) (join_words ws)
unfolding join_words cjk_sum other_sum cjk_count other_count
join_words-sums [] = record { few_cjk = omega arith; few_other = omega arith }
join_words-sums (w ∷ []) = record { few_cjk = omega arith; few_other = omega arith }
join_words-sums (w ∷ v ∷ ws) =
    let ih = join_words-sums (v ∷ ws) in
    record {
      few_cjk = omega (arith, cjk-append w (32 ∷ join_words (v ∷ ws)), ih.few_cjk);
      few_other = omega (arith, other-append w (32 ∷ join_words (v ∷ ws)), ih.few_other);
    }

compress_line-sums :
    (line : Text) → IsBelow (cjk_count line) (other_count line) (compress_line line)
unfolding compress_line split_whitespace
compress_line-sums line =
    let p = pieces-sums line in
    let words = kept (λ w. not (is_nothing w)) (pieces line) in
    let a = kept-sums (λ w. not (is_nothing w)) (pieces line) in
    let b = kept-sums no_url words in
    let c = kept-sums no_filler (kept no_url words) in
    let d = join_words-sums (kept no_filler (kept no_url words)) in
    record {
      few_cjk = omega (arith, p.0, a.0, b.0, c.0, d.few_cjk);
      few_other = omega (arith, p.1, a.1, b.1, c.1, d.few_other);
    }

-- A line of the output takes at most what the line of the input had, and a newline.
line-sums :
    (line out rest : Text) (ls : List Text)
    → IsBelow (cjk_count line) (other_count line) out
    → IsBelow (cjk_sum ls) (other_sum ls) rest
    → IsBelow (cjk_sum (line ∷ ls)) (other_sum (line ∷ ls)) (out ++ 10 ∷ rest)
unfolding cjk_sum other_sum cjk_count other_count
line-sums line out rest ls o r = record {
  few_cjk = omega (arith, cjk-append out (10 ∷ rest), o.few_cjk, r.few_cjk);
  few_other = omega (arith, other-append out (10 ∷ rest), o.few_other, r.few_other);
}

IsBelow-more :
    (line rest : Text) (ls : List Text)
    → IsBelow (cjk_sum ls) (other_sum ls) rest
    → IsBelow (cjk_sum (line ∷ ls)) (other_sum (line ∷ ls)) rest
unfolding cjk_sum other_sum
IsBelow-more line rest ls r = record {
  few_cjk = omega (arith, r.few_cjk);
  few_other = omega (arith, r.few_other);
}

IsBelow-if :
    (cjk other : ℕ) (b : Bool) (x y : Text)
    → IsBelow cjk other x
    → IsBelow cjk other y
    → IsBelow cjk other (if b then x else y)
IsBelow-if cjk other true x y f g = f
IsBelow-if cjk other false x y f g = g

IsBelow-refl : (t : Text) → IsBelow (cjk_count t) (other_count t) t
IsBelow-refl t = record { few_cjk = omega arith; few_other = omega arith }

pub compress_lines-sums :
    (code : Bool) (previous : Option Text) (ls : List Text)
    → IsBelow (cjk_sum ls) (other_sum ls) (compress_lines code previous ls)
unfolding compress_lines cjk_count cjk_sum other_count other_sum
compress_lines-sums code previous [] = record { few_cjk = omega arith; few_other = omega arith }
compress_lines-sums code previous (line ∷ ls) =
    let normalized = if code then line else compress_line line in
    IsBelow-if _ _ (is_fence line) _ _
      (line-sums line line _ ls (IsBelow-refl line) (compress_lines-sums (not code) none ls))
      (IsBelow-if _ _ (not code && (is_nothing normalized || is_previous previous normalized)) _ _
        (IsBelow-more line _ ls (compress_lines-sums code previous ls))
        (line-sums line normalized _ ls
          (IsBelow-if _ _ code line (compress_line line) (IsBelow-refl line)
            (compress_line-sums line))
          (compress_lines-sums code (some normalized) ls)))

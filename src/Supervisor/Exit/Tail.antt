-- ===== src/Supervisor/Exit/Tail.antt =====
-- triAI-Engine/src/supervisor.rs, `append_tail`: the kept end of the worker's stderr.
use mathlib.Core.List.{foldl}
use carlo_one_core.Prelude.{
  ℕ, ◌+◌, ◌-◌, ◌≤◌, ◌<◌, min, ◌≡◌, refl, sym, ap, ap₂, ◌∙◌, List, [], ◌∷◌, ◌++◌, leb, arith, length,
  drop, length-drop, length-append, drop-append, drop-drop, drop_all, inl, inr, Bool-cases, leb→le,
}
use carlo_one_core.Supervisor.Exit.{stderr_tail_limit, append_tail}

-- The end of a text, as long as the limit allows.
unfoldable pub last_bytes : List ℕ → List ℕ
last_bytes bytes = drop (length bytes - stderr_tail_limit) bytes

-- All chunks in the order in which they were read.
abbrev pub written : List ℕ → List (List ℕ) → List ℕ
written before [] = before
written before (chunk ∷ chunks) = written (before ++ chunk) chunks

length-last_bytes : (a : List ℕ) → length (last_bytes a) ≡ min (length a) stderr_tail_limit
unfolding last_bytes
length-last_bytes a = omega (arith, length-drop (length a - stderr_tail_limit) a)

last_bytes-append_long :
    (a b : List ℕ)
    → stderr_tail_limit ≤ length b
    → last_bytes (a ++ b) ≡ drop (length b - stderr_tail_limit) b
unfolding last_bytes
last_bytes-append_long a b h =
    let n = length (a ++ b) - stderr_tail_limit in
    let gone = drop_all n a (omega (arith, length-append a b)) in
    let left : n - length a ≡ length b - stderr_tail_limit = omega (arith, length-append a b) in
    drop-append n a b ∙ rw (gone, left)

last_bytes-append_short :
    (a b : List ℕ)
    → length b < stderr_tail_limit
    → last_bytes (a ++ b)
      ≡ drop (length (last_bytes a) + length b - stderr_tail_limit) (last_bytes a) ++ b
unfolding last_bytes
last_bytes-append_short a b h =
    let n = length (a ++ b) - stderr_tail_limit in
    let m = length (last_bytes a) + length b - stderr_tail_limit in
    let whole : n - length a ≡ 0 = omega (arith, length-append a b) in
    let same : n ≡ length a - stderr_tail_limit + m =
      omega (arith, length-append a b, length-last_bytes a) in
    drop-append n a b
    ∙ ap₂ ◌++◌ (ap (λ k. drop k a) same ∙ sym (drop-drop m (length a - stderr_tail_limit) a))
        (ap (λ k. drop k b) whole)

append_tail-last_bytes : (a b : List ℕ) → append_tail (last_bytes a) b ≡ last_bytes (a ++ b)
unfolding append_tail
append_tail-last_bytes a b = elim (Bool-cases (leb stderr_tail_limit (length b))) [
  | inl long ↦ rw long (sym (last_bytes-append_long a b (leb→le _ _ long)))
  | inr short ↦ rw short (sym (last_bytes-append_short a b (ground arith)))
]

-- However the stderr of a worker is cut into chunks, the tail that is kept is the end of all of
-- it: everything, or the last 64 KiB where there is more.
pub append_tail_keeps_end :
    (before : List ℕ) (chunks : List (List ℕ))
    → foldl append_tail (last_bytes before) chunks ≡ last_bytes (written before chunks)
append_tail_keeps_end before [] = refl
append_tail_keeps_end before (chunk ∷ chunks) =
    rw (append_tail-last_bytes before chunk) (append_tail_keeps_end (before ++ chunk) chunks)

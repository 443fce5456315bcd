-- ===== src/Supervisor/Exit.antt =====
-- triAI-Engine/src/supervisor.rs, what a worker leaves behind: the kept end of its stderr, the
-- reason for its exit, and the answer to a health request. Bytes are numbers below 256.
pub mod Tail
use carlo_one_core.Prelude.{
  ℕ, suc, ◌+◌, ◌-◌, ◌*◌, String, Bool, true, false, ◌&&◌, ◌||◌, Option, none, some, List, [], ◌∷◌,
  ◌++◌, map, ltb, leb, ◌==◌, if◌then◌else◌, length, codes, contains, contains_any,
  to_ascii_lowercase, starts_with, drop,
}

pub data WorkerFailureCode : Type 0 where
  worker_timeout worker_crashed out_of_memory port_conflict : WorkerFailureCode
  corrupt_model spawn_failed slot_busy : WorkerFailureCode

-- The message, which only a person reads, is left out.
pub record WorkerFailure : Type 0 where
  pub code : WorkerFailureCode
  pub stderr_tail : List ℕ

abbrev pub stderr_tail_limit : ℕ
stderr_tail_limit = 64 * 1024

unfoldable pub append_tail : List ℕ → List ℕ → List ℕ
append_tail tail bytes =
    if leb stderr_tail_limit (length bytes)
    then drop (length bytes - stderr_tail_limit) bytes
    else drop (length tail + length bytes - stderr_tail_limit) tail ++ bytes

-- What `ExitStatus` tells on Unix.
pub record ExitStatus : Type 0 where
  pub code : Option ℕ
  pub signal : Option ℕ

abbrev is_some_of : ℕ → Option ℕ → Bool
is_some_of n none = false
is_some_of n (some m) = m == n

pub is_out_of_memory : ExitStatus → List ℕ → Bool
unfolding contains_any to_ascii_lowercase
is_out_of_memory status tail =
    is_some_of 137 status.code
    || (is_some_of 9 status.signal
        || contains_any (to_ascii_lowercase tail) (
            "out of memory" ∷ "cuda_error_out_of_memory" ∷ "failed to allocate"
            ∷ "cannot allocate memory" ∷ []))

pub is_port_conflict : List ℕ → Bool
unfolding contains_any to_ascii_lowercase
is_port_conflict tail =
    contains_any (to_ascii_lowercase tail)
      ("address already in use" ∷ "failed to bind" ∷ "bind: address" ∷ [])

pub is_corrupt_model : List ℕ → Bool
unfolding contains_any to_ascii_lowercase
is_corrupt_model tail = contains_any (to_ascii_lowercase tail) (
    "invalid gguf" ∷ "failed to load model" ∷ "unknown model architecture" ∷ "invalid model file"
    ∷ [])

unfoldable pub classify_exit : ExitStatus → List ℕ → WorkerFailure
unfolding is_out_of_memory is_port_conflict is_corrupt_model
classify_exit status tail = record {
  code =
      if is_out_of_memory status tail
      then out_of_memory
      else if is_port_conflict tail
      then port_conflict
      else if is_corrupt_model tail
      then corrupt_model
      else worker_crashed;
  stderr_tail = tail;
}

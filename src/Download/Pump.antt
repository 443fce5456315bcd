-- ===== src/Download/Pump.antt =====
-- triAI-Engine/src/download.rs: the loop that writes a response to the part.
use mathlib.Core.List.{append_assoc, append-nil}
use carlo_one_core.Prelude.{
  ℕ, ◌+◌, ◌-◌, ◌≤◌, ◌≡◌, refl, sym, ap, subst, ◌∙◌, inl, inr, some, List, [], ◌++◌, ◌==◌,
  if◌then◌else◌, Text, length, length-append, u64_max, wrap64, arith, Bool-cases,
}
use carlo_one_core.Staging.Files.{get}
use carlo_one_core.Staging.Kept.{AllKept}
use carlo_one_core.Staging.Calls.{discard-IsUnseen}
use carlo_one_core.Staging.Parts.{get-append, append-AllKept}
use carlo_one_core.Staging.{part_path, append}
use carlo_one_core.Download.{
  Download, downloading, cancelled, Body, ends, cancels, breaks, write_fails, reads, System,
  Transfer, received, stopped, broken, pump,
}

-- The bytes of a response, up to a read of none.
unfoldable pub body_bytes : Body → List ℕ
body_bytes ends = []
body_bytes cancels = []
body_bytes breaks = []
body_bytes (write_fails bytes) = []
body_bytes (reads bytes next) =
    let rest = body_bytes next in if length bytes == 0 then [] else bytes ++ rest

-- What the loop leaves, by how it ends.
abbrev pub PumpedAs : Text → ℕ → List ℕ → Download → Transfer → Type 0
PumpedAs id generation content e received =
    (get (part_path id generation) e.dir ≡ some content)
    × (e.phase ≡ downloading)
    × (e.bytes_downloaded ≡ length content)
PumpedAs id generation content e stopped = e.phase ≡ cancelled
PumpedAs id generation content e broken = e.phase ≡ downloading

pub record Pumped (id : Text) (generation : ℕ) (content : List ℕ) (s : Download)
    (r : Download × Transfer) : Type 0 where
  pub kept : AllKept r.0.dir
  pub target : r.0.target ≡ s.target
  pub total : r.0.total_bytes ≡ s.total_bytes
  pub how : PumpedAs id generation content r.0 r.1

pub record IsFilled (id : Text) (generation : ℕ) (old : List ℕ) (s : Download) : Type 0 where
  pub kept : AllKept s.dir
  pub part : get (part_path id generation) s.dir ≡ some old
  pub phase : s.phase ≡ downloading
  pub counted : s.bytes_downloaded ≡ length old

-- A read of nothing ends the loop.
received_here :
    (id : Text) (generation : ℕ) (old : List ℕ) (s : Download)
    → IsFilled id generation old s
    → Pumped id generation (old ++ []) s (s, received)
received_here id generation old s f = record {
  kept = f.kept;
  target = refl;
  total = refl;
  how = (
    f.part ∙ ap some (sym (append-nil old)),
    f.phase,
    f.counted ∙ ap length (sym (append-nil old)),
  );
}

-- One more read.
appended : Text → ℕ → List ℕ → Download → Download
appended id generation bytes s = record s {
  dir = append id generation bytes s.dir;
  bytes_downloaded = wrap64 (s.bytes_downloaded + length bytes);
}

module _ (sha : List ℕ → Text) (system : System) (id : Text) (generation : ℕ) where
  appended-IsFilled :
      (bytes old : List ℕ) (s : Download)
      → IsFilled id generation old s
      → length old + length bytes ≤ u64_max
      → IsFilled id generation (old ++ bytes) (appended id generation bytes s)
  unfolding appended
  appended-IsFilled bytes old s f fits = record {
    kept = append-AllKept id generation sha bytes s.dir f.kept;
    part = get-append id generation bytes old s.dir f.part;
    phase = f.phase;
    counted = omega (arith, f.counted, length-append old bytes);
  }

  after_read :
      (bytes rest old : List ℕ) (s : Download) (r : Download × Transfer)
      → Pumped id generation ((old ++ bytes) ++ rest) (appended id generation bytes s) r
      → Pumped id generation (old ++ (bytes ++ rest)) s r
  unfolding appended
  after_read bytes rest old s r p = record {
    kept = p.kept;
    target = p.target;
    total = p.total;
    how = subst (λ c. PumpedAs id generation c r.0 r.1) (append_assoc old bytes rest) p.how;
  }

  -- The loop leaves a directory that the store has kept, and the target as it was. If it ends with
  -- the response, then the part has the bytes of the response after those that it had.
  pub pump_lem :
      (body : Body) (old : List ℕ) (s : Download)
      → IsFilled id generation old s
      → length old + length (body_bytes body) ≤ u64_max
      → Pumped id generation (old ++ body_bytes body) s (pump system id generation body s)
  unfolding pump body_bytes appended
  pump_lem ends old s f fits = received_here id generation old s f
  pump_lem cancels old s f fits = record {
    kept = elim (Bool-cases system.keeps_part) [
      | inl keeps ↦ rw keeps f.kept
      | inr goes ↦ rw goes (discard-IsUnseen sha id generation s.dir f.kept).kept
    ];
    target = refl;
    total = refl;
    how = refl;
  }
  pump_lem breaks old s f fits = record {
    kept = f.kept;
    target = refl;
    total = refl;
    how = f.phase;
  }
  pump_lem (write_fails bytes) old s f fits = record {
    kept = append-AllKept id generation sha bytes s.dir f.kept;
    target = refl;
    total = refl;
    how = f.phase;
  }
  pump_lem (reads bytes next) old s f fits = elim (Bool-cases (length bytes == 0)) [
    | inl nothing ↦ rw nothing (received_here id generation old s f)
    | inr more ↦
        let size : length (bytes ++ body_bytes next) ≤ u64_max - length old =
          omega (arith, rw more at fits) in
        rw more (
          after_read bytes (body_bytes next) old s _ (
            pump_lem next (old ++ bytes) (appended id generation bytes s)
              (appended-IsFilled bytes old s f
                (omega (arith, size, length-append bytes (body_bytes next))))
              (omega (
                arith,
                size,
                length-append bytes (body_bytes next),
                length-append old bytes,
                rw more at fits,
              ))))
  ]

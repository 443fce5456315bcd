-- ===== src/Download/Ends.antt =====
-- triAI-Engine/src/download.rs: how a download ends.
use carlo_one_core.Prelude.{
  ℕ, ◌≤◌, Bool, true, false, not, ◌||◌, ◌≡◌, refl, sym, ap, subst, ◌⊎◌, inl, inr, Option, some,
  List, if◌then◌else◌, Text, length, u64_max, arith,
}
use carlo_one_core.GgufRegistry.{inspect}
use carlo_one_core.Staging.Files.{Dir, get}
use carlo_one_core.Staging.Kept.{AllKept, remove-AllKept}
use carlo_one_core.Staging.Blocks.{IsPlain}
use carlo_one_core.Staging.Commits.{IsDigest}
use carlo_one_core.Staging.Stages.{finalize_part-Refines}
use carlo_one_core.Staging.Recovery.{restored, restore_active}
use carlo_one_core.Staging.Committed.{
  finalize_part-IsCommitted, finalize_part-restored, restore_active_lem,
}
use carlo_one_core.Staging.{part_path, bin_path, commit_path, refuses, is_done, finalize_part}
use carlo_one_core.Download.Pump.{Pumped}
use carlo_one_core.Download.{
  DownloadRequest, completed, cancelled, Download, System, Transfer, received, stopped, broken,
  is_whole, is_accepted, unless_kept, unstaged, Outcome, installed, inspected, finalized, verify,
  transferred, total, is_cancelled,
}

-- The sizes that were told are those of the bytes.
abbrev pub IsSized : DownloadRequest → Option ℕ → List ℕ → Type 0
IsSized request total content =
    (t : ℕ)
    → total ≡ some t
    → (t ≡ length content) × ((n : ℕ) → request.expected_size_bytes ≡ some n → n ≡ t)

-- A target that the download has put in place.
pub record IsInstalled (sha : List ℕ → Text) (request : DownloadRequest) (s : Download)
    (content : List ℕ) : Type 0 where
  pub target : s.target ≡ some content
  pub gguf : is_accepted (inspect content) ≡ true
  pub digest : refuses request.sha256 (sha content) ≡ false
  pub sized : IsSized request s.total_bytes content

abbrev pub EndsAs : (List ℕ → Text) → DownloadRequest → Option (List ℕ) → Outcome → Type 0
EndsAs sha request target (s, true) =
    ((s.phase ≡ completed) × (content : List ℕ) × IsInstalled sha request s content)
    ⊎ ((s.phase ≡ cancelled) × (s.target ≡ target))
EndsAs sha request target (s, false) =
    (is_cancelled s.phase ≡ false)
    × ((s.target ≡ target) ⊎ ((content : List ℕ) × IsInstalled sha request s content))

pub record EndsWell (sha : List ℕ → Text) (request : DownloadRequest) (target : Option (List ℕ))
    (r : Outcome) : Type 0 where
  pub kept : AllKept r.0.dir
  pub how : EndsAs sha request target r

unless_kept-AllKept : (b : Bool) (d e : Dir) → AllKept d → AllKept e → AllKept (unless_kept b d e)
unless_kept-AllKept true d e k l = k
unless_kept-AllKept false d e k l = l

-- Both branches of a test.
pub by_test :
    (sha : List ℕ → Text) (request : DownloadRequest) (target : Option (List ℕ)) (b : Bool)
    (x y : Outcome)
    → (b ≡ true → EndsWell sha request target x)
    → (b ≡ false → EndsWell sha request target y)
    → EndsWell sha request target (if b then x else y)
by_test sha request target true x y f g = f refl
by_test sha request target false x y f g = g refl

module _ (sha : List ℕ → Text) (system : System) (id : Text) (generation : ℕ)
    (request : DownloadRequest) where
  unstaged-AllKept : (d : Dir) → AllKept d → AllKept (unstaged system id generation d)
  unfolding unstaged
  unstaged-AllKept d k =
      let l =
        unless_kept-AllKept system.keeps_bin d _ k (remove-AllKept (bin_path id generation) d k) in
      unless_kept-AllKept system.keeps_commit _ _ l (remove-AllKept (commit_path id generation) _ l)

  -- A call that fails before the target.
  pub early :
      (s : Download)
      → AllKept s.dir
      → is_cancelled s.phase ≡ false
      → EndsWell sha request s.target (s, false)
  early s k p = record { kept = k; how = (p, inl refl) }

  installed-EndsWell :
      (s : Download) (content : List ℕ)
      → AllKept s.dir
      → is_cancelled s.phase ≡ false
      → restored sha id generation s.dir ≡ some content
      → is_accepted (inspect content) ≡ true
      → refuses request.sha256 (sha content) ≡ false
      → IsSized request s.total_bytes content
      → EndsWell sha request s.target (
          installed sha system id generation s
            (restore_active sha system.restore_stop id generation s.dir s.target))
  unfolding installed
  installed-EndsWell s content k p q g d z =
      elim (restore_active_lem sha system.restore_stop id generation s.dir s.target content q) [
        | inl e ↦ rw e (early s k p)
        | inr (true, e) ↦ rw e (record {
          kept = unstaged-AllKept s.dir k;
          how = inl (refl, content, record { target = refl; gguf = g; digest = d; sized = z });
        })
        | inr (false, e) ↦ rw e (record {
          kept = k;
          how = (p, inr (content, record { target = refl; gguf = g; digest = d; sized = z }));
        })
      ]

  inspected-EndsWell :
      (s : Download) (content : List ℕ)
      → AllKept s.dir
      → is_cancelled s.phase ≡ false
      → restored sha id generation s.dir ≡ some content
      → get (bin_path id generation) s.dir ≡ some content
      → refuses request.sha256 (sha content) ≡ false
      → IsSized request s.total_bytes content
      → EndsWell sha request s.target (inspected sha system id generation s)
  unfolding inspected
  inspected-EndsWell s content k p q b d z = rw b (
      by_test sha request s.target (system.fails_inspect || not (is_accepted (inspect content))) _ _
        (λ bad. record { kept = unstaged-AllKept s.dir k; how = (p, inl refl) })
        (λ good.
          by_test sha request s.target system.fails_models_dir _ _ (λ fails. early s k p)
            (λ there. installed-EndsWell s content k p q (ground arith) d z)))

  module _ (hex : IsDigest sha) (plain : IsPlain id generation) (content : List ℕ)
      (fits : length content ≤ u64_max) where
    verify-EndsWell :
        (s : Download)
        → AllKept s.dir
        → get (part_path id generation) s.dir ≡ some content
        → IsSized request s.total_bytes content
        → EndsWell sha request s.target (verify sha system id generation request.sha256 s)
    unfolding verify finalized
    verify-EndsWell s k q z =
        let f =
          finalize_part-Refines sha hex id generation content plain fits system.finalize_stop
            request.sha256 s.dir k q in
        by_test sha request s.target
          (is_done (finalize_part sha system.finalize_stop id generation request.sha256 s.dir).1) _
          _
          (λ ok.
            let c =
              finalize_part-IsCommitted sha id generation system.finalize_stop request.sha256
                content s.dir q ok in
            inspected-EndsWell _ content f.local.kept refl
              (finalize_part-restored sha id generation system.finalize_stop request.sha256 content
                s.dir hex k plain fits q ok)
              c.bytes c.right z)
          (λ bad. record { kept = f.local.kept; how = (refl, inl refl) })

    pub transferred-EndsWell :
        (content_length : Option ℕ) (resume_from : ℕ) (s : Download) (r : Download × Transfer)
        → Pumped id generation content s r
        → (is_whole content_length r.0.bytes_downloaded resume_from ≡ true
            → r.0.bytes_downloaded ≡ length content
            → IsSized request s.total_bytes content)
        → EndsWell sha request s.target
            (transferred sha system id generation request content_length resume_from r)
    unfolding transferred
    transferred-EndsWell content_length resume_from s (e, stopped) p z = record {
      kept = p.kept;
      how = inr (p.how, p.target);
    }
    transferred-EndsWell content_length resume_from s (e, broken) p z = record {
      kept = p.kept;
      how = (ap is_cancelled p.how, inl p.target);
    }
    transferred-EndsWell content_length resume_from s (e, received) p z = rw (← p.target) (
        let quiet : is_cancelled e.phase ≡ false = ap is_cancelled p.how.1 in
        by_test sha request e.target system.fails_sync _ _ (λ fails. early e p.kept quiet)
          (λ synced.
            by_test sha request e.target (is_whole content_length e.bytes_downloaded resume_from) _
              _
              (λ whole.
                verify-EndsWell e p.kept p.how.0
                  (subst (λ t. IsSized request t content) (sym p.total) (z whole p.how.2)))
              (λ torn. early e p.kept quiet)))

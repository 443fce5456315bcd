-- ===== src/Download/Delivers.antt =====
-- triAI-Engine/src/download.rs: a download that nothing disturbs.
use carlo_one_core.Prelude.{
  ℕ, ◌≤◌, Bool, true, false, not, ◌||◌, ◌≡◌, refl, ap, ◌∙◌, Option, some, List, ◌==◌, if◌then◌else◌,
  Text, length, u64_max,
}
use carlo_one_core.GgufRegistry.{inspect}
use carlo_one_core.Staging.Files.{get}
use carlo_one_core.Staging.Kept.{AllKept}
use carlo_one_core.Staging.Blocks.{IsPlain}
use carlo_one_core.Staging.Commits.{IsDigest}
use carlo_one_core.Staging.Recovery.{restored, restores, restore_active}
use carlo_one_core.Staging.Committed.{
  finalize_part-IsCommitted, finalize_part-restored, finalize_part_done, restore_active_done,
}
use carlo_one_core.Staging.{
  runs_through, part_path, bin_path, is_valid_id, refuses, is_done, finalize_part,
}
use carlo_one_core.Download.Pump.{Pumped}
use carlo_one_core.Download.{
  DownloadRequest, completed, Download, Body, ends, cancels, breaks, write_fails, reads, System,
  Transfer, received, stopped, broken, pump, is_whole, is_accepted, is_gguf_file, Outcome,
  installed, inspected, finalized, verify, transferred,
}

-- The response comes to its end.
abbrev pub IsDelivered : Body → Type 0
IsDelivered ends = Unit
IsDelivered (reads bytes next) = ((length bytes == 0) ≡ false) × IsDelivered next
IsDelivered _ = ⊥

-- No call of the system fails.
pub record IsCalm (system : System) : Type 0 where
  pub opens : system.fails_open ≡ false
  pub discards : system.fails_discard ≡ false
  pub reopens : system.fails_reopen ≡ false
  pub syncs : system.fails_sync ≡ false
  pub finalizes : system.finalize_stop ≡ runs_through
  pub inspects : system.fails_inspect ≡ false
  pub makes_dir : system.fails_models_dir ≡ false
  pub restored_to : system.restore_stop ≡ restores

abbrev pub Delivers : List ℕ → Outcome → Type 0
Delivers content r = (r.1 ≡ true) × (r.0.phase ≡ completed) × (r.0.target ≡ some content)

-- A test that does not hold, and one that does.
pub goes_on :
    (content : List ℕ) (b : Bool) (x y : Outcome)
    → b ≡ false
    → Delivers content y
    → Delivers content (if b then x else y)
goes_on content b x y e d = rw e d

pub goes_in :
    (content : List ℕ) (b : Bool) (x y : Outcome)
    → b ≡ true
    → Delivers content x
    → Delivers content (if b then x else y)
goes_in content b x y e d = rw e d

pub delivered_received :
    (system : System) (id : Text) (generation : ℕ) (body : Body) (s : Download)
    → IsDelivered body
    → (pump system id generation body s).1 ≡ received
unfolding pump
delivered_received system id generation ends s h = refl
delivered_received system id generation cancels s h = absurd h
delivered_received system id generation breaks s h = absurd h
delivered_received system id generation (write_fails bytes) s h = absurd h
delivered_received system id generation (reads bytes next) s h =
    rw h.0 (delivered_received system id generation next _ h.1)

module _ (sha : List ℕ → Text) (system : System) (id : Text) (generation : ℕ)
    (request : DownloadRequest) (hex : IsDigest sha) (plain : IsPlain id generation)
    (good : is_valid_id id ≡ true) (calm : IsCalm system) (content : List ℕ)
    (fits : length content ≤ u64_max) (gguf : is_accepted (inspect content) ≡ true)
    (digest : refuses request.sha256 (sha content) ≡ false) where
  restore_works :
      (s : Download)
      → restored sha id generation s.dir ≡ some content
      → restore_active sha system.restore_stop id generation s.dir s.target ≡ (some content, true)
  restore_works s q =
      ap (λ stop. restore_active sha stop id generation s.dir s.target) calm.restored_to
      ∙ restore_active_done sha id generation s.dir s.target content good q

  installed-Delivers :
      (s : Download) (r : Option (List ℕ) × Bool)
      → r ≡ (some content, true)
      → Delivers content (installed sha system id generation s r)
  unfolding installed
  installed-Delivers s r e = rw e (refl, refl, refl)

  inspected-Delivers :
      (s : Download)
      → restored sha id generation s.dir ≡ some content
      → get (bin_path id generation) s.dir ≡ some content
      → Delivers content (inspected sha system id generation s)
  unfolding inspected
  inspected-Delivers s q b =
      goes_on content
        (system.fails_inspect || not (is_gguf_file (get (bin_path id generation) s.dir))) _ _
        (simp (calm.inspects, b, gguf))
        (goes_on content system.fails_models_dir _ _ calm.makes_dir
          (installed-Delivers s _ (restore_works s q)))

  verify-Delivers :
      (s : Download)
      → AllKept s.dir
      → get (part_path id generation) s.dir ≡ some content
      → Delivers content (verify sha system id generation request.sha256 s)
  unfolding verify finalized
  verify-Delivers s k q =
      let ok : is_done (finalize_part sha system.finalize_stop id generation request.sha256 s.dir).1
          ≡ true =
        ap (λ stop. is_done (finalize_part sha stop id generation request.sha256 s.dir).1)
          calm.finalizes
        ∙ finalize_part_done sha id generation request.sha256 content s.dir good q digest in
      goes_in content _ _ _ ok (
        inspected-Delivers _
          (finalize_part-restored sha id generation system.finalize_stop request.sha256 content
            s.dir hex k plain fits q ok)
          (finalize_part-IsCommitted sha id generation system.finalize_stop request.sha256 content
            s.dir q ok).bytes)

  pub transferred-Delivers :
      (content_length : Option ℕ) (resume_from : ℕ) (s : Download) (r : Download × Transfer)
      → Pumped id generation content s r
      → r.1 ≡ received
      → is_whole content_length (length content) resume_from ≡ true
      → Delivers content (transferred sha system id generation request content_length resume_from r)
  unfolding transferred
  transferred-Delivers content_length resume_from s (e, stopped) p done w = cc
  transferred-Delivers content_length resume_from s (e, broken) p done w = cc
  transferred-Delivers content_length resume_from s (e, received) p done w =
      goes_on content system.fails_sync _ _ calm.syncs (
        goes_in content (is_whole content_length e.bytes_downloaded resume_from) _ _
          (ap (λ n. is_whole content_length n resume_from) p.how.2 ∙ w)
          (verify-Delivers e p.kept p.how.0))

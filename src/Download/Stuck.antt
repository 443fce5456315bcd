-- ===== src/Download/Stuck.antt =====
-- triAI-Engine/src/download.rs: a part that is complete, and that no server sends more of.
use carlo_one_core.Prelude.{
  zero, suc, ℕ, ◌+◌, ◌≤◌, ◌≡◌, refl, sym, ◌∙◌, true, Option, none, some, List, [], ◌∷◌, Text, codes,
  length, arith, Bool-cases, inl, inr,
}
use carlo_one_core.Staging.Files.{Dir, get}
use carlo_one_core.Staging.Parts.{open_part_for_resume_valid}
use carlo_one_core.Staging.{part_path, is_valid_id, open_part_for_resume}
use carlo_one_core.Download.{
  DownloadRequest, downloading, failed, Download, Response, Joined, Urls, System, Fetched, refused,
  responded, opened, concluded, try_download, run_download, fetch, max_redirects, is_redirect,
  joined_to, located, hop,
}

-- An answer that brings no bytes: an error, as for status 416, or a redirect.
abbrev pub IsEmptyHanded : Option Response → Type 0
IsEmptyHanded none = Unit
IsEmptyHanded (some r) = is_redirect r ≡ true

-- For a file of that size, requests whose range begins behind its end bring no bytes.
abbrev pub HasNothingBehind : ℕ → System → Type 0
HasNothingBehind size system =
    (k : ℕ) (url : Text) (from : ℕ) → size ≤ from → IsEmptyHanded (system.call k url from)

joined_to-refused :
    (required : Text) (next : Option Joined) (again : Text → List Text × Fetched)
    → ((url : Text) → (again url).1 ≡ refused)
    → (joined_to required next again).1 ≡ refused
joined_to-refused required none again h = refl
joined_to-refused required (some next) again h = ground (arith, h next.text)

located-refused :
    (urls : Urls) (required url : Text) (location : Option Text)
    (again : Text → List Text × Fetched)
    → ((next : Text) → (again next).1 ≡ refused)
    → (located urls required url location again).1 ≡ refused
located-refused urls required url none again h = refl
located-refused urls required url (some l) again h =
    joined_to-refused required (urls.join url l) again h

hop-refused :
    (urls : Urls) (required url : Text) (r : Option Response) (again : Text → List Text × Fetched)
    → IsEmptyHanded r
    → ((next : Text) → (again next).1 ≡ refused)
    → (hop urls required url r again).1 ≡ refused
hop-refused urls required url none again e h = refl
hop-refused urls required url (some r) again e h =
    rw e (located-refused urls required url r.location again h)

fetch-refused :
    (system : System) (urls : Urls) (required : Text) (size from left k : ℕ) (url : Text)
    → HasNothingBehind size system
    → size ≤ from
    → (fetch system urls required left k url from).1 ≡ refused
unfolding fetch
fetch-refused system urls required size from zero k url nothing behind =
    hop-refused urls required url (system.call k url from) _ (nothing k url from behind) (λ n. refl)
fetch-refused system urls required size from (suc left) k url nothing behind =
    hop-refused urls required url (system.call k url from) _ (nothing k url from behind)
      (λ n. fetch-refused system urls required size from left (k + 1) n nothing behind)

module _ (sha : List ℕ → Text) (id : Text) (generation : ℕ) (urls : Urls)
    (request : DownloadRequest) where
  -- What one run leaves of the state before it.
  record HasFailed (s t : Download) : Type 0 where
    phase : t.phase ≡ failed
    target : t.target ≡ s.target
    part : get (part_path id generation) t.dir ≡ get (part_path id generation) s.dir

  -- A handle as `create` makes it, over the files that are there.
  abbrev pub renewed : Download → Download
  renewed s = record s { phase = downloading; bytes_downloaded = 0; total_bytes = none }

  -- One download after the other of the same file from the same URL: each fails, with the target
  -- and the part as they were.
  abbrev pub AllFail : List System → Download → Type 0
  AllFail [] s = Unit
  AllFail (system ∷ later) s =
      let t = run_download sha system id generation urls request (renewed s) in
      (t.phase ≡ failed)
      × (t.target ≡ s.target)
      × (get (part_path id generation) t.dir ≡ get (part_path id generation) s.dir)
      × AllFail later t

  abbrev pub AllHaveNothingBehind : ℕ → List System → Type 0
  AllHaveNothingBehind size [] = Unit
  AllHaveNothingBehind size (system ∷ later) =
      HasNothingBehind size system × AllHaveNothingBehind size later

  opened-HasFailed :
      (system : System) (s : Download) (d : Dir) (n : ℕ)
      → HasNothingBehind n system
      → get (part_path id generation) d ≡ get (part_path id generation) s.dir
      → HasFailed s (
          concluded (
            opened sha system id generation urls (codes "https") request (renewed s) (some (d, n))))
  unfolding opened responded
  opened-HasFailed system s d n nothing kept =
      let empty =
        fetch-refused system urls (codes "https") n n max_redirects 0 request.url nothing
          (omega arith) in
      rw empty (elim (Bool-cases system.fails_open) [
        | inl shut ↦ rw shut (record { phase = refl; target = refl; part = refl })
        | inr opens ↦ rw opens (record { phase = refl; target = refl; part = kept })
      ])

  run_download-HasFailed :
      (system : System) (s : Download) (part : List ℕ)
      → is_valid_id id ≡ true
      → get (part_path id generation) s.dir ≡ some part
      → HasNothingBehind (length part) system
      → HasFailed s (run_download sha system id generation urls request (renewed s))
  unfolding run_download try_download
  run_download-HasFailed system s part good q nothing =
      let (d, opens) = open_part_for_resume_valid id generation sha s.dir good in
      let told : open_part_for_resume id generation s.dir ≡ some (d, length part) =
        opens.told ∙ rw q refl in
      rw told (opened-HasFailed system s d (length part) nothing (opens.holds ∙ rw q refl ∙ sym q))

  -- A file of a valid name is all there in its part, but not committed. If the servers, asked for a
  -- range behind the end of the file, give an error or a redirect, then each of the downloads that
  -- follow, however many and whatever else the system answers, fails and leaves the target and the
  -- part as they were, even if a download from the first byte on would be served.
  pub complete_part_stuck :
      (size : ℕ) (systems : List System) (s : Download) (part : List ℕ)
      → is_valid_id id ≡ true
      → get (part_path id generation) s.dir ≡ some part
      → length part ≡ size
      → AllHaveNothingBehind size systems
      → AllFail systems s
  complete_part_stuck size [] s part good q whole nothing = tt
  complete_part_stuck size (system ∷ later) s part good q whole (nothing, more) =
      let failed = run_download-HasFailed system s part good q (rw whole nothing) in
      (
        failed.phase,
        failed.target,
        failed.part,
        complete_part_stuck size later _ part good (failed.part ∙ q) whole more,
      )

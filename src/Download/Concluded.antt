-- ===== src/Download/Concluded.antt =====
-- triAI-Engine/src/download.rs: how a whole download ends.
use carlo_one_core.Prelude.{
  ℕ, ◌+◌, ◌≤◌, true, false, not, ◌&&◌, ◌≡◌, refl, sym, ap, subst, ◌∙◌, ◌⊎◌, inl, inr, Option, none,
  some, List, [], ◌++◌, ◌==◌, ltb, Text, codes, length, length-append, u64_max, wrap64, arith,
}
use carlo_one_core.Staging.Files.{Dir, get}
use carlo_one_core.Staging.Kept.{AllKept}
use carlo_one_core.Staging.Blocks.{IsPlain}
use carlo_one_core.Staging.Commits.{IsDigest}
use carlo_one_core.Staging.Calls.{discard-IsUnseen}
use carlo_one_core.Staging.Parts.{open_part_for_resume_lem, get-discard_part}
use carlo_one_core.Staging.{part_path, or_empty, is_valid_id, refuses, open_part_for_resume}
use carlo_one_core.Download.Pump.{body_bytes, pump_lem, IsFilled}
use carlo_one_core.Download.{
  DownloadRequest, DownloadPhase, downloading, verifying, completed, failed, cancelled, Download,
  Response, Urls, System, Fetched, refused, answered, is_whole, Outcome, header_number, total,
  is_expected, received_from, restarted, responded, opened, try_download, is_cancelled, concluded,
  run_download, fetch, max_redirects,
}
use carlo_one_core.Download.Ends.{
  IsSized, IsInstalled, EndsWell, by_test, early, transferred-EndsWell,
}

some_number : {a b : ℕ} → some a ≡ some b → a ≡ b
some_number e = cc

as_expected :
    (expected : Option ℕ) (told n : ℕ)
    → is_expected expected (some told) ≡ true
    → expected ≡ some n
    → n ≡ told
as_expected none told n h e = cc
as_expected (some m) told n h e = let f = some_number e in ground arith

-- What the server told is the size of the bytes, if none of them is missing.
sized_lem :
    (request : DownloadRequest) (content_length : Option ℕ) (bytes : ℕ) (old got : List ℕ)
    → is_expected request.expected_size_bytes (total (length old) content_length) ≡ true
    → length (old ++ got) ≤ u64_max
    → is_whole content_length bytes (length old) ≡ true
    → bytes ≡ length (old ++ got)
    → IsSized request (total (length old) content_length) (old ++ got)
unfolding is_whole
sized_lem request none bytes old got x fits w q t e = cc
sized_lem request (some n) bytes old got x fits w q t e =
    let told : wrap64 (length old + n) ≡ t = some_number e in
    let size : t ≡ length (old ++ got) = ground (arith, length-append old got) in
    (size, λ m h. as_expected request.expected_size_bytes (wrap64 (length old + n)) m x h ∙ told)

module _ (sha : List ℕ → Text) (system : System) (id : Text) (generation : ℕ)
    (request : DownloadRequest) (hex : IsDigest sha) (plain : IsPlain id generation) where
  received_from-EndsWell :
      (r : Response) (old : List ℕ) (s : Download)
      → IsFilled id generation old s
      → length old + length (body_bytes r.body) ≤ u64_max
      → EndsWell sha request s.target
          (received_from sha system id generation request r s (length old))
  unfolding received_from
  received_from-EndsWell r old s f fits =
      let told = header_number r.content_length in
      let counted = record s { total_bytes = total (length old) told } in
      let whole : length (old ++ body_bytes r.body) ≤ u64_max =
        omega (arith, length-append old (body_bytes r.body)) in
      by_test sha request s.target
        (is_expected request.expected_size_bytes (total (length old) told)) _ _
        (λ right.
          transferred-EndsWell sha system id generation request hex plain (old ++ body_bytes r.body)
            whole told (length old) counted _
            (pump_lem sha system id generation r.body old counted
              (record { kept = f.kept; part = f.part; phase = f.phase; counted = f.counted }) fits)
            (λ w q. sized_lem request told _ old (body_bytes r.body) right whole w q))
        (λ wrong. early sha system id generation request counted f.kept (ap is_cancelled f.phase))

  emptied-EndsWell :
      (r : Response) (s : Download) (o : Option (Dir × ℕ))
      → AllKept s.dir
      → s.phase ≡ downloading
      → length (body_bytes r.body) ≤ u64_max
      → get (part_path id generation) s.dir ≡ none
      → o ≡ open_part_for_resume id generation s.dir
      → EndsWell sha request s.target (restarted sha system id generation request r s o)
  unfolding restarted
  emptied-EndsWell r s o k p fits gone q =
      let quiet : is_cancelled s.phase ≡ false = ap is_cancelled p in
      elim (open_part_for_resume_lem id generation sha s.dir) [
        | inl refuses ↦ rw (q, refuses) (early sha system id generation request s k quiet)
        | inr (e, opens) ↦
            rw (q, opens.told, gone)
              (by_test sha request s.target system.fails_reopen _ _
                (λ fails. early sha system id generation request s k quiet)
                (λ works.
                  received_from-EndsWell r [] _
                    (record {
                      kept = opens.keeps k;
                      part = opens.holds ∙ rw gone refl;
                      phase = p;
                      counted = refl;
                    })
                    (omega arith)))
      ]

  responded-EndsWell :
      (old : List ℕ) (s : Download) (f : Fetched)
      → IsFilled id generation old s
      → is_valid_id id ≡ true
      → ((r : Response) → f ≡ answered r → length old + length (body_bytes r.body) ≤ u64_max)
      → EndsWell sha request s.target (responded sha system id generation request s (length old) f)
  unfolding responded
  responded-EndsWell old s refused f good fits =
      early sha system id generation request s f.kept (ap is_cancelled f.phase)
  responded-EndsWell old s (answered r) f good fits =
      let small = fits r refl in
      by_test sha request s.target (ltb 0 (length old) && not (r.status == 206)) _ _
        (λ again.
          by_test sha request s.target system.fails_discard _ _
            (λ fails. early sha system id generation request s f.kept (ap is_cancelled f.phase))
            (λ works.
              emptied-EndsWell r _ _ (discard-IsUnseen sha id generation s.dir f.kept).kept f.phase
                (omega arith) (get-discard_part id generation s.dir good) refl))
        (λ goes_on. received_from-EndsWell r old s f small)

  opened-EndsWell :
      (urls : Urls) (s : Download) (o : Option (Dir × ℕ))
      → AllKept s.dir
      → s.phase ≡ downloading
      → ((r : Response)
          → (fetch system urls
              (codes "https")
              max_redirects
              0
              request.url
              (length (or_empty (get (part_path id generation) s.dir)))).1
            ≡ answered r
          → length (or_empty (get (part_path id generation) s.dir)) + length (body_bytes r.body)
            ≤ u64_max)
      → o ≡ open_part_for_resume id generation s.dir
      → EndsWell sha request s.target
          (opened sha system id generation urls (codes "https") request s o)
  unfolding opened
  opened-EndsWell urls s o k p fits q =
      let quiet : is_cancelled s.phase ≡ false = ap is_cancelled p in
      elim (open_part_for_resume_lem id generation sha s.dir) [
        | inl refuses ↦ rw (q, refuses) (early sha system id generation request s k quiet)
        | inr (e, opens) ↦
            rw (q, opens.told)
              (by_test sha request s.target system.fails_open _ _
                (λ fails. early sha system id generation request s k quiet)
                (λ works.
                  responded-EndsWell (or_empty (get (part_path id generation) s.dir)) _ _
                    (record { kept = opens.keeps k; part = opens.holds; phase = p; counted = refl })
                    opens.valid fits))
      ]

-- How a download has ended.
abbrev pub HasEnded :
    (List ℕ → Text) → DownloadRequest → Option (List ℕ) → Download → DownloadPhase → Type 0
HasEnded sha request target s downloading = ⊥
HasEnded sha request target s verifying = ⊥
HasEnded sha request target s completed = (content : List ℕ) × IsInstalled sha request s content
HasEnded sha request target s cancelled = s.target ≡ target
HasEnded sha request target s failed =
    (s.target ≡ target) ⊎ ((content : List ℕ) × IsInstalled sha request s content)

failed_ended :
    (sha : List ℕ → Text) (request : DownloadRequest) (target : Option (List ℕ)) (s : Download)
    → (s.target ≡ target) ⊎ ((content : List ℕ) × IsInstalled sha request s content)
    → HasEnded sha request target (record s { phase = failed }) failed
failed_ended sha request target s (inl e) = inl e
failed_ended sha request target s (inr (content, i)) =
    inr (content, record { target = i.target; gguf = i.gguf; digest = i.digest; sized = i.sized })

concluded-HasEnded :
    (sha : List ℕ → Text) (request : DownloadRequest) (target : Option (List ℕ)) (r : Outcome)
    → EndsWell sha request target r
    → AllKept (concluded r).dir × HasEnded sha request target (concluded r) (concluded r).phase
concluded-HasEnded sha request target (s, true) w = (
  w.kept,
  elim w.how [
    | inl (p, content, i) ↦ subst (HasEnded sha request target s) (sym p) (content, i)
    | inr (p, t) ↦ subst (HasEnded sha request target s) (sym p) t
  ],
)
concluded-HasEnded sha request target (s, false) w =
    rw w.how.0 (w.kept, failed_ended sha request target s w.how.1)

-- A download that begins over a directory that the store has kept ends, completed, failed or
-- cancelled, whatever the network and the system answer. Completed, the target holds a file that
-- has the digest that was asked for, if one was, that the GGUF reader accepts, and whose size is
-- the one that the server told, if it told one, and then also the one that was asked for.
-- Cancelled, the target is as it was; failed, it is as it was or holds such a file. The store
-- stays as it keeps itself. The name and the digests are printable ASCII, and the part with the
-- response fits in `u64`.
pub run_download-HasEnded :
    (sha : List ℕ → Text) (system : System) (id : Text) (generation : ℕ) (urls : Urls)
    (request : DownloadRequest) (s : Download)
    → IsDigest sha
    → IsPlain id generation
    → AllKept s.dir
    → s.phase ≡ downloading
    → ((r : Response)
        → (fetch system urls
            (codes "https")
            max_redirects
            0
            request.url
            (length (or_empty (get (part_path id generation) s.dir)))).1
          ≡ answered r
        → length (or_empty (get (part_path id generation) s.dir)) + length (body_bytes r.body)
          ≤ u64_max)
    → AllKept (run_download sha system id generation urls request s).dir
      × HasEnded sha request s.target
          (run_download sha system id generation urls request s)
          (run_download sha system id generation urls request s).phase
unfolding run_download try_download
run_download-HasEnded sha system id generation urls request s hex plain k p fits =
    concluded-HasEnded sha request s.target _
      (opened-EndsWell sha system id generation request hex plain urls s _ k p fits refl)

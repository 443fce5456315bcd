-- ===== src/Download/Completes.antt =====
-- triAI-Engine/src/download.rs: a whole download that nothing disturbs.
use carlo_one_core.Prelude.{
  ℕ, ◌+◌, ◌≤◌, true, false, not, ◌&&◌, ◌≡◌, refl, ◌∙◌, inl, inr, Option, none, some, List, [], ◌++◌,
  ◌==◌, ltb, if◌then◌else◌, Text, codes, length, length-append, u64_max, arith, Bool-cases,
}
use carlo_one_core.GgufRegistry.{inspect}
use carlo_one_core.Staging.Files.{Dir, get}
use carlo_one_core.Staging.Kept.{AllKept}
use carlo_one_core.Staging.Blocks.{IsPlain}
use carlo_one_core.Staging.Commits.{IsDigest}
use carlo_one_core.Staging.Calls.{discard-IsUnseen}
use carlo_one_core.Staging.Parts.{get-discard_part, open_part_for_resume_valid}
use carlo_one_core.Staging.{
  part_path, or_empty, is_valid_id, refuses, discard_part, open_part_for_resume,
}
use carlo_one_core.Download.Pump.{body_bytes, pump_lem, IsFilled}
use carlo_one_core.Download.{
  DownloadRequest, downloading, completed, Download, Response, Urls, System, answered, restarted,
  is_whole, is_accepted, Outcome, header_number, total, is_expected, received_from, responded,
  opened, try_download, concluded, run_download, fetch, max_redirects,
}
use carlo_one_core.Download.Delivers.{
  IsDelivered, IsCalm, Delivers, goes_on, goes_in, delivered_received, transferred-Delivers,
}

-- The bytes that are kept of a part: none if the server sends the whole file again.
unfoldable pub resumed : List ℕ → Response → List ℕ
resumed old r = if ltb 0 (length old) && not (r.status == 206) then [] else old

-- A response that ends, of the sizes that were told, with a file that is accepted.
pub record IsGood (sha : List ℕ → Text) (request : DownloadRequest) (r : Response) (old : List ℕ)
    : Type 0 where
  pub delivered : IsDelivered r.body
  pub fits : length old + length (body_bytes r.body) ≤ u64_max
  pub expected :
      is_expected request.expected_size_bytes (total (length old) (header_number r.content_length))
      ≡ true
  pub whole :
      is_whole (header_number r.content_length) (length (old ++ body_bytes r.body)) (length old)
      ≡ true
  pub gguf : is_accepted (inspect (old ++ body_bytes r.body)) ≡ true
  pub digest : refuses request.sha256 (sha (old ++ body_bytes r.body)) ≡ false

module _ (sha : List ℕ → Text) (system : System) (id : Text) (generation : ℕ)
    (request : DownloadRequest) (hex : IsDigest sha) (plain : IsPlain id generation)
    (good : is_valid_id id ≡ true) (calm : IsCalm system) (r : Response) where
  received_from-Delivers :
      (old : List ℕ) (s : Download)
      → IsFilled id generation old s
      → IsGood sha request r old
      → Delivers
          (old ++ body_bytes r.body)
          (received_from sha system id generation request r s (length old))
  unfolding received_from
  received_from-Delivers old s f g =
      let told = header_number r.content_length in
      let counted = record s { total_bytes = total (length old) told } in
      let fits : length (old ++ body_bytes r.body) ≤ u64_max =
        omega (arith, length-append old (body_bytes r.body), g.fits) in
      goes_in _ (is_expected request.expected_size_bytes (total (length old) told)) _ _ g.expected (
        transferred-Delivers sha system id generation request hex plain good calm
          (old ++ body_bytes r.body) fits g.gguf g.digest told (length old) counted _
          (pump_lem sha system id generation r.body old counted
            (record { kept = f.kept; part = f.part; phase = f.phase; counted = f.counted }) g.fits)
          (delivered_received system id generation r.body counted g.delivered) g.whole)

  restarted-Delivers :
      (s : Download) (o : Option (Dir × ℕ))
      → AllKept s.dir
      → s.phase ≡ downloading
      → get (part_path id generation) s.dir ≡ none
      → IsGood sha request r []
      → o ≡ open_part_for_resume id generation s.dir
      → Delivers (body_bytes r.body) (restarted sha system id generation request r s o)
  unfolding restarted
  restarted-Delivers s o k p gone g q =
      let (e, opens) = open_part_for_resume_valid id generation sha s.dir good in
      rw (q, opens.told, gone)
        (goes_on _ system.fails_reopen _ _ calm.reopens (
          received_from-Delivers [] _
            (record {
              kept = opens.keeps k;
              part = opens.holds ∙ rw gone refl;
              phase = p;
              counted = refl;
            })
            g))

  responded-Delivers :
      (old : List ℕ) (s : Download)
      → IsFilled id generation old s
      → IsGood sha request r (resumed old r)
      → Delivers
          (resumed old r ++ body_bytes r.body)
          (responded sha system id generation request s (length old) (answered r))
  unfolding responded resumed
  responded-Delivers old s f g = elim (Bool-cases (ltb 0 (length old) && not (r.status == 206))) [
    | inl again ↦ rw again (
        goes_on _ system.fails_discard _ _ calm.discards (
          restarted-Delivers (record s { dir = discard_part id generation s.dir }) _
            (discard-IsUnseen sha id generation s.dir f.kept).kept f.phase
            (get-discard_part id generation s.dir good) (rw again at g) refl))
    | inr on ↦ rw on (received_from-Delivers old s f (rw on at g))
  ]

  opened-Delivers :
      (urls : Urls) (s : Download) (o : Option (Dir × ℕ))
      → AllKept s.dir
      → s.phase ≡ downloading
      → (fetch system urls
          (codes "https")
          max_redirects
          0
          request.url
          (length (or_empty (get (part_path id generation) s.dir)))).1
        ≡ answered r
      → IsGood sha request r (resumed (or_empty (get (part_path id generation) s.dir)) r)
      → o ≡ open_part_for_resume id generation s.dir
      → Delivers
          (resumed (or_empty (get (part_path id generation) s.dir)) r ++ body_bytes r.body)
          (opened sha system id generation urls (codes "https") request s o)
  unfolding opened
  opened-Delivers urls s o k p answer g q =
      let (e, opens) = open_part_for_resume_valid id generation sha s.dir good in
      rw (q, opens.told, answer)
        (goes_on _ system.fails_open _ _ calm.opens (
          responded-Delivers (or_empty (get (part_path id generation) s.dir)) _
            (record { kept = opens.keeps k; part = opens.holds; phase = p; counted = refl }) g))

concluded-done :
    (content : List ℕ) (o : Outcome)
    → Delivers content o
    → ((concluded o).phase ≡ completed) × ((concluded o).target ≡ some content)
concluded-done content (s, true) d = (d.1, d.2)
concluded-done content (s, false) d = cc

-- A download that nothing disturbs completes: over a directory that the store has kept, with a
-- valid name, and a name and digests of printable ASCII, if the redirects end with a response that
-- comes to its end, has the sizes and the digest that were told and asked for and is a file that
-- the GGUF reader accepts, then the target holds exactly the bytes that were in the part and those
-- of the response, or those of the response alone if the server does not go on from the part.
pub run_download_delivers :
    (sha : List ℕ → Text) (system : System) (id : Text) (generation : ℕ) (urls : Urls)
    (request : DownloadRequest) (r : Response) (s : Download)
    → IsDigest sha
    → IsPlain id generation
    → is_valid_id id ≡ true
    → IsCalm system
    → AllKept s.dir
    → s.phase ≡ downloading
    → (fetch system urls
        (codes "https")
        max_redirects
        0
        request.url
        (length (or_empty (get (part_path id generation) s.dir)))).1
      ≡ answered r
    → IsGood sha request r (resumed (or_empty (get (part_path id generation) s.dir)) r)
    → ((run_download sha system id generation urls request s).phase ≡ completed)
      × ((run_download sha system id generation urls request s).target
          ≡ some (resumed (or_empty (get (part_path id generation) s.dir)) r ++ body_bytes r.body))
unfolding run_download try_download
run_download_delivers sha system id generation urls request r s hex plain good calm k p answer g =
    concluded-done _ _ (
      opened-Delivers sha system id generation request hex plain good calm r urls s _ k p answer g
        refl)

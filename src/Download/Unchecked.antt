-- ===== src/Download/Unchecked.antt =====
-- triAI-Engine/src/download.rs: the size that was asked for, if the server tells none.
use carlo_one_core.Prelude.{
  ℕ, ◌+◌, ◌≤◌, ◌≡◌, ap, none, some, List, [], ◌++◌, arith, true, false, Text, codes, length,
  u64_max,
}
use carlo_one_core.GgufRegistry.{inspect}
use carlo_one_core.Staging.Files.{get}
use carlo_one_core.Staging.Kept.{AllKept}
use carlo_one_core.Staging.Blocks.{IsPlain}
use carlo_one_core.Staging.Commits.{IsDigest}
use carlo_one_core.Staging.{part_path, is_valid_id, refuses}
use carlo_one_core.Download.Pump.{body_bytes}
use carlo_one_core.Download.Delivers.{IsCalm, IsDelivered}
use carlo_one_core.Download.Completes.{IsGood, resumed, run_download_delivers}
use carlo_one_core.Download.{
  DownloadRequest, downloading, completed, Download, Response, Urls, System, answered, is_accepted,
  is_whole, is_expected, header_number, total, run_download, fetch, max_redirects,
}

IsGood-without_length :
    (sha : List ℕ → Text) (request : DownloadRequest) (r : Response) (old : List ℕ) (n : ℕ)
    → r.content_length ≡ none
    → IsDelivered r.body
    → length old + length (body_bytes r.body) ≤ u64_max
    → is_accepted (inspect (old ++ body_bytes r.body)) ≡ true
    → refuses request.sha256 (sha (old ++ body_bytes r.body)) ≡ false
    → IsGood sha (record request { expected_size_bytes = some n }) r old
unfolding is_whole
IsGood-without_length sha request r old n silent delivered fits gguf digest = record {
  delivered = delivered;
  fits = fits;
  expected = ap (λ h. is_expected (some n) (total (length old) (header_number h))) silent;
  whole =
      ap (λ h. is_whole (header_number h) (length (old ++ body_bytes r.body)) (length old)) silent;
  gguf = gguf;
  digest = digest;
}

-- A download that nothing disturbs, without a part and with a valid printable name, over a
-- directory that the store has kept: a response without a content length that comes to its end,
-- with the digest that was asked for and a header that the GGUF reader accepts, completes it for
-- any expected size, whatever the size of its bytes.
pub expected_size_unchecked :
    (sha : List ℕ → Text) (system : System) (id : Text) (generation : ℕ) (urls : Urls)
    (request : DownloadRequest) (r : Response) (s : Download) (n : ℕ)
    → IsDigest sha
    → IsPlain id generation
    → is_valid_id id ≡ true
    → IsCalm system
    → AllKept s.dir
    → s.phase ≡ downloading
    → get (part_path id generation) s.dir ≡ none
    → (fetch system urls (codes "https") max_redirects 0 request.url 0).1 ≡ answered r
    → r.content_length ≡ none
    → IsDelivered r.body
    → length (body_bytes r.body) ≤ u64_max
    → is_accepted (inspect (body_bytes r.body)) ≡ true
    → refuses request.sha256 (sha (body_bytes r.body)) ≡ false
    → ((run_download sha system id generation urls
          (record request { expected_size_bytes = some n })
          s).phase
        ≡ completed)
      × ((run_download sha system id generation urls
            (record request { expected_size_bytes = some n })
            s).target
          ≡ some (body_bytes r.body))
unfolding resumed
expected_size_unchecked sha system id generation urls request r s n hex plain good calm k p gone
      answer silent delivered fits gguf digest =
    rw gone at (
      run_download_delivers sha system id generation urls
        (record request { expected_size_bytes = some n }) r s hex plain good calm k p
        (rw gone answer)
        (rw gone
          (IsGood-without_length sha request r [] n silent delivered (omega arith) gguf digest)))

-- ===== src/Download/Tests.antt =====
-- Runs of a download.
use carlo_one_core.Prelude.{
  ℕ, zero, suc, leb, le→leb, ◌≤◌, true, false, ◌≡◌, refl, sym, ap, ◌∙◌, inl, inr, Option, none,
  some, List, [], ◌∷◌, ◌++◌, ◌==◌, if◌then◌else◌, Text, codes, length, bytes_eq, starts_with,
  contains, parse_u64, to_ascii_lowercase, arith, Bool-cases,
}
use carlo_one_core.GgufRegistry.{
  inspect, signed, versioned, header_from, read_entries, empty_metadata,
}
use carlo_one_core.Chunk.Gguf.{and_then, read_exact, read_u32, read_u64, from_le}
use carlo_one_core.Staging.Files.{get, same_file}
use carlo_one_core.Staging.Kept.{AllKept}
use carlo_one_core.Staging.Blocks.{IsPlain}
use carlo_one_core.Staging.Commits.{IsDigest}
use carlo_one_core.Staging.Recovery.{restores}
use carlo_one_core.Staging.{runs_through, part_path, is_valid_id}
use carlo_one_core.Download.Pump.{body_bytes}
use carlo_one_core.Download.Fetch.{ReadsBack, AllHttps, fetch_https}
use carlo_one_core.Download.Completes.{resumed, run_download_delivers}
use carlo_one_core.Download.Concluded.{HasEnded, run_download-HasEnded}
use carlo_one_core.Download.Manager.{
  invalid_request, new, perform_all, create, refusal, validate_file_name, ensure_ssd_headroom,
  id_text, Call, creates, cancels,
}
use carlo_one_core.Download.Manager.Ids.{IsFresh, create-IsFresh}
use carlo_one_core.Download.Unchecked.{expected_size_unchecked}
use carlo_one_core.Download.Stuck.{HasNothingBehind, AllFail, complete_part_stuck}
use carlo_one_core.Download.{
  DownloadRequest, downloading, completed, Download, ends, reads, Response, Joined, Urls, System,
  Fetched, refused, answered, fetch, max_redirects, run_download, is_whole,
}

-- A digest for the runs, which tells files of 24 bytes from others.
abbrev test_sha : List ℕ → Text
test_sha content = if length content == 24 then codes "aa" else codes "bb"

test_sha-IsDigest : IsDigest test_sha
unfolding IsDigest
test_sha-IsDigest content = elim (Bool-cases (length content == 24)) [
  | inl e ↦ rw e (omega arith, omega arith, (omega arith, omega arith, tt))
  | inr e ↦ rw e (omega arith, omega arith, (omega arith, omega arith, tt))
]

-- An empty GGUF file.
abbrev header_bytes : List ℕ
header_bytes = 71 ∷ 71 ∷ 85 ∷ 70 ∷ 3 ∷ 0 ∷ 0 ∷ 0 ∷ []

abbrev count_bytes : List ℕ
count_bytes = 0 ∷ 0 ∷ 0 ∷ 0 ∷ 0 ∷ 0 ∷ 0 ∷ 0 ∷ 0 ∷ 0 ∷ 0 ∷ 0 ∷ 0 ∷ 0 ∷ 0 ∷ 0 ∷ []

abbrev scheme_of : Text → Option Text
scheme_of url = if starts_with url (codes "https:") then some (codes "https") else none

abbrev join : Text → Text → Option Joined
join url location =
    if starts_with location (codes "https:")
    then some (record { text = location; scheme = codes "https" })
    else none

abbrev test_urls : Urls
test_urls = record { scheme_of = scheme_of; has_host = λ url. true; join = join }

url_at : Joined → Option Joined → Text
url_at other none = other.text
url_at other (some next) = next.text

some_joined : (a b : Joined) → some a ≡ some b → (a.text ≡ b.text) × (a.scheme ≡ b.scheme)
some_joined a b e = let f : a ≡ b = cc in (ap (λ j. j.text) f, ap (λ j. j.scheme) f)

test_urls-ReadsBack : ReadsBack test_urls
test_urls-ReadsBack url location next e =
    elim (Bool-cases (starts_with location (codes "https:"))) [
      | inl https ↦
          let f =
            some_joined (record { text = location; scheme = codes "https" }) next (rw https at e) in
          rw (← f.0, https) (ap some f.1)
      | inr other ↦ let f : none ≡ some next = rw other at e in cc
    ]

abbrev moved_response : Response
moved_response = record {
  status = 302;
  location = some (codes "https://b/m");
  content_length = none;
  body = ends;
}

abbrev good_response : Response
good_response = record {
  status = 200;
  location = none;
  content_length = some (codes "24");
  body = reads header_bytes (reads count_bytes ends);
}

abbrev test_system : System
test_system = record {
  call = λ k url from. if k == 0 then some moved_response else some good_response;
  fails_open = false;
  fails_discard = false;
  fails_reopen = false;
  keeps_part = false;
  fails_sync = false;
  finalize_stop = runs_through;
  fails_inspect = false;
  keeps_bin = false;
  keeps_commit = false;
  fails_models_dir = false;
  restore_stop = restores;
}

abbrev test_request : DownloadRequest
test_request = record {
  url = codes "https://a/m";
  file_name = codes "m";
  expected_size_bytes = some 24;
  sha256 = some (codes "AA");
}

abbrev test_start : Download
test_start = record {
  dir = [];
  target = some (1 ∷ []);
  phase = downloading;
  bytes_downloaded = 0;
  total_bytes = none;
}

m-IsPlain : IsPlain (codes "m") 1
m-IsPlain = record { printable = (omega arith, omega arith, tt); in_u64 = omega arith }

fetch_https_example :
    (length (fetch test_system test_urls (codes "https") max_redirects 0 (codes "https://a/m") 0).0
      ≤ 6)
    × AllHttps test_urls
        (fetch test_system test_urls (codes "https") max_redirects 0 (codes "https://a/m") 0).0
unfolding starts_with
fetch_https_example =
    fetch_https test_system test_urls (codes "https://a/m") 0 test_urls-ReadsBack refl

run_download_delivers_example :
    ((run_download test_sha test_system (codes "m") 1 test_urls test_request test_start).phase
      ≡ completed)
    × ((run_download test_sha test_system (codes "m") 1 test_urls test_request test_start).target
        ≡ some (header_bytes ++ count_bytes))
unfolding is_valid_id bytes_eq contains starts_with to_ascii_lowercase fetch resumed get body_bytes
    is_whole parse_u64 inspect signed versioned header_from read_entries empty_metadata and_then
    read_exact read_u32 read_u64 from_le
run_download_delivers_example =
    run_download_delivers test_sha test_system (codes "m") 1 test_urls test_request good_response
      test_start test_sha-IsDigest m-IsPlain refl
      (record {
        opens = refl;
        discards = refl;
        reopens = refl;
        syncs = refl;
        finalizes = refl;
        inspects = refl;
        makes_dir = refl;
        restored_to = refl;
      })
      tt refl refl
      (record {
        delivered = (refl, (refl, tt));
        fits = omega arith;
        expected = refl;
        whole = refl;
        gguf = refl;
        digest = refl;
      })

response_size : Fetched → ℕ
response_size refused = 0
response_size (answered r) = length (body_bytes r.body)

same_size : (r : Response) → answered good_response ≡ answered r → length (body_bytes r.body) ≡ 24
unfolding response_size body_bytes
same_size r e = sym (ap response_size e)

first_answer :
    (fetch test_system test_urls (codes "https") max_redirects 0 (codes "https://a/m") 0).1
    ≡ answered good_response
unfolding fetch bytes_eq starts_with
first_answer = refl

run_download-HasEnded_example :
    AllKept (run_download test_sha test_system (codes "m") 1 test_urls test_request test_start).dir
    × HasEnded test_sha test_request
        (some (1 ∷ []))
        (run_download test_sha test_system (codes "m") 1 test_urls test_request test_start)
        (run_download test_sha test_system (codes "m") 1 test_urls test_request test_start).phase
unfolding get
run_download-HasEnded_example =
    run_download-HasEnded test_sha test_system (codes "m") 1 test_urls test_request test_start
      test_sha-IsDigest m-IsPlain tt refl (λ r e. omega (arith, same_size r (sym first_answer ∙ e)))

-- The part of a download that stopped before it was committed.
abbrev whole_part : Download
whole_part = record test_start { dir = (part_path (codes "m") 1, header_bytes ++ count_bytes) ∷ [] }

-- A server of the file of 24 bytes, which leads elsewhere and then fails when it is asked for more.
abbrev no_more : System
no_more = record test_system {
  call = λ k url from.
      if leb 24 from then (if k == 0 then some moved_response else none) else some good_response;
}

abbrev no_more_runs : List System
no_more_runs = no_more ∷ record no_more { fails_open = true } ∷ no_more ∷ []

no_more-HasNothingBehind : HasNothingBehind 24 no_more
no_more-HasNothingBehind zero url from behind = rw (le→leb 24 from behind) refl
no_more-HasNothingBehind (suc k) url from behind =
    let later : (suc k == 0) ≡ false = ground arith in rw (le→leb 24 from behind, later) tt

complete_part_stuck_example :
    AllFail test_sha (codes "m") 1 test_urls test_request no_more_runs whole_part
unfolding is_valid_id bytes_eq contains starts_with get same_file length
complete_part_stuck_example =
    complete_part_stuck test_sha (codes "m") 1 test_urls test_request 24 no_more_runs whole_part
      (header_bytes ++ count_bytes) refl refl refl
      (no_more-HasNothingBehind, (no_more-HasNothingBehind, (no_more-HasNothingBehind, tt)))

abbrev plain_request : DownloadRequest
plain_request = record test_request { sha256 = none }

abbrev earlier_calls : List Call
earlier_calls = creates test_urls (some 100000) plain_request ∷ cancels (id_text 1) ∷ []

create-IsFresh_example :
    IsFresh test_urls plain_request
      (perform_all earlier_calls (new 512))
      (create test_urls (some 100000) plain_request (perform_all earlier_calls (new 512))).0
      (create test_urls (some 100000) plain_request (perform_all earlier_calls (new 512))).1
create-IsFresh_example =
    create-IsFresh earlier_calls 512 test_urls (some 100000) plain_request (omega arith)

accepted_run : refusal test_urls (some 100000) 512 plain_request ≡ none
unfolding refusal validate_file_name bytes_eq contains starts_with ensure_ssd_headroom
accepted_run = refl

full_run : refusal test_urls (some 511) 512 plain_request ≡ some invalid_request
unfolding refusal validate_file_name bytes_eq contains starts_with ensure_ssd_headroom
full_run = refl

abbrev silent_response : Response
silent_response = record good_response { content_length = none }

expected_size_unchecked_example :
    ((run_download test_sha
        (record test_system { call = λ k url from. some silent_response })
        (codes "m")
        1
        test_urls
        (record test_request { expected_size_bytes = some 999 })
        test_start).phase
      ≡ completed)
    × ((run_download test_sha
          (record test_system { call = λ k url from. some silent_response })
          (codes "m")
          1
          test_urls
          (record test_request { expected_size_bytes = some 999 })
          test_start).target
        ≡ some (header_bytes ++ count_bytes))
unfolding is_valid_id bytes_eq contains starts_with to_ascii_lowercase fetch get body_bytes inspect
    signed versioned header_from read_entries empty_metadata and_then read_exact read_u32 read_u64
    from_le
expected_size_unchecked_example =
    expected_size_unchecked test_sha
      (record test_system { call = λ k url from. some silent_response }) (codes "m") 1 test_urls
      test_request silent_response test_start 999 test_sha-IsDigest m-IsPlain refl
      (record {
        opens = refl;
        discards = refl;
        reopens = refl;
        syncs = refl;
        finalizes = refl;
        inspects = refl;
        makes_dir = refl;
        restored_to = refl;
      })
      tt refl refl refl refl (refl, (refl, tt)) (omega arith) refl refl

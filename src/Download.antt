-- ===== src/Download.antt =====
-- triAI-Engine/src/download.rs: one download, from its first request to the model file. What the
-- network and the system answer is the record System, the crate `url` the record Urls.
pub mod Address
pub mod Completes
pub mod Concluded
pub mod Delivers
pub mod Ends
pub mod Fetch
pub mod Manager
pub mod Pump
pub mod Stuck
pub mod Unchecked
mod Tests
use carlo_one_core.Prelude.{
  ℕ, zero, suc, ◌+◌, ◌-◌, ◌%◌, Bool, true, false, not, ◌&&◌, ◌||◌, Option, none, some, List, [],
  ◌∷◌, leb, ltb, ◌==◌, if◌then◌else◌, codes, Text, bytes_eq, length, parse_u64, wrap64, u64_mod,
}
use carlo_one_core.GgufRegistry.{GgufMetadata, inspect}
use carlo_one_core.Staging.Files.{Dir, get, remove}
use carlo_one_core.Staging.Recovery.{RestoreStop, restore_active}
use carlo_one_core.Staging.{
  Stop, StageResult, is_done, bin_path, commit_path, open_part_for_resume, discard_part, append,
  finalize_part,
}

abbrev pub max_redirects : ℕ
max_redirects = 5

pub record DownloadRequest : Type 0 where
  pub url : Text
  pub file_name : Text
  pub expected_size_bytes : Option ℕ
  pub sha256 : Option Text

pub data DownloadPhase : Type 0 where
  downloading verifying completed failed cancelled : DownloadPhase

-- The handle, without its message, with the files that the download works on.
pub record Download : Type 0 where
  pub dir : Dir
  pub target : Option (List ℕ)
  pub phase : DownloadPhase
  pub bytes_downloaded : ℕ
  pub total_bytes : Option ℕ

-- What the reads of a response give, with the moment at which a cancellation is seen, and the part
-- of a write that fails.
pub data Body : Type 0 where
  ends cancels breaks : Body
  write_fails : List ℕ → Body
  reads : List ℕ → Body → Body

pub record Response : Type 0 where
  pub status : ℕ
  pub location : Option Text
  pub content_length : Option Text
  pub body : Body

-- A URL that a Location header leads to, as text, and its scheme.
pub record Joined : Type 0 where
  pub text : Text
  pub scheme : Text

pub record Urls : Type 0 where
  pub scheme_of : Text → Option Text
  pub has_host : Text → Bool
  pub join : Text → Text → Option Joined

-- The answer to a request, by its number, its URL and where its range begins, and which other
-- calls fail.
pub record System : Type 0 where
  pub call : ℕ → Text → ℕ → Option Response
  pub fails_open : Bool
  pub fails_discard : Bool
  pub fails_reopen : Bool
  pub keeps_part : Bool
  pub fails_sync : Bool
  pub finalize_stop : Stop
  pub fails_inspect : Bool
  pub keeps_bin : Bool
  pub keeps_commit : Bool
  pub fails_models_dir : Bool
  pub restore_stop : RestoreStop

pub data Fetched : Type 0 where
  refused : Fetched
  answered : Response → Fetched

abbrev pub is_redirect : Response → Bool
is_redirect r = leb 300 r.status && ltb r.status 400

-- The rest of the loop for the URL that a redirect leads to, if it may be followed.
abbrev pub joined_to : Text → Option Joined → (Text → List Text × Fetched) → List Text × Fetched
joined_to required none again = ([], refused)
joined_to required (some next) again =
    if bytes_eq next.scheme required then again next.text else ([], refused)

abbrev pub located :
    Urls → Text → Text → Option Text → (Text → List Text × Fetched) → List Text × Fetched
located urls required url none again = ([], refused)
located urls required url (some location) again = joined_to required (urls.join url location) again

abbrev pub hop :
    Urls → Text → Text → Option Response → (Text → List Text × Fetched) → List Text × Fetched
hop urls required url none again = ([], refused)
hop urls required url (some r) again =
    if is_redirect r then located urls required url r.location again else ([], answered r)

abbrev pub asked : Text → List Text × Fetched → List Text × Fetched
asked url (urls, fetched) = (url ∷ urls, fetched)

-- The loop over the redirects: the URLs that were asked for, and the last answer. `left` is how
-- many redirects may still be followed, and `k` the number of the call.
pub fetch : System → Urls → Text → ℕ → ℕ → Text → ℕ → List Text × Fetched
fetch system urls required zero k url resume_from =
    asked url (hop urls required url (system.call k url resume_from) (λ next. ([], refused)))
fetch system urls required (suc left) k url resume_from =
    let again = λ (next : Text). fetch system urls required left (k + 1) next resume_from in
    asked url (hop urls required url (system.call k url resume_from) again)

pub data Transfer : Type 0 where
  received stopped broken : Transfer

pub pump : System → Text → ℕ → Body → Download → Download × Transfer
pump system id generation ends s = (s, received)
pump system id generation cancels s = (
  record s {
    dir = if system.keeps_part then s.dir else discard_part id generation s.dir;
    phase = cancelled;
  },
  stopped,
)
pump system id generation breaks s = (s, broken)
pump system id generation (write_fails bytes) s =
    (record s { dir = append id generation bytes s.dir }, broken)
pump system id generation (reads bytes next) s =
    let rest = pump system id generation next (record s {
      dir = append id generation bytes s.dir;
      bytes_downloaded = wrap64 (s.bytes_downloaded + length bytes);
    }) in
    if length bytes == 0 then (s, received) else rest

-- A `u64` difference, which wraps.
pub is_whole : Option ℕ → ℕ → ℕ → Bool
is_whole none bytes resume_from = true
is_whole (some expected) bytes resume_from = (bytes + (u64_mod - resume_from)) % u64_mod == expected

abbrev pub is_accepted : Option GgufMetadata → Bool
is_accepted none = false
is_accepted (some m) = true

abbrev pub is_gguf_file : Option (List ℕ) → Bool
is_gguf_file none = false
is_gguf_file (some content) = is_accepted (inspect content)

-- Files are removed, and an error of it is ignored.
abbrev pub unless_kept : Bool → Dir → Dir → Dir
unless_kept true before after = before
unless_kept false before after = after

pub unstaged : System → Text → ℕ → Dir → Dir
unstaged system id generation d =
    let e = unless_kept system.keeps_bin d (remove (bin_path id generation) d) in
    unless_kept system.keeps_commit e (remove (commit_path id generation) e)

-- Whether the call succeeds, with what it leaves.
abbrev pub Outcome : Type 0
Outcome = Download × Bool

abbrev pub header_number : Option Text → Option ℕ
header_number none = none
header_number (some value) = parse_u64 value

abbrev pub total : ℕ → Option ℕ → Option ℕ
total resume_from none = none
total resume_from (some len) = some (wrap64 (resume_from + len))

abbrev pub is_expected : Option ℕ → Option ℕ → Bool
is_expected (some expected) (some total) = expected == total
is_expected _ _ = true

abbrev pub is_cancelled : DownloadPhase → Bool
is_cancelled cancelled = true
is_cancelled _ = false

abbrev pub concluded : Outcome → Download
concluded (s, true) = s
concluded (s, false) = if is_cancelled s.phase then s else record s { phase = failed }

module _ (sha : List ℕ → Text) (system : System) (id : Text) (generation : ℕ) where
  pub installed : Download → Option (List ℕ) × Bool → Outcome
  installed s (target, false) = (record s { target = target }, false)
  installed s (target, true) = (
    record s { dir = unstaged system id generation s.dir; target = target; phase = completed },
    true,
  )

  pub inspected : Download → Outcome
  inspected s =
      if system.fails_inspect || not (is_gguf_file (get (bin_path id generation) s.dir))
      then (record s { dir = unstaged system id generation s.dir }, false)
      else if system.fails_models_dir
      then (s, false)
      else installed s (restore_active sha system.restore_stop id generation s.dir s.target)

  pub finalized : Download → Dir × StageResult → Outcome
  finalized s (d, r) =
      if is_done r then inspected (record s { dir = d }) else (record s { dir = d }, false)

  pub verify : Option Text → Download → Outcome
  verify expected s =
      finalized (record s { phase = verifying })
        (finalize_part sha system.finalize_stop id generation expected s.dir)

  pub transferred : DownloadRequest → Option ℕ → ℕ → Download × Transfer → Outcome
  transferred request content_length resume_from (s, stopped) = (s, true)
  transferred request content_length resume_from (s, broken) = (s, false)
  transferred request content_length resume_from (s, received) =
      if system.fails_sync
      then (s, false)
      else if is_whole content_length s.bytes_downloaded resume_from
      then verify request.sha256 s
      else (s, false)

  pub received_from : DownloadRequest → Response → Download → ℕ → Outcome
  received_from request r s resume_from =
      let content_length = header_number r.content_length in
      let counted = record s { total_bytes = total resume_from content_length } in
      if is_expected request.expected_size_bytes counted.total_bytes
      then transferred request content_length resume_from (pump system id generation r.body counted)
      else (counted, false)

  -- The part is opened again, without what was in it.
  pub restarted : DownloadRequest → Response → Download → Option (Dir × ℕ) → Outcome
  restarted request r s none = (s, false)
  restarted request r s (some (d, len)) =
      if system.fails_reopen
      then (s, false)
      else received_from request r (record s { dir = d; bytes_downloaded = len }) len

  pub responded : DownloadRequest → Download → ℕ → Fetched → Outcome
  responded request s resume_from refused = (s, false)
  responded request s resume_from (answered r) =
      let emptied = record s { dir = discard_part id generation s.dir } in
      if ltb 0 resume_from && not (r.status == 206)
      then (if system.fails_discard
          then (s, false)
          else restarted request r emptied (open_part_for_resume id generation emptied.dir))
      else received_from request r s resume_from

  pub opened : Urls → Text → DownloadRequest → Download → Option (Dir × ℕ) → Outcome
  opened urls required request s none = (s, false)
  opened urls required request s (some (d, len)) =
      if system.fails_open
      then (s, false)
      else responded request (record s { dir = d; bytes_downloaded = len }) len
          (fetch system urls required max_redirects 0 request.url len).1

  pub try_download : Urls → Text → DownloadRequest → Download → Outcome
  try_download urls required request s =
      opened urls required request s (open_part_for_resume id generation s.dir)

  -- Without the scan of the models that follows.
  pub run_download : Urls → DownloadRequest → Download → Download
  run_download urls request s = concluded (try_download urls (codes "https") request s)

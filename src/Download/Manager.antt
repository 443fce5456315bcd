-- ===== src/Download/Manager.antt =====
-- triAI-Engine/src/download.rs: the downloads that were asked for, by their ids. The hash of a URL,
-- which std leaves open, does not matter here.
pub mod Ids
use carlo_one_core.Prelude.{
  ℕ, ◌+◌, ◌≤◌, ◌<◌, Bool, true, false, not, ◌&&◌, ◌||◌, ◌≡◌, ◌≢◌, refl, sym, ap, ◌∙◌, inl, inr,
  Option, none, some, List, [], ◌∷◌, ◌++◌, ◌==◌, leb, ltb, if◌then◌else◌, Text, codes, bytes_eq,
  bytes_eq_iff, contains, length, decimal_text, parse_u64, parse_u64-decimal_text, wrap64, sat_add,
  div_ceil, u64_max, arith, Bool-cases,
}
use carlo_one_core.Download.{DownloadRequest, Urls}

pub data DownloadError : Type 0 where
  invalid_request not_found io : DownloadError

-- Each handle with its flag for a cancellation.
pub record DownloadManager : Type 0 where
  pub ssd_reserve_mb : ℕ
  pub handles : List (Text × Bool)
  pub next_id : ℕ

pub new : ℕ → DownloadManager
new reserve = record { ssd_reserve_mb = reserve; handles = []; next_id = 1 }

unfoldable pub validate_file_name : Text → Bool
validate_file_name name = not (
    bytes_eq name []
    || (bytes_eq name (codes ".")
        || (bytes_eq name (codes "..")
            || (contains name (codes "/")
                || (contains name (codes "\\") || contains name (codes ".."))))))

abbrev pub is_hexdigit : ℕ → Bool
is_hexdigit b = leb b'0' b && leb b b'9' || (leb b'a' b && leb b b'f' || leb b'A' b && leb b b'F')

abbrev pub all_hexdigits : Text → Bool
all_hexdigits [] = true
all_hexdigits (b ∷ rest) = is_hexdigit b && all_hexdigits rest

pub valid_sha256_hex : Text → Bool
valid_sha256_hex value = length value == 64 && all_hexdigits value

-- `free` is what is read of the free space, in MB; `none` is an error.
unfoldable pub ensure_ssd_headroom : ℕ → Option ℕ → ℕ → Option DownloadError
ensure_ssd_headroom reserve none expected_bytes = some io
ensure_ssd_headroom reserve (some free) expected_bytes =
    if ltb free (sat_add (div_ceil expected_bytes 1_048_576) reserve)
    then some invalid_request
    else none

abbrev pub headroom_for : ℕ → Option ℕ → Option ℕ → Option DownloadError
headroom_for reserve free none = none
headroom_for reserve free (some expected) = ensure_ssd_headroom reserve free expected

abbrev pub digest_refused : Option Text → Bool
digest_refused none = false
digest_refused (some sha) = not (valid_sha256_hex sha)

abbrev pub is_https : Option Text → Bool
is_https none = false
is_https (some scheme) = bytes_eq scheme (codes "https")

abbrev pub or_digest : Option DownloadError → Option Text → Option DownloadError
or_digest (some e) sha = some e
or_digest none sha = if digest_refused sha then some invalid_request else none

-- What `create` refuses a request for.
unfoldable pub refusal : Urls → Option ℕ → ℕ → DownloadRequest → Option DownloadError
refusal urls free reserve request =
    if not (validate_file_name request.file_name)
    then some invalid_request
    else if not (is_https (urls.scheme_of request.url))
    then some invalid_request
    else if not (urls.has_host request.url)
    then some invalid_request
    else or_digest (headroom_for reserve free request.expected_size_bytes) request.sha256

pub id_text : ℕ → Text
id_text n = codes "dl-" ++ decimal_text n

pub find : Text → List (Text × Bool) → Option Bool
find id [] = none
find id ((i, flag) ∷ rest) = if bytes_eq i id then some flag else find id rest

-- HashMap::insert
pub put : Text → Bool → List (Text × Bool) → List (Text × Bool)
put id flag [] = (id, flag) ∷ []
put id flag ((i, old) ∷ rest) =
    if bytes_eq i id then (i, flag) ∷ rest else (i, old) ∷ put id flag rest

pub data Created : Type 0 where
  created : Text → Created
  rejected : DownloadError → Created

pub create_or : Option DownloadError → DownloadManager → DownloadManager × Created
create_or (some e) m = (m, rejected e)
create_or none m = (
  record m { handles = put (id_text m.next_id) false m.handles; next_id = wrap64 (m.next_id + 1) },
  created (id_text m.next_id),
)

pub create : Urls → Option ℕ → DownloadRequest → DownloadManager → DownloadManager × Created
create urls free request m = create_or (refusal urls free m.ssd_reserve_mb request) m

-- The lookup of `status`, of which only the flag is kept here.
pub status : Text → DownloadManager → Option Bool
status id m = find id m.handles

pub cancel_if : Option Bool → Text → DownloadManager → DownloadManager × Option DownloadError
cancel_if none id m = (m, some not_found)
cancel_if (some flag) id m = (record m { handles = put id true m.handles }, none)

pub cancel : Text → DownloadManager → DownloadManager × Option DownloadError
cancel id m = cancel_if (find id m.handles) id m

pub data Call : Type 0 where
  creates : Urls → Option ℕ → DownloadRequest → Call
  cancels : Text → Call

pub perform : Call → DownloadManager → DownloadManager
perform (creates urls free request) m = (create urls free request m).0
perform (cancels id) m = (cancel id m).0

pub perform_all : List Call → DownloadManager → DownloadManager
perform_all [] m = m
perform_all (c ∷ cs) m = perform_all cs (perform c m)

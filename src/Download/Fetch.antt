-- ===== src/Download/Fetch.antt =====
-- triAI-Engine/src/download.rs: the requests that a download makes, and their redirects.
use carlo_one_core.Prelude.{
  ℕ, zero, suc, ◌+◌, ◌≤◌, ◌≡◌, ap, ◌∙◌, inl, inr, Option, none, some, List, [], ◌∷◌, Text, codes,
  bytes_eq, bytes_eq_iff, length, arith, Bool-cases, Option-cases,
}
use carlo_one_core.Download.{
  System, Urls, Joined, Fetched, refused, is_redirect, joined_to, located, hop, asked, fetch,
  max_redirects,
}

abbrev pub AllHttps : Urls → List Text → Type 0
AllHttps urls [] = Unit
AllHttps urls (url ∷ rest) = (urls.scheme_of url ≡ some (codes "https")) × AllHttps urls rest

-- What is kept of the rest of a loop that may still make `n` requests.
record IsSafe (urls : Urls) (n : ℕ) (r : List Text × Fetched) : Type 0 where
  few : length r.0 ≤ n
  https : AllHttps urls r.0

-- The text of a URL reads back as the URL.
abbrev pub ReadsBack : Urls → Type 0
ReadsBack urls =
    (url location : Text) (next : Joined)
    → urls.join url location ≡ some next
    → urls.scheme_of next.text ≡ some next.scheme

module _ (system : System) (urls : Urls) (back : ReadsBack urls) where
  nothing-IsSafe : (n : ℕ) → IsSafe urls n ([], refused)
  nothing-IsSafe n = record { few = omega arith; https = tt }

  joined-IsSafe :
      (n : ℕ) (url location : Text) (again : Text → List Text × Fetched)
      → ((next : Text) → urls.scheme_of next ≡ some (codes "https") → IsSafe urls n (again next))
      → IsSafe urls n (joined_to (codes "https") (urls.join url location) again)
  joined-IsSafe n url location again safe = elim (Option-cases (urls.join url location)) [
    | inl e ↦ rw e (nothing-IsSafe n)
    | inr (next, e) ↦ elim (Bool-cases (bytes_eq next.scheme (codes "https"))) [
      | inl same ↦
          let https = (bytes_eq_iff next.scheme (codes "https")).0 same in
          rw (e, same) (safe next.text (back url location next e ∙ ap some https))
      | inr other ↦ rw (e, other) (nothing-IsSafe n)
    ]
  ]

  located-IsSafe :
      (n : ℕ) (url : Text) (location : Option Text) (again : Text → List Text × Fetched)
      → ((next : Text) → urls.scheme_of next ≡ some (codes "https") → IsSafe urls n (again next))
      → IsSafe urls n (located urls (codes "https") url location again)
  located-IsSafe n url none again safe = nothing-IsSafe n
  located-IsSafe n url (some location) again safe = joined-IsSafe n url location again safe

  hop-IsSafe :
      (n k from : ℕ) (url : Text) (again : Text → List Text × Fetched)
      → ((next : Text) → urls.scheme_of next ≡ some (codes "https") → IsSafe urls n (again next))
      → IsSafe urls n (hop urls (codes "https") url (system.call k url from) again)
  hop-IsSafe n k from url again safe = elim (Option-cases (system.call k url from)) [
    | inl e ↦ rw e (nothing-IsSafe n)
    | inr (r, e) ↦ elim (Bool-cases (is_redirect r)) [
      | inl moves ↦ rw (e, moves) (located-IsSafe n url r.location again safe)
      | inr stays ↦ rw (e, stays) (record { few = omega arith; https = tt })
    ]
  ]

  asked-IsSafe :
      (n : ℕ) (url : Text) (r : List Text × Fetched)
      → urls.scheme_of url ≡ some (codes "https")
      → IsSafe urls n r
      → IsSafe urls (suc n) (asked url r)
  asked-IsSafe n url (asks, f) h s = record { few = omega (arith, s.few); https = (h, s.https) }

  fetch-IsSafe :
      (left k from : ℕ) (url : Text)
      → urls.scheme_of url ≡ some (codes "https")
      → IsSafe urls (suc left) (fetch system urls (codes "https") left k url from)
  unfolding fetch
  fetch-IsSafe zero k from url h =
      asked-IsSafe 0 url _ h
        (hop-IsSafe 0 k from url (λ next. ([], refused)) (λ next e. nothing-IsSafe 0))
  fetch-IsSafe (suc left) k from url h =
      asked-IsSafe (suc left) url _ h
        (hop-IsSafe (suc left) k from url _ (λ next e. fetch-IsSafe left (k + 1) from next e))

-- A download of an https URL makes at most six requests, all of them of https URLs, if the text of
-- a URL that a redirect leads to reads back as that URL.
pub fetch_https :
    (system : System) (urls : Urls) (url : Text) (from : ℕ)
    → ReadsBack urls
    → urls.scheme_of url ≡ some (codes "https")
    → (length (fetch system urls (codes "https") max_redirects 0 url from).0 ≤ 6)
      × AllHttps urls (fetch system urls (codes "https") max_redirects 0 url from).0
fetch_https system urls url from back h =
    let s = fetch-IsSafe system urls back 5 0 from url h in (s.few, s.https)

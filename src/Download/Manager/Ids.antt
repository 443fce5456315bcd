-- ===== src/Download/Manager/Ids.antt =====
-- triAI-Engine/src/download.rs: the ids of downloads, over any calls of the manager.
use carlo_one_core.Prelude.{
  ℕ, ◌+◌, ◌≤◌, ◌<◌, Bool, true, false, ◌≡◌, ◌≢◌, refl, sym, ap, subst, ◌∙◌, inl, inr, Option, none,
  some, List, [], ◌∷◌, if◌then◌else◌, Text, bytes_eq, bytes_eq_iff, drop, length, parse_u64,
  parse_u64-decimal_text, u64_max, arith, Bool-cases,
}
use carlo_one_core.Download.{DownloadRequest, Urls}
use carlo_one_core.Download.Manager.{
  DownloadManager, DownloadError, new, validate_file_name, is_https, refusal, id_text, find, put,
  Created, created, rejected, create_or, create, cancel_if, cancel, Call, creates, cancels, perform,
  perform_all,
}

some_number : {a b : ℕ} → some a ≡ some b → a ≡ b
some_number e = cc

-- Different numbers have different ids.
id_text_apart :
    (a b : ℕ) → a ≤ u64_max → b ≤ u64_max → a ≢ b → bytes_eq (id_text a) (id_text b) ≡ false
unfolding id_text
id_text_apart a b ha hb n = elim (Bool-cases (bytes_eq (id_text a) (id_text b))) [
  | inr other ↦ other
  | inl same ↦
      let e = ap (λ t. parse_u64 (drop 3 t)) ((bytes_eq_iff (id_text a) (id_text b)).0 same) in
      absurd (n (some_number (sym (parse_u64-decimal_text a ha) ∙ e ∙ parse_u64-decimal_text b hb)))
]

find-put :
    (i j : Text) (flag : Bool) (h : List (Text × Bool))
    → find j (put i flag h) ≡ (if bytes_eq i j then some flag else find j h)
unfolding find put
find-put i j flag [] = refl
find-put i j flag ((l, old) ∷ h) =
    ground (arith, find-put i j flag h, bytes_eq_iff l i, bytes_eq_iff i j, bytes_eq_iff l j)

-- No id of a number that is still to come is taken.
IsNumbered : ℕ → DownloadManager → Type 0
IsNumbered calls m =
    (m.next_id ≤ calls + 1)
    × ((k : ℕ) → m.next_id ≤ k → k ≤ u64_max → find (id_text k) m.handles ≡ none)

create_or-IsNumbered :
    (o : Option DownloadError) (calls : ℕ) (m : DownloadManager)
    → calls + 1 < u64_max
    → IsNumbered calls m
    → IsNumbered (calls + 1) (create_or o m).0
unfolding IsNumbered create_or
create_or-IsNumbered (some e) calls m few n = (omega (arith, n.0), n.1)
create_or-IsNumbered none calls m few n = (
  omega (arith, n.0),
  λ k above bound.
      find-put (id_text m.next_id) (id_text k) false m.handles
      ∙ rw (id_text_apart m.next_id k (omega (arith, n.0)) bound (omega (arith, n.0)))
          (n.1 k (omega (arith, n.0)) bound),
)

-- An id that is not taken is not the one that was found.
not_taken :
    (flag : Bool) (id other : Text) (h : List (Text × Bool))
    → some flag ≡ find id h
    → find other h ≡ none
    → (if bytes_eq id other then some true else find other h) ≡ none
not_taken flag id other h q gone = elim (Bool-cases (bytes_eq id other)) [
  | inl same ↦
      let e : some flag ≡ none = q ∙ ap (λ t. find t h) ((bytes_eq_iff id other).0 same) ∙ gone in
      cc
  | inr apart ↦ rw apart gone
]

cancel_if-IsNumbered :
    (o : Option Bool) (id : Text) (calls : ℕ) (m : DownloadManager)
    → o ≡ find id m.handles
    → IsNumbered calls m
    → IsNumbered (calls + 1) (cancel_if o id m).0
unfolding IsNumbered cancel_if
cancel_if-IsNumbered none id calls m q n = (omega (arith, n.0), n.1)
cancel_if-IsNumbered (some flag) id calls m q n = (
  omega (arith, n.0),
  λ k above bound.
      find-put id (id_text k) true m.handles
      ∙ not_taken flag id (id_text k) m.handles q (n.1 k above bound),
)

perform-IsNumbered :
    (c : Call) (calls : ℕ) (m : DownloadManager)
    → calls + 1 < u64_max
    → IsNumbered calls m
    → IsNumbered (calls + 1) (perform c m)
unfolding perform create cancel
perform-IsNumbered (creates urls free request) calls m few n =
    create_or-IsNumbered (refusal urls free m.ssd_reserve_mb request) calls m few n
perform-IsNumbered (cancels id) calls m few n =
    cancel_if-IsNumbered (find id m.handles) id calls m refl n

perform_all-IsNumbered :
    (cs : List Call) (calls : ℕ) (m : DownloadManager)
    → calls + length cs < u64_max
    → IsNumbered calls m
    → IsNumbered (calls + length cs) (perform_all cs m)
unfolding perform_all
perform_all-IsNumbered [] calls m few n = subst (λ k. IsNumbered k m) (omega arith) n
perform_all-IsNumbered (c ∷ cs) calls m few n =
    subst (λ k. IsNumbered k (perform_all cs (perform c m))) (omega arith)
      (perform_all-IsNumbered cs (calls + 1) (perform c m) (omega arith)
        (perform-IsNumbered c calls m (omega arith) n))

new-IsNumbered : (reserve : ℕ) → IsNumbered 0 (new reserve)
unfolding IsNumbered new find
new-IsNumbered reserve = (omega arith, λ k above bound. refl)

-- A request that was not refused.
accepted_lem :
    (urls : Urls) (free : Option ℕ) (reserve : ℕ) (request : DownloadRequest)
    → refusal urls free reserve request ≡ none
    → (validate_file_name request.file_name ≡ true) × (is_https (urls.scheme_of request.url) ≡ true)
unfolding refusal
accepted_lem urls free reserve request e = ground arith

-- What a call of `create` leaves, if it gives an id.
abbrev pub IsFresh : Urls → DownloadRequest → DownloadManager → DownloadManager → Created → Type 0
IsFresh urls request m after (rejected e) = after ≡ m
IsFresh urls request m after (created id) =
    (validate_file_name request.file_name ≡ true)
    × (is_https (urls.scheme_of request.url) ≡ true)
    × (find id m.handles ≡ none)
    × (find id after.handles ≡ some false)
    × ((other : Text) → other ≢ id → find other after.handles ≡ find other m.handles)

create_or-IsFresh :
    (urls : Urls) (request : DownloadRequest) (o : Option DownloadError) (calls : ℕ)
    (m : DownloadManager)
    → (o ≡ none
        → (validate_file_name request.file_name ≡ true)
          × (is_https (urls.scheme_of request.url) ≡ true))
    → calls + 1 ≤ u64_max
    → IsNumbered calls m
    → IsFresh urls request m (create_or o m).0 (create_or o m).1
unfolding create_or IsNumbered
create_or-IsFresh urls request (some e) calls m ok few n = refl
create_or-IsFresh urls request none calls m ok few n = (
  (ok refl).0,
  (ok refl).1,
  n.1 m.next_id (omega arith) (omega (arith, n.0)),
  find-put (id_text m.next_id) (id_text m.next_id) false m.handles
      ∙ ground (arith, bytes_eq_iff (id_text m.next_id) (id_text m.next_id)),
  λ other apart.
      find-put (id_text m.next_id) other false m.handles
      ∙ ground (arith, bytes_eq_iff (id_text m.next_id) other),
)

-- Whatever was created and cancelled before, in fewer than 2^64 - 1 calls, a request that is
-- accepted is for an https URL and a plain file name, and its id is new: no download had it, it is
-- not cancelled, and every other id stands for what it stood for. A request that is refused
-- changes nothing.
pub create-IsFresh :
    (calls : List Call) (reserve : ℕ) (urls : Urls) (free : Option ℕ) (request : DownloadRequest)
    → length calls + 1 ≤ u64_max
    → IsFresh urls request
        (perform_all calls (new reserve))
        (create urls free request (perform_all calls (new reserve))).0
        (create urls free request (perform_all calls (new reserve))).1
unfolding create
create-IsFresh calls reserve urls free request few =
    let m = perform_all calls (new reserve) in
    create_or-IsFresh urls request (refusal urls free m.ssd_reserve_mb request) (length calls) m
      (accepted_lem urls free m.ssd_reserve_mb request) few
      (subst (λ k. IsNumbered k m) (omega arith)
        (perform_all-IsNumbered calls 0 (new reserve) (omega arith) (new-IsNumbered reserve)))

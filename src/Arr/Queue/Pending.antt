-- ===== src/Arr/Queue/Pending.antt =====
-- The download that the search of the queue finds (`findTrackedDownloadID`), read off the records of
-- the pages.
use media_processor.Prelude.{
  ℕ, ◌≤◌, ◌≡◌, ◌≢◌, refl, ap, ◌⊎◌, inl, inr, true, false, List, [], ◌∷◌, ◌++◌, Option, none, some,
  String, eq_iff, arith, Bool-cases, suc,
}
use media_processor.Text.{equal_fold}
use media_processor.Arr.Queue.{QueueRecord, QueuePage, is_pending, find_pending, search_queue}
use media_processor.Arr.Queue.Stops.{records_from, Answered, Ended}
use media_processor.Arr.Queue.Pages.{search_queue-Searched}

-- A record of the item, whose id is not 0, that is not imported yet and names its download.
abbrev pub IsPending : ℕ → QueueRecord → Type 0
IsPending id r =
    (r.item_id ≢ 0)
    × (r.item_id ≡ id)
    × (equal_fold r.tracked_download_state "imported" ≡ false)
    × (r.download_id ≢ "")

abbrev pub NonePending : ℕ → List QueueRecord → Type 0
NonePending id [] = Unit {0}
NonePending id (r ∷ rs) = (¬ IsPending id r) × NonePending id rs

-- The download of the first pending record, if there is one.
abbrev pub FirstPending : ℕ → List QueueRecord → Option String → Type 0
FirstPending id rs none = NonePending id rs
FirstPending id rs (some d) =
    (before : List QueueRecord) × (r : QueueRecord) × (after : List QueueRecord) × (rs
      ≡ before ++ r ∷ after)
    × NonePending id before
    × IsPending id r
    × (r.download_id ≡ d)

is_pending-true : (id : ℕ) (r : QueueRecord) → is_pending id r ≡ true → IsPending id r
unfolding is_pending
is_pending-true id r h = ground (arith, eq_iff r.download_id "")

is_pending-false : (id : ℕ) (r : QueueRecord) → is_pending id r ≡ false → ¬ IsPending id r
unfolding is_pending
is_pending-false id r h k = ground (arith, eq_iff r.download_id "")

FirstPending-cons :
    (id : ℕ) (r : QueueRecord) (rs : List QueueRecord) (x : Option String)
    → ¬ IsPending id r
    → FirstPending id rs x
    → FirstPending id (r ∷ rs) x
FirstPending-cons id r rs none n h = (n, h)
FirstPending-cons id r rs (some d) n (before, p, after, e, m, q, k) =
    (r ∷ before, p, after, ap (λ t. r ∷ t) e, (n, m), q, k)

find_pending-FirstPending :
    (id : ℕ) (rs : List QueueRecord) → FirstPending id rs (find_pending id rs)
unfolding find_pending
find_pending-FirstPending id [] = tt
find_pending-FirstPending id (r ∷ rs) = elim (Bool-cases (is_pending id r)) [
  | inl e ↦ rw (e, find_pending) ([], r, rs, refl, tt, is_pending-true id r e, refl)
  | inr e ↦
      rw (e, find_pending)
        (FirstPending-cons id r rs _ (is_pending-false id r e) (find_pending-FirstPending id rs))
]

-- The search read `n` answered pages, found the first pending record on them, and stopped.
abbrev pub Finds : (ℕ → Option QueuePage) → ℕ → Option (Option String) → Type 0
Finds pages id r =
    (n : ℕ) × (x : Option String) × (r ≡ some x)
    × FirstPending id (records_from pages 1 n) x
    × Answered pages 1 n
    × ((x ≢ none) ⊎ Ended pages 1 0 n)

-- Where no answered page promises more than `limit` records, the search from the first page ends
-- within limit + 1 pages. It has read some number of pages, all answered. Its result is the download
-- of the first record on them that is of the item (an id that is not 0), is not imported and names a
-- download, and nothing exactly if no record on them is such a one; in that case the next page was not answered, or the last
-- page was empty or the records that it promises were all read.
pub search_queue-Finds :
    (limit : ℕ) (pages : ℕ → Option QueuePage) (id : ℕ)
    → ((p : ℕ) (q : QueuePage) → pages p ≡ some q → q.total_records ≤ limit)
    → Finds pages id (search_queue (suc limit) pages id 1 0)
search_queue-Finds limit pages id bound =
    let (n, e, answered, stopped) = search_queue-Searched limit pages id bound in
    let found = find_pending-FirstPending id (records_from pages 1 n) in
    (n, find_pending id (records_from pages 1 n), e, found, answered, stopped)

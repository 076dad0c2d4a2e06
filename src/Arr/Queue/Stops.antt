-- ===== src/Arr/Queue/Stops.antt =====
-- The records of the pages that were read, and why a search of them stops.
use media_processor.Prelude.{
  ℕ, zero, suc, ◌+◌, ◌≤◌, ◌<◌, ◌≡◌, ◌≢◌, refl, ◌⊎◌, inr, true, false, List, [], ◌∷◌, ◌++◌, Option,
  none, some, String, length, length-append, arith,
}
use media_processor.Arr.Queue.{QueueRecord, QueuePage, find_pending, is_last, search_queue}

pub add_zero : (n : ℕ) → n + 0 ≡ n
add_zero n = omega arith

pub next : (p n : ℕ) → p + suc n ≡ p + 1 + n
next p n = omega arith

-- The records of `n` pages from one on.
abbrev pub page_records : Option QueuePage → List QueueRecord
page_records none = []
page_records (some q) = q.records

abbrev pub records_from : (ℕ → Option QueuePage) → ℕ → ℕ → List QueueRecord
records_from pages page zero = []
records_from pages page (suc n) = page_records (pages page) ++ records_from pages (page + 1) n

-- The service answers `n` pages from one on.
abbrev pub Answered : (ℕ → Option QueuePage) → ℕ → ℕ → Type 0
Answered pages page zero = Unit {0}
Answered pages page (suc n) =
    ((q : QueuePage) × (pages page ≡ some q)) × Answered pages (page + 1) n

pub find_pending-append :
    (id : ℕ) (xs ys : List QueueRecord)
    → find_pending id xs ≡ none
    → find_pending id (xs ++ ys) ≡ find_pending id ys
unfolding find_pending
find_pending-append id [] ys h = refl
find_pending-append id (r ∷ rs) ys h = ground (arith, find_pending-append id rs ys)

pub find_pending-append_found :
    (id : ℕ) (xs ys : List QueueRecord) (d : String)
    → find_pending id xs ≡ some d
    → find_pending id (xs ++ ys) ≡ some d
unfolding find_pending
find_pending-append_found id [] ys d h = cc
find_pending-append_found id (r ∷ rs) ys d h = ground (arith, find_pending-append_found id rs ys d)

-- The queue ended after `n` pages: the next one is not answered, or the last one was empty or the
-- records it promises are all read.
abbrev pub Ended : (ℕ → Option QueuePage) → ℕ → ℕ → ℕ → Type 0
Ended pages page fetched n =
    (pages (page + n) ≡ none)
    ⊎ ((m : ℕ) × (q : QueuePage) × (n ≡ suc m)
        × (pages (page + m) ≡ some q)
        × ((length q.records ≡ 0)
            ⊎ (q.total_records ≤ fetched + length (records_from pages page n))))

-- Why the search stopped after `n` pages: it found a download, or the queue ended.
abbrev pub Stopped : (ℕ → Option QueuePage) → ℕ → ℕ → ℕ → ℕ → Type 0
Stopped pages id page fetched n =
    (find_pending id (records_from pages page n) ≢ none) ⊎ Ended pages page fetched n

abbrev pub Searched : (ℕ → Option QueuePage) → ℕ → ℕ → ℕ → Option (Option String) → Type 0
Searched pages id page fetched r =
    (n : ℕ) × (r ≡ some (find_pending id (records_from pages page n)))
    × Answered pages page n
    × Stopped pages id page fetched n

pub is_last_lem :
    (fetched : ℕ) (q : QueuePage)
    → is_last fetched q ≡ true
    → (length q.records ≡ 0) ⊎ (q.total_records ≤ fetched)
unfolding is_last
is_last_lem fetched q h = ground arith

pub not_last_lem :
    (fetched : ℕ) (q : QueuePage)
    → is_last fetched q ≡ false
    → (0 < length q.records) × (fetched < q.total_records)
unfolding is_last
not_last_lem fetched q h = (ground arith, ground arith)

length-page :
    (pages : ℕ → Option QueuePage) (page : ℕ) (q : QueuePage)
    → pages page ≡ some q
    → length (records_from pages page 1) ≡ length q.records
length-page pages page q h = rw h (omega (arith, length-append {0} q.records []))

-- The equations of one page.
module _ (fuel : ℕ) (pages : ℕ → Option QueuePage) (id page fetched : ℕ) where
  pub search_unanswered :
      pages page ≡ none → search_queue (suc fuel) pages id page fetched ≡ some none
  unfolding search_queue
  search_unanswered h = rw (h, search_queue) refl

  pub search_found :
      (q : QueuePage) (d : String)
      → pages page ≡ some q
      → find_pending id q.records ≡ some d
      → search_queue (suc fuel) pages id page fetched ≡ some (some d)
  unfolding search_queue
  search_found q d h k = rw (h, k, search_queue) refl

  pub search_last :
      (q : QueuePage)
      → pages page ≡ some q
      → find_pending id q.records ≡ none
      → is_last (fetched + length q.records) q ≡ true
      → search_queue (suc fuel) pages id page fetched ≡ some none
  unfolding search_queue
  search_last q h k l = rw (h, k, l, search_queue) refl

  pub search_more :
      (q : QueuePage)
      → pages page ≡ some q
      → find_pending id q.records ≡ none
      → is_last (fetched + length q.records) q ≡ false
      → search_queue (suc fuel) pages id page fetched
        ≡ search_queue fuel pages id (page + 1) (fetched + length q.records)
  unfolding search_queue
  search_more q h k l = ground arith

pub Stopped-last :
    (pages : ℕ → Option QueuePage) (id page fetched : ℕ) (q : QueuePage)
    → pages page ≡ some q
    → (length q.records ≡ 0) ⊎ (q.total_records ≤ fetched + length q.records)
    → Stopped pages id page fetched 1
Stopped-last pages id page fetched q h s =
    inr (inr (0, q, refl, rw (add_zero page) h, rw (length-page pages page q h) s))

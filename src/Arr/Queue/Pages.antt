-- ===== src/Arr/Queue/Pages.antt =====
-- The search of the queue ends, with what `find_pending` makes of all records that were read.
use media_processor.Prelude.{
  ℕ, zero, suc, ◌+◌, ◌≤◌, ◌<◌, ◌≡◌, refl, sym, ap, ◌∙◌, ◌⊎◌, inl, inr, true, [], Option, none, some,
  String, length, length-append, arith, Bool-cases, Option-cases,
}
use media_processor.Arr.Queue.{QueuePage, find_pending, is_last, search_queue}
use media_processor.Arr.Queue.Stops.{
  add_zero, next, records_from, find_pending-append, find_pending-append_found, Stopped, Searched,
  is_last_lem, not_last_lem, search_unanswered, search_found, search_last, search_more,
  Stopped-last,
}

stopped_none :
    (pages : ℕ → Option QueuePage) (id page fetched : ℕ)
    → pages page ≡ none
    → Searched pages id page fetched (some none)
unfolding find_pending
stopped_none pages id page fetched h = (0, refl, tt, inr (inl (rw (add_zero page) h)))

pending_page :
    (pages : ℕ → Option QueuePage) (id page n : ℕ) (q : QueuePage)
    → pages page ≡ some q
    → find_pending id q.records ≡ none
    → find_pending id (records_from pages page (suc n))
      ≡ find_pending id (records_from pages (page + 1) n)
pending_page pages id page n q h k =
    rw h (find_pending-append id q.records (records_from pages (page + 1) n) k)

-- One page more in front.
Stopped-page :
    (pages : ℕ → Option QueuePage) (id page fetched n : ℕ) (q : QueuePage)
    → pages page ≡ some q
    → find_pending id q.records ≡ none
    → Stopped pages id (page + 1) (fetched + length q.records) n
    → Stopped pages id page fetched (suc n)
Stopped-page pages id page fetched n q h k (inl f) =
    inl (λ e. f (sym (pending_page pages id page n q h k) ∙ e))
Stopped-page pages id page fetched n q h k (inr (inl f)) = inr (inl (ap pages (next page n) ∙ f))
Stopped-page pages id page fetched n q h k (inr (inr (m, q', e, f, g))) =
    inr (inr (suc m, q', ap suc e, ap pages (next page m) ∙ f, last g))
  where
    last :
        (length q'.records ≡ 0)
          ⊎ (q'.total_records
              ≤ fetched + length q.records + length (records_from pages (page + 1) n))
        → (length q'.records ≡ 0)
          ⊎ (q'.total_records ≤ fetched + length (records_from pages page (suc n)))
    last (inl z) = inl z
    last (inr z) =
        inr (rw h (omega (arith, length-append {0} q.records (records_from pages (page + 1) n))))

Searched-page :
    (pages : ℕ → Option QueuePage) (id page fetched : ℕ) (q : QueuePage)
    (r : Option (Option String))
    → pages page ≡ some q
    → find_pending id q.records ≡ none
    → Searched pages id (page + 1) (fetched + length q.records) r
    → Searched pages id page fetched r
Searched-page pages id page fetched q r h k (n, e, a, s) = (
  suc n,
  e ∙ ap some (sym (pending_page pages id page n q h k)),
  ((q, h), a),
  Stopped-page pages id page fetched n q h k s,
)

Searched-found :
    (fuel : ℕ) (pages : ℕ → Option QueuePage) (id page fetched : ℕ) (q : QueuePage) (d : String)
    → pages page ≡ some q
    → find_pending id q.records ≡ some d
    → Searched pages id page fetched (search_queue (suc fuel) pages id page fetched)
Searched-found fuel pages id page fetched q d h k =
    let f : find_pending id (records_from pages page 1) ≡ some d =
      rw h (find_pending-append_found id q.records [] d k) in
    (
      1,
      search_found fuel pages id page fetched q d h k ∙ ap some (sym f),
      ((q, h), tt),
      inl (λ e. cc),
    )

Searched-last :
    (fuel : ℕ) (pages : ℕ → Option QueuePage) (id page fetched : ℕ) (q : QueuePage)
    → pages page ≡ some q
    → find_pending id q.records ≡ none
    → is_last (fetched + length q.records) q ≡ true
    → Searched pages id page fetched (search_queue (suc fuel) pages id page fetched)
unfolding find_pending
Searched-last fuel pages id page fetched q h k l = (
  1,
  search_last fuel pages id page fetched q h k l
      ∙ ap some (sym (pending_page pages id page 0 q h k)),
  ((q, h), tt),
  Stopped-last pages id page fetched q h (is_last_lem _ q l),
)

Searched-search_queue :
    (limit fuel : ℕ) (pages : ℕ → Option QueuePage) (id page fetched : ℕ)
    → ((p : ℕ) (q : QueuePage) → pages p ≡ some q → q.total_records ≤ limit)
    → fetched ≤ limit
    → limit < fuel + fetched
    → Searched pages id page fetched (search_queue fuel pages id page fetched)
Searched-search_queue limit zero pages id page fetched bound h lt = absurd (omega arith)
Searched-search_queue limit (suc fuel) pages id page fetched bound h lt =
    elim (Option-cases (pages page)) [
      | inl e ↦
          rw (search_unanswered fuel pages id page fetched e) (stopped_none pages id page fetched e)
      | inr (q, e) ↦ elim (Option-cases (find_pending id q.records)) [
        | inr (d, k) ↦ Searched-found fuel pages id page fetched q d e k
        | inl k ↦ elim (Bool-cases (is_last (fetched + length q.records) q)) [
          | inl l ↦ Searched-last fuel pages id page fetched q e k l
          | inr l ↦ rw (search_more fuel pages id page fetched q e k l) (
              Searched-page pages id page fetched q _ e k (
                Searched-search_queue limit fuel pages id (page + 1) (fetched + length q.records)
                  bound (omega (arith, (not_last_lem _ q l).1, bound page q e))
                  (omega (arith, (not_last_lem _ q l).0))))
        ]
      ]
    ]

-- The search ends on some number of pages, all answered, with what `find_pending` makes of them.
pub search_queue-Searched :
    (limit : ℕ) (pages : ℕ → Option QueuePage) (id : ℕ)
    → ((p : ℕ) (q : QueuePage) → pages p ≡ some q → q.total_records ≤ limit)
    → Searched pages id 1 0 (search_queue (suc limit) pages id 1 0)
search_queue-Searched limit pages id bound =
    Searched-search_queue limit (suc limit) pages id 1 0 bound (omega arith) (omega arith)

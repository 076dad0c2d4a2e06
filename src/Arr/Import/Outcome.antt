-- ===== src/Arr/Import/Outcome.antt =====
-- What each answer of an import means, and that the import returns.
use media_processor.Prelude.{
  ℕ, suc, ◌≤◌, ◌<◌, ◌≡◌, ◌≢◌, refl, ◌↔◌, ◌⊎◌, inl, inr, true, false, ◌&&◌, Option, none, some,
  String, ltb, arith, Bool-cases, Option-cases,
}
use media_processor.Files.Paths.{FilePath}
use media_processor.Media.Notify.{ImportAnswer, imported, not_found, not_upgrade, import_failed}
use media_processor.Arr.Command.{
  WaitResult, finished, no_imports, ended, fetch_failed, wait_cancelled, wait,
}
use media_processor.Arr.Queue.{QueuePage}
use media_processor.Arr.Queue.Pages.{search_queue-Searched}
use media_processor.Arr.Import.{
  Lookup, found, missing, lookup_failed, after_scan, before_scan, Service, Client, folder_of,
  tracked_of, find_tracked_download_id, rejected_as_not_upgrade, same_size, is_missing,
  after_no_imports, after_wait, after_post, request, import_tracked, import_by_file_path,
}
use media_processor.Arr.Import.Rejection.{IsRejected, rejected_answer_iff}

-- What an answer is given for, after a scan that ended with `w`.
abbrev pub Outcome :
    Client → Service → Option FilePath → ℕ → Option String → WaitResult → ImportAnswer → Type 0
Outcome c s p n d w not_found = (w ≡ no_imports) × (c.identify after_scan p ≡ missing)
Outcome c s p n d w not_upgrade =
    (w ≡ no_imports) × (c.identify after_scan p ≢ missing) × IsRejected s p d
Outcome c s p n d w imported =
    (w ≡ finished)
    ⊎ ((w ≡ no_imports)
        × (c.identify after_scan p ≢ missing)
        × ¬ IsRejected s p d
        × (0 < n)
        × (c.stored_size p ≡ some n))
Outcome c s p n d w import_failed =
    (w ≢ finished)
    × ((w ≢ no_imports)
        ⊎ ((c.identify after_scan p ≢ missing)
            × ¬ IsRejected s p d
            × ((n ≡ 0) ⊎ (c.stored_size p ≢ some n))))

is_missing_iff : (l : Lookup ℕ) → (is_missing l ≡ true) ↔ (l ≡ missing)
is_missing_iff (found n) = (λ h. cc, λ h. cc)
is_missing_iff missing = (λ h. refl, λ h. refl)
is_missing_iff lookup_failed = (λ h. cc, λ h. cc)

same_size_iff : (o : Option ℕ) (n : ℕ) → (same_size o n ≡ true) ↔ (o ≡ some n)
unfolding same_size
same_size_iff none n = (λ h. cc, λ h. cc)
same_size_iff (some m) n = (λ h. ground arith, λ h. ground arith)

stored_size_lem :
    (o : Option ℕ) (n : ℕ) → (ltb 0 n && same_size o n) ≡ true → (0 < n) × (o ≡ some n)
stored_size_lem o n h = (ground arith, ground (arith, (same_size_iff o n).0))

other_size_lem :
    (o : Option ℕ) (n : ℕ) → (ltb 0 n && same_size o n) ≡ false → (n ≡ 0) ⊎ (o ≢ some n)
other_size_lem o n h = elim (Bool-cases (ltb 0 n)) [
  | inl e ↦ inr (λ k. ground (arith, (same_size_iff o n).1 k))
  | inr e ↦ inl (ground arith)
]

rejected_as_not_upgrade_iff :
    (s : Service) (p : Option FilePath) (d : Option String)
    → (rejected_as_not_upgrade s p d ≡ true) ↔ IsRejected s p d
unfolding rejected_as_not_upgrade
rejected_as_not_upgrade_iff s p d = rejected_answer_iff p (s.manual_import (folder_of p) d)

-- The branches of what follows a scan with no imports.
module _ (c : Client) (s : Service) (p : Option FilePath) (n : ℕ) (d : Option String) where
  missing_answer :
      is_missing (c.identify after_scan p) ≡ true → after_no_imports c s p n d ≡ not_found
  unfolding after_no_imports
  missing_answer h = rw h refl

  rejected_answer_lem :
      is_missing (c.identify after_scan p) ≡ false
      → rejected_as_not_upgrade s p d ≡ true
      → after_no_imports c s p n d ≡ not_upgrade
  unfolding after_no_imports
  rejected_answer_lem h k = rw (h, k) refl

  stored_answer :
      is_missing (c.identify after_scan p) ≡ false
      → rejected_as_not_upgrade s p d ≡ false
      → (ltb 0 n && same_size (c.stored_size p) n) ≡ true
      → after_no_imports c s p n d ≡ imported
  unfolding after_no_imports
  stored_answer h k l = rw (h, k, l) refl

  failed_answer :
      is_missing (c.identify after_scan p) ≡ false
      → rejected_as_not_upgrade s p d ≡ false
      → (ltb 0 n && same_size (c.stored_size p) n) ≡ false
      → after_no_imports c s p n d ≡ import_failed
  unfolding after_no_imports
  failed_answer h k l = rw (h, k, l) refl

  Outcome-after_no_imports : Outcome c s p n d no_imports (after_no_imports c s p n d)
  Outcome-after_no_imports = elim (Bool-cases (is_missing (c.identify after_scan p))) [
    | inl m ↦ rw (missing_answer m) (refl, (is_missing_iff _).0 m)
    | inr m ↦
        let f : c.identify after_scan p ≢ missing = λ e. cc ((is_missing_iff _).1 e) in
        elim (Bool-cases (rejected_as_not_upgrade s p d)) [
          | inl r ↦ rw (rejected_answer_lem m r) (refl, f, (rejected_as_not_upgrade_iff s p d).0 r)
          | inr r ↦
              let g : ¬ IsRejected s p d = λ e. cc ((rejected_as_not_upgrade_iff s p d).1 e) in
              elim (Bool-cases (ltb 0 n && same_size (c.stored_size p) n)) [
                | inl t ↦
                    rw (stored_answer m r t)
                      (inr (refl, f, g, (stored_size_lem _ n t).0, (stored_size_lem _ n t).1))
                | inr t ↦ rw (failed_answer m r t) (λ e. cc, inr (f, g, other_size_lem _ n t))
              ]
        ]
  ]

  Outcome-after_wait :
      (w : WaitResult)
      → (a : ImportAnswer) × (after_wait c s p n d (some w) ≡ some a) × Outcome c s p n d w a
  unfolding after_wait
  Outcome-after_wait finished = (imported, refl, inl refl)
  Outcome-after_wait no_imports = (after_no_imports c s p n d, refl, Outcome-after_no_imports)
  Outcome-after_wait ended = (import_failed, refl, (λ e. cc, inl (λ e. cc)))
  Outcome-after_wait fetch_failed = (import_failed, refl, (λ e. cc, inl (λ e. cc)))
  Outcome-after_wait wait_cancelled = (import_failed, refl, (λ e. cc, inl (λ e. cc)))

tracked_of_total :
    (limit : ℕ) (s : Service) (l : Lookup ℕ)
    → ((k : ℕ) (q : QueuePage) → s.queue k ≡ some q → q.total_records ≤ limit)
    → (d : Option String) × (tracked_of (suc limit) s l ≡ some d)
unfolding tracked_of
tracked_of_total limit s (found id) bound =
    let (n, e, answered, stopped) = search_queue-Searched limit s.queue id bound in (_, e)
tracked_of_total limit s missing bound = (none, refl)
tracked_of_total limit s lookup_failed bound = (none, refl)

-- An import sends one command, with the tracked download `d` if there is one, or fails to.
abbrev pub Sent :
    Client → Service → Option FilePath → ℕ → Option String → Option ImportAnswer → Type 0
Sent c s p n d r =
    (a : ImportAnswer) × (r ≡ some a)
    × (((s.post (request c p d) ≡ none) × (a ≡ import_failed))
        ⊎ ((id : ℕ) × (w : WaitResult) × (s.post (request c p d) ≡ some id)
            × (wait id (s.polls id) ≡ some w)
            × Outcome c s p n d w a))

abbrev pub Imported : ℕ → Client → Service → Option FilePath → ℕ → Option ImportAnswer → Type 0
Imported fuel c s p n r =
    (d : Option String) × (find_tracked_download_id fuel c s p ≡ some d) × Sent c s p n d r

after_post-Sent :
    (c : Client) (s : Service) (p : Option FilePath) (n : ℕ) (d : Option String)
    → ((id : ℕ) → wait id (s.polls id) ≢ none)
    → Sent c s p n d (after_post c s p n d (s.post (request c p d)))
unfolding after_post
after_post-Sent c s p n d returns = elim (Option-cases (s.post (request c p d))) [
  | inl e ↦ rw e (import_failed, refl, inl (refl, refl))
  | inr (id, e) ↦ elim (Option-cases (wait id (s.polls id))) [
    | inl k ↦ absurd (returns id k)
    | inr (w, k) ↦
        let (a, f, o) = Outcome-after_wait c s p n d w in rw (e, k) (a, f, inr (id, w, refl, k, o))
  ]
]

-- Where no answered page of the queue promises more than `limit` records, and the wait for a command
-- returns, an import with fuel for limit + 1 pages returns. It fails if the command cannot be sent.
-- After a scan with no imports it answers that the item is not in the library exactly if it is found
-- missing; that the file is no upgrade, if it is not missing and the service lists an entry of the
-- file's name with such a reason; that it is imported after all, if neither holds and the stored
-- file has the size that was expected, which is positive; and it fails otherwise. After a scan that
-- finished it is imported, and any other end of the wait is a failure.
pub import_by_file_path-Imported :
    (limit : ℕ) (c : Client) (s : Service) (p : Option FilePath) (n : ℕ)
    → ((k : ℕ) (q : QueuePage) → s.queue k ≡ some q → q.total_records ≤ limit)
    → ((id : ℕ) → wait id (s.polls id) ≢ none)
    → Imported (suc limit) c s p n (import_by_file_path (suc limit) c s p n)
unfolding import_by_file_path find_tracked_download_id import_tracked
import_by_file_path-Imported limit c s p n bound returns =
    let (d, e) = tracked_of_total limit s (c.identify before_scan p) bound in
    (d, e, rw e (after_post-Sent c s p n d returns))

-- ===== src/Arr/Queue.antt =====
-- The loop of `findTrackedDownloadID` over the pages of the queue (pkg/medialib/radarr/client.go and
-- sonarr/client.go, the same in both). The pages that the service answers are a parameter, `none`
-- for an error; an id is a natural number, and no download id is `none`.
pub mod Stops
pub mod Pages
pub mod Pending
use Prim.Native.String.{[] as empty}
use media_processor.Prelude.{
  ℕ, zero, suc, ◌+◌, Bool, true, false, ◌||◌, not, ◌&&◌, List, [], ◌∷◌, Option, none, some, String,
  str_eq, ◌==◌, leb, length, if◌then◌else◌,
}
use media_processor.Text.{equal_fold}

-- The fields of a queue record that are read: `MovieID` or `EpisodeID`, the state, the download.
pub record QueueRecord : Type 0 where
  pub item_id : ℕ
  pub tracked_download_state : String
  pub download_id : String

pub record QueuePage : Type 0 where
  pub records : List QueueRecord
  pub total_records : ℕ

-- The three tests of the loop over the records of a page.
unfoldable pub is_pending : ℕ → QueueRecord → Bool
is_pending id r =
    not (r.item_id == 0 || not (r.item_id == id))
    && (not (equal_fold r.tracked_download_state "imported") && not (str_eq r.download_id ""))

-- The loop over the records of a page.
unfoldable pub find_pending : ℕ → List QueueRecord → Option String
find_pending id [] = none
find_pending id (r ∷ rs) = if is_pending id r then some r.download_id else find_pending id rs

-- Whether `fetched` ends the loop after a page.
unfoldable pub is_last : ℕ → QueuePage → Bool
is_last fetched q = leb q.total_records fetched || length q.records == 0

-- The loop over the pages, with fuel; an outer `none` means that the fuel ran out.
unfoldable pub search_queue : ℕ → (ℕ → Option QueuePage) → ℕ → ℕ → ℕ → Option (Option String)
search_queue zero pages id page fetched = none
search_queue (suc fuel) pages id page fetched = elim (pages page) [
  | none ↦ some none
  | some q ↦ elim (find_pending id q.records) [
    | some d ↦ some (some d)
    | none ↦
        let fetched' = fetched + length q.records in
        let rest = search_queue fuel pages id (page + 1) fetched' in
        if is_last fetched' q then some none else rest
  ]
]

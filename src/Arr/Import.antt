-- ===== src/Arr/Import.antt =====
-- `ImportByFilePath` of pkg/medialib/radarr/client.go and sonarr/client.go. The two differ in how an
-- item is identified and in how the size of its stored file is found, which are fields of `Client`;
-- the answers of the service are those of `Service`. A path is blank if it is `none`.
pub mod Rejection
pub mod Outcome
use media_processor.Prelude.{
  ℕ, Bool, true, false, ◌||◌, ◌&&◌, List, [], ◌∷◌, Option, none, some, String, str_eq, ltb, ◌==◌,
  if◌then◌else◌,
}
use media_processor.Files.Paths.{FilePath, dir, base}
use media_processor.Media.Notify.{ImportAnswer, imported, not_found, not_upgrade, import_failed}
use media_processor.Arr.Command.{
  WaitResult, finished, no_imports, ended, fetch_failed, wait_cancelled, Poll, wait,
  is_not_upgrade_rejection,
}
use media_processor.Arr.Queue.{QueuePage, search_queue}

-- What a lookup answers: an item, `ErrNotFound`, or another error.
pub data Lookup {ℓ} (A : Type ℓ) : Type ℓ where
  found : A → Lookup A
  missing : Lookup A
  lookup_failed : Lookup A

-- The service may answer one lookup differently at different times: to find the tracked download,
-- after a scan with no imports, and to find the size of the stored file.
pub data Moment : Type 0 where
  before_scan after_scan at_size : Moment

-- The body of the command.
pub record ScanRequest : Type 0 where
  pub name : String
  pub path : Option FilePath
  pub download_client_id : Option String

-- One entry of a manual import: its path and the reasons of its rejections.
pub record ManualItem : Type 0 where
  pub path : Option FilePath
  pub reasons : List String

-- What the service answers, `none` for an error. `post` answers the id of the command.
pub record Service : Type 0 where
  pub queue : ℕ → Option QueuePage
  pub post : ScanRequest → Option ℕ
  pub polls : ℕ → List Poll
  pub manual_import : Option FilePath → Option String → Option (List ManualItem)

-- How a client identifies the item of a path and finds the size of its stored file, and the command
-- it sends.
pub record Client : Type 0 where
  pub identify : Moment → Option FilePath → Lookup ℕ
  pub stored_size : Option FilePath → Option ℕ
  pub command : String

-- filepath.Base and filepath.Dir, of a blank path too; the directory of a blank path is ".".
unfoldable pub name_of : Option FilePath → String
unfolding base
name_of none = "."
name_of (some p) = base p

unfoldable pub folder_of : Option FilePath → Option FilePath
unfolding dir
folder_of none = none
folder_of (some p) = some (dir p)

-- `findTrackedDownloadID`; an outer `none` means that the fuel ran out.
unfoldable pub tracked_of : ℕ → Service → Lookup ℕ → Option (Option String)
tracked_of fuel s (found id) = search_queue fuel s.queue id 1 0
tracked_of fuel s missing = some none
tracked_of fuel s lookup_failed = some none

unfoldable pub find_tracked_download_id :
    ℕ → Client → Service → Option FilePath → Option (Option String)
find_tracked_download_id fuel c s p = tracked_of fuel s (c.identify before_scan p)

-- The loops of `rejectedAsNotUpgrade`.
unfoldable pub any_rejected : String → List ManualItem → Bool
any_rejected name [] = false
any_rejected name (i ∷ is) =
    (str_eq (name_of i.path) name && is_not_upgrade_rejection i.reasons) || any_rejected name is

unfoldable pub rejected_answer : String → Option (List ManualItem) → Bool
rejected_answer name none = false
rejected_answer name (some is) = any_rejected name is

-- `rejectedAsNotUpgrade`.
unfoldable pub rejected_as_not_upgrade : Service → Option FilePath → Option String → Bool
rejected_as_not_upgrade s p download =
    rejected_answer (name_of p) (s.manual_import (folder_of p) download)

unfoldable pub same_size : Option ℕ → ℕ → Bool
same_size none expected = false
same_size (some n) expected = n == expected

abbrev pub is_missing : Lookup ℕ → Bool
is_missing missing = true
is_missing _ = false

-- What follows a scan with no successful imports.
unfoldable pub after_no_imports :
    Client → Service → Option FilePath → ℕ → Option String → ImportAnswer
after_no_imports c s p expected download =
    if is_missing (c.identify after_scan p)
    then not_found
    else if rejected_as_not_upgrade s p download
    then not_upgrade
    else if ltb 0 expected && same_size (c.stored_size p) expected
    then imported
    else import_failed

-- What follows the wait; `none` waits still.
unfoldable pub after_wait :
    Client → Service → Option FilePath → ℕ → Option String → Option WaitResult → Option ImportAnswer
after_wait c s p expected download none = none
after_wait c s p expected download (some finished) = some imported
after_wait c s p expected download (some no_imports) =
    some (after_no_imports c s p expected download)
after_wait c s p expected download (some ended) = some import_failed
after_wait c s p expected download (some fetch_failed) = some import_failed
after_wait c s p expected download (some wait_cancelled) = some import_failed

unfoldable pub after_post :
    Client → Service → Option FilePath → ℕ → Option String → Option ℕ → Option ImportAnswer
after_post c s p expected download none = some import_failed
after_post c s p expected download (some id) =
    after_wait c s p expected download (wait id (s.polls id))

abbrev pub request : Client → Option FilePath → Option String → ScanRequest
request c p download = record { name = c.command; path = p; download_client_id = download }

unfoldable pub import_tracked :
    Client → Service → Option FilePath → ℕ → Option (Option String) → Option ImportAnswer
import_tracked c s p expected none = none
import_tracked c s p expected (some download) =
    after_post c s p expected download (s.post (request c p download))

-- `ImportByFilePath`, with fuel for the pages of the queue; `none` has not returned.
unfoldable pub import_by_file_path :
    ℕ → Client → Service → Option FilePath → ℕ → Option ImportAnswer
import_by_file_path fuel c s p expected =
    import_tracked c s p expected (find_tracked_download_id fuel c s p)

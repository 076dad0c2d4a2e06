-- ===== src/Arr/Tests.antt =====
-- Instances of the theorems on the clients: a library that has no item for the file, and a command
-- that completes at its second poll with nothing imported.
use media_processor.Prelude.{
  ℕ, zero, suc, ◌≤◌, ◌≡◌, ◌≢◌, refl, List, [], ◌∷◌, Option, none, some, arith,
}
use media_processor.Files.Paths.{FilePath, rel}
use media_processor.Media.Notify.{
  Library, radarr, sonarr, ImportAnswer, not_found, ImportCall, notify, notify_library,
  get_arr_library, substitute, import_file, after_import,
}
use media_processor.Media.Notify.Tests.{input, transcoded}
use media_processor.Text.{lower_is, equal_fold}
use media_processor.Arr.Command.{
  Status, ticked, Poll, no_imports, is_failure, classify, after_answer, wait_loop, wait,
}
use media_processor.Arr.Queue.{QueuePage, find_pending, is_pending, search_queue}
use media_processor.Arr.Queue.Pending.{Finds, search_queue-Finds}
use media_processor.Arr.Artwork.{Url, Web, Image, first_poster}
use media_processor.Arr.Artwork.Secrecy.{IsSafe, first_poster-IsSafe}
use media_processor.Arr.Import.{
  Service, import_by_file_path, find_tracked_download_id, tracked_of, import_tracked, after_post,
  after_wait, after_no_imports,
}
use media_processor.Arr.Import.Outcome.{Imported, import_by_file_path-Imported}
use media_processor.Arr.Radarr
use media_processor.Arr.Radarr.{
  Radarr, import_movie, get_movie_by_file_path, or_folder, get_movie_by_title, parsed_movie,
  movie_id,
}
use media_processor.Arr.Sonarr
use media_processor.Arr.Sonarr.{
  Sonarr, import_episode, get_episode_by_file_path, parsed_episode, episode_id,
}
use media_processor.Arr.Handover.{
  client_of, service_of, IsUnwanted, answer_of, library_answer, notify-IsUnwanted,
}

abbrev poll : Status → Poll
poll s = record { answer = some s; wake = ticked }

abbrev polls : List Poll
polls =
    poll (record { status = "started"; message = ""; result = "" })
    ∷ poll (record { status = "Completed"; message = ""; result = "unsuccessful" })
    ∷ []

abbrev pages : ℕ → Option QueuePage
pages zero = none
pages (suc zero) = some (record {
  records =
      record { item_id = 7; tracked_download_state = "Imported"; download_id = "A" }
      ∷ record { item_id = 7; tracked_download_state = "importPending"; download_id = "B" }
      ∷ [];
  total_records = 2;
})
pages (suc (suc n)) = none

pages_bound : (k : ℕ) (q : QueuePage) → pages k ≡ some q → q.total_records ≤ 2
pages_bound zero q h = cc
pages_bound (suc zero) q h = ground arith
pages_bound (suc (suc n)) q h = cc

abbrev service : Service
service = record {
  queue = pages;
  post = λ r. some 1;
  polls = λ id. polls;
  manual_import = λ folder download. none;
}

abbrev movies : Radarr
movies = record { service = service; parse = λ t title. some none; movie_by_id = λ id. none }

abbrev shows : Sonarr
shows = record {
  service = service;
  parse = λ t title. some none;
  episode_by_id = λ id. none;
  episode_files = λ id. none;
}

polls_settle : wait_loop polls ≡ some no_imports
unfolding wait_loop after_answer classify is_failure lower_is equal_fold
polls_settle = refl

wait_returns : (id : ℕ) → wait id polls ≢ none
unfolding wait
wait_returns id h = ground (arith, polls_settle)

search_queue-Finds_example : Finds pages 7 (search_queue 3 pages 7 1 0)
search_queue-Finds_example = search_queue-Finds 2 pages 7 pages_bound

second_download : search_queue 3 pages 7 1 0 ≡ some (some "B")
unfolding search_queue find_pending is_pending equal_fold
second_download = refl

import_by_file_path-Imported_example :
    Imported 3
      (Radarr.client movies)
      service
      (some ("a.mkv" ∷ []))
      5
      (import_by_file_path 3 (Radarr.client movies) service (some ("a.mkv" ∷ [])) 5)
import_by_file_path-Imported_example =
    import_by_file_path-Imported 2 (Radarr.client movies) service (some ("a.mkv" ∷ [])) 5
      pages_bound wait_returns

bounds :
    (l : Library) (k : ℕ) (q : QueuePage)
    → (service_of l movies shows).queue k ≡ some q
    → q.total_records ≤ 2
bounds radarr k q h = pages_bound k q h
bounds sonarr k q h = pages_bound k q h

returns : (l : Library) (id : ℕ) → wait id ((service_of l movies shows).polls id) ≢ none
returns radarr = wait_returns
returns sonarr = wait_returns

abbrev not_there : ImportCall → ImportAnswer
not_there _ = not_found

-- Whatever the path, neither library knows it.
agree_of :
    (l : Library) (p : Option FilePath) (n : ℕ) → answer_of l 3 movies shows p n ≡ some not_found
unfolding answer_of import_movie import_episode Radarr.client Sonarr.client get_movie_by_file_path
    or_folder get_movie_by_title parsed_movie movie_id get_episode_by_file_path parsed_episode
    episode_id import_by_file_path find_tracked_download_id tracked_of import_tracked after_post
    after_wait after_no_imports wait wait_loop after_answer classify is_failure lower_is equal_fold
agree_of radarr p n = refl
agree_of sonarr p n = refl

agree : (call : ImportCall) → library_answer 3 movies shows call ≡ some (not_there call)
unfolding library_answer
agree call = agree_of call.library call.path call.size

notify-IsUnwanted_example :
    (call : ImportCall) × ((notify not_there input transcoded).0 ≡ some call)
    × IsUnwanted 3
        (client_of call.library movies shows)
        (service_of call.library movies shows)
        call.path
unfolding notify notify_library get_arr_library substitute rel import_file after_import
notify-IsUnwanted_example =
    notify-IsUnwanted 2 movies shows not_there input transcoded bounds returns agree refl

-- A poster of the movie, which the service redirects to another host.
abbrev base_url : Url
base_url = record { scheme = "https"; host = "arr"; path = "/radarr/" }

abbrev web : Web
web = record {
  parse = λ s. some (record { scheme = "https"; host = "arr"; path = "/radarr/1.jpg" });
  print = λ u. "https://arr/radarr";
  get = λ u k. record {
    redirects = record { scheme = "https"; host = "cdn"; path = "/radarr/1.jpg" } ∷ [];
    response = some (record { status = 200; mime_type = some "image/jpeg"; body = some (9, 1) });
  };
}

abbrev images : List Image
images = record { cover_type = "poster"; url = "/1.jpg"; remote_url = ""; extension = ".JPG" } ∷ []

first_poster-IsSafe_example : IsSafe base_url (first_poster web base_url images)
first_poster-IsSafe_example = first_poster-IsSafe web base_url images

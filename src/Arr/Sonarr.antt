-- ===== src/Arr/Sonarr.antt =====
-- pkg/medialib/sonarr/client.go, and `Episode` of pkg/medialib/medialib.go: how Sonarr identifies an
-- episode and finds the size of its stored file.
use media_processor.Prelude.{
  ℕ, Bool, not, ◌||◌, ◌==◌, List, [], ◌∷◌, Option, none, some, String, if◌then◌else◌,
}
use media_processor.Files.Paths.{FilePath}
use media_processor.Media.Notify.{ImportAnswer}
use media_processor.Media.OutputPath.{strip_extension}
use media_processor.Arr.Import.{
  Lookup, found, missing, lookup_failed, Moment, at_size, Service, Client, name_of,
  import_by_file_path,
}

pub record Episode : Type 0 where
  pub id : ℕ
  pub series_id : ℕ
  pub title : String
  pub series_title : String
  pub year : ℕ
  pub season_number : ℕ
  pub episode_number : ℕ

-- An episode as a parse of a title reports it.
pub record ParsedEpisode : Type 0 where
  pub id : ℕ
  pub series_id : ℕ
  pub title : String
  pub season_number : ℕ
  pub episode_number : ℕ

-- A parse; the outer option is `ParsedEpisodeInfo`, the inner one the year of its
-- `SeriesTitleInfo`.
pub record Parsed : Type 0 where
  pub title : String
  pub info : Option (Option ℕ)
  pub episodes : List ParsedEpisode

pub record EpisodeDetails : Type 0 where
  pub has_file : Bool
  pub episode_file_id : ℕ

-- What Sonarr answers, `none` for an error; a parse may answer nothing, and a list of files may hold
-- a null.
pub record Sonarr : Type 0 where
  pub service : Service
  pub parse : Moment → String → Option (Option Parsed)
  pub episode_by_id : ℕ → Option EpisodeDetails
  pub episode_files : ℕ → Option (List (Option ℕ))

unfoldable pub year_or_zero : Option ℕ → ℕ
year_or_zero none = 0
year_or_zero (some y) = y

unfoldable pub first_episode : String → Option (Option ℕ) → List ParsedEpisode → Lookup Episode
unfolding year_or_zero
first_episode title none es = missing
first_episode title (some y) [] = missing
first_episode title (some y) (e ∷ es) = found (record {
  id = e.id;
  series_id = e.series_id;
  title = e.title;
  series_title = title;
  year = year_or_zero y;
  season_number = e.season_number;
  episode_number = e.episode_number;
})

unfoldable pub parsed_episode : Option (Option Parsed) → Lookup Episode
parsed_episode none = lookup_failed
parsed_episode (some none) = missing
parsed_episode (some (some p)) = first_episode p.title p.info p.episodes

-- `getEpisodeByFilePath`.
unfoldable pub get_episode_by_file_path : Sonarr → Moment → Option FilePath → Lookup Episode
get_episode_by_file_path s t p = parsed_episode (s.parse t (strip_extension (name_of p)))

unfoldable pub episode_id : Lookup Episode → Lookup ℕ
episode_id (found e) = found e.id
episode_id missing = missing
episode_id lookup_failed = lookup_failed

-- `episodeFileSize`.
unfoldable pub first_file : Option (List (Option ℕ)) → Option ℕ
first_file none = none
first_file (some []) = none
first_file (some (f ∷ fs)) = f

unfoldable pub size_of_details : Sonarr → Option EpisodeDetails → Option ℕ
size_of_details s none = none
size_of_details s (some d) =
    if not d.has_file || d.episode_file_id == 0
    then none
    else first_file (s.episode_files d.episode_file_id)

unfoldable pub size_of_episode : Sonarr → Lookup Episode → Option ℕ
size_of_episode s (found e) = size_of_details s (s.episode_by_id e.id)
size_of_episode s missing = none
size_of_episode s lookup_failed = none

unfoldable pub episode_file_size : Sonarr → Option FilePath → Option ℕ
episode_file_size s p = size_of_episode s (get_episode_by_file_path s at_size p)

unfoldable pub client : Sonarr → Client
client s = record {
  identify = λ t p. episode_id (get_episode_by_file_path s t p);
  stored_size = episode_file_size s;
  command = "DownloadedEpisodesScan";
}

-- `ImportByFilePath` of Sonarr.
unfoldable pub import_episode : ℕ → Sonarr → Option FilePath → ℕ → Option ImportAnswer
import_episode fuel s p expected = import_by_file_path fuel (client s) s.service p expected

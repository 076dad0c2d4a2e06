-- ===== src/Arr/Radarr.antt =====
-- pkg/medialib/radarr/client.go, and `Movie` of pkg/medialib/medialib.go: how Radarr identifies a
-- movie and finds the size of its stored file.
use media_processor.Prelude.{ℕ, Bool, Option, none, some, String, if◌then◌else◌}
use media_processor.Files.Paths.{FilePath}
use media_processor.Media.Notify.{ImportAnswer}
use media_processor.Media.OutputPath.{strip_extension}
use media_processor.Arr.Import.{
  Lookup, found, missing, lookup_failed, Moment, at_size, Service, Client, name_of, folder_of,
  import_by_file_path,
}

pub record Movie : Type 0 where
  pub id : ℕ
  pub title : String
  pub year : ℕ

-- The details that `movieFileSize` reads; no stored file is `none`.
pub record MovieDetails : Type 0 where
  pub has_file : Bool
  pub movie_file_size : Option ℕ

-- What Radarr answers, `none` for an error: a parse of a title finds a movie or none.
pub record Radarr : Type 0 where
  pub service : Service
  pub parse : Moment → String → Option (Option Movie)
  pub movie_by_id : ℕ → Option MovieDetails

-- `getMovieByTitle`.
unfoldable pub parsed_movie : Option (Option Movie) → Lookup Movie
parsed_movie none = lookup_failed
parsed_movie (some none) = missing
parsed_movie (some (some m)) = found m

unfoldable pub get_movie_by_title : Radarr → Moment → String → Lookup Movie
get_movie_by_title r t title = parsed_movie (r.parse t title)

-- Only a title that is not found leads to the name of the folder.
unfoldable pub or_folder : Lookup Movie → Lookup Movie → Lookup Movie
or_folder (found m) other = found m
or_folder missing other = other
or_folder lookup_failed other = lookup_failed

-- `getMovieByFilePath`.
unfoldable pub get_movie_by_file_path : Radarr → Moment → Option FilePath → Lookup Movie
get_movie_by_file_path r t p =
    or_folder (get_movie_by_title r t (strip_extension (name_of p)))
      (get_movie_by_title r t (name_of (folder_of p)))

unfoldable pub movie_id : Lookup Movie → Lookup ℕ
movie_id (found m) = found m.id
movie_id missing = missing
movie_id lookup_failed = lookup_failed

-- `movieFileSize`.
unfoldable pub size_of_details : Option MovieDetails → Option ℕ
size_of_details none = none
size_of_details (some d) = if d.has_file then d.movie_file_size else none

unfoldable pub size_of_movie : Radarr → Lookup Movie → Option ℕ
size_of_movie r (found m) = size_of_details (r.movie_by_id m.id)
size_of_movie r missing = none
size_of_movie r lookup_failed = none

unfoldable pub movie_file_size : Radarr → Option FilePath → Option ℕ
movie_file_size r p = size_of_movie r (get_movie_by_file_path r at_size p)

unfoldable pub client : Radarr → Client
client r = record {
  identify = λ t p. movie_id (get_movie_by_file_path r t p);
  stored_size = movie_file_size r;
  command = "DownloadedMoviesScan";
}

-- `ImportByFilePath` of Radarr.
unfoldable pub import_movie : ℕ → Radarr → Option FilePath → ℕ → Option ImportAnswer
import_movie fuel r p expected = import_by_file_path fuel (client r) r.service p expected

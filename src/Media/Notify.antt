-- ===== src/Media/Notify.antt =====
-- workflows/media/activities.go: the Notify activity and `getArrLibrary`. What a library answers to
-- an import is a parameter; a blank remote path is `none`.
pub mod Import
pub mod Tests
use media_processor.Prelude.{
  ℕ, Bool, true, false, Option, none, some, ◌==◌, ◌++◌, ◌⊎◌, inl, inr, if◌then◌else◌,
}
use media_processor.Files.Paths.{FilePath, rel}
use media_processor.Media.Types.{
  MediaType, movie_type, show_type, unknown_type, MediaInput, TranscodeOutput, NotifyOutput,
}

-- The two clients of an `Activities`.
pub data Library : Type 0 where
  radarr sonarr : Library

-- `ImportByFilePath`: done, `ErrNotFound`, `ErrNotUpgrade`, or another error.
pub data ImportAnswer : Type 0 where
  imported not_found not_upgrade import_failed : ImportAnswer

pub data NotifyError : Type 0 where
  -- `temporal.NewNonRetryableApplicationError`.
  non_retryable : NotifyError
  import_error : NotifyError

-- A call of `ImportByFilePath`.
pub record ImportCall : Type 0 where
  pub library : Library
  pub path : Option FilePath
  pub size : ℕ

unfoldable pub get_arr_library : MediaType → Option Library
get_arr_library movie_type = some radarr
get_arr_library show_type = some sonarr
get_arr_library (unknown_type _) = none

-- The path to import: the remote root in place of the output root. A path outside of the output
-- root, or none at all, is an error.
unfoldable pub substitute : FilePath → Option FilePath → Option FilePath → Option FilePath
substitute remote none _ = none
substitute remote (some output) none = none
substitute remote (some output) (some dest) =
    let r = rel output dest in if r.ups == 0 then some (r.downs ++ remote) else none

unfoldable pub after_import : ImportAnswer → NotifyError ⊎ NotifyOutput
after_import imported = inr (record { import_skipped = false })
after_import not_found = inr (record { import_skipped = true })
after_import not_upgrade = inr (record { import_skipped = true })
after_import import_failed = inl import_error

abbrev pub Notified : Type 0
Notified = Option ImportCall × (NotifyError ⊎ NotifyOutput)

unfoldable pub import_file : (ImportCall → ImportAnswer) → Library → ℕ → Option FilePath → Notified
import_file answer l n p =
    let call : ImportCall = record { library = l; path = p; size = n } in
    (some call, after_import (answer call))

-- The substituted path, which may be missing for an error.
abbrev pub import_substituted :
    (ImportCall → ImportAnswer) → Library → ℕ → Option FilePath → Notified
import_substituted answer l n none = (none, inl non_retryable)
import_substituted answer l n (some p) = import_file answer l n (some p)

unfoldable pub notify_library :
    (ImportCall → ImportAnswer) → MediaInput → TranscodeOutput → Option Library → Notified
notify_library answer i o none = (none, inl non_retryable)
notify_library answer i o (some l) = elim i.output_remote_path [
  | none ↦ import_file answer l o.dest_file_size_bytes o.dest_file_path
  | some remote ↦
      import_substituted answer l o.dest_file_size_bytes
        (substitute remote i.output_path o.dest_file_path)
]

-- `Notify`.
unfoldable pub notify : (ImportCall → ImportAnswer) → MediaInput → TranscodeOutput → Notified
notify answer i o = notify_library answer i o (get_arr_library i.media_type)

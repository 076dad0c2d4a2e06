-- ===== src/Watcher/Scan.antt =====
-- cmd/watcher/watcher.go: `scan` over the configured watches, and `newTemporalDispatch` as far as its
-- result goes. filepath.Abs, what is found under a path, os.Stat and the dispatch are parameters. The
-- callback of the walk returns no error but the context's, so neither does the walk.
pub mod Isolation
use media_processor.Prelude.{
  ℕ, zero, suc, Bool, true, false, List, [], ◌∷◌, ◌++◌, map, Option, none, some, String, str_eq,
  ◌⊎◌, inl, inr, if◌then◌else◌,
}
use media_processor.Text.{trim_space, lower_contains}
use media_processor.Files.Paths.{FilePath}
use media_processor.Media.Types.{MediaType, MediaInput}
use media_processor.Watcher.Walk.{
  Entry, Stat, Dispatch, dispatched, already_started, dispatch_failed, WalkError, Watch, Progress,
  Walked, visit_error, stopped, walk,
}

-- `WatchEntry` of internal/watcherconfig/config.go.
pub record WatchEntry : Type 0 where
  pub name : String
  pub input_path : String
  pub media_type : MediaType
  pub ignore_patterns : List (FilePath → Bool)
  pub preserve_source : Bool
  pub retain_empty_directories : Bool
  pub skip_crop_detection : Bool
  pub output_path : String
  pub output_remote_path : String

-- What stands at a watch root.
pub data Root : Type 0 where
  unreadable : Root
  readable : Entry → Root

-- filepath.Abs, the reading of a remote path, the roots, os.Stat and the dispatch.
pub record Surroundings : Type 0 where
  pub abs : String → Option FilePath
  pub parse : String → FilePath
  pub root : FilePath → Root
  pub stat : FilePath → Stat
  pub dispatch : MediaInput → Dispatch

pub data ScanError : Type 0 where
  watch_path_error blank_output output_path_error : String → ScanError
  walk_error : WalkError → ScanError

-- `errs`, the calls of the dispatch, and the statuses of the scans that ended, success or not.
pub record Scan : Type 0 where
  pub alive : ℕ
  pub errors : List ScanError
  pub sent : List MediaInput
  pub scans : List (String × Bool)

-- What ExecuteWorkflow answers: started, already started, or an InvalidArgument with its message or
-- another error; and the result of the dispatch.
pub data Execution : Type 0 where
  started running : Execution
  invalid_argument : String → Execution
  other_error : Execution

unfoldable pub temporal_dispatch : Execution → Dispatch
temporal_dispatch started = dispatched
temporal_dispatch running = already_started
temporal_dispatch (invalid_argument message) = dispatch_failed
temporal_dispatch other_error = dispatch_failed

-- `isMissingSearchAttributeError`, which decides on a line of the log.
unfoldable pub is_missing_search_attribute_error : Execution → Bool
is_missing_search_attribute_error (invalid_argument message) =
    lower_contains message "search attribute"
is_missing_search_attribute_error _ = false

unfoldable pub remote_path : Surroundings → String → Option FilePath
remote_path x s = if str_eq s "" then none else some (x.parse s)

unfoldable pub watch_of : Surroundings → WatchEntry → FilePath → FilePath → Watch
watch_of x w root output = record {
  name = w.name;
  media_type = w.media_type;
  preserve_source = w.preserve_source;
  retain_empty_directories = w.retain_empty_directories;
  skip_crop_detection = w.skip_crop_detection;
  watch_root = root;
  output_path = output;
  output_remote_path = remote_path x (trim_space w.output_remote_path);
  ignore_patterns = w.ignore_patterns;
  stat = x.stat;
  dispatch = x.dispatch;
}

unfoldable pub with_output :
    Surroundings → WatchEntry → FilePath → Option FilePath → ScanError ⊎ Watch
with_output x w root none = inl (output_path_error w.name)
with_output x w root (some output) = inr (watch_of x w root output)

unfoldable pub with_root : Surroundings → WatchEntry → Option FilePath → ScanError ⊎ Watch
with_root x w none = inl (watch_path_error w.name)
with_root x w (some root) =
    let output = trim_space w.output_path in
    if str_eq output "" then inl (blank_output w.name) else with_output x w root (x.abs output)

-- The paths of an entry, made absolute; an entry that has a bad one is passed over with an error.
unfoldable pub resolve : Surroundings → WatchEntry → ScanError ⊎ Watch
resolve x w = with_root x w (x.abs w.input_path)

-- filepath.WalkDir from the watch root.
unfoldable pub walk_root : Watch → Root → Progress → Walked
walk_root w unreadable s = stopped (visit_error w.watch_root s)
walk_root w (readable e) s = walk w w.watch_root e s

-- The counts of a mapping start at zero.
abbrev pub begin : ℕ → Progress
begin alive = record {
  alive = alive;
  errors = [];
  sent = [];
  counted = 0;
  submitted = 0;
  failed = 0;
}

abbrev pub no_errors : List WalkError → Bool
no_errors [] = true
no_errors (e ∷ es) = false

-- The end of a mapping; the context's error is returned at once, and nothing is counted.
unfoldable pub after_walk : Watch → Scan → Walked → Scan × Bool
after_walk w s (p, true) = (record s { alive = p.alive; sent = s.sent ++ p.sent }, true)
after_walk w s (p, false) = (
  record s {
    alive = p.alive;
    errors = s.errors ++ map walk_error p.errors;
    sent = s.sent ++ p.sent;
    scans = s.scans ++ (w.name, no_errors p.errors) ∷ [];
  },
  false,
)

unfoldable pub scan_resolved : Surroundings → ScanError ⊎ Watch → Scan → Scan × Bool
scan_resolved x (inl e) s = (record s { errors = s.errors ++ e ∷ [] }, false)
scan_resolved x (inr w) s = after_walk w s (walk_root w (x.root w.watch_root) (begin s.alive))

-- The look at the context before a mapping.
unfoldable pub scan_mapping : Surroundings → WatchEntry → ℕ → Scan → Scan × Bool
scan_mapping x w zero s = (s, true)
scan_mapping x w (suc n) s = scan_resolved x (resolve x w) (record s { alive = n })

unfoldable pub unless_ended : Scan × Bool → (Scan → Scan × Bool) → Scan × Bool
unless_ended (s, true) rest = (s, true)
unless_ended (s, false) rest = rest s

-- `scan`; the flag says that the context ended it.
unfoldable pub scan : Surroundings → List WatchEntry → Scan → Scan × Bool
scan x [] s = (s, false)
scan x (w ∷ ws) s = unless_ended (scan_mapping x w s.alive s) (scan x ws)

-- ===== src/Watcher/Walk.antt =====
-- cmd/watcher/watcher.go: the walk of one watch directory in `scan`. The tree under the directory,
-- the answers of os.Stat and of the dispatch, and the patterns are parameters. The context is alive
-- for a number of looks at it. Counters of metrics are fields of the state.
pub mod Selection
use Prim.Native.String.{◌++◌ as str_append}
use media_processor.Prelude.{
  ℕ, zero, suc, ◌+◌, Bool, true, false, ◌&&◌, ◌||◌, List, [], ◌∷◌, ◌++◌, Option, none, some, String,
  if◌then◌else◌,
}
use media_processor.Text.{has_prefix}
use media_processor.Files.Paths.{FilePath, base}
use media_processor.Media.Types.{MediaType, MediaInput}
use media_processor.Media.Probe.{has_suffix}
use media_processor.Media.Cleanup.{sentinel_path}

-- What filepath.WalkDir finds: a file, or a directory with its entries in their order. The flag says
-- that reading the directory failed, with the entries that were read before it.
mutual
  pub data Entry : Type 0 where
    plain : Entry
    folder : Bool → Entries → Entry

  pub data Entries : Type 0 where
    end : Entries
    entry : String → Entry → Entries → Entries

-- What os.Stat says of a sentinel.
pub data Stat : Type 0 where
  present absent stat_failed : Stat

-- What a dispatch returns: nil, `errWorkflowAlreadyStarted`, or another error.
pub data Dispatch : Type 0 where
  dispatched already_started dispatch_failed : Dispatch

pub data WalkError : Type 0 where
  access_error sentinel_error dispatch_error : FilePath → WalkError

-- One watch, with its paths resolved, and its surroundings.
pub record Watch : Type 0 where
  pub name : String
  pub media_type : MediaType
  pub preserve_source : Bool
  pub retain_empty_directories : Bool
  pub skip_crop_detection : Bool
  pub watch_root : FilePath
  pub output_path : FilePath
  pub output_remote_path : Option FilePath
  pub ignore_patterns : List (FilePath → Bool)
  pub stat : FilePath → Stat
  pub dispatch : MediaInput → Dispatch

-- `alive` counts the looks at the context that still see it alive; `sent` holds the calls of the
-- dispatch; `counted`, `submitted` and `failed` are `filesDiscovered` with its counter, and the
-- counters of dispatches and of dispatch errors.
pub record Progress : Type 0 where
  pub alive : ℕ
  pub errors : List WalkError
  pub sent : List MediaInput
  pub counted : ℕ
  pub submitted : ℕ
  pub failed : ℕ

-- What the callback returns: nil, `filepath.SkipDir`, or the error of the context.
pub data Next : Type 0 where
  go_on skip_dir stop : Next

unfoldable pub matches_any : List (FilePath → Bool) → FilePath → Bool
matches_any [] p = false
matches_any (m ∷ ms) p = m p || matches_any ms p

-- A hidden .BASENAME.done marker.
unfoldable pub is_sentinel : FilePath → Bool
unfolding base
is_sentinel p = has_prefix (base p) "." && has_suffix (base p) ".done"

unfoldable pub media_input : Watch → FilePath → MediaInput
media_input w p = record {
  file_path = p;
  media_type = w.media_type;
  mapping_name = w.name;
  preserve_source = w.preserve_source;
  watch_root = some w.watch_root;
  retain_empty_directories = w.retain_empty_directories;
  skip_crop_detection = w.skip_crop_detection;
  output_path = some w.output_path;
  output_remote_path = w.output_remote_path;
}

unfoldable pub add_error : WalkError → Progress → Progress
add_error e s = record s { errors = s.errors ++ e ∷ [] }

-- The switch on the result of a dispatch.
unfoldable pub after_dispatch : FilePath → Dispatch → Progress → Progress
after_dispatch p dispatched s = record s { submitted = s.submitted + 1 }
after_dispatch p already_started s = s
after_dispatch p dispatch_failed s = record s {
  errors = s.errors ++ dispatch_error p ∷ [];
  failed = s.failed + 1;
}

unfoldable pub dispatch_file : Watch → FilePath → Progress → Progress
unfolding after_dispatch
dispatch_file w p s =
    after_dispatch p (w.dispatch (media_input w p))
      (record s { counted = s.counted + 1; sent = s.sent ++ media_input w p ∷ [] })

unfoldable pub after_stat : Watch → FilePath → Stat → Progress → Progress
unfolding add_error
after_stat w p present s = s
after_stat w p absent s = dispatch_file w p s
after_stat w p stat_failed s = add_error (sentinel_error p) s

-- A file that no pattern matches.
unfoldable pub visit_file : Watch → FilePath → Progress → Progress
visit_file w p s = if is_sentinel p then s else after_stat w p (w.stat (sentinel_path p)) s

-- The callback without an error of the walk, for a directory or a file.
unfoldable pub visit_alive : Watch → FilePath → Bool → Progress → Progress × Next
visit_alive w p is_dir s =
    if matches_any w.ignore_patterns p
    then (s, if is_dir then skip_dir else go_on)
    else if is_dir
    then (s, go_on)
    else (visit_file w p s, go_on)

-- The look at the context that comes first, and the rest of the callback.
unfoldable pub while_alive : ℕ → Progress → (Progress → Progress × Next) → Progress × Next
while_alive zero s rest = (s, stop)
while_alive (suc n) s rest = rest (record s { alive = n })

unfoldable pub visit : Watch → FilePath → Bool → Progress → Progress × Next
unfolding while_alive
visit w p is_dir s = while_alive s.alive s (visit_alive w p is_dir)

-- The callback with an error of the walk.
unfoldable pub visit_error : FilePath → Progress → Progress × Next
unfolding while_alive add_error
visit_error p s = while_alive s.alive s (λ s'. (add_error (access_error p) s', go_on))

-- A walk returns whether the context ended it.
abbrev pub Walked : Type 0
Walked = Progress × Bool

unfoldable pub and_then : Walked → (Progress → Walked) → Walked
and_then (s, true) rest = (s, true)
and_then (s, false) rest = rest s

unfoldable pub stopped : Progress × Next → Walked
stopped (s, stop) = (s, true)
stopped (s, _) = (s, false)

unfoldable pub enter : Progress × Next → (Progress → Walked) → Walked
enter (s, stop) rest = (s, true)
enter (s, skip_dir) rest = (s, false)
enter (s, go_on) rest = rest s

-- A failure to read a directory is a second call of the callback.
unfoldable pub read_entries : FilePath → Bool → (Progress → Walked) → Progress → Walked
unfolding and_then stopped
read_entries p false rest s = rest s
read_entries p true rest s = and_then (stopped (visit_error p s)) rest

-- filepath.WalkDir from an entry.
unfoldable mutual
  unfolding and_then stopped enter read_entries

  pub walk : Watch → FilePath → Entry → Progress → Walked
  walk w p plain s = stopped (visit w p false s)
  walk w p (folder failed es) s =
      enter (visit w p true s) (read_entries p failed (walk_entries w p es))

  pub walk_entries : Watch → FilePath → Entries → Progress → Walked
  walk_entries w p end s = (s, false)
  walk_entries w p (entry name e es) s = and_then (walk w (name ∷ p) e s) (walk_entries w p es)

-- ===== src/Media/Cleanup.antt =====
-- workflows/media/cleanup.go and `Activities.Cleanup` of activities.go.
pub mod Prune
pub mod Exhaustion
pub mod Effects
pub mod Tests
use Prim.Native.String.{◌++◌}
use media_processor.Prelude.{
  ℕ, ltb, Bool, true, false, ◌&&◌, ◌||◌, not, List, [], ◌∷◌, Option, none, some, String,
  if◌then◌else◌,
}
use media_processor.Files.Paths.{FilePath, dir, rel}
use media_processor.Files.Tree.{
  Tree, Node, file, directory, lookup, write, is_empty, remove, Removed, gone, not_exist, refused,
}
use media_processor.Media.Types.{MediaInput, TranscodeOutput, NotifyOutput}

-- What the file system may refuse beyond what the tree shows.
pub record Faults : Type 0 where
  pub remove_fails : FilePath → Bool
  pub write_fails : FilePath → Bool
  pub open_fails : FilePath → Bool

-- An error of one of the operations below, by the step that made it.
pub data CleanupError : Type 0 where
  write_sentinel_error delete_output_error delete_source_error : CleanupError

-- .BASENAME.done beside the file.
unfoldable pub sentinel_path : FilePath → FilePath
sentinel_path [] = []
sentinel_path (b ∷ d) = ("." ++ b ++ ".done") ∷ d

-- `WriteSentinel`: the contents are empty.
unfoldable pub write_sentinel : Faults → FilePath → Tree → Tree × Option CleanupError
write_sentinel f p t =
    if f.write_fails (sentinel_path p)
    then (t, some write_sentinel_error)
    else (write t (sentinel_path p) (file 0), none)

-- An error other than os.ErrNotExist.
unfoldable pub remove_error : Removed → CleanupError → Option CleanupError
remove_error gone e = none
remove_error not_exist e = none
remove_error refused e = some e

-- `RemoveOutputFile`.
unfoldable pub remove_output_file : Faults → Option FilePath → Tree → Tree × Option CleanupError
unfolding remove_error
remove_output_file f none t = (t, none)
remove_output_file f (some p) t =
    let (t', r) = remove t p (f.remove_fails p) in (t', remove_error r delete_output_error)

-- What os.Remove of a directory leads to: the loop goes on, or stops.
unfoldable pub after_remove : Tree × Removed → (Tree → Tree) → Tree
after_remove (t, gone) rest = rest t
after_remove (t, not_exist) rest = rest t
after_remove (t, refused) rest = t

-- One directory of the loop of `pruneEmptyParents`, which the open root finds by `lookup`.
unfoldable pub prune_one : Faults → FilePath → Tree → Option Node → (Tree → Tree) → Tree
unfolding after_remove
prune_one f d t none rest = t
prune_one f d t (some (file c)) rest = t
prune_one f d t (some directory) rest =
    if f.open_fails d || not (is_empty t d)
    then t
    else after_remove (remove t d (f.remove_fails d)) rest

-- The loop of `pruneEmptyParents`, from a directory to its parents. It ends at the root, outside
-- it, and at / at the latest.
unfoldable pub prune_loop : Faults → FilePath → FilePath → Tree → Tree
unfolding prune_one
prune_loop f root [] t = t
prune_loop f root (b ∷ d) t =
    let r = rel root (b ∷ d) in
    let next = prune_one f (b ∷ d) t (lookup t (b ∷ d)) (prune_loop f root d) in
    elim r.downs [ [] ↦ t | _ ∷ _ ↦ if ltb 0 r.ups then t else next ]

-- `pruneEmptyParents`; a blank watch root is `none`.
unfoldable pub prune_empty_parents : Faults → FilePath → Option FilePath → Tree → Tree
prune_empty_parents f p none t = t
prune_empty_parents f p (some root) t = if f.open_fails root then t else prune_loop f root (dir p) t

-- `PruneOutputDirs`.
unfoldable pub prune_output_dirs : Faults → Option FilePath → Option FilePath → Tree → Tree
prune_output_dirs f none output_root t = t
prune_output_dirs f (some p) output_root t = prune_empty_parents f p output_root t

-- `RunCleanup`.
unfoldable pub run_cleanup :
    Faults → FilePath → Option FilePath → Bool → Tree → Tree × Option CleanupError
unfolding remove_error
run_cleanup f p watch_root retain_empty_dirs t =
    let (t', r) = remove t p (f.remove_fails p) in
    elim (remove_error r delete_source_error) [
      | some e ↦ (t', some e)
      | none ↦ (if retain_empty_dirs then t' else prune_empty_parents f p watch_root t', none)
    ]

-- The last part of `Cleanup`: the output side is pruned only after the source side succeeded.
unfoldable pub finish_cleanup :
    Faults → MediaInput → TranscodeOutput → Tree × Option CleanupError → Tree × Option CleanupError
finish_cleanup f input transcode (t, some e) = (t, some e)
finish_cleanup f input transcode (t, none) = (
  if input.retain_empty_directories
      then t
      else prune_output_dirs f transcode.dest_file_path input.output_path t,
  none,
)

-- The source side of `Cleanup`.
unfoldable pub cleanup_source : Faults → MediaInput → Tree → Tree × Option CleanupError
cleanup_source f input t =
    if input.preserve_source
    then write_sentinel f input.file_path t
    else run_cleanup f input.file_path input.watch_root input.retain_empty_directories t

-- `Activities.Cleanup`.
unfoldable pub cleanup :
    Faults → MediaInput → TranscodeOutput → NotifyOutput → Tree → Tree × Option CleanupError
cleanup f input transcode notify t =
    let (t', e) =
      if notify.import_skipped
      then remove_output_file f transcode.dest_file_path t
      else (t, none) in
    elim e [
      | some e' ↦ (t', some e')
      | none ↦ finish_cleanup f input transcode (cleanup_source f input t')
    ]

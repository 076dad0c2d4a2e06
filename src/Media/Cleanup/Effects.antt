-- ===== src/Media/Cleanup/Effects.antt =====
-- workflows/media/cleanup.go and activities.go: what the cleanup activity leaves on disk.
use media_processor.Prelude.{
  ℕ, ◌≡◌, ◌≢◌, refl, ap, ◌⊎◌, inl, inr, Bool, true, false, Option, none, some, arith, Bool-cases,
}
use media_processor.Files.Paths.{FilePath, same_path, same_path_iff}
use media_processor.Files.Tree.{
  Tree, file, directory, lookup, remove, refused, lookup-write, lookup-erase,
}
use media_processor.Media.Types.{MediaInput, TranscodeOutput, NotifyOutput}
use media_processor.Media.Cleanup.{
  Faults, CleanupError, sentinel_path, write_sentinel, remove_output_file, run_cleanup,
  prune_empty_parents, prune_output_dirs, cleanup_source, finish_cleanup, cleanup,
}
use media_processor.Media.Cleanup.Prune.{prune_empty_parents_outcome}

-- A path that pruning can only keep or find gone: never a new entry, never a file less.
abbrev pub Survives : Tree → Tree → FilePath → Type 0
Survives t t' q =
    (lookup t' q ≡ lookup t q) ⊎ ((lookup t q ≡ some directory) × (lookup t' q ≡ none))

pub prune_empty_parents-Survives :
    (f : Faults) (p : FilePath) (root : Option FilePath) (t : Tree) (q : FilePath)
    → Survives t (prune_empty_parents f p root t) q
unfolding prune_empty_parents
prune_empty_parents-Survives f p none t q = inl refl
prune_empty_parents-Survives f p (some root) t q =
    ground (arith, prune_empty_parents_outcome f p root t q)

prune_output_dirs-Survives :
    (f : Faults) (p root : Option FilePath) (t : Tree) (q : FilePath)
    → Survives t (prune_output_dirs f p root t) q
unfolding prune_output_dirs
prune_output_dirs-Survives f none root t q = inl refl
prune_output_dirs-Survives f (some p) root t q = prune_empty_parents-Survives f p root t q

pub remove_gone :
    (t : Tree) (p : FilePath) (fault : Bool)
    → (lookup (remove t p fault).0 p ≡ none) ⊎ ((remove t p fault).1 ≡ refused)
unfolding remove
remove_gone t p fault = ground (arith, lookup-erase t p p, same_path_iff p p)

pub remove_other :
    (t : Tree) (p q : FilePath) (fault : Bool) → p ≢ q → lookup (remove t p fault).0 q ≡ lookup t q
unfolding remove
remove_other t p q fault n = ground (arith, lookup-erase t p q, same_path_iff p q)

-- The reasons for which a regular file may be gone or rewritten.
abbrev pub Touched : MediaInput → TranscodeOutput → NotifyOutput → FilePath → Type 0
Touched input transcode notify q =
    ((input.file_path ≡ q) × (input.preserve_source ≡ false))
    ⊎ ((sentinel_path input.file_path ≡ q) × (input.preserve_source ≡ true))
    ⊎ ((transcode.dest_file_path ≡ some q) × (notify.import_skipped ≡ true))

run_cleanup_other :
    (f : Faults) (p : FilePath) (root : Option FilePath) (retain : Bool) (t : Tree) (q : FilePath)
    (c : ℕ)
    → p ≢ q
    → lookup t q ≡ some (file c)
    → lookup (run_cleanup f p root retain t).0 q ≡ some (file c)
unfolding run_cleanup
run_cleanup_other f p root retain t q c n h = ground (
  arith,
  remove_other t p q (f.remove_fails p),
  prune_empty_parents-Survives f p root (remove t p (f.remove_fails p)).0 q,
)

source_other :
    (f : Faults) (input : MediaInput) (t : Tree) (q : FilePath) (c : ℕ)
    → lookup t q ≡ some (file c)
    → (lookup (cleanup_source f input t).0 q ≡ some (file c))
      ⊎ ((input.file_path ≡ q) × (input.preserve_source ≡ false))
      ⊎ ((sentinel_path input.file_path ≡ q) × (input.preserve_source ≡ true))
unfolding cleanup_source write_sentinel
source_other f input t q c h = elim (Bool-cases (same_path input.file_path q)) [
  | inl hit ↦ ground (
    arith,
    (same_path_iff input.file_path q).0 hit,
    lookup-write t (sentinel_path input.file_path) q (file 0),
    same_path_iff (sentinel_path input.file_path) q,
  )
  | inr miss ↦ ground (
    arith,
    lookup-write t (sentinel_path input.file_path) q (file 0),
    same_path_iff (sentinel_path input.file_path) q,
    run_cleanup_other f input.file_path input.watch_root input.retain_empty_directories t q c
        (λ e. cc ((same_path_iff input.file_path q).1 e)) h,
  )
]

output_other :
    (f : Faults) (dest : Option FilePath) (t : Tree) (q : FilePath)
    → (lookup (remove_output_file f dest t).0 q ≡ lookup t q) ⊎ (dest ≡ some q)
unfolding remove_output_file
output_other f none t q = inl refl
output_other f (some p) t q = elim (Bool-cases (same_path p q)) [
  | inl hit ↦ inr (ap some ((same_path_iff p q).0 hit))
  | inr miss ↦ inl (remove_other t p q (f.remove_fails p) (λ e. cc ((same_path_iff p q).1 e)))
]

finish_other :
    (f : Faults) (input : MediaInput) (transcode : TranscodeOutput) (r : Tree × Option CleanupError)
    (q : FilePath) (c : ℕ)
    → lookup r.0 q ≡ some (file c)
    → lookup (finish_cleanup f input transcode r).0 q ≡ some (file c)
unfolding finish_cleanup
finish_other f input transcode (t, some e) q c h = h
finish_other f input transcode (t, none) q c h =
    ground (arith, prune_output_dirs-Survives f transcode.dest_file_path input.output_path t q)

-- The activity deletes or rewrites no regular file but the source, when it is not preserved, the
-- sentinel, when it is, and the output file, when the import was skipped.
pub cleanup_touches_only :
    (f : Faults) (input : MediaInput) (transcode : TranscodeOutput) (notify : NotifyOutput)
    (t : Tree) (q : FilePath) (c : ℕ)
    → lookup t q ≡ some (file c)
    → (lookup (cleanup f input transcode notify t).0 q ≡ some (file c))
      ⊎ Touched input transcode notify q
unfolding cleanup
cleanup_touches_only f input transcode notify t q c h = ground (
  arith,
  output_other f transcode.dest_file_path t q,
  source_other f input t q c,
  source_other f input (remove_output_file f transcode.dest_file_path t).0 q c,
  finish_other f input transcode (cleanup_source f input t) q c,
  finish_other f input transcode
      (cleanup_source f input (remove_output_file f transcode.dest_file_path t).0) q c,
)

run_cleanup_ok :
    (f : Faults) (p : FilePath) (root : Option FilePath) (retain : Bool) (t : Tree)
    → (run_cleanup f p root retain t).1 ≡ none
    → lookup (run_cleanup f p root retain t).0 p ≡ none
unfolding run_cleanup
run_cleanup_ok f p root retain t ok = ground (
  arith,
  remove_gone t p (f.remove_fails p),
  prune_empty_parents-Survives f p root (remove t p (f.remove_fails p)).0 p,
)

abbrev pub SourceDone : MediaInput → Tree → Type 0
SourceDone input t =
    ((input.preserve_source ≡ false) × (lookup t input.file_path ≡ none))
    ⊎ ((input.preserve_source ≡ true) × (lookup t (sentinel_path input.file_path) ≡ some (file 0)))

source_ok :
    (f : Faults) (input : MediaInput) (t : Tree)
    → (cleanup_source f input t).1 ≡ none
    → SourceDone input (cleanup_source f input t).0
unfolding cleanup_source write_sentinel
source_ok f input t ok = ground (
  arith,
  run_cleanup_ok f input.file_path input.watch_root input.retain_empty_directories t,
  lookup-write t (sentinel_path input.file_path) (sentinel_path input.file_path) (file 0),
  same_path_iff (sentinel_path input.file_path) (sentinel_path input.file_path),
)

finish_ok :
    (f : Faults) (input : MediaInput) (transcode : TranscodeOutput) (r : Tree × Option CleanupError)
    → (r.1 ≡ none → SourceDone input r.0)
    → (finish_cleanup f input transcode r).1 ≡ none
    → SourceDone input (finish_cleanup f input transcode r).0
unfolding finish_cleanup
finish_ok f input transcode (t, some e) done ok = cc
finish_ok f input transcode (t, none) done ok = ground (
  arith,
  done refl,
  prune_output_dirs-Survives f transcode.dest_file_path input.output_path t input.file_path,
  prune_output_dirs-Survives f transcode.dest_file_path input.output_path t
      (sentinel_path input.file_path),
)

-- When the activity succeeds, either the source is gone, or it is preserved and its sentinel is
-- there.
pub cleanup-SourceDone :
    (f : Faults) (input : MediaInput) (transcode : TranscodeOutput) (notify : NotifyOutput)
    (t : Tree)
    → (cleanup f input transcode notify t).1 ≡ none
    → SourceDone input (cleanup f input transcode notify t).0
unfolding cleanup
cleanup-SourceDone f input transcode notify t ok = ground (
  arith,
  finish_ok f input transcode (cleanup_source f input t) (source_ok f input t),
  finish_ok f input transcode
      (cleanup_source f input (remove_output_file f transcode.dest_file_path t).0)
      (source_ok f input (remove_output_file f transcode.dest_file_path t).0),
)

-- ===== src/Media/Cleanup/Tests.antt =====
-- Instances of the cleanup theorems on a small tree.
use media_processor.Prelude.{◌≡◌, ◌⊎◌, refl, false, [], ◌∷◌, none, some}
use media_processor.Files.Paths.{FilePath, dir, same_path}
use media_processor.Files.Tree.{Tree, file, directory, lookup, remove}
use media_processor.Media.Types.{movie_type, MediaInput, TranscodeOutput, NotifyOutput}
use media_processor.Media.Cleanup.{
  Faults, remove_error, run_cleanup, finish_cleanup, cleanup_source, cleanup, prune_empty_parents,
}
use media_processor.Media.Cleanup.Prune.{PruneOutcome, prune_empty_parents_outcome}
use media_processor.Media.Cleanup.Effects.{
  Touched, SourceDone, cleanup_touches_only, cleanup-SourceDone,
}

abbrev no_faults : Faults
no_faults = record { remove_fails = λ _. false; write_fails = λ _. false; open_fails = λ _. false }

abbrev downloads : FilePath
downloads = "downloads" ∷ []

abbrev show : FilePath
show = "show" ∷ downloads

abbrev episode : FilePath
episode = "ep.ts" ∷ show

abbrev made : FilePath
made = "ep.mkv" ∷ "output" ∷ []

abbrev tree : Tree
tree =
    (episode, file 1)
    ∷ (made, file 2)
    ∷ (show, directory)
    ∷ (downloads, directory)
    ∷ ("output" ∷ [], directory)
    ∷ ([], directory)
    ∷ []

-- The tree once the episode is gone.
abbrev bare : Tree
bare = (show, directory) ∷ (downloads, directory) ∷ ([], directory) ∷ []

abbrev input : MediaInput
input = record {
  file_path = episode;
  media_type = movie_type;
  mapping_name = "shows";
  preserve_source = false;
  watch_root = some downloads;
  retain_empty_directories = false;
  skip_crop_detection = false;
  output_path = some ("output" ∷ []);
  output_remote_path = none;
}

abbrev transcoded : TranscodeOutput
transcoded = record {
  dest_codec = "hevc";
  dest_container = "mkv";
  dest_file_path = some made;
  source_file_size_bytes = 10;
  dest_file_size_bytes = 5;
  artwork_fetch_skipped = false;
  crop_applied = false;
  hardware_accelerated = false;
}

abbrev imported : NotifyOutput
imported = record { import_skipped = false }

cleanup_touches_only_example :
    (lookup (cleanup no_faults input transcoded imported tree).0 made ≡ some (file 2))
    ⊎ Touched input transcoded imported made
unfolding lookup same_path
cleanup_touches_only_example =
    cleanup_touches_only no_faults input transcoded imported tree made 2 refl

cleanup-SourceDone_example : SourceDone input (cleanup no_faults input transcoded imported tree).0
unfolding cleanup finish_cleanup cleanup_source run_cleanup remove_error remove lookup same_path
cleanup-SourceDone_example = cleanup-SourceDone no_faults input transcoded imported tree refl

prune_empty_parents_outcome_example :
    PruneOutcome downloads show bare
      (prune_empty_parents no_faults episode (some downloads) bare)
      show
unfolding dir
prune_empty_parents_outcome_example =
    prune_empty_parents_outcome no_faults episode downloads bare show

-- ===== src/Watcher/Tests.antt =====
-- Instances of the theorems on the watcher: a directory with a marked file, an ignored directory and
-- a file that is to be dispatched.
use media_processor.Prelude.{
  ℕ, zero, suc, inl, ◌≡◌, refl, true, false, List, [], ◌∷◌, none, some, length, replicate, str_eq,
  AnyIn,
}
use media_processor.Files.Paths.{FilePath, base, same_path}
use media_processor.Files.Tree.{Tree, file, lookup, write}
use media_processor.Media.Types.{movie_type, MediaInput, TranscodeOutput, NotifyOutput}
use media_processor.Media.Cleanup.{
  Faults, sentinel_path, cleanup, cleanup_source, write_sentinel, finish_cleanup, prune_output_dirs,
}
use media_processor.Watcher.Walk.{plain, folder, end, entry, dispatched}
use media_processor.Watcher.Scan.{WatchEntry, Root, readable, Surroundings, Scan, scan}
use media_processor.Watcher.Scan.Isolation.{scan_selection, Scans, scan-Scans}
use media_processor.Watcher.Sentinels.{tree_stat, IsOf, cleanup-scan}
use media_processor.Watcher.Ids.{
  workflow_id, truncate_to_runes, replace_runs, is_valid, sanitize_workflow_id_segment, trim_dots,
  trim_segments, join_id,
}
use media_processor.Watcher.Ids.Bounds.{
  IsAllowed, All, IsWorkflowId, workflow_id-IsWorkflowId, truncate_to_runes-take,
}

abbrev downloads : FilePath
downloads = "downloads" ∷ []

-- a.mkv is marked, tmp is ignored, and b.mkv is new.
abbrev found : Root
found = readable (
    folder false (
      entry ".a.mkv.done" plain (
        entry "a.mkv" plain
          (entry "b.mkv" plain (entry "tmp" (folder false (entry "c.mkv" plain end)) end)))))

abbrev marked : Tree
marked = (".a.mkv.done" ∷ downloads, file 0) ∷ []

abbrev surroundings : Surroundings
surroundings = record {
  abs = λ s. some (s ∷ []);
  parse = λ s. s ∷ [];
  root = λ p. found;
  stat = λ p. tree_stat (lookup marked p);
  dispatch = λ i. dispatched;
}

abbrev movies : WatchEntry
movies = record {
  name = "movies";
  input_path = "downloads";
  media_type = movie_type;
  ignore_patterns = (λ p. str_eq (base p) "tmp") ∷ [];
  preserve_source = true;
  retain_empty_directories = false;
  skip_crop_detection = false;
  output_path = " output ";
  output_remote_path = "";
}

abbrev idle : Scan
idle = record { alive = 100; errors = []; sent = []; scans = [] }

scan-Scans_example :
    Scans idle (scan_selection surroundings (movies ∷ [])) (scan surroundings (movies ∷ []) idle)
scan-Scans_example = scan-Scans surroundings (movies ∷ []) idle

abbrev input : MediaInput
input = record {
  file_path = "a.mkv" ∷ downloads;
  media_type = movie_type;
  mapping_name = "my movies";
  preserve_source = true;
  watch_root = some downloads;
  retain_empty_directories = false;
  skip_crop_detection = false;
  output_path = some ("output" ∷ []);
  output_remote_path = none;
}

abbrev renamed : MediaInput
renamed = record input { mapping_name = "my_movies" }

abbrev transcoded : TranscodeOutput
transcoded = record {
  dest_codec = "hevc";
  dest_container = "mkv";
  dest_file_path = none;
  source_file_size_bytes = 10;
  dest_file_size_bytes = 5;
  artwork_fetch_skipped = false;
  crop_applied = false;
  hardware_accelerated = false;
}

abbrev told : NotifyOutput
told = record { import_skipped = false }

abbrev no_faults : Faults
no_faults = record { remove_fails = λ p. false; write_fails = λ p. false; open_fails = λ p. false }

abbrev before : Tree
before = ("a.mkv" ∷ downloads, file 7) ∷ []

cleaned : (cleanup no_faults input transcoded told before).1 ≡ none
unfolding cleanup cleanup_source write_sentinel finish_cleanup
cleaned = refl

left :
    tree_stat (lookup marked (sentinel_path ("a.mkv" ∷ downloads)))
    ≡ tree_stat (
        lookup
          (cleanup no_faults input transcoded told before).0
          (sentinel_path ("a.mkv" ∷ downloads)))
unfolding cleanup cleanup_source write_sentinel finish_cleanup sentinel_path lookup write same_path
    prune_output_dirs
left = refl

cleanup-scan_example :
    ¬ AnyIn (IsOf ("a.mkv" ∷ downloads)) (scan surroundings (movies ∷ []) idle).0.sent
cleanup-scan_example =
    cleanup-scan no_faults input transcoded told before surroundings (movies ∷ []) idle cleaned refl
      left refl

abbrev digest : FilePath → List ℕ
digest p = replicate 64 b'a'

length-digest : length (digest input.file_path) ≡ 64
length-digest = refl

replicate-All : (n : ℕ) → All IsAllowed (replicate n b'a')
unfolding is_valid
replicate-All zero = tt
replicate-All (suc n) = (inl refl, replicate-All n)

digest-All : All IsAllowed (digest input.file_path)
digest-All = replicate-All 64

workflow_id-IsWorkflowId_example : IsWorkflowId digest input (workflow_id digest input)
workflow_id-IsWorkflowId_example = workflow_id-IsWorkflowId digest input length-digest digest-All

same_id : workflow_id digest input ≡ workflow_id digest renamed
unfolding workflow_id sanitize_workflow_id_segment replace_runs trim_dots trim_segments is_valid
    join_id base
same_id = refl

truncate_to_runes-take_example : truncate_to_runes (233 ∷ 233 ∷ 65 ∷ []) 2 ≡ 233 ∷ 233 ∷ []
truncate_to_runes-take_example = truncate_to_runes-take (233 ∷ 233 ∷ 65 ∷ []) 2

-- ===== src/Media/Transcode/Tests.antt =====
-- Instances of the theorems on transcoding: a recording that is transcoded into a fresh directory.
use media_processor.Prelude.{◌*◌, ◌==◌, if◌then◌else◌, ◌≡◌, refl, true, false, [], ◌∷◌, none, some}
use media_processor.Prelude.Int.{pos}
use media_processor.Files.Paths.{FilePath, dir, same_path}
use media_processor.Files.Tree.{Tree, file, directory, lookup}
use media_processor.Media.OutputPath.{final_path, temp_path, effective_output_dir}
use media_processor.Media.Surroundings.{
  World, Encoded, encoded, not_media, probed, TranscodeRequest,
}
use media_processor.Media.Transcode.{run_transcode}
use media_processor.Media.Types.{TranscodeOutput}
use media_processor.Media.Transcode.Destination.{effective_output_dir_iff}
use media_processor.Media.Transcode.Atomic.{KeepsFinal, run_transcode_final, run_transcode_kept}

abbrev pub source : FilePath
source = "ep.ts" ∷ "show" ∷ "downloads" ∷ []

abbrev pub tree : Tree
tree =
    (source, file 1)
    ∷ ("show" ∷ "downloads" ∷ [], directory)
    ∷ ("downloads" ∷ [], directory)
    ∷ ([], directory)
    ∷ []

-- Contents 2 are a film of an hour; an encoder makes them.
abbrev pub world : Encoded → World
world e = record {
  size = λ c. c * 10;
  directory_size = 0;
  probe_media = λ c. if c == 2 then probed (pos 3_600) "hevc" else not_media;
  poster = none;
  encode = λ _ _. e;
  stat_fails = λ _ _. false;
  mkdir_fails = λ _. false;
  rename_fails = λ _. false;
  remove_fails = λ _. false;
}

abbrev pub request : TranscodeRequest
request = record {
  file_path = source;
  probe = record {
    is_valid_media = true;
    video_codec = "mpeg2video";
    format = "mpegts";
    duration = pos 3_600;
    audio_streams = [];
    subtitle_streams = [];
    video_width = pos 1920;
    video_height = pos 1080;
  };
  crop_params = none;
  output_dir = "output" ∷ [];
  watcher_root = some ("downloads" ∷ []);
  library = false;
  settings = record { h265_crf = pos 20; hardware_device = "" };
}

abbrev pub out : FilePath
out = "show" ∷ "output" ∷ []

placed : effective_output_dir request.output_dir request.watcher_root request.file_path ≡ some out
unfolding dir
placed =
    (effective_output_dir_iff ("output" ∷ []) ("downloads" ∷ []) source out).1
      ("show" ∷ [], refl, refl)

-- An earlier output of the same length.
abbrev earlier : Tree
earlier = ("ep.mkv" ∷ out, file 2) ∷ tree

run_transcode_final_example :
    KeepsFinal
      (world (encoded 2 false))
      request
      out
      tree
      (run_transcode (world (encoded 2 false)) request tree)
run_transcode_final_example = run_transcode_final (world (encoded 2 false)) request out tree placed

run_transcode_kept_example :
    lookup (run_transcode (world (encoded 2 false)) request tree).0 source ≡ some (file 1)
unfolding lookup same_path temp_path final_path
run_transcode_kept_example =
    run_transcode_kept (world (encoded 2 false)) request out tree source 1 placed (λ h. cc)
      (λ h. cc) refl

-- What the run reports.
abbrev pub result : TranscodeOutput
result = record {
  dest_codec = "hevc";
  dest_container = "mkv";
  dest_file_path = some ("ep.mkv" ∷ out);
  source_file_size_bytes = 10;
  dest_file_size_bytes = 20;
  artwork_fetch_skipped = false;
  crop_applied = false;
  hardware_accelerated = false;
}

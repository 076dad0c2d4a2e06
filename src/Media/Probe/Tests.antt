-- ===== src/Media/Probe/Tests.antt =====
-- An instance of the theorem on probes: an image is no media, and is deleted.
use media_processor.Prelude.{false, [], ◌∷◌, some}
use media_processor.Prelude.Int.{pos}
use media_processor.Files.Paths.{FilePath}
use media_processor.Files.Tree.{Tree, file, directory}
use media_processor.Media.Cleanup.{Faults}
use media_processor.Media.Probe.{video, FoundStream, MediaInfo, info, Policy, run_probe}
use media_processor.Media.Probe.Verdict.{Verdict, run_probe-Verdict}

abbrev no_faults : Faults
no_faults = record { remove_fails = λ _. false; write_fails = λ _. false; open_fails = λ _. false }

abbrev picture : FilePath
picture = "cover.png" ∷ "downloads" ∷ []

abbrev tree : Tree
tree = (picture, file 1) ∷ ("downloads" ∷ [], directory) ∷ ([], directory) ∷ []

abbrev still : FoundStream
still = record {
  index = 0;
  codec_type = video;
  codec_name = "png";
  width = pos 600;
  height = pos 900;
  audio_channel_count = 0;
  has_lfe = false;
  language = "";
  title = "";
}

abbrev image : MediaInfo
image = record { duration = pos 0; format = "png_pipe"; streams = still ∷ [] }

abbrev policy : Policy
policy = record {
  watch_root = some ("downloads" ∷ []);
  retain_empty_dirs = false;
  preserve_source = false;
}

run_probe-Verdict_example :
    Verdict picture policy (info image) tree (run_probe no_faults (info image) picture policy tree)
run_probe-Verdict_example = run_probe-Verdict no_faults (info image) picture policy tree

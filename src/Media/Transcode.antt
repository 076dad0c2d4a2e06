-- ===== src/Media/Transcode.antt =====
-- workflows/media/transcode.go: `RunTranscode`, but for the stream titles and the progress reports.
pub mod Destination
pub mod Steps
pub mod Placement
pub mod Atomic
pub mod Reusing
pub mod Tests
use Prim.Native.String.{◌++◌ as str_append}
use Prim.Native.Char.{code}
use media_processor.Prelude.{
  ℕ, ◌+◌, ◌-◌, ◌*◌, Bool, true, false, ◌&&◌, ◌||◌, not, List, [], ◌∷◌, ◌++◌, Option, none, some,
  String, ltb, leb, ◌==◌, map, ◌⊎◌, inl, inr, if◌then◌else◌,
}
use media_processor.Prelude.Int.{ℤ, pos, pos_part, leb_ℤ}
use media_processor.Files.Paths.{FilePath, Relative, dir, base, rel}
use media_processor.Files.Tree.{
  Tree, Node, file, directory, lookup, write, erase, remove, Removed, gone, not_exist, refused,
}
use media_processor.Media.Types.{
  StreamInfo, AudioStreamInfo, ProbeOutput, CropParams, Codec, codec_copy, codec_h265,
  TranscodeOutput,
}
use media_processor.Media.Streams.{
  select_video_codec, codec_name, exclude_indices, retained_audio, downmix_source_index,
  first_english_index,
}
use media_processor.Media.OutputPath.{
  effective_output_dir, final_path, has_dot, mkv_base, strip_extension, temp_path,
}
use media_processor.Media.Surroundings.{
  Encoded, Job, Probed, TranscodeError, TranscodeRequest, World, cleanup_temp_failed, joined, stat,
  create_output_dir, encoded, interrupted, mkdir_all, move_failed, node_size, not_encoded,
  not_media, outside_output, probe_existing, probed, rename, stat_output, stat_source,
  transcode_failed,
}

pub data Reuse : Type 0 where
  no_reuse : Reuse
  reuse_error : Reuse
  reuse_found : String → ℕ → Reuse

abbrev pub distance : ℕ → ℕ → ℕ
distance a b = if leb a b then b - a else a - b

-- The tests of `reuseExistingOutput` on what was probed. The durations are exact: the 1 % test is
-- |existing - source| * 100 > source.
unfoldable pub reuse_probed : World → ℤ → ℕ → Probed → Reuse
reuse_probed w source c interrupted = reuse_error
reuse_probed w source c not_media = no_reuse
reuse_probed w source c (probed existing codec) =
    if leb_ℤ existing (pos 0)
    then no_reuse
    else if ltb (pos_part source) (distance (pos_part existing) (pos_part source) * 100)
    then no_reuse
    else reuse_found codec (w.size c)

unfoldable pub reuse_node : World → ℤ → Option Node → Reuse
unfolding reuse_probed
reuse_node w source none = no_reuse
reuse_node w source (some directory) = no_reuse
reuse_node w source (some (file c)) = reuse_probed w source c (w.probe_media c)

-- `reuseExistingOutput`.
unfoldable pub reuse_existing_output : World → Tree → FilePath → ℤ → Reuse
unfolding reuse_node
reuse_existing_output w t final source =
    if leb_ℤ source (pos 0) then no_reuse else reuse_node w source (stat w final t)

-- The end of a failed run: the temporary file is removed, and a failure of that is joined to the
-- error of the run.
unfoldable pub discard_temp : World → FilePath → TranscodeError → Tree → Tree × TranscodeError
discard_temp w temp e t =
    let (t', r) = remove t temp (w.remove_fails temp) in
    (t', elim r [ refused ↦ joined e cleanup_temp_failed | _ ↦ e ])

-- The codec, promoted where a crop needs re-encoding.
unfoldable pub video_codec : ProbeOutput → Option CropParams → Codec
video_codec p crop =
    let selected = select_video_codec p.video_codec p.format in
    elim crop [ none ↦ selected | some c ↦ codec_h265 ]

-- `audioBaseStreams`.
unfoldable pub audio_base_streams : List AudioStreamInfo → List StreamInfo
audio_base_streams = map (λ (s : AudioStreamInfo). s.stream)

-- The poster, if there is a library to ask, and whether it was skipped.
unfoldable pub artwork : World → Bool → Option ℕ × Bool
artwork w false = (none, false)
artwork w true = elim w.poster [ none ↦ (none, true) | some a ↦ (some a, false) ]

-- The builder chain of `RunTranscode`, but for the titles and the progress.
unfoldable pub build_job : World → TranscodeRequest → FilePath → Job
build_job w req out = record {
  input = req.file_path;
  output = temp_path out req.file_path;
  codec = video_codec req.probe req.crop_params;
  excluded = exclude_indices req.probe.audio_streams req.probe.subtitle_streams;
  default_audio = first_english_index (audio_base_streams req.probe.audio_streams);
  default_subtitle = first_english_index req.probe.subtitle_streams;
  downmix = downmix_source_index (retained_audio req.probe.audio_streams);
  cover_art = (artwork w req.library).0;
  crop = req.crop_params;
  h265_crf = req.settings.h265_crf;
  hardware_device = req.settings.hardware_device;
}

abbrev pub is_cropped : Option CropParams → Bool
is_cropped none = false
is_cropped (some c) = true

-- What ffmpeg left behind at its output.
unfoldable pub leave_output : FilePath → Option ℕ → Tree → Tree
leave_output output none t = t
leave_output output (some c) t = write t output (file c)

abbrev pub Outcome : Type 0
Outcome = Tree × (TranscodeError ⊎ TranscodeOutput)

abbrev pub failed : Tree × TranscodeError → Outcome
failed (t, e) = (t, inl e)

-- The output of a run that transcoded.
unfoldable pub made_output : World → TranscodeRequest → FilePath → ℕ → Bool → Node → TranscodeOutput
made_output w req out source_size hardware n = record {
  dest_codec = codec_name (video_codec req.probe req.crop_params);
  dest_container = "mkv";
  dest_file_path = some (final_path out req.file_path);
  source_file_size_bytes = source_size;
  dest_file_size_bytes = node_size w n;
  artwork_fetch_skipped = (artwork w req.library).1;
  crop_applied = is_cropped req.crop_params;
  hardware_accelerated = hardware;
}

-- The end of `RunTranscode`: the output is measured.
unfoldable pub measure_output : World → TranscodeRequest → FilePath → ℕ → Bool → Tree → Outcome
measure_output w req out source_size hardware t = elim (stat w (final_path out req.file_path) t) [
  | none ↦ (t, inl stat_output)
  | some n ↦ (t, inr (made_output w req out source_size hardware n))
]

-- From the rename on.
unfoldable pub publish_output : World → TranscodeRequest → FilePath → ℕ → Bool → Tree → Outcome
publish_output w req out source_size hardware t =
    let temp = temp_path out req.file_path in
    elim (rename w temp (final_path out req.file_path) t) [
      | none ↦ failed (discard_temp w temp move_failed t)
      | some t' ↦ measure_output w req out source_size hardware t'
    ]

-- From the call of ffmpeg on, which writes at the output of its job.
unfoldable pub encode_output : World → TranscodeRequest → FilePath → ℕ → Tree → Outcome
encode_output w req out source_size t =
    let temp = temp_path out req.file_path in
    let job = build_job w req out in
    elim (w.encode t job) [
      | encoded c hardware ↦
          publish_output w req out source_size hardware (leave_output job.output (some c) t)
      | not_encoded part ↦
          failed (discard_temp w temp transcode_failed (leave_output job.output part t))
    ]

-- The output of a run that reuses a file.
abbrev pub reused : FilePath → ℕ → String → ℕ → TranscodeOutput
reused final source_size codec size = record {
  dest_codec = codec;
  dest_container = "mkv";
  dest_file_path = some final;
  source_file_size_bytes = source_size;
  dest_file_size_bytes = size;
  artwork_fetch_skipped = false;
  crop_applied = false;
  hardware_accelerated = false;
}

-- From the output directory on.
unfoldable pub produce_output : World → TranscodeRequest → FilePath → ℕ → Tree → Outcome
produce_output w req out source_size t =
    let final = final_path out req.file_path in
    elim (reuse_existing_output w t final req.probe.duration) [
      | reuse_error ↦ (t, inl probe_existing)
      | reuse_found codec size ↦ (t, inr (reused final source_size codec size))
      | no_reuse ↦ encode_output w req out source_size t
    ]

unfoldable pub prepare_output : World → TranscodeRequest → ℕ → Option FilePath → Tree → Outcome
prepare_output w req source_size none t = (t, inl outside_output)
prepare_output w req source_size (some out) t =
    let (t', made) = mkdir_all w out t in
    if made then produce_output w req out source_size t' else (t', inl create_output_dir)

-- `RunTranscode`.
unfoldable pub run_transcode : World → TranscodeRequest → Tree → Outcome
run_transcode w req t = elim (stat w req.file_path t) [
  | none ↦ (t, inl stat_source)
  | some n ↦
      prepare_output w req (node_size w n)
        (effective_output_dir req.output_dir req.watcher_root req.file_path) t
]

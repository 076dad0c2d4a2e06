-- ===== src/Media/Notify/Tests.antt =====
-- An instance of the theorem on imports: a series seen by the library under another root.
use media_processor.Prelude.{false, [], ◌∷◌, some}
use media_processor.Media.Types.{show_type, MediaInput, TranscodeOutput}
use media_processor.Media.Notify.{ImportCall, ImportAnswer, not_upgrade, notify}
use media_processor.Media.Notify.Import.{Asked, notify-Asked}

abbrev pub input : MediaInput
input = record {
  file_path = "ep.ts" ∷ "show" ∷ "downloads" ∷ [];
  media_type = show_type;
  mapping_name = "shows";
  preserve_source = false;
  watch_root = some ("downloads" ∷ []);
  retain_empty_directories = false;
  skip_crop_detection = false;
  output_path = some ("output" ∷ []);
  output_remote_path = some ("media" ∷ "mnt" ∷ []);
}

abbrev pub transcoded : TranscodeOutput
transcoded = record {
  dest_codec = "hevc";
  dest_container = "mkv";
  dest_file_path = some ("ep.mkv" ∷ "show" ∷ "output" ∷ []);
  source_file_size_bytes = 10;
  dest_file_size_bytes = 5;
  artwork_fetch_skipped = false;
  crop_applied = false;
  hardware_accelerated = false;
}

abbrev refuses : ImportCall → ImportAnswer
refuses _ = not_upgrade

notify-Asked_example : Asked refuses input transcoded (notify refuses input transcoded)
notify-Asked_example = notify-Asked refuses input transcoded

-- ===== src/Media/Types.antt =====
-- The data of workflows/media (probe.go, transcode.go, detectcrop.go, activities.go,
-- types/types.go) and of pkg/ffmpeg/types.go. Stream indices, channel counts and sizes are natural
-- numbers; a duration is an integer of nanoseconds in place of a float64 of seconds. A path is
-- absolute and clean; a path that may be blank is an `Option`.
use media_processor.Prelude.{ℕ, Bool, List, Option, String}
use media_processor.Prelude.Int.{ℤ}
use media_processor.Files.Paths.{FilePath}

pub record StreamInfo : Type 0 where
  pub index : ℕ
  pub language : String
  pub title : String

pub record AudioStreamInfo : Type 0 where
  pub stream : StreamInfo
  pub open stream use *
  pub reported_channel_count : ℕ
  pub effective_channel_count : ℕ
  pub has_lfe : Bool

pub record ProbeOutput : Type 0 where
  pub is_valid_media : Bool
  pub video_codec : String
  pub format : String
  pub duration : ℤ
  pub audio_streams : List AudioStreamInfo
  pub subtitle_streams : List StreamInfo
  pub video_width : ℤ
  pub video_height : ℤ

pub record CropParams : Type 0 where
  pub w : ℤ
  pub h : ℤ
  pub x : ℤ
  pub y : ℤ

-- The two codecs that the workflow asks for.
pub data Codec : Type 0 where
  codec_copy codec_h265 : Codec

pub record TranscodeOutput : Type 0 where
  pub dest_codec : String
  pub dest_container : String
  pub dest_file_path : Option FilePath
  pub source_file_size_bytes : ℕ
  pub dest_file_size_bytes : ℕ
  pub artwork_fetch_skipped : Bool
  pub crop_applied : Bool
  pub hardware_accelerated : Bool

pub record NotifyOutput : Type 0 where
  pub import_skipped : Bool

-- A media type that is neither of the two known ones keeps its text.
pub data MediaType : Type 0 where
  movie_type show_type : MediaType
  unknown_type : String → MediaType

pub record MediaInput : Type 0 where
  pub file_path : FilePath
  pub media_type : MediaType
  pub mapping_name : String
  pub preserve_source : Bool
  pub watch_root : Option FilePath
  pub retain_empty_directories : Bool
  pub skip_crop_detection : Bool
  pub output_path : Option FilePath
  pub output_remote_path : Option FilePath

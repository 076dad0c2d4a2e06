-- ===== src/Media/Probe.antt =====
-- workflows/media/probe.go. What ffprobe answers of a file is a parameter; a missing tag is the
-- empty text, and a duration is an integer of nanoseconds.
pub mod Verdict
pub mod Tests
use media_processor.Prelude.{
  ℕ, Bool, true, false, ◌&&◌, ◌||◌, not, List, [], ◌∷◌, Option, none, some, String, str_eq, ◌==◌,
  ◌⊎◌, inl, inr, if◌then◌else◌,
}
use media_processor.Prelude.Int.{ℤ, pos}
use media_processor.Files.Paths.{FilePath}
use media_processor.Files.Tree.{Tree, Removed, gone, not_exist, refused, remove}
use media_processor.Media.Types.{StreamInfo, AudioStreamInfo, ProbeOutput}
use media_processor.Media.Cleanup.{Faults, prune_empty_parents}

pub data CodecType : Type 0 where
  video audio subtitle other_type : CodecType

-- `ffprobe.StreamInfo`, the fields that are read.
pub record FoundStream : Type 0 where
  pub index : ℕ
  pub codec_type : CodecType
  pub codec_name : String
  pub width : ℤ
  pub height : ℤ
  pub audio_channel_count : ℕ
  pub has_lfe : Bool
  pub language : String
  pub title : String

-- `ffprobe.MediaInfo`.
pub record MediaInfo : Type 0 where
  pub duration : ℤ
  pub format : String
  pub streams : List FoundStream

-- What `ffprobe.Probe` answers.
pub data Answer : Type 0 where
  info : MediaInfo → Answer
  cancelled : Answer
  unreadable : Answer

pub data ProbeError : Type 0 where
  probe_cancelled remove_failed : ProbeError

-- strings.HasSuffix.
unfoldable pub has_suffix : String → String → Bool
has_suffix String.[] t = str_eq String.[] t
has_suffix (String.◌∷◌ c s) t = str_eq (String.◌∷◌ c s) t || has_suffix s t

-- `isNonVideoFormat`.
unfoldable pub is_non_video_format : String → Bool
unfolding has_suffix
is_non_video_format format =
    has_suffix format "_pipe" || (str_eq format "image2" || str_eq format "tty")

-- An audio stream of the output; an unknown layout counts as six channels.
unfoldable pub audio_info : FoundStream → AudioStreamInfo
audio_info s = record {
  stream = record { index = s.index; language = s.language; title = s.title };
  reported_channel_count = s.audio_channel_count;
  effective_channel_count = if s.audio_channel_count == 0 then 6 else s.audio_channel_count;
  has_lfe = s.has_lfe;
}

-- The first loop, for `audioStreams` and for `subtitleStreams`.
unfoldable pub audio_of : List FoundStream → List AudioStreamInfo
unfolding audio_info
audio_of [] = []
audio_of (s ∷ ss) =
    let rest = audio_of ss in
    let a = audio_info s in elim s.codec_type [ audio ↦ a ∷ rest | _ ↦ rest ]

unfoldable pub subtitles_of : List FoundStream → List StreamInfo
subtitles_of [] = []
subtitles_of (s ∷ ss) =
    let rest = subtitles_of ss in
    let a : StreamInfo = record { index = s.index; language = s.language; title = s.title } in
    elim s.codec_type [ subtitle ↦ a ∷ rest | _ ↦ rest ]

abbrev pub is_video : CodecType → Bool
is_video video = true
is_video _ = false

-- The second loop: the first video stream of a video format.
unfoldable pub first_video : String → List FoundStream → Option FoundStream
first_video format [] = none
first_video format (s ∷ ss) =
    if is_video s.codec_type && not (is_non_video_format format)
    then some s
    else first_video format ss

-- `ProbeOutput{IsValidMedia: false}`.
abbrev pub invalid_output : ProbeOutput
invalid_output = record {
  is_valid_media = false;
  video_codec = "";
  format = "";
  duration = pos 0;
  audio_streams = [];
  subtitle_streams = [];
  video_width = pos 0;
  video_height = pos 0;
}

unfoldable pub valid_output : MediaInfo → FoundStream → ProbeOutput
valid_output i s = record {
  is_valid_media = true;
  video_codec = s.codec_name;
  format = i.format;
  duration = i.duration;
  audio_streams = audio_of i.streams;
  subtitle_streams = subtitles_of i.streams;
  video_width = s.width;
  video_height = s.height;
}

-- What a probe is asked to do with a file that is no media.
pub record Policy : Type 0 where
  pub watch_root : Option FilePath
  pub retain_empty_dirs : Bool
  pub preserve_source : Bool

abbrev pub ProbeRun : Type 0
ProbeRun = Tree × (ProbeError ⊎ ProbeOutput)

-- The end of a probe that found no media: the source goes, unless it is preserved.
unfoldable pub after_delete : Faults → FilePath → Policy → Tree × Removed → ProbeRun
after_delete f p policy (t, refused) = (t, inl remove_failed)
after_delete f p policy (t, _) = (
  if policy.retain_empty_dirs then t else prune_empty_parents f p policy.watch_root t,
  inr invalid_output,
)

unfoldable pub reject : Faults → FilePath → Policy → Tree → ProbeRun
reject f p policy t =
    if policy.preserve_source
    then (t, inr invalid_output)
    else after_delete f p policy (remove t p (f.remove_fails p))

unfoldable pub accept :
    Faults → FilePath → Policy → MediaInfo → Option FoundStream → Tree → ProbeRun
accept f p policy i none t = reject f p policy t
accept f p policy i (some s) t = (t, inr (valid_output i s))

-- `RunProbe`.
unfoldable pub run_probe : Faults → Answer → FilePath → Policy → Tree → ProbeRun
unfolding accept
run_probe f cancelled p policy t = (t, inl probe_cancelled)
run_probe f unreadable p policy t = reject f p policy t
run_probe f (info i) p policy t = accept f p policy i (first_video i.format i.streams) t

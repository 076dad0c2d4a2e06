-- ===== src/Media/Streams.antt =====
-- workflows/media/transcode.go: which streams go into the output.
pub mod Retained
pub mod Downmix
use media_processor.Prelude.{
  ℕ, Bool, true, false, ◌&&◌, ◌||◌, not, List, [], ◌∷◌, ◌++◌, Option, none, some, String, str_eq,
  ltb, leb, ◌==◌, if◌then◌else◌,
}
use text.Mathlib.Text.{find?}
use media_processor.Media.Types.{StreamInfo, AudioStreamInfo, Codec, codec_copy, codec_h265}

unfoldable pub is_some {ℓ} : {A : Type ℓ} → Option A → Bool
is_some none = false
is_some (some a) = true

-- `SelectVideoCodec`.
unfoldable pub select_video_codec : String → String → Codec
unfolding is_some
select_video_codec video_codec_name format =
    if is_some (find? format "matroska")
      && (str_eq video_codec_name "h264" || str_eq video_codec_name "hevc")
    then codec_copy
    else codec_h265

-- `codecName`.
unfoldable pub codec_name : Codec → String
codec_name codec_copy = "copy"
codec_name codec_h265 = "hevc"

abbrev pub is_english : StreamInfo → Bool
is_english s = str_eq s.language "eng"

-- The first loop of `nonEnglishAudioIndices`.
unfoldable pub has_english : List AudioStreamInfo → Bool
has_english [] = false
has_english (s ∷ ss) = if is_english s.stream then true else has_english ss

unfoldable pub foreign_audio : List AudioStreamInfo → List ℕ
foreign_audio [] = []
foreign_audio (s ∷ ss) =
    let rest = foreign_audio ss in if is_english s.stream then rest else s.index ∷ rest

-- `nonEnglishAudioIndices`.
unfoldable pub non_english_audio_indices : List AudioStreamInfo → List ℕ
unfolding has_english foreign_audio
non_english_audio_indices streams = if has_english streams then foreign_audio streams else []

-- `nonEnglishSubtitleIndices`.
unfoldable pub non_english_subtitle_indices : List StreamInfo → List ℕ
non_english_subtitle_indices [] = []
non_english_subtitle_indices (s ∷ ss) =
    let rest = non_english_subtitle_indices ss in if is_english s then rest else s.index ∷ rest

-- `firstEnglishIndex`.
unfoldable pub first_english_index : List StreamInfo → Option ℕ
first_english_index [] = none
first_english_index (s ∷ ss) = if is_english s then some s.index else first_english_index ss

-- A set of indices, as the maps to true of `RunTranscode`.
unfoldable pub in_set : List ℕ → ℕ → Bool
in_set [] i = false
in_set (j ∷ js) i = j == i || in_set js i

-- The loop over `excludeSet` in `RunTranscode`.
unfoldable pub retain_audio : List ℕ → List AudioStreamInfo → List AudioStreamInfo
unfolding in_set
retain_audio excluded [] = []
retain_audio excluded (s ∷ ss) =
    let rest = retain_audio excluded ss in if in_set excluded s.index then rest else s ∷ rest

-- `retainedAudio` of `RunTranscode`.
unfoldable pub retained_audio : List AudioStreamInfo → List AudioStreamInfo
unfolding retain_audio non_english_audio_indices
retained_audio streams = retain_audio (non_english_audio_indices streams) streams

-- `excludeIndices` of `RunTranscode`.
unfoldable pub exclude_indices : List AudioStreamInfo → List StreamInfo → List ℕ
unfolding non_english_audio_indices non_english_subtitle_indices
exclude_indices audio subtitles =
    non_english_audio_indices audio ++ non_english_subtitle_indices subtitles

keep_first : Option ℕ → AudioStreamInfo → Option ℕ
keep_first (some i) s = some i
keep_first none s = if leb 4 s.effective_channel_count then some s.index else none

-- The loop of `downmixSourceIndex`, with `firstSurround`.
unfoldable pub downmix_loop : Option ℕ → List AudioStreamInfo → Option ℕ
unfolding keep_first
downmix_loop first [] = first
downmix_loop first (s ∷ ss) =
    if ltb 0 s.effective_channel_count && leb s.effective_channel_count 3
    then none
    else downmix_loop (keep_first first s) ss

-- `downmixSourceIndex`.
unfoldable pub downmix_source_index : List AudioStreamInfo → Option ℕ
unfolding downmix_loop
downmix_source_index streams = downmix_loop none streams

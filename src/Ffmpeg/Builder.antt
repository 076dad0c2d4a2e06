-- ===== src/Ffmpeg/Builder.antt =====
-- pkg/ffmpeg/transcode.go: `TranscodeBuilder` and its methods. Codecs are the two that are asked for;
-- an image is its bytes. The progress channel, the start hook and the hardware are left out.
use media_processor.Prelude.{
  ℕ, Bool, true, false, ◌&&◌, ◌||◌, not, List, [], ◌∷◌, ◌++◌, Option, none, some, String, map, ◌==◌,
  str_eq, if◌then◌else◌,
}
use media_processor.Prelude.Int.{ℤ, pos, leb_ℤ}
use media_processor.Text.{codes, to_lower, same_codes}
use media_processor.Media.Types.{CropParams, Codec, codec_copy}

-- A map from stream indices to titles.
abbrev pub Titles : Type 0
Titles = List (ℕ × String)

-- The cover art, by its bytes and its MIME type.
pub record CoverArt : Type 0 where
  pub bytes : List ℕ
  pub mime_type : String

pub record TranscodeBuilder : Type 0 where
  pub output_path : String
  pub video_codec : Codec
  pub audio_codec : Codec
  pub container : String
  pub exclude : List ℕ
  pub default_audio_stream : Option ℕ
  pub default_subtitle_stream : Option ℕ
  pub downmix_source_idx : Option ℕ
  pub audio_stream_titles : Titles
  pub subtitle_stream_titles : Titles
  pub auto_downmix_title : Bool
  pub downmix_title : String
  pub cover_art : Option CoverArt
  pub crop_params : Option CropParams
  pub h265_crf : ℤ

-- `NewTranscode`.
unfoldable pub new_transcode : String → TranscodeBuilder
new_transcode output = record {
  output_path = output;
  video_codec = codec_copy;
  audio_codec = codec_copy;
  container = "";
  exclude = [];
  default_audio_stream = none;
  default_subtitle_stream = none;
  downmix_source_idx = none;
  audio_stream_titles = [];
  subtitle_stream_titles = [];
  auto_downmix_title = false;
  downmix_title = "";
  cover_art = none;
  crop_params = none;
  h265_crf = pos 0;
}

unfoldable pub to_video_codec : Codec → TranscodeBuilder → TranscodeBuilder
to_video_codec c b = record b { video_codec = c }

unfoldable pub to_container : String → TranscodeBuilder → TranscodeBuilder
to_container c b = record b { container = c }

unfoldable pub exclude_streams : List ℕ → TranscodeBuilder → TranscodeBuilder
exclude_streams is b = record b { exclude = is ++ b.exclude }

unfoldable pub with_default_audio_stream : Option ℕ → TranscodeBuilder → TranscodeBuilder
with_default_audio_stream i b = record b { default_audio_stream = i }

unfoldable pub with_default_subtitle_stream : Option ℕ → TranscodeBuilder → TranscodeBuilder
with_default_subtitle_stream i b = record b { default_subtitle_stream = i }

-- A nil map is `none`.
unfoldable pub with_audio_stream_titles : Option Titles → TranscodeBuilder → TranscodeBuilder
with_audio_stream_titles none b = b
with_audio_stream_titles (some ts) b = record b { audio_stream_titles = ts }

unfoldable pub with_subtitle_stream_titles : Option Titles → TranscodeBuilder → TranscodeBuilder
with_subtitle_stream_titles none b = b
with_subtitle_stream_titles (some ts) b = record b { subtitle_stream_titles = ts }

unfoldable pub with_auto_downmix_title : TranscodeBuilder → TranscodeBuilder
with_auto_downmix_title b = record b { auto_downmix_title = true }

unfoldable pub with_downmix_title : String → TranscodeBuilder → TranscodeBuilder
with_downmix_title t b = if str_eq t "" then b else record b { downmix_title = t }

unfoldable pub with_cover_art : List ℕ → String → TranscodeBuilder → TranscodeBuilder
with_cover_art [] mime b = b
with_cover_art (x ∷ xs) mime b =
    if str_eq mime "image/jpeg" || str_eq mime "image/png"
    then record b { cover_art = some (record { bytes = x ∷ xs; mime_type = mime }) }
    else b

unfoldable pub with_h265_crf : ℤ → TranscodeBuilder → TranscodeBuilder
with_h265_crf crf b =
    if leb_ℤ (pos 1) crf && leb_ℤ crf (pos 51) then record b { h265_crf = crf } else b

unfoldable pub with_crop : Option CropParams → TranscodeBuilder → TranscodeBuilder
with_crop none b = b
with_crop (some c) b = record b { crop_params = some c }

unfoldable pub with_downmix : Option ℕ → TranscodeBuilder → TranscodeBuilder
with_downmix i b = record b { downmix_source_idx = i }

-- filepath.Ext: from the last dot on that no slash follows; `best` is what was found so far.
unfoldable pub extension : List ℕ → List ℕ → List ℕ
extension best [] = best
extension best (c ∷ s) = extension (if c == b'/' then [] else if c == b'.' then c ∷ s else best) s

-- Whether an extension is that of the Matroska family.
unfoldable pub is_mkv_extension : List ℕ → Bool
unfolding same_codes
is_mkv_extension e =
    same_codes e (codes ".mkv")
    || (same_codes e (codes ".mka")
        || (same_codes e (codes ".mks") || same_codes e (codes ".mk3d")))

unfoldable pub effective_container_is_mkv : TranscodeBuilder → Bool
unfolding extension is_mkv_extension to_lower
effective_container_is_mkv b =
    if str_eq b.container "matroska"
    then true
    else if not (str_eq b.container "")
    then false
    else is_mkv_extension (map to_lower (extension [] (codes b.output_path)))

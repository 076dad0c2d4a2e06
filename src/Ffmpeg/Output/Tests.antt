-- ===== src/Ffmpeg/Output/Tests.antt =====
-- Instances of the theorems on the streams of the output: a Matroska file of a cover, a video, two
-- audio streams and a subtitle that is left out, where the second audio stream is to be the default
-- and the first one is mixed down.
use media_processor.Prelude.{
  ◌≤◌, ◌≡◌, ◌⊎◌, ◌↔◌, refl, true, false, List, [], ◌∷◌, none, some, arith, ◌==◌, AnyIn,
}
use media_processor.Ffmpeg.Builder.{
  TranscodeBuilder, new_transcode, exclude_streams, with_default_audio_stream, with_downmix,
  effective_container_is_mkv,
}
use media_processor.Ffmpeg.Plan.{
  video, audio, subtitle, InStream, Libav, StreamState, copy, build_stream_states, output_default,
}
use media_processor.Ffmpeg.Plan.Streams.{IsWritten, build_stream_states_iff}
use media_processor.Ffmpeg.Output.{Downmixer, OutStream, regular, downmix, open_output}
use media_processor.Ffmpeg.Output.Defaults.{default_audio_count, open_output-default_audio}

abbrev libav : Libav
libav = record {
  is_still_image_codec = λ c. c == 7;
  matroska_supports_codec = λ c. true;
  is_text_subtitle_codec = λ c. false;
  needs_adts_framing = λ s. false;
  decoder_opens = λ s. true;
  encoder_opens = λ s. true;
}

abbrev downmixer : Downmixer
downmixer = record { decoder_opens = λ s. true; encoder_opens = true; label = "Stereo" }

abbrev picture : InStream
picture = record {
  index = 0;
  media_type = video;
  codec_id = 7;
  is_default = false;
  is_attached_pic = true;
  title = none;
  language = none;
}

abbrev film : InStream
film = record picture { index = 1; codec_id = 27; is_attached_pic = false }

abbrev first_audio : InStream
first_audio = record film {
  index = 2;
  media_type = audio;
  is_default = true;
  language = some "eng";
}

abbrev second_audio : InStream
second_audio = record first_audio { index = 3; language = some "deu" }

abbrev sub : InStream
sub = record film { index = 4; media_type = subtitle }

abbrev streams : List InStream
streams = picture ∷ film ∷ first_audio ∷ second_audio ∷ sub ∷ []

abbrev builder : TranscodeBuilder
builder = with_downmix (some 2) (
    with_default_audio_stream (some 3) (exclude_streams (4 ∷ []) (new_transcode "/media/film.MKV")))

abbrev planned : List (InStream × StreamState)
planned = (film, copy false) ∷ (first_audio, copy false) ∷ (second_audio, copy false) ∷ []

builder-mkv : effective_container_is_mkv builder ≡ true
unfolding effective_container_is_mkv new_transcode exclude_streams with_default_audio_stream
    with_downmix
builder-mkv = refl

builder-planned : build_stream_states libav builder streams ≡ some planned
unfolding build_stream_states new_transcode exclude_streams with_default_audio_stream with_downmix
    effective_container_is_mkv
builder-planned = refl

build_stream_states_iff_example :
    AnyIn (λ x. x.0 ≡ film) planned
    ↔ (AnyIn (λ x. x ≡ film) streams × IsWritten libav builder streams film)
build_stream_states_iff_example =
    build_stream_states_iff libav builder streams planned film builder-mkv builder-planned

-- The two audio streams, with the downmix behind them.
abbrev written : List OutStream
written =
    regular film (copy false) false none
    ∷ regular first_audio (copy false) false none
    ∷ regular second_audio (copy false) true none
    ∷ downmix false (some "eng") none
    ∷ []

builder-written : open_output libav downmixer builder streams ≡ some written
unfolding open_output build_stream_states new_transcode exclude_streams with_default_audio_stream
    with_downmix effective_container_is_mkv output_default
builder-written = refl

builder-default : builder.default_audio_stream ≡ some 3
unfolding new_transcode exclude_streams with_default_audio_stream with_downmix
builder-default = refl

open_output-default_audio_example :
    (default_audio_count written ≤ 1)
    × ((builder.downmix_source_idx ≡ none) ⊎ (default_audio_count written ≡ 1))
open_output-default_audio_example =
    open_output-default_audio libav downmixer builder 3 streams written builder-written
      builder-default (omega arith)

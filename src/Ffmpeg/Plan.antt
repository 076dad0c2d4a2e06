-- ===== src/Ffmpeg/Plan.antt =====
-- pkg/ffmpeg/transcode.go: which streams of the input a transcode writes, how, and with what titles
-- and dispositions (`buildStreamStates`, `setupOutputContext`). What libavcodec knows of a codec, and
-- whether a codec can be opened, are parameters.
pub mod Streams
use media_processor.Prelude.{
  ℕ, Bool, true, false, ◌&&◌, ◌||◌, not, List, [], ◌∷◌, ◌++◌, Option, none, some, String, ◌==◌,
  str_eq, if◌then◌else◌,
}
use media_processor.Media.Types.{Codec, codec_copy, codec_h265}
use media_processor.Ffmpeg.Builder.{Titles, CoverArt, TranscodeBuilder, effective_container_is_mkv}

-- `astiav.MediaType`, with the others as one.
pub data MediaType : Type 0 where
  video audio subtitle attachment other_media : MediaType

-- A stream of the input: the two flags of its disposition, and of its metadata the title and the
-- language.
pub record InStream : Type 0 where
  pub index : ℕ
  pub media_type : MediaType
  pub codec_id : ℕ
  pub is_default : Bool
  pub is_attached_pic : Bool
  pub title : Option String
  pub language : Option String

-- `isStillImageCodec`, `matroskaSupportsCodec`, `isTextSubtitleCodec`, `needsADTSFraming`, and what can
-- be set up: the decoder of a stream with its crop filter, and its encoder with its output stream.
pub record Libav : Type 0 where
  pub is_still_image_codec : ℕ → Bool
  pub matroska_supports_codec : ℕ → Bool
  pub is_text_subtitle_codec : ℕ → Bool
  pub needs_adts_framing : InStream → Bool
  pub decoder_opens : InStream → Bool
  pub encoder_opens : InStream → Bool

-- The states of streams: `videoStreamState`, `audioStreamState`, `subtitleStreamState` and
-- `copyStreamState`, which may require ADTS frames.
pub data StreamState : Type 0 where
  encode_video encode_audio convert_subtitle : StreamState
  copy : Bool → StreamState

unfoldable pub is_video : MediaType → Bool
is_video video = true
is_video audio = false
is_video subtitle = false
is_video attachment = false
is_video other_media = false

unfoldable pub is_audio : MediaType → Bool
is_audio video = false
is_audio audio = true
is_audio subtitle = false
is_audio attachment = false
is_audio other_media = false

unfoldable pub is_subtitle : MediaType → Bool
is_subtitle video = false
is_subtitle audio = false
is_subtitle subtitle = true
is_subtitle attachment = false
is_subtitle other_media = false

unfoldable pub is_attachment : MediaType → Bool
is_attachment video = false
is_attachment audio = false
is_attachment subtitle = false
is_attachment attachment = true
is_attachment other_media = false

-- `matroskaAcceptsTrackMediaType`.
unfoldable pub matroska_accepts_track_media_type : MediaType → Bool
matroska_accepts_track_media_type video = true
matroska_accepts_track_media_type audio = true
matroska_accepts_track_media_type subtitle = true
matroska_accepts_track_media_type attachment = true
matroska_accepts_track_media_type other_media = false

unfoldable pub is_copy : Codec → Bool
is_copy codec_copy = true
is_copy codec_h265 = false

unfoldable pub is_some {ℓ} : {A : Type ℓ} → Option A → Bool
is_some none = false
is_some (some a) = true

-- A lookup in the set of excluded streams.
unfoldable pub contains : List ℕ → ℕ → Bool
contains [] i = false
contains (j ∷ js) i = j == i || contains js i

module _ (av : Libav) (t : TranscodeBuilder) where
  unfoldable pub is_excluded : InStream → Bool
  unfolding contains
  is_excluded s = contains t.exclude s.index

  -- A video stream that is no cover art.
  unfoldable pub is_real_video : InStream → Bool
  unfolding is_video
  is_real_video s =
      is_video s.media_type && (not s.is_attached_pic && not (av.is_still_image_codec s.codec_id))

  -- The pre-scan of `buildStreamStates`.
  unfoldable pub has_real_video_stream : List InStream → Bool
  unfolding is_excluded is_real_video
  has_real_video_stream [] = false
  has_real_video_stream (s ∷ ss) =
      if is_excluded s
      then has_real_video_stream ss
      else if is_real_video s
      then true
      else has_real_video_stream ss

  -- The streams that are cover art or attachments of a Matroska output.
  unfoldable pub is_cover_art : Bool → InStream → Bool
  unfolding is_video is_attachment is_some
  is_cover_art has_real s =
      (is_video s.media_type && s.is_attached_pic)
      || ((is_video s.media_type && (has_real && av.is_still_image_codec s.codec_id))
          || (is_some t.cover_art && is_attachment s.media_type))

  -- The default case of the switch.
  unfoldable pub remux_state : InStream → StreamState
  unfolding is_subtitle
  remux_state s =
      if is_subtitle s.media_type
        && (effective_container_is_mkv t
            && (not (av.matroska_supports_codec s.codec_id)
                && av.is_text_subtitle_codec s.codec_id))
      then convert_subtitle
      else copy (av.needs_adts_framing s)

  -- The state of a stream; `none` drops it.
  unfoldable pub stream_state : Bool → InStream → Option StreamState
  unfolding is_excluded is_cover_art remux_state is_copy is_video is_audio
      matroska_accepts_track_media_type
  stream_state has_real s =
      if is_excluded s
      then none
      else if effective_container_is_mkv t && is_cover_art has_real s
      then none
      else if is_video s.media_type && not (is_copy t.video_codec)
      then some encode_video
      else if is_audio s.media_type && not (is_copy t.audio_codec)
      then some encode_audio
      else if effective_container_is_mkv t && not (matroska_accepts_track_media_type s.media_type)
      then none
      else some (remux_state s)

  -- Whether a state can be set up.
  unfoldable pub sets_up : InStream → StreamState → Bool
  sets_up s encode_video = av.decoder_opens s
  sets_up s encode_audio = av.decoder_opens s
  sets_up s convert_subtitle = true
  sets_up s (copy adts) = true

  -- The main loop of `buildStreamStates`; `none` is an error.
  unfoldable pub build_states : Bool → List InStream → Option (List (InStream × StreamState))
  unfolding stream_state sets_up
  build_states has_real [] = some []
  build_states has_real (s ∷ ss) =
      let rest = build_states has_real ss in
      elim (stream_state has_real s) [
        | none ↦ rest
        | some state ↦
            if sets_up s state
            then elim rest [ none ↦ none | some states ↦ some ((s, state) ∷ states) ]
            else none
      ]

  -- `buildStreamStates`.
  unfoldable pub build_stream_states : List InStream → Option (List (InStream × StreamState))
  unfolding has_real_video_stream build_states
  build_stream_states ss = build_states (has_real_video_stream ss) ss

  -- The stream that the default flag is to be given to, by the type of a stream.
  unfoldable pub default_stream : MediaType → Option ℕ
  default_stream video = none
  default_stream audio = t.default_audio_stream
  default_stream subtitle = t.default_subtitle_stream
  default_stream attachment = none
  default_stream other_media = none

  -- The default flag of `outputDisposition`.
  unfoldable pub output_default : InStream → Bool
  unfolding default_stream
  output_default s = elim (default_stream s.media_type) [
    | none ↦ s.is_default
    | some i ↦ s.index == i
  ]

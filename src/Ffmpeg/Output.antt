-- ===== src/Ffmpeg/Output.antt =====
-- pkg/ffmpeg/transcode.go: the streams of the output in their order, with their default flags and
-- titles (`setupOutputContext`, `addCoverArtStream`). The label of the channels of the downmix, and
-- whether its codecs can be opened, are parameters.
pub mod Defaults
pub mod Tests
use Prim.Native.String.{◌++◌ as str_append}
use media_processor.Prelude.{
  ℕ, ◌+◌, Bool, true, false, ◌&&◌, not, List, [], ◌∷◌, ◌++◌, Option, none, some, String, ◌==◌,
  str_eq, if◌then◌else◌,
}
use media_processor.Ffmpeg.Builder.{Titles, CoverArt, TranscodeBuilder, effective_container_is_mkv}
use media_processor.Ffmpeg.Plan.{
  MediaType, video, audio, subtitle, attachment, other_media, InStream, Libav, StreamState,
  is_audio, is_some, build_stream_states, output_default,
}

infixl 5 ◌>>=◌
abbrev pub ◌>>=◌ : {A B : Type 0} → Option A → (A → Option B) → Option B
none >>= f = none
some a >>= f = f a

-- What the downmix meets: its decoder, its encoder, and the label of the channels of the encoder.
pub record Downmixer : Type 0 where
  pub decoder_opens : InStream → Bool
  pub encoder_opens : Bool
  pub label : String

-- A stream of the output.
pub data OutStream : Type 0 where
  regular : InStream → StreamState → Bool → Option String → OutStream
  -- The downmix of a stream, by its default flag, language and title.
  downmix : Bool → Option String → Option String → OutStream
  -- The cover art, by its file name and MIME type.
  cover : String → String → OutStream

-- A lookup in a map of titles, blank where there is none.
unfoldable pub title_of : Titles → ℕ → String
title_of [] i = ""
title_of ((j, title) ∷ ts) i = if j == i then title else title_of ts i

-- s + " " + t.
spaced : String → String → String
spaced s t = str_append s (str_append " " t)

module _ (av : Libav) (dm : Downmixer) (t : TranscodeBuilder) where
  unfoldable pub title_override : InStream → MediaType → String
  unfolding title_of
  title_override s video = ""
  title_override s audio = title_of t.audio_stream_titles s.index
  title_override s subtitle = title_of t.subtitle_stream_titles s.index
  title_override s attachment = ""
  title_override s other_media = ""

  unfoldable pub output_title : InStream → Option String
  unfolding title_override
  output_title s =
      let title = title_override s s.media_type in if str_eq title "" then s.title else some title

  -- The first loop of `setupOutputContext`; `none` is an error.
  unfoldable pub setup_streams : List (InStream × StreamState) → Option (List OutStream)
  unfolding output_title
  setup_streams [] = some []
  setup_streams ((s, state) ∷ states) =
      let rest = setup_streams states in
      if av.encoder_opens s
      then elim rest [
        | none ↦ none
        | some outs ↦ some (regular s state (output_default av t s) (output_title s) ∷ outs)
      ]
      else none

  -- `buildDownmixState`.
  unfoldable pub build_downmix_state : List InStream → ℕ → Option InStream
  build_downmix_state [] i = none
  build_downmix_state (s ∷ ss) i =
      if s.index == i
      then (if dm.decoder_opens s then some s else none)
      else build_downmix_state ss i

  -- The search for a regular audio stream that is the default.
  unfoldable pub has_default_audio : List (InStream × StreamState) → Bool
  unfolding is_audio
  has_default_audio [] = false
  has_default_audio ((s, state) ∷ states) =
      if is_audio s.media_type && output_default av t s then true else has_default_audio states

  unfoldable pub downmix_stream_title : Option String
  unfolding spaced
  downmix_stream_title =
      if t.auto_downmix_title
      then some (if str_eq t.downmix_title "" then dm.label else spaced t.downmix_title dm.label)
      else none

  -- The output stream of the downmix of a stream.
  unfoldable pub downmix_stream :
      List (InStream × StreamState) → Option InStream → Option (List OutStream)
  unfolding has_default_audio downmix_stream_title
  downmix_stream states none = some []
  downmix_stream states (some s) =
      if dm.encoder_opens
      then some (downmix (not (has_default_audio states)) s.language downmix_stream_title ∷ [])
      else none

  -- `addCoverArtStream`.
  unfoldable pub add_cover_art_stream : CoverArt → Option (List OutStream)
  add_cover_art_stream art =
      if str_eq art.mime_type "image/jpeg"
      then some (cover "cover.jpg" art.mime_type ∷ [])
      else if str_eq art.mime_type "image/png"
      then some (cover "cover.png" art.mime_type ∷ [])
      else none

  unfoldable pub cover_stream : Option (List OutStream)
  unfolding add_cover_art_stream
  cover_stream = elim t.cover_art [
    | none ↦ some []
    | some art ↦ if effective_container_is_mkv t then add_cover_art_stream art else some []
  ]

  -- `setupOutputContext`.
  unfoldable pub setup_output_context :
      List (InStream × StreamState) → Option InStream → Option (List OutStream)
  unfolding setup_streams downmix_stream cover_stream
  setup_output_context states source = do
    outs ← setup_streams states
    mix ← downmix_stream states source
    art ← cover_stream
    some (outs ++ mix ++ art)

  -- The downmix source of `Run`; the outer `none` is an error.
  unfoldable pub downmix_source : List InStream → Option (Option InStream)
  unfolding build_downmix_state
  downmix_source ss = elim t.downmix_source_idx [
    | none ↦ some none
    | some i ↦ elim (build_downmix_state ss i) [ none ↦ none | some s ↦ some (some s) ]
  ]

  -- `Run`, up to the header of the output.
  unfoldable pub open_output : List InStream → Option (List OutStream)
  unfolding downmix_source setup_output_context
  open_output ss = do
    states ← build_stream_states av t ss
    source ← downmix_source ss
    setup_output_context states source

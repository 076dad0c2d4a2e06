-- ===== src/Ffmpeg/Output/Defaults.antt =====
-- pkg/ffmpeg/transcode.go: the default audio stream of an output.
use mathlib.Core.List.{append_assoc}
use media_processor.Prelude.{
  ℕ, ◌+◌, ◌≤◌, ◌≡◌, ◌⊎◌, ◌↔◌, refl, ap, ◌∙◌, inl, inr, Bool, true, false, not, ◌&&◌, List, [], ◌∷◌,
  ◌++◌, Option, none, some, String, arith, ◌==◌, str_eq, Bool-cases, Option-cases,
}
use media_processor.Ffmpeg.Builder.{TranscodeBuilder, effective_container_is_mkv}
use media_processor.Ffmpeg.Plan.{
  InStream, Libav, StreamState, is_audio, build_states, build_stream_states, output_default,
  default_stream,
}
use media_processor.Ffmpeg.Plan.Streams.{build_states-cons, build_states-nil}
use media_processor.Ffmpeg.Output.{
  ◌>>=◌, Downmixer, OutStream, regular, downmix, cover, output_title, setup_streams,
  has_default_audio, downmix_stream, downmix_stream_title, add_cover_art_stream, cover_stream,
  setup_output_context, downmix_source, open_output,
}

some_inj : {A : Type 0} (x y : A) → some x ≡ some y → y ≡ x
some_inj x y e = cc e

-- One for true.
abbrev pub one_if : Bool → ℕ
one_if true = 1
one_if false = 0

-- How many streams are audio and flagged as the default.
abbrev pub default_audio_count : List OutStream → ℕ
default_audio_count [] = 0
default_audio_count (regular s state is_default title ∷ outs) =
    one_if (is_audio s.media_type && is_default) + default_audio_count outs
default_audio_count (downmix is_default language title ∷ outs) =
    one_if is_default + default_audio_count outs
default_audio_count (cover name mime ∷ outs) = default_audio_count outs

-- How many streams have an index.
abbrev pub index_count : ℕ → List InStream → ℕ
index_count i [] = 0
index_count i (s ∷ ss) = one_if (s.index == i) + index_count i ss

default_audio_count-append :
    (xs ys : List OutStream)
    → default_audio_count (xs ++ ys) ≡ default_audio_count xs + default_audio_count ys
default_audio_count-append [] ys = omega arith
default_audio_count-append (regular s state d title ∷ xs) ys =
    omega (arith, default_audio_count-append xs ys)
default_audio_count-append (downmix d language title ∷ xs) ys =
    omega (arith, default_audio_count-append xs ys)
default_audio_count-append (cover name mime ∷ xs) ys =
    omega (arith, default_audio_count-append xs ys)

module _ (av : Libav) (dm : Downmixer) (t : TranscodeBuilder) where
  -- How many of the streams to be written are audio and get the flag.
  abbrev flagged : List (InStream × StreamState) → ℕ
  flagged [] = 0
  flagged ((s, state) ∷ states) =
      one_if (is_audio s.media_type && output_default av t s) + flagged states

  setup_streams-count :
      (states : List (InStream × StreamState)) (outs : List OutStream)
      → setup_streams av dm t states ≡ some outs
      → default_audio_count outs ≡ flagged states
  unfolding setup_streams
  setup_streams-count [] outs e = ap default_audio_count (some_inj [] outs e)
  setup_streams-count ((s, state) ∷ states) outs e =
      elim (Option-cases (setup_streams av dm t states)) [
        | inl n ↦ absurd (ground arith)
        | inr (rest, r) ↦
            let same : outs
                ≡ regular s state (output_default av t s) (output_title av dm t s) ∷ rest =
              ground arith in
            rw (same, setup_streams-count states rest r) refl
      ]

  has_default_audio_iff :
      (states : List (InStream × StreamState))
      → (has_default_audio av dm t states ≡ true) ↔ (1 ≤ flagged states)
  unfolding has_default_audio
  has_default_audio_iff [] = (λ h. cc h, λ h. absurd (omega arith))
  has_default_audio_iff ((s, state) ∷ states) =
      let ih = has_default_audio_iff states in
      elim (Bool-cases (is_audio s.media_type && output_default av t s)) [
        | inl e ↦ (λ h. rw e (omega arith), λ h. rw e refl)
        | inr e ↦ (λ h. rw e (ground (arith, ih.0)), λ h. ground (arith, ih.1))
      ]

  no_default_audio :
      (states : List (InStream × StreamState))
      → has_default_audio av dm t states ≡ false
      → flagged states ≡ 0
  no_default_audio states n = ground (arith, (has_default_audio_iff states).1)

  output_default-audio :
      (i : ℕ) (s : InStream)
      → t.default_audio_stream ≡ some i
      → one_if (is_audio s.media_type && output_default av t s) ≤ one_if (s.index == i)
  unfolding output_default default_stream is_audio
  output_default-audio i s e = ground arith

  build_states-flagged :
      (i : ℕ) (has_real : Bool) (ss : List InStream) (states : List (InStream × StreamState))
      → t.default_audio_stream ≡ some i
      → build_states av t has_real ss ≡ some states
      → flagged states ≤ index_count i ss
  build_states-flagged i has_real [] states d e =
      rw (build_states-nil av t has_real states e) (omega arith)
  build_states-flagged i has_real (s ∷ ss) states d e =
      elim (build_states-cons av t has_real s ss states e) [
        | inl (k, r) ↦ omega (arith, build_states-flagged i has_real ss states d r)
        | inr (st, rest, k, r, c) ↦
            rw c (
              omega
                (arith, output_default-audio i s d, build_states-flagged i has_real ss rest d r))
      ]

  downmix_stream-count :
      (states : List (InStream × StreamState)) (source : Option InStream) (outs : List OutStream)
      → downmix_stream av dm t states source ≡ some outs
      → ((source ≡ none) × (default_audio_count outs ≡ 0))
        ⊎ (default_audio_count outs ≡ one_if (not (has_default_audio av dm t states)))
  unfolding downmix_stream
  downmix_stream-count states none outs e = inl (refl, ap default_audio_count (some_inj [] outs e))
  downmix_stream-count states (some s) outs e = elim (Bool-cases dm.encoder_opens) [
    | inl o ↦
        let same : outs
            ≡ downmix (not (has_default_audio av dm t states)) s.language
                (downmix_stream_title av dm t)
              ∷ [] =
          ground arith in
        inr (rw same (omega arith))
    | inr o ↦ absurd (ground arith)
  ]

  cover_stream-cases :
      (outs : List OutStream)
      → cover_stream av dm t ≡ some outs
      → (outs ≡ []) ⊎ ((name : String) × (mime : String) × (outs ≡ cover name mime ∷ []))
  unfolding cover_stream add_cover_art_stream
  cover_stream-cases outs e = elim (Option-cases t.cover_art) [
    | inl n ↦ inl (ground arith)
    | inr (art, a) ↦ elim (Bool-cases (effective_container_is_mkv t)) [
      | inl mkv ↦ elim (Bool-cases (str_eq art.mime_type "image/jpeg")) [
        | inl j ↦ inr ("cover.jpg", art.mime_type, ground arith)
        | inr j ↦ elim (Bool-cases (str_eq art.mime_type "image/png")) [
          | inl p ↦ inr ("cover.png", art.mime_type, ground arith)
          | inr p ↦ absurd (ground arith)
        ]
      ]
      | inr mkv ↦ inl (ground arith)
    ]
  ]

  cover_stream-count :
      (outs : List OutStream) → cover_stream av dm t ≡ some outs → default_audio_count outs ≡ 0
  cover_stream-count outs e = elim (cover_stream-cases outs e) [
    | inl n ↦ rw n refl
    | inr (name, mime, c) ↦ rw c refl
  ]

  -- A successful bind.
  bind_some :
      {A B : Type 0} (m : Option A) (f : A → Option B) (b : B)
      → (m >>= f) ≡ some b
      → (a : A) × (m ≡ some a) × (f a ≡ some b)
  bind_some none f b e = cc e
  bind_some (some a) f b e = (a, refl, e)

  -- The parts of an output.
  setup_output_context-parts :
      (states : List (InStream × StreamState)) (source : Option InStream) (outs : List OutStream)
      → setup_output_context av dm t states source ≡ some outs
      → (xs : List OutStream) × (ys : List OutStream) × (zs : List OutStream) × (setup_streams av dm
            t states
          ≡ some xs)
        × (downmix_stream av dm t states source ≡ some ys)
        × (cover_stream av dm t ≡ some zs)
        × (outs ≡ xs ++ (ys ++ zs))
  unfolding setup_output_context
  setup_output_context-parts states source outs e =
      let (xs, ex, ey) = bind_some (setup_streams av dm t states) _ outs e in
      let (ys, ey', ez) = bind_some (downmix_stream av dm t states source) _ outs ey in
      let (zs, ez', last) = bind_some (cover_stream av dm t) _ outs ez in
      (xs, ys, zs, ex, ey', ez', some_inj _ outs last ∙ append_assoc xs ys zs)

  -- The audio flags of the streams and the downmix.
  setup_output_context-count :
      (states : List (InStream × StreamState)) (source : Option InStream) (outs : List OutStream)
      → setup_output_context av dm t states source ≡ some outs
      → ((source ≡ none) × (default_audio_count outs ≡ flagged states))
        ⊎ (default_audio_count outs
            ≡ flagged states + one_if (not (has_default_audio av dm t states)))
  setup_output_context-count states source outs e =
      let (xs, ys, zs, ex, ey, ez, same) = setup_output_context-parts states source outs e in
      let total =
        ap default_audio_count same
        ∙ default_audio_count-append xs (ys ++ zs)
        ∙ ap (λ n. default_audio_count xs + n) (default_audio_count-append ys zs) in
      let regular_ones = setup_streams-count states xs ex in
      let art = cover_stream-count zs ez in
      elim (downmix_stream-count states source ys ey) [
        | inl (n, c) ↦ inl (n, omega (arith, total, regular_ones, art, c))
        | inr c ↦ inr (omega (arith, total, regular_ones, art, c))
      ]

  downmix_source-none :
      (ss : List InStream) (source : Option InStream)
      → downmix_source av dm t ss ≡ some source
      → source ≡ none
      → t.downmix_source_idx ≡ none
  unfolding downmix_source
  downmix_source-none ss source e n = elim (Option-cases t.downmix_source_idx) [
    | inl k ↦ k
    | inr (i, k) ↦ absurd (ground arith)
  ]

  -- Where a default audio stream is chosen, and at most one stream of the input has its index: at most
  -- one audio stream of the output has the default flag, and exactly one if there is a downmix.
  pub open_output-default_audio :
      (i : ℕ) (ss : List InStream) (outs : List OutStream)
      → open_output av dm t ss ≡ some outs
      → t.default_audio_stream ≡ some i
      → index_count i ss ≤ 1
      → (default_audio_count outs ≤ 1)
        × ((t.downmix_source_idx ≡ none) ⊎ (default_audio_count outs ≡ 1))
  unfolding open_output build_stream_states
  open_output-default_audio i ss outs e d once =
      let (states, es, er) = bind_some (build_stream_states av t ss) _ outs e in
      let (source, esource, eo) = bind_some (downmix_source av dm t ss) _ outs er in
      let few = build_states-flagged i _ ss states d es in
      let any = has_default_audio_iff states in
      elim (setup_output_context-count states source outs eo) [
        | inl (n, c) ↦ (omega (arith, c, few), inl (downmix_source-none ss source esource n))
        | inr c ↦ elim (Bool-cases (has_default_audio av dm t states)) [
          | inl y ↦
              let one : default_audio_count outs ≡ 1 =
                omega (arith, c, ap (λ b. one_if (not b)) y, any.0 y, few) in
              (omega (arith, one), inr one)
          | inr y ↦
              let nothing = no_default_audio states y in
              let one : default_audio_count outs ≡ 1 =
                omega (arith, c, ap (λ b. one_if (not b)) y, nothing) in
              (omega (arith, one), inr one)
        ]
      ]

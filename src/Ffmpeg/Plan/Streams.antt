-- ===== src/Ffmpeg/Plan/Streams.antt =====
-- pkg/ffmpeg/transcode.go: the streams that a Matroska output gets.
use media_processor.Prelude.{
  ◌≡◌, ◌⊎◌, ◌↔◌, refl, sym, ap, ◌∙◌, inl, inr, Bool, true, false, List, [], ◌∷◌, none, some, arith,
  AnyIn, Bool-cases, Option-cases,
}
use media_processor.Ffmpeg.Builder.{TranscodeBuilder, effective_container_is_mkv}
use media_processor.Ffmpeg.Plan.{
  MediaType, video, audio, subtitle, attachment, other_media, InStream, Libav, StreamState,
  is_video, is_audio, is_attachment, matroska_accepts_track_media_type, is_some, is_excluded,
  is_real_video, has_real_video_stream, is_cover_art, stream_state, build_states,
  build_stream_states,
}

module _ (av : Libav) (t : TranscodeBuilder) where
  -- A video stream with moving pictures that is not excluded.
  abbrev pub IsWantedVideo : InStream → Type 0
  IsWantedVideo s =
      (is_excluded av t s ≡ false)
      × (s.media_type ≡ video)
      × (s.is_attached_pic ≡ false)
      × (av.is_still_image_codec s.codec_id ≡ false)

  -- What a stream of a type is written for, beside streams `ss`.
  abbrev IsWrittenAs : List InStream → InStream → MediaType → Type 0
  IsWrittenAs ss s video =
      (s.is_attached_pic ≡ false)
      × ((av.is_still_image_codec s.codec_id ≡ false) ⊎ ¬ AnyIn IsWantedVideo ss)
  IsWrittenAs ss s audio = Unit
  IsWrittenAs ss s subtitle = Unit
  IsWrittenAs ss s attachment = t.cover_art ≡ none
  IsWrittenAs ss s other_media = ⊥

  -- A stream that is written: it is not excluded; a video is no attached picture, and a still image
  -- only where there is no other video; an attachment only where no cover art is given; and nothing
  -- but these, audio and subtitles.
  abbrev pub IsWritten : List InStream → InStream → Type 0
  IsWritten ss s = (is_excluded av t s ≡ false) × IsWrittenAs ss s s.media_type

  is_real_video_iff :
      (s : InStream)
      → ((is_excluded av t s ≡ false) × (is_real_video av t s ≡ true)) ↔ IsWantedVideo s
  unfolding is_real_video is_video
  is_real_video_iff s = (λ h. ground arith, λ h. ground arith)

  has_real_video_stream_iff :
      (ss : List InStream) → (has_real_video_stream av t ss ≡ true) ↔ AnyIn IsWantedVideo ss
  unfolding has_real_video_stream
  has_real_video_stream_iff [] = (λ h. cc h, λ h. absurd h)
  has_real_video_stream_iff (s ∷ ss) = elim (Bool-cases (is_excluded av t s)) [
    | inl e ↦ (
      λ h. inr ((has_real_video_stream_iff ss).0 (ground arith)),
      λ h. elim h [
        | inl k ↦ cc (e, k.0)
        | inr k ↦ ground (arith, (has_real_video_stream_iff ss).1 k)
      ],
    )
    | inr e ↦ elim (Bool-cases (is_real_video av t s)) [
      | inl r ↦ (λ h. inl ((is_real_video_iff s).0 (e, r)), λ h. rw (e, r))
      | inr r ↦ (
        λ h. inr ((has_real_video_stream_iff ss).0 (ground arith)),
        λ h. elim h [
          | inl k ↦ cc (r, ((is_real_video_iff s).1 k).1)
          | inr k ↦ ground (arith, (has_real_video_stream_iff ss).1 k)
        ],
      )
    ]
  ]

  -- The state of a stream, by its type.
  stream_state-cases :
      (has_real : Bool) (s : InStream)
      → effective_container_is_mkv t ≡ true
      → (is_some (stream_state av t has_real s) ≡ true) ↔ (
          (is_excluded av t s ≡ false)
          × (is_cover_art av t has_real s ≡ false)
          × (matroska_accepts_track_media_type s.media_type ≡ true))
  unfolding stream_state is_some is_video is_audio matroska_accepts_track_media_type
  stream_state-cases has_real s mkv = (λ h. ground arith, λ h. ground arith)

  cover_art-written :
      (ss : List InStream) (has_real : Bool) (s : InStream) (m : MediaType)
      → s.media_type ≡ m
      → (has_real ≡ true) ↔ AnyIn IsWantedVideo ss
      → ((is_cover_art av t has_real s ≡ false) × (matroska_accepts_track_media_type m ≡ true))
        ↔ IsWrittenAs ss s m
  unfolding is_cover_art is_video is_attachment is_some matroska_accepts_track_media_type
  cover_art-written ss true s video e k = (
    λ h. (ground arith, inl (ground arith)),
    λ h. elim h.1 [ inl n ↦ (ground arith, refl) | inr n ↦ absurd (n (k.0 refl)) ],
  )
  cover_art-written ss false s video e k =
      (λ h. (ground arith, inr (λ a. cc (k.1 a))), λ h. (ground arith, refl))
  cover_art-written ss has_real s audio e k = (λ h. tt, λ h. (ground arith, refl))
  cover_art-written ss has_real s subtitle e k = (λ h. tt, λ h. (ground arith, refl))
  cover_art-written ss has_real s attachment e k = (λ h. ground arith, λ h. (ground arith, refl))
  cover_art-written ss has_real s other_media e k = (λ h. cc (h.1), λ h. absurd h)

  IsWritten-iff :
      (ss : List InStream) (s : InStream)
      → effective_container_is_mkv t ≡ true
      → (is_some (stream_state av t (has_real_video_stream av t ss) s) ≡ true) ↔ IsWritten ss s
  IsWritten-iff ss s mkv =
      let has_real = has_real_video_stream av t ss in
      let cases = stream_state-cases has_real s mkv in
      let art = cover_art-written ss has_real s s.media_type refl (has_real_video_stream_iff ss) in
      (
        λ h. let c = cases.0 h in (c.0, art.0 (c.1, c.2)),
        λ h. let c = art.1 h.1 in cases.1 (h.0, c.0, c.1),
      )

  -- What the loop does of its first stream.
  pub build_states-cons :
      (has_real : Bool) (x : InStream) (ss : List InStream) (states : List (InStream × StreamState))
      → build_states av t has_real (x ∷ ss) ≡ some states
      → ((stream_state av t has_real x ≡ none) × (build_states av t has_real ss ≡ some states))
        ⊎ ((st : StreamState) × (rest : List (InStream × StreamState)) × (stream_state av t has_real
                x
              ≡ some st)
            × (build_states av t has_real ss ≡ some rest)
            × (states ≡ (x, st) ∷ rest))
  unfolding build_states
  build_states-cons has_real x ss states e = elim (Option-cases (stream_state av t has_real x)) [
    | inl k ↦ inl (k, ground arith)
    | inr (st, k) ↦ elim (Option-cases (build_states av t has_real ss)) [
      | inl n ↦ absurd (ground arith)
      | inr (rest, r) ↦ inr (st, rest, k, r, ground arith)
    ]
  ]

  pub build_states-nil :
      (has_real : Bool) (states : List (InStream × StreamState))
      → build_states av t has_real [] ≡ some states
      → states ≡ []
  unfolding build_states
  build_states-nil has_real states e = cc e

  build_states_iff :
      (has_real : Bool) (ss : List InStream) (states : List (InStream × StreamState)) (s : InStream)
      → build_states av t has_real ss ≡ some states
      → AnyIn (λ x. x.0 ≡ s) states
        ↔ (AnyIn (λ x. x ≡ s) ss × (is_some (stream_state av t has_real s) ≡ true))
  unfolding is_some
  build_states_iff has_real [] states s e =
      rw (build_states-nil has_real states e) (λ h. absurd h, λ h. absurd h.0)
  build_states_iff has_real (x ∷ ss) states s e = elim (build_states-cons has_real x ss states e) [
    | inl (k, r) ↦
        let ih = build_states_iff has_real ss states s r in
        (
          λ h. (inr (ih.0 h).0, (ih.0 h).1),
          λ h. elim h.0 [
            | inl same ↦ cc (ap (λ y. is_some (stream_state av t has_real y)) (sym same), h.1, k)
            | inr m ↦ ih.1 (m, h.1)
          ],
        )
    | inr (st, rest, k, r, c) ↦
        let ih = build_states_iff has_real ss rest s r in
        rw c (
          λ h. elim h [
            | inl same ↦ (
              inl same,
              ap (λ y. is_some (stream_state av t has_real y)) (sym same) ∙ ap is_some k,
            )
            | inr m ↦ (inr (ih.0 m).0, (ih.0 m).1)
          ],
          λ h. elim h.0 [ inl same ↦ inl same | inr m ↦ inr (ih.1 (m, h.1)) ],
        )
  ]

  -- Of a Matroska output: a stream is written exactly if it is one of the input, is not excluded, and
  -- is audio, a subtitle, an attachment where no cover art is given, or a video that is no attached
  -- picture, and no still image either unless the input has no other video that is to be written.
  pub build_stream_states_iff :
      (ss : List InStream) (states : List (InStream × StreamState)) (s : InStream)
      → effective_container_is_mkv t ≡ true
      → build_stream_states av t ss ≡ some states
      → AnyIn (λ x. x.0 ≡ s) states ↔ (AnyIn (λ x. x ≡ s) ss × IsWritten ss s)
  unfolding build_stream_states
  build_stream_states_iff ss states s mkv e =
      let here = build_states_iff (has_real_video_stream av t ss) ss states s e in
      let why = IsWritten-iff ss s mkv in
      (λ h. ((here.0 h).0, why.0 (here.0 h).1), λ h. here.1 (h.0, why.1 h.1))

-- ===== src/Media/Streams/Retained.antt =====
-- workflows/media/transcode.go: the audio streams that the language filter keeps.
use media_processor.Prelude.{
  ℕ, ◌≡◌, ◌≢◌, refl, ap, true, false, List, [], ◌∷◌, arith, if◌then◌else◌,
}
use media_processor.Media.Types.{AudioStreamInfo}
use media_processor.Media.Streams.{
  is_english, has_english, foreign_audio, in_set, retain_audio, retained_audio,
}

abbrev pub english_only : List AudioStreamInfo → List AudioStreamInfo
english_only [] = []
english_only (s ∷ ss) = let rest = english_only ss in if is_english s.stream then s ∷ rest else rest

-- No later stream has this index.
abbrev pub Fresh : ℕ → List AudioStreamInfo → Type 0
Fresh i [] = Unit
Fresh i (s ∷ ss) = (s.index ≢ i) × Fresh i ss

-- Each stream has an index of its own.
abbrev pub DistinctIndices : List AudioStreamInfo → Type 0
DistinctIndices [] = Unit
DistinctIndices (s ∷ ss) = Fresh s.index ss × DistinctIndices ss

in_set-foreign_audio :
    (i : ℕ) (ss : List AudioStreamInfo) → Fresh i ss → in_set (foreign_audio ss) i ≡ false
unfolding in_set foreign_audio
in_set-foreign_audio i [] h = refl
in_set-foreign_audio i (s ∷ ss) h = ground (arith, in_set-foreign_audio i ss h.1)

-- Excluding one more index changes nothing for streams that do not have it.
retain_audio-Fresh :
    (i : ℕ) (is : List ℕ) (ss : List AudioStreamInfo)
    → Fresh i ss
    → retain_audio (i ∷ is) ss ≡ retain_audio is ss
unfolding retain_audio
retain_audio-Fresh i is [] h = refl
retain_audio-Fresh i is (s ∷ ss) h = ground (arith, retain_audio-Fresh i is ss h.1)

retain_audio-nil : (ss : List AudioStreamInfo) → retain_audio [] ss ≡ ss
unfolding retain_audio
retain_audio-nil [] = refl
retain_audio-nil (s ∷ ss) = ap (λ r. s ∷ r) (retain_audio-nil ss)

retain_audio-foreign :
    (ss : List AudioStreamInfo)
    → DistinctIndices ss
    → retain_audio (foreign_audio ss) ss ≡ english_only ss
unfolding retain_audio foreign_audio
retain_audio-foreign [] d = refl
retain_audio-foreign (s ∷ ss) d = ground (
  arith,
  in_set-foreign_audio s.index ss d.0,
  retain_audio-Fresh s.index (foreign_audio ss) ss d.0,
  retain_audio-foreign ss d.1,
)

-- Of streams with distinct indices, those tagged "eng" are kept if there are any, and else all.
retained_audio_lem :
    (ss : List AudioStreamInfo)
    → DistinctIndices ss
    → retained_audio ss ≡ (if has_english ss then english_only ss else ss)
unfolding retained_audio
retained_audio_lem ss d = ground (arith, retain_audio-foreign ss d, retain_audio-nil ss)

english_only-ne-nil : (ss : List AudioStreamInfo) → has_english ss ≡ true → english_only ss ≢ []
unfolding has_english
english_only-ne-nil [] h = cc
english_only-ne-nil (s ∷ ss) h = ground (arith, english_only-ne-nil ss)

-- Of audio streams with distinct indices, some are kept if there are any.
retained_audio-ne-nil :
    (ss : List AudioStreamInfo) → DistinctIndices ss → ss ≢ [] → retained_audio ss ≢ []
retained_audio-ne-nil ss d n = ground (arith, retained_audio_lem ss d, english_only-ne-nil ss)

-- ===== src/Ffmpeg/Audio/Tests.antt =====
-- An instance of the theorem on audio: packets of three frames, an encoder of frames of four samples,
-- and a resampler that adds a sample to each frame and holds one back.
use media_processor.Prelude.{
  ℕ, zero, suc, ◌≤◌, ◌≡◌, refl, sym, ap, ◌∙◌, true, false, List, [], ◌∷◌, ◌++◌, some, arith, length,
}
use media_processor.Prelude.Int.{pos}
use media_processor.Ffmpeg.Audio.{
  AudioFifo, converted, Resampler, Encoder, Decoded, start, transcode_audio,
}
use media_processor.Ffmpeg.Audio.Timeline.{first_pts, frames_of}
use media_processor.Ffmpeg.Audio.Flush.{IsDelivered}
use media_processor.Ffmpeg.Audio.Whole.{audio_of, transcode_audio-IsDelivered}

-- The first `n` samples and the rest.
abbrev split : ℕ → List ℕ → List ℕ × List ℕ
split zero q = ([], q)
split (suc n) [] = ([], [])
split (suc n) (x ∷ q) = (x ∷ (split n q).0, (split n q).1)

split-append : (n : ℕ) (q : List ℕ) → q ≡ (split n q).0 ++ (split n q).1
split-append zero q = refl
split-append (suc n) [] = refl
split-append (suc n) (x ∷ q) = ap (λ t. x ∷ t) (split-append n q)

length-split : (n : ℕ) (q : List ℕ) → n ≤ length q → length (split n q).0 ≡ n
length-split zero q h = refl
length-split (suc n) [] h = absurd (omega arith)
length-split (suc n) (x ∷ q) h = omega (arith, length-split n q (omega arith))

some_pair : {A : Type 0} (a b : A) → some a ≡ some b → a ≡ b
some_pair a b e = cc e

abbrev list_fifo : AudioFifo ℕ
list_fifo = record {
  Queue = List ℕ;
  contents = λ q. q;
  size = length;
  write = λ xs q. some (q ++ xs);
  read = λ n q. some (split n q);
  size_lem = λ q. refl;
  write_lem = λ xs q q' e. sym (some_pair (q ++ xs) q' e);
  read_lem =
      λ n q q' ys e. split-append n q ∙ ap (λ p. p.0 ++ p.1) (some_pair (split n q) (ys, q') e);
  length-read = λ n q q' ys le e.
      ap (λ p. length p.0) (sym (some_pair (split n q) (ys, q') e)) ∙ length-split n q le;
}

abbrev plain_resampler : Resampler ℕ
plain_resampler = record {
  Context = ℕ;
  fresh = some 0;
  convert = λ f c. converted (c ∷ f.samples) c;
  drain = λ c. converted (c ∷ []) c;
}

abbrev open_encoder : Encoder ℕ
open_encoder = record {
  writable = λ sent. true;
  takes = λ sent f. true;
  writes = λ sent. true;
  finishes = λ sent. true;
}

abbrev decoded : List (Decoded ℕ)
decoded =
    record { frames = record { pts = pos 100; samples = 1 ∷ 2 ∷ [] } ∷ []; fails = false }
    ∷ record { frames = record { pts = pos 102; samples = 3 ∷ [] } ∷ []; fails = false }
    ∷ []

abbrev last_decoded : Decoded ℕ
last_decoded = record {
  frames = record { pts = pos 103; samples = 4 ∷ 5 ∷ [] } ∷ [];
  fails = false;
}

transcode_audio-IsDelivered_example :
    IsDelivered list_fifo plain_resampler open_encoder 4
      (first_pts (λ x. x) (frames_of decoded ++ last_decoded.frames))
      (audio_of list_fifo plain_resampler open_encoder
        (frames_of decoded ++ last_decoded.frames)
        (some 7))
      0
      (transcode_audio list_fifo plain_resampler open_encoder
        (λ x. x)
        0
        (some 4)
        decoded
        last_decoded
        (start list_fifo plain_resampler open_encoder [] (some 7)))
transcode_audio-IsDelivered_example =
    transcode_audio-IsDelivered list_fifo plain_resampler open_encoder (λ x. x) 4 0 decoded
      last_decoded [] (some 7) (omega arith) refl (λ h. cc h)

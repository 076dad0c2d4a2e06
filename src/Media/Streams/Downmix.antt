-- ===== src/Media/Streams/Downmix.antt =====
-- workflows/media/transcode.go: when a stereo track is synthesised, and from what.
use media_processor.Prelude.{
  ℕ, ◌≡◌, refl, Bool, false, ◌&&◌, ◌||◌, List, [], ◌∷◌, Option, none, some, arith, ltb, leb,
  if◌then◌else◌,
}
use media_processor.Media.Types.{AudioStreamInfo}
use media_processor.Media.Streams.{downmix_loop, downmix_source_index}

-- A stream that plays on two speakers as it is.
abbrev pub is_stereo : AudioStreamInfo → Bool
is_stereo s = ltb 0 s.effective_channel_count && leb s.effective_channel_count 3

abbrev pub any_stereo : List AudioStreamInfo → Bool
any_stereo [] = false
any_stereo (s ∷ ss) = is_stereo s || any_stereo ss

abbrev pub first_surround : List AudioStreamInfo → Option ℕ
first_surround [] = none
first_surround (s ∷ ss) =
    if leb 4 s.effective_channel_count then some s.index else first_surround ss

abbrev or_else : Option ℕ → Option ℕ → Option ℕ
or_else (some i) o = some i
or_else none o = o

downmix_loop_lem :
    (first : Option ℕ) (ss : List AudioStreamInfo)
    → downmix_loop first ss ≡ (if any_stereo ss then none else or_else first (first_surround ss))
unfolding downmix_loop
downmix_loop_lem none [] = refl
downmix_loop_lem (some i) [] = refl
downmix_loop_lem none (s ∷ ss) =
    ground (arith, downmix_loop_lem none ss, downmix_loop_lem (some s.index) ss)
downmix_loop_lem (some i) (s ∷ ss) = ground (arith, downmix_loop_lem (some i) ss)

-- The downmix source is the first surround stream, unless any stream, before or after it, is stereo
-- compatible; then there is none.
downmix_source_index_lem :
    (ss : List AudioStreamInfo)
    → downmix_source_index ss ≡ (if any_stereo ss then none else first_surround ss)
unfolding downmix_source_index
downmix_source_index_lem ss = downmix_loop_lem none ss

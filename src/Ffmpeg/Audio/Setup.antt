-- ===== src/Ffmpeg/Audio/Setup.antt =====
-- pkg/ffmpeg/stream_audio.go: what `setupEncoder` sets up. Channel layouts with their comparison are a
-- parameter; a sample format is the number of its constant. Allocations that fail are left out.
pub mod Choices
use mathlib.Core.List.{cons-ne-nil}
use mathlib.Core.Path.{subst}
use media_processor.Prelude.{
  ℕ, ◌≡◌, ◌⊎◌, ◌↔◌, refl, sym, inl, inr, Bool, true, false, ◌||◌, not, List, [], ◌∷◌, Option, none,
  some, arith, ltb, ◌==◌, ==_iff, AnyIn, Bool-cases, if◌then◌else◌,
}

-- `astiav.ChannelLayout` with `Equal`.
pub record Layouts : Type 1 where
  pub Layout : Type 0
  pub same : Layout → Layout → Bool
  pub same_refl : (l : Layout) → same l l ≡ true
  pub stereo : Layout

pub record AudioFormat (L : Type 0) : Type 0 where
  pub sample_rate : ℕ
  pub channel_layout : L
  pub sample_format : ℕ

-- What an encoder supports; an empty list restricts nothing.
pub record Supported (L : Type 0) : Type 0 where
  pub sample_rates : List ℕ
  pub channel_layouts : List L
  pub sample_formats : List ℕ

-- `slices.Contains`.
unfoldable pub contains : List ℕ → ℕ → Bool
contains [] x = false
contains (y ∷ ys) x = y == x || contains ys x

unfoldable pub select_sample_rate : List ℕ → ℕ → ℕ
unfolding contains
select_sample_rate [] rate = rate
select_sample_rate (r ∷ rs) rate =
    if contains (r ∷ rs) rate then rate else if contains (r ∷ rs) 48_000 then 48_000 else r

unfoldable pub select_sample_format : List ℕ → ℕ → ℕ
unfolding contains
select_sample_format [] fmt = fmt
select_sample_format (f ∷ fs) fmt = if contains (f ∷ fs) fmt then fmt else f

module _ (ls : Layouts) where
  open ls use {Layout, same, same_refl, stereo}

  unfoldable pub contains_layout : List Layout → Layout → Bool
  contains_layout [] l = false
  contains_layout (k ∷ ks) l = same k l || contains_layout ks l

  -- The layout that is asked for: the target, or that of the decoder.
  unfoldable pub wanted_layout : Option Layout → Layout → Layout
  wanted_layout none decoder = decoder
  wanted_layout (some l) decoder = l

  unfoldable pub select_channel_layout : Option Layout → List Layout → Layout → Layout
  unfolding contains_layout wanted_layout
  select_channel_layout target [] decoder = wanted_layout target decoder
  select_channel_layout none (l ∷ ls) decoder =
      if contains_layout (l ∷ ls) decoder then decoder else l
  select_channel_layout (some t) (l ∷ ls) decoder =
      if contains_layout (l ∷ ls) t
      then t
      else if contains_layout (l ∷ ls) stereo
      then stereo
      else l

  -- The format that the encoder is opened with.
  unfoldable pub encoder_format :
      Option Layout → Supported Layout → AudioFormat Layout → AudioFormat Layout
  unfolding select_sample_rate select_channel_layout select_sample_format
  encoder_format target codec decoder = record {
    sample_rate = select_sample_rate codec.sample_rates decoder.sample_rate;
    channel_layout = select_channel_layout target codec.channel_layouts decoder.channel_layout;
    sample_format = select_sample_format codec.sample_formats decoder.sample_format;
  }

  -- Whether there is a resampler.
  unfoldable pub need_resample : AudioFormat Layout → AudioFormat Layout → Bool
  need_resample decoder enc =
      not (decoder.sample_format == enc.sample_format)
      || (not (same decoder.channel_layout enc.channel_layout)
          || not (decoder.sample_rate == enc.sample_rate))

  -- A choice among what is supported: any value if the list is empty, else a value of the list, and
  -- the one that is asked for if it is there.
  abbrev pub IsChoice : {A : Type 0} → (A → A → Bool) → List A → A → A → Type 0
  IsChoice eq xs wanted chosen =
      ((xs ≡ []) ⊎ AnyIn (λ x. eq x chosen ≡ true) xs)
      × ((AnyIn (λ x. eq x wanted ≡ true) xs ⊎ (xs ≡ [])) → chosen ≡ wanted)

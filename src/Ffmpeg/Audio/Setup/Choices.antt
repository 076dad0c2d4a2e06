-- ===== src/Ffmpeg/Audio/Setup/Choices.antt =====
-- The format that an audio encoder is opened with.
use mathlib.Core.List.{cons-ne-nil}
use mathlib.Core.Path.{subst}
use media_processor.Prelude.{
  ℕ, ◌≡◌, ◌↔◌, refl, sym, inl, inr, Bool, true, false, List, [], ◌∷◌, Option, none, some, arith,
  ◌==◌, ==_iff, AnyIn, Bool-cases,
}
use media_processor.Ffmpeg.Audio.Setup.{
  Layouts, AudioFormat, Supported, contains, select_sample_rate, select_sample_format,
  contains_layout, wanted_layout, select_channel_layout, encoder_format, need_resample, IsChoice,
}

contains_iff : (xs : List ℕ) (x : ℕ) → (contains xs x ≡ true) ↔ AnyIn (λ y. (y == x) ≡ true) xs
unfolding contains
contains_iff [] x = (λ h. cc h, λ h. absurd h)
contains_iff (y ∷ ys) x = elim (Bool-cases (y == x)) [
  | inl e ↦ (λ h. inl e, λ h. rw e)
  | inr e ↦ (
    λ h. inr ((contains_iff ys x).0 (ground arith)),
    λ h. elim h [ inl k ↦ rw k | inr k ↦ ground (arith, (contains_iff ys x).1 k) ],
  )
]

module _ (ls : Layouts) where
  open ls use {Layout, same, same_refl, stereo}

  contains_layout_iff :
      (ks : List Layout) (l : Layout)
      → (contains_layout ls ks l ≡ true) ↔ AnyIn (λ k. same k l ≡ true) ks
  unfolding contains_layout
  contains_layout_iff [] l = (λ h. cc h, λ h. absurd h)
  contains_layout_iff (k ∷ ks) l = elim (Bool-cases (same k l)) [
    | inl e ↦ (λ h. inl e, λ h. rw e)
    | inr e ↦ (
      λ h. inr ((contains_layout_iff ks l).0 (ground arith)),
      λ h. elim h [ inl m ↦ rw m | inr m ↦ ground (arith, (contains_layout_iff ks l).1 m) ],
    )
  ]

  chosen :
      {A : Type 0} (eq : A → A → Bool) (xs : List A) (w : A)
      → AnyIn (λ x. eq x w ≡ true) xs
      → IsChoice ls eq xs w w
  chosen eq xs w h = (inr h, λ k. refl)

  other :
      {A : Type 0} (eq : A → A → Bool) (x : A) (xs : List A) (w c : A)
      → ¬ AnyIn (λ y. eq y w ≡ true) (x ∷ xs)
      → AnyIn (λ y. eq y c ≡ true) (x ∷ xs)
      → IsChoice ls eq (x ∷ xs) w c
  other eq x xs w c n h =
      (inr h, λ k. elim k [ inl m ↦ absurd (n m) | inr e ↦ absurd (cons-ne-nil x xs e) ])

  no_number : (xs : List ℕ) (x : ℕ) → contains xs x ≡ false → ¬ AnyIn (λ y. (y == x) ≡ true) xs
  no_number xs x e h = cc (e, (contains_iff xs x).1 h)

  no_layout :
      (ks : List Layout) (l : Layout)
      → contains_layout ls ks l ≡ false
      → ¬ AnyIn (λ k. same k l ≡ true) ks
  no_layout ks l e h = cc (e, (contains_layout_iff ks l).1 h)

  rate-IsChoice : (xs : List ℕ) (r : ℕ) → IsChoice ls ◌==◌ xs r (select_sample_rate xs r)
  unfolding select_sample_rate
  rate-IsChoice [] r = (inl refl, λ h. refl)
  rate-IsChoice (x ∷ xs) r = elim (Bool-cases (contains (x ∷ xs) r)) [
    | inl e ↦
        subst (λ c. IsChoice ls ◌==◌ (x ∷ xs) r c) (sym (rw (e, select_sample_rate) refl))
          (chosen ◌==◌ (x ∷ xs) r ((contains_iff (x ∷ xs) r).0 e))
    | inr e ↦ elim (Bool-cases (contains (x ∷ xs) 48_000)) [
      | inl e' ↦
          subst (λ c. IsChoice ls ◌==◌ (x ∷ xs) r c) (sym (rw (e, e', select_sample_rate) refl))
            (other ◌==◌ x xs r 48_000 (no_number (x ∷ xs) r e)
              ((contains_iff (x ∷ xs) 48_000).0 e'))
      | inr e' ↦
          subst (λ c. IsChoice ls ◌==◌ (x ∷ xs) r c) (sym (rw (e, e', select_sample_rate) refl))
            (other ◌==◌ x xs r x (no_number (x ∷ xs) r e) (inl ((==_iff x x).1 refl)))
    ]
  ]

  format-IsChoice : (xs : List ℕ) (m : ℕ) → IsChoice ls ◌==◌ xs m (select_sample_format xs m)
  unfolding select_sample_format
  format-IsChoice [] m = (inl refl, λ h. refl)
  format-IsChoice (x ∷ xs) m = elim (Bool-cases (contains (x ∷ xs) m)) [
    | inl e ↦
        subst (λ c. IsChoice ls ◌==◌ (x ∷ xs) m c) (sym (rw (e, select_sample_format) refl))
          (chosen ◌==◌ (x ∷ xs) m ((contains_iff (x ∷ xs) m).0 e))
    | inr e ↦
        subst (λ c. IsChoice ls ◌==◌ (x ∷ xs) m c) (sym (rw (e, select_sample_format) refl))
          (other ◌==◌ x xs m x (no_number (x ∷ xs) m e) (inl ((==_iff x x).1 refl)))
  ]

  -- The value of a choice among layouts.
  layout_by :
      (xs : List Layout) (w c c' : Layout)
      → c' ≡ c
      → IsChoice ls same xs w c
      → IsChoice ls same xs w c'
  layout_by xs w c c' e h = subst (λ t. IsChoice ls same xs w t) (sym e) h

  layout-IsChoice :
      (target : Option Layout) (xs : List Layout) (d : Layout)
      → IsChoice ls same xs (wanted_layout ls target d) (select_channel_layout ls target xs d)
  unfolding select_channel_layout wanted_layout
  layout-IsChoice target [] d = (inl refl, λ h. refl)
  layout-IsChoice none (x ∷ xs) d = elim (Bool-cases (contains_layout ls (x ∷ xs) d)) [
    | inl e ↦
        layout_by (x ∷ xs) d d _ (rw (e, select_channel_layout) refl)
          (chosen same (x ∷ xs) d ((contains_layout_iff (x ∷ xs) d).0 e))
    | inr e ↦
        layout_by (x ∷ xs) d x _ (rw (e, select_channel_layout) refl)
          (other same x xs d x (no_layout (x ∷ xs) d e) (inl (same_refl x)))
  ]
  layout-IsChoice (some t) (x ∷ xs) d = elim (Bool-cases (contains_layout ls (x ∷ xs) t)) [
    | inl e ↦
        layout_by (x ∷ xs) t t _ (rw (e, select_channel_layout) refl)
          (chosen same (x ∷ xs) t ((contains_layout_iff (x ∷ xs) t).0 e))
    | inr e ↦ elim (Bool-cases (contains_layout ls (x ∷ xs) stereo)) [
      | inl e' ↦ layout_by (x ∷ xs) t stereo _ (rw (e, e', select_channel_layout) refl) (
          other same x xs t stereo (no_layout (x ∷ xs) t e)
            ((contains_layout_iff (x ∷ xs) stereo).0 e'))
      | inr e' ↦
          layout_by (x ∷ xs) t x _ (rw (e, e', select_channel_layout) refl)
            (other same x xs t x (no_layout (x ∷ xs) t e) (inl (same_refl x)))
    ]
  ]

  -- The encoder of a stream is opened with a sample rate, a channel layout and a sample format that it
  -- supports, wherever it names what it supports; each is the one of the decoder, or the layout that
  -- the stream is to be mixed down to, if that is supported. No resampler is set up exactly if the
  -- three are those of the decoder.
  encoder_format_lem :
      (target : Option Layout) (codec : Supported Layout) (decoder : AudioFormat Layout)
      → IsChoice ls ◌==◌ codec.sample_rates decoder.sample_rate
          (encoder_format ls target codec decoder).sample_rate
        × IsChoice ls same codec.channel_layouts
            (wanted_layout ls target decoder.channel_layout)
            (encoder_format ls target codec decoder).channel_layout
        × IsChoice ls ◌==◌ codec.sample_formats decoder.sample_format
            (encoder_format ls target codec decoder).sample_format
        × ((need_resample ls decoder (encoder_format ls target codec decoder) ≡ false) ↔ (
            ((encoder_format ls target codec decoder).sample_rate ≡ decoder.sample_rate)
            × (same decoder.channel_layout (encoder_format ls target codec decoder).channel_layout
                ≡ true)
            × ((encoder_format ls target codec decoder).sample_format ≡ decoder.sample_format)))
  unfolding encoder_format need_resample
  encoder_format_lem target codec decoder = (
    rate-IsChoice codec.sample_rates decoder.sample_rate,
    layout-IsChoice target codec.channel_layouts decoder.channel_layout,
    format-IsChoice codec.sample_formats decoder.sample_format,
    (λ h. ground arith, λ h. ground arith),
  )

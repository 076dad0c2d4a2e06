-- ===== src/Worker/Settings/Ranges.antt =====
-- cmd/worker/config.go: the values that a variable of the environment can have, where it is accepted.
use mathlib.Core.Path.{subst}
use media_processor.Prelude.{
  ℕ, ◌≤◌, ◌≡◌, ◌⊎◌, refl, ap, inl, inr, Bool, true, false, ◌||◌, Option, none, some, String, str_eq,
  arith, Bool-cases, Option-cases,
}
use media_processor.Prelude.Int.{ℤ, pos, pos_part, ◌≤ℤ◌}
use media_processor.Text.{codes}
use media_processor.Text.Decimal.{parse_int, parse_int-bounded}
use media_processor.Worker.Settings.{
  Numbers, ConfigError, ◌>>=◌, checked, is_positive, is_h265_crf, is_unit, is_coefficient, atoi,
  setting, parse_positive_int, parse_unit_float, parse_timeout, parse_h265_crf,
  parse_positive_timeout, parse_positive_int32, parse_backoff_coefficient,
}

bind_inr :
    {A B : Type 0} (m : ConfigError ⊎ A) (f : A → ConfigError ⊎ B) (b : B)
    → (m >>= f) ≡ inr b
    → (a : A) × (m ≡ inr a) × (f a ≡ inr b)
unfolding ◌>>=◌
bind_inr (inl e) f b h = cc h
bind_inr (inr a) f b h = (a, refl, h)

inr_inj : {A : Type 0} (a b : A) → ◌≡◌ {A = ConfigError ⊎ A} (inr a) (inr b) → a ≡ b
inr_inj a b e = cc e

-- What holds of a result, if there is one.
abbrev pub Yields : {A : Type 0} → (A → Type 0) → ConfigError ⊎ A → Type 0
Yields {A = A} P m = (a : A) → m ≡ inr a → P a

pub bind-Yields :
    {A B : Type 0} (P : A → Type 0) (Q : B → Type 0) (m : ConfigError ⊎ A) (f : A → ConfigError ⊎ B)
    → Yields P m
    → ((a : A) → P a → Yields Q (f a))
    → Yields Q (m >>= f)
unfolding ◌>>=◌
bind-Yields P Q (inl e) f h k b eq = cc eq
bind-Yields P Q (inr a) f h k b eq = k a (h a refl) b eq

pub inr-Yields : {A : Type 0} (P : A → Type 0) (a : A) → P a → Yields P (inr a)
inr-Yields P a h b eq = subst P (inr_inj a b eq) h

pub any-Yields :
    {A B : Type 0} (Q : B → Type 0) (m : ConfigError ⊎ A) (f : A → ConfigError ⊎ B)
    → ((a : A) → Yields Q (f a))
    → Yields Q (m >>= f)
any-Yields Q m f k = bind-Yields (λ a. Unit) Q m f (λ a e. tt) (λ a h. k a)

checked-some :
    {A : Type 0} (test : A → Bool) (o : Option A) (a : A)
    → checked test o ≡ some a
    → (test a ≡ true) × (o ≡ some a)
unfolding checked
checked-some test none a h = cc h
checked-some test (some b) a h = elim (Bool-cases (test b)) [
  | inl e ↦ (ground arith, ground arith)
  | inr e ↦ ground arith
]

module _ (nums : Numbers) (env : String → String) where
  open nums use {
    floats, parse_float, is_nan, is_inf, is_char_device, three_halves, three_halves_finite,
    three_halves_bounded, le_or_lt, zero_is_number, one_is_number,
  }
  open floats use {
    Float, le, lt, float_zero, float_one, four_fifths, four_fifths_positive, four_fifths_bounded,
  }

  -- A setting is its default, or what is parsed.
  setting-cases :
      {A : Type 0} (name : String) (default : A) (parse : String → Option A) (a : A)
      → setting nums env name default parse ≡ inr a
      → (a ≡ default) ⊎ (parse (env name) ≡ some a)
  unfolding setting
  setting-cases name default parse a h = elim (Bool-cases (str_eq (env name) "")) [
    | inl e ↦ inl (ground arith)
    | inr e ↦ elim (Option-cases (parse (env name))) [
      | inl n ↦ ground arith
      | inr (b, y) ↦ inr (ground arith)
    ]
  ]

  setting-checked :
      {A : Type 0} (name : String) (default : A) (test : A → Bool) (parse : String → Option A)
      (a : A)
      → setting nums env name default (λ raw. checked test (parse raw)) ≡ inr a
      → (a ≡ default) ⊎ ((test a ≡ true) × (parse (env name) ≡ some a))
  setting-checked name default test parse a h =
      elim (setting-cases name default (λ raw. checked test (parse raw)) a h) [
        | inl e ↦ inl e
        | inr e ↦ inr (checked-some test (parse (env name)) a e)
      ]

  pub parse_positive_int-pos :
      (name : String) (d a : ℤ)
      → pos 1 ≤ℤ d
      → parse_positive_int nums env name d ≡ inr a
      → pos 1 ≤ℤ a
  unfolding parse_positive_int is_positive
  parse_positive_int-pos name d a h e = elim (setting-checked name d is_positive atoi a e) [
    | inl k ↦ rw k h
    | inr k ↦ ground (arith, k.0)
  ]

  -- In (0, 1], or not a number.
  abbrev pub InUnit : Float → Type 0
  InUnit v = (is_nan v ≡ true) ⊎ ((lt float_zero v ≡ true) × (le v float_one ≡ true))

  pub unit-InUnit : (v : Float) → le v float_zero ≡ false → lt float_one v ≡ false → InUnit v
  unit-InUnit v h k = elim (Bool-cases (is_nan v)) [
    | inl n ↦ inl n
    | inr n ↦ inr (
      ground (arith, le_or_lt v float_zero n zero_is_number),
      ground (arith, le_or_lt v float_one n one_is_number),
    )
  ]

  pub parse_unit_float-InUnit :
      (name : String) (d a : Float) → InUnit d → parse_unit_float nums env name d ≡ inr a → InUnit a
  unfolding parse_unit_float is_unit
  parse_unit_float-InUnit name d a h e =
      elim (setting-checked name d (is_unit nums env) parse_float a e) [
        | inl k ↦ rw k h
        | inr k ↦ unit-InUnit a (ground (arith, k.0)) (ground (arith, k.0))
      ]

  -- A finite number from 1 on.
  abbrev pub IsCoefficient : Float → Type 0
  IsCoefficient v = (is_nan v ≡ false) × (is_inf v ≡ false) × (le float_one v ≡ true)

  finite-IsCoefficient :
      (v : Float) → (is_nan v || is_inf v) ≡ false → lt v float_one ≡ false → IsCoefficient v
  finite-IsCoefficient v f h =
      let n : is_nan v ≡ false = ground arith in
      (n, ground arith, ground (arith, le_or_lt float_one v one_is_number n))

  three_halves-IsCoefficient : IsCoefficient three_halves
  three_halves-IsCoefficient =
      finite-IsCoefficient three_halves three_halves_finite three_halves_bounded

  pub parse_backoff_coefficient-IsCoefficient :
      (name : String) (a : Float)
      → parse_backoff_coefficient nums env name three_halves ≡ inr a
      → IsCoefficient a
  unfolding parse_backoff_coefficient is_coefficient
  parse_backoff_coefficient-IsCoefficient name a e =
      elim (setting-checked name three_halves (is_coefficient nums env) parse_float a e) [
        | inl k ↦ rw k three_halves-IsCoefficient
        | inr k ↦ finite-IsCoefficient a (ground (arith, k.0)) (ground (arith, k.0))
      ]

  pub parse_h265_crf-range :
      (name : String) (a : ℤ)
      → parse_h265_crf nums env name ≡ inr a
      → (a ≡ pos 0) ⊎ ((pos 1 ≤ℤ a) × (a ≤ℤ pos 51))
  unfolding parse_h265_crf is_h265_crf
  parse_h265_crf-range name a e = elim (setting-checked name (pos 0) is_h265_crf atoi a e) [
    | inl k ↦ inl k
    | inr k ↦ inr (ground (arith, k.0))
  ]

  pub parse_positive_timeout-pos :
      (name : String) (d a : ℤ) → parse_positive_timeout nums env name d ≡ inr a → pos 1 ≤ℤ a
  unfolding parse_positive_timeout
  parse_positive_timeout-pos name d a e =
      let (x, ex, ey) = bind_inr (parse_timeout nums env name d) _ a e in ground arith

  pub parse_positive_int32-range :
      (name : String) (d a : ℕ)
      → 1 ≤ d
      → d ≤ 2_147_483_647
      → parse_positive_int32 nums env name d ≡ inr a
      → (1 ≤ a) × (a ≤ 2_147_483_647)
  unfolding parse_positive_int32 is_positive
  parse_positive_int32-range name d a lo hi e =
      let parse : String → Option ℤ = λ raw. parse_int 2_147_483_648 (codes raw) in
      let (x, ex, ey) =
        bind_inr (setting nums env name (pos d) (λ raw. checked is_positive (parse raw)))
          (λ n. inr (pos_part n)) a e in
      elim (setting-checked name (pos d) is_positive parse x ex) [
        | inl k ↦ ground (arith, ap pos_part k)
        | inr k ↦
            ground
              (arith, k.0, parse_int-bounded 2_147_483_648 (codes (env name)) x (omega arith) k.1)
      ]

-- ===== src/Worker/Settings.antt =====
-- cmd/worker/config.go, with internal/envvar: how a variable of the environment is parsed.
-- strconv.ParseFloat, time.ParseDuration, float64 and what os.Stat says of a path are parameters. A
-- duration is an integer of nanoseconds.
pub mod Ranges
use media_processor.Prelude.{
  ℕ, ◌≡◌, ◌⊎◌, inl, inr, Bool, true, false, ◌&&◌, ◌||◌, not, [], ◌∷◌, Option, none, some, String,
  str_eq, if◌then◌else◌,
}
use media_processor.Prelude.Int.{ℤ, pos, pos_part, leb_ℤ, ltb_ℤ}
use media_processor.Text.{codes}
use media_processor.Text.Decimal.{parse_int}
use media_processor.Limiter.Defs.{Floats}
use media_processor.Worker.Activities.{ResolveError, contains}

-- IEEE: a NaN is not ordered, any other two are; 0 and 1 are numbers. The constant 1.5 is finite, and
-- not below 1.
pub record Numbers : Type 1 where
  pub floats : Floats
  pub is_nan : floats.Float → Bool
  pub is_inf : floats.Float → Bool
  pub parse_float : String → Option floats.Float
  pub parse_duration : String → Option ℤ
  pub is_char_device : String → Option Bool
  pub three_halves : floats.Float
  pub nan_le : (x y : floats.Float) → is_nan x ≡ true → floats.le x y ≡ false
  pub nan_lt : (x y : floats.Float) → is_nan x ≡ true → floats.lt y x ≡ false
  pub le_or_lt :
      (x y : floats.Float)
      → is_nan x ≡ false
      → is_nan y ≡ false
      → (floats.le x y ≡ true) ⊎ (floats.lt y x ≡ true)
  pub zero_is_number : is_nan floats.float_zero ≡ false
  pub one_is_number : is_nan floats.float_one ≡ false
  pub three_halves_finite : (is_nan three_halves || is_inf three_halves) ≡ false
  pub three_halves_bounded : floats.lt three_halves floats.float_one ≡ false

-- An error names its variable.
pub data ConfigError : Type 0 where
  not_set : String → ConfigError
  invalid : String → ConfigError
  bad_activities : ResolveError → ConfigError

infixl 5 ◌>>=◌
unfoldable pub ◌>>=◌ : {A B : Type 0} → ConfigError ⊎ A → (A → ConfigError ⊎ B) → ConfigError ⊎ B
inl e >>= f = inl e
inr a >>= f = f a

-- The default for a text that is blank.
unfoldable pub or_text : String → String → String
or_text raw default = if str_eq raw "" then default else raw

-- A parsed value that passes a test.
unfoldable pub checked : {A : Type 0} → (A → Bool) → Option A → Option A
checked test none = none
checked test (some a) = if test a then some a else none

-- strconv.Atoi.
unfoldable pub atoi : String → Option ℤ
unfolding parse_int
atoi raw = parse_int 9_223_372_036_854_775_808 (codes raw)

unfoldable pub is_positive : ℤ → Bool
is_positive n = ltb_ℤ (pos 0) n

unfoldable pub is_h265_crf : ℤ → Bool
is_h265_crf n = leb_ℤ (pos 1) n && leb_ℤ n (pos 51)

-- strconv.ParseBool.
unfoldable pub parse_bool_text : String → Option Bool
unfolding contains
parse_bool_text raw =
    if contains ("1" ∷ "t" ∷ "T" ∷ "true" ∷ "TRUE" ∷ "True" ∷ []) raw
    then some true
    else if contains ("0" ∷ "f" ∷ "F" ∷ "false" ∷ "FALSE" ∷ "False" ∷ []) raw
    then some false
    else none

module _ (nums : Numbers) (env : String → String) where
  open nums use {floats, is_nan, is_inf, parse_float, parse_duration, is_char_device, three_halves}
  open floats use {Float, le, lt, float_zero, float_one, four_fifths}

  -- A variable that is unset or empty has its default; else it is parsed.
  unfoldable pub setting : {A : Type 0} → String → A → (String → Option A) → ConfigError ⊎ A
  setting name default parse =
      if str_eq (env name) ""
      then inr default
      else elim (parse (env name)) [ none ↦ inl (invalid name) | some a ↦ inr a ]

  unfoldable pub require_env : String → ConfigError ⊎ String
  require_env name = if str_eq (env name) "" then inl (not_set name) else inr (env name)

  unfoldable pub parse_bool : String → Bool → ConfigError ⊎ Bool
  unfolding setting parse_bool_text
  parse_bool name default = setting name default parse_bool_text

  unfoldable pub parse_positive_int : String → ℤ → ConfigError ⊎ ℤ
  unfolding setting checked is_positive atoi
  parse_positive_int name default = setting name default (λ raw. checked is_positive (atoi raw))

  -- The test of `parseUnitFloat`.
  unfoldable pub is_unit : Float → Bool
  is_unit v = not (le v float_zero || lt float_one v)

  unfoldable pub parse_unit_float : String → Float → ConfigError ⊎ Float
  unfolding setting checked is_unit
  parse_unit_float name default = setting name default (λ raw. checked is_unit (parse_float raw))

  unfoldable pub parse_crop_threshold : String → ℤ → ConfigError ⊎ ℤ
  unfolding setting atoi
  parse_crop_threshold name default = setting name default atoi

  unfoldable pub parse_h265_crf : String → ConfigError ⊎ ℤ
  unfolding setting checked is_h265_crf atoi
  parse_h265_crf name = setting name (pos 0) (λ raw. checked is_h265_crf (atoi raw))

  unfoldable pub parse_timeout : String → ℤ → ConfigError ⊎ ℤ
  unfolding setting
  parse_timeout name default = setting name default parse_duration

  unfoldable pub parse_positive_timeout : String → ℤ → ConfigError ⊎ ℤ
  unfolding parse_timeout
  parse_positive_timeout name default =
      parse_timeout name default >>= λ d. if leb_ℤ d (pos 0) then inl (invalid name) else inr d

  unfoldable pub parse_positive_int32 : String → ℕ → ConfigError ⊎ ℕ
  unfolding setting checked is_positive parse_int
  parse_positive_int32 name default =
      setting name (pos default) (λ raw. checked is_positive (parse_int 2_147_483_648 (codes raw)))
      >>= λ n. inr (pos_part n)

  -- The test of `parseBackoffCoefficient`.
  unfoldable pub is_coefficient : Float → Bool
  is_coefficient v = not (is_nan v || (is_inf v || lt v float_one))

  unfoldable pub parse_backoff_coefficient : String → Float → ConfigError ⊎ Float
  unfolding setting checked is_coefficient
  parse_backoff_coefficient name default =
      setting name default (λ raw. checked is_coefficient (parse_float raw))

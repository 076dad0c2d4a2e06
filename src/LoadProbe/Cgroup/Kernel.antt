-- ===== src/LoadProbe/Cgroup/Kernel.antt =====
-- pkg/loadprobe/cgroup_linux.go: cpu.max as the kernel writes it.
use mathlib.Core.List.{append_assoc, append-nil}
use media_processor.Prelude.{
  ℕ, ◌≤◌, ◌<◌, ◌≡◌, ◌≢◌, refl, ap, ◌∙◌, true, false, List, [], ◌∷◌, ◌++◌, some, arith,
}
use media_processor.Text.{codes, same_codes, is_space}
use media_processor.Text.Decimal.{
  u64_mod, format, AllDigits, format-AllDigits, format-ne-nil, parse_uint-format,
}
use media_processor.LoadProbe.Cgroup.{
  add_word, fields, constrained, unconstrained, check_period, cpu_max_of, read_cpu_max,
}

-- A line of cpu.max with a quota, as the kernel writes it.
abbrev pub cpu_max_line : ℕ → ℕ → List ℕ
cpu_max_line q p = format q ++ b' ' ∷ (format p ++ 10 ∷ [])

-- One without a quota.
abbrev pub max_line : ℕ → List ℕ
max_line p = codes "max" ++ b' ' ∷ (format p ++ 10 ∷ [])

digit_not_space : (c : ℕ) → b'0' ≤ c → c ≤ b'9' → is_space c ≡ false
unfolding is_space
digit_not_space c h k = ground arith

-- Digits up to a space are one word.
fields-digits :
    (w ds s : List ℕ) (c : ℕ)
    → AllDigits ds
    → is_space c ≡ true
    → fields w (ds ++ c ∷ s) ≡ add_word (w ++ ds) (fields [] s)
unfolding fields
fields-digits w [] s c h k = rw (k, append-nil w) refl
fields-digits w (d ∷ ds) s c (lo, hi, h) k = rw (digit_not_space d lo hi) (
    fields-digits (w ++ d ∷ []) ds s c h k
    ∙ ap (λ t. add_word t (fields [] s)) (append_assoc w (d ∷ []) ds))

add_word-cons : (w : List ℕ) (ws : List (List ℕ)) → w ≢ [] → add_word w ws ≡ w ∷ ws
unfolding add_word
add_word-cons [] ws h = absurd (h refl)
add_word-cons (c ∷ w) ws h = refl

space_is_space : is_space b' ' ≡ true
unfolding is_space
space_is_space = refl

newline_is_space : is_space 10 ≡ true
unfolding is_space
newline_is_space = refl

fields_max : (s : List ℕ) → fields [] (codes "max" ++ b' ' ∷ s) ≡ codes "max" ∷ fields [] s
unfolding fields is_space add_word
fields_max s = refl

fields-period : (p : ℕ) → fields [] (format p ++ 10 ∷ []) ≡ format p ∷ []
unfolding fields add_word
fields-period p =
    fields-digits [] (format p) [] 10 (format-AllDigits p) newline_is_space
    ∙ add_word-cons (format p) _ (format-ne-nil p)

fields-line : (q p : ℕ) → fields [] (cpu_max_line q p) ≡ format q ∷ format p ∷ []
unfolding fields add_word
fields-line q p =
    fields-digits [] (format q) (format p ++ 10 ∷ []) b' ' (format-AllDigits q) space_is_space
    ∙ add_word-cons (format q) _ (format-ne-nil q)
    ∙ ap (λ t. format q ∷ t) (fields-period p)

-- Digits are not the word max.
digits_not_max : (s : List ℕ) → AllDigits s → same_codes s (codes "max") ≡ false
unfolding same_codes
digits_not_max [] h = refl
digits_not_max (c ∷ s) (lo, hi, h) = ground arith

read_line :
    (text : List ℕ) (q p : List ℕ)
    → fields [] text ≡ q ∷ p ∷ []
    → read_cpu_max (some text) ≡ cpu_max_of (q ∷ p ∷ [])
unfolding read_cpu_max
read_line text q p e = ap cpu_max_of e

cpu_max_of-digits :
    (q p : ℕ)
    → q < u64_mod
    → p < u64_mod
    → 1 ≤ p
    → cpu_max_of (format q ∷ format p ∷ []) ≡ constrained q p
unfolding cpu_max_of check_period
cpu_max_of-digits q p hq hp positive =
    rw
      (
        digits_not_max (format q) (format-AllDigits q),
        parse_uint-format q hq,
        parse_uint-format p hp,
      )
      (ground arith)

cpu_max_of_max : (p : List ℕ) → cpu_max_of (codes "max" ∷ p ∷ []) ≡ unconstrained
unfolding cpu_max_of
cpu_max_of_max p = refl

-- The line of cpu.max that the kernel writes for a quota and a positive period, both in uint64, is
-- read back as these; a line without a quota is unconstrained.
pub read_cpu_max-line :
    (q p : ℕ)
    → q < u64_mod
    → p < u64_mod
    → 1 ≤ p
    → (read_cpu_max (some (cpu_max_line q p)) ≡ constrained q p)
      × (read_cpu_max (some (max_line p)) ≡ unconstrained)
read_cpu_max-line q p hq hp positive = (
  read_line (cpu_max_line q p) (format q) (format p) (fields-line q p)
      ∙ cpu_max_of-digits q p hq hp positive,
  read_line (max_line p) (codes "max") (format p)
        (fields_max (format p ++ 10 ∷ []) ∙ ap (λ t. codes "max" ∷ t) (fields-period p))
      ∙ cpu_max_of_max (format p),
)

-- ===== src/Text/Decimal.antt =====
-- Numbers in Go's texts, as lists of code points: how %d prints a natural number, and how
-- strconv.ParseUint and strconv.ParseInt read one to base 10.
use mathlib.Core.List.{cons-ne-nil}
use media_processor.Prelude.{
  ℕ, zero, suc, ◌+◌, ◌-◌, ◌*◌, ◌/◌, ◌%◌, ◌≤◌, ◌<◌, ◌≡◌, ◌≢◌, refl, ◌∙◌, inl, inr, Bool, true, false,
  ◌&&◌, List, [], ◌∷◌, Option, none, some, arith, ltb, leb, ◌==◌, if◌then◌else◌, Bool-cases,
}
use media_processor.Prelude.Int.{ℤ, pos, sub_ℕ, ◌<ℤ◌}

-- 2 ^ 64.
abbrev pub u64_mod : ℕ
u64_mod = 18_446_744_073_709_551_616

-- The digits of a number in front of `out`, with fuel; as much fuel as the number is enough.
unfoldable pub show_digits : ℕ → ℕ → List ℕ → List ℕ
show_digits zero n out = out
show_digits (suc fuel) n out =
    let rest = show_digits fuel (n / 10) ((b'0' + n % 10) ∷ out) in if n == 0 then out else rest

unfoldable pub format : ℕ → List ℕ
unfolding show_digits
format n = if n == 0 then b'0' ∷ [] else show_digits n n []

unfoldable pub is_digit : ℕ → Bool
is_digit c = leb b'0' c && leb c b'9'

-- The value of digits behind `n`, unless it leaves uint64.
unfoldable pub scan_digits : ℕ → List ℕ → Option ℕ
unfolding is_digit
scan_digits n [] = some n
scan_digits n (c ∷ s) =
    let rest = scan_digits (n * 10 + (c - b'0')) s in
    if is_digit c && ltb (n * 10 + (c - b'0')) u64_mod then rest else none

-- strconv.ParseUint(s, 10, 64).
unfoldable pub parse_uint : List ℕ → Option ℕ
unfolding scan_digits
parse_uint [] = none
parse_uint (c ∷ s) = scan_digits 0 (c ∷ s)

-- A sign and the number behind it, within a signed integer type; `bound` is 2 ^ (w - 1).
unfoldable pub signed : ℕ → Bool → Option ℕ → Option ℤ
signed bound negative none = none
signed bound false (some n) = if ltb n bound then some (pos n) else none
signed bound true (some n) = if leb n bound then some (sub_ℕ 0 n) else none

-- strconv.ParseInt(s, 10, w).
unfoldable pub parse_int : ℕ → List ℕ → Option ℤ
unfolding signed parse_uint
parse_int bound [] = none
parse_int bound (c ∷ s) =
    if c == b'-'
    then signed bound true (parse_uint s)
    else if c == b'+'
    then signed bound false (parse_uint s)
    else signed bound false (parse_uint (c ∷ s))

scan_last :
    (n : ℕ) (out : List ℕ)
    → n < u64_mod
    → scan_digits (n / 10) ((b'0' + n % 10) ∷ out) ≡ scan_digits n out
unfolding scan_digits
scan_last n out h = ground arith

scan-show :
    (fuel n : ℕ) (out : List ℕ)
    → n ≤ fuel
    → n < u64_mod
    → scan_digits 0 (show_digits fuel n out) ≡ scan_digits n out
unfolding show_digits
scan-show zero n out le lt = ground arith
scan-show (suc fuel) n out le lt = elim (Bool-cases (n == 0)) [
  | inl z ↦ rw z (ground arith)
  | inr p ↦ rw p (
      scan-show fuel (n / 10) ((b'0' + n % 10) ∷ out) (ground arith) (omega arith)
      ∙ scan_last n out lt)
]

-- A list of digits.
abbrev pub AllDigits : List ℕ → Type 0
AllDigits [] = Unit
AllDigits (c ∷ s) = (b'0' ≤ c) × (c ≤ b'9') × AllDigits s

show-AllDigits : (fuel n : ℕ) (out : List ℕ) → AllDigits out → AllDigits (show_digits fuel n out)
unfolding show_digits
show-AllDigits zero n out h = h
show-AllDigits (suc fuel) n out h = elim (Bool-cases (n == 0)) [
  | inl z ↦ rw z h
  | inr p ↦
      rw p (show-AllDigits fuel (n / 10) ((b'0' + n % 10) ∷ out) (omega arith, omega arith, h))
]

show-ne-nil : (fuel n : ℕ) (out : List ℕ) → out ≢ [] → show_digits fuel n out ≢ []
unfolding show_digits
show-ne-nil zero n out h = h
show-ne-nil (suc fuel) n out h = elim (Bool-cases (n == 0)) [
  | inl z ↦ rw z h
  | inr p ↦ rw p (show-ne-nil fuel (n / 10) _ (cons-ne-nil _ out))
]

pub format-AllDigits : (n : ℕ) → AllDigits (format n)
unfolding format
format-AllDigits n = elim (Bool-cases (n == 0)) [
  | inl z ↦ rw z (omega arith, omega arith, tt)
  | inr p ↦ rw p (show-AllDigits n n [] tt)
]

-- A positive number has a digit.
show-pos : (fuel n : ℕ) (out : List ℕ) → n ≤ fuel → (n == 0) ≡ false → show_digits fuel n out ≢ []
unfolding show_digits
show-pos zero n out le p = absurd (ground arith)
show-pos (suc fuel) n out le p = rw p (show-ne-nil fuel (n / 10) _ (cons-ne-nil _ out))

pub format-ne-nil : (n : ℕ) → format n ≢ []
unfolding format
format-ne-nil n = elim (Bool-cases (n == 0)) [
  | inl z ↦ rw z (cons-ne-nil _ [])
  | inr p ↦ rw p (show-pos n n [] (omega arith) p)
]

parse_uint-scan : (s : List ℕ) → s ≢ [] → parse_uint s ≡ scan_digits 0 s
unfolding parse_uint
parse_uint-scan [] h = absurd (h refl)
parse_uint-scan (c ∷ s) h = refl

scan-format : (n : ℕ) → n < u64_mod → scan_digits 0 (format n) ≡ some n
unfolding format scan_digits
scan-format n h = elim (Bool-cases (n == 0)) [
  | inl z ↦ rw z (ground arith)
  | inr p ↦ rw p (scan-show n n [] (omega arith) h)
]

-- Every uint64 is read back from its digits.
pub parse_uint-format : (n : ℕ) → n < u64_mod → parse_uint (format n) ≡ some n
parse_uint-format n h = parse_uint-scan (format n) (format-ne-nil n) ∙ scan-format n h

signed-bounded :
    (bound : ℕ) (negative : Bool) (n : Option ℕ) (x : ℤ)
    → 1 ≤ bound
    → signed bound negative n ≡ some x
    → x <ℤ pos bound
unfolding signed
signed-bounded bound negative none x h e = cc e
signed-bounded bound false (some n) x h e = ground arith
signed-bounded bound true (some n) x h e = ground arith

-- A number that was read is below the bound of its type.
pub parse_int-bounded :
    (bound : ℕ) (s : List ℕ) (x : ℤ) → 1 ≤ bound → parse_int bound s ≡ some x → x <ℤ pos bound
unfolding parse_int
parse_int-bounded bound [] x h e = cc e
parse_int-bounded bound (c ∷ s) x h e = elim (Bool-cases (c == b'-')) [
  | inl m ↦ signed-bounded bound true (parse_uint s) x h (ground arith)
  | inr m ↦ elim (Bool-cases (c == b'+')) [
    | inl l ↦ signed-bounded bound false (parse_uint s) x h (ground arith)
    | inr l ↦ signed-bounded bound false (parse_uint (c ∷ s)) x h (ground arith)
  ]
]
